-- ===== src/Discovery/Manager.antt =====
-- `ServiceManager` of server/discovery/discovery_core.go: the requests that register and deregister
-- an instance. The pointer to a service that a request holds is the entry of `services` that it
-- writes back. A request runs with the storage's callbacks inside it, and what a `sink.Send` sends is
-- kept in `sent`, latest first.
use pole.Prelude.{
  ℕ, Option, none, some, List, [], ◌∷◌, ◌++◌, Text, codes, Dict, lookup, insert, Outcome, returned,
  panicked, if◌then◌else◌,
}
use pole.Discovery.Model.{
  Instance, health_check_by_heartbeat, health_check_by_agent, OriginInstance, parse_service_name,
  parse_instance_key, parse_to_instance, to_int32,
}
use pole.Discovery.Lessor.{Lessor, grant_less}
use pole.Prelude.ConcurrentMaps.{ConcurrentMapApi}
use pole.Discovery.Interfaces.{DiscoveryStorage}
use pole.Discovery.Services.{
  Response, success, failure, mixed_types, is_conflict, Cluster, Service, open_cluster,
  service_add_instance, service_remove_instance,
}

-- The key and the instance that a request stands for.
unfoldable pub instance_of : OriginInstance → Instance
unfolding parse_service_name parse_instance_key parse_to_instance
instance_of i =
    (parse_to_instance
      (parse_instance_key (parse_service_name i.service_name i.group) i.cluster_name i.ip
        (to_int32 i.port))
      i).0

module _ (maps : ConcurrentMapApi) (store : DiscoveryStorage) where
  open store use {State, save_service, save_instance}

  pub record ServiceManager : Type 0 where
    pub services : Dict (Dict (Service maps))
    pub less_holder : Lessor
    pub stored : State
    pub sent : List Response

  pub data Made : Type 0 where
    made : Service maps → Made
    refused : Text → Made

  abbrev pub namespace_of : Text → Dict (Dict (Service maps)) → Dict (Service maps)
  namespace_of ns services = elim (lookup ns services) [ none ↦ [] | some namespace ↦ namespace ]

  -- `make` of the namespace where it is missing.
  unfoldable pub open_namespace : Text → Dict (Dict (Service maps)) → Dict (Dict (Service maps))
  open_namespace ns services = elim (lookup ns services) [
    | none ↦ insert ns [] services
    | some _ ↦ services
  ]

  unfoldable pub new_service : Text → Text → Service maps
  unfolding parse_service_name
  new_service service_name group = record {
    name = parse_service_name service_name group;
    service_name = service_name;
    group = group;
    clusters = maps.zero (Cluster maps);
  }

  unfoldable pub set_service : Text → Text → Service maps → ServiceManager → ServiceManager
  set_service ns name s sm = record sm {
    services = insert ns (insert name s (namespace_of ns sm.services)) sm.services;
  }

  -- The callback of `SaveService`, with what it is called with.
  unfoldable pub on_saved :
      Text → Service maps → Option Text → ServiceManager → Made × ServiceManager
  unfolding set_service
  on_saved ns s (some err) sm = (refused err, sm)
  on_saved ns s none sm = (made s, set_service ns s.name s sm)

  unfoldable pub create_service_if_absent :
      Text → Text → Text → ServiceManager → Made × ServiceManager
  unfolding open_namespace new_service on_saved parse_service_name
  create_service_if_absent ns service_name group sm =
      let opened : ServiceManager = record sm { services = open_namespace ns sm.services } in
      elim (lookup (parse_service_name service_name group) (namespace_of ns opened.services)) [
        | some s ↦ (made s, opened)
        | none ↦
            let saved : Option Text × State =
              save_service (parse_service_name service_name group) opened.stored in
            on_saved ns (new_service service_name group) saved.0
              (record opened { stored = saved.1 })
      ]

  unfoldable pub find_service : Text → Text → ServiceManager → Option (Service maps)
  find_service ns name sm = elim (lookup ns sm.services) [
    | none ↦ none
    | some services ↦ lookup name services
  ]

  abbrev pub send : Response → ServiceManager → ServiceManager
  send r sm = record sm { sent = r ∷ sm.sent }

  abbrev pub Done : Type 0
  Done = Outcome (Unit {0}) × ServiceManager

  abbrev pub answer : Response → ServiceManager → Done
  answer r sm = (returned tt, send r sm)

  -- The lease, for an instance that is checked by its heartbeats, and the answer.
  unfoldable pub confirm : ℕ → Instance → ServiceManager → Done
  unfolding grant_less
  confirm now i sm = elim i.hc_type [
    | health_check_by_heartbeat ↦
        let granted : Lessor × Outcome (Unit {0}) = grant_less now i sm.less_holder in
        elim granted.1 [
          | panicked ↦ (panicked, record sm { less_holder = granted.0 })
          | returned _ ↦ answer success (record sm { less_holder = granted.0 })
        ]
    | health_check_by_agent ↦ answer success sm
  ]

  -- The callback of `SaveInstance`.
  unfoldable pub on_instance_saved :
      ℕ → Text → Service maps → Instance → Option Text → ServiceManager → Done
  unfolding service_add_instance set_service confirm
  on_instance_saved now ns s i (some err) sm = answer (failure err) sm
  on_instance_saved now ns s i none sm = elim (service_add_instance maps i s) [
    | panicked ↦ (panicked, sm)
    | returned s' ↦ confirm now i (set_service ns s.name s' sm)
  ]

  unfoldable pub save : ℕ → Text → Service maps → Instance → ServiceManager → Done
  unfolding on_instance_saved
  save now ns s i sm =
      let saved : Option Text × State = save_instance i sm.stored in
      on_instance_saved now ns s i saved.0 (record sm { stored = saved.1 })

  unfoldable pub store_instance_info : ℕ → Text → Service maps → Instance → ServiceManager → Done
  unfolding open_cluster set_service is_conflict save
  store_instance_info now ns s i sm = elim (open_cluster maps i s) [
    | panicked ↦ (panicked, sm)
    | returned (c, s') ↦
        let opened : ServiceManager = set_service ns s.name s' sm in
        if is_conflict c.instance_type i
        then answer (failure mixed_types) opened
        else save now ns s' i opened
  ]

  unfoldable pub add_instance : ℕ → Text → OriginInstance → ServiceManager → Done
  unfolding create_service_if_absent store_instance_info instance_of
  add_instance now ns i sm =
      let created : Made × ServiceManager = create_service_if_absent ns i.service_name i.group sm in
      elim created.0 [
        | refused err ↦ answer (failure err) created.1
        | made s ↦ store_instance_info now ns s (instance_of i) created.1
      ]

  abbrev pub no_namespace : Text → Response
  no_namespace ns = failure (codes "namespace : " ++ (ns ++ codes " not exist"))

  abbrev pub no_service : Text → Response
  no_service name = failure (codes "service : " ++ (name ++ codes " not exist"))

  unfoldable pub remove_instance : Text → OriginInstance → ServiceManager → Done
  unfolding parse_service_name service_remove_instance instance_of set_service
  remove_instance ns i sm =
      let name : Text = parse_service_name i.service_name i.group in
      elim (lookup ns sm.services) [
        | none ↦ answer (no_namespace ns) sm
        | some namespace ↦ elim (lookup name namespace) [
          | none ↦ answer (no_service name) sm
          | some s ↦ elim (service_remove_instance maps (instance_of i) s) [
            | panicked ↦ (panicked, sm)
            | returned s' ↦ answer success (set_service ns name s' sm)
          ]
        ]
      ]
