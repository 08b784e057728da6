-- ===== src/Discovery/Deregistration.antt =====
-- What `removeInstance` of server/discovery/discovery_core.go does to a service.
use pole.Prelude.{
  ◌≡◌, refl, none, some, ◌∷◌, arith, Text, Dict, lookup, inl, inr, Outcome, returned, panicked,
}
use pole.Prelude.Tests.{Option-cases}
use pole.Discovery.Model.{OriginInstance, parse_service_name, parse_to_instance}
use pole.Prelude.ConcurrentMaps.{ConcurrentMapApi}
use pole.Discovery.Interfaces.{DiscoveryStorage}
use pole.Discovery.Services.{success, Cluster, Service, service_remove_instance}
use pole.Discovery.Manager.{ServiceManager, set_service, find_service, instance_of, remove_instance}

module _ (maps : ConcurrentMapApi) (store : DiscoveryStorage) where
  in_namespace :
      (ns name : Text) (s : Service maps) (sm : ServiceManager maps store)
      → find_service maps store ns name sm ≡ some s
      → (m : Dict (Service maps)) × ((lookup ns sm.services ≡ some m) × (lookup name m ≡ some s))
  unfolding find_service
  in_namespace ns name s sm there = elim (Option-cases (lookup ns sm.services)) [
    | inl e ↦ absurd (ground arith)
    | inr (m, e) ↦ (m, (e, ground arith))
  ]

  -- What `removeInstance` answers for what becomes of the service.
  abbrev removed :
      Text
      → Text
      → Outcome (Service maps)
      → ServiceManager maps store
      → Outcome (Unit {0}) × ServiceManager maps store
  removed ns n panicked sm = (panicked, sm)
  removed ns n (returned s) sm =
      (returned tt, record (set_service maps store ns n s sm) { sent = success ∷ sm.sent })

  remove_here :
      (ns : Text) (i : OriginInstance) (s : Service maps) (o : Outcome (Service maps))
      (sm : ServiceManager maps store)
      → find_service maps store ns (parse_service_name i.service_name i.group) sm ≡ some s
      → service_remove_instance maps (instance_of i) s ≡ o
      → remove_instance maps store ns i sm
        ≡ removed ns (parse_service_name i.service_name i.group) o sm
  unfolding remove_instance set_service
  remove_here ns i s panicked sm there e =
      let m = in_namespace ns (parse_service_name i.service_name i.group) s sm there in
      rw (m.1.0, m.1.1, e, remove_instance) refl
  remove_here ns i s (returned s') sm there e =
      let m = in_namespace ns (parse_service_name i.service_name i.group) s sm there in
      rw (m.1.0, m.1.1, e, remove_instance) refl

  -- Deregistering in a cluster that the service has not panics, and changes nothing.
  pub remove_instance_panics :
      (ns : Text) (i : OriginInstance) (s : Service maps) (sm : ServiceManager maps store)
      → find_service maps store ns (parse_service_name i.service_name i.group) sm ≡ some s
      → maps.get (Cluster maps) i.cluster_name s.clusters ≡ none
      → remove_instance maps store ns i sm ≡ (panicked, sm)
  unfolding service_remove_instance instance_of parse_to_instance
  remove_instance_panics ns i s sm there unheld =
      remove_here ns i s panicked sm there (rw (unheld, service_remove_instance) refl)
