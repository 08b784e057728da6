-- ===== src/Discovery/Refusals.antt =====
-- What the requests of server/discovery/discovery_core.go come to on the services that the program makes,
-- whose maps of clusters are zero values.
use mathlib.Core.Path.{subst}
use pole.Prelude.{
  ℕ, ◌≡◌, ◌⊎◌, refl, ap, ◌∙◌, sym, Option, none, some, List, [], ◌∷◌, arith, All, Text, lookup,
  insert, lookup-insert, str_eq, str_eq_iff, inl, inr, Outcome, returned, panicked, if◌then◌else◌,
}
use pole.Prelude.Tests.{Option-cases}
use pole.Discovery.Model.{Instance, OriginInstance, parse_service_name, parse_cluster_name}
use pole.Prelude.ConcurrentMaps.{ConcurrentMapApi, IsNilMap}
use pole.Discovery.Interfaces.{DiscoveryStorage}
use pole.Discovery.Services.{Response, failure, Cluster, Service, new_cluster, open_cluster}
use pole.Discovery.Manager.{
  ServiceManager, new_service, set_service, find_service, store_instance_info, instance_of,
  add_instance, remove_instance, namespace_of, answer, open_namespace,
}
use pole.Discovery.Requests.{create_saved, create_refused, create_again, opened, add-created}
use pole.Discovery.Deregistration.{remove_instance_panics}

-- What a client asks for: to register an instance, at a time, or to deregister one.
pub data Request : Type 0 where
  register : ℕ → Text → OriginInstance → Request
  deregister : Text → OriginInstance → Request

module _ (maps : ConcurrentMapApi) (store : DiscoveryStorage) where
  unfoldable pub serve_request : Request → ServiceManager maps store → ServiceManager maps store
  unfolding add_instance remove_instance
  serve_request (register now ns i) sm = (add_instance maps store now ns i sm).1
  serve_request (deregister ns i) sm = (remove_instance maps store ns i sm).1

  unfoldable pub serve_all : List Request → ServiceManager maps store → ServiceManager maps store
  unfolding serve_request
  serve_all [] sm = sm
  serve_all (r ∷ rs) sm = serve_all rs (serve_request r sm)

module _ (maps : ConcurrentMapApi) (laws : IsNilMap maps) where
  -- A service without a cluster ever made.
  abbrev IsBareService : Service maps → Type 0
  IsBareService s = s.clusters ≡ maps.zero (Cluster maps)

  cannot_open :
      (i : Instance) (s : Service maps) → IsBareService s → open_cluster maps i s ≡ panicked
  unfolding open_cluster
  cannot_open i s h =
      let name : Text = parse_cluster_name s.name i.origin_instance.cluster_name in
      let unseen : maps.get (Cluster maps) name s.clusters ≡ none =
        ap (maps.get (Cluster maps) name) h ∙ laws.get-zero (Cluster maps) name in
      let unmade_map : maps.put (Cluster maps) i.origin_instance.cluster_name
            (new_cluster maps name i) s.clusters
          ≡ panicked =
        ap (maps.put (Cluster maps) i.origin_instance.cluster_name (new_cluster maps name i)) h
        ∙ laws.put-zero (Cluster maps) i.origin_instance.cluster_name (new_cluster maps name i) in
      rw (unseen, unmade_map, open_cluster) refl

  module _ (store : DiscoveryStorage) where
    abbrev Manager : Type 0
    Manager = ServiceManager maps store

    -- Every service is without a cluster.
    pub record IsBare (sm : Manager) : Type 0 where
      pub bare :
          (ns name : Text) (s : Service maps)
          → find_service maps store ns name sm ≡ some s
          → s.clusters ≡ maps.zero (Cluster maps)

    -- Where a service is found after one of this name was set.
    find-set_service :
        (ns name ns' name' : Text) (s : Service maps) (sm : Manager)
        → find_service maps store ns' name' (set_service maps store ns name s sm) ≡ (
            if str_eq ns ns'
            then if str_eq name name' then some s else find_service maps store ns' name' sm
            else find_service maps store ns' name' sm)
    unfolding find_service set_service lookup
    find-set_service ns name ns' name' s sm = ground (
      arith,
      str_eq_iff ns ns',
      lookup-insert ns ns' (insert name s (namespace_of maps store ns sm.services)) sm.services,
      lookup-insert name name' s (namespace_of maps store ns sm.services),
    )

    -- A namespace that is made has no service yet.
    find-open_namespace :
        (ns ns' name' : Text) (st : store.State) (sm : Manager)
        → find_service maps store ns' name'
            (record sm { services = open_namespace maps store ns sm.services; stored = st })
          ≡ find_service maps store ns' name' sm
    unfolding find_service open_namespace lookup
    find-open_namespace ns ns' name' st sm =
        ground (arith, str_eq_iff ns ns', lookup-insert ns ns' [] sm.services)

    set-IsBare :
        (ns name : Text) (s : Service maps) (sm : Manager)
        → IsBareService s
        → IsBare sm
        → IsBare (set_service maps store ns name s sm)
    set-IsBare ns name s sm hs h = record {
      bare = λ ns' name' s' there.
          let e = find-set_service ns name ns' name' s sm in
          ground (arith, e, there, hs, h.bare ns' name' s');
    }

    store_panics :
        (now : ℕ) (ns : Text) (s : Service maps) (i : Instance) (sm : Manager)
        → IsBareService s
        → store_instance_info maps store now ns s i sm ≡ (panicked, sm)
    unfolding store_instance_info
    store_panics now ns s i sm h = rw (cannot_open i s h, store_instance_info) refl

    module _ (now : ℕ) (ns : Text) (i : OriginInstance) (sm : Manager) (h : IsBare sm) where
      abbrev name : Text
      name = parse_service_name i.service_name i.group

      abbrev saved : Option Text × store.State
      saved = store.save_service name sm.stored

      abbrev fresh : Service maps
      fresh = new_service maps store i.service_name i.group

      abbrev begun : Manager
      begun = opened maps store ns i.service_name i.group sm

      add_known :
          (s : Service maps)
          → find_service maps store ns name sm ≡ some s
          → add_instance maps store now ns i sm ≡ (panicked, sm)
      add_known s there =
          add-created maps store now ns i s sm sm
            (create_again maps store ns i.service_name i.group sm s there)
          ∙ store_panics now ns s (instance_of i) sm (h.bare ns name s there)

      add_new :
          find_service maps store ns name sm ≡ none
          → saved.0 ≡ none
          → add_instance maps store now ns i sm
            ≡ (panicked, set_service maps store ns name fresh begun)
      unfolding new_service
      add_new absent ok =
          add-created maps store now ns i fresh sm (set_service maps store ns name fresh begun)
            (create_saved maps store ns i.service_name i.group sm absent ok)
          ∙ store_panics now ns fresh (instance_of i) (set_service maps store ns name fresh begun)
              refl

      add_refused :
          (err : Text)
          → find_service maps store ns name sm ≡ none
          → saved.0 ≡ some err
          → add_instance maps store now ns i sm
            ≡ (returned tt, record begun { sent = failure err ∷ sm.sent })
      unfolding add_instance
      add_refused err absent e =
          let r = create_refused maps store ns i.service_name i.group sm err absent e in
          rw (r, add_instance) (ap (λ t. answer maps store (failure err) t.1) r)

      -- What a registration answers: nothing and a panic, unless the storage refused the service.
      abbrev ends : Option (Service maps) → Option Text → Outcome (Unit {0})
      ends (some _) o = panicked
      ends none none = panicked
      ends none (some _) = returned tt

      abbrev sends : Option (Service maps) → Option Text → List Response
      sends (some _) o = sm.sent
      sends none none = sm.sent
      sends none (some err) = failure err ∷ sm.sent

      -- Where the zero value of a concurrent map is a nil map, and every service of the manager
      -- has this value for its clusters, as has each that the program makes: a registration panics
      -- without an answer, whether the service is there or is made for it; only where the storage
      -- refuses to save a new service, its error is answered. The instance is not saved, no lease
      -- is granted, and every service is still without a cluster.
      pub add_instance_lem :
          ((add_instance maps store now ns i sm).0
            ≡ ends (find_service maps store ns name sm) saved.0)
          × ((add_instance maps store now ns i sm).1.sent
              ≡ sends (find_service maps store ns name sm) saved.0)
          × ((add_instance maps store now ns i sm).1.stored
              ≡ elim (find_service maps store ns name sm) [ some _ ↦ sm.stored | none ↦ saved.1 ])
          × ((add_instance maps store now ns i sm).1.less_holder ≡ sm.less_holder)
          × IsBare (add_instance maps store now ns i sm).1
      unfolding set_service new_service find_service
      add_instance_lem =
          let begun_bare : IsBare begun = record {
            bare = λ ns' name' s' there.
                h.bare ns' name' s' (sym (find-open_namespace ns ns' name' saved.1 sm) ∙ there);
          } in
          elim (Option-cases (find_service maps store ns name sm)) [
            | inr (s, there) ↦ rw (add_known s there, there) (refl, refl, refl, refl, h)
            | inl absent ↦ elim (Option-cases saved.0) [
              | inl ok ↦
                  rw (add_new absent ok, absent, ok)
                    (refl, refl, refl, refl, set-IsBare ns name fresh begun refl begun_bare)
              | inr (err, e) ↦
                  rw (add_refused err absent e, absent, e)
                    (refl, refl, refl, refl, record { bare = begun_bare.bare })
            ]
          ]

    module _ (ns : Text) (i : OriginInstance) (sm : Manager) (h : IsBare sm) where
      abbrev Unfinished : ServiceManager maps store → Type 0
      Unfinished sm' =
          ((sm'.sent ≡ sm.sent) ⊎ ((msg : Text) × (sm'.sent ≡ failure msg ∷ sm.sent)))
          × (sm'.less_holder ≡ sm.less_holder)
          × IsBare sm'

      remove-Unfinished : Unfinished (remove_instance maps store ns i sm).1
      unfolding remove_instance find_service
      remove-Unfinished = elim (Option-cases (lookup ns sm.services)) [
        | inl e ↦ rw (e, remove_instance) (inr (_, refl), refl, record { bare = h.bare })
        | inr (m, e) ↦ elim (Option-cases (lookup (parse_service_name i.service_name i.group) m)) [
          | inl absent ↦
              rw (e, absent, remove_instance) (inr (_, refl), refl, record { bare = h.bare })
          | inr (s, there) ↦
              let known : find_service maps store ns (parse_service_name i.service_name i.group) sm
                  ≡ some s =
                rw (e, find_service) there in
              let panics = remove_instance_panics maps store ns i s sm known (
                ap (maps.get (Cluster maps) i.cluster_name)
                  (h.bare ns (parse_service_name i.service_name i.group) s known)
                ∙ laws.get-zero (Cluster maps) i.cluster_name) in
              rw panics (inl refl, refl, h)
        ]
      ]

      add-Unfinished : (now : ℕ) → Unfinished (add_instance maps store now ns i sm).1
      add-Unfinished now =
          let r = add_instance_lem now ns i sm h in
          (
            elim (Option-cases
                (find_service maps store ns (parse_service_name i.service_name i.group) sm)) [
                  | inr (s, there) ↦ inl (r.1 ∙ rw there refl)
                  | inl absent ↦
                      elim (Option-cases
                        (store.save_service (parse_service_name i.service_name i.group)
                          sm.stored).0) [
                            | inl ok ↦ inl (r.1 ∙ rw (absent, ok) refl)
                            | inr (err, e) ↦ inr (err, r.1 ∙ rw (absent, e) refl)
                          ]
                ],
            r.3,
            r.4,
          )

    served :
        (r : Request) (sm : Manager) (h : IsBare sm)
        → Unfinished
            (elim r [ register now ns i ↦ ns | deregister ns i ↦ ns ])
            (elim r [ register now ns i ↦ i | deregister ns i ↦ i ])
            sm
            h
            (serve_request maps store r sm)
    unfolding serve_request
    served (register now ns i) sm h = add-Unfinished ns i sm h now
    served (deregister ns i) sm h = remove-Unfinished ns i sm h

    abbrev pub IsFailure : Response → Type 0
    IsFailure r = r.code ≡ 500

    sent_failures :
        (before after : List Response)
        → (after ≡ before) ⊎ ((msg : Text) × (after ≡ failure msg ∷ before))
        → All IsFailure before
        → All IsFailure after
    sent_failures before after (inl e) h = subst (All IsFailure) (sym e) h
    sent_failures before after (inr (msg, e)) h = subst (All IsFailure) (sym e) (refl, h)

    -- Where the zero value of a concurrent map is a nil map, every service of the manager has this
    -- value for its clusters, and nothing but failures was sent: whatever is registered and
    -- deregistered, no request is ever answered with success, the lessor stays as it was, and no
    -- service ever has a cluster.
    pub serve_all_lem :
        (rs : List Request) (sm : Manager)
        → IsBare sm
        → All IsFailure sm.sent
        → All IsFailure (serve_all maps store rs sm).sent
          × ((serve_all maps store rs sm).less_holder ≡ sm.less_holder)
          × IsBare (serve_all maps store rs sm)
    unfolding serve_all
    serve_all_lem [] sm h f = (f, refl, h)
    serve_all_lem (r ∷ rs) sm h f =
        let one = served r sm h in
        let rest =
          serve_all_lem rs (serve_request maps store r sm) one.2
            (sent_failures sm.sent (serve_request maps store r sm).sent one.0 f) in
        (rest.0, rest.1 ∙ one.1, rest.2)
