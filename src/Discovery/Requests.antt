-- ===== src/Discovery/Requests.antt =====
-- What `ServiceManager` answers: services that are made on demand, and the first registration in one.
use pole.Prelude.{
  ℕ, ◌≡◌, refl, ◌∙◌, false, none, some, [], ◌∷◌, ◌++◌, arith, Text, lookup, insert, str_eq, inl,
  inr, returned,
}
use pole.Prelude.Tests.{Option-cases}
use pole.Prelude.Maps.{lookup-insert_self}
use pole.Discovery.Model.{
  OriginInstance, parse_service_name, parse_cluster_name, parse_instance_key, parse_to_instance,
  get_key,
}
use pole.Prelude.ConcurrentMaps.{ConcurrentMapApi}
use pole.Discovery.Interfaces.{DiscoveryStorage}
use pole.Discovery.Services.{Service}
use pole.Discovery.Manager.{
  ServiceManager, Made, made, refused, namespace_of, open_namespace, new_service, set_service,
  on_saved, create_service_if_absent, find_service, store_instance_info, instance_of, add_instance,
}

nonempty : (x : Text) (c : ℕ) (y : Text) → str_eq (x ++ c ∷ y) [] ≡ false
unfolding str_eq
nonempty [] c y = refl
nonempty (_ ∷ _) c y = refl

-- A key of `ParseInstanceKey` is never empty.
get_key-instance_of : (i : OriginInstance) → get_key (instance_of i) ≡ returned (instance_of i).key
unfolding get_key instance_of parse_to_instance parse_instance_key parse_cluster_name
get_key-instance_of i =
    rw
      (
        nonempty (parse_cluster_name (parse_service_name i.service_name i.group) i.cluster_name) 61
            _,
        get_key,
      )
      refl

module _ (maps : ConcurrentMapApi) (store : DiscoveryStorage) where
  pub find-open :
      (ns name : Text) (sm : ServiceManager maps store)
      → lookup name (namespace_of maps store ns (open_namespace maps store ns sm.services))
        ≡ find_service maps store ns name sm
  unfolding open_namespace find_service lookup
  find-open ns name sm = elim (Option-cases (lookup ns sm.services)) [
    | inl e ↦
        rw (e, lookup-insert_self ns [] sm.services, open_namespace, namespace_of, find_service)
          refl
    | inr (m, e) ↦ rw (e, open_namespace, find_service) (rw (e, namespace_of) refl)
  ]

  pub found :
      (ns name : Text) (s : Service maps) (sm : ServiceManager maps store)
      → find_service maps store ns name (set_service maps store ns name s sm) ≡ some s
  unfolding find_service set_service
  found ns name s sm =
      rw
        (
          lookup-insert_self ns (insert name s (namespace_of maps store ns sm.services))
              sm.services,
          lookup-insert_self name s (namespace_of maps store ns sm.services),
          find_service,
        )
        refl

  pub unmade :
      (ns name : Text) (st : store.State) (sm : ServiceManager maps store)
      → find_service maps store ns name
          (record sm { services = open_namespace maps store ns sm.services; stored = st })
        ≡ find_service maps store ns name sm
  unfolding open_namespace find_service lookup
  unmade ns name st sm = elim (Option-cases (lookup ns sm.services)) [
    | inl e ↦ rw (e, lookup-insert_self ns [] sm.services, open_namespace, find_service) refl
    | inr (m, e) ↦ rw (e, open_namespace, find_service) (rw (e, find_service) refl)
  ]

  reopened :
      (ns name : Text) (s : Service maps) (sm : ServiceManager maps store)
      → find_service maps store ns name sm ≡ some s
      → open_namespace maps store ns sm.services ≡ sm.services
  unfolding find_service open_namespace
  reopened ns name s sm e = ground arith

  module _ (ns service_name group : Text) where
    abbrev pub name : Text
    name = parse_service_name service_name group

    abbrev pub fresh : Service maps
    fresh = new_service maps store service_name group

    abbrev pub create : ServiceManager maps store → Made maps store × ServiceManager maps store
    create sm = create_service_if_absent maps store ns service_name group sm

    abbrev pub opened : ServiceManager maps store → ServiceManager maps store
    opened sm = record sm {
      services = open_namespace maps store ns sm.services;
      stored = (store.save_service name sm.stored).1;
    }

    pub create_saved :
        (sm : ServiceManager maps store)
        → find_service maps store ns name sm ≡ none
        → (store.save_service name sm.stored).0 ≡ none
        → create sm ≡ (made fresh, set_service maps store ns name fresh (opened sm))
    unfolding create_service_if_absent on_saved new_service
    create_saved sm absent saved =
        rw (find-open ns name sm ∙ absent, saved, create_service_if_absent, on_saved) refl

    pub create_refused :
        (sm : ServiceManager maps store) (err : Text)
        → find_service maps store ns name sm ≡ none
        → (store.save_service name sm.stored).0 ≡ some err
        → create sm ≡ (refused err, opened sm)
    unfolding create_service_if_absent on_saved
    create_refused sm err absent saved =
        rw (find-open ns name sm ∙ absent, saved, create_service_if_absent, on_saved) refl

    pub create_again :
        (sm : ServiceManager maps store) (s : Service maps)
        → find_service maps store ns name sm ≡ some s
        → create sm ≡ (made s, sm)
    unfolding create_service_if_absent
    create_again sm s there =
        rw (find-open ns name sm ∙ there, reopened ns name s sm there, create_service_if_absent)
          refl

    -- Where there is no such service and the storage is asked to save it: if it does, the service is
    -- made and found from then on; if it refuses, its error is the answer, and there is still no such
    -- service.
    pub create_service_if_absent_lem :
        (sm : ServiceManager maps store)
        → find_service maps store ns name sm ≡ none
        → ((create sm).0 ≡ (elim (store.save_service name sm.stored).0 [
          | none ↦ made fresh
          | some err ↦ refused err
        ]))
          × (find_service maps store ns name (create sm).1
              ≡ (elim (store.save_service name sm.stored).0 [ none ↦ some fresh | some _ ↦ none ]))
    create_service_if_absent_lem sm absent =
        elim (Option-cases (store.save_service name sm.stored).0) [
          | inl saved ↦
              rw (create_saved sm absent saved, saved) (refl, found ns name fresh (opened sm))
          | inr (err, saved) ↦
              rw (create_refused sm err absent saved, saved)
                (refl, unmade ns name (store.save_service name sm.stored).1 sm ∙ absent)
        ]

    -- Once the storage has saved a service, asking for it again answers the same and changes nothing.
    pub create_service_if_absent_twice :
        (sm : ServiceManager maps store)
        → find_service maps store ns name sm ≡ none
        → (store.save_service name sm.stored).0 ≡ none
        → create (create sm).1 ≡ create sm
    create_service_if_absent_twice sm absent saved = rw (create_saved sm absent saved) (
        create_again (set_service maps store ns name fresh (opened sm)) fresh
          (found ns name fresh (opened sm)))

  pub add-created :
      (now : ℕ) (ns : Text) (i : OriginInstance) (s : Service maps)
      (sm sm' : ServiceManager maps store)
      → create_service_if_absent maps store ns i.service_name i.group sm ≡ (made s, sm')
      → add_instance maps store now ns i sm
        ≡ store_instance_info maps store now ns s (instance_of i) sm'
  unfolding add_instance
  add-created now ns i s sm sm' e = rw (e, add_instance) (rw e refl)
