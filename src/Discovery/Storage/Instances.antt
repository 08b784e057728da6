-- ===== src/Discovery/Storage/Instances.antt =====
-- Where `kvDiscoveryStorage` keeps instances.
use mathlib.Core.Path.{subst}
use pole.Prelude.{
  ◌≡◌, ◌≢◌, refl, sym, ap, ◌∙◌, true, Option, none, some, List, [], ◌∷◌, arith, All, All-map, Text,
  str_eq, str_eq_refl, Outcome, returned, panicked, if◌then◌else◌,
}
use pole.Prelude.ConcurrentMaps.{ConcurrentMapApi}
use pole.Storage.Kv.{KvStorage, Result, ok, err, IsKv, assigned}
use pole.Discovery.Model.{Instance, get_key}
use pole.Discovery.Storage.{
  Messages, KvDiscoveryStorage, Pairs, call, with_pairs, kv_write_batch, gather, gather_one,
  batch_update_instance,
}
use pole.Discovery.Storage.Services.{call_ok, call_state}

abbrev Gathered :
    Outcome Text → Result Text → Outcome (Result Pairs) → List Text → List Text → Type 0
Gathered key value rest ks vs =
    (k : Text) × (v : Text) × (ks' : List Text) × (vs' : List Text) × (key ≡ returned k)
    × (value ≡ ok v)
    × (rest ≡ returned (ok (ks', vs')))
    × (ks ≡ k ∷ ks')
    × (vs ≡ v ∷ vs')

gather_one_lem :
    (key : Outcome Text) (value : Result Text) (rest : Outcome (Result Pairs)) (ks vs : List Text)
    → gather_one key value rest ≡ returned (ok (ks, vs))
    → Gathered key value rest ks vs
gather_one_lem panicked value rest ks vs e = absurd (ground (arith, e))
gather_one_lem (returned key) (err m) rest ks vs e = absurd (ground (arith, e))
gather_one_lem (returned key) (ok value) panicked ks vs e = absurd (ground (arith, e))
gather_one_lem (returned key) (ok value) (returned (err m)) ks vs e = absurd (ground (arith, e))
gather_one_lem (returned key) (ok value) (returned (ok (keys, values))) ks vs e =
    (key, value, keys, values, refl, refl, refl, ground (arith, e), ground (arith, e))

-- Present after a batch: what was present before, and every key of the batch.
assigned_keeps :
    (ks vs : List Text) (m : Text → Option Text) (j : Text) → m j ≢ none → assigned ks vs m j ≢ none
unfolding assigned
assigned_keeps [] vs m j h = h
assigned_keeps (k ∷ ks) [] m j h = h
assigned_keeps (k ∷ ks) (v ∷ vs) m j h =
    assigned_keeps ks vs (λ i. if str_eq k i then some v else m i) j (λ e. ground (arith, h, e))

assigned_first :
    (k v : Text) (ks vs : List Text) (m : Text → Option Text)
    → assigned (k ∷ ks) (v ∷ vs) m k ≢ none
unfolding assigned
assigned_first k v ks vs m =
    assigned_keeps ks vs (λ i. if str_eq k i then some v else m i) k
      (λ e. ground (arith, str_eq_refl k, e))

get_key_lem : (i : Instance) (k : Text) → get_key i ≡ returned k → k ≡ i.key
unfolding get_key
get_key_lem i k e = ground (arith, e)

abbrev AllPresent : List Text → List Text → (Text → Option Text) → List Instance → Type 0
AllPresent ks vs m = All (λ (i : Instance). assigned ks vs m i.key ≢ none)

module _ (marshal : Instance → Result Text) where
  gathered_present :
      (is : List Instance) (ks vs : List Text) (m : Text → Option Text)
      → gather get_key marshal is ≡ returned (ok (ks, vs))
      → AllPresent ks vs m is
  unfolding gather assigned
  gathered_present [] ks vs m e = tt
  gathered_present (i ∷ is) ks vs m e =
      let (k, v, ks', vs', key, value, rest, whole_keys, whole_values) =
        gather_one_lem (get_key i) (marshal i) (gather get_key marshal is) ks vs e in
      let first : assigned (k ∷ ks') (v ∷ vs') m i.key ≢ none =
        subst (λ j. assigned (k ∷ ks') (v ∷ vs') m j ≢ none) (get_key_lem i k key)
          (assigned_first k v ks' vs' m) in
      let others = gathered_present is ks' vs' (λ j. if str_eq k j then some v else m j) rest in
      subst (λ zs. AllPresent zs vs m (i ∷ is)) (sym whole_keys)
        (subst (λ zs. AllPresent (k ∷ ks') zs m (i ∷ is)) (sym whole_values) (first, others))

module _ (messages : Messages) (maps : ConcurrentMapApi) where
  module _ (memory disk : KvStorage) where
    abbrev Store : Type 0
    Store = KvDiscoveryStorage messages maps memory disk

    abbrev marshal_of : Instance → Result Text
    marshal_of i = messages.marshal_instance i.origin_instance

    module _ (law : IsKv memory) (is : List Instance) (st : Store) where
      -- What follows the loop, in memory.
      abbrev finish : Outcome (Result Pairs) → Outcome (Result (List Instance)) × Store
      finish g =
          with_pairs g
            (λ keys. λ values.
              λ st'. call is (kv_write_batch messages maps memory disk true keys values st'))
            st

      abbrev InMemory : Outcome (Result (List Instance)) × Store → Type 0
      InMemory r =
          (r.1.disk_kv ≡ st.disk_kv)
          × All (λ (j : Instance). law.contents r.1.memory_kv j.key ≢ none) is

      finish_lem :
          (g : Outcome (Result Pairs))
          → gather get_key marshal_of is ≡ g
          → (finish g).0 ≡ returned (ok is)
          → InMemory (finish g)
      finish_lem panicked e taken = absurd (ground (arith, taken))
      finish_lem (returned (err m)) e taken = absurd (ground (arith, taken))
      finish_lem (returned (ok (ks, vs))) e taken =
          let w = memory.write_batch ks vs st.memory_kv in
          let none_given : w.0 ≡ returned none =
            call_ok is is w.0 (record st { memory_kv = w.1 }) taken in
          let end = call_state is w.0 (record st { memory_kv = w.1 }) in
          let now =
            law.contents-write_batch ks vs st.memory_kv w.1 (ap (λ o. (o, w.1)) none_given) in
          (
            ap (λ s. s.disk_kv) end,
            All-map is
                (λ j present.
                  subst (λ (s : Store). law.contents s.memory_kv j.key ≢ none) (sym end)
                    (subst (λ o. o ≢ none) (sym (now j.key)) present))
                (gathered_present marshal_of is ks vs (law.contents st.memory_kv) e),
          )

    -- A batch whose first instance is temporary was taken without an error: the storage in memory holds
    -- every key of it, those of persistent instances too, and the storage on disk is as it was.
    pub batch_update_instance_mixed :
        (law : IsKv memory) (i : Instance) (is : List Instance)
        (st : KvDiscoveryStorage messages maps memory disk)
        → i.origin_instance.ephemeral ≡ true
        → (batch_update_instance messages maps memory disk (i ∷ is) st).0 ≡ returned (ok (i ∷ is))
        → ((batch_update_instance messages maps memory disk (i ∷ is) st).1.disk_kv ≡ st.disk_kv)
          × All
              (λ (j : Instance).
                law.contents
                  (batch_update_instance messages maps memory disk (i ∷ is) st).1.memory_kv
                  j.key
                ≢ none)
              (i ∷ is)
    unfolding batch_update_instance
    batch_update_instance_mixed law i is st temporary taken =
        let whole : batch_update_instance messages maps memory disk (i ∷ is) st
            ≡ finish law (i ∷ is) st (gather get_key marshal_of (i ∷ is)) =
          rw temporary refl in
        subst (InMemory law (i ∷ is) st) (sym whole) (
          finish_lem law (i ∷ is) st (gather get_key marshal_of (i ∷ is)) refl
            (sym (ap (λ r. r.0) whole) ∙ taken))
