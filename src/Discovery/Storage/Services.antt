-- ===== src/Discovery/Storage/Services.antt =====
-- What `ReadService` reads of a service that `SaveService` stored.
use Prim.Native.Nat.{Ordering}
use pole.Prelude.{
  ◌≡◌, ◌≢◌, refl, sym, ap, ◌∙◌, false, Option, none, some, List, [], ◌∷◌, ◌++◌, arith, Text, codes,
  str_eq, str_eq_refl, str_compare, Outcome, returned, panicked,
}
use pole.Prelude.ConcurrentMaps.{ConcurrentMapApi, IsNilMap}
use pole.Prelude.Splitting.{split, join}
use pole.Storage.Kv.{KvStorage, ok, IsKv, assigned}
use pole.Discovery.Model.{parse_service_cluster_list}
use pole.Discovery.Storage.{
  Messages, StoredCluster, StoredService, KvDiscoveryStorage, call, save_service, read_service,
  fill_names,
}

-- A callback that got no error: the storage gave none.
pub call_ok :
    {S A : Type 0} (x y : A) (o : Outcome (Option Text)) (st : S)
    → (call x (o, st)).0 ≡ returned (ok y)
    → o ≡ returned none
call_ok x y (returned none) st e = refl
call_ok x y (returned (some _)) st e = absurd (ground arith)
call_ok x y panicked st e = absurd (ground arith)

pub call_state :
    {S A : Type 0} (x : A) (o : Outcome (Option Text)) (st : S) → (call x (o, st)).1 ≡ st
call_state x (returned none) st = refl
call_state x (returned (some _)) st = refl
call_state x panicked st = refl

longer : (s : Text) → str_compare (s ++ codes "_cluster_list") s ≡ Ordering.gt
unfolding str_compare
longer [] = refl
longer (c ∷ s) = ground (arith, longer s)

other_key : (s : Text) → str_eq (s ++ codes "_cluster_list") s ≡ false
unfolding str_eq
other_key s = rw (longer s, str_eq) refl

nonempty : (s : Text) → s ++ codes "_cluster_list" ≢ []
nonempty [] = λ e. ground (arith, e)
nonempty (c ∷ s) = λ e. ground (arith, e)

module _ (messages : Messages) (maps : ConcurrentMapApi) (memory disk : KvStorage) where
  open messages use {
    OriginService, OriginCluster, marshal_service, unmarshal_service, unmarshal_cluster,
  }
  open maps use {Map, get, put, keys}

  abbrev Store : Type 0
  Store = KvDiscoveryStorage messages maps memory disk

  abbrev Stored : Type 0
  Stored = StoredService messages maps

  module _ (law : IsKv disk) (s : Stored) (st : Store) (value : Text) (m : OriginService)
      (marshalled : marshal_service s.origin_service ≡ ok value)
      (unmarshalled : unmarshal_service value ≡ ok m)
      (saved : (save_service messages maps memory disk s st).0 ≡ returned (ok s)) where
    abbrev pub after : Store
    after = (save_service messages maps memory disk s st).1

    abbrev list_of : Text
    list_of = join (keys (StoredCluster messages maps) s.clusters) (codes ",")

    abbrev keys_written : List Text
    keys_written = s.name ∷ parse_service_cluster_list s.name ∷ []

    abbrev written : Outcome (Option Text) × disk.State
    written = disk.write_batch keys_written (value ∷ list_of ∷ []) st.disk_kv

    shape :
        save_service messages maps memory disk s st
        ≡ call s (written.0, record st { disk_kv = written.1 })
    unfolding save_service
    shape = rw marshalled refl

    fine : written ≡ (returned none, after.disk_kv)
    fine =
        let none_given =
          call_ok s s written.0 (record st { disk_kv = written.1 })
            (sym (ap (λ r. r.0) shape) ∙ saved) in
        let end =
          ap (λ r. r.1) shape ∙ call_state s written.0 (record st { disk_kv = written.1 }) in
        rw end (ap (λ o. (o, written.1)) none_given)

    stored :
        (law.contents after.disk_kv s.name ≡ some value)
        × (law.contents after.disk_kv (parse_service_cluster_list s.name) ≡ some list_of)
    unfolding parse_service_cluster_list assigned
    stored =
        let now =
          law.contents-write_batch keys_written (value ∷ list_of ∷ []) st.disk_kv after.disk_kv
            fine in
        (
          now s.name ∙ rw (other_key s.name, str_eq_refl s.name) refl,
          now (parse_service_cluster_list s.name)
              ∙ rw (str_eq_refl (s.name ++ codes "_cluster_list")) refl,
        )

    read_filled :
        (query : Stored)
        → query.name ≡ s.name
        → s.name ≢ []
        → read_service messages maps memory disk (query, after)
          ≡ fill_names messages maps memory disk
              (list_of ∷ [])
              (record query { origin_service = some m }, after)
    unfolding read_service parse_service_cluster_list
    read_filled query same named =
        let known =
          law.read_batch-contents keys_written (value ∷ list_of ∷ []) after.disk_kv
            (named, (nonempty s.name, tt)) (rw (stored.0, stored.1) refl) in
        rw (same, known, unmarshalled) refl

    -- A service was saved whose map of clusters is a zero value, as is that of every service that the
    -- program makes, and its message can be marshalled and unmarshalled. A read of it fills in the
    -- message and then fails, with the error for an empty key: the empty list of names is split into
    -- one empty name. Its clusters stay as they were. (A zero value has no keys.)
    pub read_service-save_service :
        (laws : IsNilMap maps) (query : Stored)
        → query.name ≡ s.name
        → s.name ≢ []
        → s.clusters ≡ maps.zero (StoredCluster messages maps)
        → read_service messages maps memory disk (query, after)
          ≡ (returned (some law.empty_key), (record query { origin_service = some m }, after))
    unfolding split join
    read_service-save_service laws query same named bare =
        let none_named : keys (StoredCluster messages maps) s.clusters ≡ [] =
          ap (keys (StoredCluster messages maps)) bare
          ∙ laws.keys-zero (StoredCluster messages maps) in
        read_filled query same named ∙ rw (none_named, law.read_batch-nil after.disk_kv) refl
