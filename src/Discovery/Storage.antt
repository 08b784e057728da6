-- ===== src/Discovery/Storage.antt =====
-- `kvDiscoveryStorage` of server/discovery/discovery_storage.go, over two key-value storages: one in
-- memory and one on disk. Each call runs its callback once, at its end: what the callback is given is
-- the result here. Of a cluster the storage reads the name and the message; the code writes a nil
-- message and no instances where it makes one.
pub mod Services
pub mod Instances
mod Examples
use pole.Prelude.{
  ℕ, Bool, true, false, Option, none, some, List, [], ◌∷◌, Text, codes, Outcome, returned, panicked,
  Exec, map,
}
use pole.Prelude.ConcurrentMaps.{ConcurrentMapApi}
use pole.Prelude.Splitting.{split, join}
use pole.Storage.Kv.{KvStorage, Result, ok, err}
use pole.Discovery.Model.{OriginInstance, Instance, get_key, parse_service_cluster_list}

-- `proto.Marshal` and `proto.Unmarshal` of the messages; a pointer to a message may be nil.
pub record Messages : Type 1 where
  pub OriginService : Type 0
  pub OriginCluster : Type 0
  pub marshal_service : Option OriginService → Result Text
  pub marshal_cluster : Option OriginCluster → Result Text
  pub marshal_instance : OriginInstance → Result Text
  pub unmarshal_service : Text → Result OriginService
  pub unmarshal_cluster : Text → Result OriginCluster

-- A panic of a key, or an error, ends a call.
abbrev pub with_key : {S A : Type 0} → Outcome Text → (Text → Exec S A) → Exec S A
with_key panicked f st = (panicked, st)
with_key (returned key) f st = f key st

abbrev pub with_bytes : {S A B : Type 0} → Result A → (A → Exec S (Result B)) → Exec S (Result B)
with_bytes (err e) f st = (returned (err e), st)
with_bytes (ok value) f st = f value st

-- `call(err, nil)`, or `call(nil, x)`.
abbrev pub call : {S A : Type 0} → A → Outcome (Option Text) × S → Outcome (Result A) × S
call x (returned none, st) = (returned (ok x), st)
call x (returned (some e), st) = (returned (err e), st)
call x (panicked, st) = (panicked, st)

abbrev pub Pairs : Type 0
Pairs = List Text × List Text

-- One round of the loop that gathers the keys and values of a batch, before the rest of them.
abbrev pub gather_one : Outcome Text → Result Text → Outcome (Result Pairs) → Outcome (Result Pairs)
gather_one panicked value rest = panicked
gather_one (returned key) (err e) rest = returned (err e)
gather_one (returned key) (ok value) panicked = panicked
gather_one (returned key) (ok value) (returned (err e)) = returned (err e)
gather_one (returned key) (ok value) (returned (ok (keys, values))) =
    returned (ok (key ∷ keys, value ∷ values))

unfoldable pub gather :
    {A : Type 0} → (A → Outcome Text) → (A → Result Text) → List A → Outcome (Result Pairs)
gather key_of marshal [] = returned (ok ([], []))
gather key_of marshal (x ∷ xs) = gather_one (key_of x) (marshal x) (gather key_of marshal xs)

-- What follows the loop.
abbrev pub with_pairs :
    {S A : Type 0}
    → Outcome (Result Pairs)
    → (List Text → List Text → Exec S (Result A))
    → Exec S (Result A)
with_pairs panicked f st = (panicked, st)
with_pairs (returned (err e)) f st = (returned (err e), st)
with_pairs (returned (ok (keys, values))) f st = f keys values st

module _ (messages : Messages) (maps : ConcurrentMapApi) where
  open messages use {
    OriginService, OriginCluster, marshal_service, marshal_cluster, marshal_instance,
    unmarshal_service, unmarshal_cluster,
  }
  open maps use {Map, put, keys}

  pub record StoredCluster : Type 0 where
    pub name : Text
    pub origin_cluster : Option OriginCluster

  pub record StoredService : Type 0 where
    pub name : Text
    pub origin_service : Option OriginService
    pub clusters : Map StoredCluster

  -- A cluster for each value that `ReadBatch` gave, under the name of the same index.
  unfoldable pub put_clusters : List Text → List Text → Exec (Map StoredCluster) (Option Text)
  put_clusters names [] clusters = (returned none, clusters)
  put_clusters [] (value ∷ values) clusters = elim (unmarshal_cluster value) [
    | err e ↦ (returned (some e), clusters)
    | ok _ ↦ (panicked, clusters)
  ]
  put_clusters (name ∷ names) (value ∷ values) clusters = elim (unmarshal_cluster value) [
    | err e ↦ (returned (some e), clusters)
    | ok _ ↦
        elim (put StoredCluster name (record { name = name; origin_cluster = none }) clusters) [
          | panicked ↦ (panicked, clusters)
          | returned clusters' ↦ put_clusters names values clusters'
        ]
  ]

  module _ (memory disk : KvStorage) where
    pub record KvDiscoveryStorage : Type 0 where
      pub memory_kv : memory.State
      pub disk_kv : disk.State

    abbrev pub in_memory :
        {A : Type 0}
        → Outcome A × memory.State
        → KvDiscoveryStorage
        → Outcome A × KvDiscoveryStorage
    in_memory (o, m) st = (o, record st { memory_kv = m })

    abbrev pub on_disk :
        {A : Type 0} → Outcome A × disk.State → KvDiscoveryStorage → Outcome A × KvDiscoveryStorage
    on_disk (o, d) st = (o, record st { disk_kv = d })

    -- `kvop.Write`, `kvop.WriteBatch` and `kvop.Delete`, where `kvop` is the storage in memory for
    -- temporary instances and that on disk for others.
    abbrev pub kv_write : Bool → Text → Text → Exec KvDiscoveryStorage (Option Text)
    kv_write true key value st = in_memory (memory.write key value st.memory_kv) st
    kv_write false key value st = on_disk (disk.write key value st.disk_kv) st

    abbrev pub kv_write_batch : Bool → List Text → List Text → Exec KvDiscoveryStorage (Option Text)
    kv_write_batch true keys values st = in_memory (memory.write_batch keys values st.memory_kv) st
    kv_write_batch false keys values st = on_disk (disk.write_batch keys values st.disk_kv) st

    abbrev pub kv_delete : Bool → Text → Exec KvDiscoveryStorage (Option Text)
    kv_delete true key st = in_memory (memory.delete key st.memory_kv) st
    kv_delete false key st = on_disk (disk.delete key st.disk_kv) st

    unfoldable pub save_instance : Instance → Exec KvDiscoveryStorage (Result Instance)
    unfolding get_key
    save_instance i = with_key (get_key i) (λ key.
        with_bytes (marshal_instance i.origin_instance)
          (λ value. λ st. call i (kv_write i.origin_instance.ephemeral key value st)))

    -- `instances[0]` says which storage gets all of them.
    unfoldable pub batch_update_instance :
        List Instance → Exec KvDiscoveryStorage (Result (List Instance))
    unfolding gather get_key
    batch_update_instance [] st = (panicked, st)
    batch_update_instance (i ∷ is) st =
        with_pairs (gather get_key (λ j. marshal_instance j.origin_instance) (i ∷ is))
          (λ keys. λ values.
            λ st. call (i ∷ is) (kv_write_batch i.origin_instance.ephemeral keys values st))
          st

    unfoldable pub remove_instance : Instance → Exec KvDiscoveryStorage (Result Instance)
    unfolding get_key
    remove_instance i =
        with_key (get_key i) (λ key. λ st. call i (kv_delete i.origin_instance.ephemeral key st))

    unfoldable pub read_batch_instance : Instance → Exec KvDiscoveryStorage (Option Text)
    read_batch_instance query st = (returned none, st)

    unfoldable pub save_cluster : StoredCluster → Exec KvDiscoveryStorage (Result StoredCluster)
    save_cluster c =
        with_bytes (marshal_cluster c.origin_cluster)
          (λ value. λ st. call c (kv_write false c.name value st))

    unfoldable pub batch_update_cluster :
        List StoredCluster → Exec KvDiscoveryStorage (Result (List StoredCluster))
    unfolding gather
    batch_update_cluster cs =
        with_pairs (gather (λ c. returned c.name) (λ c. marshal_cluster c.origin_cluster) cs)
          (λ keys. λ values. λ st. call cs (kv_write_batch false keys values st))

    unfoldable pub remove_cluster : StoredCluster → Exec KvDiscoveryStorage (Result StoredCluster)
    remove_cluster c st = call c (kv_delete false c.name st)

    unfoldable pub read_cluster : StoredCluster → Exec KvDiscoveryStorage (Option Text)
    read_cluster query st = (returned none, st)

    -- The service, and the names of its clusters.
    unfoldable pub save_service : StoredService → Exec KvDiscoveryStorage (Result StoredService)
    unfolding join parse_service_cluster_list
    save_service s = with_bytes (marshal_service s.origin_service) (λ value. λ st. call s (
        kv_write_batch false (s.name ∷ parse_service_cluster_list s.name ∷ [])
          (value ∷ join (keys StoredCluster s.clusters) (codes ",") ∷ []) st))

    unfoldable pub batch_update_service :
        List StoredService → Exec KvDiscoveryStorage (Result (List StoredService))
    unfolding gather
    batch_update_service ss =
        with_pairs (gather (λ s. returned s.name) (λ s. marshal_service s.origin_service) ss)
          (λ keys. λ values. λ st. call ss (kv_write_batch false keys values st))

    unfoldable pub remove_service : StoredService → Exec KvDiscoveryStorage (Result StoredService)
    remove_service s st = call s (kv_delete false s.name st)

    abbrev pub Reading : Type 0
    Reading = StoredService × KvDiscoveryStorage

    -- What a `ReadBatch` of the storage on disk is used for.
    abbrev pub with_values :
        Outcome (Result (List Text)) × disk.State
        → (List Text → Exec Reading (Option Text))
        → Exec Reading (Option Text)
    with_values (panicked, d) f (query, st) = (panicked, (query, record st { disk_kv = d }))
    with_values (returned (err e), d) f (query, st) =
        (returned (some e), (query, record st { disk_kv = d }))
    with_values (returned (ok values), d) f (query, st) =
        f values (query, record st { disk_kv = d })

    abbrev pub fill_clusters : List Text → List Text → Exec Reading (Option Text)
    fill_clusters names values (query, st) =
        let (end, clusters) = put_clusters names values query.clusters in
        (end, (record query { clusters = clusters }, st))

    -- From the second value on: the names of the clusters.
    abbrev pub fill_names : List Text → Exec Reading (Option Text)
    fill_names [] (query, st) = (panicked, (query, st))
    fill_names (list ∷ _) (query, st) =
        let (name, names) = split 44 list in
        with_values (disk.read_batch (name ∷ names) st.disk_kv) (fill_clusters (name ∷ names))
          (query, st)

    abbrev pub fill_unmarshalled : Result OriginService → List Text → Exec Reading (Option Text)
    fill_unmarshalled (err e) rest (query, st) = (returned (some e), (query, st))
    fill_unmarshalled (ok s) rest (query, st) =
        fill_names rest (record query { origin_service = some s }, st)

    abbrev pub fill_service : List Text → Exec Reading (Option Text)
    fill_service [] (query, st) = (panicked, (query, st))
    fill_service (value ∷ rest) (query, st) =
        fill_unmarshalled (unmarshal_service value) rest (query, st)

    -- `ReadService`, which fills the query.
    unfoldable pub read_service : Exec Reading (Option Text)
    unfolding split put_clusters parse_service_cluster_list
    read_service (query, st) =
        with_values
          (disk.read_batch (query.name ∷ parse_service_cluster_list query.name ∷ []) st.disk_kv)
          fill_service (query, st)

    -- `Destroy`, which ignores errors.
    abbrev destroy_disk :
        Outcome (Option Text) × KvDiscoveryStorage → Outcome (Unit {0}) × KvDiscoveryStorage
    destroy_disk (panicked, st) = (panicked, st)
    destroy_disk (returned _, st) = elim (disk.destroy st.disk_kv).0 [
      | panicked ↦ (panicked, record st { disk_kv = (disk.destroy st.disk_kv).1 })
      | returned _ ↦ (returned tt, record st { disk_kv = (disk.destroy st.disk_kv).1 })
    ]

    unfoldable pub destroy : Exec KvDiscoveryStorage (Unit {0})
    destroy st = destroy_disk (in_memory (memory.destroy st.memory_kv) st)
