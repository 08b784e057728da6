-- ===== src/Storage/Kv.antt =====
-- The interface `KVStorage` of server/storage/kv.go, for those who use a storage. A call may panic; an
-- error is the text that it prints, and `none` stands for nil.
use pole.Prelude.{
  Option, none, some, List, [], ◌∷◌, map, Text, str_eq, Exec, Outcome, returned, panicked, ◌≡◌, ◌≢◌,
  ap, All, if◌then◌else◌,
}
use pole.Storage.Hooks.{SetApi}
use pole.Storage.Memory
use pole.Storage.Memory.{MemoryKv}

-- A value, or an error.
pub data Result (A : Type 0) : Type 0 where
  ok : A → Result A
  err : Text → Result A

pub record KvStorage : Type 1 where
  pub State : Type 0
  pub read : Text → Exec State (Result Text)
  pub read_batch : List Text → Exec State (Result (List Text))
  pub write : Text → Text → Exec State (Option Text)
  pub write_batch : List Text → List Text → Exec State (Option Text)
  pub delete : Text → Exec State (Option Text)
  pub destroy : Exec State (Option Text)

-- A call that returns no error.
abbrev without_error : {S : Type 0} → Outcome (Unit {0}) × S → Outcome (Option Text) × S
without_error (returned _, st) = (returned none, st)
without_error (panicked, st) = (panicked, st)

abbrev with_value : {S A : Type 0} → Outcome A × S → Outcome (Result A) × S
with_value (returned a, st) = (returned (ok a), st)
with_value (panicked, st) = (panicked, st)

-- `memoryKVStorage`, no call of which returns an error.
abbrev pub memory_storage : SetApi → KvStorage
memory_storage api = record {
  State = MemoryKv api;
  read = λ key st. with_value (Memory.read api key st);
  read_batch = λ keys st. with_value (Memory.read_batch api keys st);
  write = λ key value st. without_error (Memory.write api key value st);
  write_batch = λ keys values st. without_error (Memory.write_batch api keys values st);
  delete = λ key st. without_error (Memory.delete api key st);
  destroy = λ st. without_error (Memory.destroy api st);
}

-- What is stored after the writes of a batch, in order.
unfoldable pub assigned : List Text → List Text → (Text → Option Text) → Text → Option Text
assigned [] values m j = m j
assigned (k ∷ keys) [] m j = m j
assigned (k ∷ keys) (v ∷ values) m j =
    assigned keys values (λ i. if str_eq k i then some v else m i) j

pub assigned_ext :
    (ks vs : List Text) (f g : Text → Option Text) (j : Text)
    → ((k : Text) → f k ≡ g k)
    → assigned ks vs f j ≡ assigned ks vs g j
unfolding assigned
assigned_ext [] vs f g j h = h j
assigned_ext (k ∷ ks) [] f g j h = h j
assigned_ext (k ∷ ks) (v ∷ vs) f g j h =
    assigned_ext ks vs (λ i. if str_eq k i then some v else f i)
      (λ i. if str_eq k i then some v else g i) j
      (λ i. ap (λ x. if str_eq k i then some v else x) (h i))

-- The documented behaviour of a storage whose calls return errors, badger among them: what a batch
-- wrote is stored, stored values are read, and there is no empty key.
pub record IsKv (kv : KvStorage) : Type 0 where
  pub contents : kv.State → Text → Option Text
  pub empty_key : Text
  pub contents-write_batch :
      (keys values : List Text) (st st' : kv.State)
      → kv.write_batch keys values st ≡ (returned none, st')
      → (j : Text) → contents st' j ≡ assigned keys values (contents st) j
  pub read_batch-contents :
      (keys values : List Text) (st : kv.State)
      → All (λ k. k ≢ []) keys
      → map (contents st) keys ≡ map some values
      → kv.read_batch keys st ≡ (returned (ok values), st)
  pub read_batch-nil : (st : kv.State) → kv.read_batch ([] ∷ []) st ≡ (returned (err empty_key), st)
