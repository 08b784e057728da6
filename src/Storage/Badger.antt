-- ===== src/Storage/Badger.antt =====
-- `badgerKVStorage` of server/storage/kv.go. The database is badger's, a parameter.
pub mod Contents
mod Examples
use pole.Prelude.{
  Option, none, some, List, [], ◌∷◌, Text, Outcome, returned, panicked, ℕ, ◌+◌, ◌%◌, ◌^◌,
}
use pole.Storage.Kv.{KvStorage, Result, ok, err}

-- What is used of `badger.DB`. A read transaction reads the database as it is; a write batch and a
-- transaction start from it, and give the database that they leave when they are flushed, committed or
-- given up. A batch may write a part of it before it is flushed.
pub record BadgerDb : Type 1 where
  pub Db : Type 0
  pub Item : Type 0
  pub get : Text → Db → Result Item
  pub value_copy : Item → Result Text
  pub WriteBatch : Type 0
  pub new_write_batch : Db → WriteBatch
  pub set : Text → Text → WriteBatch → Option Text × WriteBatch
  pub flush : WriteBatch → Option Text × Db
  pub cancel : WriteBatch → Db
  pub Txn : Type 0
  pub new_transaction : Db → Txn
  pub remove : Text → Txn → Option Text × Txn
  pub commit : Txn → Option Text × Db
  pub discard : Txn → Db
  pub drop_prefix : List Text → Db → Option Text × Db
  pub sizes : Db → ℕ × ℕ
  pub close : Db → Option Text × Db

module _ (api : BadgerDb) where
  open api use {
    Db, Item, get, value_copy, WriteBatch, new_write_batch, set, flush, cancel, Txn,
    new_transaction, remove, commit, discard, drop_prefix, sizes, close,
  }

  abbrev pub copied : Result Item → Result Text
  copied (err e) = err e
  copied (ok item) = value_copy item

  unfoldable pub badger_read : Text → Db → Outcome (Result Text) × Db
  badger_read key d = (returned (copied (get key d)), d)

  -- The loop of `ReadBatch`, after one value.
  abbrev pub and_values : Result Text → Result (List Text) → Result (List Text)
  and_values (err e) rest = err e
  and_values (ok v) (err e) = err e
  and_values (ok v) (ok vs) = ok (v ∷ vs)

  unfoldable pub values_at : List Text → Db → Result (List Text)
  values_at [] d = ok []
  values_at (key ∷ keys) d = and_values (copied (get key d)) (values_at keys d)

  unfoldable pub badger_read_batch : List Text → Db → Outcome (Result (List Text)) × Db
  unfolding values_at
  badger_read_batch keys d = (returned (values_at keys d), d)

  abbrev pub Written : Type 0
  Written = Outcome (Option Text) × Db

  abbrev pub returns : Option Text × Db → Written
  returns (error, d) = (returned error, d)

  -- An error of `Set` cancels the batch. A panic leaves it.
  abbrev pub flushed : Outcome (Option Text) × WriteBatch → Written
  flushed (panicked, b) = (panicked, cancel b)
  flushed (returned (some e), b) = (returned (some e), cancel b)
  flushed (returned none, b) = returns (flush b)

  abbrev pub one_set : Option Text × WriteBatch → Outcome (Option Text) × WriteBatch
  one_set (error, b) = (returned error, b)

  unfoldable pub badger_write : Text → Text → Db → Written
  badger_write key value d = flushed (one_set (set key value (new_write_batch d)))

  abbrev pub set_next :
      Option Text × WriteBatch
      → (WriteBatch → Outcome (Option Text) × WriteBatch)
      → Outcome (Option Text) × WriteBatch
  set_next (some e, b) f = (returned (some e), b)
  set_next (none, b) f = f b

  -- The loop of `WriteBatch`.
  unfoldable pub set_all : List Text → List Text → WriteBatch → Outcome (Option Text) × WriteBatch
  set_all [] values b = (returned none, b)
  set_all (key ∷ keys) [] b = (panicked, b)
  set_all (key ∷ keys) (value ∷ values) b = set_next (set key value b) (set_all keys values)

  unfoldable pub badger_write_batch : List Text → List Text → Db → Written
  unfolding set_all
  badger_write_batch keys values d = flushed (set_all keys values (new_write_batch d))

  -- The loop of `DeleteBatch`; `Delete` is its one round.
  unfoldable pub remove_all : List Text → Txn → Option Text × Txn
  remove_all [] t = (none, t)
  remove_all (key ∷ keys) t = elim (remove key t).0 [
    | none ↦ remove_all keys (remove key t).1
    | some e ↦ (some e, (remove key t).1)
  ]

  abbrev pub committed : Option Text × Txn → Written
  committed (some e, t) = (returned (some e), discard t)
  committed (none, t) = returns (commit t)

  unfoldable pub badger_delete : Text → Db → Written
  badger_delete key d = committed (remove key (new_transaction d))

  unfoldable pub badger_delete_batch : List Text → Db → Written
  unfolding remove_all
  badger_delete_batch keys d = committed (remove_all keys (new_transaction d))

  unfoldable pub badger_delete_prefix : List Text → Db → Written
  badger_delete_prefix prefixes d = returns (drop_prefix prefixes d)

  -- An int64.
  unfoldable pub badger_size : Db → ℕ
  badger_size d = ((sizes d).0 + (sizes d).1) % 2 ^ 64

  unfoldable pub badger_destroy : Db → Written
  badger_destroy d = returns (close d)

  abbrev pub badger_storage : KvStorage
  badger_storage = record {
    State = Db;
    read = badger_read;
    read_batch = badger_read_batch;
    write = badger_write;
    write_batch = badger_write_batch;
    delete = badger_delete;
    destroy = badger_destroy;
  }
