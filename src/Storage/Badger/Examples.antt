-- ===== src/Storage/Badger/Examples.antt =====
-- A database that is an association list, of which a batch is a changed copy, and its laws.
use pole.Prelude.{
  ◌≡◌, ◌≢◌, refl, Option, none, some, [], ◌∷◌, arith, Text, codes, Dict, lookup, insert, erase,
  lookup-insert,
}
use pole.Storage.Kv.{Result, ok, err}
use pole.Storage.Badger.{BadgerDb}
use pole.Storage.Badger.Contents.{IsDb}

abbrev item_at : Text → Option Text → Result Text
item_at [] _ = err (codes "Key cannot be empty")
item_at (c ∷ k) none = err (codes "Key not found")
item_at (c ∷ k) (some v) = ok v

abbrev lists : BadgerDb
lists = record {
  Db = Dict Text;
  Item = Text;
  get = λ k d. item_at k (lookup k d);
  value_copy = λ v. ok v;
  WriteBatch = Dict Text;
  new_write_batch = λ d. d;
  set = λ k v b. (none, insert k v b);
  flush = λ b. (none, b);
  cancel = λ b. b;
  Txn = Dict Text;
  new_transaction = λ d. d;
  remove = λ k t. (none, erase k t);
  commit = λ t. (none, t);
  discard = λ t. t;
  drop_prefix = λ ks d. (none, d);
  sizes = λ d. (0, 0);
  close = λ d. (none, d);
}

stored_item : (k v : Text) (o : Option Text) → k ≢ [] → o ≡ some v → item_at k o ≡ ok v
stored_item [] v o filled e = absurd (filled refl)
stored_item (c ∷ k) v none filled e = absurd (ground (arith, e))
stored_item (c ∷ k) v (some w) filled e = ground (arith, e)

lists-IsDb : IsDb lists
lists-IsDb = record {
  contents = λ d k. lookup k d;
  pending = λ b k. lookup k b;
  empty_key = codes "Key cannot be empty";
  get-contents = λ k v d filled e. (v, stored_item k v (lookup k d) filled e, refl);
  get-nil = λ d. refl;
  pending-new_write_batch = λ d j. refl;
  pending-set = λ k v b e j. lookup-insert k j v b;
  contents-flush = λ b e j. refl;
}

abbrev before : Dict Text
before = (codes "a", codes "0") ∷ []

abbrev after : Dict Text
after = (codes "a", codes "2") ∷ (codes "b", codes "1") ∷ []
