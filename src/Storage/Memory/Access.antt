-- ===== src/Storage/Memory/Access.antt =====
-- What a client reads after writes and deletes, and what `Size` counts.
use pole.Prelude.{
  ◌≡◌, ap, none, some, [], ◌∷◌, arith, Text, str_eq, Dict, insert, lookup-erase, returned, panicked,
  if◌then◌else◌,
}
use pole.Storage.KeyTree
use pole.Storage.KeyTree.{KeyTree, int64_mod}
use pole.Storage.Hooks.{before_write, after_write, insert_key, SetApi, HookHolder}
use pole.Storage.Memory.{MemoryKv, with_map, read, write, delete, size}

module _ (api : SetApi) where
  open api use {range}

  abbrev pub written : MemoryKv api → Dict Text → Text → Text → MemoryKv api
  written st m k v = record st {
    sort_keys = KeyTree.insert k st.sort_keys;
    reference = some (insert k v m);
  }

  -- After `Delete` of `k` a read of `k` returns nil and other reads what they returned before; but
  -- the tree of keys, and with it `Size`, is as it was.
  pub read-delete :
      (st : MemoryKv api) (m : Dict Text) (k j : Text)
      → st.reference ≡ some m
      → ((read api j (delete api k st).1).0
          ≡ (if str_eq k j then returned [] else (read api j st).0))
        × ((delete api k st).1.sort_keys ≡ st.sort_keys)
        × (size api (delete api k st).1 ≡ size api st)
  unfolding read delete size
  read-delete st m k j e =
      (rw e (ground (arith, lookup-erase k j m)), rw (e, with_map), rw (e, with_map))

  -- Where no hook after a write is registered and a range over the nil set panics, `Write` stores
  -- the value and then panics.
  pub write_unhooked :
      (st : MemoryKv api) (hooks : HookHolder api) (m : Dict Text) (k v : Text)
      → st.kh ≡ some hooks
      → st.reference ≡ some m
      → range (hooks before_write) ≡ returned (insert_key ∷ [])
      → hooks after_write ≡ none
      → range none ≡ panicked
      → write api k v st ≡ (panicked, written st m k v)
  unfolding write
  write_unhooked st hooks m k v a b c d e = ground (arith, a, b, c, ap range d)
