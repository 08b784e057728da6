-- ===== src/Storage/Memory.antt =====
-- `memoryKVStorage` of server/storage/kv.go: a map, and the tree of its keys that two hooks keep.
-- Each call holds the storage's lock. Nil and the empty byte slice are one value.
pub mod Access
pub mod Unhooked
pub mod Samples
mod Examples
use pole.Prelude.{
  ℕ, Option, none, some, List, [], ◌∷◌, Text, Dict, lookup, insert, erase, returned, panicked, Exec,
  pure, continue, ◌>>◌, for_each,
}
use pole.Storage.KeyTree
use pole.Storage.KeyTree.{KeyTree}
use pole.Storage.Hooks.{
  HookType, before_write, after_write, before_delete, KvHook, insert_key, delete_key, other, SetApi,
  HookHolder, new_hook_holder, register_hook, exec_hook,
}

module _ (api : SetApi) where
  -- `reference` is nil before `init` and after `Destroy`, and so is `kh`. `calls` records the calls
  -- of the hooks of others.
  pub record MemoryKv : Type 0 where
    pub kh : Option (HookHolder api)
    pub sort_keys : KeyTree
    pub reference : Option (Dict Text)
    pub calls : List (ℕ × Text × Text)

  -- The hooks' bodies.
  unfoldable pub run_hook : Text → Text → KvHook → Exec MemoryKv (Unit {0})
  run_hook key value insert_key st =
      (returned tt, record st { sort_keys = KeyTree.insert key st.sort_keys })
  run_hook key value delete_key st =
      let (kt, end) = KeyTree.delete key st.sort_keys in (end, record st { sort_keys = kt })
  run_hook key value (other id) st =
      (returned tt, record st { calls = (id, key, value) ∷ st.calls })

  -- `RegisterHook` of the storage. Its `RemoveHook` has the same body.
  unfoldable pub register : HookType → KvHook → Exec MemoryKv (Unit {0})
  unfolding register_hook
  register t h st = elim st.kh [
    | none ↦ (panicked, st)
    | some hooks ↦
        let (end, hooks') = register_hook api t h hooks in (end, record st { kh = some hooks' })
  ]

  unfoldable pub init : Exec MemoryKv (Unit {0})
  unfolding register new_hook_holder
  init =
      (λ st. (
        returned tt,
        record st {
          kh = some (new_hook_holder api);
          sort_keys = KeyTree.new_key_tree st.sort_keys.next;
          reference = some [];
        },
      ))
      >> (register before_write insert_key >> register before_delete delete_key)

  -- `mks.kh.BeforeWrite(k, v)` and `mks.kh.AfterWrite(k, v)`
  unfoldable pub fire : HookType → Text → Text → Exec MemoryKv (Unit {0})
  unfolding exec_hook run_hook
  fire t key value st = elim st.kh [
    | none ↦ (panicked, st)
    | some hooks ↦ exec_hook api (run_hook key value) t hooks st
  ]

  -- What a call does with the map that `reference` holds.
  unfoldable pub with_map : {A : Type 0} → (Dict Text → A × Dict Text) → Exec MemoryKv A
  with_map f st = elim st.reference [
    | none ↦ (panicked, st)
    | some m ↦ let (a, m') = f m in (returned a, record st { reference = some m' })
  ]

  abbrev pub or_nil : Option Text → Text
  or_nil none = []
  or_nil (some v) = v

  unfoldable pub read : Text → Exec MemoryKv Text
  unfolding with_map
  read key = with_map (λ m. (or_nil (lookup key m), m))

  unfoldable pub read_batch : List Text → Exec MemoryKv (List Text)
  unfolding read
  read_batch [] st = (returned [], st)
  read_batch (key ∷ keys) st =
      continue (read key st) (λ v. λ st'. continue (read_batch keys st') (λ vs. pure (v ∷ vs)))

  unfoldable pub write : Text → Text → Exec MemoryKv (Unit {0})
  unfolding fire with_map
  write key value =
      fire before_write key value
      >> (with_map (λ m. (tt, insert key value m)) >> fire after_write key value)

  -- `values[i]` is read before the hooks run.
  unfoldable pub write_batch : List Text → List Text → Exec MemoryKv (Unit {0})
  unfolding write
  write_batch [] values st = (returned tt, st)
  write_batch (key ∷ keys) [] st = (panicked, st)
  write_batch (key ∷ keys) (value ∷ values) st =
      continue (write key value st) (λ _. write_batch keys values)

  unfoldable pub delete : Text → Exec MemoryKv (Unit {0})
  unfolding with_map
  delete key = with_map (λ m. (tt, erase key m))

  unfoldable pub delete_batch : List Text → Exec MemoryKv (Unit {0})
  unfolding delete for_each
  delete_batch = for_each delete

  unfoldable pub delete_prefix : List Text → Exec MemoryKv (Unit {0})
  delete_prefix prefixes = pure tt

  unfoldable pub size : MemoryKv → ℕ
  size st = st.sort_keys.size

  unfoldable pub destroy : Exec MemoryKv (Unit {0})
  destroy st = (returned tt, record st { kh = none; reference = none })
