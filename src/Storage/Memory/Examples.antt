-- ===== src/Storage/Memory/Examples.antt =====
-- The theorems on the in-memory storage at a concrete state, over a set that is a list.
use pole.Prelude.{◌≡◌, refl, List, [], ◌∷◌, returned, str_eq, Text, codes, panicked}
use pole.Storage.Hooks.{after_write, insert_key}
use pole.Storage.Memory.{init, read, write, delete, size}
use pole.Storage.Memory.Unhooked.{
  MemoryCall, register_call, write_call, delete_call, IsHashed, call_all, call_all-init,
}
use pole.Storage.Memory.Samples.{list_sets, quiet_hooks, bare_hooks, held, storage_with}
use pole.Storage.Memory.Access.{written, read-delete, write_unhooked}

abbrev a : Text
a = codes "a"

read-delete_example :
    size list_sets (delete list_sets (codes "b") (storage_with quiet_hooks)).1
    ≡ size list_sets (storage_with quiet_hooks)
read-delete_example = (read-delete list_sets (storage_with quiet_hooks) held (codes "b") a refl).2

write_unhooked_example :
    write list_sets a (codes "1") (storage_with bare_hooks)
    ≡ (panicked, written list_sets (storage_with bare_hooks) held a (codes "1"))
write_unhooked_example =
    write_unhooked list_sets (storage_with bare_hooks) bare_hooks held a (codes "1") refl refl refl
      refl refl

list_sets_laws : IsHashed list_sets
list_sets_laws = record { add_panics = λ h set. refl; range-new_set = refl; range_panics = refl }

abbrev calls : List MemoryCall
calls = write_call a (codes "1") ∷ register_call after_write insert_key ∷ delete_call a ∷ []

call_all-init_example :
    ((init list_sets (storage_with bare_hooks)).0 ≡ panicked)
    × (size list_sets (call_all list_sets calls (init list_sets (storage_with bare_hooks)).1) ≡ 0)
    × ((read list_sets a
          (write list_sets a
            (codes "2")
            (call_all list_sets calls (init list_sets (storage_with bare_hooks)).1)).1).0
        ≡ returned (codes "2"))
unfolding str_eq
call_all-init_example =
    call_all-init list_sets list_sets_laws calls (storage_with bare_hooks) a (codes "2") a
