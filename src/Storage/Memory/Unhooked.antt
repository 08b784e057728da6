-- ===== src/Storage/Memory/Unhooked.antt =====
-- What the calls of `memoryKVStorage` do after its `init`, of server/storage/kv.go.
use pole.Prelude.{
  ◌≡◌, refl, ap, ◌∙◌, none, some, List, [], ◌∷◌, Text, Dict, insert, erase, inl, inr, Outcome,
  returned, panicked, Exec, continue, lookup-insert, arith, for_each, str_eq, if◌then◌else◌, ◌⊎◌,
}
use mathlib.Core.Logic.{ite}
use pole.Storage.KeyTree.{new_key_tree}
use pole.Storage.Hooks.{
  HookType, before_write, after_write, KvHook, insert_key, SetApi, HookHolder, set_or_new,
  register_hook, with_set, exec_hook, new_hook_holder, HookType-discrete,
}
use pole.Storage.Memory.{
  MemoryKv, register, init, fire, with_map, read, write, write_batch, delete, delete_batch, size,
}

-- The calls that change the storage.
pub data MemoryCall : Type 0 where
  register_call : HookType → KvHook → MemoryCall
  write_call : Text → Text → MemoryCall
  write_batch_call : List Text → List Text → MemoryCall
  delete_call : Text → MemoryCall
  delete_batch_call : List Text → MemoryCall

module _ (api : SetApi) where
  open api use {HookSet, new_set, add, range}

  -- What Go does with a hook, a function: a set, whose elements are the keys of a map, cannot take it.
  -- A new set has no elements, and the elements of a nil set cannot be had.
  pub record IsHashed : Type 0 where
    pub add_panics : (h : KvHook) (set : HookSet) → add h set ≡ panicked
    pub range-new_set : range (some new_set) ≡ returned []
    pub range_panics : range none ≡ panicked

  unfoldable pub call_memory : MemoryCall → MemoryKv api → MemoryKv api
  unfolding register write write_batch delete delete_batch
  call_memory (register_call t h) st = (register api t h st).1
  call_memory (write_call k v) st = (write api k v st).1
  call_memory (write_batch_call ks vs) st = (write_batch api ks vs st).1
  call_memory (delete_call k) st = (delete api k st).1
  call_memory (delete_batch_call ks) st = (delete_batch api ks st).1

  unfoldable pub call_all : List MemoryCall → MemoryKv api → MemoryKv api
  unfolding call_memory
  call_all [] st = st
  call_all (c ∷ cs) st = call_all cs (call_memory c st)

  -- There are hooks, each set of which is missing or new, and a map, and no key was counted.
  pub record IsUnhooked (st : MemoryKv api) : Type 0 where
    pub hooks : HookHolder api
    pub hooked : st.kh ≡ some hooks
    pub first : hooks before_write ≡ some new_set
    pub empty : (t : HookType) → (hooks t ≡ none) ⊎ (hooks t ≡ some new_set)
    pub entries : Dict Text
    pub stored : st.reference ≡ some entries
    pub sizeless : st.sort_keys.size ≡ 0

  abbrev with_entries : Dict Text → MemoryKv api → MemoryKv api
  with_entries m st = record st { reference = some m }

  changed : (m : Dict Text) (st : MemoryKv api) → IsUnhooked st → IsUnhooked (with_entries m st)
  changed m st u = record {
    hooks = u.hooks;
    hooked = u.hooked;
    first = u.first;
    empty = u.empty;
    entries = m;
    stored = refl;
    sizeless = u.sizeless;
  }

  module _ (laws : IsHashed) where
    fire_lem :
        (t : HookType) (k v : Text) (st : MemoryKv api) (u : IsUnhooked st)
        → fire api t k v st ≡ (elim (u.hooks t) [ none ↦ panicked | some _ ↦ returned tt ], st)
    unfolding fire exec_hook for_each
    fire_lem t k v st u = elim (u.empty t) [
      | inl e ↦ ground (arith, u.hooked, e, ap range e, laws.range_panics)
      | inr e ↦ ground (arith, u.hooked, e, ap range e, laws.range-new_set)
    ]

    write_lem :
        (k v : Text) (st : MemoryKv api) (u : IsUnhooked st)
        → write api k v st ≡ (
          elim (u.hooks after_write) [ none ↦ panicked | some _ ↦ returned tt ],
          with_entries (insert k v u.entries) st,
        )
    unfolding write with_map
    write_lem k v st u =
        let after =
          fire_lem after_write k v (with_entries (insert k v u.entries) st)
            (changed (insert k v u.entries) st u) in
        ground (arith, fire_lem before_write k v st u, u.first, u.stored, after)

    write-IsUnhooked :
        (k v : Text) (st : MemoryKv api) → IsUnhooked st → IsUnhooked (write api k v st).1
    write-IsUnhooked k v st u = rw (write_lem k v st u) (changed (insert k v u.entries) st u)

    carry :
        (f : Unit {0} → Exec (MemoryKv api) (Unit {0})) (r : Outcome (Unit {0}) × MemoryKv api)
        → IsUnhooked r.1
        → ((st : MemoryKv api) → IsUnhooked st → IsUnhooked (f tt st).1)
        → IsUnhooked (continue r f).1
    carry f (panicked, st) h rest = h
    carry f (returned _, st) h rest = rest st h

    write_batch-IsUnhooked :
        (ks vs : List Text) (st : MemoryKv api)
        → IsUnhooked st
        → IsUnhooked (write_batch api ks vs st).1
    unfolding write_batch
    write_batch-IsUnhooked [] vs st u = u
    write_batch-IsUnhooked (k ∷ ks) [] st u = u
    write_batch-IsUnhooked (k ∷ ks) (v ∷ vs) st u =
        carry (λ _. write_batch api ks vs) (write api k v st) (write-IsUnhooked k v st u)
          (write_batch-IsUnhooked ks vs)

    delete_lem :
        (k : Text) (st : MemoryKv api) (u : IsUnhooked st)
        → delete api k st ≡ (returned tt, with_entries (erase k u.entries) st)
    unfolding delete with_map
    delete_lem k st u = ground (arith, u.stored)

    delete-IsUnhooked :
        (k : Text) (st : MemoryKv api) → IsUnhooked st → IsUnhooked (delete api k st).1
    delete-IsUnhooked k st u = rw (delete_lem k st u) (changed (erase k u.entries) st u)

    delete_batch-IsUnhooked :
        (ks : List Text) (st : MemoryKv api) → IsUnhooked st → IsUnhooked (delete_batch api ks st).1
    unfolding delete_batch for_each
    delete_batch-IsUnhooked [] st u = u
    delete_batch-IsUnhooked (k ∷ ks) st u =
        carry (λ _. delete_batch api ks) (delete api k st) (delete-IsUnhooked k st u)
          (delete_batch-IsUnhooked ks)

    kept_set :
        (t : HookType) (hooks : HookHolder api)
        → (hooks t ≡ none) ⊎ (hooks t ≡ some new_set)
        → set_or_new api (hooks t) ≡ new_set
    unfolding set_or_new
    kept_set t hooks (inl e) = ap (set_or_new api) e
    kept_set t hooks (inr e) = ap (set_or_new api) e

    registered :
        (t : HookType) (h : KvHook) (hooks : HookHolder api)
        → ((u : HookType) → (hooks u ≡ none) ⊎ (hooks u ≡ some new_set))
        → register_hook api t h hooks ≡ (panicked, with_set api t new_set hooks)
    unfolding register_hook
    registered t h hooks empty =
        rw (laws.add_panics h (set_or_new api (hooks t)), register_hook)
          (ap (λ x. (panicked, with_set api t x hooks)) (kept_set t hooks (empty t)))

    with_set_empty :
        (t u : HookType) (hooks : HookHolder api)
        → (hooks u ≡ none) ⊎ (hooks u ≡ some new_set)
        → (with_set api t new_set hooks u ≡ none) ⊎ (with_set api t new_set hooks u ≡ some new_set)
    unfolding with_set
    with_set_empty t u hooks e =
        elim (HookType-discrete t u)
          as (λ d.
            (ite d (some new_set) (hooks u) ≡ none)
            ⊎ (ite d (some new_set) (hooks u) ≡ some new_set)) [ yes _ ↦ inr refl | no _ ↦ e ]

    with_set_first :
        (t : HookType) (hooks : HookHolder api)
        → hooks before_write ≡ some new_set
        → with_set api t new_set hooks before_write ≡ some new_set
    unfolding with_set
    with_set_first t hooks e =
        elim (HookType-discrete t before_write)
          as (λ d. ite d (some new_set) (hooks before_write) ≡ some new_set) [
            | yes _ ↦ refl
            | no _ ↦ e
          ]

    register-IsUnhooked :
        (t : HookType) (h : KvHook) (st : MemoryKv api)
        → IsUnhooked st
        → IsUnhooked (register api t h st).1
    unfolding register
    register-IsUnhooked t h st u =
        let e = registered t h u.hooks u.empty in
        rw (u.hooked, e, register)
          (record {
            hooks = with_set api t new_set u.hooks;
            hooked = refl;
            first = with_set_first t u.hooks u.first;
            empty = λ x. with_set_empty t x u.hooks (u.empty x);
            entries = u.entries;
            stored = u.stored;
            sizeless = u.sizeless;
          })

    call_memory-IsUnhooked :
        (c : MemoryCall) (st : MemoryKv api) → IsUnhooked st → IsUnhooked (call_memory c st)
    unfolding call_memory
    call_memory-IsUnhooked (register_call t h) st u = register-IsUnhooked t h st u
    call_memory-IsUnhooked (write_call k v) st u = write-IsUnhooked k v st u
    call_memory-IsUnhooked (write_batch_call ks vs) st u = write_batch-IsUnhooked ks vs st u
    call_memory-IsUnhooked (delete_call k) st u = delete-IsUnhooked k st u
    call_memory-IsUnhooked (delete_batch_call ks) st u = delete_batch-IsUnhooked ks st u

    call_all-IsUnhooked :
        (cs : List MemoryCall) (st : MemoryKv api) → IsUnhooked st → IsUnhooked (call_all cs st)
    unfolding call_all
    call_all-IsUnhooked [] st u = u
    call_all-IsUnhooked (c ∷ cs) st u =
        call_all-IsUnhooked cs (call_memory c st) (call_memory-IsUnhooked c st u)

    abbrev hooks_after : HookHolder api
    hooks_after = with_set api before_write new_set (new_hook_holder api)

    abbrev after_init : MemoryKv api → MemoryKv api
    after_init st = record st {
      kh = some hooks_after;
      sort_keys = new_key_tree st.sort_keys.next;
      reference = some [];
    }

    init_lem : (st : MemoryKv api) → init api st ≡ (panicked, after_init st)
    unfolding init register new_hook_holder
    init_lem st =
        let e = registered before_write insert_key (new_hook_holder api) (λ t. inl refl) in
        rw (e, init, register) refl

    after_init-IsUnhooked : (st : MemoryKv api) → IsUnhooked (after_init st)
    unfolding new_key_tree new_hook_holder with_set
    after_init-IsUnhooked st = record {
      hooks = hooks_after;
      hooked = refl;
      first = refl;
      empty = λ t. with_set_empty before_write t (new_hook_holder api) (inl refl);
      entries = [];
      stored = refl;
      sizeless = refl;
    }

    -- Where a set cannot take a function: `init` panics. Whatever is registered, written and deleted on
    -- the storage that it leaves, in whatever order: Size is 0; and a Write, though it may panic, stores
    -- its value, which a read of the key then gives, while other reads give what they gave.
    pub call_all-init :
        (cs : List MemoryCall) (st : MemoryKv api) (k v j : Text)
        → ((init api st).0 ≡ panicked)
          × (size api (call_all cs (init api st).1) ≡ 0)
          × ((read api j (write api k v (call_all cs (init api st).1)).1).0
              ≡ (if str_eq k j then returned v else (read api j (call_all cs (init api st).1)).0))
    unfolding size read with_map
    call_all-init cs st k v j =
        let now : MemoryKv api = call_all cs (init api st).1 in
        let u : IsUnhooked now =
          call_all-IsUnhooked cs (init api st).1 (rw (init_lem st) (after_init-IsUnhooked st)) in
        (
          ap (λ r. r.0) (init_lem st),
          u.sizeless,
          ap (λ r. (read api j r.1).0) (write_lem k v now u)
              ∙ ground (arith, u.stored, lookup-insert k j v u.entries),
        )
