-- ===== src/Storage/Hooks.antt =====
-- `kvHookHolder` of server/storage/kv.go. The sets that hold the hooks are those of the rpc
-- library: a parameter, with the operations that the holder calls.
use mathlib.Core.Logic.{ite}
use mathlib.Core.Option
use pole.Prelude.{ℕ, List, Option, none, some, Outcome, returned, panicked, Exec, for_each}

pub data HookType : Type 0 where
  before_write after_write before_delete after_delete : HookType

pub HookType-discrete : Discrete HookType
HookType-discrete = hlevel

-- The two hooks that `memoryKVStorage.init` registers, and those of others, by their identity.
pub data KvHook : Type 0 where
  insert_key delete_key : KvHook
  other : ℕ → KvHook

-- The calls of `polerpc.Set`. The pointer that `Range` is called on may be nil.
pub record SetApi : Type 1 where
  pub HookSet : Type 0
  pub new_set : HookSet
  pub add : KvHook → HookSet → Outcome HookSet
  pub remove : KvHook → HookSet → HookSet
  pub range : Option HookSet → Outcome (List KvHook)

module _ (api : SetApi) where
  open api use {HookSet, new_set, add, remove, range}

  -- `hooks`, with nil where the map has no entry.
  abbrev pub HookHolder : Type 0
  HookHolder = HookType → Option HookSet

  unfoldable pub new_hook_holder : HookHolder
  new_hook_holder t = none

  unfoldable pub set_or_new : Option HookSet → HookSet
  set_or_new none = new_set
  set_or_new (some set) = set

  unfoldable pub with_set : HookType → HookSet → HookHolder → HookHolder
  unfolding HookType-discrete
  with_set t set hooks = λ u. ite (HookType-discrete t u) (some set) (hooks u)

  -- `RegisterHook`: where `Add` panics, a set that was made for it stays.
  unfoldable pub register_hook : HookType → KvHook → HookHolder → Outcome (Unit {0}) × HookHolder
  unfolding set_or_new with_set
  register_hook t h hooks = elim (add h (set_or_new (hooks t))) [
    | returned set ↦ (returned tt, with_set t set hooks)
    | panicked ↦ (panicked, with_set t (set_or_new (hooks t)) hooks)
  ]

  -- `RemoveHook`
  unfoldable pub remove_hook : HookType → KvHook → HookHolder → HookHolder
  unfolding HookType-discrete
  remove_hook t h hooks =
      λ u. ite (HookType-discrete t u) (Option.map (remove h) (hooks u)) (hooks u)

  -- `execHook`; `run` calls one hook.
  unfoldable pub exec_hook :
      {S : Type 0} → (KvHook → Exec S (Unit {0})) → HookType → HookHolder → Exec S (Unit {0})
  unfolding for_each
  exec_hook run t hooks st = elim (range (hooks t)) [
    | returned hs ↦ for_each run hs st
    | panicked ↦ (panicked, st)
  ]
