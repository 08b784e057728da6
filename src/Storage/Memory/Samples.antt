-- ===== src/Storage/Memory/Samples.antt =====
-- A storage in memory over hook sets that are lists and take no function: for tests.
use pole.Prelude.{Option, none, some, List, [], ◌∷◌, Text, codes, Dict, Outcome, returned, panicked}
use pole.Storage.KeyTree.{nil}
use pole.Storage.Hooks.{HookType, before_write, KvHook, insert_key, SetApi}
use pole.Storage.Memory.{MemoryKv}

abbrev pub range_list : Option (List KvHook) → Outcome (List KvHook)
range_list none = panicked
range_list (some hs) = returned hs

abbrev pub list_sets : SetApi
list_sets = record {
  HookSet = List KvHook;
  new_set = [];
  add = λ h hs. panicked;
  remove = λ h hs. hs;
  range = range_list;
}

abbrev pub quiet_hooks : HookType → Option (List KvHook)
quiet_hooks before_write = some (insert_key ∷ [])
quiet_hooks _ = some []

abbrev pub bare_hooks : HookType → Option (List KvHook)
bare_hooks before_write = some (insert_key ∷ [])
bare_hooks _ = none

abbrev pub held : Dict Text
held = (codes "b", codes "2") ∷ []

abbrev pub storage_with : (HookType → Option (List KvHook)) → MemoryKv list_sets
storage_with hooks = record {
  kh = some hooks;
  sort_keys = record { root = nil; size = 1; next = 1 };
  reference = some held;
  calls = [];
}
