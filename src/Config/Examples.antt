-- ===== src/Config/Examples.antt =====
-- Requests and changes on which the theorems about server/config are applied.
use pole.Prelude.{
  Bool, true, false, some, none, List, [], ◌∷◌, Text, codes, returned, panicked, Outcome, ◌≡◌, refl,
  ◌||◌, str_eq, str_compare, lookup,
}
use pole.Storage.Kv.{err}
use pole.Config.Files.{ConfigRequest, ConfigWatchRequest, ConfigChangeEvent, normal_change}
use pole.Config.Filters.{HandlerChain, capacity_config_filter, audit_config_filter}
use pole.Config.Watchers.{
  TextSets, IsSets, Value, one, slice, WatcherManager, Watcher, add_watcher, watches,
}
use pole.Config.Watchers.Silence.{watch_call, change_call, run_calls, run_calls_lem}
use pole.Config.Watchers.Watching.{watches-add_watcher, watcher_of, new_watcher, asks, mem_text}
use pole.Config.Core.{ConfigCore, new_config_core, op_for_create_config, respond, plain_response}
use pole.Config.Core.Requests.{file_call, serve, unread, serve-new_config_core}

mem : Text → List Text → Bool
mem t [] = false
mem t (u ∷ us) = str_eq u t || mem t us

values : List Value → Outcome (List Text)
values [] = returned []
values (slice ts ∷ vs) = panicked
values (one t ∷ vs) = elim (values vs) [ panicked ↦ panicked | returned ts ↦ returned (t ∷ ts) ]

null : List Text → Bool
null [] = true
null (t ∷ ts) = false

abbrev lists : TextSets
unfolding mem values null
lists = record {
  TextSet = List Text;
  new_set = [];
  new_set_with_values = values;
  add = λ t s. t ∷ s;
  contain = mem;
  is_empty = null;
}

lists_laws : IsSets lists
unfolding mem values null
lists_laws = record {
  contain-new_set = λ t. refl;
  contain-add = λ t u s. refl;
  slice_panics = λ ts. refl;
}

abbrev no_watchers : WatcherManager lists
no_watchers = record { watcher_repository = [] }

abbrev request : ConfigWatchRequest
request = record {
  id = codes "c1";
  namespace = codes "n";
  watch_item_map = (codes "g", codes "a" ∷ codes "b" ∷ []) ∷ (codes "h", codes "a" ∷ []) ∷ [];
}

abbrev changed_file : ConfigChangeEvent
changed_file = record {
  namespace = codes "n";
  group = codes "g";
  file_name = codes "b";
  content = codes "x";
  version = 3;
  is_encrypt = false;
  solt = [];
  f_type = 1;
}

run_calls_lem_example :
    (run_calls lists
      (watch_call request 7 ∷ change_call true (normal_change changed_file) ∷ [])
      no_watchers
      []).1
    ≡ []
run_calls_lem_example =
    run_calls_lem lists lists_laws
      (watch_call request 7 ∷ change_call true (normal_change changed_file) ∷ []) no_watchers []

watches-add_watcher_example :
    (watcher_of lists (codes "n") (codes "c1") (add_watcher lists request 7 no_watchers).1
      ≡ some (new_watcher lists request 7))
    × (watches lists (lookup (codes "h") (new_watcher lists request 7).item_map) (codes "b")
        ≡ false)
    × ((namespace id : Text) (v : Watcher lists)
        → watcher_of lists namespace id no_watchers ≡ some v
        → watcher_of lists namespace id (add_watcher lists request 7 no_watchers).1 ≡ some v)
unfolding lookup watcher_of str_eq str_compare asks mem_text
watches-add_watcher_example =
    watches-add_watcher lists lists_laws request 7 no_watchers (codes "h") (codes "b")
      (refl, (refl, tt)) refl

serve-new_config_core_example :
    serve lists none (file_call op_for_create_config (err (codes "bad"))) 7 (new_config_core lists)
    ≡ respond lists 7 (plain_response 500 (codes "bad")) (new_config_core lists)
unfolding unread
serve-new_config_core_example =
    serve-new_config_core lists none (file_call op_for_create_config (err (codes "bad"))) 7

abbrev chain : HandlerChain
chain = capacity_config_filter ∷ audit_config_filter ∷ []

abbrev core : ConfigCore lists
core = record {
  filter_chain = some chain;
  watcher_mgn = some no_watchers;
  storage_op = some [];
  sent = [];
}

abbrev file_request : ConfigRequest
file_request = record {
  file_name = codes "a";
  content = codes "x=1";
  file_type = 2;
  beta_info = some (record { is_open = false; client_ids = [] });
}
