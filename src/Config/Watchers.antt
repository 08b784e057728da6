-- ===== src/Config/Watchers.antt =====
-- `WatcherManager` of server/config/config_core.go and its watchers, for a manager whose repository was
-- made. The sets of file names are those of the rpc library, a parameter. A goroutine that sends a
-- change runs as it is started.
pub mod Silence
pub mod Watching
pub mod Merging
use pole.Prelude.{
  ℕ, Bool, true, false, Option, none, some, List, [], ◌∷◌, Text, codes, Dict, lookup, insert,
  Outcome, returned, panicked, ◌≡◌, ◌||◌, str_eq, if◌then◌else◌,
}
use pole.Config.Files.{
  ConfigChangeEvent, ChangeEvent, normal_change, beta_change, other_event, ConfigWatchRequest,
  SentFile, ServerResponse,
}

-- What is put into a set: a text, or by mistake a slice of them, which cannot be a key of a map.
pub data Value : Type 0 where
  one : Text → Value
  slice : List Text → Value

pub record TextSets : Type 1 where
  pub TextSet : Type 0
  pub new_set : TextSet
  pub new_set_with_values : List Value → Outcome TextSet
  pub add : Text → TextSet → TextSet
  pub contain : Text → TextSet → Bool
  pub is_empty : TextSet → Bool

-- The documented behaviour. A set is a Go map with its values as keys: a slice as a key is a panic.
pub record IsSets (sets : TextSets) : Type 1 where
  pub contain-new_set : (t : Text) → sets.contain t sets.new_set ≡ false
  pub contain-add :
      (t u : Text) (s : sets.TextSet)
      → sets.contain u (sets.add t s) ≡ (str_eq t u || sets.contain u s)
  pub slice_panics : (ts : List Text) → sets.new_set_with_values (slice ts ∷ []) ≡ panicked

module _ (sets : TextSets) where
  open sets use {TextSet, new_set, new_set_with_values, add, contain, is_empty}

  pub record WatchKey : Type 0 where
    pub group : Text
    pub filenames : TextSet

  -- `sink` is the number of the client's connection.
  pub record Watcher : Type 0 where
    pub id : Text
    pub item_map : Dict WatchKey
    pub sink : ℕ

  abbrev pub AggWatcher : Type 0
  AggWatcher = Dict Watcher

  pub record WatcherManager : Type 0 where
    pub watcher_repository : Dict AggWatcher

  unfoldable pub add_names : List Text → TextSet → TextSet
  add_names [] s = s
  add_names (filename ∷ filenames) s = add_names filenames (add filename s)

  abbrev pub merge_key : Option WatchKey → Text → List Text → Outcome WatchKey
  merge_key (some i) group filenames =
      returned (record i { filenames = add_names filenames i.filenames })
  merge_key none group filenames = elim (new_set_with_values (slice filenames ∷ [])) [
    | panicked ↦ panicked
    | returned s ↦ returned (record { group = group; filenames = s })
  ]

  -- `watcher.merge`, on its `itemMap`. A panic leaves what was merged before.
  unfoldable pub merge : Dict (List Text) → Dict WatchKey → Outcome (Unit {0}) × Dict WatchKey
  unfolding add_names
  merge [] m = (returned tt, m)
  merge ((group, filenames) ∷ items) m = elim (merge_key (lookup group m) group filenames) [
    | panicked ↦ (panicked, m)
    | returned key ↦ merge items (insert group key m)
  ]

  -- The `itemMap` of a new watcher.
  unfoldable pub new_items : Dict (List Text) → Dict WatchKey → Dict WatchKey
  unfolding add_names
  new_items [] m = m
  new_items ((group, filenames) ∷ items) m =
      new_items items
        (insert group (record { group = group; filenames = add_names filenames new_set }) m)

  abbrev pub agg_or_new : Option AggWatcher → AggWatcher
  agg_or_new none = []
  agg_or_new (some ids) = ids

  abbrev pub add_found :
      Option Watcher
      → ConfigWatchRequest
      → ℕ
      → AggWatcher
      → Outcome (Bool × Option Text) × AggWatcher
  add_found none req rpc_ctx ids = (
    returned (false, none),
    insert req.id
        (record { id = req.id; item_map = new_items req.watch_item_map []; sink = rpc_ctx }) ids,
  )
  add_found (some w) req rpc_ctx ids =
      let (end, m) = merge req.watch_item_map w.item_map in
      let kept : AggWatcher = insert req.id (record w { item_map = m }) ids in
      elim end [ panicked ↦ (panicked, kept) | returned _ ↦ (returned (false, none), kept) ]

  unfoldable pub add_watcher :
      ConfigWatchRequest → ℕ → WatcherManager → Outcome (Bool × Option Text) × WatcherManager
  unfolding merge new_items
  add_watcher req rpc_ctx mgn =
      let ids : AggWatcher = agg_or_new (lookup req.namespace mgn.watcher_repository) in
      let (end, ids') = add_found (lookup req.id ids) req rpc_ctx ids in
      (end, record mgn { watcher_repository = insert req.namespace ids' mgn.watcher_repository })

  -- What was sent on which connection, the latest first.
  abbrev pub Log : Type 0
  Log = List (ℕ × ServerResponse)

  abbrev pub response_of : ConfigChangeEvent → ServerResponse
  response_of e = record {
    code = 0;
    msg = codes "success";
    body = some (record {
      namespace_id = e.namespace;
      group = e.group;
      encrypt = e.is_encrypt;
      file_type = e.f_type;
      file_name = e.file_name;
      content = e.content;
      version = e.version;
    });
  }

  -- Whether a watcher asks for the file of an event.
  abbrev pub watches : Option WatchKey → Text → Bool
  watches none filename = false
  watches (some items) filename = contain filename items.filenames

  -- `watcher.onConfigChange`; `marshals` says that the file can be marshalled.
  unfoldable pub on_config_change : Bool → ConfigChangeEvent → Watcher → Log → Log
  on_config_change marshals e w log =
      if watches (lookup e.group w.item_map) e.file_name
      then (if marshals then (w.sink, response_of e) ∷ log else log)
      else log

  abbrev pub is_selected : Text → TextSet → Watcher → Bool
  is_selected group clients w = elim (lookup group w.item_map) [
    | none ↦ false
    | some _ ↦ is_empty clients || contain w.id clients
  ]

  -- The loop of `selectWatcher`, with `onConfigChange` as its callback.
  unfoldable pub notify_selected : Bool → ConfigChangeEvent → TextSet → AggWatcher → Log → Log
  unfolding on_config_change
  notify_selected marshals e clients [] log = log
  notify_selected marshals e clients ((_, w) ∷ ids) log =
      notify_selected marshals e clients ids
        (if is_selected e.group clients w then on_config_change marshals e w log else log)

  -- `selectWatcher`. The ids are one argument of `NewSetWithValues`.
  unfoldable pub select_watcher :
      List Text → Bool → ConfigChangeEvent → WatcherManager → Log → Outcome (Unit {0}) × Log
  unfolding notify_selected
  select_watcher client_ids marshals e mgn log = elim (lookup e.namespace mgn.watcher_repository) [
    | none ↦ (returned tt, log)
    | some ids ↦ elim (new_set_with_values (slice client_ids ∷ [])) [
      | panicked ↦ (panicked, log)
      | returned clients ↦ (returned tt, notify_selected marshals e clients ids log)
    ]
  ]

  -- `WatcherManager.OnEvent`
  unfoldable pub on_change_event :
      Bool → ChangeEvent → WatcherManager → Log → Outcome (Unit {0}) × Log
  unfolding select_watcher
  on_change_event marshals (normal_change e) mgn log = select_watcher [] marshals e mgn log
  on_change_event marshals (beta_change e) mgn log = (returned tt, log)
  on_change_event marshals other_event mgn log = (returned tt, log)
