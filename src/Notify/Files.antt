-- ===== src/Notify/Files.antt =====
-- `WatcherCenter` of notify/watch_file_center.go. What fsnotify answers to `Add` and `Remove` is given
-- to the calls; no code sets the center's `log`, so that a call of it is a panic.
pub mod Removals
use pole.Prelude.{
  ℕ, Bool, true, false, ◌||◌, ◌==◌, Option, none, some, List, [], ◌∷◌, ◌++◌, Text, codes, Dict,
  lookup, insert, erase, str_eq, Outcome, returned, panicked, if◌then◌else◌,
}

pub data FileChangeAction : Type 0 where
  file_create file_modify file_delete file_un_support_ope : FileChangeAction

pub record FileChangeEvent : Type 0 where
  pub path : Text
  pub file_name : Text
  pub action : FileChangeAction

-- A watcher by the identity of its pointer, with the events that its `OnEvent` panics on.
pub record FileWatcher : Type 0 where
  pub id : ℕ
  pub file_name : Text
  pub fails_on : FileChangeEvent → Bool

-- `notified` records the calls of `OnEvent`, latest first.
pub record WatcherCenter : Type 0 where
  pub watcher_map : Dict (List FileWatcher)
  pub notified : List (ℕ × FileChangeEvent)

-- The bits of an `fsnotify.Op` that are looked at.
pub record Op : Type 0 where
  pub create : Bool
  pub write : Bool
  pub remove : Bool

-- `InitWatcherCenter`, where fsnotify gives a watcher. The program starts with a nil center, `none`.
unfoldable pub init_watcher_center : Option WatcherCenter
init_watcher_center = some (record { watcher_map = []; notified = [] })

abbrev pub watchers_or_none : Option (List FileWatcher) → List FileWatcher
watchers_or_none none = []
watchers_or_none (some arr) = arr

abbrev pub after_add : Option Text → Text → Dict (List FileWatcher) → Dict (List FileWatcher)
after_add none path m = m
after_add (some _) path m = erase path m

abbrev pub Registered : Type 0
Registered = Outcome (Option Text) × Option WatcherCenter

-- `added` is the error of `watch.Add`.
unfoldable pub register_file_watcher :
    Option Text → Text → List FileWatcher → Option WatcherCenter → Registered
register_file_watcher added path watchers none = (panicked, none)
register_file_watcher added path watchers (some w) = (
  returned added,
  some (record w {
    watcher_map =
        after_add added path
          (insert path (watchers_or_none (lookup path w.watcher_map) ++ watchers) w.watcher_map);
  }),
)

-- `removeElement`, which keeps what satisfies the predicate.
unfoldable pub remove_element : (FileWatcher → Bool) → List FileWatcher → List FileWatcher
remove_element predicate [] = []
remove_element predicate (f ∷ arr) =
    let rest = remove_element predicate arr in if predicate f then f ∷ rest else rest

-- The predicate of `RemoveFileWatcher`.
unfoldable pub is_one_of : List FileWatcher → FileWatcher → Bool
is_one_of [] fw = false
is_one_of (e ∷ watchers) fw = fw.id == e.id || is_one_of watchers fw

abbrev pub remove_found :
    Text
    → List FileWatcher
    → Option (List FileWatcher)
    → Dict (List FileWatcher)
    → Dict (List FileWatcher)
remove_found path watchers none m = m
remove_found path watchers (some arr) m = insert path (remove_element (is_one_of watchers) arr) m

-- `removed` is the error of `watch.Remove`.
unfoldable pub remove_file_watcher :
    Option Text → Text → List FileWatcher → Option WatcherCenter → Registered
unfolding remove_element is_one_of
remove_file_watcher removed path watchers none = (panicked, none)
remove_file_watcher removed path watchers (some w) = (
  returned removed,
  some (record w {
    watcher_map = remove_found path watchers (lookup path w.watcher_map) w.watcher_map;
  }),
)

unfoldable pub file_action : Op → Bool × FileChangeAction
file_action op =
    if op.create
    then (true, file_create)
    else if op.write
    then (true, file_modify)
    else if op.remove
    then (true, file_delete)
    else (false, file_un_support_ope)

-- `strings.HasPrefix(name, path)`
unfoldable pub has_prefix : Text → Text → Bool
has_prefix name [] = true
has_prefix [] (c ∷ path) = false
has_prefix (a ∷ name) (c ∷ path) = if a == c then has_prefix name path else false

-- The watchers of the first path, in the order of the map, that is a prefix.
unfoldable pub watchers_of : Text → Dict (List FileWatcher) → List FileWatcher
unfolding has_prefix
watchers_of name [] = []
watchers_of name ((path, fws) ∷ m) = if has_prefix name path then fws else watchers_of name m

-- `filepath.Split`: up to the last slash, and what is after it.
abbrev pub before_slash : ℕ → Bool → Text × Text → Text × Text
before_slash c true (dir, file) = (c ∷ dir, file)
before_slash c false (dir, file) = elim dir [
  | [] ↦ ([], c ∷ file)
  | d ∷ dir' ↦ (c ∷ d ∷ dir', file)
]

unfoldable pub split_path : Text → Text × Text
split_path [] = ([], [])
split_path (c ∷ name) = before_slash c (c == 47) (split_path name)

-- `OnEvent`, and whether it panics.
abbrev pub call_watcher : FileWatcher → FileChangeEvent → WatcherCenter → WatcherCenter
call_watcher f e w = record w { notified = (f.id, e) ∷ w.notified }

-- The loop over the watchers of an event.
unfoldable pub notify_named :
    FileChangeEvent → List FileWatcher → WatcherCenter → Outcome (Unit {0}) × WatcherCenter
notify_named e [] w = (returned tt, w)
notify_named e (f ∷ fws) w = elim (str_eq f.file_name e.file_name) [
  | false ↦ notify_named e fws w
  | true ↦ elim (f.fails_on e) [
    | true ↦ (panicked, call_watcher f e w)
    | false ↦ notify_named e fws (call_watcher f e w)
  ]
]

abbrev pub notify_action :
    Bool × FileChangeAction
    → Text × Text
    → List FileWatcher
    → WatcherCenter
    → Outcome (Unit {0}) × WatcherCenter
notify_action (false, action) (path, file_name) fws w = (returned tt, w)
notify_action (true, action) (path, file_name) fws w =
    notify_named (record { path = path; file_name = file_name; action = action }) fws w

-- An event, as the goroutine takes it. The recovery from a panic calls `log`, and panics again.
unfoldable pub handle_event : Text → Op → WatcherCenter → Outcome (Unit {0}) × WatcherCenter
unfolding watchers_of file_action split_path notify_named
handle_event name op w =
    notify_action (file_action op) (split_path name) (watchers_of name w.watcher_map) w

-- After an overflow every watcher gets an event.
unfoldable pub notify_path :
    Text → List FileWatcher → WatcherCenter → Outcome (Unit {0}) × WatcherCenter
notify_path path [] w = (returned tt, w)
notify_path path (f ∷ fws) w =
    let e : FileChangeEvent = record {
      path = path;
      file_name = f.file_name;
      action = file_modify;
    } in
    elim (f.fails_on e) [
      | true ↦ (panicked, call_watcher f e w)
      | false ↦ notify_path path fws (call_watcher f e w)
    ]

abbrev pub and_then :
    Outcome (Unit {0}) × WatcherCenter
    → (WatcherCenter → Outcome (Unit {0}) × WatcherCenter)
    → Outcome (Unit {0}) × WatcherCenter
and_then (panicked, w) f = (panicked, w)
and_then (returned _, w) f = f w

unfoldable pub notify_paths :
    Dict (List FileWatcher) → WatcherCenter → Outcome (Unit {0}) × WatcherCenter
unfolding notify_path
notify_paths [] w = (returned tt, w)
notify_paths ((path, fws) ∷ m) w = and_then (notify_path path fws w) (notify_paths m)

-- An error, as the goroutine takes it: `overflow` says which. At the end `log` is called.
unfoldable pub handle_error : Bool → WatcherCenter → Outcome (Unit {0}) × WatcherCenter
unfolding notify_paths
handle_error true w = and_then (notify_paths w.watcher_map w) (λ w'. (panicked, w'))
handle_error false w = (panicked, w)
