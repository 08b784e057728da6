-- ===== src/Cluster/Lookups.antt =====
-- How the members of a cluster are looked up: server/cluster/member_lookup.go, and the handler of
-- member_manager.go that changes the lookup. An observer is known by a number. What the operating
-- system, fsnotify and kubernetes answer is given, as `Outside`.
pub mod Switching
mod Examples
use pole.Prelude.{
  ℕ, Bool, true, false, Option, none, some, List, [], ◌∷◌, ◌++◌, Text, codes, Dict, lookup, str_eq,
  Outcome, returned, panicked, if◌then◌else◌,
}
use pole.Notify.Files.{FileWatcher, WatcherCenter, register_file_watcher, remove_file_watcher}

-- The configuration that is read. The path is what `GetConfPath` returns.
pub record LookupConfig : Type 0 where
  pub standalone_mode : Bool
  pub member_lookup_type : Text
  pub server_addr : Text
  pub server_port : ℕ
  pub server_path : Text
  pub conf_path : Text

-- `watched` is how the watch on kubernetes ends, with its error; `as_watcher` is the new file lookup,
-- as the file watchers see it.
pub record Outside : Type 0 where
  pub self_ip : Text
  pub as_watcher : FileWatcher
  pub added : Option Text
  pub removed : Option Text
  pub watched : Outcome (Option Text)

pub record AddressServer : Type 0 where
  pub address_server : Text
  pub address_port : ℕ
  pub url_path : Text
  pub is_scheduled : Bool  -- `refreshFuture` is not nil
  pub is_shutdown : Bool

-- The lookups, each with its observer.
pub data MemberLookup : Type 0 where
  standalone_member_lookup : Option ℕ → Text → MemberLookup
  kubernetes_member_lookup : Option ℕ → Bool → MemberLookup  -- `watcher` is not nil
  file_member_lookup : Option ℕ → FileWatcher → MemberLookup
  address_server_member_lookup : Option ℕ → AddressServer → MemberLookup

unfoldable pub name_of : MemberLookup → Text
name_of (standalone_member_lookup observer ip) = codes "standalone"
name_of (kubernetes_member_lookup observer watching) = codes "kubernetes"
name_of (file_member_lookup observer watcher) = codes "file"
name_of (address_server_member_lookup observer server) = codes "address-server"

-- The method `Observer`, of each lookup.
unfoldable pub set_observer : ℕ → MemberLookup → MemberLookup
set_observer o (standalone_member_lookup _ ip) = standalone_member_lookup (some o) ip
set_observer o (kubernetes_member_lookup _ watching) = kubernetes_member_lookup (some o) watching
set_observer o (file_member_lookup _ watcher) = file_member_lookup (some o) watcher
set_observer o (address_server_member_lookup _ server) =
    address_server_member_lookup (some o) server

abbrev new_server : AddressServer
new_server = record {
  address_server = [];
  address_port = 0;
  url_path = [];
  is_scheduled = false;
  is_shutdown = false;
}

-- `none` is the error for a name that no lookup has.
unfoldable pub create_lookup_by_name : Text → Outside → Option MemberLookup
create_lookup_by_name name out =
    if str_eq name (codes "file")
    then some (file_member_lookup none out.as_watcher)
    else if str_eq name (codes "address-server")
    then some (address_server_member_lookup none new_server)
    else if str_eq name (codes "kubernetes")
    then some (kubernetes_member_lookup none false)
    else none

-- The center of the file watchers is all that a lookup changes outside itself.
abbrev pub World : Type 0
World = Option WatcherCenter

abbrev pub Started : Type 0
Started = Outcome (Option Text) × (MemberLookup × World)

abbrev pub watching_after : Option ℕ → Outcome (Option Text) → MemberLookup
watching_after o (returned none) = kubernetes_member_lookup o true
watching_after o _ = kubernetes_member_lookup o false

unfoldable pub start : LookupConfig → Outside → MemberLookup → World → Started
unfolding register_file_watcher
start cfg out (standalone_member_lookup o ip) w =
    (returned none, (standalone_member_lookup o out.self_ip, w))
start cfg out (kubernetes_member_lookup o watching) w =
    (out.watched, (watching_after o out.watched, w))
start cfg out (file_member_lookup o watcher) w =
    let r : Outcome (Option Text) × World =
      register_file_watcher out.added cfg.conf_path (watcher ∷ []) w in
    (r.0, (file_member_lookup o watcher, r.1))
start cfg out (address_server_member_lookup o server) w = (
  returned none,
  (
    address_server_member_lookup o (record {
      address_server = cfg.server_addr;
      address_port = cfg.server_port;
      url_path = cfg.server_path;
      is_scheduled = true;
      is_shutdown = server.is_shutdown;
    }),
    w,
  ),
)

abbrev ignore_error : Outcome (Option Text) → Outcome (Unit {0})
ignore_error (returned _) = returned tt
ignore_error panicked = panicked

abbrev pub close_server :
    Bool → Option ℕ → AddressServer → World → Outcome (Unit {0}) × (MemberLookup × World)
close_server true o server w =
    (returned tt, (address_server_member_lookup o (record server { is_shutdown = true }), w))
close_server false o server w = (panicked, (address_server_member_lookup o server, w))

-- A nil watcher or future is a panic.
unfoldable pub shutdown :
    LookupConfig → Outside → MemberLookup → World → Outcome (Unit {0}) × (MemberLookup × World)
unfolding remove_file_watcher
shutdown cfg out (standalone_member_lookup o ip) w =
    (returned tt, (standalone_member_lookup o ip, w))
shutdown cfg out (kubernetes_member_lookup o true) w =
    (returned tt, (kubernetes_member_lookup o true, w))
shutdown cfg out (kubernetes_member_lookup o false) w =
    (panicked, (kubernetes_member_lookup o false, w))
shutdown cfg out (file_member_lookup o watcher) w =
    let r : Outcome (Option Text) × World =
      remove_file_watcher out.removed cfg.conf_path (watcher ∷ []) w in
    (ignore_error r.0, (file_member_lookup o watcher, r.1))
shutdown cfg out (address_server_member_lookup o server) w =
    close_server server.is_scheduled o server w

-- A lookup, or nil, and an error.
abbrev pub Made : Type 0
Made = Option MemberLookup × Option Text

abbrev pub no_such : Text → Text
no_such name = codes "this member-lookup [" ++ (name ++ codes "] unrealized")

abbrev pub started_with : Started → Outcome Made × World
started_with (panicked, (l, w)) = (panicked, w)
started_with (returned error, (l, w)) = (returned (some l, error), w)

-- `lookup.Observer(observer)` and `lookup.Start()` of a lookup that was made.
abbrev pub observe_and_start :
    LookupConfig → Outside → ℕ → Text → Option MemberLookup → World → Outcome Made × World
observe_and_start cfg out o name none w = (returned (none, some (no_such name)), w)
observe_and_start cfg out o name (some l) w = started_with (start cfg out (set_observer o l) w)

abbrev pub create_in_mode : Bool → LookupConfig → Outside → ℕ → World → Outcome Made × World
create_in_mode true cfg out o w =
    observe_and_start cfg out o [] (some (standalone_member_lookup none [])) w
create_in_mode false cfg out o w =
    observe_and_start cfg out o cfg.member_lookup_type
      (create_lookup_by_name cfg.member_lookup_type out) w

unfoldable pub create_member_lookup : LookupConfig → Outside → ℕ → World → Outcome Made × World
unfolding start set_observer create_lookup_by_name
create_member_lookup cfg out o w = create_in_mode cfg.standalone_mode cfg out o w

abbrev pub not_support : Text
not_support = codes "only support in cluster mode"

abbrev pub Switched : Type 0
Switched = Outcome Made × (MemberLookup × World)

abbrev after_old : MemberLookup → Outcome Made × World → Switched
after_old old (made, w) = (made, (old, w))

-- What follows `oldLookup.Shutdown()`.
abbrev pub after_shutdown :
    LookupConfig → Outside → Text → ℕ → Outcome (Unit {0}) × (MemberLookup × World) → Switched
after_shutdown cfg out name o (panicked, (old, w)) = (panicked, (old, w))
after_shutdown cfg out name o (returned _, (old, w)) =
    after_old old (observe_and_start cfg out o name (create_lookup_by_name name out) w)

abbrev pub switch_in_mode :
    Bool → LookupConfig → Outside → Text → MemberLookup → ℕ → World → Switched
switch_in_mode true cfg out name old o w = (returned (none, some not_support), (old, w))
switch_in_mode false cfg out name old o w = after_shutdown cfg out name o (shutdown cfg out old w)

-- `SwitchMemberLookupAndCloseOld`, with the old lookup as it leaves it.
unfoldable pub switch_member_lookup :
    LookupConfig → Outside → Text → MemberLookup → ℕ → World → Switched
unfolding shutdown start set_observer create_lookup_by_name
switch_member_lookup cfg out name old o w = switch_in_mode cfg.standalone_mode cfg out name old o w

abbrev pub text_or_empty : Option Text → Text
text_or_empty none = []
text_or_empty (some t) = t

abbrev pub answer_switched : Switched → Outcome ℕ × (MemberLookup × World)
answer_switched (panicked, s) = (panicked, s)
answer_switched (returned (l, some error), s) = (returned 500, s)
answer_switched (returned (none, none), s) = (panicked, s)
answer_switched (returned (some l, none), (old, w)) = (returned 200, (l, w))

-- No call gives nil without an error.
-- The handler of `MemberLookupSwitchPattern`, from the parameters, if there are any, to the code of
-- its answer.
unfoldable pub handle_switch :
    LookupConfig
    → Outside
    → Option (Dict Text)
    → ℕ
    → MemberLookup × World
    → Outcome ℕ × (MemberLookup × World)
unfolding switch_member_lookup
handle_switch cfg out none o s = (returned 400, s)
handle_switch cfg out (some params) o (look_up, w) =
    answer_switched
      (switch_member_lookup cfg out (text_or_empty (lookup (codes "lookType") params)) look_up o w)

-- A tick of `startWatchAddressServer`: the lines that the observer gets, where `answer` is the body of
-- an answer with code 200. Other lookups have no tick.
unfoldable pub refresh : Option (List Text) → MemberLookup → Option (List Text)
refresh answer (address_server_member_lookup o server) = if server.is_shutdown then none else answer
refresh answer _ = none
