-- ===== src/Cluster/Lookups/Switching.antt =====
-- Which lookup is made, and what is left when a change of it fails.
use mathlib.Core.Path.{subst}
use pole.Prelude.{
  ℕ, ◌≡◌, refl, ap, ◌∙◌, Bool, true, false, Option, none, some, List, arith, Text, codes, Dict,
  lookup, str_eq, str_eq_iff, Outcome, returned, panicked, if◌then◌else◌,
}
use pole.Notify.Files.{register_file_watcher}
use pole.Cluster.Lookups.{
  LookupConfig, Outside, AddressServer, MemberLookup, standalone_member_lookup,
  kubernetes_member_lookup, file_member_lookup, address_server_member_lookup, name_of, set_observer,
  create_lookup_by_name, World, start, watching_after, shutdown, create_member_lookup,
  observe_and_start, started_with, handle_switch, refresh, switch_member_lookup, switch_in_mode,
  after_shutdown, answer_switched, text_or_empty, create_in_mode, close_server,
}

unfoldable pub observer_of : MemberLookup → Option ℕ
observer_of (standalone_member_lookup o _) = o
observer_of (kubernetes_member_lookup o _) = o
observer_of (file_member_lookup o _) = o
observer_of (address_server_member_lookup o _) = o

-- The address server is asked for the members, and the handler is to change to a lookup that there is
-- not. It answers with code 500 and keeps the address server, which is shut down: no tick asks it
-- again, whatever it would answer.
pub handle_switch_shuts_down :
    (cfg : LookupConfig) (out : Outside) (params : Dict Text) (name : Text) (o : ℕ)
    (server : AddressServer) (w : World) (answer : Option (List Text))
    → cfg.standalone_mode ≡ false
    → lookup (codes "lookType") params ≡ some name
    → create_lookup_by_name name out ≡ none
    → server.is_scheduled ≡ true
    → (handle_switch cfg out (some params) o (address_server_member_lookup (some o) server, w) ≡ (
      returned 500,
      (address_server_member_lookup (some o) (record server { is_shutdown = true }), w),
    ))
      × (refresh answer
            (handle_switch cfg out
              (some params)
              o
              (address_server_member_lookup (some o) server, w)).1.0
          ≡ none)
unfolding handle_switch refresh switch_member_lookup shutdown
handle_switch_shuts_down cfg out params name o server w answer mode asked unknown scheduled =
    let done : handle_switch cfg out (some params) o
          (address_server_member_lookup (some o) server, w)
        ≡ (
          returned 500,
          (address_server_member_lookup (some o) (record server { is_shutdown = true }), w),
        ) =
      let old = address_server_member_lookup (some o) server in
      ap (λ t. answer_switched (switch_member_lookup cfg out (text_or_empty t) old o w)) asked
      ∙ ap (λ b. answer_switched (switch_in_mode b cfg out name old o w)) mode
      ∙ ap (λ b. answer_switched (after_shutdown cfg out name o (close_server b (some o) server w)))
          scheduled
      ∙ rw unknown refl in
    (done, ap (λ r. refresh answer r.1.0) done)

by_name :
    (name : Text) (out : Outside) (l : MemberLookup)
    → create_lookup_by_name name out ≡ some l
    → name_of l ≡ name
unfolding create_lookup_by_name name_of
by_name name out l e = ground (
  arith,
  e,
  str_eq_iff name (codes "file"),
  str_eq_iff name (codes "address-server"),
  str_eq_iff name (codes "kubernetes"),
)

watching_keeps :
    (o : Option ℕ) (r : Outcome (Option Text))
    → (name_of (watching_after o r) ≡ codes "kubernetes") × (observer_of (watching_after o r) ≡ o)
unfolding name_of observer_of
watching_keeps o (returned none) = (refl, refl)
watching_keeps o (returned (some e)) = (refl, refl)
watching_keeps o panicked = (refl, refl)

start_keeps :
    (cfg : LookupConfig) (out : Outside) (l : MemberLookup) (w : World)
    → (name_of (start cfg out l w).1.0 ≡ name_of l)
      × (observer_of (start cfg out l w).1.0 ≡ observer_of l)
unfolding start name_of observer_of
start_keeps cfg out (standalone_member_lookup o ip) w = (refl, refl)
start_keeps cfg out (kubernetes_member_lookup o watching) w = watching_keeps o out.watched
start_keeps cfg out (file_member_lookup o watcher) w = (refl, refl)
start_keeps cfg out (address_server_member_lookup o server) w = (refl, refl)

observed :
    (o : ℕ) (l : MemberLookup)
    → (name_of (set_observer o l) ≡ name_of l) × (observer_of (set_observer o l) ≡ some o)
unfolding set_observer name_of observer_of
observed o (standalone_member_lookup _ ip) = (refl, refl)
observed o (kubernetes_member_lookup _ watching) = (refl, refl)
observed o (file_member_lookup _ watcher) = (refl, refl)
observed o (address_server_member_lookup _ server) = (refl, refl)

-- The lookup that a start gives.
started_as :
    (r : Outcome (Option Text)) (l l' : MemberLookup) (w w' : World)
    → started_with (r, (l, w)) ≡ (returned (some l', none), w')
    → l ≡ l'
started_as panicked l l' w w' e = absurd (ground (arith, e))
started_as (returned error) l l' w w' e = ground (arith, e)

observe_and_start_lem :
    (cfg : LookupConfig) (out : Outside) (o : ℕ) (name : Text) (made : Option MemberLookup)
    (l : MemberLookup) (w w' : World)
    → ((k : MemberLookup) → made ≡ some k → name_of k ≡ name)
    → observe_and_start cfg out o name made w ≡ (returned (some l, none), w')
    → (name_of l ≡ name) × (observer_of l ≡ some o)
observe_and_start_lem cfg out o name none l w w' named e = absurd (ground (arith, e))
observe_and_start_lem cfg out o name (some k) l w w' named e =
    let s = start cfg out (set_observer o k) w in
    let same : s.1.0 ≡ l = started_as s.0 s.1.0 l s.1.1 w' e in
    let kept = start_keeps cfg out (set_observer o k) w in
    let set = observed o k in
    subst (λ (x : MemberLookup). (name_of x ≡ name) × (observer_of x ≡ some o)) same
      (kept.0 ∙ set.0 ∙ named k refl, kept.1 ∙ set.1)

created_lem :
    (standalone : Bool) (cfg : LookupConfig) (out : Outside) (o : ℕ) (l : MemberLookup)
    (w w' : World)
    → create_in_mode standalone cfg out o w ≡ (returned (some l, none), w')
    → (name_of l ≡ (if standalone then codes "standalone" else cfg.member_lookup_type))
      × (observer_of l ≡ some o)
unfolding start set_observer name_of observer_of
created_lem true cfg out o l w w' e =
    subst (λ (x : MemberLookup). (name_of x ≡ codes "standalone") × (observer_of x ≡ some o))
      (started_as (returned none) (standalone_member_lookup (some o) out.self_ip) l w w' e)
      (refl, refl)
created_lem false cfg out o l w w' e =
    observe_and_start_lem cfg out o cfg.member_lookup_type
      (create_lookup_by_name cfg.member_lookup_type out) l w w'
      (λ k made. by_name cfg.member_lookup_type out k made) e

-- A lookup that is created without an error is the configured one, or in standalone mode the one of
-- that mode, and its observer is the given one.
pub create_member_lookup_lem :
    (cfg : LookupConfig) (out : Outside) (o : ℕ) (l : MemberLookup) (w w' : World)
    → create_member_lookup cfg out o w ≡ (returned (some l, none), w')
    → (name_of l ≡ (if cfg.standalone_mode then codes "standalone" else cfg.member_lookup_type))
      × (observer_of l ≡ some o)
unfolding create_member_lookup
create_member_lookup_lem cfg out o l w w' e = created_lem cfg.standalone_mode cfg out o l w w' e

-- The program starts without a center of file watchers. A file lookup is then a panic.
pub create_member_lookup_panics :
    (cfg : LookupConfig) (out : Outside) (o : ℕ)
    → cfg.standalone_mode ≡ false
    → cfg.member_lookup_type ≡ codes "file"
    → create_member_lookup cfg out o none ≡ (panicked, none)
unfolding create_member_lookup create_lookup_by_name start register_file_watcher set_observer str_eq
create_member_lookup_panics cfg out o mode file =
    ap (λ b. create_in_mode b cfg out o none) mode
    ∙ ap (λ t. observe_and_start cfg out o t (create_lookup_by_name t out) none) file
    ∙ refl
