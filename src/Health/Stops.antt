-- ===== src/Health/Stops.antt =====
-- A task that was removed, and the numbers of the tasks.
use mathlib.Core.Path.{subst}
use pole.Prelude.{
  ℕ, ◌<◌, ◌≤◌, ◌≡◌, sym, ap, ◌∙◌, true, ◌==◌, inl, inr, Option, none, some, List, [], ◌∷◌, ◌++◌,
  arith, Text, lookup, insert, erase, ==_iff, returned,
}
use pole.Prelude.Tests.{Bool-cases, Option-cases}
use pole.Prelude.Maps.{lookup-insert_self}
use pole.Discovery.Model.{OriginInstance}
use pole.Health.Tasks.{HealthCheckTask, TaskTable, address, among, track, untrack, cancel_found}
use pole.Health.Checks.{add_asserted, remove_asserted}
use pole.Health.Runs.{
  Kind, assert_task, add_task, remove_task, Step, adds, removes, runs, Reach, here, next,
  add_task-eq, remove_task-eq, count, count-append, count-one, count-nil, Runs, run_task-Runs,
}
use pole.Health.Leaks.{counted, counted_after, IsNumbered, count-below}

-- The task is cancelled, and waits on the wheel at most once.
record IsStopped (id : ℕ) (t : TaskTable) : Type 0 where
  over : among id t.cancelled ≡ true
  last : count id t.wheel ≤ 1
  old : id < t.next

track-IsStopped :
    (id : ℕ) (key : Text) (t : TaskTable) → IsStopped id t → IsStopped id (track key t)
unfolding track
track-IsStopped id key t h = record {
  over = h.over;
  last = ground (
    arith,
    h.last,
    h.old,
    count-append id t.wheel (t.next ∷ []),
    count-one id t.next [],
    count-nil id,
  );
  old = omega (arith, h.old);
}

untrack-IsStopped :
    (id : ℕ) (key : Text) (t : TaskTable) → IsStopped id t → IsStopped id (untrack key t)
unfolding untrack among
untrack-IsStopped id key t h = elim (Option-cases (lookup key t.task_repository)) [
  | inl absent ↦ rw (absent, untrack) (record { over = h.over; last = h.last; old = h.old })
  | inr (j, there) ↦
      rw (there, untrack) (record { over = ground (arith, h.over); last = h.last; old = h.old })
]

run-IsStopped :
    (id j : ℕ) (before after : List ℕ) (s t : TaskTable)
    → s.wheel ≡ before ++ j ∷ after
    → Runs j (record s { wheel = before ++ after }) t
    → IsStopped id s
    → IsStopped id t
run-IsStopped id j before after s t e r h = record {
  over = ap (among id) r.cancels ∙ h.over;
  last = elim (Bool-cases (j == id)) [
    | inl same ↦
        let dead : among j s.cancelled ≡ true =
          subst (λ i. among i s.cancelled ≡ true) (sym ((==_iff j id).0 same)) h.over in
        ground (
          arith,
          counted id j before after s t e r,
          counted_after id j before after s t e r,
          dead,
          h.last,
        )
    | inr differ ↦ ground (
      arith,
      counted id j before after s t e r,
      counted_after id j before after s t e r,
      h.last,
      differ,
    )
  ];
  old = rw r.numbers h.old;
}

added-IsStopped :
    (id : ℕ) (o : Option OriginInstance) (t : TaskTable)
    → IsStopped id t
    → IsStopped id (add_asserted o t).1
added-IsStopped id none t h = h
added-IsStopped id (some i) t h = track-IsStopped id (address i) t h

removed-IsStopped :
    (id : ℕ) (o : Option OriginInstance) (t : TaskTable)
    → IsStopped id t
    → IsStopped id (remove_asserted o t).1
removed-IsStopped id none t h = h
removed-IsStopped id (some i) t h = untrack-IsStopped id (address i) t h

Step-IsStopped :
    (id : ℕ) (k : Kind) {s t : TaskTable} → Step k s t → IsStopped id s → IsStopped id t
Step-IsStopped id k {s} (adds task e) h =
    rw (e, add_task-eq k task s) (added-IsStopped id (assert_task k task) s h)
Step-IsStopped id k {s} (removes task e) h =
    rw (e, remove_task-eq k task s) (removed-IsStopped id (assert_task k task) s h)
Step-IsStopped id k {s} {t} (runs found j before after w e) h =
    run-IsStopped id j before after s t w
      (subst (Runs j (record s { wheel = before ++ after })) (sym e)
        (run_task-Runs k found j (record s { wheel = before ++ after })))
      h

Reach-IsStopped :
    (id : ℕ) (k : Kind) {s t : TaskTable} → IsStopped id s → Reach k s t → IsStopped id t
Reach-IsStopped id k h here = h
Reach-IsStopped id k h (next r st) = Step-IsStopped id k st (Reach-IsStopped id k h r)

lone : (n : ℕ) → count n (n ∷ []) ≤ 1
lone n = ground (arith, count-one n n [], count-nil n)

untrack-track :
    (a : Text) (t : TaskTable)
    → untrack a (track a t) ≡ record (track a t) {
      cancelled = t.next ∷ t.cancelled;
      task_repository = erase a (insert a t.next t.task_repository);
    }
unfolding track untrack
untrack-track a t =
    ap
      (λ o. record (cancel_found o (track a t)) {
        task_repository = erase a (insert a t.next t.task_repository);
      })
      (lookup-insert_self a t.next t.task_repository)

removed_at_once :
    (a : Text) (t : TaskTable) → IsNumbered t → IsStopped t.next (untrack a (track a t))
unfolding track among
removed_at_once a t h = subst (IsStopped t.next) (sym (untrack-track a t)) (record {
  over = ground arith;
  last = omega (
    arith,
    count-append t.next t.wheel (t.next ∷ []),
    lone t.next,
    count-below t.next t.wheel h.due,
  );
  old = omega arith;
})

-- A plugin gets a task, and the task of that address is removed next. Whatever is added, removed and
-- run afterwards: the task stays cancelled and waits on the wheel once at most, for a last run.
pub remove_task-add_task :
    (k : Kind) (a b : HealthCheckTask) (i j : OriginInstance) (s t : TaskTable)
    → IsNumbered s
    → assert_task k a ≡ some i
    → assert_task k b ≡ some j
    → address i ≡ address j
    → Reach k (remove_task k b (add_task k a s).1).1 t
    → (among s.next t.cancelled ≡ true) × (count s.next t.wheel ≤ 1)
remove_task-add_task k a b i j s t numbered one two same r =
    let first : add_task k a s ≡ (returned true, track (address i) s) =
      add_task-eq k a s ∙ ap (λ o. add_asserted o s) one in
    let second : remove_task k b (track (address i) s)
        ≡ (returned true, untrack (address j) (track (address i) s)) =
      remove_task-eq k b (track (address i) s)
      ∙ ap (λ o. remove_asserted o (track (address i) s)) two in
    let from : (remove_task k b (add_task k a s).1).1 ≡ untrack (address i) (track (address i) s) =
      rw (first, second) (ap (λ x. untrack x (track (address i) s)) (sym same)) in
    let h =
      Reach-IsStopped s.next k
        (subst (IsStopped s.next) (sym from) (removed_at_once (address i) s numbered)) r in
    (h.over, h.last)
