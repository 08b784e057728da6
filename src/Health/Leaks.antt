-- ===== src/Health/Leaks.antt =====
-- What becomes of the tasks of a plugin.
use mathlib.Core.Path.{subst}
use pole.Prelude.{
  ℕ, suc, ◌+◌, ◌<◌, ◌≡◌, ◌≢◌, refl, sym, ap, ◌∙◌, true, false, ◌==◌, inl, inr, Option, none, some,
  List, [], ◌∷◌, ◌++◌, arith, All, Text, Dict, lookup, insert, erase, str_eq, str_eq_refl, All-map,
  ==_iff, if◌then◌else◌, returned,
}
use pole.Prelude.Tests.{Bool-cases, Option-cases}
use pole.Discovery.Model.{OriginInstance}
use pole.Health.Tasks.{HealthCheckTask, TaskTable, address, among, track, untrack}
use pole.Health.Checks.{add_asserted, remove_asserted}
use pole.Health.Runs.{
  Kind, assert_task, add_task, Step, adds, removes, runs, Reach, here, next, add_task-eq,
  remove_task-eq, count, count-append, count-one, Runs, run_task-Runs,
}

module _ (P : ℕ → Type 0) where
  abbrev pub AllTasks : Dict ℕ → Type 0
  AllTasks = All (λ (e : Text × ℕ). P e.1)

  pub insert-All : (k : Text) (v : ℕ) (m : Dict ℕ) → P v → AllTasks m → AllTasks (insert k v m)
  unfolding insert
  insert-All k v [] p h = (p, tt)
  insert-All k v ((j, w) ∷ m) p h = elim (Bool-cases (str_eq j k)) [
    | inl same ↦ rw (same, insert) (p, h.1)
    | inr differ ↦ rw (differ, insert) (h.0, insert-All k v m p h.1)
  ]

  pub erase-All : (k : Text) (m : Dict ℕ) → AllTasks m → AllTasks (erase k m)
  unfolding erase
  erase-All k [] h = tt
  erase-All k ((j, w) ∷ m) h = elim (Bool-cases (str_eq j k)) [
    | inl same ↦ rw (same, erase) (erase-All k m h.1)
    | inr differ ↦ rw (differ, erase) (h.0, erase-All k m h.1)
  ]

  pub lookup-All : (k : Text) (v : ℕ) (m : Dict ℕ) → lookup k m ≡ some v → AllTasks m → P v
  unfolding lookup
  lookup-All k v [] e h = absurd (ground arith)
  lookup-All k v ((j, w) ∷ m) e h = elim (Bool-cases (str_eq j k)) [
    | inl same ↦ let same_value : w ≡ v = ground (arith, e, same) in subst P same_value h.0
    | inr differ ↦ lookup-All k v m (ground (arith, e, differ)) h.1
  ]

-- The repository has lost the task, which was not cancelled and waits on the wheel.
record Leaked (id : ℕ) (t : TaskTable) : Type 0 where
  spare : AllTasks (λ j. j ≢ id) t.task_repository
  alive : among id t.cancelled ≡ false
  waiting : 0 < count id t.wheel
  old : id < t.next

track-Leaked : (id : ℕ) (key : Text) (t : TaskTable) → Leaked id t → Leaked id (track key t)
unfolding track
track-Leaked id key t h = record {
  spare =
      insert-All (λ j. j ≢ id) key t.next t.task_repository (λ e. absurd (omega (arith, e, h.old)))
        h.spare;
  alive = h.alive;
  waiting = omega (arith, h.waiting, count-append id t.wheel (t.next ∷ []));
  old = omega (arith, h.old);
}

untrack-Leaked : (id : ℕ) (key : Text) (t : TaskTable) → Leaked id t → Leaked id (untrack key t)
unfolding untrack among
untrack-Leaked id key t h = elim (Option-cases (lookup key t.task_repository)) [
  | inl absent ↦
      rw (absent, untrack)
        (record {
          spare = erase-All (λ j. j ≢ id) key t.task_repository h.spare;
          alive = h.alive;
          waiting = h.waiting;
          old = h.old;
        })
  | inr (j, there) ↦
      let apart : j ≢ id = lookup-All (λ j. j ≢ id) key j t.task_repository there h.spare in
      rw (there, untrack)
        (record {
          spare = erase-All (λ j. j ≢ id) key t.task_repository h.spare;
          alive = ground (arith, h.alive, apart);
          waiting = h.waiting;
          old = h.old;
        })
]

-- The wheel before and after a run.
module _ (id j : ℕ) (before after : List ℕ) (s t : TaskTable) (e : s.wheel ≡ before ++ j ∷ after)
    (r : Runs j (record s { wheel = before ++ after }) t) where
  pub counted : count id s.wheel ≡ (if j == id then 1 else 0) + count id (before ++ after)
  counted = omega (
    arith,
    ap (count id) e,
    count-append id before (j ∷ after),
    count-one id j after,
    count-append id before after,
  )

  pub counted_after :
      count id t.wheel
      ≡ (if among j s.cancelled then 0 else if j == id then 1 else 0) + count id (before ++ after)
  unfolding count
  counted_after = elim (Bool-cases (among j s.cancelled)) [
    | inl over ↦ ap (count id) r.puts ∙ rw over (omega arith)
    | inr live ↦
        ap (count id) r.puts
        ∙ rw live (omega (arith, count-append id (before ++ after) (j ∷ []), count-one id j []))
  ]

  run-Leaked : Leaked id s → Leaked id t
  run-Leaked h = record {
    spare = subst (AllTasks (λ i. i ≢ id)) (sym r.repository) h.spare;
    alive = ap (among id) r.cancels ∙ h.alive;
    waiting = elim (Bool-cases (j == id)) [
      | inl same ↦
          let live : among j s.cancelled ≡ false =
            subst (λ i. among i s.cancelled ≡ false) (sym ((==_iff j id).0 same)) h.alive in
          ground (arith, counted_after, live, same)
      | inr differ ↦ ground (arith, counted, counted_after, h.waiting, differ)
    ];
    old = rw r.numbers h.old;
  }

added-Leaked :
    (id : ℕ) (o : Option OriginInstance) (t : TaskTable)
    → Leaked id t
    → Leaked id (add_asserted o t).1
added-Leaked id none t h = h
added-Leaked id (some i) t h = track-Leaked id (address i) t h

removed-Leaked :
    (id : ℕ) (o : Option OriginInstance) (t : TaskTable)
    → Leaked id t
    → Leaked id (remove_asserted o t).1
removed-Leaked id none t h = h
removed-Leaked id (some i) t h = untrack-Leaked id (address i) t h

Step-Leaked : (id : ℕ) (k : Kind) {s t : TaskTable} → Step k s t → Leaked id s → Leaked id t
Step-Leaked id k {s} (adds task e) h =
    rw (e, add_task-eq k task s) (added-Leaked id (assert_task k task) s h)
Step-Leaked id k {s} (removes task e) h =
    rw (e, remove_task-eq k task s) (removed-Leaked id (assert_task k task) s h)
Step-Leaked id k {s} {t} (runs found j before after w e) h =
    run-Leaked id j before after s t w
      (subst (Runs j (record s { wheel = before ++ after })) (sym e)
        (run_task-Runs k found j (record s { wheel = before ++ after })))
      h

Reach-Leaked : (id : ℕ) (k : Kind) {s t : TaskTable} → Leaked id s → Reach k s t → Leaked id t
Reach-Leaked id k h here = h
Reach-Leaked id k h (next r st) = Step-Leaked id k st (Reach-Leaked id k h r)

-- The tasks in the table were given numbers.
pub record IsNumbered (t : TaskTable) : Type 0 where
  pub kept : All (λ (e : Text × ℕ). e.1 < t.next) t.task_repository
  pub over : All (λ id. id < t.next) t.cancelled
  pub due : All (λ id. id < t.next) t.wheel

pub among-below : (n : ℕ) (ids : List ℕ) → All (λ id. id < n) ids → among n ids ≡ false
unfolding among
among-below n [] h = refl
among-below n (m ∷ ms) h = ground (arith, h.0, among-below n ms h.1)

pub count-below : (n : ℕ) (ids : List ℕ) → All (λ id. id < n) ids → count n ids ≡ 0
unfolding count
count-below n [] h = refl
count-below n (m ∷ ms) h = ground (arith, h.0, count-below n ms h.1)

insert-insert : (k : Text) (v w : ℕ) (m : Dict ℕ) → insert k w (insert k v m) ≡ insert k w m
unfolding insert
insert-insert k v w [] = rw (str_eq_refl k) refl
insert-insert k v w ((j, x) ∷ m) = elim (Bool-cases (str_eq j k)) [
  | inl same ↦ rw (same, insert) (rw (str_eq_refl k, insert) refl)
  | inr differ ↦
      rw (differ, insert) (rw (differ, insert) (ap (λ l. (j, x) ∷ l) (insert-insert k v w m)))
]

-- The table after two tasks of one address: the first is lost.
twice-Leaked :
    (a b : Text) (t : TaskTable) → a ≡ b → IsNumbered t → Leaked t.next (track b (track a t))
unfolding track
twice-Leaked a b t same h =
    let spare : AllTasks (λ j. j ≢ t.next) (insert b (suc t.next) t.task_repository) =
      insert-All (λ j. j ≢ t.next) b (suc t.next) t.task_repository (λ e. absurd (omega (arith, e)))
        (All-map t.task_repository (λ e lt. λ q. absurd (omega (arith, lt, q))) h.kept) in
    record {
      spare =
          subst (AllTasks (λ j. j ≢ t.next))
            (sym (insert-insert b t.next (suc t.next) t.task_repository)
              ∙ ap (λ k. insert b (suc t.next) (insert k t.next t.task_repository)) (sym same))
            spare;
      alive = among-below t.next t.cancelled h.over;
      waiting = ground (
        arith,
        count-append t.next (t.wheel ++ t.next ∷ []) (suc t.next ∷ []),
        count-append t.next t.wheel (t.next ∷ []),
        count-one t.next t.next [],
      );
      old = omega arith;
    }

-- A plugin gets two tasks of one address. Whatever is added, removed and run afterwards: the first task
-- is never cancelled and always waits on the wheel, to be run again.
pub add_task-twice :
    (k : Kind) (a b : HealthCheckTask) (i j : OriginInstance) (s t : TaskTable)
    → IsNumbered s
    → assert_task k a ≡ some i
    → assert_task k b ≡ some j
    → address i ≡ address j
    → Reach k (add_task k b (add_task k a s).1).1 t
    → (among s.next t.cancelled ≡ false) × (0 < count s.next t.wheel)
add_task-twice k a b i j s t numbered one two same r =
    let first : add_task k a s ≡ (returned true, track (address i) s) =
      add_task-eq k a s ∙ ap (λ o. add_asserted o s) one in
    let second : add_task k b (track (address i) s)
        ≡ (returned true, track (address j) (track (address i) s)) =
      add_task-eq k b (track (address i) s) ∙ ap (λ o. add_asserted o (track (address i) s)) two in
    let from : (add_task k b (add_task k a s).1).1 ≡ track (address j) (track (address i) s) =
      rw (first, second) refl in
    let h =
      Reach-Leaked s.next k
        (subst (Leaked s.next) (sym from) (twice-Leaked (address i) (address j) s same numbered))
        r in
    (h.alive, h.waiting)
