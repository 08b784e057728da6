-- ===== src/Health/Runs.antt =====
-- The plugins by their kind, and what may happen to the table of one.
use pole.Prelude.{
  ℕ, suc, ◌+◌, ◌≡◌, refl, Bool, ◌==◌, Option, List, [], ◌∷◌, ◌++◌, arith, if◌then◌else◌,
}
use pole.Discovery.Model.{OriginInstance}
use pole.Health.Tasks.{HealthCheckTask, TaskTable, among, run_again}
use pole.Health.Checks.{
  Done, add_asserted, remove_asserted, assert_custom, custom_add_task, custom_remove_task,
  custom_run, assert_heartbeat, heartbeat_add_task, heartbeat_remove_task, heartbeat_run,
  assert_http, http_add_task, http_remove_task, http_run, assert_tcp, tcp_add_task, tcp_remove_task,
  tcp_connect, tcp_close, tcp_run,
}

pub data Kind : Type 0 where
  custom heartbeat http tcp : Kind

unfoldable pub assert_task : Kind → HealthCheckTask → Option OriginInstance
unfolding assert_custom assert_heartbeat assert_http assert_tcp
assert_task custom = assert_custom
assert_task heartbeat = assert_heartbeat
assert_task http = assert_http
assert_task tcp = assert_tcp

unfoldable pub add_task : Kind → HealthCheckTask → TaskTable → Done
unfolding custom_add_task heartbeat_add_task http_add_task tcp_add_task
add_task custom = custom_add_task
add_task heartbeat = heartbeat_add_task
add_task http = http_add_task
add_task tcp = tcp_add_task

unfoldable pub remove_task : Kind → HealthCheckTask → TaskTable → Done
unfolding custom_remove_task heartbeat_remove_task http_remove_task tcp_remove_task
remove_task custom = custom_remove_task
remove_task heartbeat = heartbeat_remove_task
remove_task http = http_remove_task
remove_task tcp = tcp_remove_task

-- `found` is what the check comes to.
unfoldable pub run_task : Kind → Bool → ℕ → TaskTable → TaskTable
unfolding custom_run heartbeat_run http_run tcp_run
run_task custom found id t = custom_run found id t
run_task heartbeat found id t = heartbeat_run id t
run_task http found id t = http_run found id t
run_task tcp found id t = tcp_run found id t

-- What may happen to the table of a plugin: tasks are added and removed, and the wheel runs one.
pub data Step (k : Kind) (s t : TaskTable) : Type 0 where
  adds : (task : HealthCheckTask) → t ≡ (add_task k task s).1 → Step k s t
  removes : (task : HealthCheckTask) → t ≡ (remove_task k task s).1 → Step k s t
  runs :
      (found : Bool) (id : ℕ) (before after : List ℕ)
      → s.wheel ≡ before ++ id ∷ after
      → t ≡ run_task k found id (record s { wheel = before ++ after })
      → Step k s t

pub data Reach (k : Kind) (s : TaskTable) : TaskTable → Type 0 where
  here : Reach k s s
  next : {t u : TaskTable} → Reach k s t → Step k t u → Reach k s u

pub add_task-eq :
    (k : Kind) (task : HealthCheckTask) (t : TaskTable)
    → add_task k task t ≡ add_asserted (assert_task k task) t
unfolding add_task assert_task
add_task-eq custom task t = refl
add_task-eq heartbeat task t = refl
add_task-eq http task t = refl
add_task-eq tcp task t = refl

pub remove_task-eq :
    (k : Kind) (task : HealthCheckTask) (t : TaskTable)
    → remove_task k task t ≡ remove_asserted (assert_task k task) t
unfolding remove_task assert_task
remove_task-eq custom task t = refl
remove_task-eq heartbeat task t = refl
remove_task-eq http task t = refl
remove_task-eq tcp task t = refl

-- How often a task waits on the wheel.
unfoldable pub count : ℕ → List ℕ → ℕ
count n [] = 0
count n (m ∷ ms) = let rest = count n ms in if m == n then suc rest else rest

pub count-nil : (n : ℕ) → count n [] ≡ 0
unfolding count
count-nil n = refl

pub count-append : (n : ℕ) (xs ys : List ℕ) → count n (xs ++ ys) ≡ count n xs + count n ys
unfolding count
count-append n [] ys = omega arith
count-append n (x ∷ xs) ys = ground (arith, count-append n xs ys)

pub count-one : (n m : ℕ) (ms : List ℕ) → count n (m ∷ ms) ≡ (if m == n then 1 else 0) + count n ms
unfolding count
count-one n m ms = ground arith

-- A run changes the connections, and puts the task back unless it is cancelled.
pub record Runs (id : ℕ) (t t' : TaskTable) : Type 0 where
  pub repository : t'.task_repository ≡ t.task_repository
  pub cancels : t'.cancelled ≡ t.cancelled
  pub numbers : t'.next ≡ t.next
  pub puts : t'.wheel ≡ (if among id t.cancelled then t.wheel else t.wheel ++ id ∷ [])

run_again-Runs : (id : ℕ) (t : TaskTable) → Runs id t (run_again id t)
unfolding run_again
run_again-Runs id t = ground arith

tcp_run-Runs : (found : Bool) (id : ℕ) (t : TaskTable) → Runs id t (tcp_run found id t)
unfolding tcp_run tcp_connect tcp_close run_again
tcp_run-Runs found id t = ground arith

pub run_task-Runs :
    (k : Kind) (found : Bool) (id : ℕ) (t : TaskTable) → Runs id t (run_task k found id t)
unfolding run_task custom_run heartbeat_run http_run
run_task-Runs custom found id t = run_again-Runs id t
run_task-Runs heartbeat found id t = run_again-Runs id t
run_task-Runs http found id t = run_again-Runs id t
run_task-Runs tcp found id t = tcp_run-Runs found id t
