-- ===== src/Health/Manager.antt =====
-- `HealthCheckManager` of client/healthcheck/health_check.go.
use pole.Prelude.{◌≡◌, refl, Bool, true, false, Outcome, returned, panicked}
use pole.Health.Tasks.{
  http_code_check, heartbeat_check, tcp_health_check, customer_health_check, HealthCheckTask, value,
  pointer, other, TaskTable,
}
use pole.Health.Checks.{custom_add_task, heartbeat_add_task, http_add_task, tcp_add_task}

-- The tables of the four plugins that `Init` registers.
pub record HealthCheckManager : Type 0 where
  pub custom : TaskTable
  pub heartbeat : TaskTable
  pub http : TaskTable
  pub tcp : TaskTable

-- The result, and whether there is an error.
pub data Answer : Type 0 where
  answered : Bool → Answer
  unsupported : Answer

abbrev pub Done : Type 0
Done = Outcome Answer × HealthCheckManager

abbrev answer : Outcome Bool → Outcome Answer
answer (returned b) = returned (answered b)
answer panicked = panicked

-- The `switch` is on the type of the task; each plugin is found under its name.
unfoldable pub register_health_check_task : HealthCheckTask → HealthCheckManager → Done
unfolding custom_add_task heartbeat_add_task http_add_task tcp_add_task
register_health_check_task (value (http_code_check i path code)) m =
    let r : Outcome Bool × TaskTable = http_add_task (value (http_code_check i path code)) m.http in
    (answer r.0, record m { http = r.1 })
register_health_check_task (value (tcp_health_check i)) m =
    let r : Outcome Bool × TaskTable = tcp_add_task (value (tcp_health_check i)) m.tcp in
    (answer r.0, record m { tcp = r.1 })
register_health_check_task (value (customer_health_check i)) m =
    let r : Outcome Bool × TaskTable = custom_add_task (value (customer_health_check i)) m.custom in
    (answer r.0, record m { custom = r.1 })
register_health_check_task (value (heartbeat_check i)) m =
    let r : Outcome Bool × TaskTable = heartbeat_add_task (value (heartbeat_check i)) m.heartbeat in
    (answer r.0, record m { heartbeat = r.1 })
register_health_check_task (pointer task) m = (returned unsupported, m)
register_health_check_task other m = (returned unsupported, m)

abbrev pub is_value : HealthCheckTask → Bool
is_value (value _) = true
is_value _ = false

-- No task can be registered: a task by value is a panic of its plugin, and a pointer to a task, or
-- anything else, is an error. No plugin's table changes.
pub register_health_check_task_lem :
    (task : HealthCheckTask) (m : HealthCheckManager)
    → register_health_check_task task m
      ≡ (elim (is_value task) [ true ↦ panicked | false ↦ returned unsupported ], m)
unfolding register_health_check_task
register_health_check_task_lem (value (http_code_check i path code)) m = refl
register_health_check_task_lem (value (tcp_health_check i)) m = refl
register_health_check_task_lem (value (customer_health_check i)) m = refl
register_health_check_task_lem (value (heartbeat_check i)) m = refl
register_health_check_task_lem (pointer task) m = refl
register_health_check_task_lem other m = refl
