-- ===== src/Health/Checks.antt =====
-- The four plugins of client/healthcheck/health_core.go. Each asserts that a task is a pointer to one of
-- its own; another task is a panic.
use pole.Prelude.{
  ℕ, Bool, true, Option, none, some, ◌∷◌, Outcome, returned, panicked, if◌then◌else◌,
}
use pole.Discovery.Model.{OriginInstance}
use pole.Health.Tasks.{
  http_code_check, heartbeat_check, tcp_health_check, customer_health_check, HealthCheckTask,
  pointer, TaskTable, address, among, without, track, untrack, run_again,
}

abbrev pub Done : Type 0
Done = Outcome Bool × TaskTable

-- What a plugin does with the instance of a task that it asserted.
abbrev pub add_asserted : Option OriginInstance → TaskTable → Done
add_asserted none t = (panicked, t)
add_asserted (some i) t = (returned true, track (address i) t)

abbrev pub remove_asserted : Option OriginInstance → TaskTable → Done
remove_asserted none t = (panicked, t)
remove_asserted (some i) t = (returned true, untrack (address i) t)

-- `CustomHealthCheckPlugin`
unfoldable pub assert_custom : HealthCheckTask → Option OriginInstance
assert_custom (pointer (customer_health_check i)) = some i
assert_custom _ = none

unfoldable pub custom_add_task : HealthCheckTask → TaskTable → Done
unfolding assert_custom track
custom_add_task task t = add_asserted (assert_custom task) t

unfoldable pub custom_remove_task : HealthCheckTask → TaskTable → Done
unfolding assert_custom untrack
custom_remove_task task t = remove_asserted (assert_custom task) t

-- Nothing is done yet with what the customer's check says.
unfoldable pub custom_run : Bool → ℕ → TaskTable → TaskTable
unfolding run_again
custom_run healthy id t = run_again id t

-- `ConnectionBeatHealthCheckPlugin`
unfoldable pub assert_heartbeat : HealthCheckTask → Option OriginInstance
assert_heartbeat (pointer (heartbeat_check i)) = some i
assert_heartbeat _ = none

unfoldable pub heartbeat_add_task : HealthCheckTask → TaskTable → Done
unfolding assert_heartbeat track
heartbeat_add_task task t = add_asserted (assert_heartbeat task) t

unfoldable pub heartbeat_remove_task : HealthCheckTask → TaskTable → Done
unfolding assert_heartbeat untrack
heartbeat_remove_task task t = remove_asserted (assert_heartbeat task) t

unfoldable pub heartbeat_run : ℕ → TaskTable → TaskTable
unfolding run_again
heartbeat_run id t = run_again id t

-- `HttpCodeHealthCheckPlugin`
unfoldable pub assert_http : HealthCheckTask → Option OriginInstance
assert_http (pointer (http_code_check i path code)) = some i
assert_http _ = none

unfoldable pub http_add_task : HealthCheckTask → TaskTable → Done
unfolding assert_http track
http_add_task task t = add_asserted (assert_http task) t

unfoldable pub http_remove_task : HealthCheckTask → TaskTable → Done
unfolding assert_http untrack
http_remove_task task t = remove_asserted (assert_http task) t

-- Nothing is done yet with the answer: `expected` says that it came with the expected code.
unfoldable pub http_run : Bool → ℕ → TaskTable → TaskTable
unfolding run_again
http_run expected id t = run_again id t

-- `TcpHealthCheckPlugin`
unfoldable pub assert_tcp : HealthCheckTask → Option OriginInstance
assert_tcp (pointer (tcp_health_check i)) = some i
assert_tcp _ = none

unfoldable pub tcp_add_task : HealthCheckTask → TaskTable → Done
unfolding assert_tcp track
tcp_add_task task t = add_asserted (assert_tcp task) t

unfoldable pub tcp_remove_task : HealthCheckTask → TaskTable → Done
unfolding assert_tcp untrack
tcp_remove_task task t = remove_asserted (assert_tcp task) t

-- A task without a connection dials; `dialled` says that this gives one. Nothing is done yet with what
-- a connection reads.
unfoldable pub tcp_connect : Bool → ℕ → TaskTable → TaskTable
unfolding among
tcp_connect dialled id t =
    if among id t.connected
    then t
    else if dialled
    then record t { connected = id ∷ t.connected }
    else t

-- A cancelled task closes its connection.
unfoldable pub tcp_close : ℕ → TaskTable → TaskTable
unfolding among without
tcp_close id t = if among id t.cancelled then record t { connected = without id t.connected } else t

unfoldable pub tcp_run : Bool → ℕ → TaskTable → TaskTable
unfolding tcp_connect tcp_close run_again
tcp_run dialled id t = run_again id (tcp_close id (tcp_connect dialled id t))
