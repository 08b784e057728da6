-- ===== src/Health/Tasks.antt =====
-- The tasks of client/healthcheck, and the table that each of its plugins keeps: a repository of the
-- current task of each address, and the time wheel of the rpc library with the tasks handed to it. A
-- task is a number, given in the order in which the tasks are made.
use pole.Prelude.{
  ℕ, suc, ◌-◌, ◌^◌, Bool, false, ◌||◌, ◌==◌, Option, none, some, List, [], ◌∷◌, ◌++◌, Text, codes,
  Dict, lookup, insert, erase, ltb, if◌then◌else◌,
}
use pole.Discovery.Model.{decimal, OriginInstance}

pub data Task : Type 0 where
  http_code_check : OriginInstance → Text → ℕ → Task
  heartbeat_check tcp_health_check customer_health_check : OriginInstance → Task

-- A `HealthCheckTask` is an interface value: a task, a pointer to one, or something else.
pub data HealthCheckTask : Type 0 where
  value pointer : Task → HealthCheckTask
  other : HealthCheckTask

pub record TaskTable : Type 0 where
  pub task_repository : Dict ℕ
  pub wheel : List ℕ
  pub cancelled : List ℕ  -- the tasks with `cancel` 1
  pub connected : List ℕ  -- the tasks with an open connection
  pub next : ℕ

-- `Init` of each plugin.
unfoldable pub new_task_table : TaskTable
new_task_table = record {
  task_repository = [];
  wheel = [];
  cancelled = [];
  connected = [];
  next = 0;
}

-- `%d` of an int64, given by its 64 bits; twenty digits are enough.
unfoldable pub decimal_int64 : ℕ → Text
unfolding decimal
decimal_int64 bits =
    if ltb bits (2 ^ 63) then decimal 20 bits else codes "-" ++ decimal 20 (2 ^ 64 - bits)

unfoldable pub address : OriginInstance → Text
unfolding decimal_int64
address i = i.ip ++ (codes ":" ++ decimal_int64 i.port)

unfoldable pub among : ℕ → List ℕ → Bool
among n [] = false
among n (m ∷ ms) = n == m || among n ms

unfoldable pub without : ℕ → List ℕ → List ℕ
without n [] = []
without n (m ∷ ms) = let rest = without n ms in if m == n then rest else m ∷ rest

-- A new task in the repository and on the wheel.
unfoldable pub track : Text → TaskTable → TaskTable
track key t = record t {
  task_repository = insert key t.next t.task_repository;
  wheel = t.wheel ++ t.next ∷ [];
  next = suc t.next;
}

abbrev pub cancel_found : Option ℕ → TaskTable → TaskTable
cancel_found none t = t
cancel_found (some id) t = record t { cancelled = id ∷ t.cancelled }

-- The task of the address is cancelled, and leaves the repository.
unfoldable pub untrack : Text → TaskTable → TaskTable
untrack key t = record (cancel_found (lookup key t.task_repository) t) {
  task_repository = erase key t.task_repository;
}

-- What `Run` ends with: unless the task is cancelled, it goes back to the wheel.
unfoldable pub run_again : ℕ → TaskTable → TaskTable
unfolding among
run_again id t = if among id t.cancelled then t else record t { wheel = t.wheel ++ id ∷ [] }
