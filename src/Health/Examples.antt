-- ===== src/Health/Examples.antt =====
-- The theorems on plugins and health checks at concrete inputs.
use pole.Prelude.{◌<◌, ◌≤◌, ◌≡◌, refl, true, false, none, some, [], ◌∷◌, Text, codes, lookup}
use pole.Discovery.Model.{OriginInstance, http}
use pole.Health.Plugins.{
  PluginCenter, new_plugin_center, already_there, accepted, register_plugin, deregister_plugin,
  get_plugin_by_name, deregister_plugin_lem,
}
use pole.Health.Tasks.{http_code_check, HealthCheckTask, pointer, TaskTable, new_task_table, among}
use pole.Health.Runs.{add_task, remove_task, count, here, next, runs, Reach, run_task}
use pole.Health.Runs
use pole.Health.Leaks.{IsNumbered, add_task-twice}
use pole.Health.Stops.{remove_task-add_task}
use pole.Health.Manager.{HealthCheckManager}

abbrev id_of : Text → Text
id_of name = name

abbrev plugin : Text
plugin = codes "p"

abbrev empty : PluginCenter Text id_of
empty = new_plugin_center Text id_of

absent : get_plugin_by_name Text id_of plugin empty ≡ none
unfolding get_plugin_by_name new_plugin_center lookup
absent = refl

deregister_plugin_lem_example :
    (deregister_plugin Text id_of plugin (register_plugin Text id_of plugin empty).1
      ≡ (already_there, (register_plugin Text id_of plugin empty).1))
    × (get_plugin_by_name Text id_of plugin (register_plugin Text id_of plugin empty).1
        ≡ some plugin)
    × ((deregister_plugin Text id_of plugin empty).0 ≡ accepted)
    × (get_plugin_by_name Text id_of plugin (deregister_plugin Text id_of plugin empty).1
        ≡ some plugin)
    × ((deregister_plugin Text id_of plugin empty).1.destroyed ≡ plugin ∷ empty.destroyed)
deregister_plugin_lem_example = deregister_plugin_lem Text id_of plugin empty absent

abbrev origin : OriginInstance
origin = record {
  service_name = codes "s";
  group = codes "g";
  cluster_name = codes "c";
  ip = codes "h";
  port = 80;
  ephemeral = true;
  enabled = true;
  health_check_type = http;
  metadata = [];
}

abbrev check : HealthCheckTask
check = pointer (http_code_check origin (codes "/") 200)

asserted : Runs.assert_task Runs.http check ≡ some origin
unfolding Runs.assert_task
asserted = refl

new-IsNumbered : IsNumbered new_task_table
unfolding new_task_table
new-IsNumbered = record { kept = tt; over = tt; due = tt }

abbrev doubled : TaskTable
doubled = (add_task Runs.http check (add_task Runs.http check new_task_table).1).1

add_task-twice_example :
    (among new_task_table.next doubled.cancelled ≡ false)
    × (0 < count new_task_table.next doubled.wheel)
add_task-twice_example =
    add_task-twice Runs.http check check origin origin new_task_table doubled new-IsNumbered
      asserted asserted refl here

abbrev removed : TaskTable
removed = (remove_task Runs.http check (add_task Runs.http check new_task_table).1).1

remove_task-add_task_example :
    (among new_task_table.next removed.cancelled ≡ true)
    × (count new_task_table.next removed.wheel ≤ 1)
remove_task-add_task_example =
    remove_task-add_task Runs.http check check origin origin new_task_table removed new-IsNumbered
      asserted asserted refl here

abbrev manager : HealthCheckManager
manager = record {
  custom = new_task_table;
  heartbeat = new_task_table;
  http = new_task_table;
  tcp = new_task_table;
}
