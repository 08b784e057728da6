-- ===== src/Cluster/Examples.antt =====
-- The theorems on members at concrete inputs, with association lists for the concurrent maps.
use pole.Prelude.{
  ◌≡◌, ◌<◌, ◌^◌, none, some, List, [], ◌∷◌, arith, Text, codes, lookup, str_eq, returned, panicked,
}
use pole.Prelude.ListMaps.{lists, lists-IsNilMap}
use pole.Cluster.Member.{Member, server_port, get_addr, get_extension_port, member_at, sing_parse}
use pole.Cluster.Manager.{new_server_cluster_manager}
use pole.Cluster.Reports.{get_self, find_member}
use pole.Cluster.Vacancy.{
  Call, success_call, change_call, file_call, endpoints_call, run_calls,
  run_calls-new_server_cluster_manager,
}
use pole.Cluster.Addresses.{sing_parse-get_addr}

abbrev member_a : Member
member_a = record {
  member_id = 1;
  identifier = codes "a";
  ip = codes "h";
  extension_ports = (server_port, 8848) ∷ [];
  meta_data = [];
  status = 0;
  access_fail_cnt = 0;
}

-- The calls that a server gets: a change to one member, a line of the member file, and an event.
abbrev calls : List Call
calls =
    change_call (some member_a ∷ [])
    ∷ file_call (codes "h:80" ∷ [])
    ∷ success_call member_a
    ∷ endpoints_call none
    ∷ []

run_calls-new_server_cluster_manager_example :
    ((new_server_cluster_manager lists (codes "h:80")).0 ≡ panicked)
    × ((k : Text)
        → lists.get Member k
            (run_calls lists calls (new_server_cluster_manager lists (codes "h:80")).1).member_list
          ≡ none)
    × (get_self lists (run_calls lists calls (new_server_cluster_manager lists (codes "h:80")).1)
        ≡ panicked)
    × (find_member lists
          (codes "h")
          80
          (run_calls lists calls (new_server_cluster_manager lists (codes "h:80")).1)
        ≡ panicked)
run_calls-new_server_cluster_manager_example =
    run_calls-new_server_cluster_manager lists lists-IsNilMap (codes "h:80") (codes "h") 80 calls

small : get_extension_port server_port member_a < 2 ^ 31
unfolding get_extension_port lookup str_eq
small = omega arith

sing_parse-get_addr_example :
    (sing_parse (get_addr member_a)
      ≡ returned (member_at (codes "h") (get_extension_port server_port member_a)))
    × (get_addr (member_at (codes "h") (get_extension_port server_port member_a))
        ≡ get_addr member_a)
sing_parse-get_addr_example = sing_parse-get_addr member_a (ground arith, tt) small
