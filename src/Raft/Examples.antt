-- ===== src/Raft/Examples.antt =====
-- State machines and servers on which the theorems about server/core/raft_protocol.go are applied.
use pole.Prelude.{
  ℕ, ◌+◌, Bool, true, false, ◌||◌, Option, none, some, List, [], ◌∷◌, map, Text, codes, str_eq,
  str_eq_refl, returned, panicked, ◌≡◌, ◌⊎◌, refl,
}
use pole.Storage.Kv.{Result, ok, err}
use pole.Cluster.Member.{member_at}
use pole.Raft.Machine.{ProcessorApi, create_sm, close_machine}
use pole.Raft.Machine.Replay.{update_all, write_all, update_all_lem}
use pole.Raft.Machine.Closing.{
  update_call, save_call, close_call, run_machine, refused, run_machine-close_machine,
}
use pole.Raft.Servers.{RaftApi, IsRaft, InitialMembers, ClusterView, add_processor}
use pole.Raft.Servers.Starting.{add_processor_fails}

-- A counter: a write is a number to add, as one byte, and a read gives the sum.
one_byte : Text → Result ℕ
one_byte [] = err (codes "empty")
one_byte (n ∷ s) = ok n

abbrev counter : ProcessorApi
counter = record {
  State = ℕ;
  Write = ℕ;
  Read = ℕ;
  Response = ℕ;
  on_write = λ n sum. (sum + n, sum + n);
  on_read = λ n sum. (sum, sum);
  group = (codes "counter", 7);
  unmarshal_write = one_byte;
  unmarshal_read = one_byte;
  marshal = λ n. ok (n ∷ []);
}

abbrev log : List Text
log = (3 ∷ []) ∷ (4 ∷ []) ∷ [] ∷ (5 ∷ []) ∷ []

update_all_lem_example :
    ((update_all counter log (create_sm counter 0 1 1)).0 ≡ panicked)
    × ((update_all counter log (create_sm counter 0 1 1)).1.p ≡ 7)
    × ((update_all counter log (create_sm counter 0 1 1)).1.closed ≡ 0)
unfolding write_all one_byte
update_all_lem_example = update_all_lem counter log (create_sm counter 0 1 1) refl

run_machine-close_machine_example :
    run_machine counter
      (update_call (3 ∷ []) ∷ save_call ∷ close_call ∷ [])
      (close_machine counter (create_sm counter 0 1 1)).1
    ≡ (
      map (refused counter) (update_call (3 ∷ []) ∷ save_call ∷ close_call ∷ []),
      (close_machine counter (create_sm counter 0 1 1)).1,
    )
run_machine-close_machine_example =
    run_machine-close_machine counter (update_call (3 ∷ []) ∷ save_call ∷ close_call ∷ [])
      (create_sm counter 0 1 1)

-- A disk is the list of its directories.
mem : Text → List Text → Bool
mem t [] = false
mem t (u ∷ us) = str_eq u t || mem t us

refused_join : InitialMembers → Bool → Option Text
refused_join [] join = none
refused_join (m ∷ ms) true = some (codes "cluster settings are invalid")
refused_join (m ∷ ms) false = none

abbrev raft : RaftApi
raft = record {
  Disk = List Text;
  Host = Text;
  data_dir = λ name. name;
  exists = λ dir d. mem dir d;
  new_node_host = λ dir addr d. (ok addr, dir ∷ d);
  start_cluster = λ h ms join cluster node d. (refused_join ms join, d);
  stop = λ h d. d;
}

raft_laws : IsRaft raft
unfolding mem refused_join
raft_laws = record {
  host_exists = λ dir addr d h e. rw (str_eq_refl dir) refl;
  join_refused = λ h m ms cluster node d. (codes "cluster settings are invalid", refl);
}

abbrev view : ClusterView
view = record {
  self = some (member_at (codes "a") 80);
  member_list = member_at (codes "a") 80 ∷ [];
}

add_processor_fails_example :
    (((add_processor raft view (some (codes "kv", 1) ∷ []) (some [], [])).0 ≡ panicked)
      ⊎ ((e : Text) × ((add_processor raft view (some (codes "kv", 1) ∷ []) (some [], [])).0
            ≡ returned (some e))))
    × ((add_processor raft view (some (codes "kv", 1) ∷ []) (some [], [])).1.0 ≡ some [])
add_processor_fails_example =
    add_processor_fails raft raft_laws view (member_at (codes "a") 80) [] (some (codes "kv", 1)) []
      (some []) [] refl
