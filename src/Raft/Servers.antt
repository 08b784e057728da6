-- ===== src/Raft/Servers.antt =====
-- `RaftProtocol` and `raftServer` of server/core/raft_protocol.go. The raft library (dragonboat) and the
-- disk, with the path of a group's data, are parameters.
pub mod Starting
use pole.Prelude.{
  ℕ, Bool, Option, none, some, List, [], ◌∷◌, ◌++◌, Text, codes, Dict, insert, Outcome, returned,
  panicked, ◌==◌, if◌then◌else◌, ◌≡◌, true,
}
use pole.Storage.Kv.{Result, ok, err}
use pole.Discovery.Model.{decimal_int32}
use pole.Cluster.Member.{Member, get_addr, get_extension_port}

-- The members that a cluster starts with: an address for each number.
abbrev pub InitialMembers : Type 0
InitialMembers = List (ℕ × Text)

pub record RaftApi : Type 1 where
  pub Disk : Type 0
  pub Host : Type 0
  pub data_dir : Text → Text
  pub exists : Text → Disk → Bool
  pub new_node_host : Text → Text → Disk → Result Host × Disk
  -- The host, the members, whether the node joins, the cluster's and the node's number.
  pub start_cluster : Host → InitialMembers → Bool → ℕ → ℕ → Disk → Option Text × Disk
  pub stop : Host → Disk → Disk

-- The documented behaviour: a host that is made has made its directory, and a node that joins a running
-- cluster must be given no members.
pub record IsRaft (api : RaftApi) : Type 1 where
  pub host_exists :
      (dir addr : Text) (d : api.Disk) (h : api.Host)
      → (api.new_node_host dir addr d).0 ≡ ok h
      → api.exists dir (api.new_node_host dir addr d).1 ≡ true
  pub join_refused :
      (h : api.Host) (m : ℕ × Text) (ms : InitialMembers) (cluster node : ℕ) (d : api.Disk)
      → (e : Text) × ((api.start_cluster h (m ∷ ms) true cluster node d).0 ≡ some e)

-- initialMembers[id] = addr
unfoldable pub put_id : ℕ → Text → InitialMembers → InitialMembers
put_id id addr [] = (id, addr) ∷ []
put_id id addr ((i, a) ∷ ms) = if i == id then (id, addr) ∷ ms else (i, a) ∷ put_id id addr ms

unfoldable pub initial_members : List Member → InitialMembers → InitialMembers
unfolding put_id get_addr
initial_members [] ms = ms
initial_members (member ∷ members) ms =
    initial_members members (put_id member.member_id (get_addr member) ms)

-- What the protocol reads of the cluster: itself, if it is among the members, and the members.
pub record ClusterView : Type 0 where
  pub self : Option Member
  pub member_list : List Member

-- A processor's name and number; `none` is a nil processor, which has no type.
abbrev pub Processor : Type 0
Processor = Option (Text × ℕ)

abbrev pub cp_port : Text
cp_port = codes "cp-port"

unfoldable pub raft_address : Member → Text
unfolding get_extension_port decimal_int32
raft_address m = m.ip ++ (codes ":" ++ decimal_int32 (get_extension_port cp_port m))

module _ (api : RaftApi) where
  open api use {Disk, Host, data_dir, exists, new_node_host, start_cluster, stop}

  pub record RaftServer : Type 0 where
    pub processor : Text × ℕ
    pub inner_raft : Host

  -- The servers by the names of their groups; `none` is a nil map.
  abbrev pub RaftProtocol : Type 0
  RaftProtocol = Option (Dict RaftServer)

  abbrev pub host_at : Option Member → Text × ℕ → Disk → Outcome (Result Host) × Disk
  host_at none p d = (panicked, d)
  host_at (some self) p d =
      let (r, d') = new_node_host (data_dir p.0) (raft_address self) d in (returned r, d')

  -- `raftServer.init`
  unfoldable pub init_server : ClusterView → Text × ℕ → Disk → Outcome (Result Host) × Disk
  unfolding raft_address
  init_server view p d = host_at view.self p d

  abbrev pub start_error : Option Text → Option Text
  start_error none = none
  start_error (some e) = some (codes "failed to add cluster, " ++ (e ++ 10 ∷ []))

  abbrev pub start_at :
      Option Member → List Member → Text × ℕ → Host → Disk → Outcome (Option Text) × Disk
  start_at none members p h d = (panicked, d)
  start_at (some self) members p h d =
      let (e, d') =
        start_cluster h (initial_members members []) (exists (data_dir p.0) d) p.1 self.member_id
          d in
      (returned (start_error e), d')

  -- `raftServer.start`
  unfoldable pub start_server : ClusterView → Text × ℕ → Host → Disk → Outcome (Option Text) × Disk
  unfolding initial_members
  start_server view p h d = start_at view.self view.member_list p h d

  abbrev pub started :
      Text × ℕ → Host → Outcome (Option Text) × Disk → Outcome (Result RaftServer) × Disk
  started p h (panicked, d) = (panicked, d)
  started p h (returned (some e), d) = (returned (err e), d)
  started p h (returned none, d) = (returned (ok (record { processor = p; inner_raft = h })), d)

  abbrev pub hosted :
      ClusterView → Text × ℕ → Outcome (Result Host) × Disk → Outcome (Result RaftServer) × Disk
  hosted view p (panicked, d) = (panicked, d)
  hosted view p (returned (err e), d) = (returned (err e), d)
  hosted view p (returned (ok h), d) = started p h (start_server view p h d)

  unfoldable pub create_and_start_raft_server :
      ClusterView → Text × ℕ → Disk → Outcome (Result RaftServer) × Disk
  unfolding init_server start_server
  create_and_start_raft_server view p d = hosted view p (init_server view p d)

  -- How AddProcessor goes on after a server; a nil map takes none.
  abbrev pub Added : Type 0
  Added = Outcome (Option Text) × (RaftProtocol × Disk)

  abbrev pub keep_server :
      Text
      → Outcome (Result RaftServer) × Disk
      → RaftProtocol
      → (RaftProtocol × Disk → Added)
      → Added
  keep_server name (panicked, d) servers rest = (panicked, (servers, d))
  keep_server name (returned (err e), d) servers rest = (returned (some e), (servers, d))
  keep_server name (returned (ok server), d) none rest = (panicked, (none, d))
  keep_server name (returned (ok server), d) (some servers) rest =
      rest (some (insert name server servers), d)

  unfoldable pub add_processor : ClusterView → List Processor → RaftProtocol × Disk → Added
  unfolding create_and_start_raft_server
  add_processor view [] s = (returned none, s)
  add_processor view (none ∷ processors) s =
      (returned (some (codes "processors must be type of RequestProcessor4CP")), s)
  add_processor view (some p ∷ processors) (servers, d) =
      keep_server p.0 (create_and_start_raft_server view p d) servers
        (add_processor view processors)

  -- `Close` of each server, which gives no error; the order of a map is the environment's.
  unfoldable pub stop_all : Dict RaftServer → Disk → Disk
  stop_all [] d = d
  stop_all ((_, server) ∷ servers) d = stop_all servers (stop server.inner_raft d)

  unfoldable pub shutdown_protocol : RaftProtocol → Disk → Option Text × Disk
  unfolding stop_all
  shutdown_protocol none d = (none, d)
  shutdown_protocol (some servers) d = (none, stop_all servers d)
