-- ===== src/Lib.antt =====
-- Verification of pole, a registry and configuration server in Go.
--
-- The parts of the program that are modelled, with the files here that model them:
--
-- * The key tree of server/storage/kv.go (`keyTree`), an unbalanced search tree of keys with
--   parent pointers. Storage/KeyTree has its nodes and operations: newKeyTree, Insert, FindMax,
--   FindMin, FindNearbyLeft, FindNearbyRight and Delete; Storage/KeyTree/Walk has SeekLevel and
--   Range. A node carries an address, and its parent field holds the address of another node. The
--   other modules of Storage/KeyTree hold the proofs: Order (the invariant, insertion), Growth
--   (sequences of insertions), Extremes (the searches), Without, Removal, Relinking, Leaves and
--   Splice (deletion), and Walk/Levels, Walk/Queue and Walk/Preorder.
-- * The key-value store in memory, of the same file (`memoryKVStorage`), which runs hooks before
--   and after a write; its own hooks keep the key tree. Storage/Hooks models `kvHookHolder`, and
--   Storage/Memory the storage: each call is a function from the state of the storage to an outcome
--   and a new state. Storage/Memory/Access and Unhooked have the proofs. Storage/Kv is the interface `KVStorage`
--   for those who use a storage, and Storage/Badger the storage on badger (`badgerKVStorage`), with
--   proofs in Badger/Contents.
-- * The hash ring of utils/consistency.go (`ConsistentHash`): Hashing/Ring, with
--   crc32.ChecksumIEEE in Hashing/Crc32 and sort.Search in Hashing/Search; proofs in Search,
--   Ring/Adding, Ring/Lookup.
-- * Service discovery, server/discovery. Discovery/Model has names, keys and instances
--   (discovery_model.go), Discovery/Services the services and their clusters (discovery_model.go
--   and storeInstanceInfo), Discovery/Manager the requests of `ServiceManager` (discovery_core.go),
--   which register an instance with its storage, put it in its cluster and grant it a lease from
--   the lessor, and Discovery/Lessor the leases (discovery_less.go). Proofs:
--   Requests, Refusals, Deregistration, Leases. Discovery/Server has the handlers of
--   `DiscoverySdkAPI` (discovery_server.go), which pass requests on to the manager, and
--   Discovery/Instances the list of all instances of a service, with its proof. Discovery/Storage
--   is the storage of discovery (discovery_storage.go, `kvDiscoveryStorage`) over two storages of
--   Storage/Kv, with proofs in Storage/Services and Storage/Instances. Discovery/Selector has the
--   operators of label_selector.go, which nothing calls yet.
-- * The members of a cluster, server/cluster. Cluster/Member has `Member` (member_manager.go),
--   its address and the parsing of addresses (member_utils.go), and Cluster/Manager the list of
--   `ServerClusterManager` with UpdateMember, MemberChange, OnSuccess, OnFail and the file lookup's
--   OnEvent (member_lookup.go). Proofs: Changes, Vacancy, Addresses. Cluster/Lookups has the lookups
--   of member_lookup.go and the handler that changes the lookup; proofs in Lookups/Switching.
--   Cluster/Reports has KRandomMember, the reports that a server makes of itself to the members
--   that it chooses and the handler that gets them; proofs in Reports/Choice and Reports/Failing.
--   Cluster/Endpoints has what the kubernetes lookup makes of its events, with a proof in
--   Endpoints/Emptied.
-- * The event centre, notify/msg_notify_center.go. Notify/Events has events, subscribers and the
--   channels that events wait on, Notify/Publisher the `Publisher` with its handler, and
--   Notify/Center the `msgPublisherCenter` with the shared publisher of slow events and the calls
--   of the package. Proofs: Center/Silent, Center/Calls. Notify/Files is the center of the file watchers (watch_file_center.go), with
--   proofs in Files/Removals.
-- * Plugins, plugin/plugin_center.go: Health/Plugins. The health checks of a client,
--   client/healthcheck: Health/Tasks has the table of tasks that each plugin keeps, Health/Checks
--   the four plugins (health_core.go), Health/Runs what may happen to a table, and Health/Manager
--   the `HealthCheckManager` (health_check.go). Proofs: Leaks, Stops.
-- * The configuration server, server/config. Config/Files has its files, events and requests
--   (config_model.go), Config/Filters the filters of a request (config_actor.go), Config/Watchers
--   the `WatcherManager` with its watchers, and Config/Core the `ConfigCore` (config_core.go) with
--   the handlers of `ConfAPI` (config_server.go), which pass a request to the core that saves a
--   file or registers a watcher. Proofs: Watchers/Silence, Watchers/Watching, Watchers/Merging,
--   Core/Requests.
-- * Raft, server/core/raft_protocol.go. Raft/Machine is the state machine that the raft library
--   drives (`wrapperRaftStateMachine`) over a processor, and Raft/Servers the `RaftProtocol` and
--   the servers that it starts. Proofs: Machine/Replay, Machine/Closing, Servers/Starting. Raft/Kv
--   is the storage of server/storage/strong_consistent_kv.go, a processor of the protocol, with its
--   proof.
-- * The storage on sqlite, server/storage/rds.go (`EmbeddedRDS`). Rds/Queries has ExecuteQuery
--   and the mappers of rows, Rds/Modifications ExecuteModify, Transaction and CreateRds. Proofs:
--   Queries/Shared, Modifications/Transactions.
-- * Contexts, common/pole_ctx.go: Context, a store of contexts that name their parents, with
--   proofs in Context/Chains (values) and Context/Cancelling.
-- * Numbers, utils: Utils/Integers has the parsers of common_util.go, with proofs in
--   Integers/Widths and Integers/Ports, and Utils/Environment the readers of the environment
--   (system_util.go).
--
-- Conventions. A string is the list of its bytes. A machine integer is its bits as a natural
-- number, with the wrap-around written out. A call that may panic has an `Outcome`. A Go map is an
-- association list. What a pointer refers to is kept as a value in the one place that the program
-- reaches it from, and written back when it is changed; contexts and the cells of a query, which are
-- shared, lie in a store. Locks are not modelled, but where a task that waits for ever holds one, and
-- where a member may have none. A lessor, the event centre and a table of health checks move by
-- step relations, whose order is free.
--
-- Fuel. SeekLevel has one unit for each node and one more; the search of the ring has one for each
-- halving of an interval of that length. AddNode's search for a free position has the fuel that the
-- caller gives, because it need not end. `%d` of an int32 has ten digits, of an int64 twenty.
-- KRandomMember has the rounds that the source gives it, three for each member.
--
-- Parameters. polerpc.Set in Storage/Hooks, badger's database in Storage/Badger,
-- polerpc.ConcurrentMap in Prelude/ConcurrentMaps, whose zero value holds a nil Go map, the
-- making of the library's time wheel in Discovery/Lessor, the storage of discovery in Discovery/Interfaces,
-- the two storages below it (Storage/Kv) and the marshalling of messages (Discovery/Storage);
-- floating-point numbers and the objects compared by themselves in Discovery/Selector; the sets of
-- slow listeners in Notify/Center, and the rounding of the largest sequence number in
-- Notify/Publisher; the plugins in Health/Plugins; polerpc.Set again, with the values that it is
-- made of, in Config/Watchers; a processor and the encoding of messages in Raft/Machine, dragonboat
-- and the disk in Raft/Servers; database/sql with sort.Sort in Rds/Modifications, and what a query
-- gives in Rds/Queries; the random numbers, the sets of members and what comes of each post in
-- Cluster/Reports; the environment in Utils/Environment. What a health check finds is given to its
-- run, and what fsnotify and kubernetes answer to the calls of Notify/Files and Cluster/Lookups. The
-- laws that a theorem needs of them are records beside them or its hypotheses. The modules called
-- Examples fill them.
--
-- Not modelled: the eventually consistent storage, which is a list of listeners, the transport
-- servers and the consoles, the subscribers of discovery, which are empty, what an address server
-- answers to a lookup, authentication, logging and the start of the process, the connections and
-- requests of health checks and of the reports between servers, the empty clients, and the generated
-- messages of pojo, of which the models keep the fields that are read.
pub mod Prelude
pub mod Cluster
pub mod Config
pub mod Context
pub mod Discovery
pub mod Hashing
pub mod Health
pub mod Notify
pub mod Raft
pub mod Rds
pub mod Storage
pub mod Utils
