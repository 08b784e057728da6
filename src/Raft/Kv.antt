-- ===== src/Raft/Kv.antt =====
-- `RaftKvStorage` of server/storage/strong_consistent_kv.go, over a storage whose state is `S`. Its operations
-- do nothing yet, and as a processor of the raft protocol it answers with an empty response. What
-- becomes of the storage below it is part of the state, so that it can be said not to change.
use pole.Prelude.{
  ℕ, Bool, false, Option, none, some, List, [], ◌∷◌, Text, Outcome, returned, panicked, ◌≡◌, refl,
  arith, ◌∙◌,
}
use pole.Storage.Kv.{Result, ok, err}
use pole.Raft.Machine.{ProcessorApi, StateMachine}
use pole.Raft.Machine.Replay.{update_all, write_all, update_all_lem}
use pole.Raft.Servers.{RaftApi, ClusterView, RaftProtocol, add_processor}

module _ (S : Type 0) where
  pub record RaftKvStorage : Type 0 where
    pub seq_no : ℕ
    pub name : Text
    pub kv : S

  -- A nil slice is `none`.
  unfoldable pub raft_read : Text → RaftKvStorage → Option Text × Option Text
  raft_read key rk = (none, none)

  unfoldable pub raft_read_batch : List Text → RaftKvStorage → Option (List Text) × Option Text
  raft_read_batch keys rk = (none, none)

  unfoldable pub raft_write : Text → Text → RaftKvStorage → Option Text × RaftKvStorage
  raft_write key value rk = (none, rk)

  unfoldable pub raft_write_batch :
      List Text → List Text → RaftKvStorage → Option Text × RaftKvStorage
  raft_write_batch keys values rk = (none, rk)

  unfoldable pub raft_delete : Text → RaftKvStorage → Option Text × RaftKvStorage
  raft_delete key rk = (none, rk)

  unfoldable pub raft_delete_batch : List Text → RaftKvStorage → Option Text × RaftKvStorage
  raft_delete_batch keys rk = (none, rk)

  unfoldable pub raft_size : RaftKvStorage → ℕ
  raft_size rk = 1

  unfoldable pub raft_destroy : RaftKvStorage → Option Text × RaftKvStorage
  raft_destroy rk = (none, rk)

  -- `Group`
  abbrev pub raft_group : RaftKvStorage → Text × ℕ
  raft_group rk = (rk.name, rk.seq_no)

  -- `init`, with the protocol, the cluster and the disk; a protocol that is nil is `none`.
  unfoldable pub init_raft_kv :
      (api : RaftApi)
      → ClusterView
      → RaftKvStorage
      → Option (RaftProtocol api × api.Disk)
      → Outcome (Option Text) × Option (RaftProtocol api × api.Disk)
  unfolding add_processor
  init_raft_kv api view rk none = (panicked, none)
  init_raft_kv api view rk (some st) =
      let (r, st') = add_processor api view (some (raft_group rk) ∷ []) st in (r, some st')

  -- `newRaftKvStorage`, from what `NewKVStorage` gives. The protocol is not set.
  unfoldable pub new_raft_kv_storage :
      (api : RaftApi)
      → ClusterView
      → Text
      → ℕ
      → Result S
      → Outcome (Option RaftKvStorage × Option Text)
  unfolding init_raft_kv
  new_raft_kv_storage api view name seq_no (err e) = returned (none, some e)
  new_raft_kv_storage api view name seq_no (ok kv) =
      let rk : RaftKvStorage = record { seq_no = seq_no; name = name; kv = kv } in
      elim (init_raft_kv api view rk none).0 [
        | panicked ↦ panicked
        | returned e ↦ returned (some rk, e)
      ]

-- A response of the protocol, of which the fields are read: its data and whether it is a success.
pub record EmptyResponse : Type 0 where
  pub data_bytes : Text
  pub success : Bool

-- `OnRead` and `OnWrite`, for messages that `W` and `R` are read into.
abbrev pub raft_kv :
    (S W R : Type 0)
    → Text × ℕ
    → (Text → Result W)
    → (Text → Result R)
    → (EmptyResponse → Result Text)
    → ProcessorApi
raft_kv S W R group unmarshal_write unmarshal_read marshal = record {
  State = RaftKvStorage S;
  Write = W;
  Read = R;
  Response = EmptyResponse;
  on_write = λ req rk. (record { data_bytes = []; success = false }, rk);
  on_read = λ req rk. (record { data_bytes = []; success = false }, rk);
  group = group;
  unmarshal_write = unmarshal_write;
  unmarshal_read = unmarshal_read;
  marshal = marshal;
}

module _ (S W R : Type 0) (group : Text × ℕ) (unmarshal_write : Text → Result W)
    (unmarshal_read : Text → Result R) (marshal : EmptyResponse → Result Text) where
  abbrev processor : ProcessorApi
  processor = raft_kv S W R group unmarshal_write unmarshal_read marshal

  unwritten : (log : List Text) (rk : RaftKvStorage S) → (write_all processor log rk).1 ≡ rk
  unfolding write_all
  unwritten [] rk = refl
  unwritten (date ∷ log) rk = let rest = unwritten log rk in ground (arith, rest)

  -- Whatever log the raft library gives to an open machine of this storage, the storage stays as it is:
  -- no write of the log takes effect.
  pub update_all-raft_kv :
      (log : List Text) (m : StateMachine processor)
      → m.closed ≡ 0
      → (update_all processor log m).1.p ≡ m.p
  update_all-raft_kv log m h = (update_all_lem processor log m h).1 ∙ unwritten log m.p
