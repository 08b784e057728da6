-- ===== src/Raft/Machine.antt =====
-- `wrapperRaftStateMachine` of server/core/raft_protocol.go. The processor and the messages' encoding are
-- parameters: a processor is an interface, and the encoding is the protobuf library's.
pub mod Replay
pub mod Closing
use pole.Prelude.{
  ℕ, Bool, Option, none, some, List, [], ◌∷◌, ◌++◌, Text, codes, Outcome, returned, panicked, ◌==◌,
  if◌then◌else◌,
}
use pole.Storage.Kv.{Result, ok, err}
use pole.Discovery.Model.{decimal}

pub record ProcessorApi : Type 1 where
  pub State : Type 0
  pub Write : Type 0
  pub Read : Type 0
  pub Response : Type 0
  pub on_write : Write → State → Response × State
  pub on_read : Read → State → Response × State
  pub group : Text × ℕ
  pub unmarshal_write : Text → Result Write
  pub unmarshal_read : Text → Result Read
  pub marshal : Response → Result Text

module _ (api : ProcessorApi) where
  open api use {State, on_write, on_read, group, unmarshal_write, unmarshal_read, marshal}

  pub record StateMachine : Type 0 where
    pub cluster_id : ℕ
    pub node_id : ℕ
    pub p : State
    pub closed : ℕ

  -- `createSM`, whose function makes no use of the ids.
  abbrev pub create_sm : State → ℕ → ℕ → StateMachine
  create_sm processor cluster_id node_id = record {
    cluster_id = 0;
    node_id = 0;
    p = processor;
    closed = 0;
  }

  -- An id is an uint64, of twenty digits at most.
  unfoldable pub closed_error : Text
  unfolding decimal
  closed_error =
      codes "["
      ++ (group.0 ++ (codes "-" ++ (decimal 20 group.1 ++ codes "] state-machine already closed")))

  unfoldable pub is_closed : StateMachine → Option Text
  unfolding closed_error
  is_closed m = if m.closed == 1 then some closed_error else none

  -- The processor's answer, encoded; an error keeps what the processor did.
  abbrev pub answer : api.Response × State → StateMachine → Result Text × StateMachine
  answer (resp, p) m = (marshal resp, record m { p = p })

  abbrev pub write_read : Result api.Write → StateMachine → Result Text × StateMachine
  write_read (err e) m = (err e, m)
  write_read (ok req) m = answer (on_write req m.p) m

  abbrev pub query_read : Result api.Read → StateMachine → Result Text × StateMachine
  query_read (err e) m = (err e, m)
  query_read (ok req) m = answer (on_read req m.p) m

  abbrev pub unless_closed :
      Option Text → Result Text × StateMachine → StateMachine → Result Text × StateMachine
  unless_closed (some e) done m = (err e, m)
  unless_closed none done m = done

  unfoldable pub update : Text → StateMachine → Result Text × StateMachine
  unfolding is_closed
  update date m = unless_closed (is_closed m) (write_read (unmarshal_write date) m) m

  -- `Lookup` of a query that is a slice of bytes, or else, as `none`, of another type.
  unfoldable pub lookup_query : Option Text → StateMachine → Outcome (Result Text) × StateMachine
  unfolding is_closed
  lookup_query query m = elim (is_closed m) [
    | some e ↦ (returned (err e), m)
    | none ↦ elim query [
      | none ↦ (panicked, m)
      | some bytes ↦ let (r, m') = query_read (unmarshal_read bytes) m in (returned r, m')
    ]
  ]

  unfoldable pub save_snapshot : StateMachine → Option Text
  unfolding is_closed
  save_snapshot m = is_closed m

  unfoldable pub recover_from_snapshot : StateMachine → Option Text
  unfolding is_closed
  recover_from_snapshot m = is_closed m

  unfoldable pub close_machine : StateMachine → Option Text × StateMachine
  close_machine m = (none, record m { closed = 1 })
