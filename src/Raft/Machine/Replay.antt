-- ===== src/Raft/Machine/Replay.antt =====
-- What a log of updates does to the processor of server/core/raft_protocol.go.
use mathlib.Core.Path.{subst}
use pole.Prelude.{
  sym, none, some, List, [], ◌∷◌, Text, ◌≡◌, refl, ap, Outcome, returned, panicked, ◌==◌,
  if◌then◌else◌,
}
use pole.Storage.Kv.{Result, ok, err}
use pole.Raft.Machine.{
  ProcessorApi, StateMachine, update, is_closed, closed_error, write_read, unless_closed,
}

module _ (api : ProcessorApi) where
  open api use {State, on_write, unmarshal_write, marshal}

  -- The updates of a log, in its order, as dragonboat makes them: an error of `Update` is fatal to it.
  abbrev go_on :
      Result Text × StateMachine api
      → (StateMachine api → Outcome (Unit {0}) × StateMachine api)
      → Outcome (Unit {0}) × StateMachine api
  go_on (err e, m) rest = (panicked, m)
  go_on (ok r, m) rest = rest m

  unfoldable pub update_all : List Text → StateMachine api → Outcome (Unit {0}) × StateMachine api
  unfolding update
  update_all [] m = (returned tt, m)
  update_all (date ∷ log) m = go_on (update api date m) (update_all log)

  -- The processor alone, on the writes of a log one after the other, up to the first that cannot be read
  -- or whose answer cannot be encoded; what that one wrote stays.
  abbrev after_response :
      Result Text × State → (State → Outcome (Unit {0}) × State) → Outcome (Unit {0}) × State
  after_response (err e, p) rest = (panicked, p)
  after_response (ok r, p) rest = rest p

  unfoldable pub write_all : List Text → State → Outcome (Unit {0}) × State
  write_all [] p = (returned tt, p)
  write_all (date ∷ log) p = elim (unmarshal_write date) [
    | err e ↦ (panicked, p)
    | ok req ↦ after_response (marshal (on_write req p).0, (on_write req p).1) (write_all log)
  ]

  open_update :
      (date : Text) (m : StateMachine api)
      → m.closed ≡ 0
      → update api date m ≡ write_read api (unmarshal_write date) m
  unfolding update is_closed
  open_update date m h =
      ap
        (λ n.
          unless_closed api (if n == 1 then some (closed_error api) else none)
            (write_read api (unmarshal_write date) m) m)
        h

  abbrev Refines : Outcome (Unit {0}) × StateMachine api → Outcome (Unit {0}) × State → Type 0
  Refines r w = (r.0 ≡ w.0) × (r.1.p ≡ w.1) × (r.1.closed ≡ 0)

  answered :
      (encoded : Result Text) (p : State) (m : StateMachine api)
      (rest : StateMachine api → Outcome (Unit {0}) × StateMachine api)
      (alone : State → Outcome (Unit {0}) × State)
      → m.closed ≡ 0
      → ((m' : StateMachine api) → m'.closed ≡ 0 → Refines (rest m') (alone m'.p))
      → Refines (go_on (encoded, record m { p = p }) rest) (after_response (encoded, p) alone)
  answered (err e) p m rest alone h f = (refl, refl, h)
  answered (ok r) p m rest alone h f = f (record m { p = p }) h

  -- An open machine that is given a log ends as its processor does alone on the log's writes, with the
  -- processor's state, and stays open: all writes are applied in their order, or those up to the first
  -- that cannot be read or whose answer cannot be encoded, and none after it.
  pub update_all_lem :
      (log : List Text) (m : StateMachine api)
      → m.closed ≡ 0
      → ((update_all log m).0 ≡ (write_all log m.p).0)
        × ((update_all log m).1.p ≡ (write_all log m.p).1)
        × ((update_all log m).1.closed ≡ 0)
  unfolding update_all write_all
  update_all_lem [] m h = (refl, refl, h)
  update_all_lem (date ∷ log) m h =
      subst (λ u. Refines (go_on u (update_all log)) (write_all (date ∷ log) m.p))
        (sym (open_update date m h)) (read_first (unmarshal_write date) (update_all_lem log))
    where
      read_first :
          (r : Result api.Write)
          → ((m' : StateMachine api)
              → m'.closed ≡ 0
              → Refines (update_all log m') (write_all log m'.p))
          → Refines (go_on (write_read api r m) (update_all log)) (elim r [
            | err e ↦ (panicked, m.p)
            | ok req ↦
                after_response (marshal (on_write req m.p).0, (on_write req m.p).1) (write_all log)
          ])
      read_first (err e) f = (refl, refl, h)
      read_first (ok req) f =
          answered (marshal (on_write req m.p).0) (on_write req m.p).1 m (update_all log)
            (write_all log) h f
