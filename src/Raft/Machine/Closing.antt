-- ===== src/Raft/Machine/Closing.antt =====
-- What a closed state machine of server/core/raft_protocol.go does.
use pole.Prelude.{Option, none, some, List, [], ◌∷◌, map, Text, ◌≡◌, refl, Outcome, returned}
use pole.Storage.Kv.{Result, err}
use pole.Raft.Machine.{
  ProcessorApi, StateMachine, update, lookup_query, save_snapshot, recover_from_snapshot,
  close_machine, is_closed, closed_error,
}

-- The calls of the raft library, and what they return.
pub data MachineCall : Type 0 where
  update_call : Text → MachineCall
  lookup_call : Option Text → MachineCall
  save_call recover_call close_call : MachineCall

pub data Reply : Type 0 where
  replied : Outcome (Result Text) → Reply
  ended : Option Text → Reply

module _ (api : ProcessorApi) where
  unfoldable pub machine_step : MachineCall → StateMachine api → Reply × StateMachine api
  unfolding update lookup_query save_snapshot recover_from_snapshot close_machine
  machine_step (update_call date) m =
      (replied (returned (update api date m).0), (update api date m).1)
  machine_step (lookup_call query) m =
      (replied (lookup_query api query m).0, (lookup_query api query m).1)
  machine_step save_call m = (ended (save_snapshot api m), m)
  machine_step recover_call m = (ended (recover_from_snapshot api m), m)
  machine_step close_call m = (ended (close_machine api m).0, (close_machine api m).1)

  unfoldable pub run_machine : List MachineCall → StateMachine api → List Reply × StateMachine api
  unfolding machine_step
  run_machine [] m = ([], m)
  run_machine (call ∷ calls) m =
      let (r, m') = machine_step call m in let (rs, m'') = run_machine calls m' in (r ∷ rs, m'')

  -- Each call but another Close is refused.
  unfoldable pub refused : MachineCall → Reply
  unfolding closed_error
  refused (update_call date) = replied (returned (err (closed_error api)))
  refused (lookup_call query) = replied (returned (err (closed_error api)))
  refused save_call = ended (some (closed_error api))
  refused recover_call = ended (some (closed_error api))
  refused close_call = ended none

  -- After Close, whatever the raft library calls in whatever order is refused with the error of a
  -- closed machine, except Close itself, and neither the machine nor its processor changes again.
  pub run_machine-close_machine :
      (calls : List MachineCall) (m : StateMachine api)
      → run_machine calls (close_machine api m).1 ≡ (map refused calls, (close_machine api m).1)
  unfolding run_machine machine_step update lookup_query save_snapshot recover_from_snapshot
      close_machine is_closed refused
  run_machine-close_machine [] m = refl
  run_machine-close_machine (update_call date ∷ calls) m =
      rw (run_machine-close_machine calls m) refl
  run_machine-close_machine (lookup_call query ∷ calls) m =
      rw (run_machine-close_machine calls m) refl
  run_machine-close_machine (save_call ∷ calls) m = rw (run_machine-close_machine calls m) refl
  run_machine-close_machine (recover_call ∷ calls) m = rw (run_machine-close_machine calls m) refl
  run_machine-close_machine (close_call ∷ calls) m = rw (run_machine-close_machine calls m) refl
