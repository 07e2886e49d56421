-- ===== src/Payout/Transition.antt =====
-- `PayoutExecutionService.transition` (shkeeper/services/payout_execution_service.py): the one
-- way in which an execution changes its state, with the outbox event of the same commit.
mod Tests
pub mod Outcome
pub mod History
use shkeeper_io.Prelude.{
  ℕ, ◌+◌, Bool, true, false, not, ◌||◌, String, Option, none, some, List, [], ◌∷◌, ◌++◌, or_else,
  if◌then◌else◌,
}
use shkeeper_io.Prelude.Json.{Value, null}
use shkeeper_io.Errors.{Result, ok, err}
use shkeeper_io.Context.{Context, Env}
use shkeeper_io.Payout.States.{
  State, FailureClass, state_eq, state_in, enqueueing, enqueued, broadcast, confirmed,
  failed_pre_broadcast, failed_chain_terminal, reconciliation_required,
}
use shkeeper_io.Payout.Row.{Execution, Event, Audit, Session}
use shkeeper_io.Payout.Callback.{add_transition_event}

-- The keyword arguments. `audit` stands for `before_commit`, which adds an audit row that carries
-- the new `state_transition_id`.
pub record Move : Type 0 where
  pub state : State
  pub failure_class : Option FailureClass
  pub error_code : Value
  pub error_message : Value
  pub reconciliation_required : Option Bool
  pub occurred_at : Option ℕ
  pub force_event : Bool
  pub audit : Option (String → Audit)

-- the arguments at their defaults
abbrev pub move_to : State → Move
move_to s = record {
  state = s;
  failure_class = none;
  error_code = null;
  error_message = null;
  reconciliation_required = none;
  occurred_at = none;
  force_event = false;
  audit = none;
}

abbrev pub event_required : Move → Execution → Bool
event_required m e = not (state_eq e.state m.state) || m.force_event

abbrev pub occurred : Env → Move → ℕ
occurred env m = or_else m.occurred_at env.now

-- `execution.x_at = execution.x_at or occurred_at`
abbrev stamp_if : Bool → ℕ → Option ℕ → Option ℕ
stamp_if true t old = some (or_else old t)
stamp_if false t old = old

-- the row with its new version and its new transition id, where an event is due
abbrev numbered : Env → Move → Execution → Execution
numbered env m e =
    if event_required m e
    then record e {
      event_version = e.event_version + 1;
      state_transition_id = env.transition_id;
      last_state_occurred_at = some (occurred env m);
    }
    else e

-- the row that is committed
unfoldable pub moved : Env → Move → Execution → Execution
moved env m e =
    let t = occurred env m in
    record (numbered env m e) {
      state = m.state;
      failure_class = m.failure_class;
      error_code = m.error_code;
      error_message = m.error_message;
      reconciliation_required =
          or_else m.reconciliation_required (state_eq m.state reconciliation_required);
      submitted_at = stamp_if (state_in m.state (enqueueing ∷ enqueued ∷ [])) t e.submitted_at;
      broadcasted_at = stamp_if (state_eq m.state broadcast) t e.broadcasted_at;
      confirmed_at = stamp_if (state_eq m.state confirmed) t e.confirmed_at;
      terminal_at =
          stamp_if
            (state_in m.state
              (failed_pre_broadcast ∷ failed_chain_terminal ∷ State.manual_payout_completed ∷ []))
            t e.terminal_at;
    }

abbrev pub add_audit : Move → Execution → List Audit → List Audit
add_audit m row audits = elim m.audit [
  | none ↦ audits
  | some make ↦ audits ++ make row.state_transition_id ∷ []
]

-- `e` is the row as the session holds it, with changes that are not yet committed; a raise rolls
-- them back.
module _ ⦃ctx : Context⦄ where
  unfoldable pub transition : Env → Move → Execution → Session → Result (Unit {0}) × Session
  transition env m e s =
      let row = moved env m e in
      if event_required m e
      then elim (add_transition_event env row (some e.state) m.state (occurred env m)) [
        | ok event ↦ (
          ok tt,
          record {
            execution = row;
            events = s.events ++ event ∷ [];
            audits = add_audit m row s.audits;
          },
        )
        | err x ↦ (err x, s)
      ]
      else (ok tt, record { execution = row; events = s.events; audits = add_audit m row s.audits })
