-- ===== src/Payout/Resolution.antt =====
-- `record_manual_resolution` (shkeeper/services/payout_execution_service.py): an operator settles
-- an execution whose outcome is in doubt, on evidence.
mod Tests
pub mod Evidence
pub mod Guard
pub mod Safety
use shkeeper_io.Prelude.{
  ℕ, Bool, true, false, not, String, Option, none, some, List, [], ◌∷◌, str_eq, if◌then◌else◌,
}
use shkeeper_io.Prelude.Json.{Value, null, list, dict, Fields, get, truthy}
use shkeeper_io.Errors.{Result, ok, err, ◌>>=◌, ◌>>◌, raise, require, request_error, conflict_error}
use shkeeper_io.Context.{Context, Env, str, hash_payload}
use shkeeper_io.Payout.States.{
  State, ResolutionStatus, operator_resolved, unresolved, chain_broadcast_found,
  cancelled_pre_broadcast, reconciliation_required, manual_review, failed_chain_terminal,
  failed_pre_broadcast, broadcast, state_in, resolution_of_name,
}
use shkeeper_io.Payout.Row.{Execution, Audit, Session}
use shkeeper_io.Payout.Transition.{Move, move_to, transition}
use shkeeper_io.Payout.Sidecar.{json_list}
use Evidence.{validate_manual_resolution_evidence}

-- the states from which a resolution is allowed, and the state to which it leads
abbrev pub resolution_rule : ResolutionStatus → Option (List State × State)
resolution_rule ResolutionStatus.safe_for_manual_payout = some (
  reconciliation_required ∷ manual_review ∷ failed_chain_terminal ∷ [],
  State.safe_for_manual_payout,
)
resolution_rule chain_broadcast_found =
    some (reconciliation_required ∷ manual_review ∷ State.safe_for_manual_payout ∷ [], broadcast)
resolution_rule ResolutionStatus.manual_payout_pending =
    some (State.safe_for_manual_payout ∷ [], State.manual_payout_pending)
resolution_rule ResolutionStatus.manual_payout_completed =
    some (State.manual_payout_pending ∷ [], State.manual_payout_completed)
resolution_rule cancelled_pre_broadcast =
    some (failed_pre_broadcast ∷ reconciliation_required ∷ [], failed_pre_broadcast)
resolution_rule unresolved = none

pub manual_resolution_target_state : State → ResolutionStatus → Result State
manual_resolution_target_state current status = elim (resolution_rule status) [
  | none ↦ request_error "PAYOUT_MANUAL_RESOLUTION_STATUS_INVALID"
  | some (allowed, target) ↦
      if state_in current allowed
      then ok target
      else conflict_error "PAYOUT_MANUAL_RESOLUTION_INVALID_STATE"
]

-- What a validated request asks for.
pub record Plan : Type 0 where
  pub status : ResolutionStatus
  pub target : State
  pub evidence : Fields
  pub operator_note : Value
  pub operator_id : String

pub require_object : Value → Result Fields
require_object (dict fs) = ok fs
require_object v = request_error "PAYOUT_MANUAL_RESOLUTION_REQUEST_INVALID"

-- `_require_evidence_object`
pub require_evidence : Value → Result Fields
require_evidence (dict fs) =
    if truthy (dict fs) then ok fs else request_error "PAYOUT_MANUAL_RESOLUTION_EVIDENCE_REQUIRED"
require_evidence v = request_error "PAYOUT_MANUAL_RESOLUTION_EVIDENCE_REQUIRED"

module _ ⦃ctx : Context⦄ where
  -- `_resolution_status`
  pub resolution_status_of : Value → Result ResolutionStatus
  resolution_status_of v = elim (resolution_of_name (str v)) [
    | none ↦ request_error "PAYOUT_MANUAL_RESOLUTION_STATUS_INVALID"
    | some status ↦ ok status
  ]

  -- the ids of broadcast evidence are lists, or texts or dicts, which become lists; others raise
  pub require_lists : ResolutionStatus → Fields → Result (Unit {0})
  require_lists chain_broadcast_found evidence = do
    json_list (get "txids" evidence)
    json_list (get "message_hashes" evidence)
    ok tt
  require_lists _ evidence = ok tt

  -- everything that is checked, and everything that may raise, before the row is committed
  pub check_resolution : Execution → Value → String → Result Plan
  check_resolution e payload operator_id = do
    require (not (str_eq operator_id "")) "PAYOUT_MANUAL_RESOLUTION_OPERATOR_REQUIRED" 403
    fields ← require_object payload
    status ← resolution_status_of (get "resolution_status" fields)
    evidence ← require_evidence (get "evidence" fields)
    validate_manual_resolution_evidence e status evidence
    target ← manual_resolution_target_state e.state status
    require_lists status evidence
    ok (record {
      status = status;
      target = target;
      evidence = evidence;
      operator_note = get "operator_note" fields;
      operator_id = operator_id;
    })

  -- broadcast evidence replaces the transaction ids where it has any
  abbrev found_ids : ResolutionStatus → Value → Value → Value
  found_ids chain_broadcast_found found old =
      if truthy found then elim (json_list found) [ ok vs ↦ list vs | err x ↦ old ] else old
  found_ids _ found old = old

  pub resolved_row : Env → Plan → Execution → Execution
  resolved_row env p e = record e {
    resolution_status = p.status;
    resolution_evidence = dict p.evidence;
    resolution_evidence_hash = some (hash_payload (dict p.evidence));
    resolution_operator_note = p.operator_note;
    resolved_by = some p.operator_id;
    resolved_at = some env.now;
    txids = found_ids p.status (get "txids" p.evidence) e.txids;
    message_hashes = found_ids p.status (get "message_hashes" p.evidence) e.message_hashes;
  }

  pub resolution_audit : Plan → Execution → String → Audit
  resolution_audit p e transition_id = record {
    execution_id = e.id;
    action = p.status;
    previous_state = e.state;
    new_state = p.target;
    previous_resolution_status = e.resolution_status;
    operator_id = p.operator_id;
    operator_note = p.operator_note;
    evidence_hash = hash_payload (dict p.evidence);
    evidence = dict p.evidence;
    state_transition_id = transition_id;
  }

  pub resolution_move : Plan → Execution → Move
  resolution_move p e = record (move_to p.target) {
    failure_class = some operator_resolved;
    error_message = p.operator_note;
    reconciliation_required = some false;
    force_event = true;
    audit = some (resolution_audit p e);
  }

  pub carry_out : Result Plan → Env → Session → Result (Unit {0}) × Session
  carry_out (err x) env s = (err x, s)
  carry_out (ok p) env s =
      transition env (resolution_move p s.execution) (resolved_row env p s.execution) s

  pub record_manual_resolution : Env → Session → Value → String → Result (Unit {0}) × Session
  record_manual_resolution env s payload operator_id =
      carry_out (check_resolution s.execution payload operator_id) env s
