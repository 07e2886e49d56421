-- ===== src/Payout/Sidecar.antt =====
-- `apply_sidecar_status` (shkeeper/services/payout_execution_service.py): what an execution does
-- with a status that its sidecar reports.
mod Tests
pub mod Status
pub mod Branches
use Prim.Native.String.{◌++◌ as append}
use shkeeper_io.Prelude.{
  ℕ, Bool, true, false, not, ◌&&◌, ◌||◌, String, Option, none, some, List, [], ◌∷◌, ltb, ◌==◌,
  str_eq, if◌then◌else◌,
}
use shkeeper_io.Prelude.Json.{
  Value, null, text, list, dict, Items, nil, Fields, get, has, truthy, value_eq, keys, letters,
}
use shkeeper_io.Errors.{Result, ok, err, raise, ◌>>=◌}
use shkeeper_io.Context.{Context, Env, str}
use shkeeper_io.Payout.States.{
  State, FailureClass, preflight, chain_terminal, ambiguous, failed_pre_broadcast,
  failed_chain_terminal, reconciliation_required, state_eq, state_in, sidecar_state_map,
}
use shkeeper_io.Payout.Row.{Execution, Session}
use shkeeper_io.Payout.Transition.{Move, move_to, transition}
use Status.{
  Reading, Parsed, missing, readable, read_status, get_either, parse_sidecar_datetime,
  validate_sidecar_identity, sidecar_status_snapshot, sidecar_status_hash,
}

-- the transition of `_move_to_reconciliation`
abbrev pub to_reconciliation : String → String → Move
to_reconciliation error_code message = record (move_to reconciliation_required) {
  failure_class = some ambiguous;
  error_code = text error_code;
  error_message = text message;
  reconciliation_required = some true;
}

-- two texts, two times or two lists that are both given and differ
abbrev pub both_and_differ : Value → Value → Bool
both_and_differ a b = truthy a && truthy b && not (value_eq a b)

abbrev differ_time : Option ℕ → Option ℕ → Bool
differ_time (some a) (some b) = not (a == b)
differ_time _ _ = false

abbrev differ_hash : Option String → String → Bool
differ_hash (some a) b = not (str_eq a "") && not (str_eq b "") && not (str_eq a b)
differ_hash none b = false

-- `list(v)`; what is no sequence raises
iterate : Value → Result Items
iterate (list vs) = ok vs
iterate (text s) = ok (letters s)
iterate (dict fs) = ok (keys fs)
iterate v = raise "TypeError" 500

-- `_json_list`, as the list that it prints
pub json_list : Value → Result Items
json_list v = if truthy v then iterate v else ok nil

-- the column holds `_json_list` of what was given
abbrev is_listed : Value → Result Items → Result Bool
is_listed column (ok vs) = ok (not (value_eq column (list vs)))
is_listed column (err x) = err x

pub differ_list : Value → Value → Result Bool
unfolding json_list
differ_list null column = ok false
differ_list incoming column = is_listed column (json_list incoming)

-- `if a: return True` in front of `b`
abbrev or_else_result : Result Bool → Result Bool → Result Bool
or_else_result (ok true) b = ok true
or_else_result (ok false) b = b
or_else_result (err x) b = err x

-- the column after a list was given, or none
abbrev new_list : Value → Value → Result Value
new_list null old = ok old
new_list incoming old = do vs ← json_list incoming; ok (list vs)

module _ ⦃ctx : Context⦄ where
  -- `_sidecar_status_conflicts`
  columns_conflict : Execution → Fields → String → Bool
  columns_conflict e status status_hash =
      both_and_differ e.sidecar_execution_id (get "sidecar_execution_id" status)
      || not (value_eq e.sidecar_state (get_either "sidecar_state" "state" status))
      || not (
          value_eq e.sidecar_state_transition_id
            (get_either "sidecar_state_transition_id" "state_transition_id" status))
      || differ_time
          (parse_sidecar_datetime (get_either "sidecar_state_updated_at" "state_updated_at" status))
          e.sidecar_state_updated_at
      || differ_hash e.last_sidecar_status_hash status_hash

  pub sidecar_status_conflicts : Execution → Fields → String → Result Bool
  unfolding columns_conflict
  sidecar_status_conflicts e status status_hash =
      or_else_result (ok (columns_conflict e status status_hash)) (
        or_else_result (differ_list (get "txids" status) e.txids)
          (differ_list (get "message_hashes" status) e.message_hashes))

  -- the two lists of an accepted status
  pub new_lists : Execution → Fields → Result (Value × Value)
  new_lists e status = do
    txids ← new_list (get "txids" status) e.txids
    message_hashes ← new_list (get "message_hashes" status) e.message_hashes
    ok (txids, message_hashes)

  -- the columns that an accepted status overwrites
  pub with_status : Env → Execution → Fields → Reading → Value × Value → Execution
  with_status env e status r (txids, message_hashes) =
      let snapshot = sidecar_status_snapshot e status r in
      record e {
        sidecar_execution_id =
            if truthy (get "sidecar_execution_id" status)
            then get "sidecar_execution_id" status
            else e.sidecar_execution_id;
        sidecar_state = r.sidecar_state;
        sidecar_state_version = some r.version;
        sidecar_state_transition_id = r.transition_id;
        sidecar_state_updated_at = some r.updated_at;
        last_sidecar_status_hash = some (sidecar_status_hash snapshot);
        last_sidecar_status = snapshot;
        last_sidecar_status_observed_at = some env.now;
        txids = txids;
        message_hashes = message_hashes;
      }

-- `failure_class` and `reconciliation_required` by the mapped state
abbrev failure_of : State → Option FailureClass
failure_of s =
    if state_eq s failed_pre_broadcast
    then some preflight
    else if state_eq s failed_chain_terminal
    then some chain_terminal
    else if state_eq s reconciliation_required
    then some ambiguous
    else none

-- the status's own error text if it has one; else the old one stays in a failed state
abbrev error_text : String → State → Value → Fields → Value
error_text k s old status =
    if has k status
    then get k status
    else if state_in s (failed_pre_broadcast ∷ failed_chain_terminal ∷ reconciliation_required ∷ [])
    then old
    else null

pub status_move : State → Execution → Fields → Move
status_move s e status = record (move_to s) {
  failure_class = failure_of s;
  error_code = error_text "error_code" s e.error_code status;
  error_message = error_text "error_message" s e.error_message status;
  reconciliation_required = some (state_eq s reconciliation_required);
}

-- `SIDECAR_STATE_MAP.get(sidecar_state)`: no key of the map is anything but a text
abbrev pub mapped_state : Value → Option State
mapped_state (text s) = sidecar_state_map s
mapped_state _ = none

module _ ⦃ctx : Context⦄ where
  abbrev pub reconcile : Env → String → String → Execution → Session → Result (Unit {0}) × Session
  reconcile env code message = transition env (to_reconciliation code message)

  -- the columns, with their lists, and the transition by the mapped state
  pub accept_listed :
      Env → Session → Fields → Reading → Result (Value × Value) → Result (Unit {0}) × Session
  accept_listed env s status r (err x) = (err x, s)
  accept_listed env s status r (ok lists) =
      let e = with_status env s.execution status r lists in
      elim (mapped_state r.sidecar_state) [
        | none ↦
            reconcile env "SIDECAR_STATUS_AMBIGUOUS"
              (append "Unknown sidecar state: " (str r.sidecar_state)) e s
        | some state ↦ transition env (status_move state e status) e s
      ]

  -- a status with a new version
  pub accept_status : Env → Session → Fields → Reading → Result (Unit {0}) × Session
  accept_status env s status r =
      if both_and_differ s.execution.sidecar_execution_id (get "sidecar_execution_id" status)
      then reconcile env "SIDECAR_STATUS_AMBIGUOUS" "Sidecar execution id changed" s.execution s
      else accept_listed env s status r (new_lists s.execution status)

  pub by_conflict : Env → Session → Result Bool → Result (Unit {0}) × Session
  by_conflict env s (err x) = (err x, s)
  by_conflict env s (ok false) = (ok tt, s)
  by_conflict env s (ok true) =
      reconcile env "SIDECAR_STATUS_AMBIGUOUS" "Sidecar returned conflicting same-version status"
        s.execution s

  -- a status with the version that is already known
  pub same_version : Env → Session → Fields → Reading → Result (Unit {0}) × Session
  same_version env s status r = by_conflict env s (
      sidecar_status_conflicts s.execution status
        (sidecar_status_hash (sidecar_status_snapshot s.execution status r)))

  -- by the version that is known
  pub apply_reading : Option ℕ → Env → Session → Fields → Reading → Result (Unit {0}) × Session
  apply_reading none env s status r = accept_status env s status r
  apply_reading (some known) env s status r =
      if ltb r.version known
      then (ok tt, s)
      else if r.version == known
      then same_version env s status r
      else accept_status env s status r

  pub apply_parsed : Parsed → Env → Session → Fields → Result (Unit {0}) × Session
  apply_parsed (missing message) env s status =
      reconcile env "SIDECAR_STATUS_AMBIGUOUS" message s.execution s
  apply_parsed (readable r) env s status =
      apply_reading s.execution.sidecar_state_version env s status r

  pub apply_checked : Option String → Env → Session → Fields → Result (Unit {0}) × Session
  apply_checked (some f) env s status =
      reconcile env "SIDECAR_STATUS_IDENTITY_MISMATCH"
        (append "Sidecar status identity mismatch: " f) s.execution s
  apply_checked none env s status = apply_parsed (read_status status) env s status

  pub apply_sidecar_status : Env → Session → Fields → Result (Unit {0}) × Session
  apply_sidecar_status env s status =
      apply_checked (validate_sidecar_identity s.execution status) env s status
