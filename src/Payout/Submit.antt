-- ===== src/Payout/Submit.antt =====
-- `PayoutExecutionService.submit` and `status` (shkeeper/services/payout_execution_service.py), with
-- shkeeper/services/payout_contract.py. The table holds the committed executions of all consumers.
pub mod Contract
pub mod Table
pub mod Replay
mod Tests
use shkeeper_io.Prelude.{
  ℕ, zero, suc, ◌+◌, ◌-◌, ◌*◌, ◌^◌, Bool, true, false, not, ◌&&◌, ◌||◌, String, Option, none, some,
  List, [], ◌∷◌, leb, ltb, ◌==◌, str_eq, first, or_else, if◌then◌else◌, any,
}
use shkeeper_io.Prelude.Text.{strip, upper}
use shkeeper_io.Prelude.Json.{
  Value, null, bool, num, text, list, dict, Items, nil, Fields, end, field, get, has,
}
use shkeeper_io.Errors.{Error, Result, ok, err, ◌>>=◌, ◌>>◌, raise, require}
use shkeeper_io.Prelude.Numerals.{show}
use shkeeper_io.Context.{
  Context, Env, Decimal, not_finite, finite_up, finite_down, str, format_amount, hash_payload,
}
use shkeeper_io.Payout.States.{State, ResolutionStatus, created, unresolved}
use shkeeper_io.Payout.Row.{Execution, Event, Session}
use shkeeper_io.Payout.Address.{validate_payout_destination}
use shkeeper_io.Payout.Rail.{
  Rail, get_enabled_execution_rail, is_consumer_key_allowed_for_rail, is_blank,
}
use shkeeper_io.Payout.Submit.Contract.{
  Request, validate_payload_object, normalize_external_id, request_identity, read_request,
  request_hash, sidecar_payload_hash,
}
use shkeeper_io.Payout.Callback.{add_transition_event, require_endpoint_configured, text_or_null}

-- `PAYOUT_CONTRACT_VERSION`
abbrev payout_contract_version : String
payout_contract_version = "usdt-payout-execution-v1"

abbrev pub is_key : String → String → Session → Bool
is_key consumer external_id s =
    str_eq s.execution.consumer consumer && str_eq s.execution.external_id external_id

-- the row of a consumer's external id
pub find : String → String → List Session → Option Session
find consumer external_id table = first (is_key consumer external_id) table

module _ ⦃ctx : Context⦄ where
  -- `rail.contract_version or PAYOUT_CONTRACT_VERSION`
  abbrev version_of : Rail → String
  version_of r =
      if str_eq r.contract_version "" then payout_contract_version else r.contract_version

  -- `_canonicalize`: the request and its rail
  pub canonicalize : String → Fields → List Rail → Result (Request × Rail)
  canonicalize consumer fs rails = do
    q ← read_request fs
    rail ← get_enabled_execution_rail consumer q.asset q.network rails
    require (not (is_blank rail.callback_endpoint_id)) "PAYOUT_CALLBACK_ENDPOINT_REQUIRED" 503
    require_endpoint_configured consumer rail.callback_endpoint_id
    ok (q, rail)

  -- `_validate_key_scope`
  pub validate_key_scope : String → Option String → String → String → Result (Unit {0})
  validate_key_scope consumer none asset network = ok tt
  validate_key_scope consumer (some key_id) asset network =
      require (is_consumer_key_allowed_for_rail consumer key_id asset network)
        "PAYOUT_AUTH_RAIL_FORBIDDEN" 403

  -- the row of a new execution, with the id that the flush gives it
  new_row : Env → ℕ → String → Request → Rail → Execution
  new_row env id consumer q rail = record {
    id = id;
    consumer = consumer;
    external_id = q.external_id;
    contract_version = version_of rail;
    asset = q.asset;
    network = q.network;
    crypto_id = rail.crypto_id;
    sidecar_service = rail.sidecar_service;
    sidecar_symbol = rail.sidecar_symbol;
    payout_queue = rail.payout_queue;
    source_wallet_ref = rail.source_wallet_ref;
    amount = q.amount;
    destination = q.destination;
    request_hash = request_hash consumer q rail.callback_endpoint_id (version_of rail);
    sidecar_payload_hash = "pending";
    callback_endpoint_id = rail.callback_endpoint_id;
    event_version = 1;
    state_transition_id = env.transition_id;
    state = created;
    failure_class = none;
    error_code = null;
    error_message = null;
    reconciliation_required = false;
    created_at = env.now;
    last_state_occurred_at = some env.now;
    submitted_at = none;
    broadcasted_at = none;
    confirmed_at = none;
    terminal_at = none;
    sidecar_execution_id = null;
    sidecar_state = null;
    sidecar_state_version = none;
    sidecar_state_transition_id = null;
    sidecar_state_updated_at = none;
    last_sidecar_status_hash = none;
    last_sidecar_status = dict end;
    last_sidecar_status_observed_at = none;
    txids = list nil;
    message_hashes = list nil;
    resolution_status = unresolved;
    resolution_evidence = dict end;
    resolution_evidence_hash = none;
    resolution_operator_note = null;
    resolved_by = none;
    resolved_at = none;
    dispatch_attempts = 0;
    lease_owner = none;
    lease_token = none;
    lease_expires_at = none;
    next_dispatch_at = none;
  }

  pub created_row : Env → ℕ → String → Request → Rail → Execution
  unfolding new_row
  created_row env id consumer q rail =
      let e = new_row env id consumer q rail in
      record e { sidecar_payload_hash = sidecar_payload_hash e }

  -- what is committed: the row and its first event
  pub new_session : Env → ℕ → String → Request → Rail → Result Session
  new_session env id consumer q rail = do
    let e = created_row env id consumer q rail
    event ← add_transition_event env e none created env.now
    ok (record { execution = e; events = event ∷ []; audits = [] })

  -- the branch of `submit` for a row that it found
  replay : String → Option String → Fields → Session → Result Session
  replay consumer key_id fs s = do
    validate_key_scope consumer key_id s.execution.asset s.execution.network
    q ← read_request fs
    require
        (str_eq s.execution.request_hash
          (request_hash consumer q s.execution.callback_endpoint_id s.execution.contract_version))
        "PAYOUT_EXECUTION_CONFLICT" 409
    ok s

  abbrev add : Result Session → List Session → Result Session × List Session
  add (ok s) table = (ok s, s ∷ table)
  add (err x) table = (err x, table)

  -- The insertion, into the table as it is by then: the unique constraint on the consumer and the
  -- external id holds against a row that another request has added since.
  insert :
      Env
      → ℕ
      → String
      → Request × Rail
      → Option Session
      → List Session
      → Result Session × List Session
  insert env id consumer (q, rail) none table = add (new_session env id consumer q rail) table
  insert env id consumer (q, rail) (some s) table = (
    if str_eq s.execution.request_hash
          (request_hash consumer q rail.callback_endpoint_id (version_of rail))
        then ok s
        else raise "PAYOUT_EXECUTION_CONFLICT" 409,
    table,
  )

  -- the request and its rail, and the scope of the key
  accept : String → Option String → Fields → List Rail → Result (Request × Rail)
  accept consumer key_id fs rails = do
    (q, rail) ← canonicalize consumer fs rails
    validate_key_scope consumer key_id q.asset q.network
    ok (q, rail)

  insert_accepted :
      Env → ℕ → String → Result (Request × Rail) → List Session → Result Session × List Session
  insert_accepted env id consumer (err x) table = (err x, table)
  insert_accepted env id consumer (ok (q, rail)) table =
      insert env id consumer (q, rail) (find consumer q.external_id table) table

  by_existing :
      Env
      → ℕ
      → String
      → Option String
      → Fields
      → List Rail
      → Option Session
      → List Session
      → Result Session × List Session
  by_existing env id consumer key_id fs rails (some s) table = (replay consumer key_id fs s, table)
  by_existing env id consumer key_id fs rails none table =
      insert_accepted env id consumer (accept consumer key_id fs rails) table

  identify : Value → Result (Fields × String)
  identify payload = do
    fs ← validate_payload_object payload
    external_id ← request_identity fs
    ok (fs, external_id)

  by_identity :
      Env
      → ℕ
      → String
      → Option String
      → List Rail
      → Result (Fields × String)
      → List Session
      → List Session
      → Result Session × List Session
  by_identity env id consumer key_id rails (err x) seen table = (err x, table)
  by_identity env id consumer key_id rails (ok (fs, external_id)) seen table =
      by_existing env id consumer key_id fs rails (find consumer external_id seen) table

  -- `submit`: `seen` is the table when it looks for the row, `table` when it inserts one. The result
  -- is the execution that it answers with, and the table after.
  pub submit :
      Env
      → ℕ
      → String
      → Value
      → Option String
      → List Rail
      → List Session
      → List Session
      → Result Session × List Session
  submit env id consumer payload key_id rails seen table =
      by_identity env id consumer key_id rails (identify payload) seen table

  -- `status`
  pub status : String → Value → Option String → List Session → Result Session
  status consumer external_id key_id table = do
    let normalized = normalize_external_id external_id
    require (not (str_eq normalized "")) "EXTERNAL_ID_REQUIRED" 400
    s ← elim (find consumer normalized table) [
      | none ↦ raise "PAYOUT_EXECUTION_NOT_FOUND" 404
      | some s ↦ ok s
    ]
    validate_key_scope consumer key_id s.execution.asset s.execution.network
    ok s
