-- ===== src/Payout/Reconciler.antt =====
-- shkeeper/services/payout_execution_reconciler.py: one dispatch of an execution to its sidecar.
-- The sidecar is a parameter: what each request answers, for the row that it is made with.
pub mod Keeps
pub mod Submits
pub mod Lease
use shkeeper_io.Prelude.{
  ℕ, ◌+◌, ◌-◌, ◌*◌, ◌^◌, ◌≤◌, Bool, true, false, not, ◌&&◌, ◌||◌, String, Option, none, some, List,
  [], ◌∷◌, ◌++◌, any, leb, ltb, ◌==◌, str_eq, is_some, if◌then◌else◌,
}
use shkeeper_io.Prelude.Json.{
  Value, null, text, Fields, field, get, is_null, truthy, or_value, value_eq,
}
use shkeeper_io.Errors.{Error, Result, ok, err}
use shkeeper_io.Context.{Context, Env, seconds}
use shkeeper_io.Payout.States.{
  State, FailureClass, created, preflighted, enqueueing, enqueued, broadcast, failed_pre_broadcast,
  reconciliation_required, preflight, worker_unavailable, sidecar_timeout, ambiguous, state_eq,
  state_in,
}
use shkeeper_io.Payout.Row.{Execution, Session}
use shkeeper_io.Payout.Transition.{Move, move_to, transition}
use shkeeper_io.Payout.Sidecar.{apply_sidecar_status}
use shkeeper_io.Payout.Sidecar.Status.{get_either, parse_sidecar_datetime}

-- What a request to the sidecar ends in: a JSON answer, or one of the client's exceptions.
pub data Reply : Type 0 where
  response : Fields → Reply
  submit_timeout : String → Reply
  status_unavailable : Fields → String → Reply
  not_found : String → Reply
  request_refused : Error → String → Reply

pub record Client : Type 0 where
  pub preflight : Execution → Reply
  pub submit : Execution → Reply
  pub status : Execution → Reply
  pub recover_orphan : Execution → Reply

-- the requests that were made
pub data Call : Type 0 where
  preflight_call submit_call status_call recover_call : Call

-- the outcome, the session as committed, and the requests that were made
abbrev pub Run : Type 0
Run = Result (Unit {0}) × Session × List Call

abbrev run : List Call → Result (Unit {0}) × Session → Run
run calls (r, s) = (r, s, calls)

-- an exception that this handler does not catch
abbrev uncaught : Reply → Error
uncaught (request_refused x message) = x
uncaught r = record { code = "SidecarClientError"; status_code = 500 }

-- `min(60 * (2 ** max(attempts - 1, 0)), 3600)`
pub retry_delay : ℕ → ℕ
retry_delay attempts = let delay = 60 * 2 ^ (attempts - 1) in if leb delay 3600 then delay else 3600

-- `_preflight_retry_delay`: `attempts or 1` gives the same delay
abbrev pub preflight_retry_delay : Execution → ℕ
preflight_retry_delay e = retry_delay e.dispatch_attempts

-- `response.get("status") == "error" or response.get("error")`
abbrev is_error : Fields → Bool
is_error r = value_eq (get "status" r) (text "error") || truthy (get "error" r)

-- `response.get("message") or response.get("error") or default`
abbrev message_of : Fields → String → Value
message_of r default = or_value (get "message" r) (or_value (get "error" r) (text default))

pub failed_move : FailureClass → Value → Value → Move
failed_move class code message = record (move_to failed_pre_broadcast) {
  failure_class = some class;
  error_code = code;
  error_message = message;
  reconciliation_required = some false;
}

pub doubt_move : FailureClass → String → String → Move
doubt_move class code message = record (move_to reconciliation_required) {
  failure_class = some class;
  error_code = text code;
  error_message = text message;
  reconciliation_required = some true;
}

pub plain_move : State → Move
plain_move s = record (move_to s) { reconciliation_required = some false }

-- a commit of columns that are neither the state nor its version
abbrev pub touch : (Execution → Execution) → Session → Session
touch f s = record s { execution = f s.execution }

pub postpone : Env → Value → Value → ℕ → Execution → Execution
postpone env code message delay e = record e {
  error_code = code;
  error_message = message;
  next_dispatch_at = some (env.now + seconds delay);
}

-- `_accepted_submit_status`: the answer to a submit, read as a status
pub accepted_submit_status : Fields → Fields
accepted_submit_status r =
    let state = get_either "sidecar_state" "state" r in
    field "sidecar_state"
      (if truthy state && not (value_eq state (text "ACCEPTED")) then state else text "RECEIVED")
      (field "sidecar_state_version" (get_either "sidecar_state_version" "state_version" r) (
        field "sidecar_state_transition_id"
          (get_either "sidecar_state_transition_id" "state_transition_id" r)
          (field "sidecar_state_updated_at"
            (get_either "sidecar_state_updated_at" "state_updated_at" r) r)))

-- the fields of `_has_unsafe_sidecar_evidence`
abbrev evidence_fields : List String
evidence_fields =
    "source_seqno" ∷ "nonce" ∷ "nonce_or_seqno" ∷ "signed_boc_ref" ∷ "signed_boc_hash"
    ∷ "signed_raw_tx_ref" ∷ "signed_raw_tx_hash" ∷ "signed_payload_storage_ref"
    ∷ "signed_payload_hash" ∷ "message_hash" ∷ "tx_hash" ∷ "txid_or_message_hash"
    ∷ "broadcast_attempted_at" ∷ []

pub has_unsafe_sidecar_evidence : Fields → Bool
has_unsafe_sidecar_evidence status =
    any (λ f. not (is_null (get f status))) evidence_fields
    || truthy (get "txids" status)
    || truthy (get "message_hashes" status)

-- `READY_STATES` and `POLL_STATES`
abbrev pub ready_states : List State
ready_states = created ∷ preflighted ∷ enqueueing ∷ []

abbrev pub poll_states : List State
poll_states = enqueued ∷ broadcast ∷ []

-- the environments of the transitions of one dispatch
pub record Envs : Type 0 where
  pub preflight_env : Env
  pub enqueue_env : Env
  pub outcome_env : Env

module _ ⦃ctx : Context⦄ where
  pub should_recover_orphan : Env → Execution → Fields → Bool
  should_recover_orphan env e status =
      let sidecar_state = get_either "sidecar_state" "state" status in
      state_eq e.state enqueued
      && (value_eq sidecar_state (text "RECEIVED") || value_eq sidecar_state (text "VALIDATED"))
      && not (has_unsafe_sidecar_evidence status)
      && elim (parse_sidecar_datetime
          (get_either "sidecar_state_updated_at" "state_updated_at" status)) [
            | none ↦ false
            | some updated_at ↦ leb (updated_at + seconds ctx.orphan_recovery_min_age_sec) env.now
          ]

  -- `_preflight`
  pub preflight_reply : Env → Session → Reply → Result (Unit {0}) × Session
  preflight_reply env s (response r) =
      if is_error r
      then transition env
          (failed_move preflight (or_value (get "code" r) (text "SIDECAR_PREFLIGHT_FAILED"))
            (message_of r "Sidecar preflight failed"))
          s.execution s
      else transition env (plain_move preflighted) s.execution s
  preflight_reply env s (status_unavailable payload message) = (
    ok tt,
    touch
        (postpone env (or_value (get "code" payload) (text "SIDECAR_PREFLIGHT_UNAVAILABLE"))
          (or_value (get "message" payload) (text message)) (preflight_retry_delay s.execution))
        s,
  )
  preflight_reply env s (request_refused x message) =
      transition env (failed_move preflight (text x.code) (text message)) s.execution s
  preflight_reply env s reply = (err (uncaught reply), s)

  -- `_submit`, from the answer on
  pub submit_reply : Env → Session → Reply → Result (Unit {0}) × Session
  submit_reply env s (response r) =
      if is_error r
      then transition env
          (failed_move worker_unavailable (or_value (get "code" r) (text "SIDECAR_SUBMIT_REJECTED"))
            (message_of r "Sidecar submit rejected"))
          s.execution s
      else apply_sidecar_status env s (accepted_submit_status r)
  submit_reply env s (submit_timeout message) =
      transition env (doubt_move sidecar_timeout "SIDECAR_SUBMIT_TIMEOUT" message) s.execution s
  submit_reply env s (status_unavailable payload message) =
      transition env (doubt_move ambiguous "SIDECAR_SUBMIT_UNKNOWN" message) s.execution s
  submit_reply env s reply = (err (uncaught reply), s)

  after_enqueue : Envs → Client → Result (Unit {0}) × Session → Run
  after_enqueue envs client (err x, s) = (err x, s, [])
  after_enqueue envs client (ok u, s) =
      run (submit_call ∷ []) (submit_reply envs.outcome_env s (client.submit s.execution))

  -- `_submit`, called in state PREFLIGHTED
  pub submit : Envs → Client → Session → Run
  submit envs client s =
      after_enqueue envs client (transition envs.enqueue_env (plain_move enqueueing) s.execution s)

  -- `_recover_enqueueing`
  pub recover_reply : Env → Session → Reply → Result (Unit {0}) × Session
  recover_reply env s (response r) = apply_sidecar_status env s r
  recover_reply env s (not_found message) =
      transition env
        (doubt_move ambiguous "SIDECAR_EXECUTION_NOT_FOUND_AFTER_SUBMIT_WINDOW"
          "Sidecar did not find an ENQUEUEING payout execution. The submit window is ambiguous and must be resolved manually.")
        s.execution s
  recover_reply env s (status_unavailable payload message) =
      transition env (doubt_move ambiguous "SIDECAR_STATUS_UNAVAILABLE" message) s.execution s
  recover_reply env s reply = (err (uncaught reply), s)

  -- `_poll_sidecar_status`, from the last answer on
  pub poll_reply : Env → Session → Reply → Result (Unit {0}) × Session
  poll_reply env s (response r) = apply_sidecar_status env s r
  poll_reply env s (not_found message) =
      transition env
        (doubt_move ambiguous "SIDECAR_EXECUTION_LOST" "Sidecar lost an accepted payout execution")
        s.execution s
  poll_reply env s (status_unavailable payload message) =
      (ok tt, touch (postpone env (text "PAYOUT_DISPATCH_EXCEPTION") (text message) 300) s)
  poll_reply env s reply = (err (uncaught reply), s)

  poll_first : Env → Client → Session → Reply → Run
  poll_first env client s (response r) =
      if should_recover_orphan env s.execution r
      then run (status_call ∷ recover_call ∷ [])
          (poll_reply env s (client.recover_orphan s.execution))
      else run (status_call ∷ []) (poll_reply env s (response r))
  poll_first env client s reply = run (status_call ∷ []) (poll_reply env s reply)

  pub poll_sidecar_status : Env → Client → Session → Run
  poll_sidecar_status env client s = poll_first env client s (client.status s.execution)

  after_preflight : Envs → Client → Result (Unit {0}) × Session → Run
  after_preflight envs client (err x, s) = (err x, s, preflight_call ∷ [])
  after_preflight envs client (ok u, s) =
      let (r, t, calls) = submit envs client s in
      if state_eq s.execution.state preflighted
      then (r, t, preflight_call ∷ calls)
      else (ok tt, s, preflight_call ∷ [])

  count_attempt : Session → Session
  count_attempt s = touch (λ e. record e { dispatch_attempts = e.dispatch_attempts + 1 }) s

  -- the branches of `dispatch_one`, by the state
  by_state : Envs → Client → Session → Run
  by_state envs client s =
      if state_eq s.execution.state created
      then after_preflight envs client
          (preflight_reply envs.preflight_env s (client.preflight s.execution))
      else if state_eq s.execution.state preflighted
      then submit envs client s
      else if state_eq s.execution.state enqueueing
      then run (status_call ∷ []) (recover_reply envs.outcome_env s (client.status s.execution))
      else if state_in s.execution.state poll_states
      then poll_sidecar_status envs.outcome_env client s
      else (ok tt, s, [])

  pub dispatch_one : Envs → Client → Session → Run
  dispatch_one envs client s = by_state envs client (count_attempt s)
