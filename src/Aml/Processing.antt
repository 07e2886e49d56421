-- ===== src/Aml/Processing.antt =====
-- shkeeper/services/aml_processing.py: the life of a check. The state is the table of transactions,
-- each with its check; an operation returns the row after it. One reading of the clock, `now`,
-- stands for those that an operation makes, and the HTTP requests are a parameter.
pub mod Tracked
pub mod Timeout
pub mod Approval
pub mod Life
mod Tests
use Prim.Native.String.{◌++◌ as append}
use shkeeper_io.Prelude.{
  ℕ, suc, ◌+◌, Bool, true, false, not, ◌&&◌, ◌||◌, String, Option, none, some, List, [], ◌∷◌, leb,
  str_eq, is_some, or_else, if◌then◌else◌,
}
use shkeeper_io.Prelude.Json.{Value, null, text, dict, Fields, end, field, get, is_null, or_value}
use shkeeper_io.Errors.{Result, ok, err, ◌>>=◌}
use shkeeper_io.Context.{Context, seconds}
use shkeeper_io.Sweep.{is_sweep_guarded_crypto}
use shkeeper_io.Aml.Coverage.{Coverage, get_coverage_policy, is_supported}
use shkeeper_io.Aml.Check.{
  Library, AmlCheck, Transaction, AmlStatus, pending, checking, manual_review, hold_for_review,
}
use shkeeper_io.Aml.Client.{Http, Answer, result, raised, request_result}
use shkeeper_io.Aml.Policy.{
  optional, is_text, base_check, build_skipped_check, should_skip_aml, build_deposit_id,
  build_idempotency_key,
}
use shkeeper_io.Aml.Policy.Decide.{is_terminal, decision_from_provider_result}

-- the requests of the client: `post` of a new check, and `get` of a check by its deposit
pub record Sidecar : Type 0 where
  pub post : Fields → Http
  pub get_check : String → Http

-- the filter of `process_pending_aml_checks`
abbrev is_open : AmlStatus → Bool
is_open pending = true
is_open checking = true
is_open _ = false

abbrev not_after : Option ℕ → ℕ → Bool
not_after none now = true
not_after (some t) now = leb t now

-- `t and t <= now`
abbrev pub has_passed : Option ℕ → ℕ → Bool
has_passed none now = false
has_passed (some t) now = leb t now

abbrev pub earlier_of : Option ℕ → Option ℕ → Option ℕ
earlier_of (some t) other = some t
earlier_of none other = other

-- `_is_retryable_sidecar_error`
pub is_retryable_sidecar_error : Fields → Bool
is_retryable_sidecar_error fs =
    is_text "aml-shkeeper" (get "error_source" fs) && is_text "error" (get "provider_status" fs)

-- `_client_exception_result`
client_exception_result : String → Fields
client_exception_result message = field "status" (text "transport_error") (
    field "provider_status" (text "error") (
      field "error_source" (text "aml-shkeeper") (
        field "error_code" (text "aml_shkeeper_exception")
          (field "error_message" (text message) end))))

abbrev pub result_of : Answer → Fields
unfolding client_exception_result
result_of (result fs) = fs
result_of (raised message) = client_exception_result message

module _ ⦃ctx : Context⦄ ⦃lib : Library⦄ where
  abbrev pub Row : Type 0
  Row = Transaction lib.Number

  abbrev pub Check : Type 0
  Check = AmlCheck lib.Number

  -- `_now() + _retry_delay()`
  abbrev pub retry_at : ℕ → ℕ
  retry_at now = now + seconds lib.retry_delay_seconds

  -- `_timeout_at`
  abbrev pub timeout_from : ℕ → ℕ
  timeout_from now = now + seconds lib.pending_timeout_seconds

  -- `_apply_snapshot`
  pub apply_snapshot : Check → Check → Check
  apply_snapshot target source = record source {
    transaction_id = target.transaction_id;
    deposit_id = target.deposit_id;
    idempotency_key = target.idempotency_key;
    sweep_guard_required = target.sweep_guard_required;
    create_check_submitted = target.create_check_submitted;
    timeout_at = earlier_of source.timeout_at target.timeout_at;
  }

  -- `_payload_for_sidecar`; a check always has a threshold
  pub payload_for_sidecar : Row → Check → Fields
  payload_for_sidecar tx check = field "deposit_id" (text check.deposit_id) (
      field "idempotency_key" (text check.idempotency_key) (
        field "crypto" (text tx.crypto) (
          field "txid" (text tx.txid) (
            field "address" (text tx.addr) (
              field "amount_crypto" (text (lib.written tx.amount_crypto)) (
                field "asset" check.asset (
                  field "network" check.network (
                    field "direction" (text "deposit") (
                      field "threshold"
                        (elim (check.threshold) [
                          | none ↦ text "None"
                          | some t ↦ text (lib.written t)
                        ])
                        end)))))))))

  -- `_pending_check`
  pub pending_check : ℕ → Row → Check
  pending_check now tx =
      let policy = get_coverage_policy lib.provider tx.crypto in
      record (base_check tx) {
        provider = text policy.provider;
        provider_status = text "pending";
        status = pending;
        sweep_guard_required = is_sweep_guarded_crypto tx.crypto;
        asset = optional policy.asset;
        network = optional policy.network;
        timeout_at = some (timeout_from now);
      }

  -- the defaults of the columns that a new row leaves unset
  pub with_defaults : Check → Check
  with_defaults check = record check {
    signals_json = if is_null check.signals_json then text "{}" else check.signals_json;
    attempts = some (or_else check.attempts 0);
  }

  -- the next retry of a check that a decision was copied to
  pub reschedule : ℕ → Check → Check
  reschedule now check = record check {
    next_retry_at =
        if is_terminal check.status
        then none
        else some (or_else check.next_retry_at (retry_at now));
  }

  -- `_resolve_from_result`
  pub resolve_from_result : ℕ → Row → Check → Fields → Result Check
  resolve_from_result now tx check fs = do
    decision ← decision_from_provider_result tx fs
    ok (reschedule now (apply_snapshot check decision))

  -- `_resolve_retryable_sidecar_error`
  pub resolve_retryable_sidecar_error : ℕ → Check → Fields → Check
  resolve_retryable_sidecar_error now check fs = record check {
    status = checking;
    provider_status = text "checking";
    deposit_decision = none;
    decision_reason = null;
    error_code = or_value (get "error_code" fs) (text "aml_shkeeper_error");
    error_message = get "error_message" fs;
    raw_response_json = text (lib.dumps (dict fs));
    attempts = some (or_else check.attempts 0 + 1);
    next_retry_at = some (retry_at now);
    timeout_at = earlier_of check.timeout_at (some (timeout_from now));
  }

  -- `_resolve_client_result`
  pub resolve_client_result : ℕ → Row → Check → Fields → Result Check
  resolve_client_result now tx check fs =
      if is_retryable_sidecar_error fs
      then ok (resolve_retryable_sidecar_error now check fs)
      else resolve_from_result now tx check fs

  -- the flag is set where the client returned
  pub submitted : Answer → Check → Check
  submitted (result fs) check = record check {
    create_check_submitted = not (is_retryable_sidecar_error fs);
  }
  submitted (raised message) check = check

  -- `_create_check_with_sidecar`
  pub create_check_with_sidecar : Sidecar → ℕ → Row → Check → Result Check
  create_check_with_sidecar sidecar now tx check =
      let answer = request_result (sidecar.post (payload_for_sidecar tx check)) in
      resolve_client_result now tx (submitted answer check) (result_of answer)

  -- `_resolve_timeout`
  pub resolve_timeout : Check → Check
  resolve_timeout check = record check {
    status = manual_review;
    deposit_decision = some hold_for_review;
    decision_reason = text "aml_pending_timeout";
    provider_status = text "timeout";
    error_code = or_value check.error_code (text "aml_pending_timeout");
    error_message = or_value check.error_message (text "AML provider result timed out");
    next_retry_at = none;
  }

  -- the row with its check; where the last step raised, the row that was committed before it
  abbrev pub stored : Row → Result Check → Row
  stored tx (ok check) = record tx { aml_check = some check }
  stored tx (err e) = tx

  -- a new check is committed before the sidecar is asked
  unfoldable pub start_check : Sidecar → ℕ → Row → Check → Row
  start_check sidecar now tx check =
      stored (record tx { aml_check = some check }) (create_check_with_sidecar sidecar now tx check)

  unfoldable pub create_aml : Sidecar → ℕ → List Row → Row → Row
  create_aml sidecar now table tx =
      if should_skip_aml now table tx
      then record tx { aml_check = some (with_defaults (build_skipped_check now table tx)) }
      else start_check sidecar now tx (with_defaults (pending_check now tx))

  -- `ensure_aml_for_transaction`: the row after it
  unfoldable pub ensure_aml_for_transaction : Sidecar → ℕ → List Row → Row → Row
  ensure_aml_for_transaction sidecar now table tx =
      if tx.outgoing || is_some tx.aml_check
      then tx
      else if is_supported (get_coverage_policy lib.provider tx.crypto)
      then create_aml sidecar now table tx
      else tx

  -- what the sidecar says of a check that was submitted
  abbrev polled : Sidecar → Check → Fields
  polled sidecar check = result_of (request_result (sidecar.get_check check.deposit_id))

  -- `refresh_aml_check`
  pub refresh_aml_check : Sidecar → ℕ → Row → Check → Result Check
  refresh_aml_check sidecar now tx check =
      if has_passed check.timeout_at now
      then ok (resolve_timeout check)
      else if check.create_check_submitted
      then resolve_client_result now tx check (polled sidecar check)
      else create_check_with_sidecar sidecar now tx check

  -- a row that the query selects, in the body of the loop
  process_check : Sidecar → ℕ → Row → Check → Result Check
  process_check sidecar now tx check =
      if has_passed check.timeout_at now
      then ok (resolve_timeout check)
      else refresh_aml_check sidecar now tx check

  abbrev pub is_due : ℕ → Check → Bool
  is_due now check = is_open check.status && not_after check.next_retry_at now

  abbrev kept : Row → Result Check → Result Row
  kept tx (ok check) = ok (record tx { aml_check = some check })
  kept tx (err e) = err e

  -- one row, which the loop leaves alone or updates, or at which it raises
  pub process_row : Sidecar → ℕ → Row → Option Check → Result Row
  process_row sidecar now tx none = ok tx
  process_row sidecar now tx (some check) =
      if is_due now check then kept tx (process_check sidecar now tx check) else ok tx

  -- the table from a row on, where the rest of the loop leaves `after`
  abbrev continued : Row → List Row → List Row → Result Row → List Row
  continued tx rest after (ok row) = row ∷ after
  continued tx rest after (err e) = tx ∷ rest

  -- `process_pending_aml_checks`: the table after it. Each row is committed by itself; an exception
  -- ends the loop.
  pub process_pending_aml_checks : Sidecar → ℕ → List Row → List Row
  process_pending_aml_checks sidecar now [] = []
  process_pending_aml_checks sidecar now (tx ∷ rest) =
      let after = process_pending_aml_checks sidecar now rest in
      continued tx rest after (process_row sidecar now tx tx.aml_check)

  unfoldable pub allowed_by : Row → Option Check → Bool
  allowed_by tx none = not (is_supported (get_coverage_policy lib.provider tx.crypto))
  allowed_by tx (some check) = is_terminal check.status

  -- `is_callback_allowed`
  unfoldable pub is_callback_allowed : Row → Bool
  is_callback_allowed tx = tx.outgoing || allowed_by tx tx.aml_check
