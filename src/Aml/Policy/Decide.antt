-- ===== src/Aml/Policy/Decide.antt =====
-- `decision_from_provider_result` and `is_terminal` of shkeeper/services/aml_policy.py.
pub mod Approves
use shkeeper_io.Prelude.{
  ℕ, Bool, true, false, not, ◌&&◌, ◌||◌, String, Option, none, some, List, [], ◌∷◌, any, str_eq,
  is_some, if◌then◌else◌,
}
use shkeeper_io.Prelude.Json.{Value, null, text, dict, num, Fields, get, or_value, truthy}
use shkeeper_io.Errors.{Result, ok, err, raise}
use shkeeper_io.Context.{Context}
use shkeeper_io.Payout.Sidecar.Status.{to_int}
use shkeeper_io.Aml.Coverage.{Coverage, get_coverage_policy, is_supported}
use shkeeper_io.Aml.Check.{
  Library, AmlCheck, Transaction, AmlStatus, pending, checking, approved, declined, skipped,
  manual_review, credit, hold_for_review,
}
use shkeeper_io.Aml.Policy.{
  is_text, optional, has_alerts, is_true, decimal_of, signals_json, signals_dict, datetime_of,
  base_check, unsupported_check,
}

abbrev pub is_terminal : AmlStatus → Bool
is_terminal approved = true
is_terminal declined = true
is_terminal skipped = true
is_terminal manual_review = true
is_terminal _ = false

-- `v in words`
abbrev is_one_of : List String → Value → Bool
is_one_of words v = any (λ w. is_text w v) words

-- the provider has no result yet
abbrev pub is_undecided : Fields → Bool
is_undecided result =
    is_one_of ("pending" ∷ "checking" ∷ []) (get "provider_status" result)
    || is_one_of ("pending" ∷ "checking" ∷ "rechecking" ∷ []) (get "status" result)

module _ ⦃ctx : Context⦄ ⦃lib : Library⦄ where
  -- the check goes to a person, for this reason
  abbrev pub for_review : String → AmlCheck lib.Number → AmlCheck lib.Number
  for_review reason check = record check {
    status = manual_review;
    deposit_decision = some hold_for_review;
    decision_reason = text reason;
  }

  -- `check.error_code or code`
  abbrev with_code : String → AmlCheck lib.Number → AmlCheck lib.Number
  with_code code check = record check { error_code = or_value check.error_code (text code) }

  -- the fields that are copied from the answer, with these attempts
  unfoldable pub copied : Transaction lib.Number → Fields → ℕ → AmlCheck lib.Number
  unfolding base_check decimal_of signals_json datetime_of
  copied tx result attempts =
      let policy = get_coverage_policy lib.provider tx.crypto in
      record (base_check tx) {
        provider =
            or_value (get "provider" result) (or_value (text policy.provider) (text "koinkyt"));
        provider_status = get "provider_status" result;
        status = checking;
        score = decimal_of (or_value (get "score" result) (get "risk_score" result));
        threshold = some lib.max_accept_score;
        uid = get "uid" result;
        asset = or_value (get "asset" result) (optional policy.asset);
        network = or_value (get "network" result) (optional policy.network);
        signals_json = signals_json (get "signals" result);
        raw_response_json = signals_json (or_value (get "raw_response" result) (dict result));
        report_url = get "report_url" result;
        error_code = get "error_code" result;
        error_message = get "error_message" result;
        attempts = some attempts;
        next_retry_at = datetime_of (get "next_retry_at" result);
        timeout_at = datetime_of (get "timeout_at" result);
      }

  -- the branches from the one on alerts on, at a score
  unfoldable pub by_score : Fields → lib.Number → AmlCheck lib.Number → AmlCheck lib.Number
  unfolding has_alerts is_true
  by_score signals score check =
      if has_alerts signals
      then for_review "risk_profile_alert" check
      else if is_true (get "too_many_indirects" signals)
      then for_review "too_many_indirects" check
      else if lib.at_most score lib.max_accept_score
      then record check {
        status = approved;
        deposit_decision = some credit;
        decision_reason = text "score_below_threshold";
      }
      else for_review "risk_score_above_threshold" check

  unfoldable pub by_signals : Fields → Option lib.Number → AmlCheck lib.Number → AmlCheck lib.Number
  unfolding by_score
  by_signals signals none check =
      with_code "incomplete_aml_result" (for_review "incomplete_aml_result" check)
  by_signals signals (some score) check = by_score signals score check

  -- the branches, on the status and the provider's status
  unfoldable pub judge : Fields → AmlCheck lib.Number → AmlCheck lib.Number
  unfolding by_signals signals_dict
  judge result check =
      let status = get "status" result in
      let provider_status = get "provider_status" result in
      if is_text "timeout" status || is_text "timeout" provider_status
      then record (with_code "aml_pending_timeout" (for_review "aml_pending_timeout" check)) {
        error_message = or_value check.error_message (text "AML provider result timed out");
      }
      else if is_text "missing_risk_score" check.error_code
      then for_review "incomplete_aml_result" check
      else if is_text "failed" status || is_text "error" provider_status
      then with_code "aml_provider_error" (for_review "aml_provider_error" check)
      else if is_undecided result
      then record check { status = checking }
      else by_signals (signals_dict (get "signals" result)) check.score check

  abbrev judged : Transaction lib.Number → Fields → Option ℕ → Result (AmlCheck lib.Number)
  judged tx result none = raise "ValueError" 500
  judged tx result (some attempts) = ok (judge result (copied tx result attempts))

  -- an `attempts` that is no number raises
  unfoldable pub decision_from_provider_result :
      Transaction lib.Number → Fields → Result (AmlCheck lib.Number)
  unfolding judge copied
  decision_from_provider_result tx result =
      if is_supported (get_coverage_policy lib.provider tx.crypto)
      then judged tx result (to_int (or_value (get "attempts" result) (num 0)))
      else ok (unsupported_check tx)
