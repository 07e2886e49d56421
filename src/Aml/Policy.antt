-- ===== src/Aml/Policy.antt =====
-- shkeeper/services/aml_policy.py: whether a deposit needs a check, and what an answer of the
-- provider decides. `now` stands for the clock, in microseconds.
pub mod Decide
use Prim.Native.Char.{Char, code}
use Prim.Native.String.{◌++◌ as append}
use shkeeper_io.Prelude.{
  ℕ, ◌+◌, ◌-◌, ◌*◌, Bool, true, false, not, ◌&&◌, ◌||◌, String, Option, none, some, List, [], ◌∷◌,
  any, leb, ◌==◌, str_eq, is_some, if◌then◌else◌,
}
use shkeeper_io.Prelude.Text.{lower}
use shkeeper_io.Prelude.Json.{
  Value, null, bool, text, list, dict, Fields, end, Items, nil, get, is_null, truthy, or_value,
}
use shkeeper_io.Prelude.Numerals.{show}
use shkeeper_io.Context.{Context, str, seconds}
use shkeeper_io.Aml.Coverage.{Coverage, get_coverage_policy}
use shkeeper_io.Aml.Check.{
  Library, AmlCheck, Transaction, AmlStatus, pending, skipped, DepositDecision, credit,
}

-- an optional text as the value of a dict
abbrev pub optional : Option String → Value
optional none = null
optional (some s) = text s

-- `v == s`
abbrev pub is_text : String → Value → Bool
is_text s (text t) = str_eq t s
is_text s _ = false

-- `s.replace("Z", "+00:00")`
unfoldable pub replace_z : String → String
replace_z String.[] = ""
replace_z (String.◌∷◌ c rest) =
    let more = replace_z rest in if code c == b'Z' then append "+00:00" more else String.◌∷◌ c more

-- `_has_alerts`
unfoldable pub has_alerts : Fields → Bool
has_alerts signals = elim (get "alerts" signals) [
  | null ↦ false
  | text s ↦ not (str_eq s "")
  | list nil ↦ false
  | dict end ↦ false
  | _ ↦ true
]

-- `_is_true`
unfoldable pub is_true : Value → Bool
unfolding lower
is_true (bool b) = b
is_true (text s) = any (str_eq (lower s)) ("1" ∷ "true" ∷ "yes" ∷ [])
is_true v = truthy v

unfoldable pub build_deposit_id : ℕ → String
unfolding show
build_deposit_id id = append "shkeeper-tx-" (show id)

module _ ⦃ctx : Context⦄ ⦃lib : Library⦄ where
  unfoldable pub build_idempotency_key : Transaction lib.Number → String
  unfolding build_deposit_id
  build_idempotency_key tx =
      append tx.crypto (append ":" (append tx.txid (append ":" (build_deposit_id tx.id))))

  -- `_decimal`
  unfoldable pub decimal_of : Value → Option lib.Number
  decimal_of null = none
  decimal_of v = lib.decimal v

  -- `_signals_json`
  unfoldable pub signals_json : Value → Value
  signals_json (text s) = if str_eq s "" then text "{}" else text s
  signals_json v = if truthy v then text (lib.dumps v) else text "{}"

  dict_of : Option Value → Fields
  dict_of (some (dict fs)) = fs
  dict_of _ = end

  -- `_signals_dict`
  unfoldable pub signals_dict : Value → Fields
  unfolding dict_of
  signals_dict (dict fs) = fs
  signals_dict (text s) = if str_eq s "" then end else dict_of (lib.loads s)
  signals_dict _ = end

  -- `_datetime`
  unfoldable pub datetime_of : Value → Option ℕ
  unfolding replace_z str
  datetime_of null = none
  datetime_of v = lib.fromisoformat (replace_z (str v))

  -- `_base_check`; what it leaves unset is `None` or, for the two flags, false
  unfoldable pub base_check : Transaction lib.Number → AmlCheck lib.Number
  unfolding build_deposit_id build_idempotency_key get_coverage_policy
  base_check tx = record {
    transaction_id = tx.id;
    deposit_id = build_deposit_id tx.id;
    idempotency_key = build_idempotency_key tx;
    provider =
        or_value (text (get_coverage_policy lib.provider tx.crypto).provider) (text "koinkyt");
    provider_status = null;
    status = pending;
    sweep_guard_required = false;
    create_check_submitted = false;
    deposit_decision = none;
    decision_reason = null;
    score = none;
    threshold = some lib.max_accept_score;
    uid = null;
    asset = null;
    network = null;
    signals_json = null;
    raw_response_json = null;
    report_url = null;
    error_code = null;
    error_message = null;
    skip_reason = none;
    min_check_amount_fiat = none;
    cumulative_window = none;
    cumulative_amount_fiat = none;
    cumulative_limit_fiat = none;
    attempts = none;
    next_retry_at = none;
    timeout_at = none;
  }

  -- `amount or Decimal("0")`
  abbrev pub or_zero : Option lib.Number → lib.Number
  or_zero none = lib.zero_amount
  or_zero (some n) = n

  -- the check was skipped because its amount was small
  skipped_as_small : Option (AmlCheck lib.Number) → Bool
  skipped_as_small none = false
  skipped_as_small (some c) = elim (c.status) [
    | skipped ↦ elim (c.skip_reason) [ some r ↦ str_eq r "amount_below_threshold" | none ↦ false ]
    | _ ↦ false
  ]

  -- the rows of the query, and the comparison of the addresses
  unfoldable pub counts_before : ℕ → Transaction lib.Number → Transaction lib.Number → Bool
  unfolding skipped_as_small
  counts_before window_start tx other =
      skipped_as_small other.aml_check
      && str_eq other.crypto tx.crypto
      && leb window_start other.created_at
      && str_eq other.external_id tx.external_id
      && not (other.id == tx.id)
      && str_eq other.addr tx.addr

  -- `_skipped_total_before`, over the table of transactions
  unfoldable pub skipped_total_before :
      ℕ → Transaction lib.Number → lib.Number → List (Transaction lib.Number) → lib.Number
  unfolding counts_before
  skipped_total_before window_start tx total [] = total
  skipped_total_before window_start tx total (other ∷ rest) =
      skipped_total_before window_start tx
        (if counts_before window_start tx other
          then lib.plus total (or_zero other.amount_fiat)
          else total)
        rest

  unfoldable pub skipped_cumulative_amount :
      ℕ → List (Transaction lib.Number) → Transaction lib.Number → lib.Number
  unfolding skipped_total_before
  skipped_cumulative_amount now table tx =
      let window_start = now - seconds (lib.skip_cumulative_window_hours * 3600) in
      lib.plus (skipped_total_before window_start tx lib.zero_amount table) (or_zero tx.amount_fiat)

  pub should_skip_aml : ℕ → List (Transaction lib.Number) → Transaction lib.Number → Bool
  unfolding skipped_cumulative_amount
  should_skip_aml now table tx =
      if lib.at_most lib.min_check_amount_fiat (or_zero tx.amount_fiat)
      then false
      else lib.at_most (skipped_cumulative_amount now table tx) lib.skip_cumulative_limit_fiat

  unfoldable pub build_skipped_check :
      ℕ → List (Transaction lib.Number) → Transaction lib.Number → AmlCheck lib.Number
  unfolding base_check skipped_cumulative_amount show
  build_skipped_check now table tx = record (base_check tx) {
    status = skipped;
    deposit_decision = some credit;
    decision_reason = text "amount_below_aml_threshold";
    skip_reason = some "amount_below_threshold";
    min_check_amount_fiat = some lib.min_check_amount_fiat;
    cumulative_window = some (append (show lib.skip_cumulative_window_hours) "h");
    cumulative_amount_fiat = some (skipped_cumulative_amount now table tx);
    cumulative_limit_fiat = some lib.skip_cumulative_limit_fiat;
  }

  unfoldable pub unsupported_check : Transaction lib.Number → AmlCheck lib.Number
  unfolding base_check
  unsupported_check tx =
      let policy = get_coverage_policy lib.provider tx.crypto in
      let reason = or_value (optional policy.reason) (text "unsupported_asset") in
      record (base_check tx) {
        status = skipped;
        provider_status = text "unsupported";
        deposit_decision = some credit;
        decision_reason = reason;
        error_code = reason;
        error_message = text "AML provider does not support this asset";
        provider = or_value (text policy.provider) (base_check tx).provider;
        asset = optional policy.asset;
        network = optional policy.network;
      }
