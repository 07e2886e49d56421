-- ===== src/Aml/Check.antt =====
-- The rows that the AML services read and write (shkeeper/models.py), and what they call of
-- `decimal`, `datetime` and `json`, as a parameter with no laws, with their settings. Every amount
-- is of the type of that parameter. A number that is not a number is not modelled.
use shkeeper_io.Prelude.{ℕ, Bool, String, Option}
use shkeeper_io.Prelude.Json.{Value}

pub record Library : Type 1 where
  pub Number : Type 0
  pub zero_amount : Number
  pub plus : Number → Number → Number
  -- `a <= b`
  pub at_most : Number → Number → Bool
  -- `Decimal(str(v))`, `none` where it raises
  pub decimal : Value → Option Number
  -- `str(n)`
  pub written : Number → String
  -- `("%.10f" % n).rstrip("0").rstrip(".")`
  pub fixed : Number → String
  -- `json.dumps(v, sort_keys=True)`; `json.loads(s)`, `none` where it raises
  pub dumps : Value → String
  pub loads : String → Option Value
  -- `datetime.fromisoformat(s)` without its zone, `none` where it raises
  pub fromisoformat : String → Option ℕ
  -- settings, under the names of `current_app.config` without `AML_`
  pub provider : String
  pub min_check_amount_fiat : Number
  pub skip_cumulative_limit_fiat : Number
  pub skip_cumulative_window_hours : ℕ
  pub max_accept_score : Number
  pub retry_delay_seconds : ℕ
  pub pending_timeout_seconds : ℕ

-- `AmlStatus`
pub data AmlStatus : Type 0 where
  pending checking approved declined skipped manual_review : AmlStatus

-- `DepositDecision`
pub data DepositDecision : Type 0 where
  credit hold_for_review : DepositDecision

-- `AmlCheck`. A column that is copied from a provider's answer holds what the answer holds.
pub record AmlCheck (Number : Type 0) : Type 0 where
  pub transaction_id : ℕ
  pub deposit_id : String
  pub idempotency_key : String
  pub provider : Value
  pub provider_status : Value
  pub status : AmlStatus
  pub sweep_guard_required : Bool
  pub create_check_submitted : Bool
  pub deposit_decision : Option DepositDecision
  pub decision_reason : Value
  pub score : Option Number
  pub threshold : Option Number
  pub uid : Value
  pub asset : Value
  pub network : Value
  pub signals_json : Value
  pub raw_response_json : Value
  pub report_url : Value
  pub error_code : Value
  pub error_message : Value
  pub skip_reason : Option String
  pub min_check_amount_fiat : Option Number
  pub cumulative_window : Option String
  pub cumulative_amount_fiat : Option Number
  pub cumulative_limit_fiat : Option Number
  pub attempts : Option ℕ
  pub next_retry_at : Option ℕ
  pub timeout_at : Option ℕ

-- `Transaction`, with what is read of its invoice: whether it is OUTGOING, and its external id
pub record Transaction (Number : Type 0) : Type 0 where
  pub id : ℕ
  pub crypto : String
  pub txid : String
  pub addr : String
  pub amount_crypto : Number
  pub amount_fiat : Option Number
  pub created_at : ℕ
  pub outgoing : Bool
  pub external_id : String
  pub need_more_confirmations : Bool
  pub callback_confirmed : Bool
  pub aml_check : Option (AmlCheck Number)
