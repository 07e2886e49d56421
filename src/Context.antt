-- ===== src/Context.antt =====
-- What the services call and do not implement (`hashlib`, `hmac`, `json`, `urllib`, ISO dates),
-- as parameters with no laws, and the settings of `current_app.config` that they read.
use Prim.Native.String.{◌++◌ as append}
use shkeeper_io.Prelude.{ℕ, ◌/◌, ◌^◌, ◌*◌, Bool, String, Option, List, if◌then◌else◌}
use shkeeper_io.Prelude.Json.{Value, null, bool, num, float, text, dict, Fields, end, truthy}
use mathlib.Core.Bool.{true, false}
use shkeeper_io.Prelude.Numerals.{show, digit}

-- `urlsplit(url)`
pub record Url : Type 0 where
  pub scheme : String
  pub netloc : String
  pub path : String
  pub query : String

-- `Decimal(text)`: not a number or infinite, or a sign, a coefficient and a power of ten
pub data Decimal : Type 0 where
  not_finite : Decimal
  finite_up finite_down : Bool → ℕ → ℕ → Decimal

pub record Context : Type 0 where
  pub sha256_hex : String → String
  pub hmac_sha256 : String → String → String
  -- `json.dumps(v, sort_keys=True, separators=(",", ":"))` and `json.loads`
  pub dumps : Value → String
  pub loads : String → Fields
  pub urlsplit : String → Url
  -- `hashlib.sha256(data).digest()`, `base64.urlsafe_b64decode`, on bytes
  pub sha256 : List ℕ → List ℕ
  pub urlsafe_b64decode : String → Option (List ℕ)
  -- `Decimal(text)`: the value is the coefficient times ten to the power, or to minus the power
  pub decimal : String → Option Decimal
  -- `datetime.fromisoformat`, taken to UTC, and `isoformat`
  pub fromisoformat : String → Option ℕ
  pub isoformat : ℕ → String
  -- `str(v)` of a list or a dict
  pub repr : Value → String
  -- settings, under the names of `current_app.config` in lower case
  pub payout_callback_keys : Value
  pub payout_callback_keys_json : Value
  pub payout_consumer_keys : Value
  pub payout_consumer_keys_json : Value
  pub payout_callback_endpoints : Value
  pub payout_callback_endpoints_json : Value
  pub orphan_recovery_min_age_sec : ℕ

-- What one call reads of the clock and of `uuid.uuid4()`. `now` is in microseconds, `timestamp` is
-- `int(time.time())`.
pub record Env : Type 0 where
  pub now : ℕ
  pub timestamp : ℕ
  pub transition_id : String
  pub event_id : String

-- `timedelta(seconds=n)`
abbrev pub seconds : ℕ → ℕ
seconds n = n * 1000000

-- `format(Decimal(amount).quantize(Decimal("0.000001")), "f")`, for an amount in millionths
unfoldable pub format_amount : ℕ → String
unfolding show digit
format_amount n = append (show (n / 10 ^ 6)) (
    append "." (
      append (digit (n / 10 ^ 5)) (
        append (digit (n / 10 ^ 4)) (
          append (digit (n / 10 ^ 3))
            (append (digit (n / 10 ^ 2)) (append (digit (n / 10)) (digit n)))))))

module _ ⦃ctx : Context⦄ where
  -- `str(v)`
  unfoldable pub str : Value → String
  str null = "None"
  str (bool true) = "True"
  str (bool false) = "False"
  str (num n) = show n
  str (float s) = s
  str (text s) = s
  str v = ctx.repr v

  -- `_load_mapping`: a mapping, or its JSON text
  unfoldable pub load_mapping : Value → Fields
  load_mapping (dict fs) = fs
  load_mapping (text s) = if truthy (text s) then ctx.loads s else end
  load_mapping _ = end

  -- `compact_json` and `hash_payload` of payout_contract.py
  unfoldable pub hash_payload : Value → String
  hash_payload v = ctx.sha256_hex (ctx.dumps v)
