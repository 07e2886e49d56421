-- ===== src/Payout/Auth.antt =====
-- `verify_request_signature` and `payout_execution_auth_required`
-- (shkeeper/services/payout_execution_auth.py), with the table of nonces (`PayoutAuthNonce`).
pub mod Replay
mod Tests
use shkeeper_io.Prelude.{
  ℕ, ◌+◌, Bool, true, false, not, ◌&&◌, ◌||◌, String, Option, none, some, List, [], ◌∷◌, any, leb,
  ◌==◌, str_eq, if◌then◌else◌,
}
use shkeeper_io.Prelude.Text.{strip, lower, chars}
use shkeeper_io.Prelude.Json.{Value, text, dict, get, truthy}
use shkeeper_io.Errors.{Error, Result, ok, err, ◌>>=◌, ◌>>◌, raise, require}
use shkeeper_io.Context.{Context}
use shkeeper_io.Payout.Rail.{get_consumer_key_config}
use shkeeper_io.Payout.Callback.{signature_base, sign_request}
use shkeeper_io.Payout.Sidecar.Status.{to_int}

-- what a request carries
pub record Signed : Type 0 where
  pub consumer_header : String
  pub key_id_header : String
  pub timestamp_header : String
  pub nonce_header : String
  pub signature_header : String
  pub method : String
  pub path : String
  pub query_string : String
  pub body : String

-- `PayoutAuthNonce`
pub record Nonce : Type 0 where
  pub consumer : String
  pub key_id : String
  pub nonce : String
  pub timestamp : ℕ

-- the consumer and the key that `g` remembers
pub record Caller : Type 0 where
  pub consumer : String
  pub key_id : String

-- the unique constraint on the consumer, the key and the nonce
abbrev pub same_nonce : Nonce → Nonce → Bool
same_nonce a b = str_eq a.consumer b.consumer && str_eq a.key_id b.key_id && str_eq a.nonce b.nonce

-- `int(timestamp)`; a negative one is too old as well, and is refused here as no number
abbrev pub timestamp_of : String → Result ℕ
timestamp_of s = elim (to_int (text s)) [ none ↦ raise "PAYOUT_AUTH_INVALID" 403 | some t ↦ ok t ]

-- `abs(clock - timestamp) <= tolerance`
abbrev pub is_recent : ℕ → ℕ → ℕ → Bool
is_recent tolerance clock t = leb clock (t + tolerance) && leb t (clock + tolerance)

-- a secret that is no text fails at `secret.encode`
usable_secret : Value → Result String
usable_secret (text s) = do require (not (str_eq s "")) "PAYOUT_AUTH_UNKNOWN_KEY" 401; ok s
usable_secret v =
    if truthy v then raise "AttributeError" 500 else raise "PAYOUT_AUTH_UNKNOWN_KEY" 401

abbrev secret_of : Value → Value
secret_of (dict config) = get "secret" config
secret_of v = v

-- the insertion of the nonce, and its commit
remember : Caller → Nonce → List Nonce → Result Caller × List Nonce
remember caller n nonces =
    if any (same_nonce n) nonces
    then (raise "PAYOUT_AUTH_REPLAY" 403, nonces)
    else (ok caller, n ∷ nonces)

conclude : Result (Caller × Nonce) → List Nonce → Result Caller × List Nonce
conclude (err x) nonces = (err x, nonces)
conclude (ok (caller, n)) nonces = remember caller n nonces

module _ ⦃ctx : Context⦄ where
  -- `get_consumer_secret`
  pub get_consumer_secret : String → String → Value
  get_consumer_secret consumer key_id = secret_of (get_consumer_key_config consumer key_id)

  -- the checks before the nonce is stored
  pub authenticate : ℕ → ℕ → Signed → Result (Caller × Nonce)
  authenticate tolerance clock r = do
    let consumer = strip r.consumer_header
    let key_id = strip r.key_id_header
    let nonce = strip r.nonce_header
    let signature = lower (strip r.signature_header)
    require
        (not
          (any (str_eq "") (consumer ∷ key_id ∷ strip r.timestamp_header ∷ nonce ∷ signature ∷ [])))
        "PAYOUT_AUTH_MISSING" 401
    require (chars signature == 64) "PAYOUT_AUTH_INVALID" 403
    t ← timestamp_of (strip r.timestamp_header)
    require (is_recent tolerance clock t) "PAYOUT_AUTH_EXPIRED" 403
    secret ← usable_secret (get_consumer_secret consumer key_id)
    require
        (str_eq (sign_request secret (signature_base t nonce r.method r.path r.query_string r.body))
          signature)
        "PAYOUT_AUTH_INVALID" 403
    ok (
      record { consumer = consumer; key_id = key_id },
      record { consumer = consumer; key_id = key_id; nonce = nonce; timestamp = t },
    )

  -- `verify_request_signature`: the caller, or the code with the status of the wrapper around a
  -- view; and the table of nonces after it
  pub verify_request_signature : ℕ → ℕ → Signed → List Nonce → Result Caller × List Nonce
  verify_request_signature tolerance clock r nonces =
      conclude (authenticate tolerance clock r) nonces
