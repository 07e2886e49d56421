-- ===== src/Webhook.antt =====
-- shkeeper/services/webhook_hmac.py: the signature of a webhook, and its check.
pub mod Roundtrip
use Prim.Native.String.{◌++◌ as append}
use shkeeper_io.Prelude.{
  ℕ, ◌+◌, Bool, true, false, not, ◌&&◌, ◌||◌, String, leb, ◌==◌, str_eq, if◌then◌else◌,
}
use shkeeper_io.Prelude.Text.{strip, lower, chars}
use shkeeper_io.Prelude.Numerals.{show}
use shkeeper_io.Context.{Context}

-- the two headers
pub record Headers : Type 0 where
  pub timestamp : String
  pub signature : String

module _ ⦃ctx : Context⦄ where
  -- `_hmac_v1`
  pub hmac_v1 : String → String → ℕ → String
  hmac_v1 secret body ts = ctx.hmac_sha256 secret (append (append (show ts) ".") body)

  -- `shkeeper_webhook_auth_headers` at the time `ts`
  pub shkeeper_webhook_auth_headers : String → String → ℕ → Headers
  shkeeper_webhook_auth_headers secret body ts = record {
    timestamp = show ts;
    signature = hmac_v1 secret body ts;
  }

  -- `verify_webhook`, at the time `now`
  pub verify_webhook : String → String → ℕ → String → ℕ → ℕ → Bool
  verify_webhook secret body timestamp signature_hex max_age_sec now =
      let sig = lower (strip signature_hex) in
      chars sig == 64
      && leb now (timestamp + max_age_sec)
      && leb timestamp (now + max_age_sec)
      && str_eq (hmac_v1 secret body timestamp) sig
