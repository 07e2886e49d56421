-- ===== src/Webhook/Roundtrip.antt =====
-- A webhook that is signed and then checked.
mod Tests
use shkeeper_io.Prelude.{
  ℕ, ◌+◌, ◌≤◌, ◌≡◌, refl, true, some, String, arith, leb, ◌==◌, str_eq, eq_refl, le→leb,
}
use shkeeper_io.Prelude.Text.{strip, lower, chars}
use shkeeper_io.Prelude.Numerals.{int_of, int_of-show}
use shkeeper_io.Context.{Context}
use shkeeper_io.Webhook.{hmac_v1, shkeeper_webhook_auth_headers, verify_webhook}

-- What `hmac.new(...).hexdigest()` is documented to return: 64 hexadecimal digits in lower case.
pub record IsHexDigest (digest : String) : Type 0 where
  pub trimmed : strip digest ≡ digest
  pub lowered : lower digest ≡ digest
  pub long : chars digest ≡ 64

module _ ⦃ctx : Context⦄ where
  -- What is sent with a webhook is accepted: the timestamp of the headers is read back as it was,
  -- and a receiver that knows the secret accepts the signature for as long as the clocks differ by
  -- no more than the tolerance, given that a digest is 64 lower-case digits.
  pub signed_webhook_verifies :
      (secret body : String) (ts max_age_sec now : ℕ)
      → IsHexDigest (hmac_v1 secret body ts)
      → now ≤ ts + max_age_sec
      → ts ≤ now + max_age_sec
      → (int_of (shkeeper_webhook_auth_headers secret body ts).timestamp ≡ some ts)
        × (verify_webhook secret body ts
              (shkeeper_webhook_auth_headers secret body ts).signature
              max_age_sec
              now
            ≡ true)
  unfolding verify_webhook shkeeper_webhook_auth_headers
  signed_webhook_verifies secret body ts max_age_sec now d old new = (
    int_of-show ts,
    rw
        (
          d.trimmed,
          d.lowered,
          d.long,
          le→leb now (ts + max_age_sec) old,
          le→leb ts (now + max_age_sec) new,
          eq_refl (hmac_v1 secret body ts),
        )
        refl,
  )
