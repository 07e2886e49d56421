-- ===== src/Webhook/Roundtrip/Tests.antt =====
-- A webhook at a concrete digest.
use shkeeper_io.Prelude.{◌≡◌, refl, true, String, some, arith}
use shkeeper_io.Prelude.Text.{strip, lower, chars}
use shkeeper_io.Prelude.Numerals.{int_of}
use shkeeper_io.Context.{Context}
use shkeeper_io.Payout.Fixtures.{context}
use shkeeper_io.Webhook.{hmac_v1, shkeeper_webhook_auth_headers, verify_webhook}
use shkeeper_io.Webhook.Roundtrip.{IsHexDigest, signed_webhook_verifies}

abbrev digest : String
digest = "00112233445566778899aabbccddeeff00112233445566778899aabbccddeeff"

-- every digest is the same
abbrev hashing : Context
hashing = record context { hmac_sha256 = λ secret s. digest }

hex_digest : IsHexDigest (hmac_v1 ⦃ctx = hashing⦄ "key" "{}" 100)
unfolding hmac_v1 strip lower chars
hex_digest = record { trimmed = refl; lowered = refl; long = refl }

signed_webhook_verifies_example :
    (int_of (shkeeper_webhook_auth_headers ⦃ctx = hashing⦄ "key" "{}" 100).timestamp ≡ some 100)
    × (verify_webhook ⦃ctx = hashing⦄ "key" "{}" 100
          (shkeeper_webhook_auth_headers ⦃ctx = hashing⦄ "key" "{}" 100).signature
          300
          250
        ≡ true)
signed_webhook_verifies_example =
    signed_webhook_verifies ⦃ctx = hashing⦄ "key" "{}" 100 300 250 hex_digest (omega arith)
      (omega arith)
