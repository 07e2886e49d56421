-- ===== src/Payout/Auth/Tests.antt =====
-- A concrete signed request.
use shkeeper_io.Prelude.{◌≡◌, refl, String, [], ◌∷◌, ◌++◌}
use shkeeper_io.Prelude.Text.{strip, lower, chars}
use shkeeper_io.Prelude.Numerals.{int_of, show}
use shkeeper_io.Prelude.Json.{text, dict, end, field}
use shkeeper_io.Errors.{Error, ok, err}
use shkeeper_io.Context.{Context}
use shkeeper_io.Payout.Fixtures.{context}
use shkeeper_io.Payout.Rail.{get_consumer_key_config, consumer_keys}
use shkeeper_io.Payout.Callback.{sign_request, signature_base}
use shkeeper_io.Payout.Sidecar.Status.{to_int}
use shkeeper_io.Payout.Auth.{
  Signed, Nonce, Caller, verify_request_signature, authenticate, conclude, remember,
  get_consumer_secret, usable_secret,
}
use shkeeper_io.Payout.Auth.Replay.{IsAuthentic, accepted-IsAuthentic, nonce_used_once}

abbrev digest : String
digest = "00112233445566778899aabbccddeeff00112233445566778899aabbccddeeff"

-- every digest is the same, and the shop has a key
abbrev keyed : Context
keyed = record context {
  hmac_sha256 = λ secret s. digest;
  payout_consumer_keys = dict (field "shop" (text "secret") end);
}

abbrev signed : Signed
signed = record {
  consumer_header = "shop";
  key_id_header = "default";
  timestamp_header = "100";
  nonce_header = "n-1";
  signature_header = digest;
  method = "POST";
  path = "/payouts";
  query_string = "";
  body = "{}";
}

abbrev caller : Caller
caller = record { consumer = "shop"; key_id = "default" }

abbrev nonce : Nonce
nonce = record { consumer = "shop"; key_id = "default"; nonce = "n-1"; timestamp = 100 }

accepted : verify_request_signature ⦃ctx = keyed⦄ 300 120 signed [] ≡ (ok caller, nonce ∷ [])
unfolding verify_request_signature authenticate conclude remember get_consumer_secret usable_secret
    get_consumer_key_config consumer_keys sign_request signature_base to_int int_of strip lower
    chars show
accepted = refl

accepted-IsAuthentic_example :
    (n : Nonce) × IsAuthentic ⦃ctx = keyed⦄ 300 120 signed caller n × (nonce ∷ [] ≡ n ∷ [])
accepted-IsAuthentic_example =
    accepted-IsAuthentic ⦃ctx = keyed⦄ 300 120 signed [] (nonce ∷ []) caller accepted

nonce_used_once_example :
    (x : Error) × (verify_request_signature ⦃ctx = keyed⦄ 300 130 signed ([] ++ nonce ∷ [])
      ≡ (err x, [] ++ nonce ∷ []))
nonce_used_once_example =
    nonce_used_once ⦃ctx = keyed⦄ 300 120 300 130 signed signed [] (nonce ∷ []) [] caller accepted
      refl refl refl
