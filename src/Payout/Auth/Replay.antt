-- ===== src/Payout/Auth/Replay.antt =====
-- Accepted requests, and a nonce that is used again.
use shkeeper_io.Prelude.{
  ℕ, ◌≡◌, refl, sym, ◌∙◌, Bool, true, inl, inr, String, List, [], ◌∷◌, ◌++◌, any, arith, eq_refl,
  eq_iff, Bool-cases,
}
use shkeeper_io.Prelude.Text.{strip, lower}
use shkeeper_io.Prelude.Json.{Value, text}
use shkeeper_io.Errors.{Error, Result, ok, err, Result-cases}
use shkeeper_io.Context.{Context}
use shkeeper_io.Payout.Callback.{signature_base, sign_request}
use shkeeper_io.Payout.Auth.{
  Signed, Nonce, Caller, same_nonce, is_recent, usable_secret, remember, conclude,
  get_consumer_secret, authenticate, verify_request_signature, timestamp_of,
}

usable_text : (v : Value) (s : String) → usable_secret v ≡ ok s → v ≡ text s
unfolding usable_secret
usable_text (text t) s h = ground (arith, eq_iff t "")
usable_text v s h = absurd (ground arith)

concluded :
    (o : Result (Caller × Nonce)) (nonces after : List Nonce) (caller : Caller)
    → conclude o nonces ≡ (ok caller, after)
    → (n : Nonce) × (o ≡ ok (caller, n)) × (after ≡ n ∷ nonces)
unfolding conclude remember
concluded (err x) nonces after caller h = absurd (ground arith)
concluded (ok (c, n)) nonces after caller h = elim (Bool-cases (any (same_nonce n) nonces)) [
  | inl q ↦ absurd (ground arith)
  | inr q ↦ (n, ground arith, ground arith)
]

any-append :
    (p : Nonce → Bool) (more : List Nonce) (n : Nonce) (rest : List Nonce)
    → p n ≡ true
    → any p (more ++ n ∷ rest) ≡ true
any-append p [] n rest h = rw h refl
any-append p (m ∷ more) n rest h = ground (arith, any-append p more n rest h)

same_nonce_refl : (n : Nonce) → same_nonce n n ≡ true
same_nonce_refl n = rw (eq_refl n.consumer, eq_refl n.key_id, eq_refl n.nonce) refl

module _ ⦃ctx : Context⦄ where
  -- What an accepted request has shown: the key of its consumer is configured, its timestamp is recent, and its
  -- signature is that of the request under that key.
  pub record IsAuthentic (tolerance clock : ℕ) (r : Signed) (caller : Caller) (n : Nonce)
      : Type 0 where
    pub consumer : caller.consumer ≡ strip r.consumer_header
    pub key_id : caller.key_id ≡ strip r.key_id_header
    pub nonce_consumer : n.consumer ≡ strip r.consumer_header
    pub nonce_key_id : n.key_id ≡ strip r.key_id_header
    pub nonce_nonce : n.nonce ≡ strip r.nonce_header
    pub timestamp : timestamp_of (strip r.timestamp_header) ≡ ok n.timestamp
    pub recent : is_recent tolerance clock n.timestamp ≡ true
    pub secret : String
    pub configured : get_consumer_secret caller.consumer caller.key_id ≡ text secret
    pub signed :
        sign_request secret
          (signature_base n.timestamp n.nonce r.method r.path r.query_string r.body)
        ≡ lower (strip r.signature_header)

  authenticate-IsAuthentic :
      (tolerance clock : ℕ) (r : Signed) (caller : Caller) (n : Nonce)
      → authenticate tolerance clock r ≡ ok (caller, n)
      → IsAuthentic tolerance clock r caller n
  unfolding authenticate
  authenticate-IsAuthentic tolerance clock r caller n h =
      elim (Result-cases (timestamp_of (strip r.timestamp_header))) [
        | inr (x, p) ↦ absurd (ground arith)
        | inl (t, p) ↦
            elim (Result-cases (
              usable_secret
                (get_consumer_secret (strip r.consumer_header) (strip r.key_id_header)))) [
                  | inr (x, q) ↦ absurd (ground arith)
                  | inl (secret, q) ↦ record {
                    consumer = ground arith;
                    key_id = ground arith;
                    nonce_consumer = ground arith;
                    nonce_key_id = ground arith;
                    nonce_nonce = ground arith;
                    timestamp = ground arith;
                    recent = ground arith;
                    secret = secret;
                    configured = ground (
                      arith,
                      usable_text
                          (get_consumer_secret (strip r.consumer_header) (strip r.key_id_header))
                          secret q,
                    );
                    signed = ground (
                      arith,
                      eq_iff
                          (sign_request secret (
                            signature_base t (strip r.nonce_header) r.method r.path r.query_string
                              r.body))
                          (lower (strip r.signature_header)),
                    );
                  }
                ]
      ]

  -- An accepted request carries, in its header, a timestamp that is recent, and the signature of its
  -- own text with that timestamp under the configured key of its consumer; and its nonce is stored
  -- with that timestamp.
  pub accepted-IsAuthentic :
      (tolerance clock : ℕ) (r : Signed) (nonces after : List Nonce) (caller : Caller)
      → verify_request_signature tolerance clock r nonces ≡ (ok caller, after)
      → (n : Nonce) × IsAuthentic tolerance clock r caller n × (after ≡ n ∷ nonces)
  unfolding verify_request_signature
  accepted-IsAuthentic tolerance clock r nonces after caller h =
      let (n, p, e) = concluded (authenticate tolerance clock r) nonces after caller h in
      (n, authenticate-IsAuthentic tolerance clock r caller n p, e)

  -- A nonce is accepted once: after an accepted request, at any later time and whatever was stored
  -- since, a request of the same consumer with the same key and nonce raises and stores nothing.
  pub nonce_used_once :
      (tolerance clock tolerance' clock' : ℕ) (r r' : Signed) (nonces after more : List Nonce)
      (caller : Caller)
      → verify_request_signature tolerance clock r nonces ≡ (ok caller, after)
      → strip r'.consumer_header ≡ strip r.consumer_header
      → strip r'.key_id_header ≡ strip r.key_id_header
      → strip r'.nonce_header ≡ strip r.nonce_header
      → (x : Error) × (verify_request_signature tolerance' clock' r' (more ++ after)
          ≡ (err x, more ++ after))
  unfolding verify_request_signature conclude remember
  nonce_used_once tolerance clock tolerance' clock' r r' nonces after more caller h c k m =
      elim (Result-cases (authenticate tolerance' clock' r')) [
        | inr (x, p) ↦ (x, rw p refl)
        | inl ((c', n'), p) ↦ (
          record { code = "PAYOUT_AUTH_REPLAY"; status_code = 403 },
          rw (p, seen n' (authenticate-IsAuthentic tolerance' clock' r' c' n' p)) refl,
        )
      ]
    where
      seen :
          {c' : Caller} (n' : Nonce)
          → IsAuthentic tolerance' clock' r' c' n'
          → any (same_nonce n') (more ++ after) ≡ true
      seen n' w' =
          let (n, w, e) = accepted-IsAuthentic tolerance clock r nonces after caller h in
          rw e (
            any-append (same_nonce n') more n nonces (
              rw
                (
                  w'.nonce_consumer ∙ c ∙ sym w.nonce_consumer,
                  w'.nonce_key_id ∙ k ∙ sym w.nonce_key_id,
                  w'.nonce_nonce ∙ m ∙ sym w.nonce_nonce,
                )
                (same_nonce_refl n)))
