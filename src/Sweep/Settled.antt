-- ===== src/Sweep/Settled.antt =====
-- The guarded deposits on an address that is swept (`decide_sweep_eligibility`).
use shkeeper_io.Prelude.{
  ◌≡◌, refl, Bool, true, false, not, ◌&&◌, inl, inr, String, Option, none, some, List, [], ◌∷◌,
  Memᴰ, any, all, Bool-cases, all-at, any-false-at, arith, str_eq,
}
use shkeeper_io.Sweep.{
  Deposit, Resolution, Guarded, Decision, allow, block, decide_checks, decide_found, decide_after,
  decide, decide_for, check_recorded, refusal_for, recorded_for, relevant_checks, is_cleared,
  decide_sweep_eligibility, is_sweep_guarded_crypto, network_matches_guarded_crypto,
  transactions_for_txid,
}

-- The transaction is confirmed, its callback is confirmed, and its check is approved, skipped, or in
-- a review that an operator resolved.
pub record IsSettled (rs : List Resolution) (c : Guarded) : Type 0 where
  pub confirmed : c.0.need_more_confirmations ≡ false
  pub told : c.0.callback_confirmed ≡ true
  pub cleared : is_cleared rs c ≡ true

-- what allowed checks have passed
record IsPassed (rs : List Resolution) (checks : List Guarded) : Type 0 where
  confirmed : any (λ (c : Guarded). c.0.need_more_confirmations) checks ≡ false
  told : any (λ (c : Guarded). not (c.0.callback_confirmed)) checks ≡ false
  cleared : all (is_cleared rs) checks ≡ true

decide_checks-IsPassed :
    (rs : List Resolution) (checks : List Guarded)
    → (decide_checks rs checks).decision ≡ allow
    → IsPassed rs checks
unfolding decide_checks decide
decide_checks-IsPassed rs checks h = ground arith

not-false : (b : Bool) → not b ≡ false → b ≡ true
not-false true h = refl
not-false false h = cc

passed-IsSettled :
    (rs : List Resolution) (checks : List Guarded) (c : Guarded)
    → IsPassed rs checks
    → Memᴰ c checks
    → IsSettled rs c
passed-IsSettled rs checks c p m = record {
  confirmed = any-false-at (λ (x : Guarded). x.0.need_more_confirmations) checks p.confirmed m;
  told =
      not-false c.0.callback_confirmed
        (any-false-at (λ (x : Guarded). not (x.0.callback_confirmed)) checks p.told m);
  cleared = all-at (is_cleared rs) checks p.cleared m;
}

found-IsSettled :
    (crypto : String) (rs : List Resolution) (recorded : List Deposit) (checks : List Guarded)
    (c : Guarded)
    → (decide_found crypto rs recorded checks).decision ≡ allow
    → Memᴰ c checks
    → IsSettled rs c
unfolding decide_found
found-IsSettled crypto rs recorded [] c h m = elim m [ ]
found-IsSettled crypto rs recorded (x ∷ checks) c h m =
    passed-IsSettled rs (x ∷ checks) c (decide_checks-IsPassed rs (x ∷ checks) h) m

recorded-refuses :
    (crypto : String) (address : Option String) (ds : List Deposit) (d : Decision)
    → check_recorded crypto address ds ≡ some d
    → d.decision ≡ allow
    → ⊥
unfolding check_recorded decide decide_for
recorded-refuses crypto address [] d h a = ground arith
recorded-refuses crypto address (x ∷ []) d h a = ground arith
recorded-refuses crypto address (x ∷ y ∷ ds) d h a = ground arith

refusal-refuses :
    (crypto : String) (address txid : Option String) (ds : List Deposit) (d : Decision)
    → refusal_for crypto address txid ds ≡ some d
    → d.decision ≡ allow
    → ⊥
unfolding refusal_for
refusal-refuses crypto address none ds d h a = ground arith
refusal-refuses crypto address (some txid) ds d h a = elim (Bool-cases (str_eq txid "")) [
  | inl p ↦ absurd (none_ne_some (rw p at h))
  | inr p ↦ recorded-refuses crypto address (transactions_for_txid crypto txid ds) d (rw p at h) a
]
  where
    none_ne_some : none ≡ some d → ⊥
    none_ne_some e = ground arith

module _ (crypto network : String) (address txid : Option String) (ds : List Deposit)
    (rs : List Resolution) where
  abbrev decided : Decision
  decided = decide_sweep_eligibility crypto network address txid ds rs

  after-IsSettled :
      (o : Option Decision)
      → refusal_for crypto address txid ds ≡ o
      → (decide_after o (
          decide_found crypto rs
            (recorded_for crypto txid ds)
            (relevant_checks crypto network address ds))).decision
        ≡ allow
      → (c : Guarded) → Memᴰ c (relevant_checks crypto network address ds)
      → IsSettled rs c
  unfolding decide_after
  after-IsSettled none p h c m =
      found-IsSettled crypto rs (recorded_for crypto txid ds)
        (relevant_checks crypto network address ds) c h m
  after-IsSettled (some d) p h c m = absurd (refusal-refuses crypto address txid ds d p h)

  -- When a sweep is allowed, then each guarded deposit on the address in the network is confirmed,
  -- was told to the shop, and was approved, skipped, or reviewed and resolved by an operator.
  pub sweep_allowed-IsSettled :
      decided.decision ≡ allow
      → (c : Guarded) → Memᴰ c (relevant_checks crypto network address ds)
      → IsSettled rs c
  unfolding decide_sweep_eligibility decide
  sweep_allowed-IsSettled h c m =
      elim (Bool-cases
        (is_sweep_guarded_crypto crypto && not (network_matches_guarded_crypto crypto network))) [
          | inl p ↦ absurd (blocked (rw p at h))
          | inr p ↦ after-IsSettled (refusal_for crypto address txid ds) refl (rw p at h) c m
        ]
    where
      blocked : block ≡ allow → ⊥
      blocked e = ground arith

  -- A guarded coin is swept in its own network alone: in any other the answer is to block it.
  pub wrong_network_blocked :
      is_sweep_guarded_crypto crypto ≡ true
      → network_matches_guarded_crypto crypto network ≡ false
      → decided.decision ≡ block
  unfolding decide_sweep_eligibility decide
  wrong_network_blocked g n = rw (g, n) refl
