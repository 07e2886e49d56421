-- ===== src/Legacy/Polls/Confirmed.antt =====
-- Which payouts the poll for confirmations ends.
use shkeeper_io.Prelude.{
  ℕ, ◌≡◌, ◌⊎◌, inl, inr, refl, sym, Bool, true, Option, none, some, List, [], ◌∷◌, Memᴰ, String,
  any, Bool-cases,
}
use mathlib.Core.Path.{subst}
use shkeeper_io.Prelude.Json.{Value}
use shkeeper_io.Context.{Context}
use shkeeper_io.Legacy.{Payout, success}
use shkeeper_io.Legacy.Polls.{
  Chain, is_confirmed, first_confirmed, confirm, poll_on, poll_unconfirmed_payout, is_recent_open,
}

module _ ⦃ctx : Context⦄ where
  -- what the poll does to a payout: nothing, or it succeeds by one transaction
  pub record BySome (required : ℕ) (chains : String → Option Chain) (p : Payout) : Type 0 where
    pub chain : Chain
    pub driver : chains p.crypto ≡ some chain
    pub txid : Value
    pub known : Memᴰ txid p.transactions
    pub confirmed : is_confirmed required chain txid ≡ true

  first_confirmed-Mem :
      (required : ℕ) (chain : Chain) (txids : List Value) {txid : Value}
      → first_confirmed required chain txids ≡ some txid
      → Memᴰ txid txids × (is_confirmed required chain txid ≡ true)
  unfolding first_confirmed
  first_confirmed-Mem required chain [] h = absurd (cc)
  first_confirmed-Mem required chain (t ∷ txids) h =
      elim (Bool-cases (is_confirmed required chain t)) [
        | inl p ↦
            let e = some_inj (rw p at h) in
            (Memᴰ.head (sym e), subst (λ (v : Value). is_confirmed required chain v ≡ true) e p)
        | inr p ↦
            let (m, c) = first_confirmed-Mem required chain txids (rw p at h) in (Memᴰ.tail m, c)
      ]
    where
      some_inj : {x y : Value} → ◌≡◌ {A = Option Value} (some x) (some y) → x ≡ y
      some_inj h = cc

  some_confirmed :
      (required : ℕ) (chain : Chain) (txids : List Value)
      → any (is_confirmed required chain) txids ≡ true
      → (txid : Value) × (first_confirmed required chain txids ≡ some txid)
  unfolding first_confirmed
  some_confirmed required chain [] h = absurd (cc)
  some_confirmed required chain (t ∷ txids) h = elim (Bool-cases (is_confirmed required chain t)) [
    | inl p ↦ (t, rw p refl)
    | inr p ↦ let (txid, e) = some_confirmed required chain txids (rw p at h) in (txid, rw p e)
  ]

  -- One transaction with enough confirmations ends a payout as a success, however many others it has
  -- that are not confirmed.
  pub one_confirmation_succeeds :
      (required : ℕ) (enabled : Bool) (chains : String → Option Chain) (now : ℕ) (p : Payout)
      (chain : Chain)
      → is_recent_open now p ≡ true
      → chains p.crypto ≡ some chain
      → any (is_confirmed required chain) p.transactions ≡ true
      → (poll_unconfirmed_payout required enabled chains now p).0.status ≡ success
  unfolding poll_unconfirmed_payout poll_on confirm
  one_confirmation_succeeds required enabled chains now p chain o d h =
      let (txid, e) = some_confirmed required chain p.transactions h in rw (o, d, e) refl

  chain-BySome :
      (required : ℕ) (enabled : Bool) (chains : String → Option Chain) (now : ℕ) (p : Payout)
      (chain : Chain) (o : Option Value)
      → chains p.crypto ≡ some chain
      → first_confirmed required chain p.transactions ≡ o
      → (confirm enabled now p o).0.status ≡ success
      → (p.status ≡ success) ⊎ BySome required chains p
  unfolding confirm
  chain-BySome required enabled chains now p chain none d e h = inl h
  chain-BySome required enabled chains now p chain (some txid) d e h =
      let (m, c) = first_confirmed-Mem required chain p.transactions e in
      inr (record { chain = chain; driver = d; txid = txid; known = m; confirmed = c })

  open-BySome :
      (required : ℕ) (enabled : Bool) (chains : String → Option Chain) (now : ℕ) (p : Payout)
      (o : Option Chain)
      → chains p.crypto ≡ o
      → (poll_on required enabled now p o).0.status ≡ success
      → (p.status ≡ success) ⊎ BySome required chains p
  unfolding poll_on
  open-BySome required enabled chains now p none d h = inl h
  open-BySome required enabled chains now p (some chain) d h =
      chain-BySome required enabled chains now p chain
        (first_confirmed required chain p.transactions) d refl h

  -- A payout that is a success after the poll was one before, or has a transaction that the coin's
  -- driver says to have more confirmations than required.
  pub success-BySome :
      (required : ℕ) (enabled : Bool) (chains : String → Option Chain) (now : ℕ) (p : Payout)
      → (poll_unconfirmed_payout required enabled chains now p).0.status ≡ success
      → (p.status ≡ success) ⊎ BySome required chains p
  unfolding poll_unconfirmed_payout
  success-BySome required enabled chains now p h = elim (Bool-cases (is_recent_open now p)) [
    | inl o ↦ open-BySome required enabled chains now p (chains p.crypto) refl (rw o at h)
    | inr o ↦ inl (rw o at h)
  ]
