-- ===== src/Payout/Reconciler/Lease/Exclusive.antt =====
-- The lease of a row between workers (`claim_execution` and the two releases).
use shkeeper_io.Prelude.{
  ℕ, ◌+◌, ◌<◌, ◌≡◌, refl, ap, true, false, String, Option, none, some, arith, and-true, eq_iff,
  Bool-cases, inl, inr,
}
use shkeeper_io.Context.{seconds}
use shkeeper_io.Payout.Row.{Execution, Session}
use shkeeper_io.Payout.Reconciler.Lease.{
  claim_execution, release_execution_by_id, release_execution_after_error, is_holder, holds,
}

-- For 300 seconds after a claim, no claim of that row succeeds as long as its lease has not been
-- released: whoever makes it, whatever the row looked like when it was read, and whatever else of
-- the row has changed since.
pub claim_exclusive :
    (now later : ℕ) (owner token owner' token' : String) (seen seen' : Execution) (s u : Session)
    {t : Session}
    → claim_execution now owner token seen s ≡ some t
    → u.execution.lease_expires_at ≡ t.execution.lease_expires_at
    → later < now + seconds 300
    → claim_execution later owner' token' seen' u ≡ none
unfolding claim_execution
claim_exclusive now later owner token owner' token' seen seen' s u h same lt = ground arith

-- who holds a row has both columns of its lease
is_holder-columns :
    (owner token : String) (e : Execution)
    → is_holder owner token e ≡ true
    → (e.lease_owner ≡ some owner) × (e.lease_token ≡ some token)
is_holder-columns owner token e h =
    let both = and-true (holds e.lease_owner owner) (holds e.lease_token token) h in
    (column e.lease_owner owner both.0, column e.lease_token token both.1)
  where
    column : (c : Option String) (t : String) → holds c t ≡ true → c ≡ some t
    column none t p = cc
    column (some c) t p = ap (λ (x : String). some x) ((eq_iff c t).0 p)

-- A worker whose owner and token are not both on the row releases nothing, after an error too; so
-- does one that comes late, when the row has been released.
pub release_needs_token :
    (now : ℕ) (owner token message : String) (s : Session)
    → ¬ ((s.execution.lease_owner ≡ some owner) × (s.execution.lease_token ≡ some token))
    → (release_execution_by_id owner token s ≡ s)
      × (release_execution_after_error now owner token message s ≡ s)
release_needs_token now owner token message s ne = (
  unfold release_execution_by_id in rw not_holder refl,
  unfold release_execution_after_error in rw not_holder refl,
)
  where
    not_holder : is_holder owner token s.execution ≡ false
    not_holder = elim (Bool-cases (is_holder owner token s.execution)) [
      | inl p ↦ absurd (ne (is_holder-columns owner token s.execution p))
      | inr p ↦ p
    ]
