-- ===== src/Errors.antt =====
-- shkeeper/services/payout_errors.py: an error by its code and its HTTP status. The message is not
-- modelled. A function that may raise returns a `Result`.
use shkeeper_io.Prelude.{ℕ, Bool, true, false, String, ◌≡◌, refl, ◌⊎◌, inl, inr}

pub record Error : Type 0 where
  pub code : String
  pub status_code : ℕ

-- what a call returned or raised
pub data Result {ℓ} (T : Type ℓ) : Type ℓ where
  ok : T → Result T
  err : Error → Result T

-- the first raise ends a block
infixl 4 ◌>>=◌
abbrev pub ◌>>=◌ {ℓ κ} : {T : Type ℓ} {U : Type κ} → Result T → (T → Result U) → Result U
(ok value) >>= next = next value
(err raised) >>= next = err raised

infixl 4 ◌>>◌
abbrev pub ◌>>◌ {ℓ κ} : {T : Type ℓ} {U : Type κ} → Result T → Result U → Result U
first >> second = first >>= λ value. second

abbrev pub raise {ℓ} : {A : Type ℓ} → String → ℕ → Result A
raise code status = err (record { code = code; status_code = status })

-- `if not b: raise ...`
abbrev pub require : Bool → String → ℕ → Result (Unit {0})
require true code status = ok tt
require false code status = raise code status

-- `PayoutRequestError` with its default status
abbrev pub request_error {ℓ} : {A : Type ℓ} → String → Result A
request_error code = raise code 400

-- `PayoutConflictError`
abbrev pub conflict_error {ℓ} : {A : Type ℓ} → String → Result A
conflict_error code = raise code 409

pub Result-cases {ℓ} :
    {A : Type ℓ} (r : Result A) → ((a : A) × (r ≡ ok a)) ⊎ ((e : Error) × (r ≡ err e))
Result-cases (ok a) = inl (a, refl)
Result-cases (err e) = inr (e, refl)

pub ok_ne_err {ℓ} : {A : Type ℓ} {a : A} {e : Error} → ok a ≡ err e → ⊥
ok_ne_err h = cc
