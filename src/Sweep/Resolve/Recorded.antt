-- ===== src/Sweep/Resolve/Recorded.antt =====
-- What a resolution request leaves in the table of resolutions.
use shkeeper_io.Prelude.{
  ℕ, ◌≡◌, ◌≢◌, inl, inr, false, All, or-false, eq_iff, arith, String, Option, none, some, List, [],
  ◌∷◌, any, Bool-cases,
}
use shkeeper_io.Prelude.Json.{Value, null, bool, num, float, text, list, dict, Fields}
use shkeeper_io.Errors.{Result, ok, err}
use shkeeper_io.Context.{Context, Decimal}
use shkeeper_io.Sweep.Resolve.{
  SweepResolution, GuardedCheck, Transaction, record_sweep_resolution, resolve_valid,
  resolve_by_key, resolve_new, settle, insert, clashes, by_key, existing_resolution, new_resolution,
  required_text, validate_basic_payload, validate_deposit,
}

module _ ⦃ctx : Context⦄ where
  -- two resolutions of different deposits and transactions, with different keys
  pub record Apart (row r : SweepResolution) : Type 0 where
    pub deposit : r.deposit_id ≢ row.deposit_id
    pub key : r.idempotency_key ≢ row.idempotency_key
    pub transaction : r.transaction_id ≢ row.transaction_id

  -- no two rows share a deposit, a key or a transaction
  unfoldable pub Distinct : List SweepResolution → Type 0
  Distinct [] = Unit
  Distinct (row ∷ rows) = All (Apart row) rows × Distinct rows

  clashes-Apart : (row r : SweepResolution) → clashes row r ≡ false → Apart row r
  unfolding clashes
  clashes-Apart row r h = record {
    deposit = λ e. absurd (ground (arith, (eq_iff r.deposit_id row.deposit_id).1 e));
    key = λ e. absurd (ground (arith, (eq_iff r.idempotency_key row.idempotency_key).1 e));
    transaction = λ e. absurd (ground arith);
  }

  clear-Apart :
      (row : SweepResolution) (rows : List SweepResolution)
      → any (clashes row) rows ≡ false
      → All (Apart row) rows
  clear-Apart row [] h = tt
  clear-Apart row (r ∷ rows) h =
      let parts = or-false (clashes row r) (any (clashes row) rows) h in
      (clashes-Apart row r parts.0, clear-Apart row rows parts.1)

  insert-Distinct :
      (row : SweepResolution) (stored : List SweepResolution)
      → Distinct stored
      → Distinct (insert row stored).1
  unfolding insert Distinct
  insert-Distinct row stored d = elim (Bool-cases (any (clashes row) stored)) [
    | inl p ↦ rw p d
    | inr p ↦ rw p (clear-Apart row stored p, d)
  ]

  settle-Distinct :
      (row : SweepResolution) (o : Option SweepResolution) (stored : List SweepResolution)
      → Distinct stored
      → Distinct (settle row o stored).1
  unfolding settle
  settle-Distinct row none stored d = insert-Distinct row stored d
  settle-Distinct row (some r) stored d = d

  new-Distinct :
      (id : ℕ) (table stored : List SweepResolution) (payload : Fields) (t : String)
      (amount : Option Decimal) (r : Result (GuardedCheck × Transaction))
      → Distinct stored
      → Distinct (resolve_new id table stored payload t amount r).1
  unfolding resolve_new
  new-Distinct id table stored payload t amount (err e) d = d
  new-Distinct id table stored payload t amount (ok (check, tx)) d =
      settle-Distinct (new_resolution id payload t amount check tx)
        (existing_resolution check tx table) stored d

  by_key-Distinct :
      (id : ℕ) (checks : List GuardedCheck) (table stored : List SweepResolution) (payload : Fields)
      (t : String) (amount : Option Decimal) (o : Option SweepResolution)
      → Distinct stored
      → Distinct (resolve_by_key id checks table stored payload t amount o).1
  unfolding resolve_by_key
  by_key-Distinct id checks table stored payload t amount none d =
      new-Distinct id table stored payload t amount (validate_deposit checks payload) d
  by_key-Distinct id checks table stored payload t amount (some r) d = d

  valid-Distinct :
      (id : ℕ) (checks : List GuardedCheck) (table stored : List SweepResolution) (payload : Fields)
      (r : Result (String × Option Decimal))
      → Distinct stored
      → Distinct (resolve_valid id checks table stored payload r).1
  unfolding resolve_valid
  valid-Distinct id checks table stored payload (err e) d = d
  valid-Distinct id checks table stored payload (ok (t, amount)) d =
      by_key-Distinct id checks table stored payload t amount
        (by_key (required_text "idempotency_key" payload) table) d

  -- If no two resolutions share a deposit, an idempotency key or a transaction, then none do after any
  -- request, also when another request inserts between the look-ups and the commit.
  pub record-Distinct :
      (id : ℕ) (checks : List GuardedCheck) (table stored : List SweepResolution) (request : Value)
      → Distinct stored
      → Distinct (record_sweep_resolution id checks table stored request).1
  unfolding record_sweep_resolution
  record-Distinct id checks table stored (dict payload) d =
      valid-Distinct id checks table stored payload (validate_basic_payload payload) d
  record-Distinct id checks table stored null d = d
  record-Distinct id checks table stored (bool b) d = d
  record-Distinct id checks table stored (num n) d = d
  record-Distinct id checks table stored (float s) d = d
  record-Distinct id checks table stored (text s) d = d
  record-Distinct id checks table stored (list vs) d = d
