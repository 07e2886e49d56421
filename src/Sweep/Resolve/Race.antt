-- ===== src/Sweep/Resolve/Race.antt =====
-- Two workers that carry out the same resolution request at once.
use shkeeper_io.Prelude.{
  ℕ, ◌≡◌, inl, inr, refl, true, false, String, Option, none, some, List, any, str_eq, eq_refl,
  Bool-cases,
}
use mathlib.Core.Path.{subst}
use shkeeper_io.Prelude.Json.{Value, null, bool, num, float, text, list, dict, Fields}
use shkeeper_io.Errors.{Result, ok, err}
use shkeeper_io.Context.{Context, Decimal}
use shkeeper_io.Sweep.Resolve.{
  SweepResolution, GuardedCheck, Transaction, Answer, record_sweep_resolution, resolve_valid,
  resolve_by_key, resolve_new, settle, insert, clashes, repeated, after_clash, by_key,
  existing_resolution, new_resolution, request_digest, required_text, validate_basic_payload,
  validate_deposit,
}

module _ ⦃ctx : Context⦄ where
  -- where the first answer inserted a row, the second call gets it and inserts nothing
  Joins : (List SweepResolution → Answer) → Answer → Type 0
  Joins second (ok (r, false), after) = second after ≡ (ok (r, true), after)
  Joins second (ok (r, true), after) = Unit
  Joins second (err e, after) = Unit

  repeated-Joins :
      (second : List SweepResolution → Answer) (conflict digest : String) (r : SweepResolution)
      (table : List SweepResolution)
      → Joins second (repeated conflict digest r, table)
  unfolding Joins repeated
  repeated-Joins second conflict digest r table =
      elim (Bool-cases (str_eq r.request_digest digest)) [ inl p ↦ rw p tt | inr p ↦ rw p tt ]

  after_clash-Joins :
      (second : List SweepResolution → Answer) (digest : String) (o : Option SweepResolution)
      (table : List SweepResolution)
      → Joins second (after_clash digest o, table)
  unfolding Joins after_clash
  after_clash-Joins second digest none table = tt
  after_clash-Joins second digest (some r) table =
      repeated-Joins second "idempotency_conflict" digest r table

  module _ (checks : List GuardedCheck) (table : List SweepResolution) (payload : Fields)
      (t : String) (amount : Option Decimal) (id later : ℕ) where
    -- the second call, which read `table` as well
    abbrev second_by_key : List SweepResolution → Answer
    second_by_key stored =
        resolve_by_key later checks table stored payload t amount
          (by_key (required_text "idempotency_key" payload) table)

    insert-Joins :
        (check : GuardedCheck) (tx : Transaction) (stored : List SweepResolution)
        → by_key (required_text "idempotency_key" payload) table ≡ none
        → validate_deposit checks payload ≡ ok (check, tx)
        → existing_resolution check tx table ≡ none
        → Joins second_by_key (insert (new_resolution id payload t amount check tx) stored)
    unfolding Joins insert resolve_by_key resolve_new settle repeated new_resolution after_clash
        clashes
    insert-Joins check tx stored e v x =
        elim (Bool-cases (any (clashes (new_resolution id payload t amount check tx)) stored)) [
          | inl p ↦ rw p (after_clash-Joins second_by_key (request_digest t payload) _ stored)
          | inr p ↦
              rw
                (
                  p,
                  e,
                  v,
                  x,
                  eq_refl check.deposit_id,
                  eq_refl (required_text "idempotency_key" payload),
                  eq_refl (request_digest t payload),
                )
                refl
        ]

    settle-Joins :
        (check : GuardedCheck) (tx : Transaction) (stored : List SweepResolution)
        (o : Option SweepResolution)
        → by_key (required_text "idempotency_key" payload) table ≡ none
        → validate_deposit checks payload ≡ ok (check, tx)
        → existing_resolution check tx table ≡ o
        → Joins second_by_key (settle (new_resolution id payload t amount check tx) o stored)
    unfolding settle new_resolution
    settle-Joins check tx stored none e v x = insert-Joins check tx stored e v x
    settle-Joins check tx stored (some r) e v x =
        repeated-Joins second_by_key "already_resolved" (request_digest t payload) r stored

    new-Joins :
        (stored : List SweepResolution) (v : Result (GuardedCheck × Transaction))
        → by_key (required_text "idempotency_key" payload) table ≡ none
        → validate_deposit checks payload ≡ v
        → Joins second_by_key (resolve_new id table stored payload t amount v)
    unfolding resolve_new Joins
    new-Joins stored (err x) e p = tt
    new-Joins stored (ok (check, tx)) e p =
        settle-Joins check tx stored (existing_resolution check tx table) e p refl

    by_key-Joins :
        (stored : List SweepResolution) (o : Option SweepResolution)
        → by_key (required_text "idempotency_key" payload) table ≡ o
        → Joins second_by_key (resolve_by_key id checks table stored payload t amount o)
    unfolding resolve_by_key
    by_key-Joins stored none e = new-Joins stored (validate_deposit checks payload) e refl
    by_key-Joins stored (some r) e =
        repeated-Joins second_by_key "idempotency_conflict" (request_digest t payload) r stored

  valid-Joins :
      (checks : List GuardedCheck) (payload : Fields) (id later : ℕ)
      (table stored : List SweepResolution) (v : Result (String × Option Decimal))
      → Joins
          (λ after. resolve_valid later checks table after payload v)
          (resolve_valid id checks table stored payload v)
  unfolding resolve_valid Joins
  valid-Joins checks payload id later table stored (err x) = tt
  valid-Joins checks payload id later table stored (ok (t, amount)) =
      by_key-Joins checks table payload t amount id later stored
        (by_key (required_text "idempotency_key" payload) table) refl

  request-Joins :
      (checks : List GuardedCheck) (id later : ℕ) (table stored : List SweepResolution)
      (request : Value)
      → Joins
          (λ after. record_sweep_resolution later checks table after request)
          (record_sweep_resolution id checks table stored request)
  unfolding record_sweep_resolution Joins
  request-Joins checks id later table stored (dict payload) =
      valid-Joins checks payload id later table stored (validate_basic_payload payload)
  request-Joins checks id later table stored null = tt
  request-Joins checks id later table stored (bool b) = tt
  request-Joins checks id later table stored (num n) = tt
  request-Joins checks id later table stored (float s) = tt
  request-Joins checks id later table stored (text s) = tt
  request-Joins checks id later table stored (list vs) = tt

  -- Two workers carry out the same resolution request, and both read the resolutions before either
  -- commits: when the first one has inserted a resolution, the second one, whose insertion then meets
  -- the unique constraints, answers with that resolution, tells that it was there, and inserts nothing.
  pub resolution_race :
      (checks : List GuardedCheck) (id later : ℕ) (table stored after : List SweepResolution)
      (request : Value) (r : SweepResolution)
      → record_sweep_resolution id checks table stored request ≡ (ok (r, false), after)
      → record_sweep_resolution later checks table after request ≡ (ok (r, true), after)
  unfolding Joins
  resolution_race checks id later table stored after request r h =
      subst (Joins (λ x. record_sweep_resolution later checks table x request)) h
        (request-Joins checks id later table stored request)
