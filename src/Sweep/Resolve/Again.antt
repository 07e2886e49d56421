-- ===== src/Sweep/Resolve/Again.antt =====
-- A resolution request that is repeated.
use shkeeper_io.Prelude.{
  ℕ, ◌≡◌, inl, inr, refl, Bool, true, String, Option, none, some, List, any, str_eq, eq_refl,
  Bool-cases,
}
use mathlib.Core.Path.{subst, ◌∙◌}
use shkeeper_io.Prelude.Json.{Value, null, bool, num, float, text, list, dict, Fields}
use shkeeper_io.Errors.{Result, ok, err}
use shkeeper_io.Context.{Context, Decimal}
use shkeeper_io.Sweep.Resolve.{
  SweepResolution, GuardedCheck, Transaction, Answer, record_sweep_resolution, resolve_valid,
  resolve_by_key, resolve_new, settle, insert, clashes, repeated, after_clash, by_key,
  existing_resolution, new_resolution, request_digest, required_text, validate_basic_payload,
  validate_deposit,
}

module _ ⦃ctx : Context⦄ where
  -- the request, sent again to the table that the answer left, gets the same resolution
  Repeats : (List SweepResolution → Answer) → Answer → Type 0
  Repeats again (ok (r, b), after) = again after ≡ (ok (r, true), after)
  Repeats again (err e, after) = Unit

  repeated-Repeats :
      (again : List SweepResolution → Answer) (conflict digest : String) (r : SweepResolution)
      (table : List SweepResolution)
      → (str_eq r.request_digest digest ≡ true → again table ≡ (ok (r, true), table))
      → Repeats again (repeated conflict digest r, table)
  unfolding Repeats repeated
  repeated-Repeats again conflict digest r table h =
      elim (Bool-cases (str_eq r.request_digest digest)) [ inl p ↦ rw p (h p) | inr p ↦ rw p tt ]

  module _ (checks : List GuardedCheck) (payload : Fields) (t : String) (amount : Option Decimal)
      (id later : ℕ) where
    -- the request once its payload is read
    abbrev again_by_key : List SweepResolution → Answer
    again_by_key after =
        resolve_by_key later checks after after payload t amount
          (by_key (required_text "idempotency_key" payload) after)

    insert-Repeats :
        (check : GuardedCheck) (tx : Transaction) (table : List SweepResolution)
        → by_key (required_text "idempotency_key" payload) table ≡ none
        → Repeats again_by_key (insert (new_resolution id payload t amount check tx) table)
    unfolding Repeats insert resolve_by_key repeated new_resolution after_clash
    insert-Repeats check tx table e =
        elim (Bool-cases (any (clashes (new_resolution id payload t amount check tx)) table)) [
          | inl p ↦ rw (p, e) tt
          | inr p ↦
              rw
                (
                  p,
                  eq_refl (required_text "idempotency_key" payload),
                  eq_refl (request_digest t payload),
                )
                refl
        ]

    again_settled :
        (check : GuardedCheck) (tx : Transaction) (table : List SweepResolution)
        → by_key (required_text "idempotency_key" payload) table ≡ none
        → validate_deposit checks payload ≡ ok (check, tx)
        → again_by_key table
          ≡ settle
              (new_resolution later payload t amount check tx)
              (existing_resolution check tx table)
              table
    unfolding resolve_by_key resolve_new
    again_settled check tx table e v = rw (e, v) refl

    settle-Repeats :
        (check : GuardedCheck) (tx : Transaction) (table : List SweepResolution)
        (o : Option SweepResolution)
        → by_key (required_text "idempotency_key" payload) table ≡ none
        → validate_deposit checks payload ≡ ok (check, tx)
        → existing_resolution check tx table ≡ o
        → Repeats again_by_key (settle (new_resolution id payload t amount check tx) o table)
    unfolding settle new_resolution repeated
    settle-Repeats check tx table none e v x = insert-Repeats check tx table e
    settle-Repeats check tx table (some r) e v x =
        repeated-Repeats again_by_key "already_resolved" (request_digest t payload) r table
          (λ p. again_settled check tx table e v ∙ settled p)
      where
        settled :
            str_eq r.request_digest (request_digest t payload) ≡ true
            → settle
                (new_resolution later payload t amount check tx)
                (existing_resolution check tx table)
                table
              ≡ (ok (r, true), table)
        settled p = rw (x, p) refl

    new-Repeats :
        (table : List SweepResolution) (v : Result (GuardedCheck × Transaction))
        → by_key (required_text "idempotency_key" payload) table ≡ none
        → validate_deposit checks payload ≡ v
        → Repeats again_by_key (resolve_new id table table payload t amount v)
    unfolding resolve_new Repeats
    new-Repeats table (err x) e p = tt
    new-Repeats table (ok (check, tx)) e p =
        settle-Repeats check tx table (existing_resolution check tx table) e p refl

    by_key-Repeats :
        (table : List SweepResolution) (o : Option SweepResolution)
        → by_key (required_text "idempotency_key" payload) table ≡ o
        → Repeats again_by_key (resolve_by_key id checks table table payload t amount o)
    unfolding resolve_by_key repeated
    by_key-Repeats table none e = new-Repeats table (validate_deposit checks payload) e refl
    by_key-Repeats table (some r) e =
        repeated-Repeats again_by_key "idempotency_conflict" (request_digest t payload) r table
          (λ p. rw (e, p) refl)

  valid-Repeats :
      (checks : List GuardedCheck) (payload : Fields) (id later : ℕ) (table : List SweepResolution)
      (v : Result (String × Option Decimal))
      → Repeats
          (λ after. resolve_valid later checks after after payload v)
          (resolve_valid id checks table table payload v)
  unfolding resolve_valid Repeats
  valid-Repeats checks payload id later table (err x) = tt
  valid-Repeats checks payload id later table (ok (t, amount)) =
      by_key-Repeats checks payload t amount id later table
        (by_key (required_text "idempotency_key" payload) table) refl

  request-Repeats :
      (checks : List GuardedCheck) (id later : ℕ) (table : List SweepResolution) (request : Value)
      → Repeats
          (λ after. record_sweep_resolution later checks after after request)
          (record_sweep_resolution id checks table table request)
  unfolding record_sweep_resolution Repeats
  request-Repeats checks id later table (dict payload) =
      valid-Repeats checks payload id later table (validate_basic_payload payload)
  request-Repeats checks id later table null = tt
  request-Repeats checks id later table (bool b) = tt
  request-Repeats checks id later table (num n) = tt
  request-Repeats checks id later table (float s) = tt
  request-Repeats checks id later table (text s) = tt
  request-Repeats checks id later table (list vs) = tt

  -- A resolution request that was answered, with no other request between its look-ups and its
  -- commit, can be repeated: it gets the same resolution, is told that it was there, and changes
  -- nothing.
  pub resolution_again :
      (checks : List GuardedCheck) (id later : ℕ) (table after : List SweepResolution)
      (request : Value) (r : SweepResolution) (b : Bool)
      → record_sweep_resolution id checks table table request ≡ (ok (r, b), after)
      → record_sweep_resolution later checks after after request ≡ (ok (r, true), after)
  unfolding Repeats
  resolution_again checks id later table after request r b h =
      subst (Repeats (λ x. record_sweep_resolution later checks x x request)) h
        (request-Repeats checks id later table request)
