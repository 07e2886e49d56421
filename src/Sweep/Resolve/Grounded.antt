-- ===== src/Sweep/Resolve/Grounded.antt =====
-- The deposits for which resolutions are recorded.
use shkeeper_io.Prelude.{
  ℕ, ◌≡◌, inl, inr, refl, ap, Bool, true, false, String, Option, none, some, List, [], ◌∷◌, Memᴰ,
  any, first, str_eq, arith, Bool-cases,
}
use mathlib.Core.Path.{subst}
use shkeeper_io.Prelude.Json.{dict, Fields}
use shkeeper_io.Errors.{Result, ok, err}
use shkeeper_io.Context.{Context, Decimal}
use shkeeper_io.Aml.Check.{AmlStatus, manual_review, DepositDecision, credit, hold_for_review}
use shkeeper_io.Sweep.Resolve.{
  SweepResolution, GuardedCheck, Transaction, Answer, record_sweep_resolution, resolve_valid,
  resolve_by_key, resolve_new, settle, insert, clashes, repeated, after_clash, by_key,
  existing_resolution, new_resolution, required_text, validate_basic_payload, validate_deposit,
  found_check, is_manual_review, holds, is_terminal_reason, matches,
}

module _ ⦃ctx : Context⦄ where
  -- what has to hold of a deposit for which a resolution is recorded
  pub record IsResolvable (checks : List GuardedCheck) (payload : Fields) (row : SweepResolution)
      : Type 0 where
    pub check : GuardedCheck
    pub tx : Transaction
    pub known : Memᴰ check checks
    pub owner : check.transaction ≡ some tx
    pub guarded : check.sweep_guard_required ≡ true
    pub reviewed : check.status ≡ manual_review
    pub held : check.deposit_decision ≡ some hold_for_review
    pub final : is_terminal_reason check.decision_reason ≡ true
    pub same : matches payload check tx ≡ true
    pub deposit_id : row.deposit_id ≡ check.deposit_id
    pub transaction_id : row.transaction_id ≡ tx.id

  Mem-first : {A : Type 0} (p : A → Bool) (xs : List A) {x : A} → first p xs ≡ some x → Memᴰ x xs
  Mem-first p [] h = absurd (cc)
  Mem-first p (y ∷ ys) h = elim (Bool-cases (p y)) [
    | inl q ↦ Memᴰ.head (cc)
    | inr q ↦ Memᴰ.tail (Mem-first p ys (rw q at h))
  ]

  is_manual_review-eq : (s : AmlStatus) → is_manual_review s ≡ true → s ≡ manual_review
  is_manual_review-eq s h = ground arith

  holds-eq : (o : Option DepositDecision) → holds o ≡ true → o ≡ some hold_for_review
  holds-eq (some credit) h = absurd (cc)
  holds-eq (some hold_for_review) h = refl
  holds-eq none h = absurd (cc)

  abbrev found : List GuardedCheck → Fields → Option GuardedCheck
  found checks payload =
      first (λ (c : GuardedCheck). str_eq c.deposit_id (required_text "deposit_id" payload)) checks

  found_inverse :
      (o : Option GuardedCheck) (check : GuardedCheck) → found_check o ≡ ok check → o ≡ some check
  found_inverse none check h = absurd (cc)
  found_inverse (some c) check h = ap some (ok_inj h)
    where
      ok_inj : {A : Type 0} {a b : A} → ok a ≡ ok b → a ≡ b
      ok_inj h = cc

  validate_deposit-IsResolvable :
      (checks : List GuardedCheck) (payload : Fields) (check : GuardedCheck) (tx : Transaction)
      (row : SweepResolution)
      → validate_deposit checks payload ≡ ok (check, tx)
      → row.deposit_id ≡ check.deposit_id
      → row.transaction_id ≡ tx.id
      → IsResolvable checks payload row
  unfolding validate_deposit
  validate_deposit-IsResolvable checks payload check tx row h d t = record {
    check = check;
    tx = tx;
    known = Mem-first _ checks (found_inverse (found checks payload) check (ground arith));
    owner = ground arith;
    guarded = ground arith;
    reviewed = is_manual_review-eq check.status (ground arith);
    held = holds-eq check.deposit_decision (ground arith);
    final = ground arith;
    same = ground arith;
    deposit_id = d;
    transaction_id = t;
  }

  -- a resolution that an answer says is new stands in front of the table, for a deposit that is
  -- resolvable
  IsNew : List GuardedCheck → Fields → List SweepResolution → Answer → Type 0
  IsNew checks payload stored (ok (row, false), after) =
      IsResolvable checks payload row × (after ≡ row ∷ stored)
  IsNew checks payload stored (ok (row, true), after) = after ≡ stored
  IsNew checks payload stored (err e, after) = after ≡ stored

  repeated-IsNew :
      (checks : List GuardedCheck) (payload : Fields) (stored : List SweepResolution)
      (conflict digest : String) (r : SweepResolution)
      → IsNew checks payload stored (repeated conflict digest r, stored)
  unfolding IsNew repeated
  repeated-IsNew checks payload stored conflict digest r =
      elim (Bool-cases (str_eq r.request_digest digest)) [ inl p ↦ rw p refl | inr p ↦ rw p refl ]

  after_clash-IsNew :
      (checks : List GuardedCheck) (payload : Fields) (stored : List SweepResolution)
      (digest : String) (o : Option SweepResolution)
      → IsNew checks payload stored (after_clash digest o, stored)
  unfolding IsNew after_clash
  after_clash-IsNew checks payload stored digest none = refl
  after_clash-IsNew checks payload stored digest (some r) =
      repeated-IsNew checks payload stored "idempotency_conflict" digest r

  insert-IsNew :
      (checks : List GuardedCheck) (payload : Fields) (stored : List SweepResolution)
      (row : SweepResolution)
      → IsResolvable checks payload row
      → IsNew checks payload stored (insert row stored)
  unfolding IsNew insert
  insert-IsNew checks payload stored row w = elim (Bool-cases (any (clashes row) stored)) [
    | inl p ↦ rw p (
        after_clash-IsNew checks payload stored row.request_digest
          (by_key row.idempotency_key stored))
    | inr p ↦ rw p (w, refl)
  ]

  settle-IsNew :
      (checks : List GuardedCheck) (payload : Fields) (stored : List SweepResolution)
      (row : SweepResolution) (o : Option SweepResolution)
      → IsResolvable checks payload row
      → IsNew checks payload stored (settle row o stored)
  unfolding settle
  settle-IsNew checks payload stored row none w = insert-IsNew checks payload stored row w
  settle-IsNew checks payload stored row (some r) w =
      repeated-IsNew checks payload stored "already_resolved" row.request_digest r

  resolve_new-IsNew :
      (id : ℕ) (checks : List GuardedCheck) (table stored : List SweepResolution) (payload : Fields)
      (t : String) (amount : Option Decimal) (v : Result (GuardedCheck × Transaction))
      → validate_deposit checks payload ≡ v
      → IsNew checks payload stored (resolve_new id table stored payload t amount v)
  unfolding IsNew resolve_new new_resolution
  resolve_new-IsNew id checks table stored payload t amount (err x) e = refl
  resolve_new-IsNew id checks table stored payload t amount (ok (check, tx)) e =
      settle-IsNew checks payload stored (new_resolution id payload t amount check tx)
        (existing_resolution check tx table)
        (validate_deposit-IsResolvable checks payload check tx
          (new_resolution id payload t amount check tx) e refl refl)

  by_key-IsNew :
      (id : ℕ) (checks : List GuardedCheck) (table stored : List SweepResolution) (payload : Fields)
      (t : String) (amount : Option Decimal) (o : Option SweepResolution)
      → IsNew checks payload stored (resolve_by_key id checks table stored payload t amount o)
  unfolding resolve_by_key
  by_key-IsNew id checks table stored payload t amount none =
      resolve_new-IsNew id checks table stored payload t amount (validate_deposit checks payload)
        refl
  by_key-IsNew id checks table stored payload t amount (some r) =
      repeated-IsNew checks payload stored "idempotency_conflict" _ r

  valid-IsNew :
      (id : ℕ) (checks : List GuardedCheck) (table stored : List SweepResolution) (payload : Fields)
      (v : Result (String × Option Decimal))
      → IsNew checks payload stored (resolve_valid id checks table stored payload v)
  unfolding IsNew resolve_valid
  valid-IsNew id checks table stored payload (err x) = refl
  valid-IsNew id checks table stored payload (ok (t, amount)) =
      by_key-IsNew id checks table stored payload t amount
        (by_key (required_text "idempotency_key" payload) table)

  -- A resolution is recorded only for a guarded deposit that a settled check left in manual review,
  -- whose transaction, coin, address and network are those of the request; and it is then the one
  -- row that the table gains.
  pub recorded-IsResolvable :
      (id : ℕ) (checks : List GuardedCheck) (table stored after : List SweepResolution)
      (payload : Fields) (row : SweepResolution)
      → record_sweep_resolution id checks table stored (dict payload) ≡ (ok (row, false), after)
      → IsResolvable checks payload row × (after ≡ row ∷ stored)
  unfolding IsNew record_sweep_resolution
  recorded-IsResolvable id checks table stored after payload row h =
      subst (IsNew checks payload stored) h
        (valid-IsNew id checks table stored payload (validate_basic_payload payload))
