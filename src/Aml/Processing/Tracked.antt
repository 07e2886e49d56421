-- ===== src/Aml/Processing/Tracked.antt =====
-- The times of a check: one that is not settled has a timeout, one that is settled has no retry.
use shkeeper_io.Prelude.{
  ℕ, ◌≡◌, inl, inr, refl, Bool, true, false, Option, none, some, List, [], ◌∷◌, arith, is_some,
  ◌||◌, All, Bool-cases, if◌then◌else◌,
}
use shkeeper_io.Prelude.Json.{Fields}
use shkeeper_io.Errors.{Result, ok, err, Result-cases}
use shkeeper_io.Context.{Context}
use shkeeper_io.Aml.Check.{Library}
use shkeeper_io.Aml.Client.{Answer, result, raised, request_result}
use shkeeper_io.Aml.Policy.{should_skip_aml, build_skipped_check, base_check}
use shkeeper_io.Aml.Policy.Decide.{is_terminal, decision_from_provider_result}
use shkeeper_io.Aml.Coverage.{get_coverage_policy, is_supported}
use shkeeper_io.Aml.Processing.{
  Sidecar, Row, Check, apply_snapshot, earlier_of, reschedule, resolve_from_result, timeout_from,
  resolve_retryable_sidecar_error, resolve_client_result, submitted, result_of, kept,
  is_retryable_sidecar_error, create_check_with_sidecar, resolve_timeout, refresh_aml_check,
  process_check, process_row, process_pending_aml_checks, ensure_aml_for_transaction, create_aml,
  start_check, stored, with_defaults, pending_check, has_passed, is_due, polled, continued,
  payload_for_sidecar,
}

earlier_of-some : (a b : Option ℕ) → is_some b ≡ true → is_some (earlier_of a b) ≡ true
earlier_of-some none b h = h
earlier_of-some (some t) b h = refl

module _ ⦃ctx : Context⦄ ⦃lib : Library⦄ where
  pub record IsTracked (c : Check) : Type 0 where
    pub limited : is_terminal c.status ≡ false → is_some c.timeout_at ≡ true
    pub settled : is_terminal c.status ≡ true → c.next_retry_at ≡ none

  -- what a step asks of the check that it starts from
  abbrev HasTimeout : Check → Type 0
  HasTimeout c = is_some c.timeout_at ≡ true

  settled_retry : (b : Bool) (t : Option ℕ) → b ≡ true → (if b then none else t) ≡ none
  settled_retry true t h = refl
  settled_retry false t h = absurd (cc)

  reschedule-IsTracked :
      (now : ℕ) (target source : Check)
      → HasTimeout target
      → IsTracked (reschedule now (apply_snapshot target source))
  unfolding reschedule apply_snapshot
  reschedule-IsTracked now target source h = record {
    limited = λ _. earlier_of-some source.timeout_at target.timeout_at h;
    settled = λ t. settled_retry _ _ t;
  }

  resolve_timeout-IsTracked : (c : Check) → IsTracked (resolve_timeout c)
  unfolding resolve_timeout
  resolve_timeout-IsTracked c = record { limited = λ h. absurd (cc); settled = λ h. refl }

  retryable-IsTracked :
      (now : ℕ) (c : Check) (fs : Fields) → IsTracked (resolve_retryable_sidecar_error now c fs)
  unfolding resolve_retryable_sidecar_error
  retryable-IsTracked now c fs = record {
    limited = λ h. earlier_or c.timeout_at (timeout_from now);
    settled = λ h. absurd (cc);
  }
    where
      earlier_or : (t : Option ℕ) (u : ℕ) → is_some (earlier_of t (some u)) ≡ true
      earlier_or none u = refl
      earlier_or (some t) u = refl

  abbrev Tracks : Result Check → Type 0
  Tracks (ok c) = IsTracked c
  Tracks (err e) = Unit

  from_result-Tracks :
      (now : ℕ) (tx : Row) (c : Check) (fs : Fields)
      → HasTimeout c
      → Tracks (resolve_from_result now tx c fs)
  unfolding resolve_from_result
  from_result-Tracks now tx c fs h = elim (Result-cases (decision_from_provider_result tx fs)) [
    | inl (d, p) ↦ rw p (reschedule-IsTracked now c d h)
    | inr (e, p) ↦ rw p tt
  ]

  client_result-Tracks :
      (now : ℕ) (tx : Row) (c : Check) (fs : Fields)
      → HasTimeout c
      → Tracks (resolve_client_result now tx c fs)
  unfolding resolve_client_result
  client_result-Tracks now tx c fs h = elim (Bool-cases (is_retryable_sidecar_error fs)) [
    | inl p ↦ rw p (retryable-IsTracked now c fs)
    | inr p ↦ rw p (from_result-Tracks now tx c fs h)
  ]

  submitted-HasTimeout : (a : Answer) (c : Check) → HasTimeout c → HasTimeout (submitted a c)
  unfolding submitted
  submitted-HasTimeout (result fs) c h = h
  submitted-HasTimeout (raised m) c h = h

  create-Tracks :
      (sidecar : Sidecar) (now : ℕ) (tx : Row) (c : Check)
      → HasTimeout c
      → Tracks (create_check_with_sidecar sidecar now tx c)
  unfolding create_check_with_sidecar
  create-Tracks sidecar now tx c h =
      let answer = request_result (sidecar.post (payload_for_sidecar tx c)) in
      client_result-Tracks now tx (submitted answer c) (result_of answer)
        (submitted-HasTimeout answer c h)

  either-Tracks :
      (b : Bool) (x y : Result Check) → Tracks x → Tracks y → Tracks (if b then x else y)
  either-Tracks true x y p q = p
  either-Tracks false x y p q = q

  refresh-Tracks :
      (sidecar : Sidecar) (now : ℕ) (tx : Row) (c : Check)
      → HasTimeout c
      → Tracks (refresh_aml_check sidecar now tx c)
  unfolding refresh_aml_check
  refresh-Tracks sidecar now tx c h =
      either-Tracks (has_passed c.timeout_at now) _ _ (resolve_timeout-IsTracked c) (
        either-Tracks c.create_check_submitted _ _
          (client_result-Tracks now tx c (polled sidecar c) h) (create-Tracks sidecar now tx c h))

  process_check-Tracks :
      (sidecar : Sidecar) (now : ℕ) (tx : Row) (c : Check)
      → HasTimeout c
      → Tracks (process_check sidecar now tx c)
  unfolding process_check
  process_check-Tracks sidecar now tx c h =
      either-Tracks (has_passed c.timeout_at now) _ _ (resolve_timeout-IsTracked c)
        (refresh-Tracks sidecar now tx c h)

  -- the check of a row, where it has one
  abbrev pub TracksRow : Option Check → Type 0
  TracksRow none = Unit
  TracksRow (some c) = IsTracked c

  abbrev TracksResult : Result Row → Type 0
  TracksResult (ok tx) = TracksRow tx.aml_check
  TracksResult (err e) = Unit

  kept-Tracks : (tx : Row) (r : Result Check) → Tracks r → TracksResult (kept tx r)
  kept-Tracks tx (ok c) h = h
  kept-Tracks tx (err e) h = tt

  open-limited : (now : ℕ) (c : Check) → is_due now c ≡ true → is_terminal c.status ≡ false
  open-limited now c h = ground arith

  process_some-Tracks :
      (sidecar : Sidecar) (now : ℕ) (tx : Row) (c : Check)
      → tx.aml_check ≡ some c
      → IsTracked c
      → TracksResult (process_row sidecar now tx (some c))
  unfolding process_row
  process_some-Tracks sidecar now tx c e t = elim (Bool-cases (is_due now c)) [
    | inl p ↦ rw p (
        kept-Tracks tx (process_check sidecar now tx c)
          (process_check-Tracks sidecar now tx c (t.limited (open-limited now c p))))
    | inr p ↦ rw (p, e) t
  ]

  process_row-Tracks :
      (sidecar : Sidecar) (now : ℕ) (tx : Row) (o : Option Check)
      → tx.aml_check ≡ o
      → TracksRow o
      → TracksResult (process_row sidecar now tx o)
  unfolding process_row
  process_row-Tracks sidecar now tx none e t = rw e tt
  process_row-Tracks sidecar now tx (some c) e t = process_some-Tracks sidecar now tx c e t

  abbrev pub AllTracked : List Row → Type 0
  AllTracked = All (λ (tx : Row). TracksRow tx.aml_check)

  continued-AllTracked :
      (tx : Row) (rest after : List Row) (r : Result Row)
      → TracksRow tx.aml_check
      → TracksResult r
      → AllTracked rest
      → AllTracked after
      → AllTracked (continued tx rest after r)
  continued-AllTracked tx rest after (ok row) h t hs k = (t, k)
  continued-AllTracked tx rest after (err e) h t hs k = (h, hs)

  -- A pass over the open checks keeps the times in order: a check that is not settled has a timeout,
  -- and one that is settled is not retried, also where the pass is ended by an exception.
  pub pending_pass-AllTracked :
      (sidecar : Sidecar) (now : ℕ) (table : List Row)
      → AllTracked table
      → AllTracked (process_pending_aml_checks sidecar now table)
  unfolding process_pending_aml_checks
  pending_pass-AllTracked sidecar now [] h = tt
  pending_pass-AllTracked sidecar now (tx ∷ rest) (h, hs) =
      continued-AllTracked tx rest _ (process_row sidecar now tx tx.aml_check) h
        (process_row-Tracks sidecar now tx tx.aml_check refl h) hs
        (pending_pass-AllTracked sidecar now rest hs)

  pending_check-IsTracked : (now : ℕ) (tx : Row) → IsTracked (with_defaults (pending_check now tx))
  unfolding with_defaults pending_check
  pending_check-IsTracked now tx = record { limited = λ h. refl; settled = λ h. absurd (cc) }

  skipped_check-IsTracked :
      (now : ℕ) (table : List Row) (tx : Row)
      → IsTracked (with_defaults (build_skipped_check now table tx))
  unfolding with_defaults build_skipped_check base_check
  skipped_check-IsTracked now table tx = record { limited = λ h. absurd (cc); settled = λ h. refl }

  stored-Tracks :
      (tx : Row) (r : Result Check)
      → TracksRow tx.aml_check
      → Tracks r
      → TracksRow (stored tx r).aml_check
  stored-Tracks tx (ok c) t h = h
  stored-Tracks tx (err e) t h = t

  either_row-Tracks :
      (b : Bool) (x y : Row)
      → TracksRow x.aml_check
      → TracksRow y.aml_check
      → TracksRow (if b then x else y).aml_check
  either_row-Tracks true x y p q = p
  either_row-Tracks false x y p q = q

  start-Tracks :
      (sidecar : Sidecar) (now : ℕ) (tx : Row)
      → TracksRow (start_check sidecar now tx (with_defaults (pending_check now tx))).aml_check
  unfolding start_check with_defaults pending_check
  start-Tracks sidecar now tx =
      stored-Tracks _ _ (pending_check-IsTracked now tx) (create-Tracks sidecar now _ _ refl)

  -- Asking for the check of a transaction, whatever the sidecar answers, leaves it with no check or
  -- with one whose times are in order, where that held before.
  pub ensure_aml-Tracks :
      (sidecar : Sidecar) (now : ℕ) (table : List Row) (tx : Row)
      → TracksRow tx.aml_check
      → TracksRow (ensure_aml_for_transaction sidecar now table tx).aml_check
  unfolding ensure_aml_for_transaction create_aml
  ensure_aml-Tracks sidecar now table tx h =
      either_row-Tracks (tx.outgoing || is_some tx.aml_check) _ _ h (
        either_row-Tracks (is_supported (get_coverage_policy lib.provider tx.crypto)) _ _
          (either_row-Tracks (should_skip_aml now table tx) _ _
            (skipped_check-IsTracked now table tx) (start-Tracks sidecar now tx))
          h)
