-- ===== src/Aml/Processing/Timeout.antt =====
-- A pass over the open checks after their timeouts.
use shkeeper_io.Prelude.{
  ℕ, ◌≡◌, inl, inr, refl, true, false, Option, none, some, List, [], ◌∷◌, ◌≤◌, arith, All, le→leb,
  is_some, Bool-cases,
}
use shkeeper_io.Errors.{Result, ok, err}
use shkeeper_io.Context.{Context}
use shkeeper_io.Aml.Check.{Library, AmlStatus}
use shkeeper_io.Aml.Policy.Decide.{is_terminal}
use shkeeper_io.Aml.Processing.{
  Sidecar, Row, Check, resolve_timeout, has_passed, is_open, not_after, process_check, process_row,
  continued, process_pending_aml_checks,
}
use shkeeper_io.Aml.Processing.Tracked.{AllTracked, TracksRow, IsTracked}

module _ ⦃ctx : Context⦄ ⦃lib : Library⦄ where
  -- the clock has reached the time, where there is one
  abbrev pub Reached : ℕ → Option ℕ → Type 0
  Reached now none = Unit
  Reached now (some t) = t ≤ now

  abbrev pub ReachedRow : ℕ → Option Check → Type 0
  ReachedRow now none = Unit
  ReachedRow now (some c) = Reached now c.timeout_at × Reached now c.next_retry_at

  -- the row has no check, or one that is settled
  abbrev pub SettledRow : Option Check → Type 0
  SettledRow none = Unit
  SettledRow (some c) = is_terminal c.status ≡ true

  Reached-not_after : (now : ℕ) (t : Option ℕ) → Reached now t → not_after t now ≡ true
  Reached-not_after now none h = refl
  Reached-not_after now (some t) h = le→leb t now h

  Reached-has_passed :
      (now : ℕ) (t : Option ℕ) → is_some t ≡ true → Reached now t → has_passed t now ≡ true
  Reached-has_passed now none s h = absurd (cc)
  Reached-has_passed now (some t) s h = le→leb t now h

  open_status : (s : AmlStatus) → is_terminal s ≡ false → is_open s ≡ true
  open_status s h = ground arith

  closed_status : (s : AmlStatus) → is_terminal s ≡ true → is_open s ≡ false
  closed_status s h = ground arith

  -- what the pass does to a row: it keeps a settled check, and times out an open one
  Settles : Row → Result Row → Type 0
  Settles tx (ok row) = SettledRow row.aml_check
  Settles tx (err e) = ⊥

  timed_out :
      (sidecar : Sidecar) (now : ℕ) (tx : Row) (c : Check)
      → has_passed c.timeout_at now ≡ true
      → process_check sidecar now tx c ≡ ok (resolve_timeout c)
  unfolding process_check
  timed_out sidecar now tx c h = rw h refl

  process_some-Settles :
      (sidecar : Sidecar) (now : ℕ) (tx : Row) (c : Check)
      → tx.aml_check ≡ some c
      → IsTracked c
      → Reached now c.timeout_at
      → Reached now c.next_retry_at
      → Settles tx (process_row sidecar now tx (some c))
  unfolding process_row Settles resolve_timeout
  process_some-Settles sidecar now tx c e t r n = elim (Bool-cases (is_terminal c.status)) [
    | inl p ↦ rw (closed_status c.status p, e) p
    | inr p ↦
        rw
          (
            open_status c.status p,
            Reached-not_after now c.next_retry_at n,
            timed_out sidecar now tx c (Reached-has_passed now c.timeout_at (t.limited p) r),
          )
          refl
  ]

  process_row-Settles :
      (sidecar : Sidecar) (now : ℕ) (tx : Row) (o : Option Check)
      → tx.aml_check ≡ o
      → TracksRow o
      → ReachedRow now o
      → Settles tx (process_row sidecar now tx o)
  unfolding process_row Settles
  process_row-Settles sidecar now tx none e t r = rw e tt
  process_row-Settles sidecar now tx (some c) e t (r, n) =
      process_some-Settles sidecar now tx c e t r n

  continued-Settles :
      (tx : Row) (rest after : List Row) (r : Result Row)
      → Settles tx r
      → All (λ (x : Row). SettledRow x.aml_check) after
      → All (λ (x : Row). SettledRow x.aml_check) (continued tx rest after r)
  unfolding Settles
  continued-Settles tx rest after (ok row) s k = (s, k)
  continued-Settles tx rest after (err e) s k = absurd s

  -- When the clock has reached the timeout and the next retry of each check, one pass settles all of
  -- them, whatever the sidecar would answer.
  pub overdue_pass_settles :
      (sidecar : Sidecar) (now : ℕ) (table : List Row)
      → AllTracked table
      → All (λ (tx : Row). ReachedRow now tx.aml_check) table
      → All (λ (tx : Row). SettledRow tx.aml_check) (process_pending_aml_checks sidecar now table)
  unfolding process_pending_aml_checks
  overdue_pass_settles sidecar now [] t r = tt
  overdue_pass_settles sidecar now (tx ∷ rest) (t, ts) (r, rs) =
      continued-Settles tx rest _ (process_row sidecar now tx tx.aml_check)
        (process_row-Settles sidecar now tx tx.aml_check refl t r)
        (overdue_pass_settles sidecar now rest ts rs)
