-- ===== src/Aml/Processing/Life.antt =====
-- The life of a deposit's check, as an abstract machine of four phases.
use shkeeper_io.Prelude.{
  ℕ, ◌≡◌, inl, inr, refl, sym, Bool, true, false, ◌||◌, Option, none, some, List, [], ◌∷◌, is_some,
  and-true, Bool-cases, if◌then◌else◌,
}
use mathlib.Core.Path.{subst}
use shkeeper_io.Errors.{Result, ok, err}
use shkeeper_io.Context.{Context}
use shkeeper_io.Aml.Check.{
  Library, AmlStatus, pending, checking, approved, declined, skipped, manual_review,
}
use shkeeper_io.Aml.Coverage.{get_coverage_policy, is_supported}
use shkeeper_io.Aml.Processing.{
  Sidecar, Row, Check, is_open, is_due, process_check, process_row, kept,
  ensure_aml_for_transaction, create_aml,
}

pub data Phase : Type 0 where
  unchecked waiting credited held : Phase

abbrev pub phase_of : AmlStatus → Phase
phase_of pending = waiting
phase_of checking = waiting
phase_of approved = credited
phase_of skipped = credited
phase_of declined = held
phase_of manual_review = held

-- one step of the machine: a phase that is credited or held is final
pub data Moves : Phase → Phase → Type 0 where
  stays : {p : Phase} → Moves p p
  starts : {p : Phase} → Moves unchecked p
  accepts : Moves waiting credited
  holds : Moves waiting held

-- a run of the machine
pub data Steps : Phase → Phase → Type 0 where
  finished : {p : Phase} → Steps p p
  moved : {p q r : Phase} → Moves p q → Steps q r → Steps p r

module _ ⦃ctx : Context⦄ ⦃lib : Library⦄ where
  abbrev pub phase : Option Check → Phase
  phase none = unchecked
  phase (some c) = phase_of c.status

  -- what may happen to a row: a notification asks for its check, or the loop comes to it
  pub data Event : Type 0 where
    asked : Sidecar → ℕ → List Row → Event
    polled_at : Sidecar → ℕ → Event

  -- a step of the loop that raises leaves the row
  abbrev settled_row : Row → Result Row → Row
  settled_row tx (ok row) = row
  settled_row tx (err e) = tx

  pub happen : Event → Row → Row
  happen (asked sidecar now table) tx = ensure_aml_for_transaction sidecar now table tx
  happen (polled_at sidecar now) tx = settled_row tx (process_row sidecar now tx tx.aml_check)

  pub run : List Event → Row → Row
  run [] tx = tx
  run (event ∷ events) tx = run events (happen event tx)

  from_waiting : (s : AmlStatus) → Moves waiting (phase_of s)
  from_waiting pending = stays
  from_waiting checking = stays
  from_waiting approved = accepts
  from_waiting skipped = accepts
  from_waiting declined = holds
  from_waiting manual_review = holds

  -- an open check is waiting
  open_step : (s t : AmlStatus) → is_open s ≡ true → Moves (phase_of s) (phase_of t)
  open_step pending t h = from_waiting t
  open_step checking t h = from_waiting t
  open_step approved t h = absurd (cc)
  open_step declined t h = absurd (cc)
  open_step skipped t h = absurd (cc)
  open_step manual_review t h = absurd (cc)

  kept-Moves :
      (tx : Row) (c : Check) (r : Result Check)
      → tx.aml_check ≡ some c
      → is_open c.status ≡ true
      → Moves (phase (some c)) (phase (settled_row tx (kept tx r)).aml_check)
  kept-Moves tx c (ok d) e h = open_step c.status d.status h
  kept-Moves tx c (err x) e h = rw e stays

  process_row-Moves :
      (sidecar : Sidecar) (now : ℕ) (tx : Row) (o : Option Check)
      → tx.aml_check ≡ o
      → Moves (phase o) (phase (settled_row tx (process_row sidecar now tx o)).aml_check)
  unfolding process_row
  process_row-Moves sidecar now tx none e = starts
  process_row-Moves sidecar now tx (some c) e = elim (Bool-cases (is_due now c)) [
    | inl d ↦ rw d (kept-Moves tx c (process_check sidecar now tx c) e (and-true _ _ d).0)
    | inr d ↦ rw (d, e) stays
  ]

  ensure-Moves :
      (sidecar : Sidecar) (now : ℕ) (table : List Row) (tx : Row) (o : Option Check)
      → tx.aml_check ≡ o
      → Moves (phase o) (phase (ensure_aml_for_transaction sidecar now table tx).aml_check)
  unfolding ensure_aml_for_transaction
  ensure-Moves sidecar now table tx none e = starts
  ensure-Moves sidecar now table tx (some c) e =
      subst (λ (x : Option Check). Moves (phase (some c)) (phase x)) (unchanged (tx.outgoing)) stays
    where
      unchanged :
          (b : Bool)
          → some c
            ≡ (if b || is_some tx.aml_check
                then tx
                else if is_supported (get_coverage_policy lib.provider tx.crypto)
                then create_aml sidecar now table tx
                else tx).aml_check
      unchanged true = sym e
      unchanged false = rw (e) refl

  happen-Moves :
      (event : Event) (tx : Row) → Moves (phase tx.aml_check) (phase (happen event tx).aml_check)
  unfolding happen
  happen-Moves (asked sidecar now table) tx = ensure-Moves sidecar now table tx tx.aml_check refl
  happen-Moves (polled_at sidecar now) tx = process_row-Moves sidecar now tx tx.aml_check refl

  -- Whatever happens to a deposit's check, in any order and with any answers or exceptions, is a run
  -- of the machine, in which a credited or a held deposit stays so.
  pub run-Steps :
      (events : List Event) (tx : Row)
      → Steps (phase tx.aml_check) (phase (run events tx).aml_check)
  unfolding run
  run-Steps [] tx = finished
  run-Steps (event ∷ events) tx = moved (happen-Moves event tx) (run-Steps events (happen event tx))
