-- ===== src/Payout/Transition/Outcome.antt =====
-- The three ways in which a transition ends.
use shkeeper_io.Prelude.{
  ◌+◌, ◌≤◌, ◌≡◌, refl, true, false, inl, inr, some, [], ◌∷◌, ◌++◌, arith, Bool-cases, if◌then◌else◌,
}
use shkeeper_io.Errors.{Error, Result, ok, err, Result-cases}
use shkeeper_io.Context.{Context, Env}
use shkeeper_io.Payout.States.{rank, state_eq-eq}
use shkeeper_io.Payout.Row.{Execution, Event, Session}
use shkeeper_io.Payout.Callback.{add_transition_event}
use shkeeper_io.Payout.Callback.Told.{Announces, event-Announces}
use shkeeper_io.Payout.Transition.{Move, event_required, moved, occurred, add_audit, transition}

module _ (env : Env) (m : Move) (e : Execution) where
  -- the row of a transition with an event, and of one without
  pub moved-id : (moved env m e).id ≡ e.id
  unfolding moved
  moved-id = elim (Bool-cases (event_required m e)) [ inl p ↦ rw p | inr p ↦ rw p ]

  pub moved-sidecar_version : (moved env m e).sidecar_state_version ≡ e.sidecar_state_version
  unfolding moved
  moved-sidecar_version = elim (Bool-cases (event_required m e)) [ inl p ↦ rw p | inr p ↦ rw p ]

  pub moved-resolution_evidence : (moved env m e).resolution_evidence ≡ e.resolution_evidence
  unfolding moved
  moved-resolution_evidence = elim (Bool-cases (event_required m e)) [ inl p ↦ rw p | inr p ↦ rw p ]

  pub moved-state : (moved env m e).state ≡ m.state
  unfolding moved
  moved-state = refl

  pub moved-version :
      (moved env m e).event_version
      ≡ (if event_required m e then e.event_version + 1 else e.event_version)
  unfolding moved
  moved-version = elim (Bool-cases (event_required m e)) [ inl p ↦ rw p | inr p ↦ rw p ]

  pub quiet-state : event_required m e ≡ false → e.state ≡ m.state
  quiet-state h = state_eq-eq e.state m.state (ground arith)

module _ ⦃ctx : Context⦄ (env : Env) (m : Move) (e : Execution) (s : Session) where
  abbrev row : Execution
  row = moved env m e

  -- `quiet`: the row is committed and nothing is told, since the state stays and no event is
  -- forced. `told`: the row and one event that announces it. `refused`: a raise, nothing changed.
  pub data Outcome : Result (Unit {0}) × Session → Type 0 where
    quiet :
        event_required m e ≡ false
        → Outcome (
          ok tt,
          record { execution = row; events = s.events; audits = add_audit m row s.audits },
        )
    told :
        (event : Event)
        → event_required m e ≡ true
        → Announces event row (some e.state) m.state
        → Outcome (
          ok tt,
          record {
            execution = row;
            events = s.events ++ event ∷ [];
            audits = add_audit m row s.audits;
          },
        )
    refused : (x : Error) → event_required m e ≡ true → Outcome (err x, s)

  pub transition-Outcome : Outcome (transition env m e s)
  unfolding transition
  transition-Outcome = elim (Bool-cases (event_required m e)) [
    | inr p ↦ rw p (quiet p)
    | inl p ↦
        elim (Result-cases (add_transition_event env row (some e.state) m.state (occurred env m))) [
          | inl (event, q) ↦
              rw (p, q)
                (told event p
                  (event-Announces env row (some e.state) m.state (occurred env m) event q))
          | inr (x, q) ↦ rw (p, q) (refused x p)
        ]
  ]

module _ ⦃ctx : Context⦄ (env : Env) (m : Move) (e : Execution) (s : Session) where
  late :
      {r : Result (Unit {0}) × Session}
      → Outcome env m e s r
      → rank m.state ≡ 0
      → rank r.1.execution.state ≤ rank s.execution.state
  late (quiet p) l = rw (moved-state env m e, l) (omega arith)
  late (told event p a) l = rw (moved-state env m e, l) (omega arith)
  late (refused x p) l = omega arith

  -- a transition into a later state does not raise the rank
  pub transition-rank :
      rank m.state ≡ 0 → rank (transition env m e s).1.execution.state ≤ rank s.execution.state
  transition-rank = late (transition-Outcome env m e s)

  reached :
      {r : Result (Unit {0}) × Session}
      → Outcome env m e s r
      → r.0 ≡ ok tt
      → r.1.execution.state ≡ m.state
  reached (quiet p) q = moved-state env m e
  reached (told event p a) q = moved-state env m e
  reached (refused x p) q = cc

  -- a transition that returns has reached its state
  pub transition-reaches :
      (transition env m e s).0 ≡ ok tt → (transition env m e s).1.execution.state ≡ m.state
  transition-reaches = reached (transition-Outcome env m e s)
