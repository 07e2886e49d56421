-- ===== src/Payout/Transition/History.antt =====
-- The events of an execution, read as a history of its row.
use shkeeper_io.Prelude.{
  ℕ, ◌+◌, ◌≡◌, refl, true, false, some, List, [], ◌∷◌, ◌++◌, arith, length, sym, ap, ◌∙◌, All,
  All-append,
}
use mathlib.Core.Path.{subst, subst₂}
use shkeeper_io.Prelude.Json.{Value, null, text}
use shkeeper_io.Errors.{Result}
use shkeeper_io.Context.{Context, Env}
use shkeeper_io.Payout.States.{State, state_name}
use shkeeper_io.Payout.Row.{Execution, Event, Session, Audit}
use shkeeper_io.Payout.Callback.Told.{told, Announces}
use shkeeper_io.Payout.Transition.Outcome.{
  moved-id, moved-state, moved-version, quiet-state, Outcome, quiet, told as spoken, refused,
  transition-Outcome,
}
use shkeeper_io.Payout.Transition.{Move, event_required, moved, transition}

-- From state `p` at version `v`, the events lead to state `q` at version `w`: each has the next
-- version, and starts from the state in which the one before it ended.
abbrev pub Leads : Value → ℕ → List Event → Value → ℕ → Type 0
Leads p v [] q w = (p ≡ q) × (v ≡ w)
Leads p v (e ∷ es) q w =
    (e.event_version ≡ v + 1)
    × (told "previous_state" e.payload ≡ p)
    × Leads (told "state" e.payload) (v + 1) es q w

-- The events number 1, 2, … without a gap, chain from the creation, and end at the row's state
-- and version; all of them are of this execution.
pub record IsHistory (s : Session) : Type 0 where
  pub chain : Leads null 0 s.events (text (state_name s.execution.state)) s.execution.event_version
  pub own : All (λ (e : Event). e.execution_id ≡ s.execution.id) s.events

pub Leads-append :
    (p : Value) (v : ℕ) (es : List Event) (q : Value) (w : ℕ) (e : Event)
    → Leads p v es q w
    → e.event_version ≡ w + 1
    → told "previous_state" e.payload ≡ q
    → Leads p v (es ++ e ∷ []) (told "state" e.payload) (w + 1)
Leads-append p v [] q w e h hv hp =
    (hv ∙ ap (λ (k : ℕ). k + 1) (sym h.1), hp ∙ sym h.0, (refl, ap (λ (k : ℕ). k + 1) h.1))
Leads-append p v (x ∷ es) q w e h hv hp =
    (h.0, h.1, Leads-append (told "state" x.payload) (v + 1) es q w e h.2 hv hp)

pub Leads-length :
    (p : Value) (v : ℕ) (es : List Event) (q : Value) (w : ℕ) → Leads p v es q w → v + length es ≡ w
Leads-length p v [] q w h = omega (arith, h.1)
Leads-length p v (x ∷ es) q w h =
    omega (arith, Leads-length (told "state" x.payload) (v + 1) es q w h.2)

-- `e` is the committed row of `s` with changes that leave its identity and its state alone.
pub record IsDraft (e : Execution) (s : Session) : Type 0 where
  pub id : e.id ≡ s.execution.id
  pub state : e.state ≡ s.execution.state
  pub event_version : e.event_version ≡ s.execution.event_version

module _ (env : Env) (m : Move) (e : Execution) (s : Session) (d : IsDraft e s) where
  quiet-IsHistory :
      event_required m e ≡ false
      → IsHistory s
      → (audits : List Audit)
      → IsHistory (record { execution = moved env m e; events = s.events; audits = audits })
  quiet-IsHistory p h audits = record {
    chain =
        subst₂ (λ (q : Value) (w : ℕ). Leads null 0 s.events q w)
          (ap (λ (x : State). text (state_name x))
            (sym d.state ∙ quiet-state env m e p ∙ sym (moved-state env m e)))
          (sym d.event_version ∙ sym (rw p at (moved-version env m e))) h.chain;
    own =
        subst (λ (k : ℕ). All (λ (x : Event). x.execution_id ≡ k) s.events)
          (sym d.id ∙ sym (moved-id env m e)) h.own;
  }

  told-IsHistory :
      (event : Event)
      → event_required m e ≡ true
      → Announces event (moved env m e) (some e.state) m.state
      → IsHistory s
      → (audits : List Audit)
      → IsHistory
          (record { execution = moved env m e; events = s.events ++ event ∷ []; audits = audits })
  told-IsHistory event p a h audits = record {
    chain =
        subst₂ (λ (q : Value) (w : ℕ). Leads null 0 (s.events ++ event ∷ []) q w)
          (a.to_state ∙ ap (λ (x : State). text (state_name x)) (sym (moved-state env m e)))
          (sym version)
          (Leads-append null 0 s.events (text (state_name s.execution.state))
            s.execution.event_version event h.chain (a.event_version ∙ version)
            (a.from_state ∙ ap (λ (x : State). text (state_name x)) d.state));
    own =
        All-append (λ (x : Event). x.execution_id ≡ (moved env m e).id) s.events (event ∷ [])
          (subst (λ (k : ℕ). All (λ (x : Event). x.execution_id ≡ k) s.events)
            (sym d.id ∙ sym (moved-id env m e)) h.own)
          (a.execution_id, tt);
  }
    where
      version : (moved env m e).event_version ≡ s.execution.event_version + 1
      version = rw p at (moved-version env m e) ∙ ap (λ (k : ℕ). k + 1) d.event_version

module _ ⦃ctx : Context⦄ (env : Env) (m : Move) (e : Execution) (s : Session) where
  Outcome-IsHistory :
      {r : Result (Unit {0}) × Session}
      → Outcome env m e s r
      → IsDraft e s
      → IsHistory s
      → IsHistory r.1
  Outcome-IsHistory (quiet p) d h = quiet-IsHistory env m e s d p h _
  Outcome-IsHistory (spoken event p a) d h = told-IsHistory env m e s d event p a h _
  Outcome-IsHistory (refused x p) d h = h

  -- If the outbox is the gap-free history of the row, then it is so after a transition, committed or
  -- raising, of that row with other columns changed.
  pub transition-IsHistory : IsDraft e s → IsHistory s → IsHistory (transition env m e s).1
  transition-IsHistory = Outcome-IsHistory (transition-Outcome env m e s)
