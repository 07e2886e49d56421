-- ===== src/Payout/Callback/Told.antt =====
-- What an event of `add_transition_event` says.
use shkeeper_io.Prelude.{ℕ, ◌≡◌, refl, String, Option, none, some, inl, inr, sym}
use shkeeper_io.Prelude.Json.{Value, null, text, get, dict, Fields}
use mathlib.Core.Path.{subst}
use shkeeper_io.Errors.{Result, ok, err, Result-cases, ok_ne_err}
use shkeeper_io.Context.{Context, Env}
use shkeeper_io.Payout.States.{State, state_name}
use shkeeper_io.Payout.Row.{Execution, Event, pending}
use shkeeper_io.Payout.Callback.{
  add_transition_event, new_event, payload, require_endpoint_configured, signed_callback_metadata,
}

-- a member of the event's payload
abbrev pub told : String → Value → Value
told k (dict fs) = get k fs
told k v = null

abbrev pub name_of : Option State → Value
name_of none = null
name_of (some s) = text (state_name s)

-- The event carries the row's id, version and transition, tells both states, and is undelivered.
pub record Announces (event : Event) (row : Execution) (previous : Option State) (current : State)
    : Type 0 where
  pub execution_id : event.execution_id ≡ row.id
  pub event_version : event.event_version ≡ row.event_version
  pub transition_id : event.state_transition_id ≡ row.state_transition_id
  pub from_state : told "previous_state" event.payload ≡ name_of previous
  pub to_state : told "state" event.payload ≡ text (state_name current)
  pub undelivered : event.dispatch_status ≡ pending

module _ ⦃ctx : Context⦄ where
  told-previous_state :
      (row : Execution) (previous : Option State) (current : State) (id : String) (t : ℕ)
      → told "previous_state" (payload row previous current id t) ≡ name_of previous
  unfolding payload
  told-previous_state row none current id t = refl
  told-previous_state row (some p) current id t = refl

  told-state :
      (row : Execution) (previous : Option State) (current : State) (id : String) (t : ℕ)
      → told "state" (payload row previous current id t) ≡ text (state_name current)
  unfolding payload
  told-state row previous current id t = refl

  new_event-Announces :
      (env : Env) (row : Execution) (previous : Option State) (current : State) (t : ℕ)
      (metadata : String × String × String)
      → Announces
          (new_event env row (payload row previous current env.event_id t) t metadata)
          row
          previous
          current
  unfolding new_event
  new_event-Announces env row previous current t metadata = record {
    execution_id = refl;
    event_version = refl;
    transition_id = refl;
    from_state = told-previous_state row previous current env.event_id t;
    to_state = told-state row previous current env.event_id t;
    undelivered = refl;
  }

  pub event-Announces :
      (env : Env) (row : Execution) (previous : Option State) (current : State) (t : ℕ)
      (event : Event)
      → add_transition_event env row previous current t ≡ ok event
      → Announces event row previous current
  unfolding add_transition_event
  event-Announces env row previous current t event h =
      elim (Result-cases (require_endpoint_configured row.consumer row.callback_endpoint_id)) [
        | inr (x, p) ↦ absurd (ok_ne_err (sym (rw p at h)))
        | inl (endpoint, p) ↦ elim (Result-cases (metadata endpoint)) [
          | inr (x, q) ↦ absurd (ok_ne_err (sym (rw (p, q) at h)))
          | inl (data', q) ↦
              subst (λ (r : Result Event). of_ok r) (rw (p, q) at h)
                (new_event-Announces env row previous current t data')
        ]
      ]
    where
      metadata : Fields → Result (String × String × String)
      metadata endpoint =
          signed_callback_metadata row.consumer endpoint
            (ctx.dumps (payload row previous current env.event_id t)) env.timestamp env.event_id

      of_ok : Result Event → Type 0
      of_ok (ok x) = Announces x row previous current
      of_ok (err x) = Unit
