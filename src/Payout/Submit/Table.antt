-- ===== src/Payout/Submit/Table.antt =====
-- What `submit` does to the table of executions.
use shkeeper_io.Prelude.{ℕ, ◌≡◌, refl, inl, inr, String, Option, none, some, List, [], ◌∷◌, All}
use mathlib.Core.Path.{subst}
use shkeeper_io.Prelude.Json.{Value, Fields}
use shkeeper_io.Errors.{Result, ok, err, Result-cases}
use shkeeper_io.Context.{Context, Env}
use shkeeper_io.Payout.States.{created}
use shkeeper_io.Payout.Row.{Event, Session}
use shkeeper_io.Payout.Rail.{Rail}
use shkeeper_io.Payout.Callback.{add_transition_event}
use shkeeper_io.Payout.Callback.Told.{Announces, event-Announces}
use shkeeper_io.Payout.Transition.History.{IsHistory}
use shkeeper_io.Payout.Submit.Contract.{Request}
use shkeeper_io.Payout.Submit.{
  new_row, created_row, new_session, find, insert, insert_accepted, accept, by_existing,
  by_identity, identify, submit,
}

-- no two rows have the same consumer and external id
abbrev pub Distinct : List Session → Type 0
Distinct [] = Unit
Distinct (s ∷ table) =
    (find s.execution.consumer s.execution.external_id table ≡ none) × Distinct table

module _ ⦃ctx : Context⦄ (env : Env) (id : ℕ) (consumer : String) where
  -- a new execution: its keys, and its history, which is its first event
  pub record IsNew (q : Request) (rail : Rail) (s : Session) : Type 0 where
    pub execution : s.execution ≡ created_row env id consumer q rail
    pub history : IsHistory s

  created-IsHistory :
      (q : Request) (rail : Rail) (event : Event)
      → Announces event (created_row env id consumer q rail) none created
      → IsHistory (record {
        execution = created_row env id consumer q rail;
        events = event ∷ [];
        audits = [];
      })
  unfolding created_row new_row
  created-IsHistory q rail event a = record {
    chain = (a.event_version, a.from_state, (a.to_state, refl));
    own = (a.execution_id, tt);
  }

  pub new_session-IsNew :
      (q : Request) (rail : Rail) (s : Session)
      → new_session env id consumer q rail ≡ ok s
      → IsNew q rail s
  unfolding new_session
  new_session-IsNew q rail s h =
      let e = created_row env id consumer q rail in
      elim (Result-cases (add_transition_event env e none created env.now)) [
        | inl (event, p) ↦
            of_event event (event-Announces env e none created env.now event p) (rw p at h)
        | inr (x, p) ↦ cc
      ]
    where
      of_ok : Result Session → Type 0
      of_ok (ok x) = IsNew q rail x
      of_ok (err x) = Unit

      of_event :
          (event : Event)
          → Announces event (created_row env id consumer q rail) none created
          → ok (record {
            execution = created_row env id consumer q rail;
            events = event ∷ [];
            audits = [];
          })
            ≡ ok s
          → IsNew q rail s
      of_event event a g =
          subst (λ (r : Result Session). of_ok r) g
            (record { execution = refl; history = created-IsHistory q rail event a })

  -- The table stays as it was, or one new row is added whose key no row of the table has.
  pub data Inserted (table : List Session) : Result Session × List Session → Type 0 where
    unchanged : (r : Result Session) → Inserted table (r, table)
    inserted :
        (q : Request) (rail : Rail) (s : Session)
        → IsNew q rail s
        → find consumer q.external_id table ≡ none
        → Inserted table (ok s, s ∷ table)

  insert-Inserted :
      (q : Request) (rail : Rail) (table : List Session) (o : Option Session)
      → find consumer q.external_id table ≡ o
      → Inserted table (insert env id consumer (q, rail) o table)
  unfolding insert
  insert-Inserted q rail table (some s) p = unchanged _
  insert-Inserted q rail table none p = elim (Result-cases (new_session env id consumer q rail)) [
    | inl (s, h) ↦ rw h (inserted q rail s (new_session-IsNew q rail s h) p)
    | inr (x, h) ↦ rw h (unchanged _)
  ]

  insert_accepted-Inserted :
      (r : Result (Request × Rail)) (table : List Session)
      → Inserted table (insert_accepted env id consumer r table)
  unfolding insert_accepted
  insert_accepted-Inserted (err x) table = unchanged _
  insert_accepted-Inserted (ok (q, rail)) table =
      insert-Inserted q rail table (find consumer q.external_id table) refl

  by_existing-Inserted :
      (key_id : Option String) (fs : Fields) (rails : List Rail) (o : Option Session)
      (table : List Session)
      → Inserted table (by_existing env id consumer key_id fs rails o table)
  unfolding by_existing
  by_existing-Inserted key_id fs rails (some s) table = unchanged _
  by_existing-Inserted key_id fs rails none table =
      insert_accepted-Inserted (accept consumer key_id fs rails) table

  by_identity-Inserted :
      (key_id : Option String) (rails : List Rail) (r : Result (Fields × String))
      (seen table : List Session)
      → Inserted table (by_identity env id consumer key_id rails r seen table)
  unfolding by_identity
  by_identity-Inserted key_id rails (err x) seen table = unchanged _
  by_identity-Inserted key_id rails (ok (fs, external_id)) seen table =
      by_existing-Inserted key_id fs rails (find consumer external_id seen) table

  module _ (payload : Value) (key_id : Option String) (rails : List Rail)
      (seen table : List Session) where
    pub submit-Inserted : Inserted table (submit env id consumer payload key_id rails seen table)
    unfolding submit
    submit-Inserted = by_identity-Inserted key_id rails (identify payload) seen table

    Inserted-Distinct :
        {r : Result Session × List Session} → Inserted table r → Distinct table → Distinct r.1
    unfolding created_row new_row
    Inserted-Distinct (unchanged r) d = d
    Inserted-Distinct (inserted q rail s n f) d = (rw n.execution f, d)

    Inserted-IsHistory :
        {r : Result Session × List Session}
        → Inserted table r
        → All (λ (s : Session). IsHistory s) table
        → All (λ (s : Session). IsHistory s) r.1
    Inserted-IsHistory (unchanged r) d = d
    Inserted-IsHistory (inserted q rail s n f) d = (n.history, d)

    -- A submission never puts a second row under a consumer's external id, whatever the table
    -- was when it looked, so also when another request has inserted that row in between.
    pub submit-Distinct :
        Distinct table → Distinct (submit env id consumer payload key_id rails seen table).1
    submit-Distinct = Inserted-Distinct submit-Inserted

    -- After a submission, the outbox of each execution is the gap-free history of its row if it was
    -- before; so is that of a new execution.
    pub submit-IsHistory :
        All (λ (s : Session). IsHistory s) table
        → All
            (λ (s : Session). IsHistory s)
            (submit env id consumer payload key_id rails seen table).1
    submit-IsHistory = Inserted-IsHistory submit-Inserted
