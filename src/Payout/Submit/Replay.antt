-- ===== src/Payout/Submit/Replay.antt =====
-- A repeated submission.
use shkeeper_io.Prelude.{
  ℕ, ◌≡◌, refl, sym, ap, ◌∙◌, inl, inr, String, Option, none, some, List, eq_refl, eq_iff, and-true,
  str_eq, first-holds, arith,
}
use mathlib.Core.Path.{subst}
use shkeeper_io.Prelude.Json.{Value, Fields}
use shkeeper_io.Errors.{Result, ok, Result-cases, ok_ne_err}
use shkeeper_io.Context.{Context, Env}
use shkeeper_io.Payout.Row.{Execution, Session}
use shkeeper_io.Payout.Rail.{Rail}
use shkeeper_io.Payout.Submit.Contract.{Request, read_request, request_identity, request_hash}
use shkeeper_io.Payout.Submit.{
  new_row, created_row, new_session, is_key, find, insert, insert_accepted, accept, canonicalize,
  by_existing, replay, by_identity, identify, submit, validate_key_scope,
}
use shkeeper_io.Payout.Submit.Table.{IsNew, new_session-IsNew}

ok-injective : {a b : String} → ok a ≡ ok b → a ≡ b
ok-injective h = cc

module _ ⦃ctx : Context⦄ (consumer : String) where
  accept-read :
      (key_id : Option String) (fs : Fields) (rails : List Rail) (q : Request) (rail : Rail)
      → accept consumer key_id fs rails ≡ ok (q, rail)
      → (read_request fs ≡ ok q) × (validate_key_scope consumer key_id q.asset q.network ≡ ok tt)
  unfolding accept canonicalize
  accept-read key_id fs rails q rail h = ground arith

  read-identity :
      (fs : Fields) (q : Request) → read_request fs ≡ ok q → request_identity fs ≡ ok q.external_id
  unfolding read_request
  read-identity fs q h = ground arith

  identify-identity :
      (payload : Value) (fs : Fields) (external_id : String)
      → identify payload ≡ ok (fs, external_id)
      → request_identity fs ≡ ok external_id
  unfolding identify
  identify-identity payload fs external_id h = ground arith

  module _ (env : Env) (id : ℕ) (q : Request) (rail : Rail) where
    -- a replay of the new row's request answers with it
    replay-new :
        (key_id : Option String) (fs : Fields) (s : Session)
        → s.execution ≡ created_row env id consumer q rail
        → read_request fs ≡ ok q
        → validate_key_scope consumer key_id q.asset q.network ≡ ok tt
        → replay consumer key_id fs s ≡ ok s
    unfolding replay created_row new_row
    replay-new key_id fs s p r v =
        rw (p, v, r, eq_refl (request_hash consumer q rail.callback_endpoint_id _)) refl

    created-external_id : (created_row env id consumer q rail).external_id ≡ q.external_id
    unfolding created_row new_row
    created-external_id = refl

  pair-eq :
      {r : Result Session} {t : List Session} {s : Session} {u : List Session}
      → ◌≡◌ {A = Result Session × List Session} (r, t) (ok s, u)
      → (r ≡ ok s) × (t ≡ u)
  pair-eq h = (
    ap (λ (x : Result Session × List Session). x.0) h,
    ap (λ (x : Result Session × List Session). x.1) h,
  )

  -- an answer with a row under this key, and a replay of the request gets the same answer
  abbrev Replayable : Option String → Fields → String → Session → Type 0
  Replayable key_id fs external_id s =
      (s.execution.external_id ≡ external_id) × (replay consumer key_id fs s ≡ ok s)

  replay-same :
      (key_id : Option String) (fs : Fields) (n s : Session)
      → replay consumer key_id fs n ≡ ok s
      → n ≡ s
  unfolding replay
  replay-same key_id fs n s h = ground arith

  find-external_id :
      (external_id : String) (table : List Session) (n : Session)
      → find consumer external_id table ≡ some n
      → n.execution.external_id ≡ external_id
  unfolding find
  find-external_id external_id table n h =
      (eq_iff n.execution.external_id external_id).0
        (and-true (str_eq n.execution.consumer consumer)
          (str_eq n.execution.external_id external_id)
          (first-holds (is_key consumer external_id) table n h)).1

  found-Replayable :
      (key_id : Option String) (fs : Fields) (external_id : String) (table : List Session)
      (n s : Session)
      → find consumer external_id table ≡ some n
      → replay consumer key_id fs n ≡ ok s
      → Replayable key_id fs external_id s
  found-Replayable key_id fs external_id table n s f h =
      subst (Replayable key_id fs external_id) (replay-same key_id fs n s h) (
        find-external_id external_id table n f,
        h ∙ ap (λ (x : Session). ok x) (sym (replay-same key_id fs n s h)),
      )

  module _ (env : Env) (id : ℕ) (key_id : Option String) (rails : List Rail) where
    inserted-Replayable :
        (fs : Fields) (q : Request) (rail : Rail) (table after : List Session) (s : Session)
        → read_request fs ≡ ok q
        → validate_key_scope consumer key_id q.asset q.network ≡ ok tt
        → insert env id consumer (q, rail) none table ≡ (ok s, after)
        → Replayable key_id fs q.external_id s
    unfolding insert
    inserted-Replayable fs q rail table after s r v h =
        elim (Result-cases (new_session env id consumer q rail)) [
          | inr (x, p) ↦ absurd (ok_ne_err (sym (pair-eq (rw p at h)).0))
          | inl (n, p) ↦
              added n (new_session-IsNew env id consumer q rail n p) (pair-eq (rw p at h)).0
        ]
      where
        added :
            (n : Session)
            → IsNew env id consumer q rail n
            → ok n ≡ ok s
            → Replayable key_id fs q.external_id s
        added n w e = subst (Replayable key_id fs q.external_id) (cc e) (
          ap (λ (x : Execution). x.external_id) w.execution ∙ created-external_id env id q rail,
          replay-new env id q rail key_id fs n w.execution r v,
        )

    answered-Replayable :
        (fs : Fields) (external_id : String) (table after : List Session) (s : Session)
        (o : Option Session)
        → find consumer external_id table ≡ o
        → request_identity fs ≡ ok external_id
        → by_existing env id consumer key_id fs rails o table ≡ (ok s, after)
        → Replayable key_id fs external_id s
    unfolding by_existing insert_accepted
    answered-Replayable fs external_id table after s (some n) f i h =
        found-Replayable key_id fs external_id table n s f (pair-eq h).0
    answered-Replayable fs external_id table after s none f i h =
        elim (Result-cases (accept consumer key_id fs rails)) [
          | inr (x, p) ↦ absurd (ok_ne_err (sym (pair-eq (rw p at h)).0))
          | inl ((q, rail), p) ↦ accepted q rail (accept-read key_id fs rails q rail p) (rw p at h)
        ]
      where
        accepted :
            (q : Request) (rail : Rail)
            → (read_request fs ≡ ok q)
              × (validate_key_scope consumer key_id q.asset q.network ≡ ok tt)
            → insert_accepted env id consumer (ok (q, rail)) table ≡ (ok s, after)
            → Replayable key_id fs external_id s
        accepted q rail c g =
            let same = ok-injective (sym i ∙ read-identity fs q c.0) in
            subst (λ (k : String). Replayable key_id fs k s) (sym same)
              (inserted-Replayable fs q rail table after s c.0 c.1
                (rw (sym (ap (λ (k : String). find consumer k table) same) ∙ f) at g))

  -- the columns of the request, which nothing writes once the row is there
  pub record SameRequest (e e' : Execution) : Type 0 where
    pub request_hash : e'.request_hash ≡ e.request_hash
    pub callback_endpoint_id : e'.callback_endpoint_id ≡ e.callback_endpoint_id
    pub contract_version : e'.contract_version ≡ e.contract_version
    pub asset : e'.asset ≡ e.asset
    pub network : e'.network ≡ e.network

  replay-SameRequest :
      (key_id : Option String) (fs : Fields) (s s' : Session)
      → SameRequest s.execution s'.execution
      → replay consumer key_id fs s ≡ ok s
      → replay consumer key_id fs s' ≡ ok s'
  unfolding replay
  replay-SameRequest key_id fs s s' w h =
      let a = w.request_hash in
      let b = w.callback_endpoint_id in
      let c = w.contract_version in
      let d = w.asset in let e = w.network in rw (a, b, c, d, e) (ground arith)

  -- A submission that was answered, with no other request between its look-up and its insertion, can
  -- be repeated at any later time, with any rails, and whatever has become of the execution: if the
  -- table has a row under its key with the same columns of the request, in any state, then the repeat
  -- is answered with that row as it is by then, and nothing is inserted.
  pub submit_again :
      (env env' : Env) (id id' : ℕ) (key_id : Option String) (rails rails' : List Rail)
      (payload : Value) (table after seen later : List Session) (s s' : Session)
      → submit env id consumer payload key_id rails table table ≡ (ok s, after)
      → find consumer s.execution.external_id seen ≡ some s'
      → SameRequest s.execution s'.execution
      → submit env' id' consumer payload key_id rails' seen later ≡ (ok s', later)
  unfolding submit by_identity by_existing
  submit_again env env' id id' key_id rails rails' payload table after seen later s s' h f w =
      elim (Result-cases (identify payload)) [
        | inr (x, p) ↦ absurd (ok_ne_err (sym (pair-eq (rw p at h)).0))
        | inl ((fs, external_id), p) ↦ rw p (
            again fs external_id (
              answered-Replayable env id key_id rails fs external_id table after s
                (find consumer external_id table) refl (identify-identity payload fs external_id p)
                (rw p at h)))
      ]
    where
      again :
          (fs : Fields) (external_id : String)
          → Replayable key_id fs external_id s
          → by_existing env' id' consumer key_id fs rails' (find consumer external_id seen) later
            ≡ (ok s', later)
      again fs external_id r =
          rw
            (
              sym (ap (λ (k : String). find consumer k seen) r.0) ∙ f,
              replay-SameRequest key_id fs s s' w r.1,
            )
            refl
