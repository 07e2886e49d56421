-- ===== src/Payout/Sidecar/Branches.antt =====
-- The branches of `apply_sidecar_status` (shkeeper/services/payout_execution_service.py): nothing, a
-- raise, or one transition.
use shkeeper_io.Prelude.{
  ℕ, ◌≤◌, ◌≡◌, refl, inl, inr, String, Bool, true, false, Option, none, some, arith, ltb, ◌==◌,
  Bool-cases, Option-cases,
}
use mathlib.Core.Path.{subst}
use shkeeper_io.Prelude.Json.{Value, text, Fields, get}
use shkeeper_io.Errors.{Error, Result, ok, err}
use shkeeper_io.Context.{Context, Env}
use shkeeper_io.Payout.States.{State, rank, sidecar_state_map-rank}
use shkeeper_io.Payout.Row.{Execution, Session}
use shkeeper_io.Payout.Transition.{Move, transition}
use shkeeper_io.Payout.Transition.Outcome.{
  Outcome, quiet, told, refused, transition-Outcome, transition-rank, moved-sidecar_version,
}
use shkeeper_io.Payout.Transition.History.{IsDraft, IsHistory, transition-IsHistory}
use shkeeper_io.Payout.Sidecar.{
  apply_sidecar_status, apply_checked, apply_parsed, apply_reading, accept_status, same_version,
  accept_listed, by_conflict, new_lists, with_status, status_move, to_reconciliation, reconcile,
  mapped_state, both_and_differ, sidecar_status_conflicts,
}
use shkeeper_io.Payout.Sidecar.Status.{
  Reading, Parsed, missing, readable, read_status, validate_sidecar_identity,
  sidecar_status_snapshot, sidecar_status_hash,
}

-- the known version after is not below the one before
abbrev pub NotBehind : Option ℕ → Option ℕ → Type 0
NotBehind none after = Unit
NotBehind (some v) none = ⊥
NotBehind (some v) (some w) = v ≤ w

NotBehind-refl : (v : Option ℕ) → NotBehind v v
NotBehind-refl none = tt
NotBehind-refl (some v) = omega arith

module _ ⦃ctx : Context⦄ {env : Env} {m : Move} {e : Execution} {s : Session} where
  Outcome-NotBehind :
      {r : Result (Unit {0}) × Session}
      → Outcome env m e s r
      → NotBehind s.execution.sidecar_state_version e.sidecar_state_version
      → NotBehind s.execution.sidecar_state_version r.1.execution.sidecar_state_version
  Outcome-NotBehind (quiet p) v = rw (moved-sidecar_version env m e) v
  Outcome-NotBehind (told event p a) v = rw (moved-sidecar_version env m e) v
  Outcome-NotBehind (refused x p) v = NotBehind-refl s.execution.sidecar_state_version

module _ ⦃ctx : Context⦄ (env : Env) (s : Session) where
  -- Nothing happens, or a raise, or one transition of a row whose sidecar version is not behind.
  pub data Branch : Result (Unit {0}) × Session → Type 0 where
    same : Branch (ok tt, s)
    stops : (x : Error) → Branch (err x, s)
    moves :
        (m : Move) (e : Execution)
        → IsDraft e s
        → rank m.state ≡ 0
        → NotBehind s.execution.sidecar_state_version e.sidecar_state_version
        → Branch (transition env m e s)

  mapped-rank : (v : Value) (state : State) → mapped_state v ≡ some state → rank state ≡ 0
  mapped-rank (text k) state q = sidecar_state_map-rank k state q
  mapped-rank _ state q = cc

  abbrev committed-IsDraft : IsDraft s.execution s
  committed-IsDraft = record { id = refl; state = refl; event_version = refl }

  reconcile-Branch : (code message : String) → Branch (reconcile env code message s.execution s)
  reconcile-Branch code message =
      moves (to_reconciliation code message) s.execution committed-IsDraft refl
        (NotBehind-refl s.execution.sidecar_state_version)

  by_conflict-Branch : (b : Result Bool) → Branch (by_conflict env s b)
  unfolding by_conflict
  by_conflict-Branch (err x) = stops x
  by_conflict-Branch (ok false) = same
  by_conflict-Branch (ok true) = reconcile-Branch _ _

  module _ (status : Fields) (r : Reading) where
    with_status-IsDraft :
        (lists : Value × Value) → IsDraft (with_status env s.execution status r lists) s
    unfolding with_status
    with_status-IsDraft lists = record { id = refl; state = refl; event_version = refl }

    with_status-version :
        (lists : Value × Value)
        → (with_status env s.execution status r lists).sidecar_state_version ≡ some r.version
    unfolding with_status
    with_status-version lists = refl

    status_move-rank :
        (lists : Value × Value) (state : State)
        → mapped_state r.sidecar_state ≡ some state
        → rank (status_move state (with_status env s.execution status r lists) status).state ≡ 0
    unfolding status_move
    status_move-rank lists state q = mapped-rank r.sidecar_state state q

    accept_listed-Branch :
        (lists : Result (Value × Value))
        → NotBehind s.execution.sidecar_state_version (some r.version)
        → Branch (accept_listed env s status r lists)
    unfolding accept_listed
    accept_listed-Branch (err x) new = stops x
    accept_listed-Branch (ok lists) new = elim (Option-cases (mapped_state r.sidecar_state)) [
      | inl q ↦
          rw (accept_listed, q)
            (moves (to_reconciliation _ _) _ (with_status-IsDraft lists) refl
              (rw (with_status-version lists) new))
      | inr (state, q) ↦
          rw (accept_listed, q)
            (moves (status_move state _ status) _ (with_status-IsDraft lists)
              (status_move-rank lists state q) (rw (with_status-version lists) new))
    ]

    accept_status-Branch :
        NotBehind s.execution.sidecar_state_version (some r.version)
        → Branch (accept_status env s status r)
    unfolding accept_status
    accept_status-Branch new =
        elim (Bool-cases
          (both_and_differ s.execution.sidecar_execution_id (get "sidecar_execution_id" status))) [
            | inl p ↦ rw p (reconcile-Branch _ _)
            | inr p ↦ rw p (accept_listed-Branch (new_lists s.execution status) new)
          ]

    same_version-Branch : Branch (same_version env s status r)
    unfolding same_version
    same_version-Branch = by_conflict-Branch (
        sidecar_status_conflicts s.execution status
          (sidecar_status_hash (sidecar_status_snapshot s.execution status r)))

    apply_reading-Branch :
        (known : Option ℕ)
        → known ≡ s.execution.sidecar_state_version
        → Branch (apply_reading known env s status r)
    unfolding apply_reading
    apply_reading-Branch none e = accept_status-Branch (rw (← e) tt)
    apply_reading-Branch (some known) e = elim (Bool-cases (ltb r.version known)) [
      | inl q ↦ rw q same
      | inr q ↦ elim (Bool-cases (r.version == known)) [
        | inl t ↦ rw (q, t) same_version-Branch
        | inr t ↦
            rw (q, t)
              (accept_status-Branch
                (subst (λ (v : Option ℕ). NotBehind v (some r.version)) e (not_below known q)))
      ]
    ]
      where
        not_below : (known' : ℕ) → ltb r.version known' ≡ false → known' ≤ r.version
        not_below known' q = ground arith

  apply_parsed-Branch : (status : Fields) (p : Parsed) → Branch (apply_parsed p env s status)
  unfolding apply_parsed
  apply_parsed-Branch status (missing message) = reconcile-Branch _ _
  apply_parsed-Branch status (readable r) =
      apply_reading-Branch status r s.execution.sidecar_state_version refl

  apply_checked-Branch :
      (status : Fields) (f : Option String) → Branch (apply_checked f env s status)
  unfolding apply_checked
  apply_checked-Branch status (some f) = reconcile-Branch _ _
  apply_checked-Branch status none = apply_parsed-Branch status (read_status status)

  pub apply_sidecar_status-Branch : (status : Fields) → Branch (apply_sidecar_status env s status)
  unfolding apply_sidecar_status
  apply_sidecar_status-Branch status =
      apply_checked-Branch status (validate_sidecar_identity s.execution status)

module _ ⦃ctx : Context⦄ {env : Env} {s : Session} where
  Branch-IsHistory :
      {r : Result (Unit {0}) × Session} → Branch env s r → IsHistory s → IsHistory r.1
  Branch-IsHistory same h = h
  Branch-IsHistory (stops x) h = h
  Branch-IsHistory (moves m e d l v) h = transition-IsHistory env m e s d h

  Branch-NotBehind :
      {r : Result (Unit {0}) × Session}
      → Branch env s r
      → NotBehind s.execution.sidecar_state_version r.1.execution.sidecar_state_version
  Branch-NotBehind same = NotBehind-refl s.execution.sidecar_state_version
  Branch-NotBehind (stops x) = NotBehind-refl s.execution.sidecar_state_version
  Branch-NotBehind (moves m e d l v) = Outcome-NotBehind (transition-Outcome env m e s) v

module _ ⦃ctx : Context⦄ where
  -- If the outbox is the gap-free history of the row, then it is so after any report of a sidecar,
  -- also when the call raises.
  pub apply_sidecar_status-IsHistory :
      (env : Env) (s : Session) (status : Fields)
      → IsHistory s
      → IsHistory (apply_sidecar_status env s status).1
  apply_sidecar_status-IsHistory env s status =
      Branch-IsHistory (apply_sidecar_status-Branch env s status)

  -- Whatever a sidecar reports, the sidecar version of the row never goes back.
  pub sidecar_version_monotone :
      (env : Env) (s : Session) (status : Fields)
      → NotBehind s.execution.sidecar_state_version
          (apply_sidecar_status env s status).1.execution.sidecar_state_version
  sidecar_version_monotone env s status =
      Branch-NotBehind (apply_sidecar_status-Branch env s status)

module _ ⦃ctx : Context⦄ {env : Env} {s : Session} where
  Branch-rank :
      {r : Result (Unit {0}) × Session}
      → Branch env s r
      → rank r.1.execution.state ≤ rank s.execution.state
  Branch-rank same = omega arith
  Branch-rank (stops x) = omega arith
  Branch-rank (moves m e d l v) = transition-rank env m e s l

module _ ⦃ctx : Context⦄ where
  -- no status takes an execution back to before its submission
  pub apply_sidecar_status-rank :
      (env : Env) (s : Session) (status : Fields)
      → rank (apply_sidecar_status env s status).1.execution.state ≤ rank s.execution.state
  apply_sidecar_status-rank env s status = Branch-rank (apply_sidecar_status-Branch env s status)
