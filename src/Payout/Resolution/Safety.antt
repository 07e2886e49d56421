-- ===== src/Payout/Resolution/Safety.antt =====
-- The release of an execution for a manual payout, and the states that are final for operators
-- (`record_manual_resolution`).
use shkeeper_io.Prelude.{◌≤◌, ◌≡◌, true, false, String, List, [], ◌∷◌, arith, sym, ◌∙◌, ap}
use shkeeper_io.Prelude.Json.{Value, bool, dict, Fields, get}
use shkeeper_io.Errors.{Error, Result, ok, err}
use shkeeper_io.Context.{Context, Env}
use shkeeper_io.Payout.States.{
  rank, State, ResolutionStatus, reconciliation_required, manual_review, failed_chain_terminal,
  confirmed, broadcast, created, preflighted, enqueueing, enqueued, unresolved,
  chain_broadcast_found, cancelled_pre_broadcast, state_in,
}
use shkeeper_io.Payout.Row.{Execution, Session}
use shkeeper_io.Payout.Resolution.{manual_resolution_target_state, record_manual_resolution}
use shkeeper_io.Payout.Resolution.Evidence.{
  validate_by_status, has_search_range, signed_artifact_settled,
}
use shkeeper_io.Payout.Resolution.Guard.{Settles, Effect, resolution-Effect}

-- the states that no resolution leaves
abbrev pub resolution_final : List State
resolution_final =
    created ∷ preflighted ∷ enqueueing ∷ enqueued ∷ broadcast ∷ confirmed
    ∷ State.manual_payout_completed ∷ []

target-final :
    (current : State) (status : ResolutionStatus) (target : State)
    → state_in current resolution_final ≡ true
    → manual_resolution_target_state current status ≡ ok target
    → ⊥
unfolding manual_resolution_target_state state_in
target-final created unresolved target f h = ground arith
target-final _ unresolved target f h = ground arith
target-final _ ResolutionStatus.safe_for_manual_payout target f h = ground arith
target-final _ chain_broadcast_found target f h = ground arith
target-final _ ResolutionStatus.manual_payout_pending target f h = ground arith
target-final _ ResolutionStatus.manual_payout_completed target f h = ground arith
target-final _ cancelled_pre_broadcast target f h = ground arith

-- An original payout is released for a manual one only from a state of doubt, on evidence that no
-- transfer was found and none is pending, over a searched range.
pub record SafeRelease (e : Execution) (evidence : Fields) : Type 0 where
  pub in_doubt :
      state_in e.state (reconciliation_required ∷ manual_review ∷ failed_chain_terminal ∷ []) ≡ true
  pub no_transfer : get "matching_transfer_found" evidence ≡ bool false
  pub none_pending : get "pending_original_artifact" evidence ≡ bool false
  pub searched : has_search_range evidence ≡ true
  pub settled : signed_artifact_settled e evidence ≡ true

validated-SafeRelease :
    (e : Execution) (status : ResolutionStatus) (evidence : Fields)
    → manual_resolution_target_state e.state status ≡ ok State.safe_for_manual_payout
    → validate_by_status e status evidence ≡ ok tt
    → SafeRelease e evidence
unfolding manual_resolution_target_state validate_by_status
validated-SafeRelease e ResolutionStatus.safe_for_manual_payout evidence t v = ground arith
validated-SafeRelease e _ evidence t v = absurd (ground arith)

module _ ⦃ctx : Context⦄ (env : Env) (s : Session) (payload : Value) (operator_id : String) where
  abbrev resolved : Result (Unit {0}) × Session
  resolved = record_manual_resolution env s payload operator_id

  Effect-Settles :
      (r : Result (Unit {0}) × Session)
      → Effect env s payload operator_id r
      → r.0 ≡ ok tt
      → Settles s payload operator_id r.1
  Effect-Settles (ok u, t) h q = h
  Effect-Settles (err x, t) h q = cc

  -- A resolution that leaves the execution safe for a manual payout came from a state of doubt; and
  -- the evidence of its payload, which is then on the row, says that no transfer was found, that
  -- nothing is pending, and what was searched, and settles an artifact that the sidecar has signed.
  pub safe_needs_evidence :
      resolved.0 ≡ ok tt
      → resolved.1.execution.state ≡ State.safe_for_manual_payout
      → (fields : Fields) × (evidence : Fields) × (payload ≡ dict fields)
        × (get "evidence" fields ≡ dict evidence)
        × (resolved.1.execution.resolution_evidence ≡ dict evidence)
        × SafeRelease s.execution evidence
  safe_needs_evidence q st =
      let w = Effect-Settles resolved (resolution-Effect env s payload operator_id) q in
      (
        w.checked.fields,
        w.plan.evidence,
        w.checked.object,
        w.checked.given,
        w.recorded,
        validated-SafeRelease s.execution w.plan.status w.plan.evidence
            (w.checked.target ∙ ap (λ (x : State). ok x) (sym w.state ∙ st)) w.checked.by_status,
      )

  Effect-final :
      state_in s.execution.state resolution_final ≡ true
      → (r : Result (Unit {0}) × Session) → Effect env s payload operator_id r
      → (x : Error) × (r ≡ (err x, s))
  Effect-final f (ok u, t) h =
      absurd (target-final s.execution.state h.plan.status h.plan.target f h.checked.target)
  Effect-final f (err x, t) h = (x, rw h)

  -- No resolution is accepted in a state that is still being dispatched, that is confirmed, or
  -- whose manual payout is completed: the call raises and nothing changes.
  pub resolution_refused_when_final :
      state_in s.execution.state resolution_final ≡ true → (x : Error) × (resolved ≡ (err x, s))
  resolution_refused_when_final f =
      Effect-final f resolved (resolution-Effect env s payload operator_id)

  target-rank :
      (status : ResolutionStatus) (t : State)
      → manual_resolution_target_state s.execution.state status ≡ ok t
      → rank t ≡ 0
  unfolding manual_resolution_target_state
  target-rank status t h = ground arith

  Effect-rank :
      (r : Result (Unit {0}) × Session)
      → Effect env s payload operator_id r
      → rank r.1.execution.state ≤ rank s.execution.state
  Effect-rank (ok u, t) h = omega (
    arith,
    ap (λ (x : State). rank x) h.state,
    target-rank h.plan.status h.plan.target h.checked.target,
  )
  Effect-rank (err x, t) h = omega (arith, ap (λ (x : Session). rank x.execution.state) h)

  -- no resolution takes an execution back to before its submission
  pub resolution-rank : rank resolved.1.execution.state ≤ rank s.execution.state
  resolution-rank = Effect-rank resolved (resolution-Effect env s payload operator_id)
