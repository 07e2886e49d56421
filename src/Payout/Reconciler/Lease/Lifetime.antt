-- ===== src/Payout/Reconciler/Lease/Lifetime.antt =====
-- The committed life of one execution: turns of the workers of `dispatch_ready`
-- (shkeeper/services/payout_execution_reconciler.py), polls of its status and resolutions by
-- operators (shkeeper/services/payout_execution_service.py), in any order and any number.
use shkeeper_io.Prelude.{
  ℕ, ◌+◌, ◌≤◌, ◌≡◌, refl, String, List, [], ◌∷◌, arith, Bool-cases, inl, inr, ◌&&◌,
}
use shkeeper_io.Prelude.Json.{Value, Fields}
use shkeeper_io.Errors.{ok, err}
use shkeeper_io.Context.{Context, Env}
use shkeeper_io.Payout.States.{state_in, rank, rank_le}
use shkeeper_io.Payout.Row.{Execution, Session}
use shkeeper_io.Payout.Transition.History.{IsHistory}
use shkeeper_io.Payout.Sidecar.{apply_sidecar_status}
use shkeeper_io.Payout.Sidecar.Branches.{apply_sidecar_status-IsHistory, apply_sidecar_status-rank}
use shkeeper_io.Payout.Resolution.{record_manual_resolution}
use shkeeper_io.Payout.Resolution.Guard.{resolution-IsHistory}
use shkeeper_io.Payout.Resolution.Safety.{resolution-rank}
use shkeeper_io.Payout.Reconciler.{Call, Run, touch, dispatch_one}
use shkeeper_io.Payout.Reconciler.Keeps.{touch-IsHistory}
use shkeeper_io.Payout.Reconciler.Submits.{submissions, RunSound, dispatch_one-RunSound}
use shkeeper_io.Payout.Reconciler.Lease.{
  Worker, claim_execution, dispatch_row, finish, release_execution_by_id,
  release_execution_after_error, free, parked, held, passed, is_holder,
}

-- what may happen to an execution; a worker's `seen` is the row as it read it before its claim
pub data Turn : Type 0 where
  dispatch : Worker → Execution → Turn
  report : Env → Fields → Turn
  resolve : Env → Value → String → Turn

-- The history is kept, and each submission uses up the rank that an execution has before it.
pub record TurnSound (s : Session) (r : Session × List Call) : Type 0 where
  pub history : IsHistory s → IsHistory r.0
  pub spent : submissions r.1 + rank r.0.execution.state ≤ rank s.execution.state

module _ ⦃ctx : Context⦄ where
  -- the session after one turn and the requests that it made
  pub turn : Turn → Session → Session × List Call
  turn (dispatch w seen) s = dispatch_row w seen s
  turn (report env status) s = ((apply_sidecar_status env s status).1, [])
  turn (resolve env payload operator_id) s =
      ((record_manual_resolution env s payload operator_id).1, [])

  -- the session after the turns, and how many submissions they made
  pub turns : List Turn → Session → Session × ℕ
  turns [] s = (s, 0)
  turns (t ∷ ts) s =
      let (after, calls) = turn t s in
      let (last, n) = turns ts after in (last, submissions calls + n)

  release-TurnSound : (w : Worker) (r : Run) (s : Session) → RunSound s r → TurnSound s (finish w r)
  unfolding finish release_execution_by_id release_execution_after_error
  release-TurnSound w (ok u, t, calls) s h =
      elim (Bool-cases (is_holder w.owner w.token t.execution)) [
        | inl p ↦ rw p (record {
          history = λ g.
              touch-IsHistory free t (record { id = refl; state = refl; event_version = refl })
                (h.history g);
          spent = h.spent;
        })
        | inr p ↦ rw p (record { history = h.history; spent = h.spent })
      ]
  release-TurnSound w (err x, t, calls) s h =
      elim (Bool-cases (is_holder w.owner w.token t.execution)) [
        | inl p ↦ rw p (record {
          history = λ g.
              touch-IsHistory (parked w.released_at x.code) t
                (record { id = refl; state = refl; event_version = refl }) (h.history g);
          spent = h.spent;
        })
        | inr p ↦ rw p (record { history = h.history; spent = h.spent })
      ]

  abbrev holding : Worker → Session → Session
  holding w s = touch (held w.claimed_at w.owner w.token) s

  dispatch-TurnSound :
      (w : Worker) (seen : Execution) (s : Session) → TurnSound s (dispatch_row w seen s)
  unfolding dispatch_row claim_execution
  dispatch-TurnSound w seen s =
      elim (Bool-cases (
        state_in s.execution.state (seen.state ∷ [])
        && passed w.claimed_at s.execution.lease_expires_at)) [
          | inl p ↦ rw p (
              from-claim (
                release-TurnSound w (dispatch_one w.envs w.client (holding w s)) (holding w s)
                  (dispatch_one-RunSound w.envs w.client (holding w s))))
          | inr p ↦ rw p (record { history = λ g. g; spent = omega arith })
        ]
    where
      from-claim : {r : Session × List Call} → TurnSound (holding w s) r → TurnSound s r
      from-claim t = record {
        history = λ g. t.history (
            touch-IsHistory (held w.claimed_at w.owner w.token) s
              (record { id = refl; state = refl; event_version = refl }) g);
        spent = t.spent;
      }

  turn-TurnSound : (t : Turn) (s : Session) → TurnSound s (turn t s)
  unfolding turn
  turn-TurnSound (dispatch w seen) s = dispatch-TurnSound w seen s
  turn-TurnSound (report env status) s = record {
    history = apply_sidecar_status-IsHistory env s status;
    spent = omega (arith, apply_sidecar_status-rank env s status);
  }
  turn-TurnSound (resolve env payload operator_id) s = record {
    history = resolution-IsHistory env s payload operator_id;
    spent = omega (arith, resolution-rank env s payload operator_id);
  }

  -- If the outbox is the gap-free history of the row, then it is so after any turns.
  pub turns-IsHistory : (ts : List Turn) (s : Session) → IsHistory s → IsHistory (turns ts s).0
  unfolding turns
  turns-IsHistory [] s h = h
  turns-IsHistory (t ∷ ts) s h = turns-IsHistory ts (turn t s).0 ((turn-TurnSound t s).history h)

  spent :
      (ts : List Turn) (s : Session)
      → (turns ts s).1 + rank (turns ts s).0.execution.state ≤ rank s.execution.state
  unfolding turns
  spent [] s = omega arith
  spent (t ∷ ts) s = omega (arith, spent ts (turn t s).0, (turn-TurnSound t s).spent)

  -- Over any turns an execution is submitted to its sidecar at most once.
  pub submitted_once : (ts : List Turn) (s : Session) → (turns ts s).1 ≤ 1
  submitted_once ts s = omega (arith, spent ts s, rank_le s.execution.state)

  -- An execution that is past its hand-over is not submitted by any turns.
  pub never_resubmitted :
      (ts : List Turn) (s : Session) → rank s.execution.state ≡ 0 → (turns ts s).1 ≡ 0
  never_resubmitted ts s h = omega (arith, spent ts s, h)
