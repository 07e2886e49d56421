-- ===== src/Payout/Reconciler/Keeps.antt =====
-- The branches of a dispatch, their history and their rank
-- (shkeeper/services/payout_execution_reconciler.py).
use shkeeper_io.Prelude.{ℕ, String, ◌≤◌, ◌≡◌, refl, sym, inl, inr, arith, Bool-cases}
use mathlib.Core.Path.{subst}
use shkeeper_io.Prelude.Json.{Value, Fields}
use shkeeper_io.Errors.{Error, Result, ok, err}
use shkeeper_io.Context.{Context, Env}
use shkeeper_io.Payout.States.{State, FailureClass, created, preflighted, rank, rank_le}
use shkeeper_io.Payout.Row.{Execution, Session}
use shkeeper_io.Payout.Transition.{Move, transition}
use shkeeper_io.Payout.Transition.Outcome.{transition-rank}
use shkeeper_io.Payout.Transition.History.{IsDraft, IsHistory, transition-IsHistory}
use shkeeper_io.Payout.Sidecar.{apply_sidecar_status}
use shkeeper_io.Payout.Sidecar.Branches.{apply_sidecar_status-IsHistory, apply_sidecar_status-rank}
use shkeeper_io.Payout.Reconciler.{
  Reply, response, submit_timeout, status_unavailable, not_found, request_refused, is_error,
  failed_move, doubt_move, plain_move, postpone, touch, accepted_submit_status, preflight_reply,
  submit_reply, recover_reply, poll_reply,
}

-- `r` came from `s` by changes that keep the history and do not raise the rank
pub record Sound (s : Session) (r : Result (Unit {0}) × Session) : Type 0 where
  pub history : IsHistory s → IsHistory r.1
  pub ranked : rank r.1.execution.state ≤ rank s.execution.state

pub committed : (s : Session) → IsDraft s.execution s
committed s = record { id = refl; state = refl; event_version = refl }

pub touch-IsHistory :
    (f : Execution → Execution) (s : Session)
    → IsDraft (f s.execution) s
    → IsHistory s
    → IsHistory (touch f s)
touch-IsHistory f s d h = record {
  chain = rw (d.state, d.event_version) h.chain;
  own = rw d.id h.own;
}

refused-Sound : (s : Session) (x : Error) → Sound s (err x, s)
refused-Sound s x = record { history = λ h. h; ranked = omega arith }

postpone-Sound :
    (env : Env) (code message : Value) (delay : ℕ) (s : Session)
    → Sound s (ok tt, touch (postpone env code message delay) s)
unfolding postpone
postpone-Sound env code message delay s = record {
  history =
      touch-IsHistory (postpone env code message delay) s
        (record { id = refl; state = refl; event_version = refl });
  ranked = omega arith;
}

module _ ⦃ctx : Context⦄ (env : Env) (s : Session) where
  move-Sound : (m : Move) → rank m.state ≡ 0 → Sound s (transition env m s.execution s)
  move-Sound m l = record {
    history = transition-IsHistory env m s.execution s (committed s);
    ranked = transition-rank env m s.execution s l;
  }

  failed-Sound :
      (class : FailureClass) (code message : Value)
      → Sound s (transition env (failed_move class code message) s.execution s)
  unfolding failed_move
  failed-Sound class code message = move-Sound (failed_move class code message) refl

  doubt-Sound :
      (class : FailureClass) (code message : String)
      → Sound s (transition env (doubt_move class code message) s.execution s)
  unfolding doubt_move
  doubt-Sound class code message = move-Sound (doubt_move class code message) refl

  status-Sound : (status : Fields) → Sound s (apply_sidecar_status env s status)
  status-Sound status = record {
    history = apply_sidecar_status-IsHistory env s status;
    ranked = apply_sidecar_status-rank env s status;
  }

  pub submit_reply-Sound : (reply : Reply) → Sound s (submit_reply env s reply)
  unfolding submit_reply
  submit_reply-Sound (response r) = elim (Bool-cases (is_error r)) [
    | inl p ↦ rw p (failed-Sound _ _ _)
    | inr p ↦ rw p (status-Sound (accepted_submit_status r))
  ]
  submit_reply-Sound (submit_timeout message) = doubt-Sound _ _ message
  submit_reply-Sound (status_unavailable payload message) = doubt-Sound _ _ message
  submit_reply-Sound (not_found message) = refused-Sound s _
  submit_reply-Sound (request_refused x message) = refused-Sound s x

  pub recover_reply-Sound : (reply : Reply) → Sound s (recover_reply env s reply)
  unfolding recover_reply
  recover_reply-Sound (response r) = status-Sound r
  recover_reply-Sound (not_found message) = doubt-Sound _ _ _
  recover_reply-Sound (status_unavailable payload message) = doubt-Sound _ _ message
  recover_reply-Sound (submit_timeout message) = refused-Sound s _
  recover_reply-Sound (request_refused x message) = refused-Sound s x

  pub poll_reply-Sound : (reply : Reply) → Sound s (poll_reply env s reply)
  unfolding poll_reply
  poll_reply-Sound (response r) = status-Sound r
  poll_reply-Sound (not_found message) = doubt-Sound _ _ _
  poll_reply-Sound (status_unavailable payload message) = postpone-Sound env _ _ 300 s
  poll_reply-Sound (submit_timeout message) = refused-Sound s _
  poll_reply-Sound (request_refused x message) = refused-Sound s x

  -- a preflight starts in CREATED, and may end in PREFLIGHTED, which has the same rank
  pub preflight_reply-Sound :
      (reply : Reply) → s.execution.state ≡ created → Sound s (preflight_reply env s reply)
  unfolding preflight_reply plain_move
  preflight_reply-Sound (response r) c = elim (Bool-cases (is_error r)) [
    | inl p ↦ rw p (failed-Sound _ _ _)
    | inr p ↦ rw p (record {
      history = transition-IsHistory env (plain_move preflighted) s.execution s (committed s);
      ranked =
          subst
            (λ (x : State).
              rank (transition env (plain_move preflighted) s.execution s).1.execution.state
              ≤ rank x)
            (sym c) (rank_le _);
    })
  ]
  preflight_reply-Sound (status_unavailable payload message) c = postpone-Sound env _ _ _ s
  preflight_reply-Sound (request_refused x message) c = failed-Sound _ _ _
  preflight_reply-Sound (submit_timeout message) c = refused-Sound s _
  preflight_reply-Sound (not_found message) c = refused-Sound s _
