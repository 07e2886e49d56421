-- ===== src/Payout/Reconciler/Submits.antt =====
-- The submissions of one dispatch, counted (shkeeper/services/payout_execution_reconciler.py).
use shkeeper_io.Prelude.{
  ℕ, ◌+◌, ◌≤◌, ◌≡◌, refl, ap, ◌∙◌, Bool, true, false, inl, inr, List, [], ◌∷◌, arith, Bool-cases,
}
use shkeeper_io.Errors.{Result, ok, err}
use shkeeper_io.Context.{Context, Env}
use shkeeper_io.Payout.States.{
  State, created, preflighted, enqueueing, rank, state_eq, state_in, state_eq-eq,
}
use shkeeper_io.Payout.Row.{Session}
use shkeeper_io.Payout.Transition.{transition}
use shkeeper_io.Payout.Transition.Outcome.{transition-rank, transition-reaches}
use shkeeper_io.Payout.Transition.History.{IsHistory, transition-IsHistory}
use shkeeper_io.Payout.Reconciler.{
  Reply, response, submit_timeout, status_unavailable, not_found, request_refused, Client, Call,
  preflight_call, submit_call, status_call, recover_call, Envs, Run, plain_move,
  should_recover_orphan, after_enqueue, submit, poll_first, poll_sidecar_status, after_preflight,
  count_attempt, by_state, dispatch_one, poll_states,
}
use shkeeper_io.Payout.Reconciler.Keeps.{
  Sound, committed, submit_reply-Sound, recover_reply-Sound, poll_reply-Sound,
  preflight_reply-Sound,
}

-- how many of the requests are submissions
abbrev pub submissions : List Call → ℕ
submissions [] = 0
submissions (submit_call ∷ calls) = submissions calls + 1
submissions (_ ∷ calls) = submissions calls

-- The history is kept, and each submission uses up the rank that an execution has before it.
pub record RunSound (s : Session) (r : Run) : Type 0 where
  pub history : IsHistory s → IsHistory r.1
  pub spent : submissions r.2 + rank r.1.execution.state ≤ rank s.execution.state

abbrev quiet_call : Call → Bool
quiet_call submit_call = false
quiet_call _ = true

plain_move-state : (s : State) → (plain_move s).state ≡ s
unfolding plain_move
plain_move-state s = refl

of-Sound :
    {s : Session} {r : Result (Unit {0}) × Session} (calls : List Call)
    → submissions calls ≡ 0
    → Sound s r
    → RunSound s (r.0, r.1, calls)
of-Sound calls q h = record { history = h.history; spent = omega (arith, h.ranked, q) }

module _ ⦃ctx : Context⦄ (envs : Envs) (client : Client) where
  abbrev enqueued_row : Session → Result (Unit {0}) × Session
  enqueued_row s = transition envs.enqueue_env (plain_move enqueueing) s.execution s

  after_enqueue-spent :
      (r : Result (Unit {0}) × Session) (n : ℕ)
      → rank r.1.execution.state ≤ n
      → (r.0 ≡ ok tt → rank r.1.execution.state ≡ 0)
      → 1 ≤ n
      → submissions (after_enqueue envs client r).2
          + rank (after_enqueue envs client r).1.execution.state
        ≤ n
  unfolding after_enqueue
  after_enqueue-spent (err x, t) n le zero pos = omega arith
  after_enqueue-spent (ok u, t) n le zero pos =
      omega (
        arith,
        (submit_reply-Sound envs.outcome_env t (client.submit t.execution)).ranked,
        zero refl,
      )

  after_enqueue-IsHistory :
      (r : Result (Unit {0}) × Session) → IsHistory r.1 → IsHistory (after_enqueue envs client r).1
  unfolding after_enqueue
  after_enqueue-IsHistory (err x, t) h = h
  after_enqueue-IsHistory (ok u, t) h =
      (submit_reply-Sound envs.outcome_env t (client.submit t.execution)).history h

  enqueued_row-rank :
      (s : Session) → (enqueued_row s).0 ≡ ok tt → rank (enqueued_row s).1.execution.state ≡ 0
  enqueued_row-rank s q =
      ap (λ (x : State). rank x)
        (transition-reaches envs.enqueue_env (plain_move enqueueing) s.execution s q
          ∙ plain_move-state enqueueing)

  submit-RunSound :
      (s : Session) → s.execution.state ≡ preflighted → RunSound s (submit envs client s)
  unfolding submit
  submit-RunSound s p = record {
    history = λ h. after_enqueue-IsHistory (enqueued_row s) (
        transition-IsHistory envs.enqueue_env (plain_move enqueueing) s.execution s (committed s)
          h);
    spent =
        after_enqueue-spent (enqueued_row s) (rank s.execution.state)
          (transition-rank envs.enqueue_env (plain_move enqueueing) s.execution s
            (ap (λ (x : State). rank x) (plain_move-state enqueueing)))
          (enqueued_row-rank s) (omega (arith, ap (λ (x : State). rank x) p));
  }

  after_preflight-RunSound :
      (s : Session) (r : Result (Unit {0}) × Session)
      → s.execution.state ≡ created
      → Sound s r
      → RunSound s (after_preflight envs client r)
  unfolding after_preflight
  after_preflight-RunSound s (err x, t) c h = of-Sound (preflight_call ∷ []) refl h
  after_preflight-RunSound s (ok u, t) c h =
      elim (Bool-cases (state_eq t.execution.state preflighted)) [
        | inl p ↦ rw p (compose (submit-RunSound t (state_eq-eq t.execution.state preflighted p)))
        | inr p ↦ rw p (of-Sound (preflight_call ∷ []) refl h)
      ]
    where
      compose :
          RunSound t (submit envs client t)
          → RunSound s (
            (submit envs client t).0,
            (submit envs client t).1,
            preflight_call ∷ (submit envs client t).2,
          )
      compose w = record {
        history = λ g. w.history (h.history g);
        spent = omega (arith, w.spent, h.ranked);
      }

  poll-RunSound :
      (env : Env) (s : Session) (reply : Reply) → RunSound s (poll_first env client s reply)
  unfolding poll_first
  poll-RunSound env s (response r) = elim (Bool-cases (should_recover_orphan env s.execution r)) [
    | inl p ↦ rw p (
        of-Sound (status_call ∷ recover_call ∷ []) refl
          (poll_reply-Sound env s (client.recover_orphan s.execution)))
    | inr p ↦ rw p (of-Sound (status_call ∷ []) refl (poll_reply-Sound env s (response r)))
  ]
  poll-RunSound env s (submit_timeout m) =
      of-Sound (status_call ∷ []) refl (poll_reply-Sound env s (submit_timeout m))
  poll-RunSound env s (status_unavailable f m) =
      of-Sound (status_call ∷ []) refl (poll_reply-Sound env s (status_unavailable f m))
  poll-RunSound env s (not_found m) =
      of-Sound (status_call ∷ []) refl (poll_reply-Sound env s (not_found m))
  poll-RunSound env s (request_refused x m) =
      of-Sound (status_call ∷ []) refl (poll_reply-Sound env s (request_refused x m))

  idle-RunSound : (s : Session) → RunSound s (ok tt, s, [])
  idle-RunSound s = record { history = λ h. h; spent = omega arith }

  by_state-RunSound : (s : Session) → RunSound s (by_state envs client s)
  unfolding by_state poll_sidecar_status
  by_state-RunSound s = elim (Bool-cases (state_eq s.execution.state created)) [
    | inl p ↦
        let c = state_eq-eq s.execution.state created p in
        rw p (
          after_preflight-RunSound s _ c
            (preflight_reply-Sound envs.preflight_env s (client.preflight s.execution) c))
    | inr p ↦ elim (Bool-cases (state_eq s.execution.state preflighted)) [
      | inl q ↦ rw (p, q) (submit-RunSound s (state_eq-eq s.execution.state preflighted q))
      | inr q ↦ elim (Bool-cases (state_eq s.execution.state enqueueing)) [
        | inl t ↦
            rw (p, q, t)
              (of-Sound (status_call ∷ []) refl
                (recover_reply-Sound envs.outcome_env s (client.status s.execution)))
        | inr t ↦ elim (Bool-cases (state_in s.execution.state poll_states)) [
          | inl u ↦ rw (p, q, t, u) (poll-RunSound envs.outcome_env s (client.status s.execution))
          | inr u ↦ rw (p, q, t, u) (idle-RunSound s)
        ]
      ]
    ]
  ]

  counted-IsHistory : (s : Session) → IsHistory s → IsHistory (count_attempt s)
  unfolding count_attempt
  counted-IsHistory s h = record { chain = h.chain; own = h.own }

  counted-rank : (s : Session) → rank (count_attempt s).execution.state ≡ rank s.execution.state
  unfolding count_attempt
  counted-rank s = refl

  pub dispatch_one-RunSound : (s : Session) → RunSound s (dispatch_one envs client s)
  unfolding dispatch_one
  dispatch_one-RunSound s =
      let w = by_state-RunSound (count_attempt s) in
      record {
        history = λ h. w.history (counted-IsHistory s h);
        spent = omega (arith, w.spent, counted-rank s);
      }
