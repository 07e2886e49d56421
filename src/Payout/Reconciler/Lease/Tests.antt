-- ===== src/Payout/Reconciler/Lease/Tests.antt =====
-- The life of one execution and its leases, at a concrete row.
use shkeeper_io.Prelude.{◌≡◌, ◌≤◌, refl, none, some, List, [], ◌∷◌, arith}
use shkeeper_io.Prelude.Json.{null, end}
use shkeeper_io.Payout.States.{created, enqueueing, broadcast, state_in}
use shkeeper_io.Payout.Row.{Session}
use shkeeper_io.Payout.Transition.History.{IsHistory}
use shkeeper_io.Payout.Reconciler.{touch}
use shkeeper_io.Payout.Reconciler.Lease.{
  claim_execution, release_execution_by_id, release_execution_after_error, held,
}
use shkeeper_io.Payout.Reconciler.Lease.Lifetime.{
  Turn, dispatch, report, resolve, turns, turns-IsHistory, submitted_once, never_resubmitted,
}
use shkeeper_io.Payout.Reconciler.Lease.Exclusive.{claim_exclusive, release_needs_token}
use shkeeper_io.Payout.Fixtures.{context, env, row_in, session_in, session_in-IsHistory, worker}

abbrev life : List Turn
life =
    dispatch worker (row_in created)
    ∷ report env end
    ∷ dispatch worker (row_in created)
    ∷ resolve env null "operator"
    ∷ []

submitted_once_example : (turns life (session_in created)).1 ≤ 1
submitted_once_example = submitted_once life (session_in created)

turns-IsHistory_example : IsHistory (turns life (session_in created)).0
turns-IsHistory_example = turns-IsHistory life (session_in created) (session_in-IsHistory created)

never_resubmitted_example : (turns life (session_in broadcast)).1 ≡ 0
never_resubmitted_example = never_resubmitted life (session_in broadcast) refl

abbrev claimed_session : Session
claimed_session = touch (held 10 "worker-1" "token-1") (session_in created)

claims :
    claim_execution 10 "worker-1" "token-1" (row_in created) (session_in created)
    ≡ some claimed_session
unfolding claim_execution state_in
claims = refl

abbrev in_flight : Session
in_flight = touch (held 10 "worker-1" "token-1") (session_in enqueueing)

claim_exclusive_example :
    claim_execution 20 "worker-2" "token-2" (row_in enqueueing) in_flight ≡ none
claim_exclusive_example =
    claim_exclusive 10 20 "worker-1" "token-1" "worker-2" "token-2" (row_in created)
      (row_in enqueueing) (session_in created) in_flight claims refl (omega arith)

release_needs_token_example :
    (release_execution_by_id "worker-2" "token-2" (session_in created) ≡ session_in created)
    × (release_execution_after_error 20 "worker-2" "token-2" "timeout" (session_in created)
        ≡ session_in created)
release_needs_token_example =
    release_needs_token 20 "worker-2" "token-2" "timeout" (session_in created) (λ h. cc (h.0))
