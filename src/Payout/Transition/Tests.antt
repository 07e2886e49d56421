-- ===== src/Payout/Transition/Tests.antt =====
-- One transition of a concrete row.
use shkeeper_io.Prelude.{refl}
use shkeeper_io.Payout.States.{created, preflighted}
use shkeeper_io.Payout.Transition.{move_to, transition}
use shkeeper_io.Payout.Transition.History.{IsHistory, transition-IsHistory}
use shkeeper_io.Payout.Fixtures.{context, env, row_in, session_in, session_in-IsHistory}

transition-IsHistory_example :
    IsHistory (transition env (move_to preflighted) (row_in created) (session_in created)).1
transition-IsHistory_example =
    transition-IsHistory env (move_to preflighted) (row_in created) (session_in created)
      (record { id = refl; state = refl; event_version = refl }) (session_in-IsHistory created)
