-- ===== src/Payout/Reconciler/Lease.antt =====
-- shkeeper/services/payout_execution_reconciler.py: the lease under which a worker dispatches a
-- row, and `dispatch_ready`. A row's conditional UPDATE is one step on its committed session.
pub mod Exclusive
pub mod Lifetime
mod Tests
use shkeeper_io.Prelude.{
  ℕ, zero, suc, ◌+◌, ◌-◌, ◌*◌, ◌^◌, Bool, true, false, not, ◌&&◌, ◌||◌, String, Option, none, some,
  List, [], ◌∷◌, ◌++◌, leb, str_eq, if◌then◌else◌,
}
use shkeeper_io.Prelude.Json.{Value, text}
use shkeeper_io.Errors.{Error, Result, ok, err}
use shkeeper_io.Context.{Context, Env, seconds}
use shkeeper_io.Payout.States.{State, state_in}
use shkeeper_io.Payout.Row.{Execution, Session}
use shkeeper_io.Payout.Reconciler.{
  Client, Call, Envs, Run, touch, retry_delay, ready_states, poll_states, dispatch_one,
}

-- `column is None or column <= now`
abbrev pub passed : ℕ → Option ℕ → Bool
passed now none = true
passed now (some t) = leb t now

-- the filters of `dispatch_ready`
unfoldable pub is_due : ℕ → Execution → Bool
is_due now e =
    state_in e.state (ready_states ++ poll_states)
    && passed now e.lease_expires_at
    && passed now e.next_dispatch_at

abbrev pub held : ℕ → String → String → Execution → Execution
held now owner token e = record e {
  lease_owner = some owner;
  lease_token = some token;
  lease_expires_at = some (now + seconds 300);
}

-- `claim_execution` of the row as it was read, with 300 seconds; `none` where no row was updated
pub claim_execution : ℕ → String → String → Execution → Session → Option Session
claim_execution now owner token seen s =
    if state_in s.execution.state (seen.state ∷ []) && passed now s.execution.lease_expires_at
    then some (touch (held now owner token) s)
    else none

abbrev pub holds : Option String → String → Bool
holds none t = false
holds (some s) t = str_eq s t

abbrev pub is_holder : String → String → Execution → Bool
is_holder owner token e = holds e.lease_owner owner && holds e.lease_token token

abbrev pub free : Execution → Execution
free e = record e { lease_owner = none; lease_token = none; lease_expires_at = none }

-- `release_execution_by_id`
pub release_execution_by_id : String → String → Session → Session
release_execution_by_id owner token s =
    if is_holder owner token s.execution then touch free s else s

abbrev pub parked : ℕ → String → Execution → Execution
parked now message e = record (free e) {
  next_dispatch_at = some (now + seconds (retry_delay e.dispatch_attempts));
  error_code = text "PAYOUT_DISPATCH_EXCEPTION";
  error_message = text message;
}

-- `release_execution_after_error`
pub release_execution_after_error : ℕ → String → String → String → Session → Session
release_execution_after_error now owner token message s =
    if is_holder owner token s.execution then touch (parked now message) s else s

-- One turn of the loop of `dispatch_ready`: its identity and its clock.
pub record Worker : Type 0 where
  pub owner : String
  pub token : String
  pub claimed_at : ℕ
  pub released_at : ℕ
  pub envs : Envs
  pub client : Client

pub finish : Worker → Run → Session × List Call
finish w (ok u, s, calls) = (release_execution_by_id w.owner w.token s, calls)
finish w (err x, s, calls) =
    (release_execution_after_error w.released_at w.owner w.token x.code s, calls)

module _ ⦃ctx : Context⦄ where
  claimed : Worker → Session → Option Session → Session × List Call
  claimed w s none = (s, [])
  claimed w s (some t) = finish w (dispatch_one w.envs w.client t)

  pub dispatch_row : Worker → Execution → Session → Session × List Call
  unfolding claimed
  dispatch_row w seen s = claimed w s (claim_execution w.claimed_at w.owner w.token seen s)

  -- The rows in the order of `created_at`: at most `batch_size` of those that are due are
  -- dispatched, each by its own turn.
  pub dispatch_ready : ℕ → ℕ → List (Worker × Session) → List (Session × List Call)
  dispatch_ready now batch_size [] = []
  dispatch_ready now zero ((w, s) ∷ rows) = (s, []) ∷ dispatch_ready now zero rows
  dispatch_ready now (suc batch_size) ((w, s) ∷ rows) =
      let taken = dispatch_row w s.execution s ∷ dispatch_ready now batch_size rows in
      let left = (s, []) ∷ dispatch_ready now (suc batch_size) rows in
      if is_due now s.execution then taken else left
