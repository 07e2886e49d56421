-- ===== src/Payout/States.antt =====
-- The enumerations of shkeeper/models.py that a payout execution goes through. `enum.auto()`
-- numbers the members from 1; two members are compared by that number.
use shkeeper_io.Prelude.{
  ℕ, ◌≤◌, ◌≡◌, refl, ap, sym, ◌∙◌, Bool, true, String, Option, none, some, List, any, ◌==◌, ==-eq,
  ==-refl, arith, if◌then◌else◌, str_eq,
}

pub data State : Type 0 where
  created preflighted enqueueing enqueued broadcast confirmed : State
  failed_pre_broadcast failed_chain_terminal reconciliation_required manual_review : State
  safe_for_manual_payout manual_payout_pending manual_payout_completed : State

pub data FailureClass : Type 0 where
  validation preflight worker_unavailable sidecar_timeout chain_terminal ambiguous : FailureClass
  operator_resolved : FailureClass

pub data ResolutionStatus : Type 0 where
  unresolved safe_for_manual_payout chain_broadcast_found manual_payout_pending : ResolutionStatus
  manual_payout_completed cancelled_pre_broadcast : ResolutionStatus

-- `state.value`
unfoldable pub value : State → ℕ
value created = 1
value preflighted = 2
value enqueueing = 3
value enqueued = 4
value broadcast = 5
value confirmed = 6
value failed_pre_broadcast = 7
value failed_chain_terminal = 8
value reconciliation_required = 9
value manual_review = 10
value State.safe_for_manual_payout = 11
value State.manual_payout_pending = 12
value State.manual_payout_completed = 13

unfoldable pub state_eq : State → State → Bool
unfolding value
state_eq a b = value a == value b

-- `state in (...)`
unfoldable pub state_in : State → List State → Bool
unfolding state_eq
state_in s ss = any (state_eq s) ss

-- `state.name`
abbrev pub state_name : State → String
state_name created = "CREATED"
state_name preflighted = "PREFLIGHTED"
state_name enqueueing = "ENQUEUEING"
state_name enqueued = "ENQUEUED"
state_name broadcast = "BROADCAST"
state_name confirmed = "CONFIRMED"
state_name failed_pre_broadcast = "FAILED_PRE_BROADCAST"
state_name failed_chain_terminal = "FAILED_CHAIN_TERMINAL"
state_name reconciliation_required = "RECONCILIATION_REQUIRED"
state_name manual_review = "MANUAL_REVIEW"
state_name State.safe_for_manual_payout = "SAFE_FOR_MANUAL_PAYOUT"
state_name State.manual_payout_pending = "MANUAL_PAYOUT_PENDING"
state_name State.manual_payout_completed = "MANUAL_PAYOUT_COMPLETED"

abbrev pub failure_name : FailureClass → String
failure_name validation = "VALIDATION"
failure_name preflight = "PREFLIGHT"
failure_name worker_unavailable = "WORKER_UNAVAILABLE"
failure_name sidecar_timeout = "SIDECAR_TIMEOUT"
failure_name chain_terminal = "CHAIN_TERMINAL"
failure_name ambiguous = "AMBIGUOUS"
failure_name operator_resolved = "OPERATOR_RESOLVED"

abbrev pub resolution_name : ResolutionStatus → String
resolution_name unresolved = "UNRESOLVED"
resolution_name ResolutionStatus.safe_for_manual_payout = "SAFE_FOR_MANUAL_PAYOUT"
resolution_name chain_broadcast_found = "CHAIN_BROADCAST_FOUND"
resolution_name ResolutionStatus.manual_payout_pending = "MANUAL_PAYOUT_PENDING"
resolution_name ResolutionStatus.manual_payout_completed = "MANUAL_PAYOUT_COMPLETED"
resolution_name cancelled_pre_broadcast = "CANCELLED_PRE_BROADCAST"

-- `PayoutResolutionStatus[name]`, `none` for its `KeyError`
abbrev pub resolution_of_name : String → Option ResolutionStatus
resolution_of_name s =
    if str_eq s "UNRESOLVED"
    then some unresolved
    else if str_eq s "SAFE_FOR_MANUAL_PAYOUT"
    then some ResolutionStatus.safe_for_manual_payout
    else if str_eq s "CHAIN_BROADCAST_FOUND"
    then some chain_broadcast_found
    else if str_eq s "MANUAL_PAYOUT_PENDING"
    then some ResolutionStatus.manual_payout_pending
    else if str_eq s "MANUAL_PAYOUT_COMPLETED"
    then some ResolutionStatus.manual_payout_completed
    else if str_eq s "CANCELLED_PRE_BROADCAST"
    then some cancelled_pre_broadcast
    else none

of_value : ℕ → State
of_value n =
    if n == 1
    then created
    else if n == 2
    then preflighted
    else if n == 3
    then enqueueing
    else if n == 4
    then enqueued
    else if n == 5
    then broadcast
    else if n == 6
    then confirmed
    else if n == 7
    then failed_pre_broadcast
    else if n == 8
    then failed_chain_terminal
    else if n == 9
    then reconciliation_required
    else if n == 10
    then manual_review
    else if n == 11
    then State.safe_for_manual_payout
    else if n == 12
    then State.manual_payout_pending
    else State.manual_payout_completed

of_value-value : (s : State) → of_value (value s) ≡ s
unfolding of_value value
of_value-value created = refl
of_value-value _ = refl

pub state_eq-eq : (a b : State) → state_eq a b ≡ true → a ≡ b
unfolding state_eq
state_eq-eq a b h =
    sym (of_value-value a) ∙ ap of_value (==-eq (value a) (value b) h) ∙ of_value-value b

pub state_eq_refl : (s : State) → state_eq s s ≡ true
unfolding state_eq
state_eq_refl s = ==-refl (value s)

-- `SIDECAR_STATE_MAP.get(name)` of payout_execution_service.py
abbrev pub sidecar_state_map : String → Option State
sidecar_state_map s =
    if str_eq s "RECEIVED"
    then some enqueued
    else if str_eq s "VALIDATED"
    then some enqueued
    else if str_eq s "SIGNING"
    then some enqueued
    else if str_eq s "SIGNED"
    then some enqueued
    else if str_eq s "BROADCASTING"
    then some broadcast
    else if str_eq s "BROADCASTED"
    then some broadcast
    else if str_eq s "CONFIRMING"
    then some broadcast
    else if str_eq s "CONFIRMED"
    then some confirmed
    else if str_eq s "FAILED_PRE_BROADCAST"
    then some failed_pre_broadcast
    else if str_eq s "FAILED_CHAIN_TERMINAL"
    then some failed_chain_terminal
    else if str_eq s "RECONCILIATION_REQUIRED"
    then some reconciliation_required
    else none

-- 1 while the payout has not been handed to its sidecar, 0 from then on
abbrev pub rank : State → ℕ
rank created = 1
rank preflighted = 1
rank _ = 0

pub sidecar_state_map-rank : (s : String) (t : State) → sidecar_state_map s ≡ some t → rank t ≡ 0
sidecar_state_map-rank s t h = ground arith

pub rank_le : (s : State) → rank s ≤ 1
rank_le created = omega arith
rank_le _ = omega arith
