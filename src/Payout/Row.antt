-- ===== src/Payout/Row.antt =====
-- The tables of shkeeper/models.py behind a payout execution: the execution row, the outbox event
-- and the audit row. Columns that are filled straight from a JSON body hold a `Value`.
use shkeeper_io.Prelude.{ℕ, Bool, String, Option, List}
use shkeeper_io.Prelude.Json.{Value}
use shkeeper_io.Payout.States.{State, FailureClass, ResolutionStatus}

-- `PayoutExecution`. A time is in microseconds; the amount is in millionths, the six decimals
-- to which `canonical_usdt_amount` quantizes.
pub record Execution : Type 0 where
  pub id : ℕ
  pub consumer : String
  pub external_id : String
  pub contract_version : String
  pub asset : String
  pub network : String
  pub crypto_id : String
  pub sidecar_service : String
  pub sidecar_symbol : String
  pub payout_queue : String
  pub source_wallet_ref : String
  pub amount : ℕ
  pub destination : String
  pub request_hash : String
  pub sidecar_payload_hash : String
  pub callback_endpoint_id : Option String
  pub event_version : ℕ
  pub state_transition_id : String
  pub state : State
  pub failure_class : Option FailureClass
  pub error_code : Value
  pub error_message : Value
  pub reconciliation_required : Bool
  pub created_at : ℕ
  pub last_state_occurred_at : Option ℕ
  pub submitted_at : Option ℕ
  pub broadcasted_at : Option ℕ
  pub confirmed_at : Option ℕ
  pub terminal_at : Option ℕ
  pub sidecar_execution_id : Value
  pub sidecar_state : Value
  pub sidecar_state_version : Option ℕ
  pub sidecar_state_transition_id : Value
  pub sidecar_state_updated_at : Option ℕ
  pub last_sidecar_status_hash : Option String
  pub last_sidecar_status : Value
  pub last_sidecar_status_observed_at : Option ℕ
  pub txids : Value
  pub message_hashes : Value
  pub resolution_status : ResolutionStatus
  pub resolution_evidence : Value
  pub resolution_evidence_hash : Option String
  pub resolution_operator_note : Value
  pub resolved_by : Option String
  pub resolved_at : Option ℕ
  pub dispatch_attempts : ℕ
  pub lease_owner : Option String
  pub lease_token : Option String
  pub lease_expires_at : Option ℕ
  pub next_dispatch_at : Option ℕ

-- `PayoutCallbackOutbox.PENDING` and the other dispatch states
pub data DispatchStatus : Type 0 where
  pending retry dispatching delivered failed : DispatchStatus

-- `PayoutCallbackEvent`
pub record Event : Type 0 where
  pub event_id : String
  pub execution_id : ℕ
  pub consumer : String
  pub external_id : String
  pub event_version : ℕ
  pub state_transition_id : String
  pub occurred_at : ℕ
  pub callback_endpoint_id : Option String
  pub payload : Value
  pub payload_hash : String
  pub signature_key_id : String
  pub signature_base : String
  pub signature : String
  pub signature_timestamp : ℕ
  pub dispatch_status : DispatchStatus
  pub attempt_count : ℕ
  pub next_attempt_at : Option ℕ
  pub last_attempt_at : Option ℕ
  pub applied_at : Option ℕ
  pub apply_result : Option DispatchStatus
  pub last_error : Option String

-- `PayoutExecutionResolutionAudit`
pub record Audit : Type 0 where
  pub execution_id : ℕ
  pub action : ResolutionStatus
  pub previous_state : State
  pub new_state : State
  pub previous_resolution_status : ResolutionStatus
  pub operator_id : String
  pub operator_note : Value
  pub evidence_hash : String
  pub evidence : Value
  pub state_transition_id : String

-- One execution as it is committed, with the outbox events and audit rows written for it, in the
-- order in which they were written.
pub record Session : Type 0 where
  pub execution : Execution
  pub events : List Event
  pub audits : List Audit
