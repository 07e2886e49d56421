-- ===== src/Payout/Fixtures.antt =====
-- A concrete context, execution and rail, at which the theorems are applied.
use Prim.Native.String.{◌++◌ as append}
use shkeeper_io.Prelude.{refl, true, false, String, none, some, [], ◌∷◌, str_eq, if◌then◌else◌}
use shkeeper_io.Prelude.Json.{Value, null, text, list, dict, nil, end, field}
use shkeeper_io.Context.{Context, Env, finite_down}
use shkeeper_io.Payout.States.{State, unresolved, state_name}
use shkeeper_io.Payout.Row.{Execution, Event, Session, pending}
use shkeeper_io.Payout.Rail.{Rail, current_sidecar_source_wallet, block_automatic_bypass}
use shkeeper_io.Payout.Transition.History.{IsHistory}
use shkeeper_io.Payout.Reconciler.{Client, response}
use shkeeper_io.Payout.Reconciler.Lease.{Worker}

-- every body is dumped as "body", and a hash is the text itself
instance abbrev pub context : Context
context = record {
  sha256_hex = λ s. s;
  hmac_sha256 = λ secret s. append secret s;
  dumps = λ v. "body";
  loads = λ s. end;
  urlsplit = λ s. record { scheme = "https"; netloc = "shop.test"; path = "/cb"; query = "" };
  sha256 = λ bs. bs;
  urlsafe_b64decode = λ s. none;
  decimal = λ s. if str_eq s "1.5" then some (finite_down false 15 1) else none;
  fromisoformat = λ s. some 5;
  isoformat = λ t. "2026-01-01T00:00:00";
  repr = λ v. "";
  payout_callback_keys = dict (field "shop" (text "secret") end);
  payout_callback_keys_json = null;
  payout_consumer_keys = null;
  payout_consumer_keys_json = null;
  payout_callback_endpoints = dict (field "shop" (text "https://shop.test/cb") end);
  payout_callback_endpoints_json = null;
  orphan_recovery_min_age_sec = 600;
}

abbrev pub env : Env
env = record { now = 10; timestamp = 0; transition_id = "t-1"; event_id = "e-1" }

abbrev pub address : String
address = "0x00112233445566778899aabbccddeeff00112233"

abbrev pub row_in : State → Execution
row_in s = record {
  id = 1;
  consumer = "shop";
  external_id = "order-1";
  contract_version = "usdt-payout-execution-v1";
  asset = "USDT";
  network = "ETH";
  crypto_id = "ETH-USDT";
  sidecar_service = "eth-shkeeper";
  sidecar_symbol = "USDT";
  payout_queue = "eth";
  source_wallet_ref = "hot";
  amount = 1500000;
  destination = address;
  request_hash = "body";
  sidecar_payload_hash = "body";
  callback_endpoint_id = some "default";
  event_version = 1;
  state_transition_id = "t-0";
  state = s;
  failure_class = none;
  error_code = null;
  error_message = null;
  reconciliation_required = false;
  created_at = 0;
  last_state_occurred_at = some 0;
  submitted_at = none;
  broadcasted_at = none;
  confirmed_at = none;
  terminal_at = none;
  sidecar_execution_id = null;
  sidecar_state = null;
  sidecar_state_version = none;
  sidecar_state_transition_id = null;
  sidecar_state_updated_at = none;
  last_sidecar_status_hash = none;
  last_sidecar_status = dict end;
  last_sidecar_status_observed_at = none;
  txids = list nil;
  message_hashes = list nil;
  resolution_status = unresolved;
  resolution_evidence = dict end;
  resolution_evidence_hash = none;
  resolution_operator_note = null;
  resolved_by = none;
  resolved_at = none;
  dispatch_attempts = 0;
  lease_owner = none;
  lease_token = none;
  lease_expires_at = none;
  next_dispatch_at = none;
}

abbrev pub event_of : State → Event
event_of s = record {
  event_id = "e-0";
  execution_id = 1;
  consumer = "shop";
  external_id = "order-1";
  event_version = 1;
  state_transition_id = "t-0";
  occurred_at = 0;
  callback_endpoint_id = some "default";
  payload = dict (field "state" (text (state_name s)) end);
  payload_hash = "body";
  signature_key_id = "default";
  signature_base = "base";
  signature = "signature";
  signature_timestamp = 0;
  dispatch_status = pending;
  attempt_count = 0;
  next_attempt_at = none;
  last_attempt_at = none;
  applied_at = none;
  apply_result = none;
  last_error = none;
}

-- a row that was created in this state, for brevity
abbrev pub session_in : State → Session
session_in s = record { execution = row_in s; events = event_of s ∷ []; audits = [] }

pub session_in-IsHistory : (s : State) → IsHistory (session_in s)
session_in-IsHistory s = record { chain = (refl, refl, (refl, refl)); own = (refl, tt) }

abbrev pub rail : Rail
rail = record {
  consumer = "shop";
  asset = "USDT";
  network = "ETH";
  crypto_id = "ETH-USDT";
  sidecar_service = "eth-shkeeper";
  sidecar_symbol = "USDT";
  payout_queue = "eth";
  source_wallet_ref = "hot";
  hot_wallet_policy = current_sidecar_source_wallet;
  legacy_spend_policy = block_automatic_bypass;
  wallet_guard_key = none;
  execution_enabled = true;
  callback_endpoint_id = some "default";
  contract_version = "usdt-payout-execution-v1";
}

abbrev pub request : Value
request = dict (
    field "external_id" (text "order-1") (
      field "asset" (text "usdt") (
        field "network" (text "eth")
          (field "amount" (text "1.5") (field "destination" (text address) end)))))

-- a sidecar that accepts everything
abbrev pub client : Client
client = record {
  preflight = λ e. response end;
  submit = λ e. response end;
  status = λ e. response end;
  recover_orphan = λ e. response end;
}

abbrev pub worker : Worker
worker = record {
  owner = "worker-1";
  token = "token-1";
  claimed_at = 10;
  released_at = 20;
  envs = record { preflight_env = env; enqueue_env = env; outcome_env = env };
  client = client;
}
