-- ===== src/Payout/Callback.antt =====
-- shkeeper/services/payout_callback_outbox.py, the part that writes events: the endpoint and
-- signing-key settings, the payload and `add_transition_event`; with `signature_base` and
-- `sign_request` of payout_execution_auth.py.
pub mod Told
use Prim.Native.String.{compare, ◌++◌ as append}
use package.text.Mathlib.Text.{is_lt}
use shkeeper_io.Prelude.{
  ℕ, Bool, true, false, not, ◌&&◌, ◌||◌, String, Option, none, some, str_eq, or_else, if◌then◌else◌,
}
use shkeeper_io.Prelude.Text.{upper}
use shkeeper_io.Prelude.Json.{
  Value, null, bool, num, text, list, dict, Fields, end, field, get, truthy, items,
}
use shkeeper_io.Errors.{Result, ok, err, ◌>>=◌, ◌>>◌, raise, require}
use shkeeper_io.Prelude.Numerals.{show}
use shkeeper_io.Context.{Context, Env, str, load_mapping, format_amount}
use shkeeper_io.Payout.States.{State, state_name, failure_name, resolution_name}
use shkeeper_io.Payout.Row.{Execution, Event, DispatchStatus, pending}

-- `value or None`, as JSON
abbrev pub text_or_null : Option String → Value
text_or_null none = null
text_or_null (some s) = text s

abbrev pub time_text : ⦃ctx : Context⦄ → Option ℕ → Value
time_text none = null
time_text ⦃ctx⦄ (some t) = text (append (ctx.isoformat t) "Z")

-- `sorted(d.keys())[0]` with its value
least : String → Value → Fields → String × Value
least k v end = (k, v)
least k v (field j w fs) =
    least (if is_lt (compare j k) then j else k) (if is_lt (compare j k) then w else v) fs

-- `a or b`, on mappings
abbrev or_mapping : Fields → Fields → Fields
or_mapping end b = b
or_mapping a b = a

-- a secret that is no text fails at `secret.encode`
secret_text : String → Value → Result (String × String)
secret_text key_id (text s) = ok (key_id, s)
secret_text key_id v = raise "AttributeError" 500

abbrev key_secret : Value → Value
key_secret (dict config) = get "secret" config
key_secret v = v

signing_key_required : Result (String × String)
signing_key_required = raise "PAYOUT_CALLBACK_SIGNING_KEY_REQUIRED" 500

select_key : Value → Result (String × String)
unfolding least secret_text signing_key_required
select_key (text s) = ok ("default", s)
select_key (dict (field k v fs)) =
    let (key_id, key_config) = least k v fs in secret_text key_id (key_secret key_config)
select_key v = signing_key_required

-- `consumer_endpoints` to the endpoint mapping, `_endpoint_config`
abbrev endpoint_of : Value → String → Fields
endpoint_of (text url) endpoint_id =
    if str_eq endpoint_id "default" then field "url" (text url) end else end
endpoint_of (dict fs) endpoint_id = elim (get endpoint_id fs) [
  | text url ↦ field "url" (text url) end
  | dict e ↦ e
  | _ ↦ end
]
endpoint_of _ endpoint_id = end

-- `consumer_keys` defaults to `{}` when the consumer is not configured
abbrev or_empty : Value → Value
or_empty null = dict end
or_empty v = v

module _ ⦃ctx : Context⦄ where
  pub configured_keys : Fields
  unfolding load_mapping
  configured_keys = or_mapping (load_mapping ctx.payout_callback_keys) (
      or_mapping (load_mapping ctx.payout_callback_keys_json) (
        or_mapping (load_mapping ctx.payout_consumer_keys)
          (load_mapping ctx.payout_consumer_keys_json)))

  pub signing_key : String → Result (String × String)
  unfolding configured_keys select_key
  signing_key consumer = select_key (or_empty (get consumer configured_keys))

  pub endpoint_config : String → Option String → Fields
  unfolding load_mapping
  endpoint_config consumer none = end
  endpoint_config consumer (some endpoint_id) =
      endpoint_of
        (or_empty (
          get consumer (
            or_mapping (load_mapping ctx.payout_callback_endpoints)
              (load_mapping ctx.payout_callback_endpoints_json))))
        endpoint_id

  abbrev valid_url : String → Bool
  valid_url url =
      let parts = ctx.urlsplit url in
      (str_eq parts.scheme "http" || str_eq parts.scheme "https") && not (str_eq parts.netloc "")

  pub require_endpoint_configured : String → Option String → Result Fields
  unfolding endpoint_config str
  require_endpoint_configured consumer endpoint_id = do
    let endpoint = endpoint_config consumer endpoint_id
    require (truthy (get "url" endpoint)) "PAYOUT_CALLBACK_ENDPOINT_UNCONFIGURED" 503
    require (valid_url (str (get "url" endpoint))) "PAYOUT_CALLBACK_ENDPOINT_INVALID" 503
    ok endpoint

  -- `_signature_path_query`, for an endpoint that `require_endpoint_configured` returned
  pub signature_path_query : Fields → String × String
  unfolding str
  signature_path_query endpoint =
      let parts = ctx.urlsplit (str (get "url" endpoint)) in
      if truthy (get "path" endpoint)
      then (str (get "path" endpoint), elim (get "query" endpoint) [ null ↦ "" | v ↦ str v ])
      else (if str_eq parts.path "" then "/" else parts.path, parts.query)

  unfoldable pub signature_base : ℕ → String → String → String → String → String → String
  unfolding upper
  signature_base timestamp nonce method path query body = append (show timestamp) (
      append "\n" (
        append nonce (
          append "\n" (
            append (upper method) (
              append "\n"
                (append path (append "\n" (append query (append "\n" (ctx.sha256_hex body))))))))))

  unfoldable pub sign_request : String → String → String
  sign_request secret base = ctx.hmac_sha256 secret base

  -- the key, the signed text and the signature of one delivery
  pub signed_callback_metadata :
      String → Fields → String → ℕ → String → Result (String × String × String)
  unfolding signing_key signature_path_query signature_base sign_request
  signed_callback_metadata consumer endpoint body timestamp nonce = do
    (key_id, secret) ← signing_key consumer
    let (path, query) = signature_path_query endpoint
    let base = signature_base timestamp nonce "POST" path query body
    ok (key_id, base, sign_request secret base)

  -- the last nine fields of the payload, then those from `previous_state` on
  evidence_fields : Execution → Fields
  evidence_fields x = field "sidecar_status_hash" (text_or_null x.last_sidecar_status_hash) (
      field "sidecar_status_observed_at" (time_text x.last_sidecar_status_observed_at) (
        field "sidecar_evidence" x.last_sidecar_status (
          field "resolution_status" (text (resolution_name x.resolution_status)) (
            field "resolution_evidence" x.resolution_evidence (
              field "resolution_evidence_hash" (text_or_null x.resolution_evidence_hash) (
                field "resolution_operator_note" x.resolution_operator_note (
                  field "resolved_by" (text_or_null x.resolved_by)
                    (field "resolved_at" (time_text x.resolved_at) end))))))))

  state_fields : Execution → Option State → State → Fields
  unfolding evidence_fields
  state_fields x previous current =
      field "previous_state" (elim previous [ none ↦ null | some s ↦ text (state_name s) ])
        (field "state" (text (state_name current)) (
          field "failure_class"
            (elim x.failure_class [ none ↦ null | some c ↦ text (failure_name c) ])
            (field "txids" (list (items x.txids)) (
              field "message_hashes" (list (items x.message_hashes)) (
                field "error_code" x.error_code (
                  field "error_message" x.error_message (
                    field "reconciliation_required" (bool x.reconciliation_required) (
                      field "callback_endpoint_id" (text_or_null x.callback_endpoint_id) (
                        field "request_hash" (text x.request_hash) (
                          field "sidecar_payload_hash" (text x.sidecar_payload_hash)
                            (evidence_fields x)))))))))))

  -- `_payload`
  pub payload : Execution → Option State → State → String → ℕ → Value
  unfolding format_amount state_fields
  payload e previous_state current_state event_id occurred_at = dict (
      field "event_id" (text event_id) (
        field "event_version" (num e.event_version) (
          field "state_transition_id" (text e.state_transition_id) (
            field "occurred_at" (time_text (some occurred_at)) (
              field "consumer" (text e.consumer) (
                field "execution_id" (num e.id) (
                  field "sidecar_execution_id" e.sidecar_execution_id (
                    field "external_id" (text e.external_id) (
                      field "asset" (text e.asset) (
                        field "network" (text e.network) (
                          field "amount" (text (format_amount e.amount)) (
                            field "destination" (text e.destination)
                              (state_fields e previous_state current_state)))))))))))))

  -- The row of one event, from the key, the signed text and the signature of its body.
  new_event : Env → Execution → Value → ℕ → String × String × String → Event
  new_event env e body occurred_at (key_id, base, signature) = record {
    event_id = env.event_id;
    execution_id = e.id;
    consumer = e.consumer;
    external_id = e.external_id;
    event_version = e.event_version;
    state_transition_id = e.state_transition_id;
    occurred_at = occurred_at;
    callback_endpoint_id = e.callback_endpoint_id;
    payload = body;
    payload_hash = ctx.sha256_hex (ctx.dumps body);
    signature_key_id = key_id;
    signature_base = base;
    signature = signature;
    signature_timestamp = env.timestamp;
    dispatch_status = pending;
    attempt_count = 0;
    next_attempt_at = none;
    last_attempt_at = none;
    applied_at = none;
    apply_result = none;
    last_error = none;
  }

  -- The event of one transition, or what its configuration raises.
  unfoldable pub add_transition_event : Env → Execution → Option State → State → ℕ → Result Event
  unfolding require_endpoint_configured signed_callback_metadata payload new_event
  add_transition_event env e previous_state current_state occurred_at = do
    endpoint ← require_endpoint_configured e.consumer e.callback_endpoint_id
    let body = payload e previous_state current_state env.event_id occurred_at
    metadata ←
        signed_callback_metadata e.consumer endpoint (ctx.dumps body) env.timestamp env.event_id
    ok (new_event env e body occurred_at metadata)
