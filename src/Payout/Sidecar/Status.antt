-- ===== src/Payout/Sidecar/Status.antt =====
-- A sidecar's status answer: what `apply_sidecar_status` reads of it, and the snapshot that is kept
-- as evidence (shkeeper/services/payout_execution_service.py). The values are JSON, on which
-- `_json_safe_value` changes nothing but the order of keys, and `json.dumps` sorts those.
use Prim.Native.Char.{code}
use shkeeper_io.Prelude.{
  ℕ, Bool, true, false, not, ◌&&◌, String, Option, none, some, List, [], ◌∷◌, any, ◌==◌, str_eq,
  if◌then◌else◌,
}
use shkeeper_io.Prelude.Text.{strip}
use shkeeper_io.Prelude.Json.{
  Value, null, bool, num, float, text, dict, Fields, end, field, get, has, is_null, truthy,
  or_value,
}
use shkeeper_io.Prelude.Numerals.{int_of}
use shkeeper_io.Context.{Context, str, hash_payload, format_amount}
use shkeeper_io.Payout.Row.{Execution}
use shkeeper_io.Payout.Callback.{time_text}

-- `SIDECAR_EVIDENCE_FIELDS`
abbrev pub sidecar_evidence_fields : List String
sidecar_evidence_fields =
    "consumer" ∷ "execution_id" ∷ "sidecar_execution_id" ∷ "external_id" ∷ "contract_version"
    ∷ "asset" ∷ "network" ∷ "amount" ∷ "destination" ∷ "state" ∷ "state_version"
    ∷ "state_transition_id" ∷ "state_updated_at" ∷ "request_hash" ∷ "sidecar_payload_hash"
    ∷ "source_wallet" ∷ "token_contract" ∷ "jetton_master" ∷ "jetton_wallet"
    ∷ "chain_id_or_network_id" ∷ "reference_block_or_masterchain_seqno"
    ∷ "transaction_expiration_or_valid_until" ∷ "lease_owner" ∷ "lease_expires_at" ∷ "attempt_id"
    ∷ "nonce_or_seqno" ∷ "nonce_seqno_reserved_at" ∷ "resource_reservation_id"
    ∷ "resource_reservation_status" ∷ "signed_payload_storage_ref" ∷ "signed_payload_hash"
    ∷ "signed_payload_stored_at" ∷ "txid_or_message_hash" ∷ "broadcast_attempted_at"
    ∷ "broadcast_provider" ∷ "last_chain_check_at" ∷ "last_chain_check_source" ∷ "failure_class"
    ∷ "error_code" ∷ "error_message" ∷ "txids" ∷ "message_hashes" ∷ []

-- `SIDECAR_EVIDENCE_DATETIME_FIELDS`
abbrev sidecar_evidence_datetime_fields : List String
sidecar_evidence_datetime_fields =
    "state_updated_at" ∷ "transaction_expiration_or_valid_until" ∷ "lease_expires_at"
    ∷ "nonce_seqno_reserved_at" ∷ "signed_payload_stored_at" ∷ "broadcast_attempted_at"
    ∷ "last_chain_check_at" ∷ []

-- the text of a float up to its dot
before_dot : String → String
before_dot String.[] = ""
before_dot (String.◌∷◌ c rest) =
    let more = before_dot rest in if code c == b'.' then "" else String.◌∷◌ c more

-- `int(v)`, `none` where it raises; of a text, an unsigned decimal number; of a float that is
-- written without an exponent, its integral part
unfoldable pub to_int : Value → Option ℕ
unfolding before_dot int_of
to_int (num n) = some n
to_int (bool true) = some 1
to_int (bool false) = some 0
to_int (float s) = int_of (before_dot s)
to_int (text s) = int_of s
to_int _ = none

-- `normalized[:-1] + "+00:00"` where the text ends with `Z`
zone_z : String → String
zone_z String.[] = ""
zone_z (String.◌∷◌ c rest) =
    let more = String.◌∷◌ c (zone_z rest) in
    if str_eq rest "" && code c == b'Z' then "+00:00" else more

-- `a.get(k) or a.get(l)`
abbrev pub get_either : String → String → Fields → Value
get_either k l fs = or_value (get k fs) (get l fs)

-- What a status says, once it is complete.
pub record Reading : Type 0 where
  pub sidecar_state : Value
  pub version : ℕ
  pub transition_id : Value
  pub updated_at : ℕ

pub data Parsed : Type 0 where
  missing : String → Parsed
  readable : Reading → Parsed

module _ ⦃ctx : Context⦄ where
  -- `_parse_sidecar_datetime`
  unfoldable pub parse_sidecar_datetime : Value → Option ℕ
  unfolding str zone_z strip
  parse_sidecar_datetime v = if truthy v then ctx.fromisoformat (zone_z (strip (str v))) else none

  -- `_status_value_matches`
  abbrev status_value_matches : String → Value → Bool
  status_value_matches expected actual = not (is_null actual) && str_eq (str actual) expected

  -- the first field of `expected_fields` that the status does not repeat
  first_mismatch : List (String × String) → Fields → Option String
  unfolding str
  first_mismatch [] status = none
  first_mismatch ((k, expected) ∷ rest) status =
      let later = first_mismatch rest status in
      if status_value_matches expected (get k status) then later else some k

  -- `_validate_sidecar_identity`
  unfoldable pub validate_sidecar_identity : Execution → Fields → Option String
  unfolding first_mismatch
  validate_sidecar_identity e status =
      first_mismatch
        (("consumer", e.consumer)
          ∷ ("execution_id", str (num e.id))
          ∷ ("external_id", e.external_id)
          ∷ ("contract_version", e.contract_version)
          ∷ ("asset", e.asset)
          ∷ ("network", e.network)
          ∷ ("request_hash", e.request_hash)
          ∷ ("sidecar_payload_hash", e.sidecar_payload_hash)
          ∷ [])
        status

  -- `_normalize_evidence_field`
  normalize_evidence_field : String → Value → Value
  unfolding parse_sidecar_datetime
  normalize_evidence_field f v =
      if any (str_eq f) sidecar_evidence_datetime_fields
      then time_text (parse_sidecar_datetime v)
      else v

  -- the checks of `apply_sidecar_status` on its four required members, in their order
  unfoldable pub read_status : Fields → Parsed
  unfolding to_int parse_sidecar_datetime
  read_status status =
      let sidecar_state = get_either "sidecar_state" "state" status in
      let version = to_int (
        if is_null (get "sidecar_state_version" status)
        then get "state_version" status
        else get "sidecar_state_version" status) in
      let transition_id = get_either "sidecar_state_transition_id" "state_transition_id" status in
      let updated_at =
        parse_sidecar_datetime (get_either "sidecar_state_updated_at" "state_updated_at" status) in
      if truthy sidecar_state
      then elim version [
        | none ↦ missing "Sidecar status is missing state_version"
        | some v ↦
            if truthy transition_id
            then elim updated_at [
              | none ↦ missing "Sidecar status is missing or invalid state_updated_at"
              | some t ↦ readable (record {
                sidecar_state = sidecar_state;
                version = v;
                transition_id = transition_id;
                updated_at = t;
              })
            ]
            else missing "Sidecar status is missing state_transition_id"
      ]
      else missing "Sidecar status is missing sidecar_state"

  -- the members that `_sidecar_status_snapshot` fills from the row and the reading
  own_evidence : Execution → Fields → Reading → Fields
  unfolding format_amount
  own_evidence e status r = field "consumer" (text e.consumer) (
      field "execution_id" (num e.id) (
        field "sidecar_execution_id" (get "sidecar_execution_id" status) (
          field "external_id" (text e.external_id) (
            field "contract_version" (text e.contract_version) (
              field "asset" (text e.asset) (
                field "network" (text e.network) (
                  field "amount" (text (format_amount e.amount)) (
                    field "destination" (text e.destination) (
                      field "state" r.sidecar_state (
                        field "state_version" (num r.version) (
                          field "state_transition_id" r.transition_id (
                            field "state_updated_at" (time_text (some r.updated_at)) (
                              field "request_hash" (text e.request_hash) (
                                field "sidecar_payload_hash" (text e.sidecar_payload_hash) (
                                  field "txids" (get "txids" status) (
                                    field "message_hashes" (get "message_hashes" status)
                                      end))))))))))))))))

  -- each evidence field: the row's own value, else what the status says, else `None`
  fill_evidence : List String → Fields → Fields → Fields
  unfolding normalize_evidence_field
  fill_evidence [] own status = end
  fill_evidence (f ∷ fs) own status =
      field f
        (if is_null (get f own)
          then if has f status then normalize_evidence_field f (get f status) else null
          else get f own)
        (fill_evidence fs own status)

  unfoldable pub sidecar_status_snapshot : Execution → Fields → Reading → Value
  unfolding fill_evidence own_evidence
  sidecar_status_snapshot e status r =
      dict (fill_evidence sidecar_evidence_fields (own_evidence e status r) status)

  unfoldable pub sidecar_status_hash : Value → String
  unfolding hash_payload
  sidecar_status_hash snapshot = hash_payload snapshot
