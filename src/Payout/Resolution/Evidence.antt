-- ===== src/Payout/Resolution/Evidence.antt =====
-- `_validate_manual_resolution_evidence` and its helpers
-- (shkeeper/services/payout_execution_service.py). That the evidence is an object with members is
-- checked by the caller.
use shkeeper_io.Prelude.{Bool, true, false, not, ◌&&◌, ◌||◌, String, str_eq}
use shkeeper_io.Prelude.Json.{
  Value, null, bool, num, text, list, nil, dict, Fields, end, get, has, truthy, value_eq,
}
use shkeeper_io.Errors.{Result, ok, ◌>>◌, require}
use shkeeper_io.Context.{Context, str, format_amount}
use shkeeper_io.Payout.States.{
  ResolutionStatus, unresolved, chain_broadcast_found, cancelled_pre_broadcast, state_name,
}
use shkeeper_io.Payout.Row.{Execution}

abbrev evidence_required : String
evidence_required = "PAYOUT_MANUAL_RESOLUTION_EVIDENCE_REQUIRED"

abbrev negative_evidence_required : String
negative_evidence_required = "PAYOUT_MANUAL_RESOLUTION_NEGATIVE_EVIDENCE_REQUIRED"

-- `v in ("", [], {})`
abbrev is_blank : Value → Bool
is_blank (text s) = str_eq s ""
is_blank (list nil) = true
is_blank (dict end) = true
is_blank _ = false

-- `v is True` and `v is False`
abbrev pub is_true : Value → Bool
is_true (bool b) = b
is_true _ = false

abbrev pub is_false : Value → Bool
is_false (bool b) = not b
is_false _ = false

unfoldable pub require_resolution_field : Fields → String → Result (Unit {0})
require_resolution_field evidence f =
    require (has f evidence && not (is_blank (get f evidence))) evidence_required 400

-- `_has_search_range`
abbrev pub has_search_range : Fields → Bool
has_search_range evidence =
    truthy (get "searched_block_range" evidence)
    || truthy (get "searched_masterchain_range" evidence)
    || truthy (get "searched_time_range" evidence)

-- `_sidecar_evidence_object`
abbrev pub sidecar_evidence_object : Execution → Fields
sidecar_evidence_object e = elim e.last_sidecar_status [ dict fs ↦ fs | _ ↦ end ]

-- a signed artifact of the original payout has been shown final
abbrev pub signed_artifact_settled : Execution → Fields → Bool
signed_artifact_settled e evidence =
    not (truthy (get "signed_payload_hash" (sidecar_evidence_object e)))
    || is_true (get "signed_artifact_finality_checked" evidence)

-- the token contract or the jetton master is named
abbrev names_contract : Fields → Bool
names_contract evidence =
    truthy (get "token_contract" evidence)
    || truthy (get "jetton_master" evidence)
    || truthy (get "token_or_jetton_contract" evidence)

-- the checks of each resolution status
unfoldable pub validate_by_status : Execution → ResolutionStatus → Fields → Result (Unit {0})
validate_by_status e ResolutionStatus.safe_for_manual_payout evidence = do
  require (is_false (get "matching_transfer_found" evidence)) negative_evidence_required 400
  require (is_false (get "pending_original_artifact" evidence)) negative_evidence_required 400
  require (has_search_range evidence) evidence_required 400
  require (signed_artifact_settled e evidence) negative_evidence_required 400
validate_by_status e chain_broadcast_found evidence = do
  require (is_true (get "matching_transfer_found" evidence)) evidence_required 400
  require (truthy (get "txids" evidence) || truthy (get "message_hashes" evidence))
      evidence_required 400
validate_by_status e ResolutionStatus.manual_payout_pending evidence =
    require (is_true (get "manual_payout_prepared" evidence)) evidence_required 400
validate_by_status e ResolutionStatus.manual_payout_completed evidence = do
  require_resolution_field evidence "manual_txid_or_message_hash"
  require_resolution_field evidence "manual_payout_source_wallet"
validate_by_status e cancelled_pre_broadcast evidence =
    require (is_true (get "pre_broadcast_failure_confirmed" evidence)) evidence_required 400
validate_by_status e unresolved evidence = ok tt

module _ ⦃ctx : Context⦄ where
  unfoldable pub require_resolution_match : Fields → String → Value → Result (Unit {0})
  require_resolution_match evidence f expected = do
    require_resolution_field evidence f
    require (value_eq (get f evidence) expected || str_eq (str (get f evidence)) (str expected))
        "PAYOUT_MANUAL_RESOLUTION_EVIDENCE_MISMATCH" 400

  -- the column, where it is not `None`, is repeated by the evidence
  unfoldable pub match_if_set : Fields → String → Value → Result (Unit {0})
  match_if_set evidence f null = ok tt
  match_if_set evidence f expected = require_resolution_match evidence f expected

  unfoldable pub validate_common_resolution_evidence : Execution → Fields → Result (Unit {0})
  validate_common_resolution_evidence e evidence = do
    require_resolution_match evidence "network" (text e.network)
    require_resolution_match evidence "asset" (text e.asset)
    require_resolution_match evidence "execution_id" (num e.id)
    require_resolution_match evidence "external_id" (text e.external_id)
    require_resolution_match evidence "destination" (text e.destination)
    require_resolution_match evidence "amount" (text (format_amount e.amount))
    require_resolution_match evidence "last_state" (text (state_name e.state))
    require (has "last_sidecar_state" evidence) evidence_required 400
    match_if_set evidence "last_sidecar_state" e.sidecar_state
    match_if_set evidence "sidecar_execution_id" e.sidecar_execution_id
    require_resolution_field evidence "source_wallet"
    require_resolution_field evidence "checked_sources"
    require (names_contract evidence) evidence_required 400

  unfoldable pub validate_manual_resolution_evidence :
      Execution → ResolutionStatus → Fields → Result (Unit {0})
  validate_manual_resolution_evidence e status evidence = do
    validate_common_resolution_evidence e evidence
    validate_by_status e status evidence
