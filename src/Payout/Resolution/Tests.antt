-- ===== src/Payout/Resolution/Tests.antt =====
-- Resolutions of a row in manual review.
use shkeeper_io.Prelude.{◌≡◌, refl, true, false, [], ◌∷◌}
use shkeeper_io.Prelude.Json.{Value, null, bool, num, text, dict, Fields, end, field, get, value_eq}
use shkeeper_io.Errors.{Error, ok, err}
use shkeeper_io.Context.{str, hash_payload, format_amount}
use shkeeper_io.Payout.States.{State, manual_review, confirmed, state_in}
use shkeeper_io.Payout.Row.{Session}
use shkeeper_io.Payout.Callback.{add_transition_event}
use shkeeper_io.Payout.Transition.{transition, moved}
use shkeeper_io.Payout.Resolution.{
  check_resolution, require_object, require_evidence, resolution_status_of,
  manual_resolution_target_state, require_lists, resolved_row, resolution_move, carry_out,
  record_manual_resolution,
}
use shkeeper_io.Payout.Resolution.Evidence.{
  validate_manual_resolution_evidence, validate_common_resolution_evidence,
  require_resolution_match, require_resolution_field, match_if_set, validate_by_status,
}
use shkeeper_io.Payout.Resolution.Guard.{Effect, resolution-Effect}
use shkeeper_io.Payout.Resolution.Safety.{
  SafeRelease, safe_needs_evidence, resolution_refused_when_final,
}
use shkeeper_io.Payout.Fixtures.{context, env, address, session_in}

abbrev evidence_given : Fields
evidence_given = field "network" (text "ETH") (
    field "asset" (text "USDT") (
      field "execution_id" (num 1) (
        field "external_id" (text "order-1") (
          field "destination" (text address) (
            field "amount" (text "1.500000") (
              field "last_state" (text "MANUAL_REVIEW") (
                field "last_sidecar_state" (null) (
                  field "source_wallet" (text "hot") (
                    field "checked_sources" (text "explorer") (
                      field "token_contract" (text "0xdac1") (
                        field "matching_transfer_found" (bool false) (
                          field "pending_original_artifact" (bool false)
                            (field "searched_block_range" (text "1-9") end)))))))))))))

abbrev payload : Value
payload = dict (
    field "resolution_status" (text "SAFE_FOR_MANUAL_PAYOUT")
      (field "evidence" (dict evidence_given) end))

abbrev in_review : Session
in_review = session_in manual_review

abbrev in_confirmed : Session
in_confirmed = session_in confirmed

settles :
    ((record_manual_resolution env in_review payload "alice").0 ≡ ok tt)
    × ((record_manual_resolution env in_review payload "alice").1.execution.state
        ≡ State.safe_for_manual_payout)
unfolding record_manual_resolution carry_out check_resolution require_object resolution_status_of
    require_evidence validate_manual_resolution_evidence validate_common_resolution_evidence
    require_resolution_match require_resolution_field match_if_set validate_by_status
    manual_resolution_target_state require_lists resolution_move resolved_row transition moved
    add_transition_event str hash_payload state_in format_amount value_eq
settles = (refl, refl)

safe_needs_evidence_example :
    (fields : Fields) × (evidence : Fields) × (payload ≡ dict fields)
    × (get "evidence" fields ≡ dict evidence)
    × ((record_manual_resolution env in_review payload "alice").1.execution.resolution_evidence
        ≡ dict evidence)
    × SafeRelease in_review.execution evidence
safe_needs_evidence_example = safe_needs_evidence env in_review payload "alice" settles.0 settles.1

is_final : state_in in_confirmed.execution.state (confirmed ∷ []) ≡ true
unfolding state_in
is_final = refl

resolution_refused_when_final_example :
    (x : Error) × (record_manual_resolution env in_confirmed payload "alice"
      ≡ (err x, in_confirmed))
unfolding state_in
resolution_refused_when_final_example =
    resolution_refused_when_final env in_confirmed payload "alice" refl

resolution-Effect_example :
    Effect env in_review payload "alice" (record_manual_resolution env in_review payload "alice")
resolution-Effect_example = resolution-Effect env in_review payload "alice"
