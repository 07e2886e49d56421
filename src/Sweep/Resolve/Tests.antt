-- ===== src/Sweep/Resolve/Tests.antt =====
-- A resolution of a concrete deposit.
use shkeeper_io.Prelude.{◌≡◌, refl, true, false, some, none, [], ◌∷◌}
use shkeeper_io.Prelude.Json.{text, dict, Fields, end, field}
use shkeeper_io.Prelude.Text.{strip, upper, lower}
use shkeeper_io.Errors.{ok}
use shkeeper_io.Context.{str}
use shkeeper_io.Sweep.{
  addresses_match, normalize_sweep_network, expected_sweep_network, same_address,
  uses_case_insensitive_address, normalize_crypto,
}
use shkeeper_io.Aml.Check.{manual_review, hold_for_review}
use shkeeper_io.Sweep.Resolve.{
  GuardedCheck, Transaction, SweepResolution, record_sweep_resolution, new_resolution,
  resolve_valid, resolve_by_key, resolve_new, settle, insert, validate_basic_payload,
  validate_deposit, matches, network_matches, text_of, is_blank, has_unknown, is_terminal_reason,
  validate_no_refund,
}
use shkeeper_io.Sweep.Resolve.Recorded.{Distinct, record-Distinct}
use shkeeper_io.Sweep.Resolve.Again.{resolution_again}
use shkeeper_io.Sweep.Resolve.Race.{resolution_race}
use shkeeper_io.Sweep.Resolve.Grounded.{IsResolvable, recorded-IsResolvable}
use shkeeper_io.Payout.Fixtures.{context}

abbrev tx : Transaction
tx = record { id = 7; txid = "0xab"; crypto = "ETH-USDT"; addr = "0x11" }

abbrev check : GuardedCheck
check = record {
  deposit_id = "shkeeper-tx-7";
  sweep_guard_required = true;
  status = manual_review;
  deposit_decision = some hold_for_review;
  decision_reason = text "risk_profile_alert";
  network = none;
  transaction = some tx;
}

abbrev payload : Fields
payload = field "resolution_type" (text "approved") (
    field "deposit_id" (text "shkeeper-tx-7") (
      field "txid" (text "0xab") (
        field "crypto" (text "eth-usdt") (
          field "network" (text "erc20") (
            field "address" (text "0x11") (
              field "reviewer" (text "ann") (
                field "reason" (text "known shop") (
                  field "external_review_id" (text "r-1")
                    (field "idempotency_key" (text "k-1") end)))))))))

abbrev resolution : SweepResolution
resolution = new_resolution 1 payload "approved" none check tx

recorded :
    record_sweep_resolution 1 (check ∷ []) [] [] (dict payload)
    ≡ (ok (resolution, false), resolution ∷ [])
unfolding record_sweep_resolution resolve_valid resolve_by_key resolve_new settle insert
    validate_basic_payload validate_deposit matches network_matches text_of is_blank has_unknown
    is_terminal_reason validate_no_refund addresses_match normalize_sweep_network
    expected_sweep_network same_address uses_case_insensitive_address strip upper lower str
    normalize_crypto
recorded = refl

no_rows : Distinct []
unfolding Distinct
no_rows = tt

record-Distinct_example : Distinct (record_sweep_resolution 1 (check ∷ []) [] [] (dict payload)).1
record-Distinct_example = record-Distinct 1 (check ∷ []) [] [] (dict payload) no_rows

resolution_again_example :
    record_sweep_resolution 2 (check ∷ []) (resolution ∷ []) (resolution ∷ []) (dict payload)
    ≡ (ok (resolution, true), resolution ∷ [])
resolution_again_example =
    resolution_again (check ∷ []) 1 2 [] (resolution ∷ []) (dict payload) resolution false recorded

resolution_race_example :
    record_sweep_resolution 2 (check ∷ []) [] (resolution ∷ []) (dict payload)
    ≡ (ok (resolution, true), resolution ∷ [])
resolution_race_example =
    resolution_race (check ∷ []) 1 2 [] [] (resolution ∷ []) (dict payload) resolution recorded

recorded-IsResolvable_example :
    IsResolvable (check ∷ []) payload resolution × (resolution ∷ [] ≡ resolution ∷ [])
recorded-IsResolvable_example =
    recorded-IsResolvable 1 (check ∷ []) [] [] (resolution ∷ []) payload resolution recorded
