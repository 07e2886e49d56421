-- ===== src/Payout/Rail/Tests.antt =====
-- The guard of spends outside of payout execution, at a concrete rail.
use shkeeper_io.Prelude.{◌≡◌, refl, true, false, none, some, [], ◌∷◌, str_eq}
use shkeeper_io.Errors.{ok}
use shkeeper_io.Payout.Rail.{
  Rail, assert_legacy_spend_allowed, spend_on, find_rail_for_spend_source, is_blank,
  assert_operator_audit_context, acquire_or_verify_wallet_guard, current_sidecar_source_wallet,
  block_automatic_bypass, legacy_spend_guarded,
}

abbrev hot : Rail
hot = record {
  consumer = "shop";
  asset = "USDT";
  network = "ETH";
  crypto_id = "ETH-USDT";
  sidecar_service = "eth-shkeeper";
  sidecar_symbol = "USDT";
  payout_queue = "eth";
  source_wallet_ref = "hot";
  hot_wallet_policy = current_sidecar_source_wallet;
  legacy_spend_policy = block_automatic_bypass;
  wallet_guard_key = none;
  execution_enabled = true;
  callback_endpoint_id = some "default";
  contract_version = "usdt-payout-execution-v1";
}

found : find_rail_for_spend_source "ETH-USDT" (some "hot") (hot ∷ []) ≡ some hot
unfolding find_rail_for_spend_source
found = refl

allowed :
    assert_legacy_spend_allowed "ETH-USDT"
      (some "hot")
      "manual_admin"
      (some "alice")
      (some "refund")
      (hot ∷ [])
    ≡ ok tt
unfolding assert_legacy_spend_allowed spend_on find_rail_for_spend_source
    assert_operator_audit_context acquire_or_verify_wallet_guard
allowed = refl

legacy_spend_guarded_example :
    (str_eq "manual_admin" "manual_admin" ≡ true)
    × (is_blank (some "alice") ≡ false)
    × (is_blank (some "refund") ≡ false)
    × (hot.hot_wallet_policy ≡ current_sidecar_source_wallet)
legacy_spend_guarded_example =
    legacy_spend_guarded "ETH-USDT" (some "hot") "manual_admin" (some "alice") (some "refund")
      (hot ∷ []) hot allowed found
