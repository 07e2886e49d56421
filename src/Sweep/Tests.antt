-- ===== src/Sweep/Tests.antt =====
-- The decision on one approved deposit.
use shkeeper_io.Prelude.{◌≡◌, refl, true, false, none, some, [], ◌∷◌, Memᴰ}
use shkeeper_io.Prelude.Text.{strip, upper}
use shkeeper_io.Sweep.{
  Check, Deposit, allow, block, decide_sweep_eligibility, relevant_checks, decide_checks, decide,
  guarded_checks_for_address, guarded_check, network_matches, normalize_crypto,
  normalize_sweep_network, expected_sweep_network, is_sweep_guarded_crypto,
  network_matches_guarded_crypto, addresses_match, same_address, uses_case_insensitive_address,
  is_known, refusal_for, decide_after, decide_found,
}
use shkeeper_io.Sweep.Settled.{IsSettled, sweep_allowed-IsSettled, wrong_network_blocked}

abbrev approved : Check
approved = record {
  deposit_id = "d-1";
  status = "approved";
  sweep_guard_required = true;
  network = some "TRC20";
}

abbrev deposit : Deposit
deposit = record {
  id = 1;
  crypto = "USDT";
  txid = "tx-1";
  addr = some "T1";
  invoice_addr = some "T1";
  invoice_addresses = [];
  need_more_confirmations = false;
  callback_confirmed = true;
  aml_check = some approved;
}

allowed :
    (decide_sweep_eligibility "USDT" "TRON" (some "T1") none (deposit ∷ []) []).decision ≡ allow
unfolding decide_sweep_eligibility relevant_checks decide_checks decide guarded_checks_for_address
    guarded_check network_matches normalize_crypto normalize_sweep_network expected_sweep_network
    is_sweep_guarded_crypto network_matches_guarded_crypto addresses_match same_address
    uses_case_insensitive_address is_known refusal_for decide_after decide_found strip upper
allowed = refl

among : Memᴰ (deposit, approved) (relevant_checks "USDT" "TRON" (some "T1") (deposit ∷ []))
unfolding relevant_checks guarded_checks_for_address guarded_check network_matches normalize_crypto
    normalize_sweep_network expected_sweep_network addresses_match same_address
    uses_case_insensitive_address strip upper
among = Memᴰ.head refl

sweep_allowed-IsSettled_example : IsSettled [] (deposit, approved)
sweep_allowed-IsSettled_example =
    sweep_allowed-IsSettled "USDT" "TRON" (some "T1") none (deposit ∷ []) [] allowed
      (deposit, approved) among

is_guarded : is_sweep_guarded_crypto "USDT" ≡ true
unfolding is_sweep_guarded_crypto expected_sweep_network normalize_crypto strip upper
is_guarded = refl

elsewhere : network_matches_guarded_crypto "USDT" "ETH" ≡ false
unfolding network_matches_guarded_crypto expected_sweep_network normalize_crypto
    normalize_sweep_network strip upper
elsewhere = refl

eth_is_blocked :
    (decide_sweep_eligibility "USDT" "ETH" (some "T1") none (deposit ∷ []) []).decision ≡ block
eth_is_blocked =
    wrong_network_blocked "USDT" "ETH" (some "T1") none (deposit ∷ []) [] is_guarded elsewhere
