-- ===== src/Sweep.antt =====
-- shkeeper/services/sweep_guard_policy.py and shkeeper/services/sweep_eligibility.py: whether the
-- deposits on an address may be swept. A deposit is a transaction as the queries join it.
pub mod Settled
pub mod Resolve
mod Tests
use shkeeper_io.Prelude.{
  ℕ, Bool, true, false, not, ◌&&◌, ◌||◌, String, Option, none, some, List, [], ◌∷◌, ◌++◌, any, all,
  select, map, ◌==◌, str_eq, if◌then◌else◌,
}
use shkeeper_io.Prelude.Text.{strip, upper, lower}

-- `NETWORK_ALIASES.get(value, value)`
network_alias : String → String
network_alias s =
    if any (str_eq s) ("BEP20" ∷ "BEP-20" ∷ "BINANCE" ∷ "BSC" ∷ "BNB" ∷ [])
    then "BSC"
    else if any (str_eq s) ("ETH" ∷ "ERC20" ∷ "ERC-20" ∷ "ETHEREUM" ∷ [])
    then "ETHEREUM"
    else if any (str_eq s) ("TON" ∷ "TON-USDT" ∷ [])
    then "TON"
    else if any (str_eq s) ("TRC20" ∷ "TRC-20" ∷ "TRON" ∷ [])
    then "TRON"
    else s

pub normalize_crypto : String → String
normalize_crypto s = upper (strip s)

pub normalize_sweep_network : String → String
unfolding network_alias
normalize_sweep_network s = network_alias (upper (strip s))

-- `GUARDED_SWEEP_NETWORKS.get(normalize_crypto(crypto))`
pub expected_sweep_network : String → Option String
expected_sweep_network crypto =
    if str_eq (normalize_crypto crypto) "USDT"
    then some "TRON"
    else if str_eq (normalize_crypto crypto) "ETH-USDT"
    then some "ETHEREUM"
    else none

pub is_sweep_guarded_crypto : String → Bool
is_sweep_guarded_crypto crypto = elim (expected_sweep_network crypto) [
  | none ↦ false
  | some n ↦ true
]

pub network_matches_guarded_crypto : String → String → Bool
network_matches_guarded_crypto crypto network = elim (expected_sweep_network crypto) [
  | none ↦ true
  | some expected ↦ str_eq (normalize_sweep_network network) expected
]

-- `network or ""`, before it is normalized
abbrev or_empty : Option String → String
or_empty none = ""
or_empty (some s) = s

pub uses_case_insensitive_address : String → Bool
uses_case_insensitive_address crypto =
    let network = normalize_sweep_network (or_empty (expected_sweep_network crypto)) in
    str_eq network "ETHEREUM" || str_eq network "BSC"

pub same_address : String → String → String → Bool
same_address crypto left right =
    if uses_case_insensitive_address crypto
    then str_eq (lower left) (lower right)
    else str_eq left right

pub addresses_match : String → Option String → Option String → Bool
addresses_match crypto (some left) (some right) = same_address crypto left right
addresses_match crypto _ _ = false

-- `AmlCheck`
pub record Check : Type 0 where
  pub deposit_id : String
  pub status : String
  pub sweep_guard_required : Bool
  pub network : Option String

-- `Transaction` with its invoice's address, the `InvoiceAddress` rows of the invoice in the
-- transaction's crypto, and its check
pub record Deposit : Type 0 where
  pub id : ℕ
  pub crypto : String
  pub txid : String
  pub addr : Option String
  pub invoice_addr : Option String
  pub invoice_addresses : List (Option String)
  pub need_more_confirmations : Bool
  pub callback_confirmed : Bool
  pub aml_check : Option Check

-- `AmlSweepResolution`
pub record Resolution : Type 0 where
  pub transaction_id : ℕ
  pub deposit_id : String
  pub resolution_type : String

-- a deposit whose check is guarded, with that check
abbrev pub Guarded : Type 0
Guarded = Deposit × Check

pub data Verdict : Type 0 where
  allow wait block : Verdict

-- the answer: its decision, its reason and the transactions that it names
pub record Decision : Type 0 where
  pub decision : Verdict
  pub reason : String
  pub transaction_ids : List ℕ

pub decide : Verdict → String → List Guarded → Decision
decide v reason checks = record {
  decision = v;
  reason = reason;
  transaction_ids = map (λ (c : Guarded). c.0.id) checks;
}

-- `_decision_for_transactions`
decide_for : Verdict → String → List Deposit → Decision
decide_for v reason ds = record {
  decision = v;
  reason = reason;
  transaction_ids = map (λ (d : Deposit). d.id) ds;
}

-- `_address_filter`: an address row of the invoice, or the invoice's own address if it has none
abbrev paid_to : String → Option String → Deposit → Bool
paid_to crypto address d = elim d.invoice_addresses [
  | [] ↦ addresses_match crypto d.invoice_addr address
  | a ∷ as' ↦ any (λ b. addresses_match crypto b address) (a ∷ as')
]

guarded_check : String → Option String → Deposit → Option Check → List Guarded
guarded_check crypto address d none = []
guarded_check crypto address d (some c) =
    if str_eq d.crypto (normalize_crypto crypto)
      && c.sweep_guard_required
      && paid_to crypto address d
    then (d, c) ∷ []
    else []

-- `_guarded_checks_for_address`
pub guarded_checks_for_address : String → Option String → List Deposit → List Guarded
guarded_checks_for_address crypto address [] = []
guarded_checks_for_address crypto address (d ∷ ds) =
    guarded_check crypto address d d.aml_check ++ guarded_checks_for_address crypto address ds

-- `_network_matches`
abbrev check_network : String → Option String → String
check_network crypto (some n) = if str_eq n "" then or_empty (expected_sweep_network crypto) else n
check_network crypto none = or_empty (expected_sweep_network crypto)

pub network_matches : String → String → Guarded → Bool
network_matches crypto network c =
    str_eq (normalize_sweep_network network)
      (normalize_sweep_network (check_network crypto c.1.network))

-- `_has_valid_manual_resolution`
abbrev resolves : Guarded → Resolution → Bool
resolves c r =
    r.transaction_id == c.0.id
    && str_eq r.deposit_id c.1.deposit_id
    && (str_eq r.resolution_type "approved" || str_eq r.resolution_type "refunded")

pub has_valid_manual_resolution : List Resolution → Guarded → Bool
has_valid_manual_resolution rs c = any (resolves c) rs

abbrev pub has_status : String → Guarded → Bool
has_status s c = str_eq c.1.status s

-- `status in {APPROVED, SKIPPED}`, or a review that was resolved
abbrev pub is_cleared : List Resolution → Guarded → Bool
is_cleared rs c =
    has_status "approved" c
    || has_status "skipped" c
    || has_status "manual_review" c && has_valid_manual_resolution rs c

-- a resolution of the type, for a check in manual review
resolved_as : String → List Resolution → List Guarded → Bool
resolved_as t rs checks =
    any
      (λ c.
        has_status "manual_review" c && any (λ r. resolves c r && str_eq r.resolution_type t) rs)
      checks

is_known : Guarded → Bool
is_known c =
    any (str_eq c.1.status)
      ("pending" ∷ "checking" ∷ "approved" ∷ "declined" ∷ "skipped" ∷ "manual_review" ∷ [])

-- the reason of an allowance
allowance : List Resolution → List Guarded → String
allowance rs checks =
    if resolved_as "refunded" rs checks
    then "manual_refund"
    else if resolved_as "approved" rs checks
    then "manual_approved"
    else if any (has_status "skipped") checks
    then "aml_skipped_small_amount"
    else "aml_approved"

-- the decision on the checks that were found
pub decide_checks : List Resolution → List Guarded → Decision
decide_checks rs checks =
    if any (λ (c : Guarded). c.0.need_more_confirmations) checks
    then decide wait "confirmations_pending" checks
    else if any (λ c. not (is_known c)) checks
    then decide wait "aml_missing" checks
    else if any (has_status "pending") checks
    then decide wait "aml_pending" checks
    else if any (has_status "checking") checks
    then decide wait "aml_checking" checks
    else if any (λ c. has_status "manual_review" c && not (has_valid_manual_resolution rs c)) checks
    then decide block "manual_review" checks
    else if any (has_status "declined") checks
    then decide block "aml_declined" checks
    else if any (λ (c : Guarded). not (c.0.callback_confirmed)) checks
    then decide wait "callback_pending" checks
    else if all (is_cleared rs) checks
    then decide allow (allowance rs checks) checks
    else decide wait "aml_missing" checks

-- `_transactions_for_txid`
pub transactions_for_txid : String → String → List Deposit → List Deposit
transactions_for_txid crypto txid ds =
    select (λ (d : Deposit). str_eq d.crypto (normalize_crypto crypto) && str_eq d.txid txid) ds

-- the checks on the transaction that was asked for; `none` where they let the decision go on
check_recorded : String → Option String → List Deposit → Option Decision
check_recorded crypto address [] = some (decide wait "transaction_not_found" [])
check_recorded crypto address (d ∷ []) =
    if not (addresses_match crypto d.addr address)
    then some (decide block "mismatch" [])
    else if d.need_more_confirmations
    then some (decide_for wait "confirmations_pending" (d ∷ []))
    else none
check_recorded crypto address (d ∷ e ∷ ds) = some (decide_for block "ambiguous_match" (d ∷ e ∷ ds))

abbrev is_skipped : Option Check → Bool
is_skipped none = false
is_skipped (some c) = str_eq c.status "skipped"

-- without a guarded check: `recorded` holds the one transaction where a txid was given
decide_unguarded : String → List Deposit → Decision
decide_unguarded crypto [] = decide allow "legacy_no_guarded_deposits" []
decide_unguarded crypto (d ∷ ds) =
    if not (is_sweep_guarded_crypto crypto)
    then decide allow "legacy_no_guarded_deposits" []
    else if is_skipped d.aml_check
    then decide_for allow "aml_skipped_small_amount" (d ∷ ds)
    else decide_for wait "aml_missing" (d ∷ ds)

decide_found : String → List Resolution → List Deposit → List Guarded → Decision
decide_found crypto rs recorded [] = decide_unguarded crypto recorded
decide_found crypto rs recorded (c ∷ checks) = decide_checks rs (c ∷ checks)

-- the guarded checks of the address in the network
pub relevant_checks : String → String → Option String → List Deposit → List Guarded
relevant_checks crypto network address ds =
    select (network_matches crypto network) (guarded_checks_for_address crypto address ds)

-- the transactions of the txid; none where no txid, or an empty one, was given
recorded_for : String → Option String → List Deposit → List Deposit
recorded_for crypto none ds = []
recorded_for crypto (some txid) ds =
    if str_eq txid "" then [] else transactions_for_txid crypto txid ds

refusal_for : String → Option String → Option String → List Deposit → Option Decision
refusal_for crypto address none ds = none
refusal_for crypto address (some txid) ds =
    if str_eq txid ""
    then none
    else check_recorded crypto address (transactions_for_txid crypto txid ds)

decide_after : Option Decision → Decision → Decision
decide_after (some refusal) rest = refusal
decide_after none rest = rest

-- `decide_sweep_eligibility`, on the tables of deposits and resolutions
pub decide_sweep_eligibility :
    String → String → Option String → Option String → List Deposit → List Resolution → Decision
decide_sweep_eligibility crypto network address txid ds rs =
    if is_sweep_guarded_crypto crypto && not (network_matches_guarded_crypto crypto network)
    then decide block "network_mismatch" (guarded_checks_for_address crypto address ds)
    else decide_after (refusal_for crypto address txid ds) (
        decide_found crypto rs (recorded_for crypto txid ds)
          (relevant_checks crypto network address ds))
