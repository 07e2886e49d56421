-- ===== src/Sweep/Resolve.antt =====
-- shkeeper/services/sweep_resolution.py: an operator's resolution of a deposit in manual review. The
-- tables are the checks with their transactions, and the resolutions; `stored` is the table of
-- resolutions into which the commit inserts, which another request may have changed since `table`
-- was read. Error texts are not modelled.
pub mod Recorded
pub mod Again
pub mod Race
pub mod Grounded
mod Tests
use shkeeper_io.Prelude.{
  ℕ, Bool, true, false, not, ◌&&◌, ◌||◌, String, Option, none, some, List, [], ◌∷◌, any, first,
  ◌==◌, str_eq, if◌then◌else◌,
}
use shkeeper_io.Prelude.Text.{strip, upper, lower}
use shkeeper_io.Prelude.Json.{Value, null, text, dict, Fields, end, field, get, is_null, truthy}
use shkeeper_io.Errors.{Result, ok, err, ◌>>=◌, ◌>>◌, raise, require}
use shkeeper_io.Context.{Context, Decimal, not_finite, finite_up, finite_down, str, hash_payload}
use shkeeper_io.Aml.Check.{AmlStatus, manual_review, DepositDecision, hold_for_review}
use shkeeper_io.Sweep.{normalize_sweep_network, expected_sweep_network, addresses_match}

-- what is read of a `Transaction`
pub record Transaction : Type 0 where
  pub id : ℕ
  pub txid : String
  pub crypto : String
  pub addr : String

-- what is read of an `AmlCheck`
pub record GuardedCheck : Type 0 where
  pub deposit_id : String
  pub sweep_guard_required : Bool
  pub status : AmlStatus
  pub deposit_decision : Option DepositDecision
  pub decision_reason : Value
  pub network : Option String
  pub transaction : Option Transaction

-- `AmlSweepResolution`
pub record SweepResolution : Type 0 where
  pub id : ℕ
  pub transaction_id : ℕ
  pub deposit_id : String
  pub txid : String
  pub crypto : String
  pub network : String
  pub address : String
  pub resolution_type : String
  pub reviewer : Option String
  pub reason : Option String
  pub external_review_id : Option String
  pub idempotency_key : String
  pub refund_txid : Option String
  pub refund_to_address : Option String
  pub refund_amount : Option Decimal
  pub refund_source_address : Option String
  pub refund_asset : Option String
  pub refund_network : Option String
  pub refund_notes : Option String
  pub request_digest : String

abbrev required_fields : List String
required_fields =
    "resolution_type" ∷ "deposit_id" ∷ "txid" ∷ "crypto" ∷ "network" ∷ "address" ∷ "reviewer"
    ∷ "reason" ∷ "external_review_id" ∷ "idempotency_key" ∷ []

abbrev refund_required_fields : List String
refund_required_fields = "refund_txid" ∷ "refund_to_address" ∷ "refund_amount" ∷ []

abbrev optional_fields : List String
optional_fields =
    "refund_txid" ∷ "refund_to_address" ∷ "refund_amount" ∷ "refund_source_address" ∷ "refund_asset"
    ∷ "refund_network" ∷ "refund_notes" ∷ []

-- `sorted(ALLOWED_FIELDS)`
abbrev allowed_fields : List String
allowed_fields =
    "address" ∷ "crypto" ∷ "deposit_id" ∷ "external_review_id" ∷ "idempotency_key" ∷ "network"
    ∷ "reason" ∷ "refund_amount" ∷ "refund_asset" ∷ "refund_network" ∷ "refund_notes"
    ∷ "refund_source_address" ∷ "refund_to_address" ∷ "refund_txid" ∷ "resolution_type" ∷ "reviewer"
    ∷ "txid" ∷ []

abbrev terminal_manual_review_reasons : List String
terminal_manual_review_reasons =
    "risk_score_above_threshold" ∷ "aml_provider_error" ∷ "aml_pending_timeout"
    ∷ "incomplete_aml_result" ∷ "risk_profile_alert" ∷ "too_many_indirects" ∷ []

has_unknown : Fields → Bool
has_unknown end = false
has_unknown (field k v fs) = not (any (str_eq k) allowed_fields) || has_unknown fs

pub is_terminal_reason : Value → Bool
is_terminal_reason (text s) = any (str_eq s) terminal_manual_review_reasons
is_terminal_reason _ = false

abbrev is_manual_review : AmlStatus → Bool
is_manual_review manual_review = true
is_manual_review _ = false

abbrev holds : Option DepositDecision → Bool
holds (some hold_for_review) = true
holds _ = false

-- `amount.is_finite() and amount > 0`
is_positive : Decimal → Bool
is_positive not_finite = false
is_positive (finite_up negative coefficient power) = not negative && not (coefficient == 0)
is_positive (finite_down negative coefficient power) = not negative && not (coefficient == 0)

-- `check.network or expected_sweep_network(crypto)`, and `None` as the empty text
abbrev network_of : Option String → Option String → String
network_of (some n) expected = if str_eq n "" then elim expected [ some e ↦ e | none ↦ "" ] else n
network_of none expected = elim expected [ some e ↦ e | none ↦ "" ]

module _ ⦃ctx : Context⦄ where
  -- `_is_blank`
  is_blank : Value → Bool
  is_blank null = true
  is_blank v = str_eq (strip (str v)) ""

  -- `_text`
  text_of : Value → Option String
  text_of null = none
  text_of v = some (strip (str v))

  -- `str(value or "")`
  abbrev str_or_empty : Value → String
  str_or_empty v = if truthy v then str v else ""

  -- `_normalize_crypto`
  abbrev normalize_crypto : Value → String
  normalize_crypto v = upper (strip (str_or_empty v))

  -- the text of a field that is required, and so is there
  abbrev required_text : String → Fields → String
  required_text k payload = elim (text_of (get k payload)) [ some s ↦ s | none ↦ "" ]

  -- `_parse_refund_amount`
  parse_refund_amount : Value → Result Decimal
  parse_refund_amount v = elim (ctx.decimal (strip (str v))) [
    | none ↦ raise "invalid_refund_amount" 400
    | some amount ↦ if is_positive amount then ok amount else raise "invalid_refund_amount" 400
  ]

  validate_refund : Fields → Result (Option Decimal)
  validate_refund payload = do
    require (not (any (λ k. is_blank (get k payload)) refund_required_fields))
        "missing_refund_evidence" 400
    amount ← parse_refund_amount (get "refund_amount" payload)
    ok (some amount)

  validate_no_refund : Fields → Result (Option Decimal)
  validate_no_refund payload = do
    require (not (any (λ k. not (is_blank (get k payload))) optional_fields))
        "unexpected_refund_evidence" 400
    ok none

  -- `_validate_basic_payload`: the type, with the refund amount where it is a refund
  validate_basic_payload : Fields → Result (String × Option Decimal)
  validate_basic_payload payload = do
    require (not (has_unknown payload)) "unsupported_fields" 400
    require (not (any (λ k. is_blank (get k payload)) required_fields)) "missing_required_fields"
        400
    let resolution_type = lower (required_text "resolution_type" payload)
    require (str_eq resolution_type "approved" || str_eq resolution_type "refunded")
        "invalid_resolution_type" 400
    amount ←
        (if str_eq resolution_type "refunded"
          then validate_refund payload
          else validate_no_refund payload)
    ok (resolution_type, amount)

  -- the value of one field of `_canonical_payload`
  canonical_value : String → String → Value → Value
  canonical_value resolution_type k v =
      let s = strip (str v) in
      if str_eq k "resolution_type"
      then text resolution_type
      else if str_eq k "crypto"
      then text (upper (strip s))
      else if str_eq k "network"
      then text (normalize_sweep_network s)
      else text s

  -- `_canonical_payload`, over the sorted fields
  canonical_fields : String → Fields → List String → Fields
  unfolding is_blank canonical_value
  canonical_fields resolution_type payload [] = end
  canonical_fields resolution_type payload (k ∷ ks) =
      let rest = canonical_fields resolution_type payload ks in
      if str_eq k "idempotency_key" || is_blank (get k payload)
      then rest
      else field k (canonical_value resolution_type k (get k payload)) rest

  -- `_request_digest` of the canonical payload
  pub request_digest : String → Fields → String
  unfolding canonical_fields hash_payload
  request_digest resolution_type payload =
      hash_payload (dict (canonical_fields resolution_type payload allowed_fields))

  -- `_network_matches`
  network_matches : Fields → GuardedCheck → Transaction → Bool
  network_matches payload check tx =
      str_eq (normalize_sweep_network (str_or_empty (get "network" payload)))
        (normalize_sweep_network (network_of check.network (expected_sweep_network tx.crypto)))

  -- there is no mismatch of the request and the deposit
  pub matches : Fields → GuardedCheck → Transaction → Bool
  unfolding network_matches text_of
  matches payload check tx =
      str_eq tx.txid (required_text "txid" payload)
      && str_eq (upper (strip tx.crypto)) (normalize_crypto (get "crypto" payload))
      && addresses_match tx.crypto (some tx.addr) (text_of (get "address" payload))
      && network_matches payload check tx

  abbrev found_check : Option GuardedCheck → Result GuardedCheck
  found_check none = raise "deposit_not_found" 404
  found_check (some check) = ok check

  abbrev found_transaction : Option Transaction → Result Transaction
  found_transaction none = raise "transaction_missing" 409
  found_transaction (some tx) = ok tx

  -- `_validate_deposit` without its look-up of a resolution
  pub validate_deposit : List GuardedCheck → Fields → Result (GuardedCheck × Transaction)
  validate_deposit checks payload = do
    check ← found_check (
        first (λ (c : GuardedCheck). str_eq c.deposit_id (required_text "deposit_id" payload))
          checks)
    require check.sweep_guard_required "not_guarded" 409
    require (is_manual_review check.status) "not_manual_review" 409
    require (holds check.deposit_decision && is_terminal_reason check.decision_reason)
        "not_terminal_manual_review" 409
    tx ← found_transaction check.transaction
    require (matches payload check tx) "mismatch" 409
    ok (check, tx)

  -- the row that is inserted
  pub new_resolution :
      ℕ → Fields → String → Option Decimal → GuardedCheck → Transaction → SweepResolution
  unfolding text_of request_digest is_blank
  new_resolution id payload resolution_type amount check tx = record {
    id = id;
    transaction_id = tx.id;
    deposit_id = check.deposit_id;
    txid = tx.txid;
    crypto = upper (strip tx.crypto);
    network = normalize_sweep_network (str_or_empty (get "network" payload));
    address = tx.addr;
    resolution_type = resolution_type;
    reviewer = text_of (get "reviewer" payload);
    reason = text_of (get "reason" payload);
    external_review_id = text_of (get "external_review_id" payload);
    idempotency_key = required_text "idempotency_key" payload;
    refund_txid = text_of (get "refund_txid" payload);
    refund_to_address = text_of (get "refund_to_address" payload);
    refund_amount = amount;
    refund_source_address = text_of (get "refund_source_address" payload);
    refund_asset = text_of (get "refund_asset" payload);
    refund_network =
        if is_blank (get "refund_network" payload)
        then none
        else some (normalize_sweep_network (str_or_empty (get "refund_network" payload)));
    refund_notes = text_of (get "refund_notes" payload);
    request_digest = request_digest resolution_type payload;
  }

  -- what a call answers: a resolution, and whether it was there already
  abbrev pub Answer : Type 0
  Answer = Result (SweepResolution × Bool) × List SweepResolution

  abbrev pub by_key : String → List SweepResolution → Option SweepResolution
  by_key key table = first (λ (r : SweepResolution). str_eq r.idempotency_key key) table

  -- a resolution that is there, by the digest of its request
  pub repeated : String → String → SweepResolution → Result (SweepResolution × Bool)
  repeated conflict digest r =
      if str_eq r.request_digest digest then ok (r, true) else raise conflict 409

  -- one of the three unique constraints
  pub clashes : SweepResolution → SweepResolution → Bool
  clashes row r =
      str_eq r.deposit_id row.deposit_id
      || str_eq r.idempotency_key row.idempotency_key
      || r.transaction_id == row.transaction_id

  pub after_clash : String → Option SweepResolution → Result (SweepResolution × Bool)
  unfolding repeated
  after_clash digest none = raise "resolution_conflict" 409
  after_clash digest (some r) = repeated "idempotency_conflict" digest r

  -- the commit, and what follows an `IntegrityError`
  pub insert : SweepResolution → List SweepResolution → Answer
  insert row stored =
      if any (clashes row) stored
      then (after_clash row.request_digest (by_key row.idempotency_key stored), stored)
      else (ok (row, false), row ∷ stored)

  -- a resolution of the deposit or of its transaction
  abbrev existing_resolution :
      GuardedCheck → Transaction → List SweepResolution → Option SweepResolution
  existing_resolution check tx table =
      first
        (λ (r : SweepResolution). r.transaction_id == tx.id || str_eq r.deposit_id check.deposit_id)
        table

  -- the row, unless the deposit has one
  settle : SweepResolution → Option SweepResolution → List SweepResolution → Answer
  settle row none stored = insert row stored
  settle row (some r) stored = (repeated "already_resolved" row.request_digest r, stored)

  resolve_new :
      ℕ
      → List SweepResolution
      → List SweepResolution
      → Fields
      → String
      → Option Decimal
      → Result (GuardedCheck × Transaction)
      → Answer
  resolve_new id table stored payload resolution_type amount (err e) = (err e, stored)
  resolve_new id table stored payload resolution_type amount (ok (check, tx)) =
      settle (new_resolution id payload resolution_type amount check tx)
        (existing_resolution check tx table) stored

  resolve_by_key :
      ℕ
      → List GuardedCheck
      → List SweepResolution
      → List SweepResolution
      → Fields
      → String
      → Option Decimal
      → Option SweepResolution
      → Answer
  resolve_by_key id checks table stored payload resolution_type amount none =
      resolve_new id table stored payload resolution_type amount (validate_deposit checks payload)
  resolve_by_key id checks table stored payload resolution_type amount (some r) =
      (repeated "idempotency_conflict" (request_digest resolution_type payload) r, stored)

  resolve_valid :
      ℕ
      → List GuardedCheck
      → List SweepResolution
      → List SweepResolution
      → Fields
      → Result (String × Option Decimal)
      → Answer
  resolve_valid id checks table stored payload (err e) = (err e, stored)
  resolve_valid id checks table stored payload (ok (resolution_type, amount)) =
      resolve_by_key id checks table stored payload resolution_type amount
        (by_key (required_text "idempotency_key" payload) table)

  -- `record_sweep_resolution`; `id` is the key of a new row
  pub record_sweep_resolution :
      ℕ → List GuardedCheck → List SweepResolution → List SweepResolution → Value → Answer
  record_sweep_resolution id checks table stored (dict payload) =
      resolve_valid id checks table stored payload (validate_basic_payload payload)
  record_sweep_resolution id checks table stored v = (raise "invalid_request" 400, stored)
