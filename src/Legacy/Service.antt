-- ===== src/Legacy/Service.antt =====
-- shkeeper/services/payout_service.py: single payouts. The coin's driver is a parameter. `table` is
-- the table of payouts in which the request is looked for, and `stored` the one into which it is
-- inserted, so that another request may come between. An outcome says whether the driver was asked
-- to pay.
pub mod Once
pub mod Turns
pub mod Multiple
mod Tests
use Prim.Native.String.{◌++◌ as append}
use shkeeper_io.Prelude.{
  ℕ, ◌==◌, Bool, true, false, not, ◌&&◌, ◌||◌, String, Option, none, some, List, [], ◌∷◌, ◌++◌, any,
  str_eq, if◌then◌else◌,
}
use shkeeper_io.Prelude.Text.{strip}
use shkeeper_io.Prelude.Numerals.{show}
use shkeeper_io.Prelude.Json.{
  Value, null, bool, num, float, text, list, dict, Items, nil, cons, Fields, end, field, get, has,
  truthy, or_value, value_eq,
}
use shkeeper_io.Errors.{Error, Result, ok, err, ◌>>=◌, ◌>>◌, raise, require, request_error}
use shkeeper_io.Context.{Context, Decimal, not_finite, finite_up, finite_down, str}
use shkeeper_io.Payout.Rail.{Rail, assert_legacy_spend_allowed}
use shkeeper_io.Legacy.{Payout, PayoutStatus, in_progress, fail}

-- what `mkpayout` returned, or the text of what it raised
pub data Reply : Type 0 where
  returned : Value → Reply
  raised : String → Reply

-- a coin's driver: whether its fee may be omitted, its check of a payout if it has one, and the call
-- that pays
pub record Driver : Type 0 where
  pub can_omit_fee_for_payout : Bool
  pub preflight_payout : Option (String → Decimal → Result (Unit {0}))
  pub mkpayout : String → Decimal → Value → Reply

-- who asks, as `legacy_spend_guard_context` takes it
pub record Spender : Type 0 where
  pub spend_origin : String
  pub operator_id : Option String
  pub audit_reason : Option String

-- the answer, the table after it, and whether `mkpayout` was called
pub record Outcome : Type 0 where
  pub answer : Result Value
  pub payouts : List Payout
  pub asked : Bool

-- a request that raises before anything is stored or sent
abbrev pub refused : List Payout → Error → Outcome
refused stored e = record { answer = err e; payouts = stored; asked = false }

-- the keys of a dict, and the items of a list
keys : Fields → List Value
keys end = []
keys (field k v fs) = text k ∷ keys fs

entries : Items → List Value
entries nil = []
entries (cons v vs) = v ∷ entries vs

-- `[txids] if isinstance(txids, str) else list(txids)`
listed : Value → Result (List Value)
unfolding keys entries
listed (text s) = ok (text s ∷ [])
listed (list vs) = ok (entries vs)
listed (dict fs) = ok (keys fs)
listed v = raise "TypeError" 500

-- `extract_direct_txids`
pub extract_direct_txids : Value → Result (List Value)
unfolding listed
extract_direct_txids (dict fs) =
    let txids = or_value (get "txids" fs) (or_value (get "txid" fs) (get "result" fs)) in
    if truthy txids then listed txids else ok []
extract_direct_txids v = ok []

-- `extract_task_id`
abbrev pub extract_task_id : Value → Value
extract_task_id (dict fs) = get "task_id" fs
extract_task_id v = null

-- `is_direct_payout_response`
abbrev pub is_direct_payout_response : Value → Bool
is_direct_payout_response (dict fs) =
    has "result" fs || has "txid" fs || has "txids" fs || has "error" fs
is_direct_payout_response v = false

-- `res.get("error")` of a dict
abbrev error_of : Value → Value
error_of (dict fs) = get "error" fs
error_of v = null

abbrev is_empty : List Value → Bool
is_empty [] = true
is_empty (v ∷ vs) = false

-- `validate_positive_amount`
validate_positive_amount : Decimal → Result (Unit {0})
validate_positive_amount not_finite = request_error "INVALID_AMOUNT"
validate_positive_amount (finite_up negative coefficient power) =
    require (not negative && not (coefficient == 0)) "INVALID_AMOUNT" 400
validate_positive_amount (finite_down negative coefficient power) =
    require (not negative && not (coefficient == 0)) "INVALID_AMOUNT" 400

-- `get_request_fee`
get_request_fee : Driver → Fields → Result Value
get_request_fee driver req =
    if has "fee" req
    then ok (get "fee" req)
    else if driver.can_omit_fee_for_payout
    then ok (text "0")
    else request_error "FEE_REQUIRED"

-- the unique index on the coin and the external id; a NULL is equal to nothing
abbrev pub same_external_id : String → String → Payout → Bool
same_external_id crypto external_id p =
    str_eq p.crypto crypto && elim p.external_id [ none ↦ false | some e ↦ str_eq e external_id ]

-- `add_payout_txids`: the transactions that the payout does not have yet
add_payout_txids : List Value → List Value → List Value
add_payout_txids known [] = known
add_payout_txids known (txid ∷ txids) =
    let more = add_payout_txids known txids in
    if any (value_eq txid) known then more else more ++ txid ∷ []

module _ ⦃ctx : Context⦄ where
  -- `normalize_external_id`
  pub normalize_external_id : Value → Option String
  normalize_external_id null = none
  normalize_external_id v = let s = strip (str v) in if str_eq s "" then none else some s

  -- `validate_callback_url`
  validate_callback_url : Value → Result (Unit {0})
  validate_callback_url v =
      let parsed = ctx.urlsplit (str v) in
      require
        (not (truthy v)
          || not (str_eq parsed.scheme "")
            && not (str_eq parsed.netloc "")
            && (str_eq parsed.scheme "http" || str_eq parsed.scheme "https"))
        "INVALID_CALLBACK_URL" 400

  -- `get_destination`, as the text that its column holds
  get_destination : Fields → Result String
  get_destination req = do
    let destination = or_value (get "destination" req) (get "dest" req)
    require (truthy destination) "INVALID_DESTINATION" 400
    ok (str destination)

  -- `Decimal(v)`; a float is read by its `repr`
  decimal_of : Value → Option Decimal
  decimal_of (text s) = ctx.decimal s
  decimal_of (num n) = ctx.decimal (show n)
  decimal_of (float s) = ctx.decimal s
  decimal_of (bool true) = ctx.decimal "1"
  decimal_of (bool false) = ctx.decimal "0"
  decimal_of v = none

  -- `parse_amount`; a missing key raises as well
  parse_amount : Fields → Result Decimal
  parse_amount req = elim (decimal_of (get "amount" req)) [
    | none ↦ request_error "INVALID_AMOUNT"
    | some amount ↦ ok amount
  ]

  -- `preflight_payout`
  preflight_payout : Driver → Fields → Decimal → Result (Unit {0})
  preflight_payout driver req amount = elim driver.preflight_payout [
    | none ↦ ok tt
    | some preflight ↦ get_destination req >>= λ destination. preflight destination amount
  ]

  -- what is paid: the destination, the amount and the fee
  abbrev Order : Type 0
  Order = String × Decimal × Value

  -- the checks before anything is stored or sent, after that of the external id
  check_payout : Driver → Fields → Result Order
  check_payout driver req = do
    validate_callback_url (get "callback_url" req)
    amount ← parse_amount req
    validate_positive_amount amount
    preflight_payout driver req amount
    fee ← get_request_fee driver req
    destination ← get_destination req
    ok (destination, amount, fee)

  -- the row of `create_payout_record` and `Payout.add`
  new_payout : ℕ → ℕ → String → Fields → Order → Option String → Value → List Value → Payout
  new_payout id now crypto req (destination, amount, fee) external_id task_id txids = record {
    id = id;
    created_at = now;
    amount = amount;
    crypto = crypto;
    dest_addr = destination;
    success = none;
    error = none;
    callback_url = get "callback_url" req;
    task_id = task_id;
    external_id = external_id;
    status = in_progress;
    transactions = txids;
  }

  -- `mark_payout_failed`
  pub mark_payout_failed : Value → Payout → Payout
  mark_payout_failed message p = record p {
    status = fail;
    success = some "No";
    error = some (str message);
  }

  unknown_enqueue : String → Payout → Payout
  unknown_enqueue message p = record p {
    error = some (append "Sidecar enqueue result is unknown: " message);
  }

  -- `res["external_id"] = external_id`
  abbrev with_external_id : String → Value → Value
  with_external_id external_id (dict fs) = dict (field "external_id" (text external_id) fs)
  with_external_id external_id v = v

  abbrev asked_for : Result Value → List Payout → Outcome
  asked_for answer payouts = record { answer = answer; payouts = payouts; asked = true }

  -- the row of a payout without external id, once the driver answered
  direct_row : Payout → Value → List Value → Payout
  direct_row p res txids =
      if not (truthy (extract_task_id res)) && truthy (error_of res) && is_empty txids
      then mark_payout_failed (error_of res) p
      else p

  direct_answer : (List Value → Payout) → List Payout → Value → Result (List Value) → Outcome
  direct_answer row stored res (err e) = asked_for (err e) stored
  direct_answer row stored res (ok txids) =
      if not (truthy (extract_task_id res)) && not (is_direct_payout_response res)
      then asked_for (raise "PAYOUT_REQUEST_ERROR" 400) stored
      else asked_for (ok res) (direct_row (row txids) res txids ∷ stored)

  -- `single_payout` without an external id, from `mkpayout` on
  after_direct : (Value → List Value → Payout) → List Payout → Reply → Outcome
  after_direct row stored (raised message) = asked_for (raise "Exception" 500) stored
  after_direct row stored (returned res) =
      direct_answer (row (extract_task_id res)) stored res (extract_direct_txids res)

  -- the reserved row once the driver answered with transactions or an error
  settled_row : Payout → Value → List Value → Payout
  settled_row p res txids =
      let q = record p { transactions = add_payout_txids p.transactions txids } in
      if truthy (error_of res) && is_empty txids
      then mark_payout_failed (error_of res) q
      else record q { error = none }

  settle_reserved : String → Payout → List Payout → Value → Result (List Value) → Outcome
  settle_reserved external_id p stored res (err e) = asked_for (err e) (p ∷ stored)
  settle_reserved external_id p stored res (ok txids) =
      asked_for (ok (with_external_id external_id res)) (settled_row p res txids ∷ stored)

  -- `_single_payout_with_reserved_external_id`, from `mkpayout` on: `p` is the reserved row
  after_reserved : String → Payout → List Payout → Reply → Outcome
  after_reserved external_id p stored (raised message) =
      asked_for (raise "Exception" 500) (unknown_enqueue message p ∷ stored)
  after_reserved external_id p stored (returned res) =
      if truthy (extract_task_id res)
      then asked_for (ok (with_external_id external_id res))
          (record p { task_id = extract_task_id res; error = none } ∷ stored)
      else if is_direct_payout_response res
      then settle_reserved external_id p stored res (extract_direct_txids res)
      else asked_for (raise "PAYOUT_REQUEST_ERROR" 400) (mark_payout_failed res p ∷ stored)

  -- `_single_payout_with_reserved_external_id`: the row is committed before the driver is asked
  reserve : Driver → String → Payout → Order → List Payout → Outcome
  reserve driver external_id p (destination, amount, fee) stored =
      if any (same_external_id p.crypto external_id) stored
      then refused stored (record { code = "PAYOUT_EXTERNAL_ID_CONFLICT"; status_code = 409 })
      else after_reserved external_id (record p { error = some "Payout enqueue pending" }) stored
          (driver.mkpayout destination amount fee)

  pay : ℕ → ℕ → Driver → String → Fields → Option String → List Payout → Result Order → Outcome
  pay id now driver crypto req external_id stored (err e) = refused stored e
  pay id now driver crypto req none stored (ok (destination, amount, fee)) =
      after_direct (new_payout id now crypto req (destination, amount, fee) none) stored
        (driver.mkpayout destination amount fee)
  pay id now driver crypto req (some external_id) stored (ok order) =
      reserve driver external_id (new_payout id now crypto req order (some external_id) null [])
        order stored

  -- the look-up of `check_external_id_unique`
  abbrev pub is_taken : String → Option String → List Payout → Bool
  is_taken crypto none table = false
  is_taken crypto (some external_id) table = any (same_external_id crypto external_id) table

  -- the spend guard, the external id and the checks of the request
  admit : Driver → Spender → List Rail → String → Fields → List Payout → Result Order
  admit driver spender rails crypto req table = do
    assert_legacy_spend_allowed crypto none spender.spend_origin spender.operator_id
        spender.audit_reason rails
    require (not (is_taken crypto (normalize_external_id (get "external_id" req)) table))
        "PAYOUT_EXTERNAL_ID_CONFLICT" 409
    check_payout driver req

  -- `single_payout` of a coin with a driver; `get_crypto` raises without one
  pub single_payout :
      ℕ
      → ℕ
      → Option Driver
      → Spender
      → List Rail
      → String
      → Fields
      → List Payout
      → List Payout
      → Outcome
  single_payout id now none spender rails crypto req table stored =
      refused stored (record { code = "UNKNOWN_CRYPTO"; status_code = 404 })
  single_payout id now (some driver) spender rails crypto req table stored =
      pay id now driver crypto req (normalize_external_id (get "external_id" req)) stored
        (admit driver spender rails crypto req table)
