-- ===== src/Payout/Submit/Contract.antt =====
-- What a submission says and how it is hashed: the reading of a request in
-- shkeeper/services/payout_execution_service.py, and shkeeper/services/payout_contract.py.
use shkeeper_io.Prelude.{
  ℕ, ◌+◌, ◌-◌, ◌*◌, ◌^◌, Bool, true, not, ◌&&◌, ◌||◌, String, Option, none, some, [], ◌∷◌, leb, ltb,
  ◌==◌, str_eq, if◌then◌else◌, any,
}
use shkeeper_io.Prelude.Text.{strip, upper}
use shkeeper_io.Prelude.Json.{Value, null, text, dict, Fields, end, field, get, has}
use shkeeper_io.Errors.{Result, ok, ◌>>=◌, ◌>>◌, raise, require}
use shkeeper_io.Prelude.Numerals.{show}
use shkeeper_io.Context.{
  Context, Decimal, not_finite, finite_up, finite_down, str, format_amount, hash_payload,
}
use shkeeper_io.Payout.Row.{Execution}
use shkeeper_io.Payout.Address.{validate_payout_destination}
use shkeeper_io.Payout.Callback.{text_or_null}

-- what a request says, in the form in which it is hashed
pub record Request : Type 0 where
  pub external_id : String
  pub asset : String
  pub network : String
  pub destination : String
  pub amount : ℕ

-- the fields of `REQUEST_FIELDS`, and no others
only_request_fields : Fields → Bool
only_request_fields end = true
only_request_fields (field k v fs) =
    any (str_eq k) ("external_id" ∷ "asset" ∷ "network" ∷ "amount" ∷ "destination" ∷ [])
    && only_request_fields fs

unfoldable pub validate_payload_object : Value → Result Fields
unfolding only_request_fields
validate_payload_object (dict fs) = do
  require (only_request_fields fs) "INVALID_PAYOUT_REQUEST" 400
  ok fs
validate_payload_object v = raise "INVALID_PAYOUT_REQUEST" 400

-- an amount of so many millionths, in the 28 digits of the decimal context
in_precision : ℕ → Result ℕ
in_precision n = do require (ltb n (10 ^ 28)) "InvalidOperation" 500; ok n

-- `canonical_usdt_amount` of a parsed number
unfoldable pub usdt_amount : Option Decimal → Result ℕ
unfolding in_precision
usdt_amount none = raise "INVALID_AMOUNT" 400
usdt_amount (some not_finite) = raise "INVALID_AMOUNT" 400
usdt_amount (some (finite_up negative n p)) = do
  require (not (negative || n == 0)) "INVALID_AMOUNT" 400
  in_precision (n * 10 ^ (p + 6))
usdt_amount (some (finite_down negative n p)) = do
  require (not (negative || n == 0)) "INVALID_AMOUNT" 400
  require (leb p 6) "INVALID_AMOUNT_PRECISION" 400
  in_precision (n * 10 ^ (6 - p))

module _ ⦃ctx : Context⦄ where
  -- `normalize_external_id`, with "" for its `None`
  unfoldable pub normalize_external_id : Value → String
  normalize_external_id null = ""
  normalize_external_id v = strip (str v)

  -- `_request_identity`
  unfoldable pub request_identity : Fields → Result String
  request_identity fs = do
    let external_id = normalize_external_id (get "external_id" fs)
    require (not (str_eq external_id "")) "EXTERNAL_ID_REQUIRED" 400
    ok external_id

  -- `str(payload.get(k, "")).strip()`
  unfoldable pub stripped : String → Fields → String
  stripped k fs = if has k fs then strip (str (get k fs)) else ""

  unfoldable pub normalize_asset_network : Fields → Result (String × String)
  unfolding stripped
  normalize_asset_network fs = do
    let asset = upper (stripped "asset" fs)
    let network = upper (stripped "network" fs)
    require (str_eq asset "USDT") "UNSUPPORTED_ASSET" 400
    require (any (str_eq network) ("TRON" ∷ "TON" ∷ "ETH" ∷ [])) "UNSUPPORTED_NETWORK" 400
    ok (asset, network)

  unfoldable pub normalize_destination : Fields → String → Result String
  unfolding stripped
  normalize_destination fs network = do
    require (not (str_eq (stripped "destination" fs) "")) "INVALID_DESTINATION" 400
    validate_payout_destination network (stripped "destination" fs)

  unfoldable pub canonical_usdt_amount : Value → Result ℕ
  canonical_usdt_amount v = usdt_amount (ctx.decimal (str v))

  -- the part that `_canonicalize` and `_canonicalize_existing_request` share
  unfoldable pub read_request : Fields → Result Request
  read_request fs = do
    external_id ← request_identity fs
    (asset, network) ← normalize_asset_network fs
    destination ← normalize_destination fs network
    amount ← canonical_usdt_amount (get "amount" fs)
    ok (record {
      external_id = external_id;
      asset = asset;
      network = network;
      destination = destination;
      amount = amount;
    })

  -- `hash_payload(canonical_request_payload(...))`
  unfoldable pub request_hash : String → Request → Option String → String → String
  request_hash consumer q endpoint_id contract_version = hash_payload (
      dict (
        field "consumer" (text consumer) (
          field "external_id" (text q.external_id) (
            field "asset" (text q.asset) (
              field "network" (text q.network) (
                field "amount" (text (format_amount q.amount)) (
                  field "destination" (text q.destination) (
                    field "callback_endpoint_id" (text_or_null endpoint_id)
                      (field "contract_version" (text contract_version) end)))))))))

  -- `_sidecar_payload_hash`
  unfoldable pub sidecar_payload_hash : Execution → String
  sidecar_payload_hash e = hash_payload (
      dict (
        field "consumer" (text e.consumer) (
          field "execution_id" (text (show e.id)) (
            field "external_id" (text e.external_id) (
              field "asset" (text e.asset) (
                field "network" (text e.network) (
                  field "amount" (text (format_amount e.amount)) (
                    field "destination" (text e.destination)
                      (field "contract_version" (text e.contract_version) end)))))))))
