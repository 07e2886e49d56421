-- ===== src/Legacy/Service/Multiple.antt =====
-- `multiple_payout` of shkeeper/services/payout_service.py: one request to the driver for a list of
-- payouts, which are recorded one by one after it.
use shkeeper_io.Prelude.{
  ℕ, suc, not, String, Option, none, some, List, [], ◌∷◌, is_some, if◌then◌else◌,
}
use shkeeper_io.Prelude.Json.{Value, null, list, dict, Items, nil, cons, field, get, truthy}
use shkeeper_io.Errors.{Result, ok, err, ◌>>=◌, ◌>>◌, raise, require}
use shkeeper_io.Context.{Context}
use shkeeper_io.Payout.Rail.{Rail, assert_legacy_spend_allowed}
use shkeeper_io.Legacy.{Payout}
use shkeeper_io.Legacy.Service.{
  Reply, returned, raised, Spender, Outcome, refused, asked_for, extract_task_id,
  normalize_external_id, validate_callback_url, get_destination, decimal_of, new_payout, is_taken,
}

module _ ⦃ctx : Context⦄ where
  -- one request of `validate_multipayout_before_enqueue`; an item that is no object raises
  validate_item : String → List Payout → Value → Result (Unit {0})
  unfolding validate_callback_url normalize_external_id
  validate_item crypto table (dict req) = do
    validate_callback_url (get "callback_url" req)
    let external_id = normalize_external_id (get "external_id" req)
    require (not (is_taken crypto external_id table)) "PAYOUT_EXTERNAL_ID_CONFLICT" 409
    require (not (is_some external_id)) "MULTIPAYOUT_EXTERNAL_ID_UNSUPPORTED" 400
  validate_item crypto table v = raise "AttributeError" 500

  -- `validate_multipayout_before_enqueue`
  validate_multipayout_before_enqueue : String → List Payout → Items → Result (Unit {0})
  unfolding validate_item
  validate_multipayout_before_enqueue crypto table nil = ok tt
  validate_multipayout_before_enqueue crypto table (cons v vs) =
      validate_item crypto table v >> validate_multipayout_before_enqueue crypto table vs

  -- the row of `create_payout_record`, where its destination and amount can be read
  record_item : ℕ → ℕ → String → Value → Value → Result Payout
  unfolding validate_callback_url get_destination decimal_of new_payout
  record_item id now crypto task_id (dict req) = do
    validate_callback_url (get "callback_url" req)
    destination ← get_destination req
    amount ← elim (decimal_of (get "amount" req)) [
      | none ↦ raise "InvalidOperation" 500
      | some a ↦ ok a
    ]
    ok (
        new_payout id now crypto req (destination, amount, null)
          (normalize_external_id (get "external_id" req)) task_id [])
  record_item id now crypto task_id v = raise "AttributeError" 500

  abbrev record_next : (List Payout → Outcome) → List Payout → Result Payout → Outcome
  record_next next stored (err e) = asked_for (err e) stored
  record_next next stored (ok p) = next (p ∷ stored)

  -- the rows, one commit each; `id` is the key of the first one
  record_items : ℕ → ℕ → String → Value → Value → List Payout → Items → Outcome
  unfolding record_item
  record_items id now crypto task_id res stored nil = asked_for (ok res) stored
  record_items id now crypto task_id res stored (cons v vs) =
      record_next (λ rows. record_items (suc id) now crypto task_id res rows vs) stored
        (record_item id now crypto task_id v)

  -- `res["external_ids"] = []`
  abbrev with_external_ids : Value → Value
  with_external_ids (dict fs) = dict (field "external_ids" (list nil) fs)
  with_external_ids v = v

  after_multipayout : ℕ → ℕ → String → List Payout → Items → Reply → Outcome
  unfolding record_items
  after_multipayout id now crypto stored items (raised message) =
      asked_for (raise "Exception" 500) stored
  after_multipayout id now crypto stored items (returned res) =
      if truthy (extract_task_id res)
      then record_items id now crypto (extract_task_id res) (with_external_ids res) stored items
      else asked_for (raise "PAYOUT_REQUEST_ERROR" 400) stored

  enqueue : ℕ → ℕ → (Value → Reply) → String → List Payout → Items → Result (Unit {0}) → Outcome
  unfolding after_multipayout
  enqueue id now multipayout crypto stored items (err e) = refused stored e
  enqueue id now multipayout crypto stored items (ok u) =
      after_multipayout id now crypto stored items (multipayout (list items))

  -- `multiple_payout` of a coin with the driver's `multipayout`; `get_crypto` raises without one
  pub multiple_payout :
      ℕ → ℕ → Option (Value → Reply) → Spender → List Rail → String → Value → List Payout → Outcome
  unfolding enqueue validate_multipayout_before_enqueue
  multiple_payout id now (some multipayout) spender rails crypto (list items) stored =
      enqueue id now multipayout crypto stored items (
        assert_legacy_spend_allowed crypto none spender.spend_origin spender.operator_id
          spender.audit_reason rails
        >> validate_multipayout_before_enqueue crypto stored items)
  multiple_payout id now none spender rails crypto (list items) stored =
      refused stored (record { code = "UNKNOWN_CRYPTO"; status_code = 404 })
  multiple_payout id now multipayout spender rails crypto v stored =
      refused stored (record { code = "INVALID_PAYOUT_LIST"; status_code = 400 })
