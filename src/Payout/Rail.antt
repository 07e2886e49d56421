-- ===== src/Payout/Rail.antt =====
-- `PayoutRail` of shkeeper/models.py with shkeeper/services/payout_rail_catalog.py, and the rail scope
-- of a key, from shkeeper/services/payout_execution_auth.py.
mod Tests
use Prim.Native.String.{◌++◌ as append}
use shkeeper_io.Prelude.{
  ℕ, ◌≡◌, refl, Bool, true, false, not, ◌&&◌, ◌||◌, inl, inr, String, Option, none, some, List, [],
  ◌∷◌, arith, str_eq, first, is_some, if◌then◌else◌, Option-cases,
}
use shkeeper_io.Prelude.Text.{upper}
use shkeeper_io.Prelude.Json.{
  Value, null, bool, num, text, list, dict, Items, nil, cons, Fields, end, field, get, truthy,
  or_value, items,
}
use shkeeper_io.Errors.{Error, Result, ok, err, ◌>>=◌, ◌>>◌, raise, require}
use shkeeper_io.Context.{Context, str}

pub data HotWalletPolicy : Type 0 where
  current_sidecar_source_wallet current_sidecar_source_wallet_with_shared_guard : HotWalletPolicy

pub data LegacySpendPolicy : Type 0 where
  block_automatic_bypass route_automatic_through_payout_execution : LegacySpendPolicy

pub record Rail : Type 0 where
  pub consumer : String
  pub asset : String
  pub network : String
  pub crypto_id : String
  pub sidecar_service : String
  pub sidecar_symbol : String
  pub payout_queue : String
  pub source_wallet_ref : String
  pub hot_wallet_policy : HotWalletPolicy
  pub legacy_spend_policy : LegacySpendPolicy
  pub wallet_guard_key : Option String
  pub execution_enabled : Bool
  pub callback_endpoint_id : Option String
  pub contract_version : String

-- `not s`, of a column that may be NULL
abbrev pub is_blank : Option String → Bool
is_blank none = true
is_blank (some s) = str_eq s ""

-- `find_enabled_execution_rail`, `get_enabled_execution_rail`
abbrev serves : String → String → String → Rail → Bool
serves consumer asset network r =
    str_eq r.consumer consumer
    && str_eq r.asset asset
    && str_eq r.network network
    && r.execution_enabled

pub get_enabled_execution_rail : String → String → String → List Rail → Result Rail
get_enabled_execution_rail consumer asset network rails =
    elim (first (serves consumer asset network) rails) [
      | none ↦ raise "PAYOUT_RAIL_DISABLED" 400
      | some r ↦ ok r
    ]

-- `find_enabled_execution_rail_for_spend_source`
abbrev spends : String → Option String → Rail → Bool
spends crypto_id none r = str_eq r.crypto_id crypto_id && r.execution_enabled
spends crypto_id (some ref) r =
    str_eq r.crypto_id crypto_id && r.execution_enabled && str_eq r.source_wallet_ref ref

unfoldable pub find_rail_for_spend_source : String → Option String → List Rail → Option Rail
find_rail_for_spend_source crypto_id source_wallet_ref rails =
    first (spends crypto_id source_wallet_ref) rails

unfoldable pub assert_operator_audit_context : Option String → Option String → Result (Unit {0})
assert_operator_audit_context operator_id audit_reason =
    require (not (is_blank operator_id || is_blank audit_reason)) "OPERATOR_AUDIT_REQUIRED" 400

unfoldable pub acquire_or_verify_wallet_guard : Rail → Result (Unit {0})
acquire_or_verify_wallet_guard r = elim r.hot_wallet_policy [
  | current_sidecar_source_wallet ↦ ok tt
  | current_sidecar_source_wallet_with_shared_guard ↦
      if is_blank r.wallet_guard_key
      then raise "WALLET_GUARD_REQUIRED" 400
      else raise "WALLET_GUARD_UNAVAILABLE" 409
]

-- what `assert_legacy_spend_allowed` does with the rail that it found
unfoldable pub spend_on : String → Option String → Option String → Option Rail → Result (Unit {0})
spend_on spend_origin operator_id audit_reason none = ok tt
spend_on spend_origin operator_id audit_reason (some r) =
    if str_eq spend_origin "manual_admin"
    then assert_operator_audit_context operator_id audit_reason >> acquire_or_verify_wallet_guard r
    else elim r.legacy_spend_policy [
      | route_automatic_through_payout_execution ↦ raise "ROUTE_THROUGH_PAYOUT_EXECUTION" 409
      | block_automatic_bypass ↦ raise "AUTOMATIC_LEGACY_PAYOUT_BLOCKED" 409
    ]

unfoldable pub assert_legacy_spend_allowed :
    String → Option String → String → Option String → Option String → List Rail → Result (Unit {0})
assert_legacy_spend_allowed crypto_id source_wallet_ref spend_origin operator_id audit_reason
      rails =
    spend_on spend_origin operator_id audit_reason
      (find_rail_for_spend_source crypto_id source_wallet_ref rails)

-- A spend outside of payout execution that is let through has no enabled rail on its source, or
-- it is a manual one, by a named operator for a reason, on a rail that has no shared guard.
pub legacy_spend_guarded :
    (crypto_id : String) (source_wallet_ref : Option String) (spend_origin : String)
    (operator_id audit_reason : Option String) (rails : List Rail) (r : Rail)
    → assert_legacy_spend_allowed crypto_id source_wallet_ref spend_origin operator_id audit_reason
        rails
      ≡ ok tt
    → find_rail_for_spend_source crypto_id source_wallet_ref rails ≡ some r
    → (str_eq spend_origin "manual_admin" ≡ true)
      × (is_blank operator_id ≡ false)
      × (is_blank audit_reason ≡ false)
      × (r.hot_wallet_policy ≡ current_sidecar_source_wallet)
unfolding assert_legacy_spend_allowed spend_on assert_operator_audit_context
    acquire_or_verify_wallet_guard
legacy_spend_guarded crypto_id source_wallet_ref spend_origin operator_id audit_reason rails r h f =
    allowed (rw f at h)
  where
    allowed :
        spend_on spend_origin operator_id audit_reason (some r) ≡ ok tt
        → (str_eq spend_origin "manual_admin" ≡ true)
          × (is_blank operator_id ≡ false)
          × (is_blank audit_reason ≡ false)
          × (r.hot_wallet_policy ≡ current_sidecar_source_wallet)
    allowed g = ground arith

module _ ⦃ctx : Context⦄ where
  -- `_configured_keys` of payout_execution_auth.py
  unfoldable pub consumer_keys : Fields
  consumer_keys =
      if truthy ctx.payout_consumer_keys
      then elim ctx.payout_consumer_keys [ dict fs ↦ fs | _ ↦ end ]
      else elim ctx.payout_consumer_keys_json [
        | text s ↦ if str_eq s "" then end else ctx.loads s
        | _ ↦ end
      ]

  abbrev key_config_of : Value → String → Value
  key_config_of (text s) key_id = if str_eq key_id "default" then text s else null
  key_config_of (dict fs) key_id = get key_id fs
  key_config_of _ key_id = null

  unfoldable pub get_consumer_key_config : String → String → Value
  get_consumer_key_config consumer key_id = key_config_of (get consumer consumer_keys) key_id

  names_rail : String → Items → Bool
  names_rail rail nil = false
  names_rail rail (cons v vs) =
      let rest = names_rail rail vs in if str_eq (upper (str v)) rail then true else rest

  -- `is_consumer_key_allowed_for_rail`
  abbrev allows : Value → String → String → Bool
  allows (text s) asset network = true
  allows (dict config) asset network =
      names_rail (upper (append network (append "-" asset)))
        (items (or_value (get "rails" config) (get "allowed_rails" config)))
  allows _ asset network = false

  pub is_consumer_key_allowed_for_rail : String → String → String → String → Bool
  is_consumer_key_allowed_for_rail consumer key_id asset network =
      allows (get_consumer_key_config consumer key_id) asset network
