-- ===== src/Aml/Payload.antt =====
-- What a payment notification says of a deposit's check (shkeeper/callback.py).
use shkeeper_io.Prelude.{
  Bool, true, false, not, ◌&&◌, String, Option, none, some, List, [], ◌∷◌, any, str_eq, is_some,
  if◌then◌else◌,
}
use shkeeper_io.Prelude.Json.{
  Value, null, bool, text, dict, Fields, end, field, is_null, truthy, or_value,
}
use shkeeper_io.Aml.Coverage.{get_coverage_policy, is_supported}
use shkeeper_io.Aml.Check.{Library, AmlCheck, hold_for_review}
use shkeeper_io.Aml.Policy.{optional, is_text}

abbrev is_one_of : List String → Value → Bool
is_one_of words v = any (λ w. is_text w v) words

abbrev is_skip_reason : Option String → Bool
is_skip_reason none = false
is_skip_reason (some s) = not (str_eq s "")

abbrev is_small : Option String → Bool
is_small none = false
is_small (some s) = str_eq s "amount_below_threshold"

-- `policy[k] = v`, where there is a value
abbrev with_optional : String → Option Value → Fields → Fields
with_optional k none fs = fs
with_optional k (some v) fs = field k v fs

abbrev shown : {A : Type 0} → (A → Value) → Option A → Option Value
shown f none = none
shown f (some a) = some (f a)

-- the message of an asset that no provider checks
abbrev unsupported_message : Value
unsupported_message = text "AML provider does not support this asset"

module _ ⦃lib : Library⦄ where
  abbrev Check : Type 0
  Check = AmlCheck lib.Number

  -- `_aml_checked`
  pub aml_checked : Check → Bool
  aml_checked c = is_text "success" c.provider_status && is_some c.score && is_null c.error_code

  -- `_aml_check_status`
  pub aml_check_status : Check → Value
  unfolding aml_checked
  aml_check_status c =
      if is_skip_reason c.skip_reason
      then text "skipped"
      else if aml_checked c
      then text "success"
      else if is_text "unsupported_asset" c.decision_reason
      then text "unsupported"
      else if is_text "aml_pending_timeout" c.decision_reason
      then text "timeout"
      else if is_text "aml_provider_error" c.decision_reason
      then text "error"
      else if is_text "incomplete_aml_result" c.decision_reason
      then text "incomplete"
      else if is_one_of ("timeout" ∷ "error" ∷ []) c.provider_status
      then c.provider_status
      else if is_one_of ("missing_risk_score" ∷ "incomplete_aml_result" ∷ []) c.error_code
      then text "incomplete"
      else if is_one_of ("pending" ∷ "checking" ∷ []) c.provider_status
      then c.provider_status
      else text "incomplete"

  -- `_aml_reason_code`
  pub aml_reason_code : Check → Value
  unfolding aml_checked
  aml_reason_code c =
      if is_small c.skip_reason
      then text "amount_below_shkeeper_threshold"
      else if is_one_of
          ("unsupported_asset" ∷ "aml_pending_timeout" ∷ "aml_provider_error"
            ∷ "incomplete_aml_result" ∷ [])
          c.decision_reason
      then c.decision_reason
      else if truthy c.error_code
      then c.error_code
      else if is_one_of ("pending" ∷ "checking" ∷ []) c.provider_status
      then null
      else if aml_checked c
      then null
      else text "incomplete_aml_result"

  -- `_aml_review_required`
  abbrev pub aml_review_required : Check → Bool
  aml_review_required c = elim c.deposit_decision [ some hold_for_review ↦ true | _ ↦ false ]

  -- `remove_exponent`, as the text of the amount
  abbrev remove_exponent : lib.Number → Value
  remove_exponent n = text (lib.fixed n)

  -- `_aml_policy_payload`
  pub aml_policy_payload : Check → Value
  aml_policy_payload c = dict (
      with_optional "min_check_amount_fiat" (shown remove_exponent c.min_check_amount_fiat) (
        with_optional "cumulative_amount_fiat" (shown remove_exponent c.cumulative_amount_fiat) (
          with_optional "cumulative_limit_fiat" (shown remove_exponent c.cumulative_limit_fiat)
            (with_optional "cumulative_window" (shown text c.cumulative_window) end))))

  -- `_unsupported_aml_payload`
  pub unsupported_aml_payload : String → Value
  unsupported_aml_payload crypto =
      let policy = get_coverage_policy lib.provider crypto in
      let reason = or_value (optional policy.reason) (text "unsupported_asset") in
      dict (
        field "supported" (bool false) (
          field "checked" (bool false) (
            field "check_status" (text "unsupported") (
              field "review_required" (bool false) (
                field "reason_code" reason (
                  field "provider" (text policy.provider) (
                    field "provider_status" (text "unsupported") (
                      field "score" null (
                        field "uid" null (
                          field "asset" (optional policy.asset) (
                            field "network" (optional policy.network) (
                              field "signals" (dict end) (
                                field "report_url" null (
                                  field "error_code" reason (
                                    field "error_message" unsupported_message
                                      (field "policy" (dict end) end))))))))))))))))

  -- `_json_object`
  json_object : Value → Value
  json_object (text s) =
      if str_eq s "" then dict end else elim (lib.loads s) [ none ↦ dict end | some v ↦ v ]
  json_object v = dict end

  -- `_aml_payload`
  pub aml_payload : String → Check → Value
  unfolding aml_checked aml_check_status aml_reason_code aml_policy_payload json_object
  aml_payload crypto c =
      let supported = is_supported (get_coverage_policy lib.provider crypto) in
      dict (
        field "supported" (bool supported) (
          field "checked" (bool (aml_checked c)) (
            field "check_status" (aml_check_status c) (
              field "review_required" (bool (aml_review_required c)) (
                field "reason_code" (aml_reason_code c) (
                  field "provider" c.provider (
                    field "provider_status"
                      (or_value c.provider_status (if supported then null else text "unsupported"))
                      (field "score" (elim c.score [ none ↦ null | some n ↦ remove_exponent n ])
                        (field "uid" c.uid (
                          field "asset" c.asset (
                            field "network" c.network (
                              field "signals" (json_object c.signals_json) (
                                field "report_url" c.report_url (
                                  field "error_code"
                                    (or_value c.error_code
                                      (if supported then null else text "unsupported_asset"))
                                    (field "error_message"
                                      (or_value c.error_message
                                        (if supported then null else unsupported_message))
                                      (field "policy" (aml_policy_payload c) end))))))))))))))))

  -- the members of `_add_aml_to_trigger_transaction`, in front of those of the item
  pub add_aml_to_trigger_transaction : Fields → String → Option Check → Fields
  unfolding aml_payload unsupported_aml_payload
  add_aml_to_trigger_transaction item crypto none =
      if is_supported (get_coverage_policy lib.provider crypto)
      then item
      else field "aml" (unsupported_aml_payload crypto) item
  add_aml_to_trigger_transaction item crypto (some c) =
      field "deposit_id" (text c.deposit_id)
        (field "idempotency_key" (text c.idempotency_key) (field "aml" (aml_payload crypto c) item))
