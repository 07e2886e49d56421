-- ===== src/Legacy/Service/Tests.antt =====
-- Two requests with one external id.
use shkeeper_io.Prelude.{◌≤◌, ◌≡◌, refl, true, none, some, [], ◌∷◌}
use shkeeper_io.Prelude.Json.{text, dict, end, field}
use shkeeper_io.Prelude.Text.{strip}
use shkeeper_io.Context.{str}
use shkeeper_io.Payout.Rail.{assert_legacy_spend_allowed, find_rail_for_spend_source, spend_on}
use shkeeper_io.Payout.Fixtures.{context}
use shkeeper_io.Legacy.Service.{
  Driver, Spender, returned, single_payout, pay, admit, check_payout, reserve, after_reserved,
  normalize_external_id, validate_callback_url, parse_amount, decimal_of, validate_positive_amount,
  preflight_payout, get_request_fee, get_destination, new_payout,
}
use shkeeper_io.Legacy.Service.Turns.{Turn, calls, paid_once}

-- a driver that accepts everything
abbrev driver : Driver
driver = record {
  can_omit_fee_for_payout = true;
  preflight_payout = none;
  mkpayout = λ destination amount fee. returned (dict (field "task_id" (text "task-1") end));
}

abbrev spender : Spender
spender = record {
  spend_origin = "manual_admin";
  operator_id = some "ann";
  audit_reason = some "api";
}

-- a request that found nothing when it looked
abbrev turn : Turn
turn = record {
  id = 1;
  now = 0;
  driver = some driver;
  spender = spender;
  rails = [];
  crypto = "ETH-USDT";
  req =
      field "external_id" (text "order-1")
        (field "amount" (text "1.5") (field "destination" (text "0x11") end));
  table = [];
}

asked_once : calls "ETH-USDT" "order-1" (turn ∷ turn ∷ []) [] ≡ 1
unfolding calls single_payout pay admit check_payout reserve after_reserved normalize_external_id
    validate_callback_url parse_amount decimal_of validate_positive_amount preflight_payout
    get_request_fee get_destination new_payout strip str assert_legacy_spend_allowed
    find_rail_for_spend_source spend_on
asked_once = refl

paid_once_example : calls "ETH-USDT" "order-1" (turn ∷ turn ∷ []) [] ≤ 1
paid_once_example = paid_once "ETH-USDT" "order-1" (turn ∷ turn ∷ []) []
