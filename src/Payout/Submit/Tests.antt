-- ===== src/Payout/Submit/Tests.antt =====
-- Submissions at a concrete request.
use shkeeper_io.Prelude.{◌≡◌, refl, none, some, List, [], ◌∷◌, All}
use shkeeper_io.Errors.{ok}
use shkeeper_io.Prelude.Text.{strip, upper}
use shkeeper_io.Context.{str, hash_payload}
use shkeeper_io.Payout.States.{created, broadcast}
use shkeeper_io.Payout.Row.{Session}
use shkeeper_io.Payout.Transition.History.{IsHistory}
use shkeeper_io.Payout.Address.{validate_payout_destination}
use shkeeper_io.Payout.Submit.Contract.{
  validate_payload_object, request_identity, normalize_external_id, read_request,
  normalize_asset_network, normalize_destination, stripped, canonical_usdt_amount, usdt_amount,
  request_hash,
}
use shkeeper_io.Payout.Submit.{
  submit, by_identity, identify, by_existing, find, replay, validate_key_scope,
}
use shkeeper_io.Payout.Submit.Table.{Distinct, submit-Distinct, submit-IsHistory}
use shkeeper_io.Payout.Submit.Replay.{submit_again}
use shkeeper_io.Payout.Fixtures.{context, env, rail, request, session_in, session_in-IsHistory}

abbrev table : List Session
table = session_in created ∷ []

answered :
    submit env 2 "shop" request none (rail ∷ []) table table ≡ (ok (session_in created), table)
unfolding submit by_identity identify validate_payload_object request_identity normalize_external_id
    by_existing find replay validate_key_scope read_request normalize_asset_network
    normalize_destination stripped canonical_usdt_amount usdt_amount request_hash
    validate_payout_destination strip upper str hash_payload
answered = refl

-- the execution is broadcast by the time of the repeat
abbrev broadcast_table : List Session
broadcast_table = session_in broadcast ∷ []

found_again : find "shop" "order-1" broadcast_table ≡ some (session_in broadcast)
unfolding find
found_again = refl

submit_again_example :
    submit env 3 "shop" request none [] broadcast_table [] ≡ (ok (session_in broadcast), [])
submit_again_example =
    submit_again "shop" env env 2 3 none (rail ∷ []) [] request table table broadcast_table []
      (session_in created) (session_in broadcast) answered found_again
      (record {
        request_hash = refl;
        callback_endpoint_id = refl;
        contract_version = refl;
        asset = refl;
        network = refl;
      })

submit-Distinct_example : Distinct (submit env 2 "shop" request none (rail ∷ []) [] table).1
unfolding find
submit-Distinct_example = submit-Distinct env 2 "shop" request none (rail ∷ []) [] table (refl, tt)

submit-IsHistory_example :
    All (λ (s : Session). IsHistory s) (submit env 2 "shop" request none (rail ∷ []) [] table).1
submit-IsHistory_example =
    submit-IsHistory env 2 "shop" request none (rail ∷ []) [] table
      (session_in-IsHistory created, tt)
