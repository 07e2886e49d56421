-- ===== src/Legacy/Polls/Tests.antt =====
-- Polls of a concrete payout with two transactions.
use shkeeper_io.Prelude.{
  ◌≡◌, ◌⊎◌, refl, true, false, String, Option, none, some, [], ◌∷◌, any, str_eq, if◌then◌else◌,
}
use shkeeper_io.Prelude.Json.{null, text, list, nil, cons, dict, Fields, end, field, value_eq}
use shkeeper_io.Prelude.Text.{lower}
use shkeeper_io.Context.{finite_up}
use shkeeper_io.Payout.Fixtures.{context}
use shkeeper_io.Legacy.{Payout, in_progress, success}
use shkeeper_io.Legacy.Polls.{
  Chain, update_from_task, update_payout, with_result, result_by_dest, txids_of, loop_over,
  new_txids, add_txids, poll_unconfirmed_payout, is_confirmed,
}
use shkeeper_io.Legacy.Polls.Confirmed.{BySome, one_confirmation_succeeds, success-BySome}
use shkeeper_io.Legacy.Polls.Keeps.{AllKeep, task_update-AllKeep}

abbrev payout : Payout
payout = record {
  id = 4;
  created_at = 0;
  amount = finite_up false 15 0;
  crypto = "ETH-USDT";
  dest_addr = "0xAB";
  success = none;
  error = none;
  callback_url = null;
  task_id = text "task-1";
  external_id = none;
  status = in_progress;
  transactions = text "t-1" ∷ text "t-2" ∷ [];
}

-- the second transaction is confirmed, the first one is not
abbrev chain : Chain
chain = record {
  get_task = λ v. end;
  get_confirmations_by_txid =
      λ v. elim v [ text s ↦ if str_eq s "t-2" then some 9 else some 0 | _ ↦ none ];
}

abbrev chains : String → Option Chain
chains s = some chain

one_is_confirmed : any (is_confirmed 3 chain) payout.transactions ≡ true
unfolding is_confirmed
one_is_confirmed = refl

one_confirmation_succeeds_example :
    (poll_unconfirmed_payout 3 true chains 5 payout).0.status ≡ success
one_confirmation_succeeds_example =
    one_confirmation_succeeds 3 true chains 5 payout chain refl refl one_is_confirmed

success-BySome_example : (payout.status ≡ success) ⊎ BySome 3 chains payout
success-BySome_example = success-BySome 3 true chains 5 payout one_confirmation_succeeds_example

abbrev response : Fields
response = field "status" (text "SUCCESS") (
    field "result"
      (list (
        cons
          (dict (
            field "dest" (text "0xab")
              (field "status" (text "success") (field "txids" (list (cons (text "t-3") nil)) end))))
          nil))
      end)

abbrev updated : Payout
updated = record payout { transactions = text "t-1" ∷ text "t-2" ∷ text "t-3" ∷ [] }

task_updated : update_from_task response (text "task-1") (payout ∷ []) ≡ some (updated ∷ [])
unfolding update_from_task update_payout with_result result_by_dest txids_of loop_over new_txids
    add_txids lower value_eq
task_updated = refl

task_update-AllKeep_example : AllKeep (text "task-1") (payout ∷ []) (updated ∷ [])
task_update-AllKeep_example =
    task_update-AllKeep (text "task-1") response (payout ∷ []) (updated ∷ []) task_updated
