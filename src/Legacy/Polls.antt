-- ===== src/Legacy/Polls.antt =====
-- `Payout.update_from_task` (shkeeper/models.py), `poll_all_pending_payouts` and
-- `poll_unconfirmed_payouts` (shkeeper/callback.py). What the coins' drivers answer is a parameter.
pub mod Confirmed
pub mod Keeps
mod Tests
use Prim.Native.Char.{Char}
use shkeeper_io.Prelude.{
  ℕ, ◌+◌, ◌*◌, Bool, true, false, not, ◌&&◌, ◌||◌, String, Option, none, some, List, [], ◌∷◌, ◌++◌,
  any, map, leb, ltb, str_eq, is_some, if◌then◌else◌,
}
use shkeeper_io.Prelude.Text.{lower}
use shkeeper_io.Prelude.Json.{
  Value, null, text, list, dict, Items, nil, cons, Fields, end, get, has, truthy, value_eq,
}
use shkeeper_io.Context.{Context, str, seconds}
use shkeeper_io.Legacy.{Payout, PayoutStatus, in_progress, success, fail}
use shkeeper_io.Legacy.Notifier.{Notification}

abbrev pub is_in_progress : PayoutStatus → Bool
is_in_progress in_progress = true
is_in_progress _ = false

-- the texts of a list, and the characters of a text, as a loop over the value gives them; `none`
-- where there is no loop over it
entries : Items → List Value
entries nil = []
entries (cons v vs) = v ∷ entries vs

letters : String → List Value
letters String.[] = []
letters (String.◌∷◌ c s) = text (String.◌∷◌ c "") ∷ letters s

unfoldable pub loop_over : Value → Option (List Value)
unfolding entries letters
loop_over (list vs) = some (entries vs)
loop_over (text s) = some (letters s)
loop_over _ = none

-- `r.get("txids", [])`
unfoldable pub txids_of : Fields → Option (List Value)
unfolding loop_over
txids_of r = if has "txids" r then loop_over (get "txids" r) else some []

-- `result_by_dest.get(dest)`: the last result for the destination
result_by_dest : String → Items → Option Fields
unfolding lower
result_by_dest dest nil = none
result_by_dest dest (cons (dict r) vs) =
    let later = result_by_dest dest vs in
    if is_some later then later else elim (get "dest" r) [
      | text d ↦ if str_eq (lower d) (lower dest) then some r else none
      | _ ↦ none
    ]
result_by_dest dest (cons v vs) = result_by_dest dest vs

-- the transactions that the payout does not have yet
unfoldable pub new_txids : List Value → List Value → List Value
new_txids known [] = []
new_txids known (txid ∷ txids) =
    let more = new_txids known txids in if any (value_eq txid) known then more else txid ∷ more

-- `v == s`
abbrev is_text : String → Value → Bool
is_text s (text t) = str_eq t s
is_text s _ = false

-- the driver of each coin: `get_task` by the id of a task, and `get_confirmations_by_txid`, `none`
-- where it raises
pub record Chain : Type 0 where
  pub get_task : Value → Fields
  pub get_confirmations_by_txid : Value → Option ℕ

module _ ⦃ctx : Context⦄ where
  -- the payout as it is when its task failed
  unfoldable pub failed : Value → Payout → Payout
  failed v p = record p { status = fail; success = some "No"; error = some (str v) }

  add_txids : Payout → Option (List Value) → Option Payout
  unfolding new_txids
  add_txids p none = none
  add_txids p (some txids) =
      some (record p { transactions = p.transactions ++ new_txids p.transactions txids })

  -- a payout whose result is found; a result that is an empty dict is passed over
  with_result : Payout → Option Fields → Option Payout
  unfolding add_txids failed txids_of
  with_result p none = some p
  with_result p (some r) =
      if not (truthy (dict r))
      then some p
      else if is_text "error" (get "status" r)
      then some (failed (dict r) p)
      else add_txids p (txids_of r)

  -- one payout of the task; `none` where it raises
  unfoldable pub update_payout : Value → Value → Payout → Option Payout
  unfolding with_result failed result_by_dest
  update_payout status (list results) p =
      if is_text "SUCCESS" status
      then with_result p (result_by_dest p.dest_addr results)
      else some (failed (list results) p)
  update_payout status results p = some (failed results p)

  abbrev joined : Option Payout → Option (List Payout) → Option (List Payout)
  joined (some p) (some rest) = some (p ∷ rest)
  joined _ _ = none

  -- `Payout.update_from_task`: the table after it; `none` where it raises, and nothing is committed
  pub update_from_task : Fields → Value → List Payout → Option (List Payout)
  unfolding update_payout
  update_from_task response task_id [] = some []
  update_from_task response task_id (p ∷ payouts) =
      joined
        (if value_eq p.task_id task_id
          then update_payout (get "status" response) (get "result" response) p
          else some p)
        (update_from_task response task_id payouts)

  -- the filter of both polls: a payout of the last day that is in progress
  abbrev pub is_recent_open : ℕ → Payout → Bool
  is_recent_open now p = is_in_progress p.status && leb now (p.created_at + seconds (24 * 3600))

  abbrev has_ended : Value → Bool
  has_ended status = any (λ s. is_text s status) ("SUCCESS" ∷ "ERROR" ∷ "FAILED" ∷ "FAILURE" ∷ [])

  poll_task : Fields → Value → List Payout → Option (List Payout)
  unfolding update_from_task
  poll_task response task_id table =
      if has_ended (get "status" response)
      then update_from_task response task_id table
      else some table

  -- a payout of the query, on the table as it is then; `none` where its coin has no driver
  poll_pending : Option Chain → Payout → List Payout → Option (List Payout)
  unfolding poll_task
  poll_pending none p table = some table
  poll_pending (some chain) p table = poll_task (chain.get_task p.task_id) p.task_id table

  abbrev is_null_value : Value → Bool
  is_null_value null = true
  is_null_value _ = false

  -- `poll_all_pending_payouts`, over the payouts of its query; an exception ends the loop, and the
  -- tasks before it are committed
  pub poll_all_pending_payouts :
      (String → Option Chain) → ℕ → List Payout → List Payout → List Payout
  unfolding poll_pending
  poll_all_pending_payouts chains now [] table = table
  poll_all_pending_payouts chains now (p ∷ selected) table =
      if is_recent_open now p && not (is_null_value p.task_id)
      then elim (poll_pending (chains p.crypto) p table) [
        | some after ↦ poll_all_pending_payouts chains now selected after
        | none ↦ table
      ]
      else poll_all_pending_payouts chains now selected table

  -- a transaction of a payout that has more confirmations than required
  unfoldable pub is_confirmed : ℕ → Chain → Value → Bool
  is_confirmed required chain txid =
      truthy txid
      && elim (chain.get_confirmations_by_txid txid) [ none ↦ false | some n ↦ ltb required n ]

  -- `tx_to_notify`
  first_confirmed : ℕ → Chain → List Value → Option Value
  unfolding is_confirmed
  first_confirmed required chain [] = none
  first_confirmed required chain (txid ∷ txids) =
      let later = first_confirmed required chain txids in
      if is_confirmed required chain txid then some txid else later

  abbrev succeeded : Payout → Payout
  succeeded p = record p { status = success; success = some "Yes" }

  new_notification : ℕ → Payout → Value → Notification
  new_notification now p txid = record {
    txid = txid;
    object_id = p.id;
    crypto = p.crypto;
    callback_url = p.callback_url;
    callback_confirmed = false;
    retries = 0;
    message = none;
    created_at = now;
  }

  confirm : Bool → ℕ → Payout → Option Value → Payout × Option Notification
  unfolding new_notification
  confirm enabled now p none = (p, none)
  confirm enabled now p (some txid) = (
    succeeded p,
    if truthy p.callback_url && enabled then some (new_notification now p txid) else none,
  )

  poll_on : ℕ → Bool → ℕ → Payout → Option Chain → Payout × Option Notification
  unfolding confirm first_confirmed
  poll_on required enabled now p none = (p, none)
  poll_on required enabled now p (some chain) =
      confirm enabled now p (first_confirmed required chain p.transactions)

  -- one payout in `poll_unconfirmed_payouts`, and the notification that is added for it; `required`
  -- and `enabled` are MIN_CONFIRMATION_BLOCK_FOR_PAYOUT and ENABLE_PAYOUT_CALLBACK
  pub poll_unconfirmed_payout :
      ℕ → Bool → (String → Option Chain) → ℕ → Payout → Payout × Option Notification
  unfolding poll_on
  poll_unconfirmed_payout required enabled chains now p =
      if is_recent_open now p then poll_on required enabled now p (chains p.crypto) else (p, none)
