-- ===== src/Legacy/Notifier.antt =====
-- `send_payout_callback_notifier` and `send_payout_notification` of shkeeper/callback.py. The text
-- of the request, with the rate that is looked up for it, is not modelled: what comes of it is a
-- parameter. Times are in microseconds.
pub mod Retries
mod Tests
use shkeeper_io.Prelude.{
  ℕ, zero, suc, ◌+◌, ◌^◌, Bool, true, false, not, ◌&&◌, ◌||◌, String, Option, none, some, List, [],
  ◌∷◌, first, map, ltb, ◌==◌, str_eq, if◌then◌else◌,
}
use shkeeper_io.Prelude.Json.{Value, truthy}
use shkeeper_io.Context.{seconds}
use shkeeper_io.Legacy.{Payout}

-- `Notification`
pub record Notification : Type 0 where
  pub txid : Value
  pub object_id : ℕ
  pub crypto : String
  pub callback_url : Value
  pub callback_confirmed : Bool
  pub retries : ℕ
  pub message : Option String
  pub created_at : ℕ

-- the answer to the request with its status and its reason; an exception of the request with its
-- text; or another exception, which is not caught in `send_payout_notification`
pub data Reply : Type 0 where
  answered : ℕ → String → Reply
  request_failed : String → Reply
  raises : Reply

-- what the receiver of a payout's callback does
abbrev pub Receiver : Type 0
Receiver = Payout → Reply

-- `sum((i + 1) ** 2 for i in range(n))`
unfoldable pub sum_of_squares : ℕ → ℕ
sum_of_squares zero = 0
sum_of_squares (suc n) = sum_of_squares n + (n + 1) ^ 2

-- `delay_total`, in seconds
unfoldable pub delay_total : ℕ → ℕ
unfolding sum_of_squares
delay_total retries = sum_of_squares (retries + 1)

-- the notification after an attempt, and whether it succeeded; `none` where it raised
abbrev pub Attempt : Type 0
Attempt = Notification × Option Bool

after_reply : Notification → Reply → Attempt
after_reply n raises = (n, none)
after_reply n (request_failed message) =
    (record n { message = some message; retries = n.retries + 1 }, some false)
after_reply n (answered code reason) =
    if code == 202
    then (record n { callback_confirmed = true }, some true)
    else (record n { message = some reason; retries = n.retries + 1 }, some false)

-- the first transaction of the payout, if it has a hash
abbrev has_hash : List Value → Bool
has_hash [] = false
has_hash (txid ∷ txids) = truthy txid

attempt_on : Receiver → Notification → Option Payout → Attempt
unfolding after_reply
attempt_on receiver n none = (record n { message = some "Payout not found" }, some false)
attempt_on receiver n (some p) =
    if has_hash p.transactions then after_reply n (receiver p) else (n, some false)

-- `send_payout_notification`
pub send_payout_notification : Receiver → List Payout → Notification → Attempt
unfolding attempt_on
send_payout_notification receiver payouts n =
    attempt_on receiver n (first (λ (p : Payout). p.id == n.object_id) payouts)

-- the retries that the notifier counts, from those before the attempt
pub counted : ℕ → Attempt → Notification
counted retries (n, some true) = n
counted retries (n, some false) = record n { retries = retries + 1 }
counted retries (n, none) = record n { retries = retries + 1 }

-- the filter of the query, and the wait
pub is_due : ℕ → ℕ → Notification → Bool
is_due max_retries now n =
    ltb n.retries max_retries
    && not n.callback_confirmed
    && not (ltb now (n.created_at + seconds (delay_total n.retries)))

-- one notification in the loop
pub notify : ℕ → ℕ → Receiver → List Payout → Notification → Notification
notify max_retries now receiver payouts n =
    if is_due max_retries now n
    then counted n.retries (send_payout_notification receiver payouts n)
    else n

-- `send_payout_callback_notifier`
pub send_payout_callback_notifier :
    ℕ → ℕ → Receiver → List Payout → List Notification → List Notification
send_payout_callback_notifier max_retries now receiver payouts notifications =
    map (notify max_retries now receiver payouts) notifications
