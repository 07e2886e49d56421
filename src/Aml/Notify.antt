-- ===== src/Aml/Notify.antt =====
-- `send_notification` and the transactions' part of `send_callbacks` (shkeeper/callback.py). The
-- text of a notification is not modelled: the request, and its answer, are a parameter.
pub mod Gate
use shkeeper_io.Prelude.{
  ℕ, ◌+◌, Bool, true, false, not, ◌&&◌, ◌||◌, List, [], ◌∷◌, ◌++◌, ltb, ◌==◌, if◌then◌else◌,
}
use shkeeper_io.Context.{Context, seconds}
use shkeeper_io.Aml.Check.{Library, Transaction}
use shkeeper_io.Aml.Processing.{Sidecar, Row, ensure_aml_for_transaction, is_callback_allowed}

-- the status of the merchant's answer, or an exception
pub data Reply : Type 0 where
  answered : ℕ → Reply
  failed : Reply

abbrev pub is_accepted : Reply → Bool
is_accepted (answered code) = code == 202
is_accepted failed = false

module _ ⦃ctx : Context⦄ ⦃lib : Library⦄ where
  -- the merchant's answer to the notification of a transaction
  abbrev pub Merchant : Type 0
  Merchant = Row → Reply

  -- a row after a step, and whether its notification was posted
  abbrev pub Sent : Type 0
  Sent = Row × Bool

  -- `send_notification`
  pub send_notification : Merchant → Row → Sent
  send_notification merchant tx =
      if not tx.outgoing && not (is_callback_allowed tx) then (tx, false) else (
        (if is_accepted (merchant tx) then record tx { callback_confirmed = true } else tx),
        true,
      )

  -- a transaction that is old enough; `AML` may have raised, and then its check is still open
  settle_callback : Sidecar → Merchant → ℕ → List Row → Row → Sent
  settle_callback sidecar merchant now table tx =
      let checked = ensure_aml_for_transaction sidecar now table tx in
      if tx.outgoing
      then (record tx { callback_confirmed = true }, false)
      else if is_callback_allowed checked
      then send_notification merchant checked
      else (checked, false)

  -- the filter of the query, and the delay of `NOTIFICATION_TASK_DELAY` seconds
  pub send_callback : Sidecar → Merchant → ℕ → ℕ → List Row → Row → Sent
  send_callback sidecar merchant delay now table tx =
      if tx.callback_confirmed || tx.need_more_confirmations
      then (tx, false)
      else if ltb (tx.created_at + seconds delay) now
      then settle_callback sidecar merchant now table tx
      else (tx, false)

  -- `send_callbacks`, from one transaction on: the rows before it are `front`, in their new state
  pub send_callbacks : Sidecar → Merchant → ℕ → ℕ → List Row → List Row → List Sent
  send_callbacks sidecar merchant delay now front [] = []
  send_callbacks sidecar merchant delay now front (tx ∷ rest) =
      let sent = send_callback sidecar merchant delay now (front ++ tx ∷ rest) tx in
      sent ∷ send_callbacks sidecar merchant delay now (front ++ sent.0 ∷ []) rest
