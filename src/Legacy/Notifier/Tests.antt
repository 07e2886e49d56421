-- ===== src/Legacy/Notifier/Tests.antt =====
-- A notification that is refused twice.
use shkeeper_io.Prelude.{◌+◌, ◌*◌, ◌≤◌, ◌≡◌, refl, false, none, [], ◌∷◌, arith}
use shkeeper_io.Prelude.Json.{text}
use shkeeper_io.Context.{finite_up}
use shkeeper_io.Legacy.{Payout, in_progress}
use shkeeper_io.Legacy.Notifier.{
  Notification, answered, delay_total, notify, is_due, send_payout_notification, counted,
  attempt_on, after_reply,
}
use shkeeper_io.Legacy.Notifier.Retries.{Pass, attempts, attempts_end, delay_total_closed}

abbrev payout : Payout
payout = record {
  id = 4;
  created_at = 0;
  amount = finite_up false 15 0;
  crypto = "ETH-USDT";
  dest_addr = "0x11";
  success = none;
  error = none;
  callback_url = text "https://shop.test/cb";
  task_id = text "task-1";
  external_id = none;
  status = in_progress;
  transactions = text "0xab" ∷ [];
}

abbrev notification : Notification
notification = record {
  txid = text "0xab";
  object_id = 4;
  crypto = "ETH-USDT";
  callback_url = text "https://shop.test/cb";
  callback_confirmed = false;
  retries = 0;
  message = none;
  created_at = 0;
}

abbrev refuses : Pass
refuses = record { now = 100000000; receiver = λ p. answered 500 "error"; payouts = payout ∷ [] }

tried : attempts 2 (refuses ∷ refuses ∷ refuses ∷ []) notification ≡ 2
unfolding attempts notify is_due delay_total send_payout_notification counted attempt_on after_reply
tried = refl

attempts_end_example : attempts 2 (refuses ∷ refuses ∷ refuses ∷ []) notification + 0 ≤ 2
attempts_end_example = attempts_end 2 (refuses ∷ refuses ∷ refuses ∷ []) notification (omega arith)

delay_total_closed_example : 6 * delay_total 3 ≡ (3 + 1) * (3 + 2) * (2 * 3 + 3)
delay_total_closed_example = delay_total_closed 3
