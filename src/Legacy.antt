-- ===== src/Legacy.antt =====
-- Payouts outside of payout execution: the tables `Payout` and `Notification` of
-- shkeeper/models.py, shkeeper/services/payout_service.py, and the polls of shkeeper/callback.py.
pub mod Service
pub mod Notifier
pub mod Polls
use shkeeper_io.Prelude.{ℕ, Bool, String, Option, List}
use shkeeper_io.Prelude.Json.{Value}
use shkeeper_io.Context.{Decimal}

-- `PayoutStatus`
pub data PayoutStatus : Type 0 where
  in_progress success fail : PayoutStatus

-- `Payout`, with the `txid` of its `PayoutTx` rows
pub record Payout : Type 0 where
  pub id : ℕ
  pub created_at : ℕ
  pub amount : Decimal
  pub crypto : String
  pub dest_addr : String
  pub success : Option String
  pub error : Option String
  pub callback_url : Value
  pub task_id : Value
  pub external_id : Option String
  pub status : PayoutStatus
  pub transactions : List Value
