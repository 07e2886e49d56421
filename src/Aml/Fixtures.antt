-- ===== src/Aml/Fixtures.antt =====
-- A concrete provider and deposit, at which the theorems are applied. Amounts are whole numbers.
use shkeeper_io.Prelude.{ℕ, ◌+◌, false, Option, none, some, leb}
use shkeeper_io.Prelude.Json.{Value, num, text, dict, Fields, end, field}
pub use shkeeper_io.Payout.Fixtures.{context}
use shkeeper_io.Aml.Check.{Library, Transaction}
use shkeeper_io.Aml.Client.{response}
use shkeeper_io.Aml.Processing.{Sidecar}

abbrev whole : Value → Option ℕ
whole (num n) = some n
whole _ = none

instance abbrev pub library : Library
library = record {
  Number = ℕ;
  zero_amount = 0;
  plus = λ a b. a + b;
  at_most = leb;
  decimal = whole;
  written = λ n. "1";
  fixed = λ n. "1";
  dumps = λ v. "{}";
  loads = λ s. none;
  fromisoformat = λ s. none;
  provider = "amlbot";
  min_check_amount_fiat = 100;
  skip_cumulative_limit_fiat = 300;
  skip_cumulative_window_hours = 24;
  max_accept_score = 30;
  retry_delay_seconds = 120;
  pending_timeout_seconds = 1800;
}

-- a deposit that has no check yet
abbrev pub deposit : Transaction ℕ
deposit = record {
  id = 7;
  crypto = "ETH-USDT";
  txid = "0xab";
  addr = "0x11";
  amount_crypto = 150;
  amount_fiat = some 150;
  created_at = 0;
  outgoing = false;
  external_id = "order-1";
  need_more_confirmations = false;
  callback_confirmed = false;
  aml_check = none;
}

-- an answer with a low score
abbrev pub clear : Fields
clear = field "status" (text "success") (field "score" (num 12) end)

abbrev pub sidecar : Sidecar
sidecar = record {
  post = λ fs. response 200 (some (dict clear)) "";
  get_check = λ s. response 200 (some (dict clear)) "";
}
