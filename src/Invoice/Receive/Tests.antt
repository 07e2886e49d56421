-- ===== src/Invoice/Receive/Tests.antt =====
-- Outputs that pay a concrete invoice. Amounts are whole numbers.
use shkeeper_io.Prelude.{ℕ, ◌+◌, ◌-◌, ◌*◌, ◌/◌, ◌≡◌, refl, false, some, [], ◌∷◌, ltb}
use shkeeper_io.Errors.{ok, err, raise}
use shkeeper_io.Invoice.{Arithmetic, ExchangeRate, percent_fee, Invoice, Transaction, Books, unpaid}
use shkeeper_io.Invoice.Rate.{get_rate, convert, get_exchange_rate}
use shkeeper_io.Invoice.Receive.{
  Output, Shop, added, receive, after_add, after_update, add_transaction, related, rated, rate_for,
  inserted, new_transaction, find_invoice, by_id, by_own_address, update_with_tx, recalculate,
  present_amount, at_rate, settled, credited, credit, status_of, committed, replace,
}
use shkeeper_io.Invoice.Receive.Balance.{Balanced, total, receive-Balanced}
use shkeeper_io.Invoice.Receive.Lost.{recorded_output_unpaid, lost_credit}

instance abbrev whole : Arithmetic
whole = record {
  Number = ℕ;
  nothing = 0;
  hundred = 100;
  plus = λ a b. a + b;
  minus = λ a b. a - b;
  times = λ a b. a * b;
  over = λ a b. some (a / b);
  is_less = ltb;
  hundredth = λ a. a / 100;
  round = λ a n. a;
}

abbrev rate : ExchangeRate ℕ
rate = record {
  source = "binance";
  crypto = "ETH";
  fiat = "USD";
  rate = 0;
  fee = 0;
  fixed_fee = 0;
  fee_policy = some percent_fee;
}

-- a source of rates that is down, and a wallet that recalculates after so many hours
abbrev shop : ℕ → Shop
shop hours = record {
  rates = rate ∷ [];
  market = record { rate_of = λ source fiat crypto. raise "Timeout" 500; precision = λ s. 8 };
  wallet = λ s. record { llimit = 100; ulimit = 200; recalc = hours; confirmations = 1 };
}

abbrev invoice : Invoice ℕ
invoice = record {
  id = 1;
  crypto = "ETH";
  addr = "0x11";
  external_id = "order-1";
  fiat = "USD";
  callback_url = "https://shop.test/cb";
  balance_fiat = 0;
  balance_crypto = 0;
  amount_fiat = 10;
  amount_crypto = 5;
  exchange_rate = 2;
  status = unpaid;
  created_at = 0;
}

abbrev books : Books ℕ
books = record {
  invoices = invoice ∷ [];
  addresses = record { invoice_id = 1; crypto = "ETH"; addr = "0x11" } ∷ [];
  transactions = [];
}

abbrev output : Output ℕ
output = record { crypto = "ETH"; txid = "0xab"; addr = "0x11"; amount = 5; confirmations = 3 }

abbrev transaction : Transaction ℕ
transaction = record {
  invoice_id = 1;
  txid = "0xab";
  crypto = "ETH";
  amount_crypto = 5;
  amount_fiat = 10;
  need_more_confirmations = false;
  callback_confirmed = false;
}

books-Balanced : Balanced books
unfolding Balanced total
books-Balanced = (refl, tt)

abbrev after : Books ℕ
after = (receive (shop 0) 5 output books).0

received : receive (shop 0) 5 output books ≡ (after, ok tt)
unfolding receive after_add after_update add_transaction related rated rate_for inserted
    new_transaction find_invoice by_id by_own_address update_with_tx recalculate settled credited
    credit status_of committed replace
received = refl

receive-Balanced_example : Balanced after
receive-Balanced_example = receive-Balanced (shop 0) 5 output books after books-Balanced received

abbrev paid_books : Books ℕ
paid_books = record books { transactions = transaction ∷ [] }

found : find_invoice paid_books "ETH" "0x11" ≡ some invoice
unfolding find_invoice by_id by_own_address
found = refl

recorded_output_unpaid_example : (receive (shop 0) 9 output paid_books).0.invoices ≡ invoice ∷ []
recorded_output_unpaid_example =
    recorded_output_unpaid (shop 0) 9 output paid_books invoice found refl

adds : add_transaction (shop 1) books output ≡ added invoice transaction
unfolding add_transaction related rated rate_for inserted new_transaction find_invoice by_id
    by_own_address
adds = refl

update_raises :
    update_with_tx (shop 1) 9000000000 invoice transaction
    ≡ err (record { code = "Timeout"; status_code = 500 })
unfolding update_with_tx recalculate present_amount at_rate settled get_exchange_rate convert
    get_rate
update_raises = refl

lost_credit_example :
    (receive
      (shop 1)
      9000000001
      (record output { confirmations = 4 })
      (receive (shop 1) 9000000000 output books).0).0.invoices
    ≡ invoice ∷ []
lost_credit_example =
    lost_credit (shop 1) (shop 1) 9000000000 9000000001 4 output books invoice transaction
      (record { code = "Timeout"; status_code = 500 }) adds update_raises
