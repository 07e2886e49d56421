-- ===== src/Invoice/Receive.antt =====
-- `Transaction.add`, `Invoice.update_with_tx` (shkeeper/models.py), and what `walletnotify`
-- (shkeeper/api_v1.py) does with one received output that has confirmations.
pub mod Balance
pub mod Lost
mod Tests
use shkeeper_io.Prelude.{
  ℕ, ◌+◌, ◌*◌, Bool, true, false, not, ◌&&◌, ◌||◌, String, Option, none, some, List, [], ◌∷◌, ◌++◌,
  any, first, map, leb, ltb, ◌==◌, str_eq, if◌then◌else◌,
}
use shkeeper_io.Errors.{Result, ok, err, ◌>>=◌, ◌>>◌, raise}
use shkeeper_io.Context.{seconds}
use shkeeper_io.Invoice.{
  Arithmetic, ExchangeRate, InvoiceStatus, unpaid, partial, paid, overpaid, cancelled, refunded,
  outgoing, Wallet, Invoice, InvoiceAddress, Transaction, Books,
}
use shkeeper_io.Invoice.Rate.{Market, Amount, get_rate, convert, get_exchange_rate}

-- an output of a transaction, as `getaddrbytx` gives it
pub record Output (Number : Type 0) : Type 0 where
  pub crypto : String
  pub txid : String
  pub addr : String
  pub amount : Number
  pub confirmations : ℕ

abbrev is_outgoing : InvoiceStatus → Bool
is_outgoing outgoing = true
is_outgoing _ = false

module _ ⦃money : Arithmetic⦄ where
  -- the settings that a step reads: the rate rows, the sources, the wallet of each coin
  pub record Shop : Type 0 where
    pub rates : List (ExchangeRate money.Number)
    pub market : Market money.Number
    pub wallet : String → Wallet money.Number

  abbrev pub Bill : Type 0
  Bill = Invoice money.Number

  abbrev pub Tx : Type 0
  Tx = Transaction money.Number

  abbrev pub Tables : Type 0
  Tables = Books money.Number

  -- the invoice of an address: by its `InvoiceAddress`, or by the invoice's own address
  by_id : ℕ → List Bill → Option Bill
  by_id id invoices = first (λ (i : Bill). i.id == id) invoices

  by_own_address : String → String → List Bill → Option Bill
  by_own_address crypto addr invoices =
      first
        (λ (i : Bill). str_eq i.addr addr && str_eq i.crypto crypto && not (is_outgoing i.status))
        invoices

  pub find_invoice : Tables → String → String → Option Bill
  unfolding by_id by_own_address
  find_invoice books crypto addr =
      elim (first (λ (a : InvoiceAddress). str_eq a.crypto crypto && str_eq a.addr addr)
        books.addresses) [
          | none ↦ by_own_address crypto addr books.invoices
          | some a ↦ by_id a.invoice_id books.invoices
        ]

  -- the rate at which a transaction is counted
  rate_for : Shop → Bill → String → Result money.Number
  rate_for shop invoice crypto =
      if str_eq invoice.crypto crypto
      then ok invoice.exchange_rate
      else get_exchange_rate shop.rates invoice.fiat crypto >>= get_rate shop.market

  -- the row of `Transaction.add`
  new_transaction : Shop → Bill → Output money.Number → money.Number → Tx
  new_transaction shop invoice out rate = record {
    invoice_id = invoice.id;
    txid = out.txid;
    crypto = out.crypto;
    amount_crypto = out.amount;
    amount_fiat = money.times out.amount rate;
    need_more_confirmations = not (leb (shop.wallet out.crypto).confirmations out.confirmations);
    callback_confirmed = false;
  }

  -- the unique constraint on the coin, the transaction and the invoice
  abbrev pub same_transaction : Tx → Tx → Bool
  same_transaction t u =
      str_eq t.crypto u.crypto && str_eq t.txid u.txid && t.invoice_id == u.invoice_id

  -- what `Transaction.add` answers: a committed row, an `IntegrityError`, or another exception
  pub data Added : Type 0 where
    added : Bill → Tx → Added
    duplicate : Added
    unrelated : Added
    rate_failed : Added

  inserted : List Tx → Bill → Tx → Added
  inserted transactions invoice t =
      if any (same_transaction t) transactions then duplicate else added invoice t

  rated : Shop → List Tx → Bill → Output money.Number → Result money.Number → Added
  unfolding inserted new_transaction
  rated shop transactions invoice out (err e) = rate_failed
  rated shop transactions invoice out (ok rate) =
      inserted transactions invoice (new_transaction shop invoice out rate)

  related : Shop → Tables → Output money.Number → Option Bill → Added
  unfolding rated rate_for
  related shop books out none = unrelated
  related shop books out (some invoice) =
      rated shop books.transactions invoice out (rate_for shop invoice out.crypto)

  -- `Transaction.add`
  pub add_transaction : Shop → Tables → Output money.Number → Added
  unfolding related
  add_transaction shop books out = related shop books out (find_invoice books out.crypto out.addr)

  -- the invoice and the transaction at a new rate
  at_rate : Bill → Tx → Result (money.Number × money.Number) → Result (Bill × Tx)
  at_rate invoice t (err e) = err e
  at_rate invoice t (ok (amount, rate)) = ok (
    record invoice { amount_crypto = amount; exchange_rate = rate },
    record t { amount_fiat = money.times t.amount_crypto rate },
  )

  -- the invoice is recalculated at all, and old enough for it
  abbrev needs_recalculation : Shop → ℕ → Bill → Bool
  needs_recalculation shop now invoice =
      let recalc = (shop.wallet invoice.crypto).recalc in
      ltb 0 recalc && ltb (invoice.created_at + seconds (recalc * 3600)) now

  present_amount : Shop → Bill → Result (money.Number × money.Number)
  present_amount shop invoice = get_exchange_rate shop.rates invoice.fiat invoice.crypto >>= λ row.
      convert shop.market row invoice.amount_fiat

  recalculate : Shop → ℕ → Bill → Tx → Result (Bill × Tx)
  unfolding at_rate present_amount
  recalculate shop now invoice t =
      if needs_recalculation shop now invoice
      then at_rate invoice t (present_amount shop invoice)
      else ok (invoice, t)

  -- the status that the balance gives
  status_of : Shop → Bill → InvoiceStatus
  status_of shop invoice =
      let wallet = shop.wallet invoice.crypto in
      if money.is_less invoice.balance_fiat
        (money.times invoice.amount_fiat (money.hundredth wallet.llimit))
      then partial
      else if money.is_less invoice.balance_fiat
          (money.times invoice.amount_fiat (money.hundredth wallet.ulimit))
      then paid
      else overpaid

  credit : Bill → Tx → Bill
  credit invoice t = record invoice {
    balance_fiat = money.plus invoice.balance_fiat t.amount_fiat;
    balance_crypto =
        if str_eq t.crypto invoice.crypto
        then money.plus invoice.balance_crypto t.amount_crypto
        else invoice.balance_crypto;
  }

  credited : Shop → Bill → Tx → Bill
  unfolding credit status_of
  credited shop invoice t =
      let paid_in = credit invoice t in record paid_in { status = status_of shop paid_in }

  settled : Shop → Result (Bill × Tx) → Result (Bill × Tx)
  unfolding credited
  settled shop (err e) = err e
  settled shop (ok (invoice, t)) = ok (credited shop invoice t, t)

  -- `update_with_tx`
  pub update_with_tx : Shop → ℕ → Bill → Tx → Result (Bill × Tx)
  unfolding recalculate settled
  update_with_tx shop now invoice t = settled shop (recalculate shop now invoice t)

  -- the row of an invoice in its table
  replace : Bill → Bill → Bill
  replace invoice row = if row.id == invoice.id then invoice else row

  -- `tx.addr`: the address of its invoice in its coin, or the invoice's own
  addr_of : Tables → Tx → Option String
  unfolding by_id
  addr_of books t =
      elim (first (λ (a : InvoiceAddress). str_eq a.crypto t.crypto && a.invoice_id == t.invoice_id)
        books.addresses) [
          | some a ↦ some a.addr
          | none ↦ elim (by_id t.invoice_id books.invoices) [ none ↦ none | some i ↦ some i.addr ]
        ]

  is_incoming : Tables → Tx → Bool
  unfolding by_id
  is_incoming books t = elim (by_id t.invoice_id books.invoices) [
    | none ↦ false
    | some i ↦ not (is_outgoing i.status)
  ]

  -- the test of `_existing_receive_transaction_for_walletnotify`
  is_candidate : Tables → Output money.Number → Tx → Bool
  unfolding addr_of is_incoming
  is_candidate books out t =
      str_eq t.crypto out.crypto
      && str_eq t.txid out.txid
      && is_incoming books t
      && elim (addr_of books t) [ none ↦ false | some a ↦ str_eq a out.addr ]

  -- the transactions where the first candidate has its flag cleared
  confirm_first : (Tx → Bool) → List Tx → List Tx
  confirm_first candidate [] = []
  confirm_first candidate (t ∷ ts) =
      let rest = confirm_first candidate ts in
      if candidate t then record t { need_more_confirmations = false } ∷ ts else t ∷ rest

  -- `_process_existing_walletnotify_transaction`, without the notification that may follow
  process_existing : Shop → Output money.Number → Tables → Tables
  unfolding is_candidate confirm_first
  process_existing shop out books =
      if leb (shop.wallet out.crypto).confirmations out.confirmations
      then record books { transactions = confirm_first (is_candidate books out) books.transactions }
      else books

  -- the tables where a new transaction and its invoice are committed
  committed : Tables → Bill → Tx → Tables
  unfolding replace
  committed books invoice t = record books {
    invoices = map (replace invoice) books.invoices;
    transactions = books.transactions ++ t ∷ [];
  }

  -- the tables after one output, and whether an exception ends the request
  abbrev pub Step : Type 0
  Step = Tables × Result (Unit {0})

  -- the balance is updated by a second commit: where that raises, the transaction stays
  after_update : Tables → Tx → Result (Bill × Tx) → Step
  unfolding committed
  after_update books t (err e) =
      (record books { transactions = books.transactions ++ t ∷ [] }, err e)
  after_update books t (ok (invoice, u)) = (committed books invoice u, ok tt)

  after_add : Shop → ℕ → Tables → Output money.Number → Added → Step
  unfolding after_update process_existing
  after_add shop now books out (added invoice t) =
      after_update books t (update_with_tx shop now invoice t)
  after_add shop now books out duplicate = (process_existing shop out books, ok tt)
  after_add shop now books out unrelated = (books, raise "NotRelatedToAnyInvoice" 200)
  after_add shop now books out rate_failed = (books, raise "Exception" 409)

  -- one output with confirmations in the loop of `walletnotify`
  pub receive : Shop → ℕ → Output money.Number → Tables → Step
  unfolding after_add
  receive shop now out books = after_add shop now books out (add_transaction shop books out)
