-- ===== src/Invoice.antt =====
-- Invoices and the transactions that pay them (shkeeper/models.py), and the part of `walletnotify`
-- (shkeeper/api_v1.py) that records a received transaction. Amounts are of a type that is a
-- parameter with its operations, and so are the sources of exchange rates.
pub mod Rate
pub mod Receive
use shkeeper_io.Prelude.{ℕ, Bool, String, Option, List}

-- what is used of `decimal`, with no laws; `over` is `none` where it raises
pub record Arithmetic : Type 1 where
  pub Number : Type 0
  pub nothing : Number
  pub hundred : Number
  pub plus : Number → Number → Number
  pub minus : Number → Number → Number
  pub times : Number → Number → Number
  pub over : Number → Number → Option Number
  -- `a < b`
  pub is_less : Number → Number → Bool
  -- `a / 100`
  pub hundredth : Number → Number
  -- `round(a, n)`
  pub round : Number → ℕ → Number

-- `FeeCalculationPolicy`
pub data FeeCalculationPolicy : Type 0 where
  no_fee percent_fee fixed_fee percent_or_minimal_fixed_fee : FeeCalculationPolicy

-- `ExchangeRate`
pub record ExchangeRate (Number : Type 0) : Type 0 where
  pub source : String
  pub crypto : String
  pub fiat : String
  pub rate : Number
  pub fee : Number
  pub fixed_fee : Number
  pub fee_policy : Option FeeCalculationPolicy

-- `InvoiceStatus`
pub data InvoiceStatus : Type 0 where
  unpaid partial paid overpaid cancelled refunded outgoing : InvoiceStatus

-- what is read of a `Wallet`
pub record Wallet (Number : Type 0) : Type 0 where
  pub llimit : Number
  pub ulimit : Number
  pub recalc : ℕ
  pub confirmations : ℕ

-- `Invoice`
pub record Invoice (Number : Type 0) : Type 0 where
  pub id : ℕ
  pub crypto : String
  pub addr : String
  pub external_id : String
  pub fiat : String
  pub callback_url : String
  pub balance_fiat : Number
  pub balance_crypto : Number
  pub amount_fiat : Number
  pub amount_crypto : Number
  pub exchange_rate : Number
  pub status : InvoiceStatus
  pub created_at : ℕ

-- `InvoiceAddress`
pub record InvoiceAddress : Type 0 where
  pub invoice_id : ℕ
  pub crypto : String
  pub addr : String

-- `Transaction`
pub record Transaction (Number : Type 0) : Type 0 where
  pub invoice_id : ℕ
  pub txid : String
  pub crypto : String
  pub amount_crypto : Number
  pub amount_fiat : Number
  pub need_more_confirmations : Bool
  pub callback_confirmed : Bool

-- the tables; the transactions stand in the order in which they were inserted
pub record Books (Number : Type 0) : Type 0 where
  pub invoices : List (Invoice Number)
  pub addresses : List InvoiceAddress
  pub transactions : List (Transaction Number)
