-- ===== src/Invoice/Rate.antt =====
-- `ExchangeRate` of shkeeper/models.py: rates, fees and the conversion of an amount.
use shkeeper_io.Prelude.{ℕ, String, Option, none, some, List, ◌&&◌, first, str_eq, if◌then◌else◌}
use shkeeper_io.Errors.{Result, ok, ◌>>=◌, raise}
use shkeeper_io.Invoice.{
  Arithmetic, FeeCalculationPolicy, no_fee, percent_fee, fixed_fee, percent_or_minimal_fixed_fee,
  ExchangeRate,
}

-- the rate sources by name, a fiat and a coin; and the precision of a coin
pub record Market (Number : Type 0) : Type 0 where
  pub rate_of : String → String → String → Result Number
  pub precision : String → ℕ

module _ ⦃money : Arithmetic⦄ where
  abbrev pub Amount : Type 0
  Amount = money.Number

  -- `max(a, b)` and `min(a, b)`
  abbrev max_of : Amount → Amount → Amount
  max_of a b = if money.is_less a b then b else a

  abbrev min_of : Amount → Amount → Amount
  min_of a b = if money.is_less b a then b else a

  -- the exception of a division
  abbrev divided : Option Amount → Result Amount
  divided none = raise "DivisionByZero" 500
  divided (some a) = ok a

  -- `get_rate`
  unfoldable pub get_rate : Market Amount → ExchangeRate Amount → Result Amount
  get_rate market r =
      if str_eq r.source "manual" then ok r.rate else market.rate_of r.source r.fiat r.crypto

  percent_of : ExchangeRate Amount → Amount → Amount
  percent_of r amount = money.times amount (money.hundredth r.fee)

  fee_by : Option FeeCalculationPolicy → ExchangeRate Amount → Amount → Amount
  unfolding percent_of
  fee_by none r amount = percent_of r amount
  fee_by (some no_fee) r amount = money.nothing
  fee_by (some percent_fee) r amount = percent_of r amount
  fee_by (some fixed_fee) r amount = r.fixed_fee
  fee_by (some percent_or_minimal_fixed_fee) r amount = max_of (percent_of r amount) r.fixed_fee

  -- `get_fee`
  unfoldable pub get_fee : ExchangeRate Amount → Amount → Amount
  unfolding fee_by
  get_fee r amount = fee_by r.fee_policy r amount

  without_percent : ExchangeRate Amount → Amount → Result Amount
  without_percent r amount =
      divided (money.over (money.times amount money.hundred) (money.plus money.hundred r.fee))

  -- `get_orig_amount`, where the percentage is taken off first, whether or not it is used
  orig_by : Option FeeCalculationPolicy → ExchangeRate Amount → Amount → Result Amount
  unfolding without_percent
  orig_by (some no_fee) r amount = ok amount
  orig_by none r amount = without_percent r amount
  orig_by (some percent_fee) r amount = without_percent r amount
  orig_by (some fixed_fee) r amount =
      without_percent r amount >>= λ part. ok (money.minus amount r.fixed_fee)
  orig_by (some percent_or_minimal_fixed_fee) r amount =
      without_percent r amount >>= λ part. ok (min_of part (money.minus amount r.fixed_fee))

  pub get_orig_amount : ExchangeRate Amount → Amount → Result Amount
  unfolding orig_by
  get_orig_amount r amount = orig_by r.fee_policy r amount

  -- `convert`
  unfoldable pub convert : Market Amount → ExchangeRate Amount → Amount → Result (Amount × Amount)
  unfolding get_fee get_rate
  convert market r amount = do
    rate ← get_rate market r
    converted ← divided (money.over (money.plus amount (get_fee r amount)) rate)
    ok (money.round converted (market.precision r.crypto), rate)

  -- `ExchangeRate.get`
  unfoldable pub get_exchange_rate :
      List (ExchangeRate Amount) → String → String → Result (ExchangeRate Amount)
  get_exchange_rate rates fiat crypto =
      elim (first (λ (r : ExchangeRate Amount). str_eq r.fiat fiat && str_eq r.crypto crypto)
        rates) [ none ↦ raise "Exception" 500 | some r ↦ ok r ]
