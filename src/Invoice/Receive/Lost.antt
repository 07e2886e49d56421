-- ===== src/Invoice/Receive/Lost.antt =====
-- Outputs that are notified again.
use shkeeper_io.Prelude.{
  ℕ, ◌≡◌, inl, inr, refl, Bool, true, false, ◌&&◌, ◌||◌, Option, none, some, List, [], ◌∷◌, ◌++◌,
  any, ◌==◌, ==-refl, str_eq, eq_refl, Bool-cases, leb,
}
use mathlib.Core.Path.{subst}
use shkeeper_io.Errors.{Error, Result, ok, err}
use shkeeper_io.Invoice.{Arithmetic}
use shkeeper_io.Invoice.Receive.{
  Output, Shop, Bill, Tx, Tables, Step, Added, added, add_transaction, related, rated, inserted,
  new_transaction, find_invoice, rate_for, update_with_tx, after_update, after_add, receive,
  process_existing,
}

module _ ⦃money : Arithmetic⦄ where
  -- the output's transaction is in the table, for this invoice
  abbrev pub is_recorded : Output money.Number → Bill → List Tx → Bool
  is_recorded out invoice transactions =
      any
        (λ (u : Tx).
          str_eq out.crypto u.crypto && str_eq out.txid u.txid && invoice.id == u.invoice_id)
        transactions

  Unpaid : Tables → Step → Type 0
  Unpaid books (after, r) = after.invoices ≡ books.invoices

  existing-Unpaid :
      (shop : Shop) (out : Output money.Number) (books : Tables)
      → (process_existing shop out books).invoices ≡ books.invoices
  unfolding process_existing
  existing-Unpaid shop out books =
      elim (Bool-cases (leb (shop.wallet out.crypto).confirmations out.confirmations)) [
        | inl e ↦ rw e refl
        | inr e ↦ rw e refl
      ]

  rated-Unpaid :
      (shop : Shop) (now : ℕ) (books : Tables) (invoice : Bill) (out : Output money.Number)
      (r : Result money.Number)
      → is_recorded out invoice books.transactions ≡ true
      → Unpaid books (after_add shop now books out (rated shop books.transactions invoice out r))
  unfolding rated inserted new_transaction after_add Unpaid
  rated-Unpaid shop now books invoice out (err e) h = refl
  rated-Unpaid shop now books invoice out (ok rate) h = rw h (existing-Unpaid shop out books)

  -- An output whose transaction is in the table for its invoice changes no invoice, at any time, at
  -- any rate and with any number of confirmations: no deposit is credited twice.
  pub recorded_output_unpaid :
      (shop : Shop) (now : ℕ) (out : Output money.Number) (books : Tables) (invoice : Bill)
      → find_invoice books out.crypto out.addr ≡ some invoice
      → is_recorded out invoice books.transactions ≡ true
      → (receive shop now out books).0.invoices ≡ books.invoices
  unfolding receive add_transaction related Unpaid
  recorded_output_unpaid shop now out books invoice f h =
      rw f (rated-Unpaid shop now books invoice out (rate_for shop invoice out.crypto) h)

  is_recorded-append :
      (out : Output money.Number) (invoice : Bill) (ts : List Tx) (t : Tx)
      → t.crypto ≡ out.crypto
      → t.txid ≡ out.txid
      → t.invoice_id ≡ invoice.id
      → is_recorded out invoice (ts ++ t ∷ []) ≡ true
  is_recorded-append out invoice [] t c x i =
      rw (c, x, i, eq_refl out.crypto, eq_refl out.txid, ==-refl invoice.id) refl
  is_recorded-append out invoice (u ∷ ts) t c x i =
      rw (is_recorded-append out invoice ts t c x i) (or_true _)
    where
      or_true : (b : Bool) → (b || true) ≡ true
      or_true true = refl
      or_true false = refl

  -- what `Transaction.add` says of a row that it added
  Describes : Tables → Output money.Number → Added → Type 0
  Describes books out (added invoice t) =
      (find_invoice books out.crypto out.addr ≡ some invoice)
      × (t.crypto ≡ out.crypto)
      × (t.txid ≡ out.txid)
      × (t.invoice_id ≡ invoice.id)
  Describes books out a = Unit

  rated-Describes :
      (shop : Shop) (books : Tables) (invoice : Bill) (out : Output money.Number)
      (r : Result money.Number)
      → find_invoice books out.crypto out.addr ≡ some invoice
      → Describes books out (rated shop books.transactions invoice out r)
  unfolding rated inserted new_transaction Describes
  rated-Describes shop books invoice out (err e) f = tt
  rated-Describes shop books invoice out (ok rate) f =
      elim (Bool-cases (is_recorded out invoice books.transactions)) [
        | inl h ↦ rw h tt
        | inr h ↦ rw h (f, refl, refl, refl)
      ]

  related-Describes :
      (shop : Shop) (books : Tables) (out : Output money.Number) (o : Option Bill)
      → find_invoice books out.crypto out.addr ≡ o
      → Describes books out (related shop books out o)
  unfolding related Describes
  related-Describes shop books out none f = tt
  related-Describes shop books out (some invoice) f =
      rated-Describes shop books invoice out (rate_for shop invoice out.crypto) f

  find_invoice_kept :
      (books : Tables) (t : Tx) (out : Output money.Number) {invoice : Bill}
      → find_invoice books out.crypto out.addr ≡ some invoice
      → find_invoice
          (record books { transactions = books.transactions ++ t ∷ [] })
          out.crypto
          out.addr
        ≡ some invoice
  unfolding find_invoice
  find_invoice_kept books t out f = f

  -- Where the update of the invoice raises after the transaction is committed, the deposit is lost to
  -- its invoice: when the same output is notified again, at any time, with any settings and any
  -- number of confirmations, no balance changes.
  pub lost_credit :
      (shop later : Shop) (now then_now confirmations : ℕ) (out : Output money.Number)
      (books : Tables) (invoice : Bill) (t : Tx) (e : Error)
      → add_transaction shop books out ≡ added invoice t
      → update_with_tx shop now invoice t ≡ err e
      → (receive later then_now
          (record out { confirmations = confirmations })
          (receive shop now out books).0).0.invoices
        ≡ books.invoices
  unfolding receive after_add after_update Describes add_transaction
  lost_credit shop later now then_now confirmations out books invoice t e a u =
      let (f, c, x, i) =
        subst (Describes books out) a
          (related-Describes shop books out (find_invoice books out.crypto out.addr) refl) in
      rw (a, u)
        (recorded_output_unpaid later then_now (record out { confirmations = confirmations })
          (record books { transactions = books.transactions ++ t ∷ [] }) invoice
          (find_invoice_kept books t out f)
          (is_recorded-append out invoice books.transactions t c x i))
