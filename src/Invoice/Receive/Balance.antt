-- ===== src/Invoice/Receive/Balance.antt =====
-- The balance of an invoice is the sum of its transactions.
use shkeeper_io.Prelude.{
  ℕ, ◌≡◌, inl, inr, refl, sym, ap, ◌∙◌, Bool, true, false, ◌&&◌, Option, none, some, List, [], ◌∷◌,
  ◌++◌, All, any, first, map, ◌==◌, ==-refl, str_eq, arith, Bool-cases, leb, if◌then◌else◌,
}
use mathlib.Core.Path.{subst}
use shkeeper_io.Errors.{Result, ok, err}
use shkeeper_io.Invoice.{Arithmetic, InvoiceAddress}
use shkeeper_io.Invoice.Receive.{
  Output, Shop, Bill, Tx, Tables, Step, Added, added, duplicate, unrelated, rate_failed,
  add_transaction, related, rated, inserted, new_transaction, find_invoice, by_id, by_own_address,
  rate_for, same_transaction, recalculate, needs_recalculation, present_amount, at_rate, settled,
  credit, credited, update_with_tx, replace, committed, after_update, after_add, receive,
  process_existing, confirm_first, is_candidate,
}

All-first :
    {A : Type 0} (Q : A → Type 0) (p : A → Bool) (xs : List A) {x : A}
    → All Q xs
    → first p xs ≡ some x
    → Q x
All-first Q p [] a h = absurd (cc)
All-first {A = A} Q p (y ∷ ys) (q, qs) h = elim (Bool-cases (p y)) [
  | inl e ↦ subst Q (some_inj (rw e at h)) q
  | inr e ↦ All-first Q p ys qs (rw e at h)
]
  where
    some_inj : {a b : A} → ◌≡◌ {A = Option A} (some a) (some b) → a ≡ b
    some_inj h = cc

module _ ⦃money : Arithmetic⦄ where
  -- a sum with a transaction, where it is the invoice's
  abbrev pub counted : ℕ → money.Number → Tx → money.Number
  counted id sum t = if t.invoice_id == id then money.plus sum t.amount_fiat else sum

  -- the sum of an invoice's transactions, added up in their order
  unfoldable pub total : ℕ → List Tx → money.Number → money.Number
  total id [] sum = sum
  total id (t ∷ ts) sum = total id ts (counted id sum t)

  abbrev pub IsPaidUp : List Tx → Bill → Type 0
  IsPaidUp ts i = i.balance_fiat ≡ total i.id ts money.nothing

  -- the balance of each invoice is the sum of its transactions
  unfoldable pub Balanced : Tables → Type 0
  Balanced books = All (IsPaidUp books.transactions) books.invoices

  total-append :
      (id : ℕ) (ts : List Tx) (t : Tx) (sum : money.Number)
      → total id (ts ++ t ∷ []) sum ≡ counted id (total id ts sum) t
  unfolding total
  total-append id [] t sum = refl
  total-append id (u ∷ ts) t sum = total-append id ts t (counted id sum u)

  -- the flags that a repeated notification clears do not count
  total-confirm_first :
      (id : ℕ) (p : Tx → Bool) (ts : List Tx) (sum : money.Number)
      → total id (confirm_first p ts) sum ≡ total id ts sum
  unfolding total confirm_first
  total-confirm_first id p [] sum = refl
  total-confirm_first id p (t ∷ ts) sum = elim (Bool-cases (p t)) [
    | inl e ↦ rw e refl
    | inr e ↦ rw e (total-confirm_first id p ts (counted id sum t))
  ]

  process_existing-Balanced :
      (shop : Shop) (out : Output money.Number) (books : Tables)
      → Balanced books
      → Balanced (process_existing shop out books)
  unfolding process_existing Balanced
  process_existing-Balanced shop out books b =
      elim (Bool-cases (leb (shop.wallet out.crypto).confirmations out.confirmations)) [
        | inl e ↦ rw e (each books.invoices b)
        | inr e ↦ rw e b
      ]
    where
      each :
          (is : List Bill)
          → All (IsPaidUp books.transactions) is
          → All (IsPaidUp (confirm_first (is_candidate books out) books.transactions)) is
      each [] b = tt
      each (i ∷ is) (h, hs) = (
        h
            ∙ sym (
                total-confirm_first i.id (is_candidate books out) books.transactions money.nothing),
        each is hs,
      )

  -- what an update leaves of the invoice and the transaction
  record IsCredited (invoice : Bill) (t : Tx) (after : Bill) (u : Tx) : Type 0 where
    pub id : after.id ≡ invoice.id
    pub invoice_id : u.invoice_id ≡ t.invoice_id
    pub balance : after.balance_fiat ≡ money.plus invoice.balance_fiat u.amount_fiat

  Credits : Bill → Tx → Result (Bill × Tx) → Type 0
  Credits invoice t (ok (after, u)) = IsCredited invoice t after u
  Credits invoice t (err e) = Unit

  at_rate-Credits :
      (shop : Shop) (invoice : Bill) (t : Tx) (r : Result (money.Number × money.Number))
      → Credits invoice t (settled shop (at_rate invoice t r))
  unfolding Credits settled at_rate credited credit
  at_rate-Credits shop invoice t (err e) = tt
  at_rate-Credits shop invoice t (ok (amount, rate)) = record {
    id = refl;
    invoice_id = refl;
    balance = refl;
  }

  either-Credits :
      (shop : Shop) (invoice : Bill) (t : Tx) (b : Bool) (x y : Result (Bill × Tx))
      → Credits invoice t (settled shop x)
      → Credits invoice t (settled shop y)
      → Credits invoice t (settled shop (if b then x else y))
  either-Credits shop invoice t true x y p q = p
  either-Credits shop invoice t false x y p q = q

  update-Credits :
      (shop : Shop) (now : ℕ) (invoice : Bill) (t : Tx)
      → Credits invoice t (update_with_tx shop now invoice t)
  unfolding update_with_tx recalculate Credits settled credited credit
  update-Credits shop now invoice t =
      either-Credits shop invoice t (needs_recalculation shop now invoice)
        (at_rate invoice t (present_amount shop invoice)) (ok (invoice, t))
        (at_rate-Credits shop invoice t (present_amount shop invoice))
        (record { id = refl; invoice_id = refl; balance = refl })

  committed-Balanced :
      (books : Tables) (invoice after : Bill) (t u : Tx)
      → t.invoice_id ≡ invoice.id
      → IsPaidUp books.transactions invoice
      → IsCredited invoice t after u
      → Balanced books
      → Balanced (committed books after u)
  unfolding committed Balanced replace
  committed-Balanced books invoice after t u own paid_up w b = each books.invoices b
    where
      appended : List Tx
      appended = books.transactions ++ u ∷ []

      mine : u.invoice_id ≡ after.id
      mine = w.invoice_id ∙ own ∙ sym w.id

      row :
          (i : Bill) (same : Bool)
          → (i.id == after.id) ≡ same
          → IsPaidUp books.transactions i
          → IsPaidUp appended (if same then after else i)
      row i true e h =
          rw (total-append after.id books.transactions u money.nothing, mine, ==-refl after.id)
            (w.balance
              ∙ ap (λ (n : money.Number). money.plus n u.amount_fiat)
                  (paid_up ∙ ap (λ (k : ℕ). total k books.transactions money.nothing) (sym w.id)))
      row i false e h = rw (total-append i.id books.transactions u money.nothing, mine, other) h
        where
          other : (after.id == i.id) ≡ false
          other = ground arith

      each :
          (is : List Bill)
          → All (IsPaidUp books.transactions) is
          → All (IsPaidUp appended) (map (replace after) is)
      each [] b = tt
      each (i ∷ is) (h, hs) = (row i (i.id == after.id) refl h, each is hs)

  -- the tables are balanced where the step raised nothing
  Keeps : Step → Type 0
  Keeps (books, ok u) = Balanced books
  Keeps (books, err e) = Unit

  after_update-Keeps :
      (books : Tables) (invoice : Bill) (t : Tx) (r : Result (Bill × Tx))
      → t.invoice_id ≡ invoice.id
      → IsPaidUp books.transactions invoice
      → Credits invoice t r
      → Balanced books
      → Keeps (after_update books t r)
  unfolding after_update Keeps Credits
  after_update-Keeps books invoice t (err e) own paid_up w b = tt
  after_update-Keeps books invoice t (ok (after, u)) own paid_up w b =
      committed-Balanced books invoice after t u own paid_up w b

  -- a row that was added belongs to an invoice of the table
  Belongs : Tables → Added → Type 0
  Belongs books (added invoice t) =
      (t.invoice_id ≡ invoice.id) × IsPaidUp books.transactions invoice
  Belongs books a = Unit

  rated-Belongs :
      (shop : Shop) (books : Tables) (invoice : Bill) (out : Output money.Number)
      (r : Result money.Number)
      → IsPaidUp books.transactions invoice
      → Belongs books (rated shop books.transactions invoice out r)
  unfolding rated inserted new_transaction Belongs
  rated-Belongs shop books invoice out (err e) paid_up = tt
  rated-Belongs shop books invoice out (ok rate) paid_up =
      elim (Bool-cases
        (any (same_transaction (new_transaction shop invoice out rate)) books.transactions)) [
          | inl h ↦ rw h tt
          | inr h ↦ rw h (refl, paid_up)
        ]

  related-Belongs :
      (shop : Shop) (books : Tables) (out : Output money.Number) (o : Option Bill)
      → find_invoice books out.crypto out.addr ≡ o
      → Balanced books
      → Belongs books (related shop books out o)
  unfolding related Belongs find_invoice by_id by_own_address Balanced
  related-Belongs shop books out none e b = tt
  related-Belongs shop books out (some invoice) e b =
      rated-Belongs shop books invoice out (rate_for shop invoice out.crypto) (
        known
          (first (λ (a : InvoiceAddress). str_eq a.crypto out.crypto && str_eq a.addr out.addr)
            books.addresses)
          e)
    where
      known :
          (a : Option InvoiceAddress)
          → elim a as (λ x. Option Bill) [
            | none ↦ by_own_address out.crypto out.addr books.invoices
            | some a ↦ by_id a.invoice_id books.invoices
          ]
            ≡ some invoice
          → IsPaidUp books.transactions invoice
      known none h = All-first (IsPaidUp books.transactions) _ books.invoices b h
      known (some a) h = All-first (IsPaidUp books.transactions) _ books.invoices b h

  after_add-Keeps :
      (shop : Shop) (now : ℕ) (books : Tables) (out : Output money.Number) (a : Added)
      → Belongs books a
      → Balanced books
      → Keeps (after_add shop now books out a)
  unfolding after_add Keeps Belongs
  after_add-Keeps shop now books out (added invoice t) (own, paid_up) b =
      after_update-Keeps books invoice t (update_with_tx shop now invoice t) own paid_up
        (update-Credits shop now invoice t) b
  after_add-Keeps shop now books out duplicate w b = process_existing-Balanced shop out books b
  after_add-Keeps shop now books out unrelated w b = tt
  after_add-Keeps shop now books out rate_failed w b = tt

  -- A received output that is processed without an exception, new or repeated, keeps the balance of
  -- each invoice the sum of its transactions.
  pub receive-Balanced :
      (shop : Shop) (now : ℕ) (out : Output money.Number) (books after : Tables)
      → Balanced books
      → receive shop now out books ≡ (after, ok tt)
      → Balanced after
  unfolding receive add_transaction Keeps
  receive-Balanced shop now out books after b h = subst Keeps h (
      after_add-Keeps shop now books out (add_transaction shop books out)
        (related-Belongs shop books out (find_invoice books out.crypto out.addr) refl b) b)
