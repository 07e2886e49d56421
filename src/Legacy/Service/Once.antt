-- ===== src/Legacy/Service/Once.antt =====
-- How often the driver is asked to pay for one external id.
use shkeeper_io.Prelude.{
  ℕ, ◌≡◌, ◌⊎◌, inl, inr, refl, Bool, true, false, not, ◌&&◌, String, Option, none, some, List, [],
  ◌∷◌, any, eq_refl, arith, Bool-cases, if◌then◌else◌,
}
use shkeeper_io.Prelude.Json.{Value, null, Fields, get, truthy}
use shkeeper_io.Errors.{Error, Result, ok, err}
use shkeeper_io.Context.{Context}
use shkeeper_io.Payout.Rail.{Rail}
use shkeeper_io.Legacy.{Payout}
use shkeeper_io.Legacy.Service.{
  Reply, returned, raised, Driver, Spender, Outcome, refused, extract_task_id, extract_direct_txids,
  is_direct_payout_response, same_external_id, normalize_external_id, mark_payout_failed,
  settled_row, settle_reserved, after_reserved, reserve, pay, after_direct, direct_answer,
  new_payout, single_payout, admit, Order, error_of, is_empty, unknown_enqueue, add_payout_txids,
}

pub any_cons :
    (p : Payout → Bool) (q : Payout) (rows : List Payout)
    → any p rows ≡ true
    → any p (q ∷ rows) ≡ true
any_cons p q rows h = ground arith

any_head :
    (p : Payout → Bool) (q : Payout) (rows : List Payout) → p q ≡ true → any p (q ∷ rows) ≡ true
any_head p q rows h = rw h refl

module _ ⦃ctx : Context⦄ where
  module _ (crypto external_id : String) where
    abbrev same : Payout → Bool
    same = same_external_id crypto external_id

    -- the table gained one row, of this coin and external id
    abbrev Enters : List Payout → Outcome → Type 0
    Enters stored o = (q : Payout) × (same q ≡ true) × (o.payouts ≡ q ∷ stored)

    either-Enters :
        (stored : List Payout) (b : Bool) (x y : Outcome)
        → Enters stored x
        → Enters stored y
        → Enters stored (if b then x else y)
    either-Enters stored true x y p q = p
    either-Enters stored false x y p q = q

    settled_row-same :
        (p : Payout) (res : Value) (txids : List Value)
        → same p ≡ true
        → same (settled_row p res txids) ≡ true
    unfolding settled_row mark_payout_failed
    settled_row-same p res txids h = either (truthy (error_of res) && is_empty txids)
      where
        either :
            (b : Bool)
            → same (
                if b
                then mark_payout_failed
                    (error_of res)
                    (record p { transactions = add_payout_txids p.transactions txids })
                else record p {
                  transactions = add_payout_txids p.transactions txids;
                  error = none;
                })
              ≡ true
        either true = h
        either false = h

    settle_reserved-Enters :
        (e : String) (p : Payout) (stored : List Payout) (res : Value) (r : Result (List Value))
        → same p ≡ true
        → Enters stored (settle_reserved e p stored res r)
    unfolding settle_reserved
    settle_reserved-Enters e p stored res (err x) h = (p, h, refl)
    settle_reserved-Enters e p stored res (ok txids) h =
        (settled_row p res txids, settled_row-same p res txids h, refl)

    after_reserved-Enters :
        (e : String) (p : Payout) (stored : List Payout) (r : Reply)
        → same p ≡ true
        → Enters stored (after_reserved e p stored r)
    unfolding after_reserved unknown_enqueue mark_payout_failed
    after_reserved-Enters e p stored (raised message) h = (unknown_enqueue message p, h, refl)
    after_reserved-Enters e p stored (returned res) h =
        either-Enters stored (truthy (extract_task_id res)) _ _
          (record p { task_id = extract_task_id res; error = none }, h, refl)
          (either-Enters stored (is_direct_payout_response res) _ _
            (settle_reserved-Enters e p stored res (extract_direct_txids res) h)
            (mark_payout_failed res p, h, refl))

    -- the driver is asked only where the table had no such row, and has one after it
    pub record IsOnce (stored : List Payout) (o : Outcome) : Type 0 where
      pub fresh : o.asked ≡ true → any same stored ≡ false
      pub entered : o.asked ≡ true → any same o.payouts ≡ true

    refused-IsOnce : (stored : List Payout) (e : Error) → IsOnce stored (refused stored e)
    refused-IsOnce stored e = record { fresh = λ h. absurd (cc); entered = λ h. absurd (cc) }

    reserve-IsOnce :
        (driver : Driver) (p : Payout) (order : Order) (stored : List Payout)
        → p.crypto ≡ crypto
        → p.external_id ≡ some external_id
        → IsOnce stored (reserve driver external_id p order stored)
    unfolding reserve
    reserve-IsOnce driver p (destination, amount, fee) stored c e =
        elim (Bool-cases (any (same_external_id p.crypto external_id) stored)) [
          | inl t ↦ rw t (refused-IsOnce stored _)
          | inr t ↦ rw t (
              entered
                (after_reserved-Enters external_id _ stored (driver.mkpayout destination amount fee)
                  own)
                (rw c at t))
        ]
      where
        own : same (record p { error = some "Payout enqueue pending" }) ≡ true
        own = rw (c, e, eq_refl crypto, eq_refl external_id) refl

        entered : {o : Outcome} → Enters stored o → any same stored ≡ false → IsOnce stored o
        entered (q, s, g) t = record {
          fresh = λ h. t;
          entered = λ h. rw g (any_head same q stored s);
        }

    pay-IsOnce :
        (id now : ℕ) (driver : Driver) (req : Fields) (stored : List Payout) (r : Result Order)
        → IsOnce stored (pay id now driver crypto req (some external_id) stored r)
    unfolding pay new_payout
    pay-IsOnce id now driver req stored (err e) = refused-IsOnce stored e
    pay-IsOnce id now driver req stored (ok order) =
        reserve-IsOnce driver (new_payout id now crypto req order (some external_id) null []) order
          stored refl refl

    pub single_payout-IsOnce :
        (id now : ℕ) (driver : Option Driver) (spender : Spender) (rails : List Rail) (req : Fields)
        (table stored : List Payout)
        → normalize_external_id (get "external_id" req) ≡ some external_id
        → IsOnce stored (single_payout id now driver spender rails crypto req table stored)
    unfolding single_payout
    single_payout-IsOnce id now none spender rails req table stored h = refused-IsOnce stored _
    single_payout-IsOnce id now (some driver) spender rails req table stored h =
        rw h (pay-IsOnce id now driver req stored (admit driver spender rails crypto req table))

  -- a table that is as it was, or has one row more
  abbrev pub Grows : List Payout → Outcome → Type 0
  Grows stored o = (o.payouts ≡ stored) ⊎ ((q : Payout) × (o.payouts ≡ q ∷ stored))

  either-Grows :
      (stored : List Payout) (b : Bool) (x y : Outcome)
      → Grows stored x
      → Grows stored y
      → Grows stored (if b then x else y)
  either-Grows stored true x y p q = p
  either-Grows stored false x y p q = q

  direct_answer-Grows :
      (row : List Value → Payout) (stored : List Payout) (res : Value) (r : Result (List Value))
      → Grows stored (direct_answer row stored res r)
  unfolding direct_answer
  direct_answer-Grows row stored res (err e) = inl refl
  direct_answer-Grows row stored res (ok txids) =
      either-Grows stored
        (not (truthy (extract_task_id res)) && not (is_direct_payout_response res)) _ _ (inl refl)
        (inr (_, refl))

  after_direct-Grows :
      (row : Value → List Value → Payout) (stored : List Payout) (r : Reply)
      → Grows stored (after_direct row stored r)
  unfolding after_direct
  after_direct-Grows row stored (raised message) = inl refl
  after_direct-Grows row stored (returned res) =
      direct_answer-Grows (row (extract_task_id res)) stored res (extract_direct_txids res)

  settle_reserved-Grows :
      (e : String) (p : Payout) (stored : List Payout) (res : Value) (r : Result (List Value))
      → Grows stored (settle_reserved e p stored res r)
  unfolding settle_reserved
  settle_reserved-Grows e p stored res (err x) = inr (p, refl)
  settle_reserved-Grows e p stored res (ok txids) = inr (settled_row p res txids, refl)

  after_reserved-Grows :
      (e : String) (p : Payout) (stored : List Payout) (r : Reply)
      → Grows stored (after_reserved e p stored r)
  unfolding after_reserved
  after_reserved-Grows e p stored (raised message) = inr (_, refl)
  after_reserved-Grows e p stored (returned res) =
      either-Grows stored (truthy (extract_task_id res)) _ _ (inr (_, refl)) (
        either-Grows stored (is_direct_payout_response res) _ _
          (settle_reserved-Grows e p stored res (extract_direct_txids res)) (inr (_, refl)))

  reserve-Grows :
      (driver : Driver) (e : String) (p : Payout) (order : Order) (stored : List Payout)
      → Grows stored (reserve driver e p order stored)
  unfolding reserve
  reserve-Grows driver e p (destination, amount, fee) stored =
      either-Grows stored (any (same_external_id p.crypto e) stored) _ _ (inl refl)
        (after_reserved-Grows e _ stored (driver.mkpayout destination amount fee))

  pay-Grows :
      (id now : ℕ) (driver : Driver) (crypto : String) (req : Fields) (o : Option String)
      (stored : List Payout) (r : Result Order)
      → Grows stored (pay id now driver crypto req o stored r)
  unfolding pay
  pay-Grows id now driver crypto req o stored (err e) = inl refl
  pay-Grows id now driver crypto req none stored (ok (destination, amount, fee)) =
      after_direct-Grows _ stored (driver.mkpayout destination amount fee)
  pay-Grows id now driver crypto req (some e) stored (ok order) =
      reserve-Grows driver e _ order stored

  pub single_payout-Grows :
      (id now : ℕ) (driver : Option Driver) (spender : Spender) (rails : List Rail)
      (crypto : String) (req : Fields) (table stored : List Payout)
      → Grows stored (single_payout id now driver spender rails crypto req table stored)
  unfolding single_payout
  single_payout-Grows id now none spender rails crypto req table stored = inl refl
  single_payout-Grows id now (some driver) spender rails crypto req table stored =
      pay-Grows id now driver crypto req (normalize_external_id (get "external_id" req)) stored
        (admit driver spender rails crypto req table)
