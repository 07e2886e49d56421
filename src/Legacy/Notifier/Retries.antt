-- ===== src/Legacy/Notifier/Retries.antt =====
-- How often a payout's callback is sent, and how long it waits.
use Prim.Native.Nat.pow
use shkeeper_io.Prelude.{
  ℕ, zero, suc, ◌+◌, ◌*◌, ◌^◌, ◌≤◌, ◌≡◌, ap, ◌∙◌, ◌⊎◌, inl, inr, refl, Bool, true, false, Option,
  none, some, List, [], ◌∷◌, first, ltb, ◌==◌, arith, and-false, Bool-cases,
}
use shkeeper_io.Legacy.{Payout}
use shkeeper_io.Legacy.Notifier.{
  Notification, Reply, answered, request_failed, raises, Receiver, sum_of_squares, delay_total,
  after_reply, attempt_on, has_hash, send_payout_notification, counted, is_due, notify,
}

square : (n : ℕ) → n ^ 2 ≡ n * n
square n =
    pow.suc n 1
    ∙ ap (λ (k : ℕ). k * n) (pow.suc n 0 ∙ ap (λ (k : ℕ). k * n) (pow.zero n) ∙ omega arith)

sum_of_squares_closed : (n : ℕ) → 6 * sum_of_squares n ≡ n * (n + 1) * (2 * n + 1)
unfolding sum_of_squares
sum_of_squares_closed zero = refl
sum_of_squares_closed (suc n) = omega (arith, square (n + 1), sum_of_squares_closed n)

-- The wait before an attempt, which the code adds up square by square, is a sixth of
-- (r + 1)(r + 2)(2r + 3) seconds after r retries.
pub delay_total_closed : (r : ℕ) → 6 * delay_total r ≡ (r + 1) * (r + 2) * (2 * r + 3)
unfolding delay_total
delay_total_closed r = omega (arith, sum_of_squares_closed (r + 1))

-- what an attempt leaves: it was accepted, or there is one retry more
Outcome : ℕ → Notification → Type 0
Outcome r n = (n.callback_confirmed ≡ true) ⊎ (n.retries ≡ r + 1)

reply-Outcome :
    (n : Notification) (reply : Reply) → Outcome n.retries (counted n.retries (after_reply n reply))
unfolding Outcome counted after_reply
reply-Outcome n raises = inr refl
reply-Outcome n (request_failed message) = inr refl
reply-Outcome n (answered code reason) = elim (Bool-cases (code == 202)) [
  | inl p ↦ rw p (inl refl)
  | inr p ↦ rw p (inr refl)
]

payout-Outcome :
    (receiver : Receiver) (n : Notification) (o : Option Payout)
    → Outcome n.retries (counted n.retries (attempt_on receiver n o))
unfolding Outcome counted attempt_on
payout-Outcome receiver n none = inr refl
payout-Outcome receiver n (some p) = elim (Bool-cases (has_hash p.transactions)) [
  | inl h ↦ rw h (reply-Outcome n (receiver p))
  | inr h ↦ rw h (inr refl)
]

send-Outcome :
    (receiver : Receiver) (payouts : List Payout) (n : Notification)
    → Outcome n.retries (counted n.retries (send_payout_notification receiver payouts n))
unfolding send_payout_notification
send-Outcome receiver payouts n =
    payout-Outcome receiver n (first (λ (p : Payout). p.id == n.object_id) payouts)

-- one run of the notifier, as a notification sees it
pub record Pass : Type 0 where
  pub now : ℕ
  pub receiver : Receiver
  pub payouts : List Payout

abbrev pub pass_on : ℕ → Pass → Notification → Notification
pass_on max_retries pass n = notify max_retries pass.now pass.receiver pass.payouts n

abbrev one_more : Bool → ℕ → ℕ
one_more true n = n + 1
one_more false n = n

-- how often the passes try to send
unfoldable pub attempts : ℕ → List Pass → Notification → ℕ
attempts max_retries [] n = 0
attempts max_retries (pass ∷ passes) n =
    one_more (is_due max_retries pass.now n)
      (attempts max_retries passes (pass_on max_retries pass n))

not_due :
    (max_retries now : ℕ) (n : Notification)
    → n.callback_confirmed ≡ true
    → is_due max_retries now n ≡ false
unfolding is_due
not_due max_retries now n h = rw (h, and-false (ltb n.retries max_retries)) refl

due_below :
    (max_retries now : ℕ) (n : Notification)
    → is_due max_retries now n ≡ true
    → n.retries + 1 ≤ max_retries
unfolding is_due
due_below max_retries now n h = ground arith

-- a notification that was accepted is not sent again
accepted_stops :
    (max_retries : ℕ) (passes : List Pass) (n : Notification)
    → n.callback_confirmed ≡ true
    → attempts max_retries passes n ≡ 0
unfolding attempts notify
accepted_stops max_retries [] n h = refl
accepted_stops max_retries (pass ∷ passes) n h =
    rw (not_due max_retries pass.now n h) (accepted_stops max_retries passes n h)

attempt_counted :
    (more r max_retries : ℕ) (m : Notification)
    → r + 1 ≤ max_retries
    → Outcome r m
    → (m.callback_confirmed ≡ true → more ≡ 0)
    → (m.retries ≤ max_retries → more + m.retries ≤ max_retries)
    → more + 1 + r ≤ max_retries
unfolding Outcome
attempt_counted more r max_retries m b (inl c) stops goes = omega (arith, stops c)
attempt_counted more r max_retries m b (inr e) stops goes =
    omega (arith, e, goes (omega (arith, e)))

-- If the retries that a notification starts with are at most the limit, then over any number of
-- passes, with any answers, these retries and the attempts at it are together at most the limit.
pub attempts_end :
    (max_retries : ℕ) (passes : List Pass) (n : Notification)
    → n.retries ≤ max_retries
    → attempts max_retries passes n + n.retries ≤ max_retries
unfolding attempts notify
attempts_end max_retries [] n h = omega arith
attempts_end max_retries (pass ∷ passes) n h = elim (Bool-cases (is_due max_retries pass.now n)) [
  | inr p ↦ rw p (attempts_end max_retries passes n h)
  | inl p ↦ rw p (
      attempt_counted
        (attempts max_retries passes
          (counted n.retries (send_payout_notification pass.receiver pass.payouts n)))
        n.retries max_retries
        (counted n.retries (send_payout_notification pass.receiver pass.payouts n))
        (due_below max_retries pass.now n p) (send-Outcome pass.receiver pass.payouts n)
        (accepted_stops max_retries passes _) (attempts_end max_retries passes _))
]
