-- ===== src/Payout/Outbox/Attempt.antt =====
-- What one delivery attempt leaves of an event.
use shkeeper_io.Prelude.{
  ℕ, zero, suc, ◌+◌, ◌-◌, ◌*◌, ◌^◌, ◌≤◌, ◌≡◌, refl, inl, inr, ◌⊎◌, String, some, arith, Bool-cases,
  leb, leb→le, if◌then◌else◌,
}
use shkeeper_io.Errors.{Result, ok, err}
use shkeeper_io.Context.{Context, seconds}
use shkeeper_io.Payout.Row.{Event, delivered, failed, retry}
use shkeeper_io.Payout.Outbox.{
  claimed, deliver_event, attempt, delivery_outcome, failed_delivery, successful_delivery,
  signed_with, delay_after, next_attempt_at, is_success, refreshed_metadata,
}

power-pos : (n : ℕ) → 1 ≤ 2 ^ n
power-pos zero = omega arith
power-pos (suc n) = omega (arith, power-pos n)

delay-bounds : (n : ℕ) → (60 ≤ delay_after n) × (delay_after n ≤ 3600)
unfolding delay_after
delay-bounds n = elim (Bool-cases (leb (60 * 2 ^ (n - 1)) 3600)) [
  | inl p ↦ rw p (omega (arith, power-pos (n - 1)), leb→le (60 * 2 ^ (n - 1)) 3600 p)
  | inr p ↦ rw p (omega arith, omega arith)
]

-- a retry, or the end of the retries, and a time for the next attempt that is between one minute
-- and one hour away
pub record IsPutOff (now max_attempts attempts : ℕ) (r : Event) : Type 0 where
  pub status : r.dispatch_status ≡ (if leb max_attempts attempts then failed else retry)
  pub at_time : ℕ
  pub next_attempt : r.next_attempt_at ≡ some at_time
  pub not_sooner : now + seconds 60 ≤ at_time
  pub not_later : at_time ≤ now + seconds 3600

-- The attempt is counted and the event keeps its place; it is delivered or put off.
pub record IsAttempted (now max_attempts : ℕ) (e r : Event) : Type 0 where
  pub execution_id : r.execution_id ≡ e.execution_id
  pub event_version : r.event_version ≡ e.event_version
  pub counted : r.attempt_count ≡ e.attempt_count + 1
  pub outcome : (r.dispatch_status ≡ delivered) ⊎ IsPutOff now max_attempts (e.attempt_count + 1) r

module _ (now max_attempts : ℕ) (e : Event) where
  failed-IsAttempted :
      (message : String) (c : Event)
      → c.execution_id ≡ e.execution_id
      → c.event_version ≡ e.event_version
      → c.attempt_count ≡ e.attempt_count + 1
      → IsAttempted now max_attempts e (failed_delivery now max_attempts message c)
  unfolding failed_delivery next_attempt_at
  failed-IsAttempted message c i v a = record {
    execution_id = i;
    event_version = v;
    counted = a;
    outcome = inr (record {
      status = rw a refl;
      at_time = now + seconds (delay_after c.attempt_count);
      next_attempt = refl;
      not_sooner = omega (arith, (delay-bounds c.attempt_count).0);
      not_later = omega (arith, (delay-bounds c.attempt_count).1);
    });
  }

  outcome-IsAttempted :
      (response : Result ℕ) (c : Event)
      → c.execution_id ≡ e.execution_id
      → c.event_version ≡ e.event_version
      → c.attempt_count ≡ e.attempt_count + 1
      → IsAttempted now max_attempts e (delivery_outcome now max_attempts response c)
  unfolding delivery_outcome successful_delivery
  outcome-IsAttempted (err x) c i v a = failed-IsAttempted x.code c i v a
  outcome-IsAttempted (ok code) c i v a = elim (Bool-cases (is_success code)) [
    | inl p ↦ rw p (record { execution_id = i; event_version = v; counted = a; outcome = inl refl })
    | inr p ↦ rw p (failed-IsAttempted _ c i v a)
  ]

  module _ ⦃ctx : Context⦄ (deliver : Event → Result ℕ) where
    attempt-IsAttempted :
        (timestamp : ℕ) (metadata : Result (String × String × String))
        → IsAttempted now max_attempts e
            (attempt timestamp now max_attempts deliver metadata (claimed now e))
    unfolding attempt signed_with claimed
    attempt-IsAttempted timestamp (err x) = failed-IsAttempted x.code _ refl refl refl
    attempt-IsAttempted timestamp (ok (key_id, base, signature)) =
        outcome-IsAttempted _ _ refl refl refl

    -- Whatever the endpoint answers, and also when the event cannot be signed, an attempt counts the
    -- attempt and leaves the event delivered, or to be retried or given up at `max_attempts`, with a
    -- next time from one minute to one hour away. It never leaves it claimed.
    pub deliver_event-IsAttempted :
        IsAttempted now max_attempts e (deliver_event now max_attempts deliver (claimed now e))
    unfolding deliver_event
    deliver_event-IsAttempted = attempt-IsAttempted _ (refreshed_metadata _ (claimed now e))
