-- ===== src/Payout/Outbox/Order.antt =====
-- The order of the deliveries of an execution's events (`dispatch_due_events`).
use shkeeper_io.Prelude.{
  ℕ, ◌≡◌, refl, sym, ◌∙◌, Bool, true, false, not, ◌&&◌, ◌||◌, inl, inr, String, List, [], ◌∷◌, map,
  Memᴰ, all, arith, all-at, all-intro, any-false-at, Mem-map, Bool-cases, str_eq,
}
use shkeeper_io.Errors.{Result}
use shkeeper_io.Context.{Context}
use shkeeper_io.Payout.Row.{Event, DispatchStatus, pending}
use shkeeper_io.Payout.Outbox.Attempt.{deliver_event-IsAttempted}
use shkeeper_io.Payout.Outbox.{
  is_active, due_filter, precedes, has_undelivered_predecessor, dispatch_event_row, dispatch_event,
  dispatch_ids, due_ids, dispatch_due_events,
}

-- a delivery of it was attempted
abbrev pub is_started : DispatchStatus → Bool
is_started pending = false
is_started _ = true

abbrev in_place : Event → Event → Bool
in_place p e = not (precedes p e) || not (is_active p.dispatch_status)

-- each event whose delivery was attempted has only delivered or given-up events before it
unfoldable pub in_order : List Event → Bool
in_order table =
    all (λ e. not (is_started e.dispatch_status) || all (λ p. in_place p e) table) table

-- `new` is `e` with its place kept: unchanged, or active and with no active event before it
data Step (table : List Event) (e : Event) : Event → Type 0 where
  same : Step table e e
  changed :
      (new : Event)
      → new.execution_id ≡ e.execution_id
      → new.event_version ≡ e.event_version
      → is_active e.dispatch_status ≡ true
      → has_undelivered_predecessor table e ≡ false
      → Step table e new

Step-precedes :
    {table : List Event} {p q e f : Event}
    → Step table p q
    → Step table e f
    → precedes q f ≡ precedes p e
Step-precedes same same = refl
Step-precedes same (changed f i v a h) = rw (i, v) refl
Step-precedes (changed q i v a h) same = rw (i, v) refl
Step-precedes (changed q i v a h) (changed f j w b g) = rw (i, v, j, w) refl

apply-implies : (a b : Bool) → (not a || b) ≡ true → a ≡ true → b ≡ true
apply-implies true b h p = h
apply-implies false b h p = cc

implies-intro : (a b : Bool) → (a ≡ true → b ≡ true) → (not a || b) ≡ true
implies-intro true b h = h refl
implies-intro false b h = refl

not-both : (a b : Bool) → (a && b) ≡ false → a ≡ true → not b ≡ true
not-both true true h p = cc
not-both true false h p = refl
not-both false b h p = cc

module _ (table : List Event) where
  started-settled :
      (e p : Event)
      → in_order table ≡ true
      → Memᴰ e table
      → Memᴰ p table
      → is_started e.dispatch_status ≡ true
      → precedes p e ≡ true
      → not (is_active p.dispatch_status) ≡ true
  unfolding in_order
  started-settled e p o me mp s = apply-implies (precedes p e) (not (is_active p.dispatch_status)) (
      all-at (λ x. in_place x e) table
        (apply-implies (is_started e.dispatch_status) (all (λ x. in_place x e) table)
          (all-at _ table o me) s)
        mp)

  -- before an event that is started after the step, all were settled before the step
  were-settled :
      {p e f : Event}
      → Step table e f
      → in_order table ≡ true
      → Memᴰ e table
      → Memᴰ p table
      → is_started f.dispatch_status ≡ true
      → precedes p e ≡ true
      → not (is_active p.dispatch_status) ≡ true
  unfolding has_undelivered_predecessor
  were-settled {p} {e} same o me mp s h = started-settled e p o me mp s h
  were-settled {p} {e} (changed f i v a g) o me mp s h =
      not-both (precedes p e) (is_active p.dispatch_status) (any-false-at _ table g mp) h

  stay-settled :
      {p q : Event}
      → Step table p q
      → not (is_active p.dispatch_status) ≡ true
      → not (is_active q.dispatch_status) ≡ true
  stay-settled same h = h
  stay-settled (changed q i v a g) h = cc

  module _ (f : Event → Event) (step : (e : Event) → Step table e (f e))
      (o : in_order table ≡ true) where
    placed :
        (e p : Event)
        → Memᴰ e table
        → Memᴰ p table
        → is_started (f e).dispatch_status ≡ true
        → in_place (f p) (f e) ≡ true
    placed e p me mp s =
        implies-intro (precedes (f p) (f e)) (not (is_active (f p).dispatch_status)) (λ h.
          stay-settled (step p)
            (were-settled (step e) o me mp s (sym (Step-precedes (step p) (step e)) ∙ h)))

    step-in_order : in_order (map f table) ≡ true
    unfolding in_order
    step-in_order = all-intro _ (map f table) (λ e' m.
        let (e, me, q) = Mem-map f table m in
        rw q (
          implies-intro (is_started (f e).dispatch_status) _ (λ s.
            all-intro _ (map f table)
              (λ p' n. let (p, mp, r) = Mem-map f table n in rw r (placed e p me mp s)))))

module _ ⦃ctx : Context⦄ (now lease max_attempts : ℕ) (deliver : Event → Result ℕ) where
  due-active : (e : Event) → due_filter now lease e ≡ true → is_active e.dispatch_status ≡ true
  unfolding due_filter
  due-active e h = ground arith

  dispatch_event_row-Step :
      (table : List Event) (id : String) (e : Event)
      → Step table e (dispatch_event_row now lease max_attempts deliver table id e)
  unfolding dispatch_event_row
  dispatch_event_row-Step table id e =
      elim (Bool-cases (
        str_eq e.event_id id
        && due_filter now lease e
        && not (has_undelivered_predecessor table e))) [
          | inr p ↦ rw p same
          | inl p ↦ rw p (
              changed _ (deliver_event-IsAttempted now max_attempts e deliver).execution_id
                (deliver_event-IsAttempted now max_attempts e deliver).event_version
                (due-active e (ground arith)) (ground arith))
        ]

  -- A turn of the loop keeps the order.
  dispatch_event-in_order :
      (id : String) (table : List Event)
      → in_order table ≡ true
      → in_order (dispatch_event now lease max_attempts deliver id table) ≡ true
  unfolding dispatch_event
  dispatch_event-in_order id table o =
      step-in_order table (dispatch_event_row now lease max_attempts deliver table id)
        (dispatch_event_row-Step table id) o

  dispatch_ids-in_order :
      (ids : List String) (table : List Event)
      → in_order table ≡ true
      → in_order (dispatch_ids now lease max_attempts deliver ids table) ≡ true
  unfolding dispatch_ids
  dispatch_ids-in_order [] table o = o
  dispatch_ids-in_order (id ∷ ids) table o =
      dispatch_ids-in_order ids (dispatch_event now lease max_attempts deliver id table)
        (dispatch_event-in_order id table o)

  -- Whatever the endpoints answer, a run of the dispatcher keeps this: an event whose delivery was
  -- attempted has only delivered or given-up events of its execution before it.
  pub dispatch-in_order :
      (batch_size : ℕ) (table : List Event)
      → in_order table ≡ true
      → in_order (dispatch_due_events batch_size now lease max_attempts deliver table) ≡ true
  unfolding dispatch_due_events
  dispatch-in_order batch_size table =
      dispatch_ids-in_order (due_ids now lease batch_size table) table
