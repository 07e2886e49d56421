-- ===== src/Aml/Notify/Gate.antt =====
-- Which notifications are posted.
use shkeeper_io.Prelude.{
  ℕ, ◌≡◌, ◌⊎◌, inl, inr, refl, Bool, true, false, not, ◌||◌, List, ◌+◌, ltb, sym, ◌∙◌, some,
  is_some, and-false, if◌then◌else◌,
}
use shkeeper_io.Context.{Context, seconds}
use shkeeper_io.Aml.Check.{Library}
use shkeeper_io.Errors.{Result, ok, err}
use shkeeper_io.Aml.Coverage.{get_coverage_policy, is_supported}
use shkeeper_io.Aml.Policy.{should_skip_aml}
use shkeeper_io.Aml.Processing.{
  Sidecar, Row, Check, ensure_aml_for_transaction, create_aml, start_check, stored, allowed_by,
  is_callback_allowed,
}
use shkeeper_io.Aml.Notify.{
  Merchant, Sent, is_accepted, send_notification, settle_callback, send_callback,
}

module _ ⦃ctx : Context⦄ ⦃lib : Library⦄ where
  -- What a pass may do to a transaction, which is `checked` once a check was asked for: where it
  -- posted, what it posted is allowed, and the row is left as it is but for the flag; and the callback
  -- is confirmed only as it was, for an outgoing transaction, or by a merchant that accepted this.
  pub record IsGated (merchant : Merchant) (tx checked : Row) (sent : Sent) : Type 0 where
    pub posted :
        sent.1 ≡ true
        → (tx.outgoing ≡ false)
          × (is_callback_allowed checked ≡ true)
          × (sent.0 ≡ record checked {
            callback_confirmed = is_accepted (merchant checked) || checked.callback_confirmed;
          })
    pub confirmed :
        sent.0.callback_confirmed ≡ true
        → (tx.callback_confirmed ≡ true)
          ⊎ (tx.outgoing ≡ true)
          ⊎ ((sent.1 ≡ true) × (is_accepted (merchant checked) ≡ true))

  quiet : (merchant : Merchant) (tx checked : Row) → IsGated merchant tx checked (tx, false)
  quiet merchant tx checked = record { posted = λ h. absurd (cc); confirmed = λ h. inl h }

  -- asking for a check changes neither the flag nor the direction of a transaction
  abbrev SameFlags : Row → Row → Type 0
  SameFlags tx checked =
      (checked.callback_confirmed ≡ tx.callback_confirmed) × (checked.outgoing ≡ tx.outgoing)

  either-SameFlags :
      (tx : Row) (b : Bool) (x y : Row)
      → SameFlags tx x
      → SameFlags tx y
      → SameFlags tx (if b then x else y)
  either-SameFlags tx true x y p q = p
  either-SameFlags tx false x y p q = q

  stored-SameFlags :
      (tx : Row) (c : Check) (r : Result Check)
      → SameFlags tx (stored (record tx { aml_check = some c }) r)
  stored-SameFlags tx c (ok d) = (refl, refl)
  stored-SameFlags tx c (err e) = (refl, refl)

  ensure_aml-SameFlags :
      (sidecar : Sidecar) (now : ℕ) (table : List Row) (tx : Row)
      → SameFlags tx (ensure_aml_for_transaction sidecar now table tx)
  unfolding ensure_aml_for_transaction create_aml start_check
  ensure_aml-SameFlags sidecar now table tx =
      either-SameFlags tx (tx.outgoing || is_some tx.aml_check) _ _ (refl, refl)
        (either-SameFlags tx (is_supported (get_coverage_policy lib.provider tx.crypto)) _ _
          (either-SameFlags tx (should_skip_aml now table tx) _ _ (refl, refl)
            (stored-SameFlags tx _ _))
          (refl, refl))

  sent-IsGated :
      (merchant : Merchant) (tx checked : Row)
      → checked.callback_confirmed ≡ tx.callback_confirmed
      → tx.outgoing ≡ false
      → is_callback_allowed checked ≡ true
      → (b : Bool) → is_accepted (merchant checked) ≡ b
      → IsGated merchant tx checked
          ((if b then record checked { callback_confirmed = true } else checked), true)
  unfolding is_callback_allowed allowed_by
  sent-IsGated merchant tx checked s o a true e = record {
    posted = λ h. (o, a, rw e refl);
    confirmed = λ h. inr (inr (refl, e));
  }
  sent-IsGated merchant tx checked s o a false e = record {
    posted = λ h. (o, a, rw e refl);
    confirmed = λ h. inl (sym s ∙ h);
  }

  send_notification-IsGated :
      (merchant : Merchant) (tx checked : Row)
      → checked.callback_confirmed ≡ tx.callback_confirmed
      → tx.outgoing ≡ false
      → is_callback_allowed checked ≡ true
      → IsGated merchant tx checked (send_notification merchant checked)
  unfolding send_notification
  send_notification-IsGated merchant tx checked s o a =
      rw (a, and-false (not checked.outgoing))
        (sent-IsGated merchant tx checked s o a (is_accepted (merchant checked)) refl)

  either-IsGated :
      (merchant : Merchant) (tx checked : Row) (b : Bool) (x y : Sent)
      → (b ≡ true → IsGated merchant tx checked x)
      → (b ≡ false → IsGated merchant tx checked y)
      → IsGated merchant tx checked (if b then x else y)
  either-IsGated merchant tx checked true x y p q = p refl
  either-IsGated merchant tx checked false x y p q = q refl

  settle_callback-IsGated :
      (sidecar : Sidecar) (merchant : Merchant) (now : ℕ) (table : List Row) (tx : Row)
      → IsGated merchant tx
          (ensure_aml_for_transaction sidecar now table tx)
          (settle_callback sidecar merchant now table tx)
  unfolding settle_callback
  settle_callback-IsGated sidecar merchant now table tx =
      let checked = ensure_aml_for_transaction sidecar now table tx in
      let same = ensure_aml-SameFlags sidecar now table tx in
      either-IsGated merchant tx checked tx.outgoing _ _
        (λ o. record { posted = λ h. absurd (cc); confirmed = λ h. inr (inl o) })
        (λ o.
          either-IsGated merchant tx checked (is_callback_allowed checked) _ _
            (λ a. send_notification-IsGated merchant tx checked same.0 o a)
            (λ a. record { posted = λ h. absurd (cc); confirmed = λ h. inl (sym same.0 ∙ h) }))

  -- A pass posts a notification only of an incoming transaction that the gate allows once its check
  -- was asked for, and changes nothing but its flag, to true where the merchant answers 202 to this
  -- very notification. The callback becomes confirmed only so, or where the transaction is outgoing.
  pub callback-IsGated :
      (sidecar : Sidecar) (merchant : Merchant) (delay now : ℕ) (table : List Row) (tx : Row)
      → IsGated merchant tx
          (ensure_aml_for_transaction sidecar now table tx)
          (send_callback sidecar merchant delay now table tx)
  unfolding send_callback
  callback-IsGated sidecar merchant delay now table tx =
      either-IsGated merchant tx _ (tx.callback_confirmed || tx.need_more_confirmations) _ _
        (λ _. quiet merchant tx _)
        (λ _.
          either-IsGated merchant tx _ (ltb (tx.created_at + seconds delay) now) _ _
            (λ _. settle_callback-IsGated sidecar merchant now table tx) (λ _. quiet merchant tx _))
