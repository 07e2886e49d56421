-- ===== src/Legacy/Service/Turns.antt =====
-- A sequence of payout requests.
use shkeeper_io.Prelude.{
  ℕ, ◌+◌, ◌≤◌, ◌≡◌, inl, inr, refl, Bool, true, false, ◌&&◌, String, Option, none, some, List, [],
  ◌∷◌, any, str_eq, eq_iff, arith, Bool-cases, and-true, ap, sym,
}
use mathlib.Core.Path.{subst}
use shkeeper_io.Prelude.Json.{Fields, get}
use shkeeper_io.Context.{Context}
use shkeeper_io.Payout.Rail.{Rail}
use shkeeper_io.Legacy.{Payout}
use shkeeper_io.Legacy.Service.{
  Driver, Spender, Outcome, same_external_id, normalize_external_id, single_payout,
}
use shkeeper_io.Legacy.Service.Once.{
  IsOnce, any_cons, Grows, single_payout-IsOnce, single_payout-Grows,
}

-- one request, with the table in which it looked for its external id
pub record Turn : Type 0 where
  pub id : ℕ
  pub now : ℕ
  pub driver : Option Driver
  pub spender : Spender
  pub rails : List Rail
  pub crypto : String
  pub req : Fields
  pub table : List Payout

abbrev is_id : String → Option String → Bool
is_id external_id none = false
is_id external_id (some e) = str_eq e external_id

abbrev one_more : Bool → ℕ → ℕ
one_more true n = n + 1
one_more false n = n

module _ ⦃ctx : Context⦄ where
  -- the answer to a request, on the table into which it inserts
  abbrev pub take_turn : Turn → List Payout → Outcome
  take_turn t stored =
      single_payout t.id t.now t.driver t.spender t.rails t.crypto t.req t.table stored

  -- the request is for this coin and external id
  abbrev pub is_for : String → String → Turn → Bool
  is_for crypto external_id t =
      str_eq t.crypto crypto && is_id external_id (normalize_external_id (get "external_id" t.req))

  -- how often the driver was asked to pay for this coin and external id
  unfoldable pub calls : String → String → List Turn → List Payout → ℕ
  calls crypto external_id [] stored = 0
  calls crypto external_id (t ∷ turns) stored =
      let o = take_turn t stored in
      one_more (is_for crypto external_id t && o.asked) (calls crypto external_id turns o.payouts)

  module _ (crypto external_id : String) where
    abbrev known : List Payout → Bool
    known = any (same_external_id crypto external_id)

    turn-IsOnce :
        (t : Turn) (stored : List Payout)
        → is_for crypto external_id t ≡ true
        → IsOnce crypto external_id stored (take_turn t stored)
    turn-IsOnce t stored h =
        let (c, e) = and-true _ _ h in
        subst
          (λ (x : String).
            IsOnce crypto external_id stored
              (single_payout t.id t.now t.driver t.spender t.rails x t.req t.table stored))
          (sym ((eq_iff t.crypto crypto).0 c))
          (single_payout-IsOnce crypto external_id t.id t.now t.driver t.spender t.rails t.req
            t.table stored (named (normalize_external_id (get "external_id" t.req)) e))
      where
        named : (o : Option String) → is_id external_id o ≡ true → o ≡ some external_id
        named none h = absurd (cc)
        named (some e) h = ap some ((eq_iff e external_id).0 h)

    grown-known :
        (stored : List Payout) (o : Outcome)
        → Grows stored o
        → known stored ≡ true
        → known o.payouts ≡ true
    grown-known stored o (inl p) h = rw p h
    grown-known stored o (inr (q, p)) h = rw p (any_cons _ q stored h)

    turn-known :
        (t : Turn) (stored : List Payout)
        → known stored ≡ true
        → known (take_turn t stored).payouts ≡ true
    turn-known t stored h =
        grown-known stored (take_turn t stored)
          (single_payout-Grows t.id t.now t.driver t.spender t.rails t.crypto t.req t.table stored)
          h

    never_asked :
        (t : Turn) (stored : List Payout)
        → known stored ≡ true
        → (is_for crypto external_id t && (take_turn t stored).asked) ≡ false
    never_asked t stored h = not_true _ λ b.
        let (f, a) = and-true (is_for crypto external_id t) (take_turn t stored).asked b in
        differ ((turn-IsOnce t stored f).fresh a)
      where
        not_true : (b : Bool) → (b ≡ true → ⊥) → b ≡ false
        not_true true n = absurd (n refl)
        not_true false n = refl

        differ : known stored ≡ false → ⊥
        differ g = cc

    -- a coin and external id that is in the table is not paid again
    no_more_calls :
        (turns : List Turn) (stored : List Payout)
        → known stored ≡ true
        → calls crypto external_id turns stored ≡ 0
    unfolding calls
    no_more_calls [] stored h = refl
    no_more_calls (t ∷ turns) stored h =
        rw (never_asked t stored h)
          (no_more_calls turns (take_turn t stored).payouts (turn-known t stored h))

    -- In any sequence of payout requests, whatever each found when it looked for its external id and
    -- whatever the drivers answer, the driver is asked to pay at most once for one coin and external
    -- id.
    pub paid_once :
        (turns : List Turn) (stored : List Payout) → calls crypto external_id turns stored ≤ 1
    unfolding calls
    paid_once [] stored = omega arith
    paid_once (t ∷ turns) stored =
        elim (Bool-cases (is_for crypto external_id t && (take_turn t stored).asked)) [
          | inr p ↦ rw p (paid_once turns (take_turn t stored).payouts)
          | inl p ↦
              rw (p, no_more_calls turns (take_turn t stored).payouts (entered p)) (omega arith)
        ]
      where
        entered :
            (is_for crypto external_id t && (take_turn t stored).asked) ≡ true
            → known (take_turn t stored).payouts ≡ true
        entered p = let (f, a) = and-true _ _ p in (turn-IsOnce t stored f).entered a
