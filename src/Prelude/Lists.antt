-- ===== src/Prelude/Lists.antt =====
-- Lists measured by native numbers, predicates on all items, and Boolean searches.
use Prim.Native.Nat.{ℕ, suc, ◌+◌}
use mathlib.Core.Path.{◌≡◌, refl, sym, ap, ◌∙◌}
use mathlib.Core.Bool.{Bool, true, false, ◌&&◌, ◌||◌}
use mathlib.Core.List.{List, [], ◌∷◌, ◌++◌, map, Memᴰ}
use mathlib.Core.Logic.{inl, inr}
use mathlib.Core.Option.{Option, none, some}
use native.Mathlib.Omega.{arith}
use shkeeper_io.Prelude.Tests.{and-true, or-false, if◌then◌else◌, Bool-cases}

module _ {ℓ} {A : Type ℓ} where
  abbrev pub length : List A → ℕ
  length [] = 0
  length (x ∷ xs) = suc (length xs)

  pub length-append : (xs ys : List A) → length (xs ++ ys) ≡ length xs + length ys
  length-append [] ys = omega arith
  length-append (x ∷ xs) ys = omega (arith, length-append xs ys)

  -- Python's `any` and `all` over a generator
  abbrev pub any : (A → Bool) → List A → Bool
  any p [] = false
  any p (x ∷ xs) = p x || any p xs

  abbrev pub all : (A → Bool) → List A → Bool
  all p [] = true
  all p (x ∷ xs) = p x && all p xs

  -- the items that pass, in order, as `[x for x in xs if p(x)]`
  abbrev pub select : (A → Bool) → List A → List A
  select p [] = []
  select p (x ∷ xs) = let rest = select p xs in if p x then x ∷ rest else rest

  -- the first item that passes, as `.filter(...).first()`
  abbrev pub first : (A → Bool) → List A → Option A
  first p [] = none
  first p (x ∷ xs) = let rest = first p xs in if p x then some x else rest

  pub first-holds :
      (p : A → Bool) (xs : List A) (x : A) → ◌≡◌ {A = Option A} (first p xs) (some x) → p x ≡ true
  first-holds p [] x h = cc
  first-holds p (y ∷ ys) x h = elim (Bool-cases (p y)) [
    | inl q ↦ ap p (sym (some-inj (rw q at h))) ∙ q
    | inr q ↦ first-holds p ys x (rw q at h)
  ]
    where
      some-inj : {a b : A} → ◌≡◌ {A = Option A} (some a) (some b) → a ≡ b
      some-inj e = cc

abbrev pub All {ℓ κ} : {T : Type ℓ} → (T → Type κ) → List T → Type κ
All Q [] = Unit
All Q (item ∷ items) = Q item × All Q items

pub All-append {ℓ κ} :
    {T : Type ℓ} (Q : T → Type κ) (front back : List T)
    → All Q front
    → All Q back
    → All Q (front ++ back)
All-append Q [] back none' each = each
All-append Q (item ∷ items) back both each = (both.0, All-append Q items back both.1 each)

module _ {ℓ} {A : Type ℓ} where
  pub all-at : (p : A → Bool) (xs : List A) {x : A} → all p xs ≡ true → Memᴰ x xs → p x ≡ true
  all-at p [] h m = elim m [ ]
  all-at p (y ∷ ys) h (Memᴰ.head q) = ap p q ∙ (and-true (p y) (all p ys) h).0
  all-at p (y ∷ ys) h (Memᴰ.tail m) = all-at p ys (and-true (p y) (all p ys) h).1 m

  pub all-intro :
      (p : A → Bool) (xs : List A) → ((x : A) → Memᴰ x xs → p x ≡ true) → all p xs ≡ true
  all-intro p [] h = refl
  all-intro p (y ∷ ys) h = rw (h y (Memᴰ.head refl), all-intro p ys (λ x m. h x (Memᴰ.tail m))) refl

  pub any-false-at :
      (p : A → Bool) (xs : List A) {x : A} → any p xs ≡ false → Memᴰ x xs → p x ≡ false
  any-false-at p [] h m = elim m [ ]
  any-false-at p (y ∷ ys) h (Memᴰ.head q) = ap p q ∙ (or-false (p y) (any p ys) h).0
  any-false-at p (y ∷ ys) h (Memᴰ.tail m) = any-false-at p ys (or-false (p y) (any p ys) h).1 m

pub Mem-map {ℓ κ} :
    {A : Type ℓ} {B : Type κ} (f : A → B) (xs : List A) {y : B}
    → Memᴰ y (map f xs)
    → (x : A) × Memᴰ x xs × (y ≡ f x)
Mem-map f [] m = elim m [ ]
Mem-map f (x ∷ xs) (Memᴰ.head q) = (x, Memᴰ.head refl, q)
Mem-map f (x ∷ xs) (Memᴰ.tail m) = let (z, k, p) = Mem-map f xs m in (z, Memᴰ.tail k, p)
