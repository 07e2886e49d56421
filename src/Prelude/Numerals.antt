-- ===== src/Prelude/Numerals.antt =====
-- `str(n)` and `int(s)` of natural numbers in decimal digits.
mod Tests
use Prim.Native.Char.{Char, code}
use Prim.Native.Nat.{ℕ, zero, suc, ◌+◌, ◌-◌, ◌*◌, ◌/◌, ◌%◌, ◌<◌}
use Prim.Native.String.{String, char_at, ◌++◌ as append, [], ◌∷◌}
use mathlib.Core.Bool.{Bool, true, false, ◌&&◌}
use mathlib.Core.Option.{Option, none, some}
use mathlib.Core.Path.{◌≡◌, refl, ap, ◌∙◌}
use mathlib.Core.Logic.{inl, inr}
use native.Mathlib.Omega.{arith}
use package.text.Mathlib.Text.{◌==◌ as str_eq}
use package.text.Mathlib.TextEquality.{eq_iff}
use shkeeper_io.Prelude.Tests.{leb, ◌==◌, if◌then◌else◌, Bool-cases}
use shkeeper_io.Prelude.Text.{strip, is_solid, chars, is_space_none, strip_solid}

digit_char : ℕ → Char
digit_char n = char_at "0123456789" (n % 10)

-- the last digit of `n`
unfoldable pub digit : ℕ → String
unfolding digit_char
digit n = String.◌∷◌ (digit_char n) ""

show_from : ℕ → ℕ → String → String
show_from zero n rest = rest
show_from (suc fuel) n rest =
    let more = show_from fuel (n / 10) (String.◌∷◌ (digit_char n) rest) in
    if n / 10 == 0 then String.◌∷◌ (digit_char n) rest else more

-- `str(n)`: a number has no more digits than its value plus one
unfoldable pub show : ℕ → String
unfolding show_from digit_char
show n = show_from (suc n) n ""

unfoldable pub digits : ℕ → String → Option ℕ
digits n String.[] = some n
digits n (String.◌∷◌ c rest) =
    let more = digits (n * 10 + (code c - 48)) rest in
    if leb 48 (code c) && leb (code c) 57 then more else none

-- `int(s)` of an unsigned decimal number, `none` where it raises
unfoldable pub int_of : String → Option ℕ
unfolding digits
int_of s = if str_eq (strip s) "" then none else digits 0 (strip s)

digit_code : (k : ℕ) → k < 10 → code (char_at "0123456789" k) ≡ 48 + k
digit_code zero h = refl
digit_code (suc zero) h = refl
digit_code (suc (suc zero)) h = refl
digit_code (suc (suc (suc zero))) h = refl
digit_code (suc (suc (suc (suc zero)))) h = refl
digit_code (suc (suc (suc (suc (suc zero))))) h = refl
digit_code (suc (suc (suc (suc (suc (suc zero)))))) h = refl
digit_code (suc (suc (suc (suc (suc (suc (suc zero))))))) h = refl
digit_code (suc (suc (suc (suc (suc (suc (suc (suc zero)))))))) h = refl
digit_code (suc (suc (suc (suc (suc (suc (suc (suc (suc zero))))))))) h = refl
digit_code (suc (suc (suc (suc (suc (suc (suc (suc (suc (suc k)))))))))) h = absurd (omega arith)

digits_step :
    (acc k : ℕ) (c : Char) (rest : String)
    → k < 10
    → code c ≡ 48 + k
    → digits acc (String.◌∷◌ c rest) ≡ digits (acc * 10 + k) rest
unfolding digits
digits_step acc k c rest b h = rw (h, inside k b, back k) refl
  where
    inside : (k : ℕ) → k < 10 → (leb 48 (48 + k) && leb (48 + k) 57) ≡ true
    inside k b = ground arith

    back : (k : ℕ) → (48 + k) - 48 ≡ k
    back k = omega arith

code-digit_char : (n : ℕ) → code (digit_char n) ≡ 48 + n % 10
unfolding digit_char
code-digit_char n = digit_code (n % 10) (omega arith)

digits-digit :
    (acc n : ℕ) (rest : String)
    → digits acc (String.◌∷◌ (digit_char n) rest) ≡ digits (acc * 10 + n % 10) rest
digits-digit acc n rest =
    digits_step acc (n % 10) (digit_char n) rest (omega arith) (code-digit_char n)

-- reading the digits of `n`, and then a rest, is reading the rest after `n`
digits-show_from :
    (fuel n : ℕ) (rest : String) → n < fuel → digits 0 (show_from fuel n rest) ≡ digits n rest
unfolding show_from
digits-show_from zero n rest h = absurd (omega arith)
digits-show_from (suc fuel) n rest h = elim (Bool-cases (n / 10 == 0)) [
  | inl p ↦ rw p (digits-digit 0 n rest ∙ ap (λ (k : ℕ). digits k rest) (small p))
  | inr p ↦ rw p (
      digits-show_from fuel (n / 10) (String.◌∷◌ (digit_char n) rest) (large p)
      ∙ digits-digit (n / 10) n rest
      ∙ ap (λ (k : ℕ). digits k rest) (omega arith))
]
  where
    small : (n / 10 == 0) ≡ true → 0 * 10 + n % 10 ≡ n
    small p = ground arith

    large : (n / 10 == 0) ≡ false → n / 10 < fuel
    large p = ground arith

solid_step :
    (k : ℕ) (c : Char) (rest : String)
    → k < 10
    → code c ≡ 48 + k
    → is_solid rest ≡ true
    → is_solid (String.◌∷◌ c rest) ≡ true
unfolding is_solid
solid_step k c rest b h s = rw (is_space_none k c b h, s) refl

is_solid-digit :
    (n : ℕ) (rest : String)
    → is_solid rest ≡ true
    → is_solid (String.◌∷◌ (digit_char n) rest) ≡ true
is_solid-digit n rest h =
    solid_step (n % 10) (digit_char n) rest (omega arith) (code-digit_char n) h

is_solid-show_from :
    (fuel n : ℕ) (rest : String) → is_solid rest ≡ true → is_solid (show_from fuel n rest) ≡ true
unfolding show_from
is_solid-show_from zero n rest h = h
is_solid-show_from (suc fuel) n rest h = elim (Bool-cases (n / 10 == 0)) [
  | inl p ↦ rw p (is_solid-digit n rest h)
  | inr p ↦
      rw p (
        is_solid-show_from fuel (n / 10) (String.◌∷◌ (digit_char n) rest) (is_solid-digit n rest h))
]

cons_filled : (c : Char) (s : String) → str_eq (String.◌∷◌ c s) "" ≡ false
unfolding chars
cons_filled c s = elim (Bool-cases (str_eq (String.◌∷◌ c s) "")) [
  | inl p ↦ absurd (no_chars (ap chars ((eq_iff (String.◌∷◌ c s) "").0 p)))
  | inr p ↦ p
]
  where
    no_chars : chars s + 1 ≡ 0 → ⊥
    no_chars h = omega arith

-- some digit is written
filled-show_from : (fuel n : ℕ) (rest : String) → str_eq (show_from (suc fuel) n rest) "" ≡ false
unfolding show_from
filled-show_from zero n rest = elim (Bool-cases (n / 10 == 0)) [
  | inl p ↦ rw p (cons_filled (digit_char n) rest)
  | inr p ↦ rw p (cons_filled (digit_char n) rest)
]
filled-show_from (suc fuel) n rest = elim (Bool-cases (n / 10 == 0)) [
  | inl p ↦ rw p (cons_filled (digit_char n) rest)
  | inr p ↦ rw p (filled-show_from fuel (n / 10) (String.◌∷◌ (digit_char n) rest))
]

-- Reading back the decimal digits that a natural number is written with gives the number.
pub int_of-show : (n : ℕ) → int_of (show n) ≡ some n
unfolding int_of show digits is_solid
int_of-show n =
    rw
      (
        strip_solid (show_from (suc n) n "") (is_solid-show_from (suc n) n "" refl),
        filled-show_from n n "",
      )
      (digits-show_from (suc n) n "" (omega arith))
