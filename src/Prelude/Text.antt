-- ===== src/Prelude/Text.antt =====
-- The `str` methods that the program calls, on ASCII text: `strip`, `upper`, `lower`.
use Prim.Native.Nat.{ℕ, ◌+◌, ◌-◌, ◌<◌}
use Prim.Native.Char.{Char, code}
use Prim.Native.String.{String, char_at}
use mathlib.Core.Bool.{Bool, true, false, not, ◌&&◌, ◌||◌}
use mathlib.Core.Path.{◌≡◌, refl}
use native.Mathlib.Omega.{arith}
use text.Mathlib.Text.{◌==◌ as str_eq}
use shkeeper_io.Prelude.Tests.{leb, ◌==◌, if◌then◌else◌}

-- the characters that `strip` removes: the space, and the codes 9 to 13 and 28 to 31
unfoldable pub is_space : Char → Bool
is_space c =
    code c == 32 || (leb 9 (code c) && leb (code c) 13) || (leb 28 (code c) && leb (code c) 31)

lstrip : String → String
unfolding is_space
lstrip String.[] = ""
lstrip (String.◌∷◌ c s) = let rest = lstrip s in if is_space c then rest else String.◌∷◌ c s

rstrip : String → String
unfolding is_space
rstrip String.[] = ""
rstrip (String.◌∷◌ c s) =
    let rest = rstrip s in if str_eq rest "" && is_space c then "" else String.◌∷◌ c rest

unfoldable pub strip : String → String
unfolding lstrip rstrip
strip s = lstrip (rstrip s)

upper_char : Char → Char
upper_char c =
    if leb 97 (code c) && leb (code c) 122
    then char_at "ABCDEFGHIJKLMNOPQRSTUVWXYZ" (code c - 97)
    else c

lower_char : Char → Char
lower_char c =
    if leb 65 (code c) && leb (code c) 90
    then char_at "abcdefghijklmnopqrstuvwxyz" (code c - 65)
    else c

unfoldable pub upper : String → String
unfolding upper_char
upper String.[] = ""
upper (String.◌∷◌ c s) = String.◌∷◌ (upper_char c) (upper s)

unfoldable pub lower : String → String
unfolding lower_char
lower String.[] = ""
lower (String.◌∷◌ c s) = String.◌∷◌ (lower_char c) (lower s)

-- `len(s)`
unfoldable pub chars : String → ℕ
chars String.[] = 0
chars (String.◌∷◌ c s) = chars s + 1

-- no character of the text is one that `strip` removes
unfoldable pub is_solid : String → Bool
unfolding is_space
is_solid String.[] = true
is_solid (String.◌∷◌ c s) = not (is_space c) && is_solid s

pub is_space_none : (k : ℕ) (c : Char) → k < 10 → code c ≡ 48 + k → is_space c ≡ false
unfolding is_space
is_space_none k c b h = ground arith

rstrip_solid : (s : String) → is_solid s ≡ true → rstrip s ≡ s
unfolding is_solid rstrip
rstrip_solid String.[] h = refl
rstrip_solid (String.◌∷◌ c s) h = ground (arith, rstrip_solid s)

lstrip_solid : (s : String) → is_solid s ≡ true → lstrip s ≡ s
unfolding is_solid lstrip
lstrip_solid String.[] h = refl
lstrip_solid (String.◌∷◌ c s) h = ground arith

pub strip_solid : (s : String) → is_solid s ≡ true → strip s ≡ s
unfolding strip
strip_solid s h = rw (rstrip_solid s h) (lstrip_solid s h)
