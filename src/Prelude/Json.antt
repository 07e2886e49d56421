-- ===== src/Prelude/Json.antt =====
-- The Python values that a JSON body, a configuration or a sidecar answer holds. A number is a
-- non-negative integer, or a float with its `repr`; `null` is `None`.
use Prim.Native.Nat.{ℕ}
use Prim.Native.String.{String}
use mathlib.Core.Bool.{Bool, true, false, not, ◌&&◌, ◌||◌}
use mathlib.Core.Path.{◌≡◌, refl}
use native.Mathlib.Omega.{arith}
use package.text.Mathlib.Text.{◌==◌ as str_eq}
use package.text.Mathlib.TextPositions.{eq_refl}
use shkeeper_io.Prelude.Tests.{◌==◌, ==-refl, if◌then◌else◌}

mutual
  pub data Value : Type 0 where
    null : Value
    bool : Bool → Value
    num : ℕ → Value
    float : String → Value
    text : String → Value
    list : Items → Value
    dict : Fields → Value

  pub data Fields : Type 0 where
    end : Fields
    field : String → Value → Fields → Fields

  pub data Items : Type 0 where
    nil : Items
    cons : Value → Items → Items

-- `k in d`
abbrev pub has : String → Fields → Bool
has k end = false
has k (field j v fs) = let rest = has k fs in if str_eq j k then true else rest

-- `d.get(k)`
abbrev pub get : String → Fields → Value
get k end = null
get k (field j v fs) = let rest = get k fs in if str_eq j k then v else rest

abbrev pub is_null : Value → Bool
is_null null = true
is_null _ = false

-- `bool(v)`
abbrev pub truthy : Value → Bool
truthy null = false
truthy (bool b) = b
truthy (num n) = not (n == 0)
truthy (float s) = not (str_eq s "0.0" || str_eq s "-0.0")
truthy (text s) = not (str_eq s "")
truthy (list nil) = false
truthy (list (cons v vs)) = true
truthy (dict end) = false
truthy (dict (field k v fs)) = true

-- `v or w`
abbrev pub or_value : Value → Value → Value
or_value v w = if truthy v then v else w

-- the items of a list
abbrev pub items : Value → Items
items (list vs) = vs
items _ = nil

-- `list(d)` of a dict, and `list(s)` of a text
unfoldable pub keys : Fields → Items
keys end = nil
keys (field k v fs) = cons (text k) (keys fs)

unfoldable pub letters : String → Items
letters String.[] = nil
letters (String.◌∷◌ c s) = cons (text (String.◌∷◌ c "")) (letters s)

bool_eq : Bool → Bool → Bool
bool_eq true b = b
bool_eq false b = not b

abbrev bit : Bool → ℕ
bit true = 1
bit false = 0

-- `v == w`: `True` is 1 and `False` is 0; that a float is the integer of its value is left out
unfoldable mutual
  unfolding bool_eq

  pub value_eq : Value → Value → Bool
  value_eq null null = true
  value_eq (bool a) (bool b) = bool_eq a b
  value_eq (num a) (num b) = a == b
  value_eq (bool a) (num b) = b == bit a
  value_eq (num a) (bool b) = a == bit b
  value_eq (float a) (float b) = str_eq a b
  value_eq (text a) (text b) = str_eq a b
  value_eq (list a) (list b) = items_eq a b
  value_eq (dict a) (dict b) = fields_eq a b
  value_eq _ _ = false

  pub items_eq : Items → Items → Bool
  items_eq nil nil = true
  items_eq (cons a as') (cons b bs) = value_eq a b && items_eq as' bs
  items_eq _ _ = false

  pub fields_eq : Fields → Fields → Bool
  fields_eq end end = true
  fields_eq (field j a as') (field k b bs) = str_eq j k && value_eq a b && fields_eq as' bs
  fields_eq _ _ = false

mutual
  unfolding value_eq items_eq fields_eq bool_eq

  value_refl : (v : Value) → value_eq v v ≡ true
  value_refl null = refl
  value_refl (bool true) = refl
  value_refl (bool false) = refl
  value_refl (num n) = ==-refl n
  value_refl (float s) = eq_refl s
  value_refl (text s) = eq_refl s
  value_refl (list vs) = items_refl vs
  value_refl (dict fs) = fields_refl fs

  items_refl : (vs : Items) → items_eq vs vs ≡ true
  items_refl nil = refl
  items_refl (cons v vs) = ground (arith, value_refl v, items_refl vs)

  fields_refl : (fs : Fields) → fields_eq fs fs ≡ true
  fields_refl end = refl
  fields_refl (field k v fs) = ground (arith, eq_refl k, value_refl v, fields_refl fs)

pub value_eq_refl : (v : Value) → value_eq v v ≡ true
value_eq_refl v = value_refl v
