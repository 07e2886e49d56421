-- ===== src/Payout/Address.antt =====
-- shkeeper/services/payout_address_validation.py: bytes are numbers below 256, text is ASCII.
mod Tests
use Prim.Native.Char.{Char, code}
use Prim.Native.Nat.{bit_xor}
use package.text.Mathlib.Text.{starts_with}
use shkeeper_io.Prelude.{
  ℕ, zero, suc, ◌+◌, ◌-◌, ◌*◌, ◌/◌, ◌%◌, ◌<◌, ◌≡◌, refl, Bool, true, false, not, ◌&&◌, ◌||◌, String,
  Option, none, some, List, [], ◌∷◌, ◌++◌, arith, leb, ltb, ◌==◌, str_eq, if◌then◌else◌, length,
  Bool-cases, inl, inr,
}
use shkeeper_io.Prelude.Text.{upper, chars}
use shkeeper_io.Errors.{Result, ok, err, ◌>>=◌, ◌>>◌, raise, require, request_error}
use shkeeper_io.Context.{Context}

-- `_BASE58_INDEX.get(char)`
base58_index_in : String → ℕ → Char → Option ℕ
base58_index_in String.[] i c = none
base58_index_in (String.◌∷◌ a s) i c =
    let rest = base58_index_in s (i + 1) c in if code a == code c then some i else rest

base58_index : Char → Option ℕ
unfolding base58_index_in
base58_index = base58_index_in "123456789ABCDEFGHJKLMNPQRSTUVWXYZabcdefghijkmnopqrstuvwxyz" 0

base58_number : ℕ → String → Option ℕ
unfolding base58_index
base58_number n String.[] = some n
base58_number n (String.◌∷◌ c s) = elim (base58_index c) [
  | none ↦ none
  | some i ↦ base58_number (n * 58 + i) s
]

-- `number.to_bytes((number.bit_length() + 7) // 8, "big")`, before `tail`: a number has fewer bytes
-- than its value plus one
big_endian : ℕ → ℕ → List ℕ → List ℕ
big_endian zero n tail = tail
big_endian (suc fuel) n tail =
    let more = big_endian fuel (n / 256) (n % 256 ∷ tail) in if n == 0 then tail else more

leading_ones : String → List ℕ → List ℕ
leading_ones String.[] tail = tail
leading_ones (String.◌∷◌ c s) tail =
    let rest = leading_ones s tail in if code c == 49 then 0 ∷ rest else tail

pub base58_decode : String → Option (List ℕ)
unfolding base58_number big_endian leading_ones
base58_decode s = elim (base58_number 0 s) [
  | none ↦ none
  | some n ↦ some (leading_ones s (big_endian (suc n) n []))
]

-- `bs[:n]` and `bs[n:]`
bytes_before : ℕ → List ℕ → List ℕ
bytes_before zero bs = []
bytes_before (suc n) [] = []
bytes_before (suc n) (b ∷ bs) = b ∷ bytes_before n bs

bytes_from : ℕ → List ℕ → List ℕ
bytes_from zero bs = bs
bytes_from (suc n) [] = []
bytes_from (suc n) (b ∷ bs) = bytes_from n bs

bytes_eq : List ℕ → List ℕ → Bool
bytes_eq [] [] = true
bytes_eq (a ∷ as') (b ∷ bs) = a == b && bytes_eq as' bs
bytes_eq _ _ = false

abbrev first_byte : List ℕ → ℕ
first_byte [] = 256
first_byte (b ∷ bs) = b

abbrev between : ℕ → ℕ → Char → Bool
between a b c = leb a (code c) && leb (code c) b

is_digit : Char → Bool
is_digit c = between 48 57 c

is_hex : Char → Bool
unfolding is_digit
is_hex c = is_digit c || between 65 70 c || between 97 102 c

is_base64 : Char → Bool
unfolding is_digit
is_base64 c =
    is_digit c
    || between 65 90 c
    || between 97 122 c
    || code c == 95
    || code c == 43
    || code c == 47
    || code c == 61
    || code c == 45

-- `[...]{n}$`: `$` also holds before a newline that ends the text
exactly : (Char → Bool) → ℕ → String → Bool
exactly p zero String.[] = true
exactly p zero (String.◌∷◌ c s) = code c == 10 && str_eq s ""
exactly p (suc n) String.[] = false
exactly p (suc n) (String.◌∷◌ c s) = p c && exactly p n s

-- `[...]+$`, after the first character
all_chars : (Char → Bool) → String → Bool
all_chars p String.[] = true
all_chars p (String.◌∷◌ c s) =
    let rest = all_chars p s in if p c then rest else code c == 10 && str_eq s ""

some_chars : (Char → Bool) → String → Bool
unfolding all_chars
some_chars p String.[] = false
some_chars p (String.◌∷◌ c s) = p c && all_chars p s

-- `_ETH_ADDRESS_RE.match`
eth_address : String → Bool
unfolding is_hex exactly
eth_address (String.◌∷◌ a (String.◌∷◌ b s)) = code a == 48 && code b == 120 && exactly is_hex 40 s
eth_address _ = false

-- `\d+:[0-9a-fA-F]{64}$`, after the sign; `seen` once a digit was read
ton_workchain : Bool → String → Bool
unfolding is_hex is_digit exactly
ton_workchain seen String.[] = false
ton_workchain seen (String.◌∷◌ c s) =
    let rest = ton_workchain true s in
    if is_digit c then rest else seen && code c == 58 && exactly is_hex 64 s

-- `_TON_RAW_ADDRESS_RE.match`
ton_raw_address : String → Bool
unfolding ton_workchain
ton_raw_address String.[] = false
ton_raw_address (String.◌∷◌ c s) =
    if code c == 45 then ton_workchain false s else ton_workchain false (String.◌∷◌ c s)

-- one round of the inner loop of `_ton_crc16`
crc_round : ℕ → ℕ
crc_round crc = if crc / 32768 % 2 == 1 then bit_xor (2 * crc) 4129 % 65536 else 2 * crc % 65536

crc_rounds : ℕ → ℕ → ℕ
crc_rounds zero crc = crc
crc_rounds (suc n) crc = crc_rounds n (crc_round crc)

crc_from : ℕ → List ℕ → ℕ
crc_from crc [] = crc
crc_from crc (byte ∷ payload) = crc_from (crc_rounds 8 (bit_xor crc (256 * byte))) payload

pub ton_crc16 : List ℕ → ℕ
ton_crc16 = crc_from 0

abbrev ton_flag : ℕ → Bool
ton_flag b = b == 17 || b == 81 || b == 145 || b == 209

module _ ⦃ctx : Context⦄ where
  abbrev tron_decoded : Option (List ℕ) → Bool
  tron_decoded none = false
  tron_decoded (some bs) =
      length bs == 25
      && first_byte bs == 65
      && bytes_eq (bytes_from 21 bs) (bytes_before 4 (ctx.sha256 (ctx.sha256 (bytes_before 21 bs))))

  pub is_valid_tron_base58check : String → Bool
  is_valid_tron_base58check s = tron_decoded (base58_decode s)

  abbrev ton_decoded : Option (List ℕ) → Bool
  ton_decoded none = false
  ton_decoded (some bs) =
      let crc = ton_crc16 (bytes_before 34 bs) in
      length bs == 36
      && ton_flag (first_byte bs)
      && bytes_eq (bytes_from 34 bs) (crc / 256 ∷ crc % 256 ∷ [])

  pub is_valid_ton_address : String → Bool
  is_valid_ton_address s =
      ton_raw_address s
      || chars s == 48 && some_chars is_base64 s && ton_decoded (ctx.urlsafe_b64decode s)

  unfoldable pub validate_payout_destination : String → String → Result String
  unfolding eth_address
  validate_payout_destination network destination = do
    require (not (str_eq destination "")) "INVALID_DESTINATION" 400
    require
        (if str_eq (upper network) "TRON"
          then is_valid_tron_base58check destination
          else if str_eq (upper network) "ETH"
          then eth_address destination
          else if str_eq (upper network) "TON"
          then is_valid_ton_address destination
          else true)
        "INVALID_DESTINATION" 400
    require
        (str_eq (upper network) "TRON"
          || str_eq (upper network) "ETH"
          || str_eq (upper network) "TON")
        "UNSUPPORTED_NETWORK" 400
    ok destination

crc_round-bound : (crc : ℕ) → crc_round crc < 65536
unfolding crc_round
crc_round-bound crc = elim (Bool-cases (crc / 32768 % 2 == 1)) [
  | inl p ↦ rw p (omega arith)
  | inr p ↦ rw p (omega arith)
]

crc_rounds-bound : (n crc : ℕ) → crc_rounds (suc n) crc < 65536
unfolding crc_rounds
crc_rounds-bound zero crc = crc_round-bound crc
crc_rounds-bound (suc n) crc = crc_rounds-bound n (crc_round crc)

crc_from-bound : (payload : List ℕ) (crc : ℕ) → crc < 65536 → crc_from crc payload < 65536
unfolding crc_from
crc_from-bound [] crc h = h
crc_from-bound (byte ∷ payload) crc h =
    crc_from-bound payload (crc_rounds 8 (bit_xor crc (256 * byte)))
      (crc_rounds-bound 7 (bit_xor crc (256 * byte)))

-- The checksum of any payload fits the two bytes that `to_bytes` writes.
pub ton_crc16-bound : (payload : List ℕ) → ton_crc16 payload < 65536
unfolding ton_crc16
ton_crc16-bound payload = crc_from-bound payload 0 (omega arith)
