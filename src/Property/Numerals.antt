-- ===== src/Property/Numerals.antt =====
-- How src/PropertyManager.cpp writes and reads integers: `std::to_string`, and `std::stol`,
-- `std::stoul`, `std::stoll` and `std::stoull` with base 0, on 64-bit `long` and `long long`. What the
-- readers leave unread decides whether `processedValue` is the size of the text.
pub mod RoundTrip
use Prim.Native.Char.{Char, code}
use Prim.Native.String.{[] as end, ◌∷◌ as add_char}
use xpcf.Base.{
  ℕ, zero, suc, String, Bool, true, false, ◌&&◌, ◌||◌, List, [], ◌∷◌, ◌+◌, ◌-◌, ◌*◌, ◌/◌, ◌%◌, ◌^◌,
  ◌<◌, if◌then◌else◌, ltb, leb, nat_eq, ℤ, pos, negsuc, neg,
}
use xpcf.Exec.{Result, ok, err, invalid_argument, out_of_range}

abbrev pub codes : String → List ℕ
codes end = []
codes (add_char c s) = code c ∷ codes s

unfoldable pub digit : ℕ → Char
digit zero = "0"
digit (suc zero) = "1"
digit (suc (suc zero)) = "2"
digit (suc (suc (suc zero))) = "3"
digit (suc (suc (suc (suc zero)))) = "4"
digit (suc (suc (suc (suc (suc zero))))) = "5"
digit (suc (suc (suc (suc (suc (suc zero)))))) = "6"
digit (suc (suc (suc (suc (suc (suc (suc zero))))))) = "7"
digit (suc (suc (suc (suc (suc (suc (suc (suc zero)))))))) = "8"
digit _ = "9"

-- The digits of a number below `10 ^ k`, in front of a text.
unfoldable pub digits : ℕ → ℕ → String → String
unfolding digit
digits zero n s = s
digits (suc k) n s =
    let more = digits k (n / 10) (add_char (digit (n % 10)) s) in
    if ltb n 10 then add_char (digit n) s else more

-- `std::to_string`; twenty digits are enough for 64 bits.
unfoldable pub to_string_ℕ : ℕ → String
to_string_ℕ n = digits 20 n end

unfoldable pub to_string_ℤ : ℤ → String
to_string_ℤ (pos n) = digits 20 n end
to_string_ℤ (negsuc n) = add_char "-" (digits 20 (n + 1) end)

abbrev is_space : ℕ → Bool
is_space c = nat_eq c 32 || (leb 9 c && leb c 13)

-- The value of a character as a digit; 36 where it is none.
abbrev digit_value : ℕ → ℕ
digit_value c =
    if leb 48 c && leb c 57
    then c - 48
    else if leb 97 c && leb c 122
    then c - 87
    else if leb 65 c && leb c 90
    then c - 55
    else 36

pub record Read {ℓ} (A : Type ℓ) : Type ℓ where
  pub value : A
  pub rest : List ℕ

unfoldable pub skip_spaces : List ℕ → List ℕ
skip_spaces [] = []
skip_spaces (c ∷ cs) = if is_space c then skip_spaces cs else c ∷ cs

-- All the digits that follow.
unfoldable pub read_digits : ℕ → ℕ → List ℕ → Read ℕ
read_digits base n [] = record { value = n; rest = [] }
read_digits base n (c ∷ cs) =
    let more = read_digits base (n * base + digit_value c) cs in
    if ltb (digit_value c) base then more else record { value = n; rest = c ∷ cs }

abbrev starts_hex : List ℕ → Bool
starts_hex (x ∷ d ∷ _) = (nat_eq x 120 || nat_eq x 88) && ltb (digit_value d) 16
starts_hex _ = false

abbrev tail : List ℕ → List ℕ
tail [] = []
tail (_ ∷ cs) = cs

-- Base 0: a prefix 0x is hexadecimal, another 0 octal, all else decimal. Without a digit there is no
-- conversion.
unfoldable pub read_magnitude : List ℕ → Result (Read ℕ)
unfolding read_digits
read_magnitude [] = err invalid_argument
read_magnitude (c ∷ cs) =
    if nat_eq c 48
    then ok (if starts_hex cs then read_digits 16 0 (tail cs) else read_digits 8 0 (c ∷ cs))
    else if ltb (digit_value c) 10
    then ok (read_digits 10 0 (c ∷ cs))
    else err invalid_argument

-- A sign, and what follows it.
abbrev pub sign : List ℕ → Bool × List ℕ
sign [] = (false, [])
sign (c ∷ cs) =
    if nat_eq c 45 then (true, cs) else if nat_eq c 43 then (false, cs) else (false, c ∷ cs)

abbrev pub signed : Bool → Read ℕ → Result (Read ℤ)
signed negative r =
    if negative
    then (if leb r.value (2 ^ 63)
        then ok (record { value = neg r.value; rest = r.rest })
        else err out_of_range)
    else (if ltb r.value (2 ^ 63)
        then ok (record { value = pos r.value; rest = r.rest })
        else err out_of_range)

-- A minus sign is allowed, and negates modulo 2 ^ 64.
abbrev pub unsigned : Bool → Read ℕ → Result (Read ℕ)
unsigned negative r =
    if leb (2 ^ 64) r.value
    then err out_of_range
    else ok (record {
      value = if negative then (2 ^ 64 - r.value) % 2 ^ 64 else r.value;
      rest = r.rest;
    })

abbrev pub then_sign : {A : Type 0} → (Bool → Read ℕ → Result A) → Bool → Result (Read ℕ) → Result A
then_sign f negative (ok r) = f negative r
then_sign f negative (err e) = err e

-- `std::stol` and `std::stoll`
unfoldable pub stoll : String → Result (Read ℤ)
stoll s =
    let (negative, cs) = sign (skip_spaces (codes s)) in
    then_sign signed negative (read_magnitude cs)

-- `std::stoul` and `std::stoull`
unfoldable pub stoull : String → Result (Read ℕ)
stoull s =
    let (negative, cs) = sign (skip_spaces (codes s)) in
    then_sign unsigned negative (read_magnitude cs)

-- The integers of 64 bits.
abbrev pub InInt64 : ℤ → Type 0
InInt64 (pos n) = n < 2 ^ 63
InInt64 (negsuc n) = n < 2 ^ 63

-- A value of `long` or `long long` that a narrower type takes.
unfoldable pub to_uint32 : ℕ → ℕ
to_uint32 n = n % 2 ^ 32

abbrev from_bits32 : ℕ → ℤ
from_bits32 n = if ltb n (2 ^ 31) then pos n else negsuc (2 ^ 32 - 1 - n)

unfoldable pub to_int32 : ℤ → ℤ
to_int32 (pos n) = from_bits32 (n % 2 ^ 32)
to_int32 (negsuc n) = from_bits32 (2 ^ 32 - 1 - n % 2 ^ 32)
