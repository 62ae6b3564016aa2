-- ===== src/Property/Numerals/RoundTrip.antt =====
-- What `std::to_string` writes, the readers of src/PropertyManager.cpp take back whole.
use Prim.Native.Char.{Char, code}
use Prim.Native.String.compare
use Prim.Native.String.{[] as end, ◌∷◌ as add_char}
use xpcf.Base.{
  ℕ, zero, suc, String, true, false, List, [], ◌∷◌, ◌+◌, ◌*◌, ◌/◌, ◌%◌, ◌^◌, ◌<◌, ◌≤◌, ◌≡◌, refl,
  ◌∙◌, arith, ltb, leb, nat_eq, ℤ, pos, negsuc, Bool-cases, inl, inr, ap, sym, ◌==◌, string_keys,
}
use xpcf.Exec.{ok}
use xpcf.Property.Numerals.{
  codes, digit, digits, to_string_ℕ, to_string_ℤ, digit_value, skip_spaces, read_digits,
  read_magnitude, stoll, stoull, InInt64, sign, is_space,
}

code-digit : (d : ℕ) → d < 10 → code (digit d) ≡ 48 + d
unfolding digit
code-digit zero h = refl
code-digit (suc zero) h = refl
code-digit (suc (suc zero)) h = refl
code-digit (suc (suc (suc zero))) h = refl
code-digit (suc (suc (suc (suc zero)))) h = refl
code-digit (suc (suc (suc (suc (suc zero))))) h = refl
code-digit (suc (suc (suc (suc (suc (suc zero)))))) h = refl
code-digit (suc (suc (suc (suc (suc (suc (suc zero))))))) h = refl
code-digit (suc (suc (suc (suc (suc (suc (suc (suc zero)))))))) h = refl
code-digit (suc (suc (suc (suc (suc (suc (suc (suc (suc zero))))))))) h = refl
code-digit (suc (suc (suc (suc (suc (suc (suc (suc (suc (suc d)))))))))) h = absurd (omega arith)

-- A decimal digit is read as its value.
read_digit :
    (n d : ℕ) (cs : List ℕ)
    → d < 10
    → read_digits 10 n ((48 + d) ∷ cs) ≡ read_digits 10 (n * 10 + d) cs
unfolding read_digits
read_digit n d cs h =
    let v : digit_value (48 + d) ≡ d = ground arith in
    let t : ltb d 10 ≡ true = ground arith in rw (v, t) refl

codes-add_digit : (d : ℕ) (s : String) → d < 10 → codes (add_char (digit d) s) ≡ (48 + d) ∷ codes s
codes-add_digit d s h = rw (code-digit d h) refl

read-digits :
    (k n : ℕ) (s : String)
    → n < 10 ^ k
    → read_digits 10 0 (codes (digits k n s)) ≡ read_digits 10 n (codes s)
unfolding digits
read-digits zero n s h = let e : n ≡ 0 = omega arith in rw e refl
read-digits (suc k) n s h = elim (Bool-cases (ltb n 10)) [
  | inl small ↦
      let b : n < 10 = ground (arith, small) in
      let sum : 0 * 10 + n ≡ n = omega arith in
      rw small (rw (codes-add_digit n s b) (rw (read_digit 0 n (codes s) b) (rw sum refl)))
  | inr large ↦
      let b : n % 10 < 10 = omega arith in
      let sum : n / 10 * 10 + n % 10 ≡ n = omega arith in
      let below : n / 10 < 10 ^ k = grind arith in
      rw large (
        read-digits k (n / 10) (add_char (digit (n % 10)) s) below
        ∙ rw (codes-add_digit (n % 10) s b)
            (rw (read_digit (n / 10) (n % 10) (codes s) b) (rw sum refl)))
]

-- The first digit of a number that is not 0 is not 0.
first-digits :
    (k n : ℕ) (s : String)
    → 0 < n
    → n < 10 ^ k
    → (d : ℕ) × (cs : List ℕ) × (codes (digits k n s) ≡ (48 + d) ∷ cs) × (0 < d) × (d < 10)
unfolding digits
first-digits zero n s p h = absurd (omega arith)
first-digits (suc k) n s p h = elim (Bool-cases (ltb n 10)) [
  | inl small ↦
      let b : n < 10 = ground (arith, small) in rw small (n, codes s, codes-add_digit n s b, p, b)
  | inr large ↦
      let q : 10 ≤ n = ground (arith, large) in
      let below : n / 10 < 10 ^ k = grind arith in
      rw large (first-digits k (n / 10) (add_char (digit (n % 10)) s) (omega arith) below)
]

read_magnitude-digit :
    (d : ℕ) (cs : List ℕ)
    → 0 < d
    → d < 10
    → read_magnitude ((48 + d) ∷ cs) ≡ ok (read_digits 10 0 ((48 + d) ∷ cs))
unfolding read_magnitude
read_magnitude-digit d cs p q =
    let a : nat_eq (48 + d) 48 ≡ false = ground arith in
    let b : ltb (digit_value (48 + d)) 10 ≡ true = ground arith in rw (a, b) refl

read-zero : read_magnitude (codes (digits 20 zero end)) ≡ ok (record { value = 0; rest = [] })
unfolding read_magnitude digits
read-zero = refl

-- Of a printed number all is read.
read-to_string :
    (n : ℕ)
    → n < 10 ^ 20
    → read_magnitude (codes (digits 20 n end)) ≡ ok (record { value = n; rest = [] })
unfolding read_digits
read-to_string zero h = read-zero
read-to_string (suc n) h =
    let (d, cs, e, p, q) = first-digits 20 (suc n) end (omega arith) h in
    let all : read_digits 10 0 ((48 + d) ∷ cs) ≡ record { value = suc n; rest = [] } =
      ap (read_digits 10 0) (sym e) ∙ read-digits 20 (suc n) end h in
    rw e (read_magnitude-digit d cs p q ∙ ap ok all)

-- The first character of a printed number is a digit: no space and no sign.
starts_digit :
    (n : ℕ)
    → n < 10 ^ 20
    → (d : ℕ) × (cs : List ℕ) × (codes (digits 20 n end) ≡ (48 + d) ∷ cs) × (d < 10)
unfolding digits
starts_digit zero h = (0, [], refl, omega arith)
starts_digit (suc n) h =
    let (d, cs, e, p, q) = first-digits 20 (suc n) end (omega arith) h in (d, cs, e, q)

no_sign :
    (d : ℕ) (cs : List ℕ) → d < 10 → sign (skip_spaces ((48 + d) ∷ cs)) ≡ (false, (48 + d) ∷ cs)
unfolding skip_spaces
no_sign d cs h =
    let a : is_space (48 + d) ≡ false = ground arith in
    let b : nat_eq (48 + d) 45 ≡ false = ground arith in
    let c : nat_eq (48 + d) 43 ≡ false = ground arith in rw a (rw (b, c) refl)

starts_number :
    (n : ℕ)
    → n < 10 ^ 20
    → sign (skip_spaces (codes (digits 20 n end))) ≡ (false, codes (digits 20 n end))
starts_number n h = let (d, cs, e, q) = starts_digit n h in rw e (no_sign d cs q)

pub stoull-to_string :
    (n : ℕ) → n < 2 ^ 64 → stoull (to_string_ℕ n) ≡ ok (record { value = n; rest = [] })
unfolding stoull to_string_ℕ
stoull-to_string n h =
    let small : leb (2 ^ 64) n ≡ false = ground arith in
    rw (starts_number n (omega arith)) (rw (read-to_string n (omega arith)) (rw small refl))

pub stoll-to_string :
    (z : ℤ) → InInt64 z → stoll (to_string_ℤ z) ≡ ok (record { value = z; rest = [] })
unfolding stoll to_string_ℤ read_magnitude skip_spaces
stoll-to_string (pos n) h =
    let small : ltb n (2 ^ 63) ≡ true = ground arith in
    rw (starts_number n (omega arith)) (rw (read-to_string n (omega arith)) (rw small refl))
stoll-to_string (negsuc n) h =
    let small : leb (n + 1) (2 ^ 63) ≡ true = ground arith in
    let one : n + 1 ≡ suc n = omega arith in
    rw (read-to_string (n + 1) (omega arith)) (rw small (rw one refl))

filled : (c : Char) (s : String) → (add_char c s == "") ≡ false
filled c s = rw (compare.cons-nil c s) refl

-- A printed number is not the empty text.
pub filled_ℕ : (n : ℕ) → n < 2 ^ 64 → (to_string_ℕ n == "") ≡ false
unfolding to_string_ℕ
filled_ℕ n h = let (d, cs, e, q) = starts_digit n (omega arith) in go (digits 20 n end) e
  where
    go : (s : String) {d : ℕ} {cs : List ℕ} → codes s ≡ d ∷ cs → (s == "") ≡ false
    go end e = cc e
    go (add_char c s) e = filled c s

pub filled_ℤ : (z : ℤ) → InInt64 z → (to_string_ℤ z == "") ≡ false
unfolding to_string_ℤ to_string_ℕ
filled_ℤ (pos n) h = filled_ℕ n (omega arith)
filled_ℤ (negsuc n) h = filled "-" (digits 20 (n + 1) end)
