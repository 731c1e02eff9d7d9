-- ===== src/Text/Digits.antt =====
-- The digits that the conversions of string.c write stand for the number.
use ios.Prelude.{
  ℕ, zero, suc, ◌+◌, ◌-◌, ◌*◌, ◌/◌, ◌%◌, ◌^◌, ◌<◌, ◌≤◌, ◌≡◌, true, List, [], ◌∷◌, leb, ◌==◌,
  if◌then◌else◌, arith, refl, ==_iff, length,
}
use native.Mathlib.Nat.{div-add-mod, mod-lt, pow-suc}
use ios.Bits.{every_below, every_below_sound}
use ios.Text.{digit, digits_of, reversed_onto, uint_to_str, ulong_to_str}

-- What a digit character stands for.
unfoldable pub digit_value : ℕ → ℕ
digit_value c = if leb c b'9' then c - b'0' else c - b'a' + 10

-- The number that a text of digits stands for, after a number that stands before it.
unfoldable pub read_number : ℕ → ℕ → List ℕ → ℕ
read_number base acc [] = acc
read_number base acc (c ∷ s) = read_number base (acc * base + digit_value c) s

-- The same with the lowest digit first.
low_value : ℕ → List ℕ → ℕ
low_value base [] = 0
low_value base (c ∷ s) = low_value base s * base + digit_value c

digit_table : every_below 16 (λ d. digit_value (digit d) == d) ≡ true
unfolding every_below digit_value
digit_table = refl

digit_value-digit : (d : ℕ) → d < 16 → digit_value (digit d) ≡ d
digit_value-digit d h = (==_iff _ d).0 (every_below_sound 16 _ d digit_table h)

quotient-lt : (v base len : ℕ) → 2 ≤ base → v < 2 ^ suc len → v / base < 2 ^ len
quotient-lt v base len lo h =
    let e : 2 * (v / base) ≤ v / base * base = grind arith in
    omega (arith, e, div-add-mod v base, pow-suc 2 len)

low_value-digits_of :
    (len base v : ℕ)
    → 2 ≤ base
    → base ≤ 16
    → v < 2 ^ len
    → low_value base (digits_of len base v) ≡ v
unfolding low_value digits_of
low_value-digits_of zero base v lo hi h = omega arith
low_value-digits_of (suc len) base v lo hi h = ground (
  arith,
  digit_value-digit (v % base) (omega (arith, mod-lt v {m = base} (omega arith), hi)),
  low_value-digits_of len base (v / base) lo hi (quotient-lt v base len lo h),
  div-add-mod v base,
)

read_number-reversed_onto :
    (base : ℕ) (ds rest : List ℕ)
    → read_number base 0 (reversed_onto ds rest) ≡ read_number base (low_value base ds) rest
unfolding read_number reversed_onto low_value
read_number-reversed_onto base [] rest = refl
read_number-reversed_onto base (d ∷ ds) rest = read_number-reversed_onto base ds (d ∷ rest)

length-digits_of : (len base v : ℕ) → length (digits_of len base v) ≤ len
unfolding digits_of
length-digits_of zero base v = omega arith
length-digits_of (suc len) base v = ground (arith, length-digits_of len base (v / base))

pub length-reversed_onto :
    (ds rest : List ℕ) → length (reversed_onto ds rest) ≡ length ds + length rest
unfolding reversed_onto
length-reversed_onto [] rest = omega arith
length-reversed_onto (d ∷ ds) rest = omega (arith, length-reversed_onto ds (d ∷ rest))

-- `uintToStr` in a base from 2 to 16 writes a text of at most 32 digits that reads back as the
-- value.
pub read_number-uint_to_str :
    (base v : ℕ)
    → 2 ≤ base
    → base ≤ 16
    → v < 2 ^ 32
    → (read_number base 0 (uint_to_str v base) ≡ v) × (length (uint_to_str v base) ≤ 32)
unfolding uint_to_str read_number digit_value
read_number-uint_to_str base v lo hi h = ground (
  arith,
  read_number-reversed_onto base (digits_of 32 base v) [],
  low_value-digits_of 32 base v lo hi h,
  length-reversed_onto (digits_of 32 base v) [],
  length-digits_of 32 base v,
)

-- `ulongToStr` in a base from 2 to 16 writes a text of at most 64 digits that reads back as the
-- value.
pub read_number-ulong_to_str :
    (base v : ℕ)
    → 2 ≤ base
    → base ≤ 16
    → v < 2 ^ 64
    → (read_number base 0 (ulong_to_str v base) ≡ v) × (length (ulong_to_str v base) ≤ 64)
unfolding ulong_to_str read_number digit_value
read_number-ulong_to_str base v lo hi h = ground (
  arith,
  read_number-reversed_onto base (digits_of 64 base v) [],
  low_value-digits_of 64 base v lo hi h,
  length-reversed_onto (digits_of 64 base v) [],
  length-digits_of 64 base v,
)
