-- ===== src/Fs/Bitmap/Search.antt =====
-- The search for a free bit in a bitmap, and what taking and releasing a bit change.
use ios.Prelude.{
  ℕ, zero, suc, ◌+◌, ◌-◌, ◌*◌, ◌/◌, ◌%◌, ◌<◌, ◌≤◌, ◌≡◌, true, false, not, Option, none, some, ◌==◌,
  if◌then◌else◌, arith, refl, Bool-cases, Option-cases, inl, inr, ==_iff, ne→==_false,
}
use native.Mathlib.Decide.{ℕ_discrete, dec_lt}
use ios.Bits.{
  has_bit, has_bit-set_bit, has_bit-clear_bit, has_bit-flip_bit, every_below, every_below_sound,
}
use ios.Mem.{Mem, store}
use ios.Fs.Bitmap.{is_taken, set_bitmap_bit, set_zero_bit, flip_bitmap_bit, free_in_byte, free_bit}

abbrev pub IsBytes : Mem → Type 0
IsBytes m = (i : ℕ) → m i < 256

module _ {m : Mem} (h : IsBytes m) (n q : ℕ) where
  -- Toggling bit n of a bitmap changes bit n and no other.
  pub is_taken-flip_bitmap_bit :
      is_taken (flip_bitmap_bit n m) q ≡ (if n == q then not (is_taken m q) else is_taken m q)
  unfolding is_taken flip_bitmap_bit store
  is_taken-flip_bitmap_bit = ground (
    arith,
    has_bit-flip_bit (m (n / 8)) (7 - n % 8) (7 - q % 8) (h (n / 8)) (omega arith) (omega arith),
  )

  -- `setBit` sets bit n and changes no other.
  pub is_taken-set_bitmap_bit :
      is_taken (set_bitmap_bit n m) q ≡ (if n == q then true else is_taken m q)
  unfolding is_taken set_bitmap_bit store
  is_taken-set_bitmap_bit = ground (
    arith,
    has_bit-set_bit (m (n / 8)) (7 - n % 8) (7 - q % 8) (h (n / 8)) (omega arith) (omega arith),
  )

  -- `setZeroBit` on a bitmap of bytes clears bit n and changes no other.
  pub is_taken-set_zero_bit :
      is_taken (set_zero_bit n m) q ≡ (if n == q then false else is_taken m q)
  unfolding is_taken set_zero_bit store
  is_taken-set_zero_bit = ground (
    arith,
    has_bit-clear_bit (m (n / 8)) (7 - n % 8) (7 - q % 8) (h (n / 8)) (omega arith) (omega arith),
  )

-- The answer of a search of the bits from `lo` up to `hi`: the first clear bit, or none.
abbrev pub IsFirstClear : Mem → ℕ → ℕ → Option ℕ → Type 0
IsFirstClear m lo hi none = (q : ℕ) → lo ≤ q → q < hi → is_taken m q ≡ true
IsFirstClear m lo hi (some n) =
    (lo ≤ n) × (n < hi) × (is_taken m n ≡ false) × ((q : ℕ) → lo ≤ q → q < n → is_taken m q ≡ true)

is_taken_in_byte : (m : Mem) (i j : ℕ) → j < 8 → is_taken m (8 * i + j) ≡ has_bit (m i) (7 - j)
unfolding is_taken
is_taken_in_byte m i j h =
    let a : (8 * i + j) / 8 ≡ i = omega arith in
    let b : (8 * i + j) % 8 ≡ j = omega arith in rw (a, b)

-- A search goes on behind a taken bit.
IsFirstClear-next :
    (m : Mem) (lo hi : ℕ) (r : Option ℕ)
    → is_taken m lo ≡ true
    → IsFirstClear m (lo + 1) hi r
    → IsFirstClear m lo hi r
IsFirstClear-next m lo hi none e h =
    λ q a b. elim (ℕ_discrete lo q) [ yes s ↦ rw (← s) e | no d ↦ h q (omega arith) b ]
IsFirstClear-next m lo hi (some n) e (a, b, c, d) = (
  omega arith,
  b,
  c,
  λ q x y. elim (ℕ_discrete lo q) [ yes s ↦ rw (← s) e | no f ↦ d q (omega arith) y ],
)

free_in_byte-IsFirstClear :
    (left j i hi : ℕ) (m : Mem)
    → j + left ≡ 8
    → hi ≡ 8 * i + 8
    → IsFirstClear m (8 * i + j) hi (free_in_byte left j m i)
unfolding free_in_byte
free_in_byte-IsFirstClear zero j i hi m e eh = λ q a b. absurd (omega arith)
free_in_byte-IsFirstClear (suc left) j i hi m e eh = elim (Bool-cases (has_bit (m i) (7 - j))) [
  | inl taken ↦ rw taken (
      IsFirstClear-next m (8 * i + j) hi _ (rw (is_taken_in_byte m i j (omega arith)) taken)
        (rw shift at (free_in_byte-IsFirstClear left (j + 1) i hi m (omega arith) eh)))
  | inr clear ↦ rw clear (
    omega arith,
    omega arith,
    rw (is_taken_in_byte m i j (omega arith)) clear,
    λ q a b. absurd (omega arith),
  )
]
  where
    shift : 8 * i + (j + 1) ≡ 8 * i + j + 1
    shift = omega arith

-- All bits of a byte of ones are taken.
ones_table : every_below 8 (λ k. has_bit 0xFF k) ≡ true
unfolding every_below has_bit
ones_table = refl

IsFirstClear-append :
    (m : Mem) (lo mid hi : ℕ) (r : Option ℕ)
    → mid ≤ hi
    → lo ≤ mid
    → ((q : ℕ) → lo ≤ q → q < mid → is_taken m q ≡ true)
    → IsFirstClear m mid hi r
    → IsFirstClear m lo hi r
IsFirstClear-append m lo mid hi none a b full h =
    λ q x y. elim (dec_lt q mid) [ yes s ↦ full q x s | no d ↦ h q (omega arith) y ]
IsFirstClear-append m lo mid hi (some n) a b full (c, d, e, f) = (
  omega arith,
  d,
  e,
  λ q x y. elim (dec_lt q mid) [ yes s ↦ full q x s | no g ↦ f q (omega arith) y ],
)

byte_of_ones :
    (m : Mem) (i : ℕ) → m i ≡ 0xFF → (q : ℕ) → 8 * i ≤ q → q < 8 * i + 8 → is_taken m q ≡ true
unfolding is_taken
byte_of_ones m i e q a b =
    let d : q / 8 ≡ i = omega arith in
    rw (d, e) (every_below_sound 8 _ (7 - q % 8) ones_table (omega arith))

in_byte : (i : ℕ) (m : Mem) → IsFirstClear m (8 * i) (8 * i + 8) (free_in_byte 8 0 m i)
in_byte i m =
    let zero_offset : 8 * i + 0 ≡ 8 * i = omega arith in
    rw zero_offset at (free_in_byte-IsFirstClear 8 0 i (8 * i + 8) m (omega arith) refl)

IsFirstClear-widen :
    (m : Mem) (lo mid hi n : ℕ)
    → mid ≤ hi
    → IsFirstClear m lo mid (some n)
    → IsFirstClear m lo hi (some n)
IsFirstClear-widen m lo mid hi n le (a, b, c, d) = (a, omega arith, c, d)

free_bit_step :
    (left i hi : ℕ) (m : Mem)
    → hi ≡ 8 * (i + suc left)
    → IsFirstClear m (8 * i + 8) hi (free_bit left (i + 1) m)
    → IsFirstClear m (8 * i) hi (free_bit (suc left) i m)
unfolding free_bit
free_bit_step left i hi m e next = elim (ℕ_discrete (m i) 0xFF) [
  | yes ones ↦ rw ((==_iff _ _).1 ones) (
      IsFirstClear-append m (8 * i) (8 * i + 8) hi _ (omega arith) (omega arith)
        (byte_of_ones m i ones) next)
  | no some_clear ↦ rw (ne→==_false _ _ some_clear) (elim (Option-cases (free_in_byte 8 0 m i)) [
    | inl none_here ↦ rw none_here (
        IsFirstClear-append m (8 * i) (8 * i + 8) hi _ (omega arith) (omega arith)
          (rw none_here at (in_byte i m)) next)
    | inr (n, here) ↦
        rw here
          (IsFirstClear-widen m (8 * i) (8 * i + 8) hi n (omega arith) (rw here at (in_byte i m)))
  ])
]

-- The search of `left` bytes from byte i on finds the first clear bit, or there is none.
pub free_bit-IsFirstClear :
    (left i hi : ℕ) (m : Mem) → hi ≡ 8 * (i + left) → IsFirstClear m (8 * i) hi (free_bit left i m)
free_bit-IsFirstClear zero i hi m e = unfold free_bit in λ q a b. absurd (omega arith)
free_bit-IsFirstClear (suc left) i hi m e =
    let shift : 8 * (i + 1) ≡ 8 * i + 8 = omega arith in
    free_bit_step left i hi m e
      (rw shift at (free_bit-IsFirstClear left (i + 1) hi m (omega arith)))
