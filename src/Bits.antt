-- ===== src/Bits.antt =====
-- Single bits of a byte: `b | (1 << k)`, `b & ~(1 << k)`, `b ^ (1 << k)` and `b & (1 << k)`.
-- The laws are checked on all 256 bytes and all 8 positions.
use ios.Prelude.{
  ℕ, zero, suc, ◌-◌, ◌^◌, ◌<◌, ◌≡◌, refl, Bool, true, false, not, ◌&&◌, ◌==◌, ltb, arith, bit_and,
  bit_or, bit_xor, if◌then◌else◌, ==_iff, ltb→lt,
}

-- `b & (1 << k)` is not zero.
unfoldable pub has_bit : ℕ → ℕ → Bool
has_bit b k = not (bit_and b (2 ^ k) == 0)

unfoldable pub set_bit : ℕ → ℕ → ℕ
set_bit b k = bit_or b (2 ^ k)

-- `~(1 << k)`, cut to a byte by the assignment.
unfoldable pub clear_bit : ℕ → ℕ → ℕ
clear_bit b k = bit_and b (255 - 2 ^ k)

unfoldable pub flip_bit : ℕ → ℕ → ℕ
flip_bit b k = bit_xor b (2 ^ k)

abbrev pub beq : Bool → Bool → Bool
beq true c = c
beq false c = not c

beq_sound : (b c : Bool) → beq b c ≡ true → b ≡ c
beq_sound true true h = refl
beq_sound true false h = ground arith
beq_sound false true h = ground arith
beq_sound false false h = refl

-- A test of every number below `count`, the highest first.
unfoldable pub every_below : (count : ℕ) (test : ℕ → Bool) → Bool
every_below zero test = true
every_below (suc last) test =
    let lower = every_below last test in if test last then lower else false

pub every_below_sound :
    (count : ℕ) (test : ℕ → Bool) (k : ℕ)
    → every_below count test ≡ true
    → k < count
    → test k ≡ true
unfolding every_below
every_below_sound zero test k all_hold below = absurd (omega arith)
every_below_sound (suc last) test k all_hold below = ground (arith, every_below_sound last test k)

-- A law of a byte and two bit positions, by evaluation.
module _ (p : ℕ → ℕ → ℕ → Bool) where
  table3 : Bool
  table3 = every_below 256 (λ b. every_below 8 (λ k. every_below 8 (λ j. p b k j)))

  table3_sound : table3 ≡ true → (b k j : ℕ) → b < 256 → k < 8 → j < 8 → p b k j ≡ true
  unfolding table3
  table3_sound h b k j hb hk hj =
      every_below_sound 8 _ j (every_below_sound 8 _ k (every_below_sound 256 _ b h hb) hk) hj

set_law : ℕ → ℕ → ℕ → Bool
set_law b k j =
    ltb (set_bit b k) 256 && beq (has_bit (set_bit b k) j) (if k == j then true else has_bit b j)

clear_law : ℕ → ℕ → ℕ → Bool
clear_law b k j =
    ltb (clear_bit b k) 256
    && beq (has_bit (clear_bit b k) j) (if k == j then false else has_bit b j)

flip_law : ℕ → ℕ → ℕ → Bool
flip_law b k j =
    ltb (flip_bit b k) 256
    && beq (has_bit (flip_bit b k) j) (if k == j then not (has_bit b j) else has_bit b j)

set_table : table3 set_law ≡ true
unfolding table3 every_below set_law set_bit has_bit
set_table = refl

clear_table : table3 clear_law ≡ true
unfolding table3 every_below clear_law clear_bit has_bit
clear_table = refl

flip_table : table3 flip_law ≡ true
unfolding table3 every_below flip_law flip_bit has_bit
flip_table = refl

and_true : (b c : Bool) → (b && c) ≡ true → (b ≡ true) × (c ≡ true)
and_true b c h = ground arith

module _ (b k j : ℕ) (hb : b < 256) (hk : k < 8) (hj : j < 8) where
  -- `b | (1 << k)` sets bit k, keeps every other bit and is a byte.
  pub has_bit-set_bit :
      (set_bit b k < 256) × (has_bit (set_bit b k) j ≡ (if k == j then true else has_bit b j))
  unfolding set_law
  has_bit-set_bit =
      let e : set_law b k j ≡ true = table3_sound set_law set_table b k j hb hk hj in
      let h = and_true _ _ e in (ltb→lt _ _ h.0, beq_sound _ _ h.1)

  -- `b & ~(1 << k)` clears bit k, keeps every other bit and is a byte.
  pub has_bit-clear_bit :
      (clear_bit b k < 256) × (has_bit (clear_bit b k) j ≡ (if k == j then false else has_bit b j))
  unfolding clear_law
  has_bit-clear_bit =
      let e : clear_law b k j ≡ true = table3_sound clear_law clear_table b k j hb hk hj in
      let h = and_true _ _ e in (ltb→lt _ _ h.0, beq_sound _ _ h.1)

  -- `b ^ (1 << k)` toggles bit k, keeps every other bit and is a byte.
  pub has_bit-flip_bit :
      (flip_bit b k < 256)
      × (has_bit (flip_bit b k) j ≡ (if k == j then not (has_bit b j) else has_bit b j))
  unfolding flip_law
  has_bit-flip_bit =
      let e : flip_law b k j ≡ true = table3_sound flip_law flip_table b k j hb hk hj in
      let h = and_true _ _ e in (ltb→lt _ _ h.0, beq_sound _ _ h.1)

-- Adding the same byte by exclusive or twice gives the first byte back.
xor_law : ℕ → ℕ → Bool
xor_law x k = ltb (bit_xor x k) 256 && bit_xor (bit_xor x k) k == x

xor_table : every_below 256 (λ x. every_below 256 (λ k. xor_law x k)) ≡ true
unfolding every_below xor_law
xor_table = refl

pub bit_xor_twice :
    (x k : ℕ) → x < 256 → k < 256 → (bit_xor x k < 256) × (bit_xor (bit_xor x k) k ≡ x)
unfolding xor_law
bit_xor_twice x k hx hk =
    let e : xor_law x k ≡ true =
      every_below_sound 256 _ k (every_below_sound 256 _ x xor_table hx) hk in
    let h = and_true _ _ e in (ltb→lt _ _ h.0, (==_iff _ _).0 h.1)
