-- ===== src/Crypt/Involution.antt =====
-- The cipher of src/fs/crypto.c byte by byte.
use ios.Prelude.{
  ℕ, zero, suc, ◌+◌, ◌<◌, ◌≡◌, if◌then◌else◌, u8, bit_xor, arith, ltb, leb, ◌&&◌, refl, ==_iff,
  ne→==_false, fun_ext,
}
use native.Mathlib.Decide.{ℕ_discrete}
use ios.Bits.{bit_xor_twice}
use ios.Mem.{Mem, store}
use ios.Crypt.{key_length, key_byte, crypt_loop, crypt_xor}

abbrev IsBytes : Mem → ℕ → Type 0
IsBytes m n = (j : ℕ) → j < n → m j < 256

-- Byte j of the result: the first `len` bytes are mixed with the key, the others stay.
crypt_loop-at :
    (left i : ℕ) (buf password : Mem) (klen j : ℕ)
    → crypt_loop left i buf password klen j ≡ (
        if leb i j && ltb j (i + left)
        then u8 (bit_xor (buf j) (key_byte password klen j))
        else buf j)
unfolding crypt_loop store
crypt_loop-at zero i buf password klen j = ground arith
crypt_loop-at (suc left) i buf password klen j = ground (
  arith,
  crypt_loop-at left (i + 1) (store buf i (u8 (bit_xor (buf i) (key_byte password klen i))))
      password klen j,
)

mixed_twice : (x k : ℕ) → x < 256 → k < 256 → u8 (bit_xor (u8 (bit_xor x k)) k) ≡ x
mixed_twice x k hx hk =
    let (lt, back) = bit_xor_twice x k hx hk in
    let once : u8 (bit_xor x k) ≡ bit_xor x k = omega (arith, lt) in
    rw once (omega (arith, back, hx))

key_byte-lt : (password : Mem) (klen i : ℕ) → key_byte password klen i < 256
unfolding key_byte
key_byte-lt password klen i = omega arith

-- On a buffer whose first `len` entries are bytes, `crypt_xor` twice with the same length and password
-- gives the buffer back, whatever the password, the empty one included.
pub crypt_xor_twice :
    (room len : ℕ) (buf password : Mem)
    → IsBytes buf len
    → crypt_xor room (crypt_xor room buf len password) len password ≡ buf
unfolding crypt_xor
crypt_xor_twice room len buf password h = elim (ℕ_discrete (key_length room 0 password) 0) [
  | yes z ↦ rw ((==_iff _ _).1 z) refl
  | no nz ↦ rw (ne→==_false _ _ nz) (
      fun_ext (λ j. ground (
        arith,
        crypt_loop-at len 0 (crypt_loop len 0 buf password klen) password klen j,
        crypt_loop-at len 0 buf password klen j,
        mixed_twice (buf j) (key_byte password klen j),
        h j,
        key_byte-lt password klen j,
      )))
]
  where
    klen : ℕ
    klen = key_length room 0 password
