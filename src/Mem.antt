-- ===== src/Mem.antt =====
-- Memory objects as functions from an offset to a byte, and src/framework/mem.c over them.
-- The objects of one call are distinct. The copy of `krealloc`, whose two ranges lie in one memory, is the
-- same loop in Pages.
-- Little-endian fields are those that the compiler lays out for x86-64 in packed structures.
pub mod Loops
pub mod Fields
pub mod Segments
mod Tests
use ios.Prelude.{
  ℕ, zero, suc, ◌+◌, ◌-◌, ◌*◌, ◌/◌, ◌%◌, ◌^◌, ◌&&◌, ◌==◌, ltb, leb, u8, u16, u32, if◌then◌else◌, ℤ,
  pos, negsuc, List, [], ◌∷◌,
}

abbrev pub Mem : Type 0
Mem = ℕ → ℕ

-- `m[i] = v`
unfoldable pub store : Mem → ℕ → ℕ → Mem
store m i v = λ j. if i == j then v else m j

-- `m` with its bytes d .. d + n - 1 taken from `src` at s; the meaning of `memcpy`.
unfoldable pub blit : Mem → ℕ → Mem → ℕ → ℕ → Mem
blit m d src s n = λ j. if leb d j && ltb j (d + n) then src (s + (j - d)) else m j

-- `m` with its bytes d .. d + n - 1 all `v`; the meaning of `memset`.
unfoldable pub fill : Mem → ℕ → ℕ → ℕ → Mem
fill m d v n = λ j. if leb d j && ltb j (d + n) then v else m j

abbrev pub zeros : Mem
zeros j = 0

-- An object whose bytes are all `v`.
abbrev pub all_bytes : ℕ → Mem
all_bytes v j = v

-- The object that starts at offset `o` of another: pointer arithmetic.
abbrev pub at_offset : Mem → ℕ → Mem
at_offset m o j = m (o + j)

-- The loop of `memcpy` with `left` rounds to go.
pub memcpy_loop : ℕ → ℕ → Mem → ℕ → Mem → ℕ → Mem
memcpy_loop zero i dest d src s = dest
memcpy_loop (suc left) i dest d src s =
    memcpy_loop left (i + 1) (store dest (d + i) (src (s + i))) d src s

pub memcpy : Mem → ℕ → Mem → ℕ → ℕ → Mem
memcpy dest d src s n = memcpy_loop n 0 dest d src s

-- `while (num--) *p++ = (unsigned char)value`, `p` being the offset.
pub memset : Mem → ℕ → ℕ → ℕ → Mem
memset m p value zero = m
memset m p value (suc num) = memset (store m p (u8 value)) (p + 1) value num

-- `memcmp` of the bytes from offset `a` of `m1` and from `b` of `m2`.
unfoldable pub memcmp : Mem → ℕ → Mem → ℕ → ℕ → ℤ
memcmp m1 a m2 b zero = pos 0
memcmp m1 a m2 b (suc num) =
    let rest = memcmp m1 (a + 1) m2 (b + 1) num in
    if m1 a == m2 b then rest else if ltb (m2 b) (m1 a) then pos 1 else negsuc 0

-- The string at offset `o`: its bytes before the first zero, at most `room` of them.
unfoldable pub c_string : Mem → ℕ → ℕ → List ℕ
c_string m o zero = []
c_string m o (suc room) = let rest = c_string m (o + 1) room in if m o == 0 then [] else m o ∷ rest

-- Fields of packed structures.
unfoldable pub get_u16 : Mem → ℕ → ℕ
get_u16 m o = m o + m (o + 1) * 256

unfoldable pub get_u32 : Mem → ℕ → ℕ
get_u32 m o = m o + m (o + 1) * 256 + m (o + 2) * 65536 + m (o + 3) * 16777216

unfoldable pub put_u16 : Mem → ℕ → ℕ → Mem
put_u16 m o v = store (store m o (u8 v)) (o + 1) (u8 (v / 2 ^ 8))

unfoldable pub put_u32 : Mem → ℕ → ℕ → Mem
put_u32 m o v =
    store (store (store (store m o (u8 v)) (o + 1) (u8 (v / 2 ^ 8))) (o + 2) (u8 (v / 2 ^ 16)))
      (o + 3) (u8 (v / 2 ^ 24))
