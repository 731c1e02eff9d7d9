-- ===== src/Mem/Fields.antt =====
-- Reading back little-endian fields.
use ios.Prelude.{ℕ, ◌+◌, ◌^◌, ◌<◌, ◌≡◌, arith, ◌⊎◌, ◌≤◌}
use ios.Mem.{Mem, store, get_u16, get_u32, put_u16, put_u32}

pub get_u32-put_u32 : (m : Mem) (o v : ℕ) → v < 2 ^ 32 → get_u32 (put_u32 m o v) o ≡ v
unfolding get_u32 put_u32 store
get_u32-put_u32 m o v h = ground arith

pub get_u16-put_u16 : (m : Mem) (o v : ℕ) → v < 2 ^ 16 → get_u16 (put_u16 m o v) o ≡ v
unfolding get_u16 put_u16 store
get_u16-put_u16 m o v h = ground arith

pub put_u32_outside : (m : Mem) (o v j : ℕ) → (j < o) ⊎ (o + 4 ≤ j) → put_u32 m o v j ≡ m j
unfolding put_u32 store
put_u32_outside m o v j h = ground arith
