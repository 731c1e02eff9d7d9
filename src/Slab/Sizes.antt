-- ===== src/Slab/Sizes.antt =====
-- Sizes of slabs in src/mm/allocator.c as numbers that do not wrap, and when they are those of the code.
use ios.Prelude.{ℕ, ◌+◌, ◌*◌, ◌/◌, ◌^◌, ◌<◌, ◌≡◌, arith}
use ios.Slab.{CacheShape, alloc_alignment, align_up, slab_size, slab_mem}

abbrev pub rounded_up : ℕ → ℕ
rounded_up x = (x + 15) / alloc_alignment * alloc_alignment

pub align_up-exact : (x : ℕ) → x + 15 < 2 ^ 64 → align_up x ≡ rounded_up x
align_up-exact x room = omega arith

-- The bytes of a slab.
unfoldable pub slab_bytes : CacheShape → ℕ
slab_bytes c = slab_size + c.objs_per_slab * 4 + 15 + c.objs_per_slab * c.objsize

pub slab_mem-exact : (c : CacheShape) → slab_bytes c < 2 ^ 64 → slab_mem c ≡ slab_bytes c
unfolding slab_mem slab_bytes
slab_mem-exact c room = omega arith
