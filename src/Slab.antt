-- ===== src/Slab.antt =====
-- src/mm/allocator.c: one slab of a cache, the objects in it that are free, and how many objects a
-- slab of a cache has.
pub mod Sizes
pub mod Free
pub mod Links
pub mod Cache
pub mod Kmalloc
mod Tests
use ios.Prelude.{
  ℕ, ◌+◌, ◌-◌, ◌*◌, ◌/◌, ◌<◌, Option, none, some, ltb, leb, ◌==◌, ◌&&◌, if◌then◌else◌, u64,
}
use ios.Mem.{Mem, store}
use ios.Pages.{page_size}

abbrev pub alloc_alignment : ℕ
alloc_alignment = 16

-- `ALIGN_UP(x, ALLOC_ALIGNMENT)`; the sum wraps as `size_t`.
abbrev pub align_up : ℕ → ℕ
align_up x = u64 (x + (alloc_alignment - 1)) / alloc_alignment * alloc_alignment

-- `sizeof(Slab)`: two links, two pointers and a number.
abbrev pub slab_size : ℕ
slab_size = 40

-- The fields of a cache that fix its slabs.
pub record CacheShape : Type 0 where
  pub objsize : ℕ
  pub objs_per_slab : ℕ

-- `init_cache`, the lists and counts left out.
unfoldable pub cache_shape : ℕ → CacheShape
cache_shape objsize =
    let size = align_up objsize in
    let count = (page_size - slab_size) / (size + 4) in
    record { objsize = size; objs_per_slab = if count == 0 then 1 else count }

-- The sum wraps as `size_t`.
unfoldable pub slab_mem : CacheShape → ℕ
slab_mem c =
    u64 (slab_size + c.objs_per_slab * 4 + (alloc_alignment - 1) + c.objs_per_slab * c.objsize)

-- A slab without its links: where its objects are, how many are taken, and the numbers of objects,
-- those at `free` and above being the free ones.
pub record Slab : Type 0 where
  pub memory : ℕ
  pub free : ℕ
  pub bufctl : Mem

-- The slab that `cache_grow` makes at an address.
unfoldable pub new_slab : CacheShape → ℕ → Slab
new_slab c addr = record {
  memory = align_up (addr + slab_size + c.objs_per_slab * 4);
  free = 0;
  bufctl = λ i. i;
}

-- What `cache_alloc` does with the slab that it selected: the object, and the slab after it.
unfoldable pub take_object : CacheShape → Slab → ℕ × Slab
take_object c s = (s.memory + c.objsize * s.bufctl s.free, record s { free = s.free + 1 })

unfoldable pub slab_ptr_to_index : CacheShape → Slab → ℕ → ℕ
slab_ptr_to_index c s p = (p - s.memory) / c.objsize

-- What `cache_dealloc_within` does with one slab of its walk: nothing when the object is not in it, and
-- the slab as it was when all its objects are free.
unfoldable pub give_object : CacheShape → Slab → ℕ → Option Slab
give_object c s p =
    if leb s.memory p && ltb p (s.memory + c.objsize * c.objs_per_slab)
    then (if s.free == 0
        then some s
        else some (record s {
          free = s.free - 1;
          bufctl = store s.bufctl (s.free - 1) (slab_ptr_to_index c s p);
        }))
    else none
