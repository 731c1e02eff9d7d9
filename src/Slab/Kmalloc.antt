-- ===== src/Slab/Kmalloc.antt =====
-- `kmalloc` and `kfree` of src/mm/allocator.c, with the global caches and the headers of allocations.
pub mod Roundtrip
pub mod Placed
use ios.Prelude.{
  ℕ, zero, suc, ◌+◌, ◌-◌, ◌*◌, ◌/◌, ◌^◌, Bool, true, false, Option, none, some, leb, ◌==◌,
  if◌then◌else◌, u64,
}
use ios.Mem.{Mem, store}
use ios.Pages.{init_allocator, page_free}
use ios.Slab.{align_up}
use ios.Slab.Cache.{Heap, update, kernel_malloc, cache_grow, cache_alloc, cache_dealloc, init_cache}

abbrev pub alloc_magic : ℕ
alloc_magic = 0xCACECAFE

abbrev pub kmalloc_min : ℕ
kmalloc_min = 32

-- `sizeof(Cache)`: three lists of two links, four numbers.
abbrev pub cache_size : ℕ
cache_size = 80

-- `HDR_SIZE`: a header is 32 bytes, two 32-bit numbers, two pointers and a number.
abbrev pub hdr_size : ℕ
hdr_size = align_up 32

pub record AllocHdr : Type 0 where
  pub magic : ℕ
  pub cache : ℕ
  pub raw_base : ℕ
  pub raw_bytes : ℕ

-- The global variables, and the headers by their addresses.
pub record Allocator : Type 0 where
  pub heap : Heap
  pub cache_cache : ℕ
  pub size_caches : Mem
  pub headers : ℕ → AllocHdr

-- The loop over the size caches with `left` rounds to go.
unfoldable pub pick_loop : ℕ → ℕ → ℕ → ℕ → Mem → ℕ
pick_loop zero i sz total size_caches = 0
pick_loop (suc left) i sz total size_caches =
    let rest = pick_loop left (i + 1) (u64 (sz * 2)) total size_caches in
    if leb total sz then size_caches i else rest

unfoldable pub pick_cache_for_total : ℕ → Mem → ℕ
pick_cache_for_total total size_caches = pick_loop 8 0 kmalloc_min total size_caches

pub cache_of : ℕ → Heap × Option ℕ → Heap × Option ℕ
cache_of objsize (h, none) = (h, none)
cache_of objsize (h, some c) = (init_cache c objsize h, some c)

unfoldable pub create_new_cache : ℕ → ℕ → Heap → Heap × Option ℕ
create_new_cache cache_cache objsize h = cache_of objsize (cache_alloc cache_cache h)

-- `size_caches[i] = ...`, and whether it is not NULL.
pub set_size_cache : ℕ → Allocator → Heap × Option ℕ → Allocator × Bool
set_size_cache i a (h, none) = (record a { heap = h; size_caches = store a.size_caches i 0 }, false)
set_size_cache i a (h, some c) =
    (record a { heap = h; size_caches = store a.size_caches i c }, true)

-- The loop of `allocator_init` with `left` rounds to go.
pub create_caches : ℕ → ℕ → ℕ → Allocator → Allocator × Bool
create_caches zero i sz a = (a, true)
create_caches (suc left) i sz a =
    let (b, made) = set_size_cache i a (create_new_cache a.cache_cache sz a.heap) in
    let rest = create_caches left (i + 1) (u64 (sz * 2)) b in if made then rest else (b, false)

pub init_grown : Allocator → Heap × Bool → Allocator × Bool
init_grown a (h, false) = (record a { heap = h }, false)
init_grown a (h, true) = create_caches 8 0 kmalloc_min (record a { heap = h })

pub init_with : Allocator → Heap × Option ℕ → Allocator × Bool
init_with a (h, none) = (record a { heap = h; cache_cache = 0 }, false)
init_with a (h, some c) =
    let h1 = init_cache c cache_size h in
    init_grown (record a { heap = h1; cache_cache = c }) (cache_grow c h1)

-- `true` is the return value 0.
unfoldable pub allocator_init : ℕ → Allocator → Allocator × Bool
allocator_init endkernel a =
    let h = record a.heap { pages = init_allocator endkernel a.heap.pages } in
    if a.cache_cache == 0
    then init_with (record a { heap = h }) (kernel_malloc cache_size h)
    else (record a { heap = h }, true)

unfoldable pub ensure_init : ℕ → Allocator → Allocator × Bool
ensure_init endkernel a = if a.cache_cache == 0 then allocator_init endkernel a else (a, true)

-- An object of a cache behind its header.
unfoldable pub small_result : ℕ → Allocator → Heap × Option ℕ → Allocator × Option ℕ
small_result c a (h, none) = (record a { heap = h }, none)
small_result c a (h, some obj) = (
  record a {
    heap = h;
    headers =
        update a.headers obj
          (record { magic = alloc_magic; cache = c; raw_base = 0; raw_bytes = 0 });
  },
  some (obj + hdr_size),
)

-- Whole pages, with the header right before the memory.
pub large_result : ℕ → Allocator → Heap × Option ℕ → Allocator × Option ℕ
large_result raw_bytes a (h, none) = (record a { heap = h }, none)
large_result raw_bytes a (h, some raw) =
    let user = align_up (raw + hdr_size) in
    (
      record a {
        heap = h;
        headers =
            update a.headers (user - hdr_size)
              (record { magic = alloc_magic; cache = 0; raw_base = raw; raw_bytes = raw_bytes });
      },
      some user,
    )

unfoldable pub kmalloc_total : ℕ → Allocator → Allocator × Option ℕ
kmalloc_total total a =
    let c = pick_cache_for_total total a.size_caches in
    if c == 0
    then large_result (u64 (total + 15)) a (kernel_malloc (u64 (total + 15)) a.heap)
    else small_result c a (cache_alloc c a.heap)

unfoldable pub kmalloc_with : ℕ → Allocator × Bool → Allocator × Option ℕ
kmalloc_with size (a, false) = (a, none)
kmalloc_with size (a, true) = kmalloc_total (u64 (hdr_size + size)) a

unfoldable pub kmalloc : ℕ → ℕ → Allocator → Allocator × Option ℕ
kmalloc endkernel size a =
    if size == 0 then (a, none) else kmalloc_with size (ensure_init endkernel a)

abbrev pub with_heap : Allocator → Option Heap → Option Allocator
with_heap a none = none
with_heap a (some h) = some (record a { heap = h })

abbrev pub free_pages : Allocator → ℕ → Allocator
free_pages a addr = record a { heap = record a.heap { pages = page_free a.heap.pages addr } }

-- The fuel is for the walks of `cache_dealloc`.
unfoldable pub kfree : ℕ → ℕ → Allocator → Option Allocator
kfree fuel ptr a =
    let at = u64 (ptr + 2 ^ 64 - hdr_size) in
    let hdr = a.headers at in
    if ptr == 0
    then some a
    else if hdr.magic == alloc_magic
    then (if hdr.cache == 0
        then some (free_pages a hdr.raw_base)
        else with_heap a (cache_dealloc fuel hdr.cache at a.heap))
    else some (free_pages a ptr)
