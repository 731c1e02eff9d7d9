-- ===== src/Slab/Tests.antt =====
-- A slab of objects of 64 bytes.
use ios.Prelude.{ℕ, ◌+◌, ◌*◌, ◌%◌, ◌≤◌, ◌≡◌, some, ◌<◌, ◌^◌, ◌⊎◌, u64, [], refl, sym, arith}
use ios.Slab.{
  CacheShape, Slab, alloc_alignment, slab_size, cache_shape, slab_mem, new_slab, take_object,
}
use ios.Bits.{has_bit, set_bit}
use ios.Mem.{zeros, store, fill}
use ios.Pages.{
  Pages, init_allocator, kalloc, find_run, pages_for, take_run, is_used, mark_page, mark_pages,
}
use ios.Pages.Invariant.{IsValid, init_allocator-IsValid, init_allocator-reserves}
use ios.Slab.Links.{list_next, list_init, list_append, list_insert}
use ios.Slab.Cache.{
  Cache, Heap, update, init_cache, cache_alloc, cache_select, select_first, select_grown,
  cache_grow, grow_with, add_slab, kernel_malloc, page_alloc, alloc_from, cache_dealloc,
}
use ios.Slab.Cache.Init.{heads_own, init_cache-IsCache}
use ios.Slab.Cache.Invariant.{IsCache}
use ios.Slab.Cache.Handout.{AllocResult, IsHandedOut, cache_alloc_result}
use ios.Slab.Cache.Objects.{Out}
use ios.Slab.Cache.Giveback.{IsTakenBack, cache_dealloc_result}
use ios.Slab.Kmalloc.{
  Allocator, hdr_size, kmalloc_min, kmalloc, kmalloc_with, kmalloc_total, ensure_init, small_result,
  pick_cache_for_total, pick_loop, kfree,
}
use ios.Slab.Kmalloc.Roundtrip.{IsRestored, kfree-kmalloc}
use ios.Slab.Kmalloc.Placed.{PlacedResult, kmalloc_placed, pick_cache_for_total_lem}
use mathlib.Core.Path.{subst}
use ios.Slab.Sizes.{slab_bytes}
use ios.Slab.Free.{object, new_slab-fits}

abbrev some_cache : CacheShape
some_cache = record { objsize = 64; objs_per_slab = 59 }

abbrev some_slab : Slab
some_slab = new_slab some_cache 8192

init_cache_run : cache_shape 60 ≡ some_cache
unfolding cache_shape
init_cache_run = refl

new_slab-fits_example :
    (60 ≤ 64)
    × (8192 + slab_size + 59 * 4 ≤ object some_cache some_slab 58)
    × (object some_cache some_slab 58 + 64 ≤ 8192 + slab_mem some_cache)
    × (object some_cache some_slab 58 % alloc_alignment ≡ 0)
unfolding cache_shape slab_bytes
new_slab-fits_example = new_slab-fits 60 8192 58 (omega arith) (omega arith) (omega arith)

abbrev blank_pages : Pages
blank_pages = record { first_page = 0; bitmap = zeros; page_counts = zeros; memory = zeros }

-- The kernel ends at 0x123456, so the pages start at 0x124000; the first is reserved.
abbrev blank_heap : Heap
blank_heap = record {
  pages = init_allocator 0x123456 blank_pages;
  links = record { next = zeros; prev = zeros };
  slabs = λ x. some_slab;
  slab_caches = zeros;
  caches = λ x. record { totalobjs = 0; inuse = 0; shape = some_cache };
}

-- A cache of objects of 64 bytes, at the start of the reserved page.
abbrev the_cache : ℕ
the_cache = 0x124100

abbrev first_heap : Heap
first_heap = init_cache the_cache 64 blank_heap

abbrev first_fields : Cache
first_fields = record { totalobjs = 0; inuse = 0; shape = cache_shape 64 }

blank-IsValid : IsValid blank_heap.pages
blank-IsValid =
    init_allocator-IsValid 0x123456 blank_pages (omega arith) (λ i. omega arith) (λ a h. refl)

init_cache-IsCache_example :
    IsCache first_heap (heads_own the_cache) the_cache first_fields [] [] []
unfolding init_allocator
init_cache-IsCache_example =
    init_cache-IsCache blank_heap the_cache 64 blank-IsValid (omega arith)
      (omega arith, init_allocator-reserves 0x123456 blank_pages)
      (omega arith, init_allocator-reserves 0x123456 blank_pages)
      (omega arith, init_allocator-reserves 0x123456 blank_pages) (omega arith) (omega arith)

cache_alloc_result_example :
    AllocResult first_heap the_cache (cache_shape 64) [] [] [] (cache_alloc the_cache first_heap)
cache_alloc_result_example = cache_alloc_result init_cache-IsCache_example

cache_alloc_run : (cache_alloc the_cache first_heap).1 ≡ some 0x125120
unfolding cache_alloc cache_select select_first select_grown cache_grow grow_with add_slab
    kernel_malloc page_alloc kalloc find_run pages_for take_run is_used has_bit mark_page mark_pages
    set_bit store fill alloc_from take_object init_cache init_allocator list_next list_init
    list_append list_insert update cache_shape slab_mem new_slab
cache_alloc_run = refl

abbrev next_heap : Heap
next_heap = (cache_alloc the_cache first_heap).0

handed_out : IsHandedOut first_heap.slabs the_cache (cache_shape 64) [] [] [] next_heap 0x125120
unfolding cache_alloc cache_select select_first select_grown cache_grow grow_with add_slab
    kernel_malloc page_alloc kalloc find_run pages_for take_run is_used has_bit mark_page mark_pages
    set_bit store fill alloc_from take_object init_cache init_allocator list_next list_init
    list_append list_insert update cache_shape slab_mem new_slab
handed_out = cache_alloc_result init_cache-IsCache_example

taken-Out : Out handed_out.1.shape next_heap.slabs handed_out.2 handed_out.3 handed_out.4 0x125120
taken-Out =
    subst (λ k. Out k next_heap.slabs handed_out.2 handed_out.3 handed_out.4 0x125120)
      (sym handed_out.6) handed_out.8

cache_dealloc_result_example :
    (h' : Heap) × (cache_dealloc 8000 the_cache 0x125120 next_heap ≡ some h')
    × IsTakenBack next_heap.slabs the_cache handed_out.1.shape handed_out.2 handed_out.3
        handed_out.4 0x125120 h'
cache_dealloc_result_example =
    cache_dealloc_result 8000 0x125120 handed_out.5 (omega arith) taken-Out

-- An allocator each of whose size caches is that one.
abbrev the_allocator : Allocator
the_allocator = record {
  heap = first_heap;
  cache_cache = 0x124000;
  size_caches = λ i. the_cache;
  headers = λ a. record { magic = 0; cache = 0; raw_base = 0; raw_bytes = 0 };
}

-- 20 bytes, behind a header.
kmalloc_run : (kmalloc 0x123456 20 the_allocator).1 ≡ some 0x125140
unfolding cache_alloc cache_select select_first select_grown cache_grow grow_with add_slab
    kernel_malloc page_alloc kalloc find_run pages_for take_run is_used has_bit mark_page mark_pages
    set_bit store fill alloc_from take_object init_cache init_allocator list_next list_init
    list_append list_insert update cache_shape slab_mem new_slab kmalloc kmalloc_with kmalloc_total
    ensure_init small_result pick_cache_for_total pick_loop
kmalloc_run = refl

picked : pick_cache_for_total (u64 (hdr_size + 20)) the_allocator.size_caches ≡ the_cache
unfolding pick_cache_for_total pick_loop
picked = refl

kfree-kmalloc_example :
    (a' : Allocator) × (kfree 8000 0x125140 (kmalloc 0x123456 20 the_allocator).0 ≡ some a')
    × IsRestored first_heap.slabs the_cache (cache_shape 64) [] [] [] a'
unfolding cache_shape
kfree-kmalloc_example =
    kfree-kmalloc 0x123456 20 8000 the_cache 0x125140 the_allocator init_cache-IsCache_example
      (omega arith) (omega arith) (omega arith) picked (omega arith) (omega arith) kmalloc_run

kmalloc_placed_example :
    PlacedResult the_allocator the_cache 20
      (cache_shape 64)
      []
      []
      []
      (kmalloc 0x123456 20 the_allocator)
unfolding cache_shape
kmalloc_placed_example =
    kmalloc_placed 0x123456 64 20 the_cache the_allocator init_cache-IsCache_example (omega arith)
      (omega arith) (omega arith) picked refl (omega arith)

pick_cache_for_total_lem_example :
    ((k : ℕ) × (k < 8)
      × (pick_cache_for_total 100 zeros ≡ 0)
      × (100 ≤ kmalloc_min * 2 ^ k)
      × ((j : ℕ) → j < k → kmalloc_min * 2 ^ j < 100))
    ⊎ ((pick_cache_for_total 100 zeros ≡ 0) × (kmalloc_min * 2 ^ 7 < 100))
pick_cache_for_total_lem_example = pick_cache_for_total_lem 100 zeros
