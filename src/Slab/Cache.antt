-- ===== src/Slab/Cache.antt =====
-- The caches of src/mm/allocator.c: three circular lists of slabs each, over the page allocator.
-- Addresses are numbers, 0 is NULL. The structures that the code lays out in pages are kept by their
-- addresses, a function for each type: the links of every `struct list`, the slabs, the caches.
pub mod Moves
pub mod Invariant
pub mod Alloc
pub mod Grow
pub mod Objects
pub mod Select
pub mod Handout
pub mod Walk
pub mod Init
pub mod Bounds
pub mod Dealloc
pub mod Search
pub mod Giveback
use ios.Prelude.{
  ℕ, zero, suc, ◌+◌, ◌-◌, ◌*◌, ◌/◌, ◌^◌, Bool, true, false, Option, none, some, ltb, leb, ◌==◌,
  ◌&&◌, if◌then◌else◌, u64,
}
use ios.Mem.{Mem, store}
use ios.Pages.{Pages, page_size, kalloc, page_free}
use ios.Slab.{
  CacheShape, Slab, cache_shape, slab_mem, new_slab, take_object, slab_ptr_to_index, give_object,
}
use ios.Slab.Links.{Links, list_init, list_next, list_append, list_remove}

-- A cache without its three lists.
pub record Cache : Type 0 where
  pub totalobjs : ℕ
  pub inuse : ℕ
  pub shape : CacheShape

-- `slab_caches` are the `cache` fields of the slabs.
pub record Heap : Type 0 where
  pub pages : Pages
  pub links : Links
  pub slabs : ℕ → Slab
  pub slab_caches : Mem
  pub caches : ℕ → Cache

-- `&cache->full`, `&cache->partial` and `&cache->free`; a slab's list is at the slab's address.
abbrev pub full : ℕ → ℕ
full cache = cache

abbrev pub partial : ℕ → ℕ
partial cache = cache + 16

abbrev pub free_list : ℕ → ℕ
free_list cache = cache + 32

-- The map with another value at a.
unfoldable pub update {ℓ} : {A : Type ℓ} → (ℕ → A) → ℕ → A → ℕ → A
update f a v = λ x. if a == x then v else f x

abbrev pub with_pages : Heap → Pages × Option ℕ → Heap × Option ℕ
with_pages h (pages, r) = (record h { pages = pages }, r)

unfoldable pub page_alloc : ℕ → Heap → Heap × Option ℕ
page_alloc pages h = with_pages h (kalloc h.pages (u64 (pages * 4096)))

unfoldable pub kernel_malloc : ℕ → Heap → Heap × Option ℕ
kernel_malloc memory h = page_alloc (u64 (memory + 4095) / 4096) h

unfoldable pub page_dealloc : ℕ → ℕ → Heap → Heap
page_dealloc addr pages h = record h { pages = page_free h.pages addr }

unfoldable pub kernel_free : ℕ → ℕ → Heap → Heap
kernel_free addr size h = page_dealloc addr (u64 (size + 4095) / 4096) h

-- `cache_grow` with its memory: the slab is new, its objects are counted, and it is the last of the
-- free ones.
unfoldable pub add_slab : ℕ → ℕ → Heap → Heap
add_slab cache addr h =
    let c = h.caches cache in
    record h {
      slabs = update h.slabs addr (new_slab c.shape addr);
      slab_caches = store h.slab_caches addr cache;
      caches =
          update h.caches cache
            (record c { totalobjs = u64 (c.totalobjs + c.shape.objs_per_slab) });
      links = list_append addr (free_list cache) h.links;
    }

-- `true` is the return value 0, `false` is -1.
unfoldable pub grow_with : ℕ → Heap × Option ℕ → Heap × Bool
grow_with cache (h, none) = (h, false)
grow_with cache (h, some addr) = (add_slab cache addr h, true)

unfoldable pub cache_grow : ℕ → Heap → Heap × Bool
cache_grow cache h = grow_with cache (kernel_malloc (slab_mem (h.caches cache).shape) h)

unfoldable pub select_grown : ℕ → Heap × Bool → Heap × Option ℕ
select_grown cache (h, true) = (h, list_next (free_list cache) h.links)
select_grown cache (h, false) = (h, none)

-- The first partial slab, or the first free one, or a new one.
unfoldable pub select_first : ℕ → Heap → Option ℕ → Option ℕ → Heap × Option ℕ
select_first cache h (some slab) other = (h, some slab)
select_first cache h none (some slab) = (h, some slab)
select_first cache h none none = select_grown cache (cache_grow cache h)

unfoldable pub cache_select : ℕ → Heap → Heap × Option ℕ
cache_select cache h =
    select_first cache h (list_next (partial cache) h.links) (list_next (free_list cache) h.links)

-- `list_remove(&slab->list); list_append(&slab->list, to);`
unfoldable pub move_slab : ℕ → ℕ → Links → Links
move_slab slab to l = list_append slab to (list_remove slab l)

-- The two moves of `cache_alloc`, by the number of objects taken before.
unfoldable pub alloc_moves : ℕ → ℕ → ℕ → ℕ → Links → Links
alloc_moves cache slab before n l =
    let l1 = if before == 0 then move_slab slab (partial cache) l else l in
    if before + 1 == n then move_slab slab (full cache) l1 else l1

unfoldable pub alloc_from : ℕ → Heap × Option ℕ → Heap × Option ℕ
alloc_from cache (h, none) = (h, none)
alloc_from cache (h, some slab) =
    let c = h.caches cache in
    let (p, taken) = take_object c.shape (h.slabs slab) in
    (
      record h {
        slabs = update h.slabs slab taken;
        links = alloc_moves cache slab (h.slabs slab).free c.shape.objs_per_slab h.links;
        caches = update h.caches cache (record c { inuse = u64 (c.inuse + 1) });
      },
      some p,
    )

unfoldable pub cache_alloc : ℕ → Heap → Heap × Option ℕ
cache_alloc cache h = alloc_from cache (cache_select cache h)

-- The two moves of `cache_dealloc_within`, by the number of objects taken before.
unfoldable pub dealloc_moves : ℕ → ℕ → ℕ → ℕ → Links → Links
dealloc_moves cache slab before n l =
    let l1 = if before == n then move_slab slab (partial cache) l else l in
    if before - 1 == 0 then move_slab slab (free_list cache) l1 else l1

-- An object in the slab, when the slab's objects are not all free.
unfoldable pub dealloc_at : ℕ → ℕ → Slab → Heap → Heap
dealloc_at cache slab given h =
    let c = h.caches cache in
    record h {
      slabs = update h.slabs slab given;
      links = dealloc_moves cache slab (h.slabs slab).free c.shape.objs_per_slab h.links;
      caches = update h.caches cache (record c { inuse = u64 (c.inuse + 2 ^ 64 - 1) });
    }

-- What a slab of the walk gives: `none` when the object is not in it. The slab is as it was when all
-- its objects are free.
pub dealloc_in : ℕ → ℕ → Option Slab → Heap → Option Heap
dealloc_in cache slab none h = none
dealloc_in cache slab (some given) h =
    some (if (h.slabs slab).free == 0 then h else dealloc_at cache slab given h)

-- The loop of `cache_dealloc_within` on fuel, to `last`, with what is left of it as `rest`; the outer
-- `none` is a walk that did not end.
abbrev pub found_or : Option Heap → Option (Option Heap) → Option (Option Heap)
found_or (some h) rest = some (some h)
found_or none rest = rest

pub dealloc_walk : ℕ → ℕ → ℕ → ℕ → ℕ → Heap → Option (Option Heap)
dealloc_walk zero cache last slab p h = none
dealloc_walk (suc fuel) cache last slab p h =
    let rest = dealloc_walk fuel cache last (h.links.next slab) p h in
    if slab == last
    then some none
    else found_or (dealloc_in cache slab (give_object (h.caches cache).shape (h.slabs slab) p) h)
        rest

unfoldable pub cache_dealloc_within : ℕ → ℕ → ℕ → ℕ → Heap → Option (Option Heap)
cache_dealloc_within fuel cache slab p h = dealloc_walk fuel cache (h.links.prev slab) slab p h

-- A list of the cache, which may have no slab: `some none` when the object is in none of them.
pub dealloc_list : ℕ → ℕ → Option ℕ → ℕ → Heap → Option (Option Heap)
dealloc_list fuel cache none p h = some none
dealloc_list fuel cache (some slab) p h = cache_dealloc_within fuel cache slab p h

-- The partial slabs, after what the full ones gave.
pub dealloc_next : Option (Option Heap) → Option (Option Heap) → Heap → Option Heap
dealloc_next none rest h = none
dealloc_next (some (some h')) rest h = some h'
dealloc_next (some none) none h = none
dealloc_next (some none) (some (some h')) h = some h'
dealloc_next (some none) (some none) h = some h

unfoldable pub cache_dealloc : ℕ → ℕ → ℕ → Heap → Option Heap
cache_dealloc fuel cache p h =
    dealloc_next (dealloc_list fuel cache (list_next (full cache) h.links) p h)
      (dealloc_list fuel cache (list_next (partial cache) h.links) p h) h

unfoldable pub init_cache : ℕ → ℕ → Heap → Heap
init_cache c objsize h = record h {
  links = list_init (free_list c) (list_init (full c) (list_init (partial c) h.links));
  caches = update h.caches c (record { totalobjs = 0; inuse = 0; shape = cache_shape objsize });
}
