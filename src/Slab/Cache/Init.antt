-- ===== src/Slab/Cache/Init.antt =====
-- `init_cache` of src/mm/allocator.c makes a cache without slabs.
use ios.Prelude.{
  ℕ, ◌+◌, ◌-◌, ◌*◌, ◌/◌, ◌==◌, if◌then◌else◌, ◌≤◌, ◌≡◌, ◌≢◌, inl, inr, [], arith, sym, refl, ◌∙◌,
  ne→==_false,
}
use mathlib.Core.Path.{subst}
use native.Mathlib.Decide.{ℕ_discrete}
use ios.Mem.{Mem, store, zeros}
use ios.Pages.{page_size, physical_memory_size}
use ios.Pages.Invariant.{IsValid}
use ios.Slab.{cache_shape, align_up, alloc_alignment, slab_size}
use ios.Slab.Sizes.{slab_bytes}
use ios.Slab.Links.{list_init}
use ios.Slab.Cache.{Heap, full, partial, free_list, init_cache}
use ios.Slab.Cache.Invariant.{IsCache, IsHeadOf, Held, update-same}

-- The count of objects of a slab, before it is made positive.
slab_bytes-count :
    (size n : ℕ)
    → n ≡ (page_size - slab_size) / (size + 4)
    → 4 * n + n * size ≤ page_size - slab_size
slab_bytes-count size n e = quotient (page_size - slab_size) (size + 4) n e
  where
    quotient : (a b n : ℕ) → n ≡ a / (size + 4) → 4 * n + n * size ≤ a
    quotient a b n e = grind arith

room_for_slab :
    (size n : ℕ)
    → 4 * n + n * size ≤ page_size - slab_size
    → size + page_size ≤ physical_memory_size + 16
    → let m = if n == 0 then 1 else n in
      slab_size + m * 4 + (alloc_alignment - 1) + m * size ≤ physical_memory_size
room_for_slab size n product fits = elim (ℕ_discrete n 0) [
  | yes z ↦ rw z (omega arith)
  | no some_objects ↦ rw (ne→==_false n 0 some_objects) (omega (arith, product))
]

pub cache_shape-small :
    (objsize : ℕ)
    → objsize + page_size ≤ physical_memory_size
    → slab_bytes (cache_shape objsize) ≤ physical_memory_size
unfolding cache_shape slab_bytes
cache_shape-small objsize fits =
    let size = align_up objsize in
    room_for_slab size ((page_size - slab_size) / (size + 4))
      (slab_bytes-count size ((page_size - slab_size) / (size + 4)) refl) (omega arith)

-- The lists of the three heads alone.
abbrev pub heads_own : ℕ → Mem
heads_own cache =
    store (store (store zeros (partial cache) (partial cache)) (full cache) (full cache))
      (free_list cache) (free_list cache)

no_head :
    (cache x : ℕ)
    → cache ≢ 0
    → x ≢ full cache
    → x ≢ partial cache
    → x ≢ free_list cache
    → ¬ IsHeadOf cache (heads_own cache x)
unfolding store
no_head cache x nz a b d at = no_zero (ground arith) at
  where
    no_zero : heads_own cache x ≡ 0 → ¬ IsHeadOf cache (heads_own cache x)
    no_zero z (inl e) = nz (sym e ∙ z)
    no_zero z (inr (inl e)) = omega (arith, e, z)
    no_zero z (inr (inr e)) = omega (arith, e, z)

-- `init_cache` at an address, not 0, whose three list heads lie in pages in use, for objects of a size,
-- not 0, that leaves a page of the memory: a well-formed cache without slabs.
pub init_cache-IsCache :
    (h : Heap) (cache objsize : ℕ)
    → IsValid h.pages
    → cache ≢ 0
    → Held h.pages (full cache)
    → Held h.pages (partial cache)
    → Held h.pages (free_list cache)
    → 1 ≤ objsize
    → objsize + page_size ≤ physical_memory_size
    → IsCache
        (init_cache cache objsize h)
        (heads_own cache)
        cache
        (record { totalobjs = 0; inuse = 0; shape = cache_shape objsize })
        []
        []
        []
unfolding init_cache list_init store
init_cache-IsCache h cache objsize v nz held_full held_partial held_free positive fits = record {
  fields =
      update-same h.caches cache (record { totalobjs = 0; inuse = 0; shape = cache_shape objsize });
  pages = v;
  some_object = unfold cache_shape in ground arith;
  some_size = unfold cache_shape in omega arith;
  small = cache_shape-small objsize fits;
  held = λ x at. elim (ℕ_discrete x (full cache)) [
    | yes e ↦ subst (Held h.pages) (sym e) held_full
    | no not_full ↦ elim (ℕ_discrete x (partial cache)) [
      | yes e ↦ subst (Held h.pages) (sym e) held_partial
      | no not_partial ↦ elim (ℕ_discrete x (free_list cache)) [
        | yes e ↦ subst (Held h.pages) (sym e) held_free
        | no not_free ↦ absurd (no_head cache x nz not_full not_partial not_free at)
      ]
    ]
  ];
  rings = record {
    fulls = record {
      head = ground arith;
      owned = tt;
      others = tt;
      distinct = tt;
      chain = (ground arith, ground arith);
    };
    partials = record {
      head = ground arith;
      owned = tt;
      others = tt;
      distinct = tt;
      chain = (ground arith, ground arith);
    };
    frees = record {
      head = ground arith;
      owned = tt;
      others = tt;
      distinct = tt;
      chain = (ground arith, ground arith);
    };
  };
  contents = record { fulls = tt; partials = tt; frees = tt };
  total = omega arith;
  in_use = refl;
}
