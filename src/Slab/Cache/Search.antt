-- ===== src/Slab/Cache/Search.antt =====
-- Which list of a cache of src/mm/allocator.c has the slab of an object.
use ios.Prelude.{
  ℕ, ◌<◌, ◌≡◌, ◌≢◌, some, none, List, [], ◌∷◌, ◌++◌, arith, sym, refl, ap, All, length,
  length-append,
}
use ios.Prelude.Injective.{IsInjective-onto}
use mathlib.Core.Path.{subst}
use native.Mathlib.Decide.{ℕ_discrete}
use ios.Mem.{Mem}
use ios.Slab.{CacheShape, Slab, give_object}
use ios.Slab.Free.{object, IsFree, IsSlab}
use ios.Slab.Links.{list_next}
use ios.Slab.Links.Rings.{Fresh}
use ios.Slab.Links.Owned.{IsRing, list_next-none, list_next-some}
use ios.Slab.Cache.{Cache, Heap, dealloc_in, dealloc_list, dealloc_walk, cache_dealloc_within}
use ios.Slab.Cache.Invariant.{IsCache, IsCacheSlab, sum_of, one_at, occurs}
use ios.Slab.Cache.Objects.{slab_of}
use ios.Slab.Cache.Walk.{IsOutside, object-IsOutside, dealloc_walk-none, dealloc_walk-found}

-- A slab whose objects are all free has none that is handed out.
pub some_taken :
    (c : CacheShape) (s : Slab) (i : ℕ)
    → IsSlab c s
    → i < c.objs_per_slab
    → ¬ IsFree c s i
    → s.free ≢ 0
some_taken c s i ok lt taken none_taken =
    IsInjective-onto c.objs_per_slab s.bufctl (λ k lu. ok.in_slab k (omega arith) lu)
      (λ k l less lu. ok.distinct k l (omega arith) less lu) i lt
      (λ k lu e. taken (k, omega arith, lu, e))

-- Where a node stands in a list.
pub split_at :
    (x : ℕ) (nodes : List ℕ)
    → 0 < sum_of (one_at x) nodes
    → (ls : List ℕ) × (rs : List ℕ) × (nodes ≡ ls ++ x ∷ rs)
split_at x [] lt = absurd (omega (arith, lt))
split_at x (y ∷ ys) lt = elim (ℕ_discrete y x) [
  | yes e ↦ ([], ys, ap (λ z. z ∷ ys) e)
  | no ne ↦ let (ls, rs, e) = split_at x ys (ground arith) in (y ∷ ls, rs, ap (λ zs. y ∷ zs) e)
]

-- The object of x is in no slab of other nodes.
module _ {h : Heap} {own : Mem} {cache : ℕ} {c : Cache} {fs ps es : List ℕ}
    (v : IsCache h own cache c fs ps es) (x i : ℕ) (at : 0 < occurs x fs ps es)
    (lt : i < c.shape.objs_per_slab) where
  pub outside :
      (nodes : List ℕ)
      → Fresh x nodes
      → All (λ y. IsCacheSlab h.pages c.shape y (h.slabs y)) nodes
      → All (λ y. IsOutside c.shape (h.slabs y) (object c.shape (h.slabs x) i)) nodes
  outside [] fresh good = tt
  outside (y ∷ ys) (ne, fresh) (g, good) = (
    object-IsOutside i v.pages v.some_object (slab_of v x at) g (λ e. ne (sym e)) lt,
    outside ys fresh good,
  )

pub length-part :
    (ls : List ℕ) (x : ℕ) (rs : List ℕ) (fuel : ℕ) → length (ls ++ x ∷ rs) < fuel → length ls < fuel
length-part ls x rs fuel lt = omega (arith, lt, length-append ls (x ∷ rs))

module _ (h : Heap) {own : Mem} (cache p fuel : ℕ) {head : ℕ} where
  -- A list whose slabs do not have the object.
  pub list_without :
      (nodes : List ℕ)
      → IsRing h.links own head nodes
      → All (λ y. IsOutside (h.caches cache).shape (h.slabs y) p) nodes
      → length nodes < fuel
      → dealloc_list fuel cache (list_next head h.links) p h ≡ some none
  unfolding dealloc_list cache_dealloc_within
  list_without [] r out lt = rw (list_next-none r) refl
  list_without (y ∷ ys) r out lt =
      rw (list_next-some r, r.chain.1)
        (subst (λ z. dealloc_walk fuel cache head z p h ≡ some none) r.chain.0
          (dealloc_walk-none h cache head p fuel head (y ∷ ys) out r.others lt r.chain))

  -- A list with the object's slab.
  pub list_with :
      (ls : List ℕ) (x : ℕ) (rs : List ℕ) (given : Slab)
      → IsRing h.links own head (ls ++ x ∷ rs)
      → All (λ y. IsOutside (h.caches cache).shape (h.slabs y) p) ls
      → give_object (h.caches cache).shape (h.slabs x) p ≡ some given
      → length (ls ++ x ∷ rs) < fuel
      → dealloc_list fuel cache (list_next head h.links) p h
        ≡ some (dealloc_in cache x (some given) h)
  unfolding dealloc_list cache_dealloc_within
  list_with [] x rs given r out found lt =
      rw (list_next-some r, r.chain.1)
        (subst (λ z. dealloc_walk fuel cache head z p h ≡ some (dealloc_in cache x (some given) h))
          r.chain.0
          (dealloc_walk-found h cache head p fuel head [] x rs given tt found r.others
            (length-part [] x rs fuel lt) r.chain))
  list_with (y ∷ ys) x rs given r out found lt =
      rw (list_next-some r, r.chain.1)
        (subst (λ z. dealloc_walk fuel cache head z p h ≡ some (dealloc_in cache x (some given) h))
          r.chain.0
          (dealloc_walk-found h cache head p fuel head (y ∷ ys) x rs given out found r.others
            (length-part (y ∷ ys) x rs fuel lt) r.chain))
