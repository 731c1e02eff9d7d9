-- ===== src/Slab/Cache/Alloc.antt =====
-- `cache_alloc` of src/mm/allocator.c on the slab that it selected.
use ios.Prelude.{
  ℕ, ◌+◌, ◌*◌, ◌<◌, ◌≡◌, ◌≢◌, some, List, [], ◌∷◌, ◌++◌, arith, refl, ap, ◌∙◌, All, All-append, u64,
  inl, inr,
}
use native.Mathlib.Decide.{ℕ_discrete}
use ios.Mem.{Mem}
use ios.Slab.{CacheShape, Slab, take_object}
use ios.Slab.Free.{take_object-Taken}
use ios.Slab.Links.Rings.{Fresh}
use ios.Slab.Cache.{Cache, Heap, alloc_from, alloc_moves, update}
use ios.Slab.Cache.Moves.{
  partial-Fresh, free_list-Fresh, alloc_moves-stays, alloc_moves-fills, alloc_moves-opens,
  alloc_moves-opens_fills,
}
use ios.Slab.Cache.Invariant.{
  IsCache, IsHeadOf, IsCacheSlab, IsFullSlab, IsPartialSlab, IsFreeSlab, SameNodes, sum_of,
  sum_of-append, taken_at, All-update, at-update, sum_of-update, update-same, IsCacheSlab-with,
  IsCache-with,
}

-- A state of the cache with the slabs that it had.
abbrev pub StillCache : Heap → ℕ → CacheShape → List ℕ → List ℕ → List ℕ → Type 0
StillCache h cache shape fs ps es =
    (own : Mem) × (c : Cache) × (fs' : List ℕ) × (ps' : List ℕ) × (es' : List ℕ) × IsCache h own
      cache c fs' ps' es'
    × (c.shape ≡ shape)
    × SameNodes fs ps es fs' ps' es'

abbrev pub taken_slab : Slab → Slab
taken_slab s = record s { free = s.free + 1 }

-- One more object is in use.
abbrev pub allocated : Heap → ℕ → Cache → ℕ → Heap
allocated h cache c x = record h {
  slabs = update h.slabs x (taken_slab (h.slabs x));
  links = alloc_moves cache x (h.slabs x).free c.shape.objs_per_slab h.links;
  caches = update h.caches cache (record c { inuse = u64 (c.inuse + 1) });
}

pub alloc_from-allocated :
    (h : Heap) (cache x : ℕ) (c : Cache)
    → h.caches cache ≡ c
    → alloc_from cache (h, some x) ≡ (
      allocated h cache c x,
      some ((h.slabs x).memory + c.shape.objsize * (h.slabs x).bufctl (h.slabs x).free),
    )
unfolding alloc_from take_object
alloc_from-allocated h cache x c e = rw e refl

taken_slab-IsCacheSlab :
    {h : Heap} {own : Mem} {cache x : ℕ} {c : Cache} {fs ps es : List ℕ}
    → IsCache h own cache c fs ps es
    → IsCacheSlab h.pages c.shape x (h.slabs x)
    → (h.slabs x).free < c.shape.objs_per_slab
    → IsCacheSlab h.pages c.shape x (taken_slab (h.slabs x))
taken_slab-IsCacheSlab {h} {own} {cache} {x} {c} v k lt =
    IsCacheSlab-with k
      (unfold take_object in (take_object-Taken c.shape (h.slabs x) k.slab lt).slab) refl

moved_back : (x : ℕ) (f : ℕ → ℕ) (xs : List ℕ) → sum_of f (xs ++ x ∷ []) ≡ sum_of f xs + f x
moved_back x f xs = omega (arith, sum_of-append f xs (x ∷ []))

counted : (count m : ℕ) → count ≡ u64 m → u64 (count + 1) ≡ u64 (m + 1)
counted count m e = omega arith

-- The slabs after an object of x is taken.
abbrev pub after_take : Heap → ℕ → ℕ → Slab
after_take h x = update h.slabs x (taken_slab (h.slabs x))

taken_here : (h : Heap) (x : ℕ) → taken_at (after_take h x) x ≡ (h.slabs x).free + 1
taken_here h x = ap (λ s. s.free) (update-same h.slabs x (taken_slab (h.slabs x)))

module _ {h : Heap} {own : Mem} {cache x : ℕ} {c : Cache} {fs es : List ℕ} where
  -- The first partial slab.
  pub allocated-partial :
      {ps : List ℕ}
      → IsCache h own cache c fs (x ∷ ps) es
      → StillCache (allocated h cache c x) cache c.shape fs (x ∷ ps) es
  allocated-partial {ps} v = elim (ℕ_discrete ((h.slabs x).free + 1) c.shape.objs_per_slab) [
    | yes last ↦
        (let (own', w) =
            IsCache-with x _ (after_take h x) _ v at same
              (alloc_moves-fills some_taken last v.rings)
              (record {
                fulls =
                    All-append (λ y. IsFullSlab h.pages c.shape y (after_take h x y)) fs (x ∷ [])
                      (All-update (IsFullSlab h.pages c.shape) h.slabs x (taken_slab (h.slabs x)) fs
                        ff v.contents.fulls)
                      (
                        at-update (IsFullSlab h.pages c.shape) h.slabs x (taken_slab (h.slabs x))
                            (taken_good, last),
                        tt,
                      );
                partials =
                    All-update (IsPartialSlab h.pages c.shape) h.slabs x (taken_slab (h.slabs x)) ps
                      fp v.contents.partials.1;
                frees = frees';
              })
              more in
          (own', _, fs ++ x ∷ [], ps, es, w, refl, same))
    | no before ↦
        (let (own', w) =
            IsCache-with x _ (after_take h x) _ v at (λ f. refl)
              (alloc_moves-stays some_taken before v.rings)
              (record {
                fulls =
                    All-update (IsFullSlab h.pages c.shape) h.slabs x (taken_slab (h.slabs x)) fs ff
                      v.contents.fulls;
                partials = (
                  at-update (IsPartialSlab h.pages c.shape) h.slabs x (taken_slab (h.slabs x))
                      (taken_good, omega arith, omega arith),
                  All-update (IsPartialSlab h.pages c.shape) h.slabs x (taken_slab (h.slabs x)) ps
                      fp v.contents.partials.1,
                );
                frees = frees';
              })
              more in
          (own', _, fs, x ∷ ps, es, w, refl, λ f. refl))
  ]
    where
      here : IsPartialSlab h.pages c.shape x (h.slabs x)
      here = v.contents.partials.0

      some_taken : (h.slabs x).free ≢ 0
      some_taken = omega (arith, here.1)

      taken_good : IsCacheSlab h.pages c.shape x (taken_slab (h.slabs x))
      taken_good = taken_slab-IsCacheSlab v here.0 here.2

      at : IsHeadOf cache (own x)
      at = inr (inl v.rings.partials.owned.0)

      ff : Fresh x fs
      ff = (partial-Fresh [] x ps v.rings).0

      fp : Fresh x ps
      fp = (partial-Fresh [] x ps v.rings).1

      fe : Fresh x es
      fe = (partial-Fresh [] x ps v.rings).2

      frees' : All (λ y. IsFreeSlab h.pages c.shape y (after_take h x y)) es
      frees' =
          All-update (IsFreeSlab h.pages c.shape) h.slabs x (taken_slab (h.slabs x)) es fe
            v.contents.frees

      same : SameNodes fs (x ∷ ps) es (fs ++ x ∷ []) ps es
      same f = omega (arith, moved_back x f fs)

      more :
          u64 (c.inuse + 1)
          ≡ u64 (
              sum_of (taken_at (after_take h x)) fs
              + sum_of (taken_at (after_take h x)) (x ∷ ps)
              + sum_of (taken_at (after_take h x)) es)
      more =
          counted _ _ v.in_use
          ∙ ap u64 (
              omega (
                arith,
                sum_of-update h.slabs x (taken_slab (h.slabs x)) fs ff,
                sum_of-update h.slabs x (taken_slab (h.slabs x)) ps fp,
                sum_of-update h.slabs x (taken_slab (h.slabs x)) es fe,
                taken_here h x,
              ))

  -- The first free slab, when there is no partial one.
  pub allocated-free :
      IsCache h own cache c fs [] (x ∷ es)
      → StillCache (allocated h cache c x) cache c.shape fs [] (x ∷ es)
  allocated-free v = elim (ℕ_discrete ((h.slabs x).free + 1) c.shape.objs_per_slab) [
    | yes last ↦
        (let (own', w) =
            IsCache-with x _ (after_take h x) _ v at (same_full)
              (alloc_moves-opens_fills none_taken last v.rings)
              (record {
                fulls =
                    All-append (λ y. IsFullSlab h.pages c.shape y (after_take h x y)) fs (x ∷ [])
                      fulls'
                      (
                        at-update (IsFullSlab h.pages c.shape) h.slabs x (taken_slab (h.slabs x))
                            (taken_good, last),
                        tt,
                      );
                partials = tt;
                frees = frees';
              })
              more in
          (own', _, fs ++ x ∷ [], [], es, w, refl, same_full))
    | no before ↦
        (let (own', w) =
            IsCache-with x _ (after_take h x) _ v at same_partial
              (alloc_moves-opens none_taken before v.rings)
              (record {
                fulls = fulls';
                partials = (
                  at-update (IsPartialSlab h.pages c.shape) h.slabs x (taken_slab (h.slabs x))
                      (taken_good, omega arith, omega (arith, v.some_object, here.1)),
                  tt,
                );
                frees = frees';
              })
              more in
          (own', _, fs, x ∷ [], es, w, refl, same_partial))
  ]
    where
      here : IsFreeSlab h.pages c.shape x (h.slabs x)
      here = v.contents.frees.0

      none_taken : (h.slabs x).free ≡ 0
      none_taken = here.1

      taken_good : IsCacheSlab h.pages c.shape x (taken_slab (h.slabs x))
      taken_good = taken_slab-IsCacheSlab v here.0 (omega (arith, here.1, v.some_object))

      at : IsHeadOf cache (own x)
      at = inr (inr v.rings.frees.owned.0)

      ff : Fresh x fs
      ff = (free_list-Fresh [] x es v.rings).0

      fe : Fresh x es
      fe = (free_list-Fresh [] x es v.rings).2

      fulls' : All (λ y. IsFullSlab h.pages c.shape y (after_take h x y)) fs
      fulls' =
          All-update (IsFullSlab h.pages c.shape) h.slabs x (taken_slab (h.slabs x)) fs ff
            v.contents.fulls

      frees' : All (λ y. IsFreeSlab h.pages c.shape y (after_take h x y)) es
      frees' =
          All-update (IsFreeSlab h.pages c.shape) h.slabs x (taken_slab (h.slabs x)) es fe
            v.contents.frees.1

      same_full : SameNodes fs [] (x ∷ es) (fs ++ x ∷ []) [] es
      same_full f = omega (arith, moved_back x f fs)

      same_partial : SameNodes fs [] (x ∷ es) fs (x ∷ []) es
      same_partial f = omega arith

      more :
          u64 (c.inuse + 1)
          ≡ u64 (
              sum_of (taken_at (after_take h x)) fs
              + sum_of (taken_at (after_take h x)) []
              + sum_of (taken_at (after_take h x)) (x ∷ es))
      more =
          counted _ _ v.in_use
          ∙ ap u64 (
              omega (
                arith,
                sum_of-update h.slabs x (taken_slab (h.slabs x)) fs ff,
                sum_of-update h.slabs x (taken_slab (h.slabs x)) es fe,
                taken_here h x,
              ))
