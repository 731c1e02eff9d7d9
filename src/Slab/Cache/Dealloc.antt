-- ===== src/Slab/Cache/Dealloc.antt =====
-- `cache_dealloc_within` of src/mm/allocator.c on the slab that the object is in.
use ios.Prelude.{
  ℕ, ◌+◌, ◌-◌, ◌^◌, ◌≡◌, ◌≢◌, List, [], ◌∷◌, ◌++◌, arith, refl, ap, All, All-append, All-at,
  All-without, All-insert, u64, inl, inr,
}
use native.Mathlib.Decide.{ℕ_discrete}
use ios.Mem.{Mem}
use ios.Slab.{Slab}
use ios.Slab.Free.{IsSlab}
use ios.Slab.Links.Rings.{Fresh}
use ios.Slab.Cache.{Cache, Heap, dealloc_at, dealloc_moves, update}
use ios.Slab.Cache.Moves.{
  partial-Fresh, full-Fresh, dealloc_moves-stays, dealloc_moves-empties, dealloc_moves-opens,
  dealloc_moves-opens_empties,
}
use ios.Slab.Cache.Invariant.{
  IsCache, IsHeadOf, IsCacheSlab, IsFullSlab, IsPartialSlab, IsFreeSlab, SameNodes, sum_of,
  sum_of-append, taken_at, All-update, at-update, sum_of-update, update-same, IsCacheSlab-with,
  IsCache-with,
}
use ios.Slab.Cache.Alloc.{StillCache}

-- One object less is in use.
abbrev pub deallocated : Heap → ℕ → Cache → ℕ → Slab → Heap
deallocated h cache c x t = record h {
  slabs = update h.slabs x t;
  links = dealloc_moves cache x (h.slabs x).free c.shape.objs_per_slab h.links;
  caches = update h.caches cache (record c { inuse = u64 (c.inuse + 2 ^ 64 - 1) });
}

pub dealloc_at-deallocated :
    (h : Heap) (cache x : ℕ) (c : Cache) (t : Slab)
    → h.caches cache ≡ c
    → dealloc_at cache x t h ≡ deallocated h cache c x t
unfolding dealloc_at
dealloc_at-deallocated h cache x c t e = rw e refl

sum_of-without :
    (f : ℕ → ℕ) (ls : List ℕ) (x : ℕ) (rs : List ℕ)
    → sum_of f (ls ++ x ∷ rs) ≡ f x + sum_of f (ls ++ rs)
sum_of-without f ls x rs = omega (arith, sum_of-append f ls (x ∷ rs), sum_of-append f ls rs)

uncounted : (count m m' : ℕ) → count ≡ u64 m → m ≡ m' + 1 → u64 (count + 2 ^ 64 - 1) ≡ u64 m'
uncounted count m m' e less = omega arith

updated-free : (h : Heap) (x : ℕ) (t : Slab) → taken_at (update h.slabs x t) x ≡ t.free
updated-free h x t = ap (λ s. s.free) (update-same h.slabs x t)

module _ {h : Heap} {own : Mem} {cache : ℕ} {c : Cache} (x : ℕ) (t : Slab) (slab : IsSlab c.shape t)
    (memory : t.memory ≡ (h.slabs x).memory) (one_more : t.free + 1 ≡ (h.slabs x).free) where
  -- An object of a partial slab.
  pub deallocated-partial :
      {fs es : List ℕ} (ls rs : List ℕ)
      → IsCache h own cache c fs (ls ++ x ∷ rs) es
      → StillCache (deallocated h cache c x t) cache c.shape fs (ls ++ x ∷ rs) es
  deallocated-partial {fs} {es} ls rs v = elim (ℕ_discrete ((h.slabs x).free - 1) 0) [
    | yes last ↦
        (let (own', w) =
            IsCache-with x _ (update h.slabs x t) _ v at same
              (dealloc_moves-empties ls x rs not_full last v.rings)
              (record {
                fulls = fulls';
                partials = partials';
                frees =
                    All-append (λ y. IsFreeSlab h.pages c.shape y (update h.slabs x t y)) es
                      (x ∷ []) frees'
                      (
                        at-update (IsFreeSlab h.pages c.shape) h.slabs x t
                            (good, omega (arith, one_more)),
                        tt,
                      );
              })
              less in
          (own', _, fs, ls ++ rs, es ++ x ∷ [], w, refl, same))
    | no before ↦
        (let (own', w) =
            IsCache-with x _ (update h.slabs x t) _ v at (λ f. refl)
              (dealloc_moves-stays not_full before v.rings)
              (record {
                fulls = fulls';
                partials =
                    All-insert (λ y. IsPartialSlab h.pages c.shape y (update h.slabs x t y)) ls x rs
                      partials'
                      (at-update (IsPartialSlab h.pages c.shape) h.slabs x t
                        (good, omega (arith, one_more), omega (arith, one_more, here.2)));
                frees = frees';
              })
              less in
          (own', _, fs, ls ++ x ∷ rs, es, w, refl, λ f. refl))
  ]
    where
      here : IsPartialSlab h.pages c.shape x (h.slabs x)
      here = All-at (λ y. IsPartialSlab h.pages c.shape y (h.slabs y)) ls x rs v.contents.partials

      not_full : (h.slabs x).free ≢ c.shape.objs_per_slab
      not_full = omega (arith, here.2)

      good : IsCacheSlab h.pages c.shape x t
      good = IsCacheSlab-with here.0 slab memory

      at : IsHeadOf cache (own x)
      at = inr (inl (All-at (λ y. own y ≡ cache + 16) ls x rs v.rings.partials.owned))

      fresh : Fresh x fs × Fresh x (ls ++ rs) × Fresh x es
      fresh = partial-Fresh ls x rs v.rings

      fulls' : All (λ y. IsFullSlab h.pages c.shape y (update h.slabs x t y)) fs
      fulls' = All-update (IsFullSlab h.pages c.shape) h.slabs x t fs fresh.0 v.contents.fulls

      partials' : All (λ y. IsPartialSlab h.pages c.shape y (update h.slabs x t y)) (ls ++ rs)
      partials' = All-update (IsPartialSlab h.pages c.shape) h.slabs x t (ls ++ rs) fresh.1 (
          All-without (λ y. IsPartialSlab h.pages c.shape y (h.slabs y)) ls x rs
            v.contents.partials)

      frees' : All (λ y. IsFreeSlab h.pages c.shape y (update h.slabs x t y)) es
      frees' = All-update (IsFreeSlab h.pages c.shape) h.slabs x t es fresh.2 v.contents.frees

      same : SameNodes fs (ls ++ x ∷ rs) es fs (ls ++ rs) (es ++ x ∷ [])
      same f = omega (arith, sum_of-append f es (x ∷ []), sum_of-without f ls x rs)

      less :
          u64 (c.inuse + 2 ^ 64 - 1)
          ≡ u64 (
              sum_of (taken_at (update h.slabs x t)) fs
              + sum_of (taken_at (update h.slabs x t)) (ls ++ x ∷ rs)
              + sum_of (taken_at (update h.slabs x t)) es)
      less = uncounted _ _ _ v.in_use (
          omega (
            arith,
            sum_of-update h.slabs x t fs fresh.0,
            sum_of-update h.slabs x t (ls ++ rs) fresh.1,
            sum_of-update h.slabs x t es fresh.2,
            sum_of-without (taken_at h.slabs) ls x rs,
            sum_of-without (taken_at (update h.slabs x t)) ls x rs,
            updated-free h x t,
            one_more,
          ))

  -- An object of a full slab.
  pub deallocated-full :
      {ps es : List ℕ} (ls rs : List ℕ)
      → IsCache h own cache c (ls ++ x ∷ rs) ps es
      → StillCache (deallocated h cache c x t) cache c.shape (ls ++ x ∷ rs) ps es
  deallocated-full {ps} {es} ls rs v = elim (ℕ_discrete ((h.slabs x).free - 1) 0) [
    | yes last ↦
        (let (own', w) =
            IsCache-with x _ (update h.slabs x t) _ v at same_free
              (dealloc_moves-opens_empties ls x rs full_here last v.rings)
              (record {
                fulls = fulls';
                partials = partials';
                frees =
                    All-append (λ y. IsFreeSlab h.pages c.shape y (update h.slabs x t y)) es
                      (x ∷ []) frees'
                      (
                        at-update (IsFreeSlab h.pages c.shape) h.slabs x t
                            (good, omega (arith, one_more)),
                        tt,
                      );
              })
              less in
          (own', _, ls ++ rs, ps, es ++ x ∷ [], w, refl, same_free))
    | no before ↦
        (let (own', w) =
            IsCache-with x _ (update h.slabs x t) _ v at same_partial
              (dealloc_moves-opens ls x rs full_here before v.rings)
              (record {
                fulls = fulls';
                partials =
                    All-append (λ y. IsPartialSlab h.pages c.shape y (update h.slabs x t y)) ps
                      (x ∷ []) partials'
                      (
                        at-update (IsPartialSlab h.pages c.shape) h.slabs x t
                            (good, omega (arith, one_more), omega (arith, one_more, full_here)),
                        tt,
                      );
                frees = frees';
              })
              less in
          (own', _, ls ++ rs, ps ++ x ∷ [], es, w, refl, same_partial))
  ]
    where
      here : IsFullSlab h.pages c.shape x (h.slabs x)
      here = All-at (λ y. IsFullSlab h.pages c.shape y (h.slabs y)) ls x rs v.contents.fulls

      full_here : (h.slabs x).free ≡ c.shape.objs_per_slab
      full_here = here.1

      good : IsCacheSlab h.pages c.shape x t
      good = IsCacheSlab-with here.0 slab memory

      at : IsHeadOf cache (own x)
      at = inl (All-at (λ y. own y ≡ cache) ls x rs v.rings.fulls.owned)

      fresh : Fresh x (ls ++ rs) × Fresh x ps × Fresh x es
      fresh = full-Fresh ls x rs v.rings

      fulls' : All (λ y. IsFullSlab h.pages c.shape y (update h.slabs x t y)) (ls ++ rs)
      fulls' =
          All-update (IsFullSlab h.pages c.shape) h.slabs x t (ls ++ rs) fresh.0
            (All-without (λ y. IsFullSlab h.pages c.shape y (h.slabs y)) ls x rs v.contents.fulls)

      partials' : All (λ y. IsPartialSlab h.pages c.shape y (update h.slabs x t y)) ps
      partials' =
          All-update (IsPartialSlab h.pages c.shape) h.slabs x t ps fresh.1 v.contents.partials

      frees' : All (λ y. IsFreeSlab h.pages c.shape y (update h.slabs x t y)) es
      frees' = All-update (IsFreeSlab h.pages c.shape) h.slabs x t es fresh.2 v.contents.frees

      same_free : SameNodes (ls ++ x ∷ rs) ps es (ls ++ rs) ps (es ++ x ∷ [])
      same_free f = omega (arith, sum_of-append f es (x ∷ []), sum_of-without f ls x rs)

      same_partial : SameNodes (ls ++ x ∷ rs) ps es (ls ++ rs) (ps ++ x ∷ []) es
      same_partial f = omega (arith, sum_of-append f ps (x ∷ []), sum_of-without f ls x rs)

      less :
          u64 (c.inuse + 2 ^ 64 - 1)
          ≡ u64 (
              sum_of (taken_at (update h.slabs x t)) (ls ++ x ∷ rs)
              + sum_of (taken_at (update h.slabs x t)) ps
              + sum_of (taken_at (update h.slabs x t)) es)
      less = uncounted _ _ _ v.in_use (
          omega (
            arith,
            sum_of-update h.slabs x t (ls ++ rs) fresh.0,
            sum_of-update h.slabs x t ps fresh.1,
            sum_of-update h.slabs x t es fresh.2,
            sum_of-without (taken_at h.slabs) ls x rs,
            sum_of-without (taken_at (update h.slabs x t)) ls x rs,
            updated-free h x t,
            one_more,
          ))
