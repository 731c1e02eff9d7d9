-- ===== src/Slab/Cache/Giveback.antt =====
-- `cache_dealloc` of src/mm/allocator.c takes back an object that was handed out.
use ios.Prelude.{
  ℕ, ◌<◌, ◌≡◌, ◌≢◌, some, List, ◌∷◌, ◌++◌, arith, sym, refl, ap, ◌∙◌, All, All-front, All-map, inl,
  inr, length, ne→==_false,
}
use mathlib.Core.Path.{subst}
use native.Mathlib.Decide.{ℕ_discrete}
use ios.Mem.{Mem}
use ios.Pages.{total_pages}
use ios.Slab.{CacheShape, Slab, give_object}
use ios.Slab.Free.{object, IsFree, Given, give_object-Given}
use ios.Slab.Cache.{Cache, Heap, update, dealloc_in, dealloc_next, cache_dealloc}
use ios.Slab.Cache.Moves.{partial-Fresh, full-Fresh}
use ios.Slab.Cache.Invariant.{
  IsCache, IsCacheSlab, IsFullSlab, IsPartialSlab, IsFreeSlab, sum_of, one_at, occurs, update-other,
  update-same,
}
use ios.Slab.Cache.Alloc.{StillCache}
use ios.Slab.Cache.Objects.{Out, slab_of, at-All, free-not-Out}
use ios.Slab.Cache.Walk.{IsOutside}
use ios.Slab.Cache.Bounds.{full-length, partial-length}
use ios.Slab.Cache.Dealloc.{
  deallocated, dealloc_at-deallocated, deallocated-partial, deallocated-full,
}
use ios.Slab.Cache.Search.{some_taken, split_at, outside, list_without, list_with}

-- The object is handed out no longer, and it alone.
abbrev pub IsTakenBack : (ℕ → Slab) → ℕ → CacheShape → List ℕ → List ℕ → List ℕ → ℕ → Heap → Type 0
IsTakenBack slabs cache shape fs ps es p h' =
    (own : Mem) × (c' : Cache) × (fs' : List ℕ) × (ps' : List ℕ) × (es' : List ℕ) × IsCache h' own
      cache c' fs' ps' es'
    × (c'.shape ≡ shape)
    × (¬ Out shape h'.slabs fs' ps' es' p)
    × ((q : ℕ) → q ≢ p → Out shape slabs fs ps es q → Out shape h'.slabs fs' ps' es' q)
    × ((q : ℕ) → Out shape h'.slabs fs' ps' es' q → Out shape slabs fs ps es q)

module _ {h : Heap} {own : Mem} {cache : ℕ} {c : Cache} {fs ps es : List ℕ}
    (v : IsCache h own cache c fs ps es) (x i : ℕ) (at : 0 < occurs x fs ps es)
    (lt : i < c.shape.objs_per_slab) (handed_out : ¬ IsFree c.shape (h.slabs x) i) where
  abbrev pointer : ℕ
  pointer = object c.shape (h.slabs x) i

  abbrev GivenHere : Type 0
  GivenHere = Given c.shape (h.slabs x) i (give_object c.shape (h.slabs x) pointer)

  not_empty : (h.slabs x).free ≢ 0
  not_empty = some_taken c.shape (h.slabs x) i (slab_of v x at).slab lt handed_out

  given : GivenHere
  given =
      give_object-Given c.shape (h.slabs x) i (slab_of v x at).slab lt handed_out
        (omega (arith, not_empty))

  after_same : (g : GivenHere) (j : ℕ) → object c.shape g.after j ≡ object c.shape (h.slabs x) j
  after_same g j = omega (arith, g.memory)

  -- The objects handed out after x has become the slab that was given the object.
  given-IsTakenBack :
      (g : GivenHere)
      → StillCache (deallocated h cache c x g.after) cache c.shape fs ps es
      → IsTakenBack h.slabs cache c.shape fs ps es pointer (deallocated h cache c x g.after)
  given-IsTakenBack g (own', c', fs', ps', es', w, shape, same) =
      (own', c', fs', ps', es', w, shape, gone, still, only)
    where
      slabs' : ℕ → Slab
      slabs' = update h.slabs x g.after

      here : slabs' x ≡ g.after
      here = update-same h.slabs x g.after

      gone : ¬ Out c.shape slabs' fs' ps' es' pointer
      gone o =
          let at' : 0 < occurs x fs' ps' es' = omega (arith, same (one_at x), at) in
          let lt' : i < c'.shape.objs_per_slab = subst (λ k. i < k.objs_per_slab) (sym shape) lt in
          let free' : IsFree c'.shape (slabs' x) i =
            subst (λ k. IsFree k (slabs' x) i) (sym shape)
              (subst (λ t. IsFree c.shape t i) (sym here) g.is_free) in
          let same_pointer : pointer ≡ object c'.shape (slabs' x) i =
            sym (after_same g i)
            ∙ ap (λ t. object c.shape t i) (sym here)
            ∙ ap (λ k. object k (slabs' x) i) (sym shape) in
          free-not-Out w x i at' lt' free' (
            subst (λ k. Out k slabs' fs' ps' es' (object c'.shape (slabs' x) i)) (sym shape)
              (subst (Out c.shape slabs' fs' ps' es') same_pointer o))

      still :
          (q : ℕ) → q ≢ pointer → Out c.shape h.slabs fs ps es q → Out c.shape slabs' fs' ps' es' q
      still q ne (y, at_y, s, e, j, lu, not_free, qe) = elim (ℕ_discrete y x) [
        | no other ↦ (
          y,
          omega (arith, same (one_at y), at_y),
          s,
          update-other h.slabs x g.after y other ∙ e,
          j,
          lu,
          not_free,
          qe,
        )
        | yes eq ↦
            let is_s : s ≡ h.slabs x = sym e ∙ ap h.slabs eq in
            let q_here : q ≡ object c.shape (h.slabs x) j =
              qe ∙ ap (λ t. object c.shape t j) is_s in
            (
              x,
              omega (arith, same (one_at x), at),
              g.after,
              here,
              j,
              lu,
              λ free. elim (g.only j free) [
                | inl index ↦ ne (q_here ∙ ap (object c.shape (h.slabs x)) index)
                | inr was_free ↦ subst (λ t. ¬ IsFree c.shape t j) is_s not_free was_free
              ],
              q_here ∙ sym (after_same g j),
            )
      ]

      only : (q : ℕ) → Out c.shape slabs' fs' ps' es' q → Out c.shape h.slabs fs ps es q
      only q (y, at_y, s, e, j, lu, not_free, qe) = elim (ℕ_discrete y x) [
        | no other ↦ (
          y,
          omega (arith, same (one_at y), at_y),
          s,
          sym (update-other h.slabs x g.after y other) ∙ e,
          j,
          lu,
          not_free,
          qe,
        )
        | yes eq ↦
            let is_s : s ≡ g.after = sym e ∙ ap slabs' eq ∙ here in
            (
              x,
              at,
              h.slabs x,
              refl,
              j,
              lu,
              λ free. subst (λ t. ¬ IsFree c.shape t j) is_s not_free (g.others j free),
              qe ∙ ap (λ t. object c.shape t j) is_s ∙ after_same g j,
            )
      ]

  dealloc_in-given :
      (g : GivenHere) → dealloc_in cache x (some g.after) h ≡ some (deallocated h cache c x g.after)
  unfolding dealloc_in
  dealloc_in-given g =
      rw
        (
          ne→==_false (h.slabs x).free 0 not_empty,
          dealloc_at-deallocated h cache x c g.after v.fields,
        )
        refl

-- The object's slab is full: the first walk finds it.
dealloc_from_full :
    {h : Heap} {own : Mem} {cache : ℕ} {c : Cache} {ps es : List ℕ} (fuel : ℕ) (ls rs : List ℕ)
    (x : ℕ)
    → IsCache h own cache c (ls ++ x ∷ rs) ps es
    → (i : ℕ) → 0 < occurs x (ls ++ x ∷ rs) ps es
    → i < c.shape.objs_per_slab
    → ¬ IsFree c.shape (h.slabs x) i
    → length (ls ++ x ∷ rs) < fuel
    → let p = object c.shape (h.slabs x) i in
      (h' : Heap) × (cache_dealloc fuel cache p h ≡ some h')
      × IsTakenBack h.slabs cache c.shape (ls ++ x ∷ rs) ps es p h'
unfolding cache_dealloc
dealloc_from_full {h} {own} {cache} {c} fuel ls rs x v i at lt out enough =
    let g = given v x i at lt out in
    let shape : c.shape ≡ (h.caches cache).shape = ap (λ d. d.shape) (sym v.fields) in
    let p = object c.shape (h.slabs x) i in
    let good =
      All-map (λ y. IsFullSlab h.pages c.shape y (h.slabs y))
        (λ y. IsCacheSlab h.pages c.shape y (h.slabs y)) (λ y b. b.0) ls
        (All-front _ ls (x ∷ rs) v.contents.fulls) in
    let before =
      outside v x i at lt ls (All-front (λ y. y ≢ x) ls rs (full-Fresh ls x rs v.rings).0) good in
    let found =
      list_with h cache p fuel ls x rs g.after v.rings.fulls
        (subst (λ k. All (λ y. IsOutside k (h.slabs y) p) ls) shape before)
        (subst (λ k. give_object k (h.slabs x) p ≡ some g.after) shape g.result) enough in
    (
      deallocated h cache c x g.after,
      rw (found, dealloc_in-given v x i at lt out g) (unfold dealloc_next in refl),
      given-IsTakenBack v x i at lt out g
          (deallocated-full x g.after g.slab g.memory g.one_more ls rs v),
    )

-- The object's slab is partial: the first walk ends without it, the second finds it.
dealloc_from_partial :
    {h : Heap} {own : Mem} {cache : ℕ} {c : Cache} {fs es : List ℕ} (fuel : ℕ) (ls rs : List ℕ)
    (x : ℕ)
    → IsCache h own cache c fs (ls ++ x ∷ rs) es
    → (i : ℕ) → 0 < occurs x fs (ls ++ x ∷ rs) es
    → i < c.shape.objs_per_slab
    → ¬ IsFree c.shape (h.slabs x) i
    → length fs < fuel
    → length (ls ++ x ∷ rs) < fuel
    → let p = object c.shape (h.slabs x) i in
      (h' : Heap) × (cache_dealloc fuel cache p h ≡ some h')
      × IsTakenBack h.slabs cache c.shape fs (ls ++ x ∷ rs) es p h'
unfolding cache_dealloc
dealloc_from_partial {h} {own} {cache} {c} {fs} fuel ls rs x v i at lt out enough_full enough =
    let g = given v x i at lt out in
    let shape : c.shape ≡ (h.caches cache).shape = ap (λ d. d.shape) (sym v.fields) in
    let p = object c.shape (h.slabs x) i in
    let fresh = partial-Fresh ls x rs v.rings in
    let good =
      All-map (λ y. IsPartialSlab h.pages c.shape y (h.slabs y))
        (λ y. IsCacheSlab h.pages c.shape y (h.slabs y)) (λ y b. b.0) ls
        (All-front _ ls (x ∷ rs) v.contents.partials) in
    let good_full =
      All-map (λ y. IsFullSlab h.pages c.shape y (h.slabs y))
        (λ y. IsCacheSlab h.pages c.shape y (h.slabs y)) (λ y b. b.0) fs v.contents.fulls in
    let before = outside v x i at lt ls (All-front (λ y. y ≢ x) ls rs fresh.1) good in
    let full_ones = outside v x i at lt fs fresh.0 good_full in
    let missed =
      list_without h cache p fuel fs v.rings.fulls
        (subst (λ k. All (λ y. IsOutside k (h.slabs y) p) fs) shape full_ones) enough_full in
    let found =
      list_with h cache p fuel ls x rs g.after v.rings.partials
        (subst (λ k. All (λ y. IsOutside k (h.slabs y) p) ls) shape before)
        (subst (λ k. give_object k (h.slabs x) p ≡ some g.after) shape g.result) enough in
    (
      deallocated h cache c x g.after,
      rw (missed, found, dealloc_in-given v x i at lt out g) (unfold dealloc_next in refl),
      given-IsTakenBack v x i at lt out g
          (deallocated-partial x g.after g.slab g.memory g.one_more ls rs v),
    )

-- Where the slab of the object is, and what the walks find.
dealloc_object :
    {h : Heap} {own : Mem} {cache : ℕ} {c : Cache} {fs ps es : List ℕ} (fuel : ℕ)
    → IsCache h own cache c fs ps es
    → (x i : ℕ) → 0 < occurs x fs ps es
    → i < c.shape.objs_per_slab
    → ¬ IsFree c.shape (h.slabs x) i
    → length fs < fuel
    → length ps < fuel
    → let p = object c.shape (h.slabs x) i in
      (h' : Heap) × (cache_dealloc fuel cache p h ≡ some h')
      × IsTakenBack h.slabs cache c.shape fs ps es p h'
dealloc_object {h} {own} {cache} {c} {fs} {ps} {es} fuel v x i at lt out enough_full
      enough_partial =
    elim (ℕ_discrete (sum_of (one_at x) fs) 0) [
      | no in_full ↦
          let (ls, rs, e) = split_at x fs (omega arith) in
          subst
            (λ gs.
              length gs < fuel
              → IsCache h own cache c gs ps es
              → 0 < occurs x gs ps es
              → Goal gs ps)
            (sym e) (λ enough w at_w. dealloc_from_full fuel ls rs x w i at_w lt out enough)
            enough_full v at
      | yes not_full ↦ elim (ℕ_discrete (sum_of (one_at x) ps) 0) [
        | no in_partial ↦
            let (ls, rs, e) = split_at x ps (omega arith) in
            subst
              (λ gs.
                length gs < fuel
                → IsCache h own cache c fs gs es
                → 0 < occurs x fs gs es
                → Goal fs gs)
              (sym e)
              (λ enough w at_w.
                dealloc_from_partial fuel ls rs x w i at_w lt out enough_full enough)
              enough_partial v at
        | yes not_partial ↦ absurd (
            some_taken c.shape (h.slabs x) i (slab_of v x at).slab lt out
              (at-All (λ y. IsFreeSlab h.pages c.shape y (h.slabs y)) x es (omega arith)
                v.contents.frees).1)
      ]
    ]
  where
    Goal : List ℕ → List ℕ → Type 0
    Goal gs qs =
        (h' : Heap) × (cache_dealloc fuel cache (object c.shape (h.slabs x) i) h ≡ some h')
        × IsTakenBack h.slabs cache c.shape gs qs es (object c.shape (h.slabs x) i) h'

-- `cache_dealloc` on a well-formed cache, of an object that it has handed out, with fuel for more
-- slabs than there are pages: the walk ends, the cache stays well formed, the object is
-- handed out no longer, and every other object that was handed out still is, and no other.
pub cache_dealloc_result :
    {h : Heap} {own : Mem} {cache : ℕ} {c : Cache} {fs ps es : List ℕ} (fuel p : ℕ)
    → IsCache h own cache c fs ps es
    → total_pages < fuel
    → Out c.shape h.slabs fs ps es p
    → (h' : Heap) × (cache_dealloc fuel cache p h ≡ some h')
      × IsTakenBack h.slabs cache c.shape fs ps es p h'
cache_dealloc_result {h} {own} {cache} {c} {fs} {ps} {es} fuel p v enough
      (x, at, s, e, i, lt, handed_out, pe) =
    let out_here : ¬ IsFree c.shape (h.slabs x) i =
      subst (λ t. ¬ IsFree c.shape t i) (sym e) handed_out in
    let p_here : p ≡ object c.shape (h.slabs x) i = pe ∙ ap (λ t. object c.shape t i) (sym e) in
    subst
      (λ q.
        (h' : Heap) × (cache_dealloc fuel cache q h ≡ some h')
        × IsTakenBack h.slabs cache c.shape fs ps es q h')
      (sym p_here)
      (dealloc_object fuel v x i at lt out_here (omega (arith, full-length v))
        (omega (arith, partial-length v)))
