-- ===== src/Slab/Cache/Handout.antt =====
-- `cache_alloc` of src/mm/allocator.c hands out an object that no one has.
use ios.Prelude.{
  ℕ, ◌+◌, ◌/◌, ◌<◌, ◌≡◌, ◌⊎◌, Option, some, none, List, [], arith, sym, refl, ap, ◌∙◌, inl, inr,
}
use mathlib.Core.Path.{subst}
use native.Mathlib.Decide.{ℕ_discrete}
use ios.Mem.{Mem}
use ios.Pages.{page_size}
use ios.Slab.{CacheShape, Slab, take_object}
use ios.Slab.Sizes.{slab_bytes}
use ios.Slab.Free.{object, IsFree, Taken, take_object-Taken}
use ios.Slab.Cache.{Cache, Heap, cache_select, alloc_from, cache_alloc}
use ios.Slab.Cache.Invariant.{IsCache, SameNodes, one_at, occurs, update-other, update-same}
use ios.Slab.Cache.Alloc.{taken_slab, after_take, allocated, alloc_from-allocated}
use ios.Slab.Cache.Grow.{NoRun}
use ios.Slab.Cache.Objects.{Out, slab_of, free-not-Out}
use ios.Slab.Cache.Select.{
  IsFirst, SameObjects, SelectResult, cache_select_result, first-occurs, first-room,
}

-- The object that is taken next from x.
abbrev next_index : Heap → ℕ → ℕ
next_index h x = (h.slabs x).bufctl (h.slabs x).free

abbrev next_object : CacheShape → Heap → ℕ → ℕ
next_object c h x = object c (h.slabs x) (next_index h x)

-- What taking the next object of x does to the objects handed out.
module _ {h : Heap} {own : Mem} {cache : ℕ} {c : Cache} {fs ps es : List ℕ}
    (v : IsCache h own cache c fs ps es) (x : ℕ) (at : 0 < occurs x fs ps es)
    (room : (h.slabs x).free < c.shape.objs_per_slab) where
  taken :
      Taken c.shape (h.slabs x) (next_index h x) ((next_object c.shape h x), taken_slab (h.slabs x))
  taken = unfold take_object in take_object-Taken c.shape (h.slabs x) (slab_of v x at).slab room

  next-not-Out : ¬ Out c.shape h.slabs fs ps es (next_object c.shape h x)
  next-not-Out =
      free-not-Out v x (next_index h x) at
        ((slab_of v x at).slab.in_slab (h.slabs x).free (omega arith) room) taken.was_free

  next-Out :
      (fs' ps' es' : List ℕ)
      → SameNodes fs ps es fs' ps' es'
      → Out c.shape (after_take h x) fs' ps' es' (next_object c.shape h x)
  next-Out fs' ps' es' same = (
    x,
    omega (arith, same (one_at x)),
    taken_slab (h.slabs x),
    update-same h.slabs x (taken_slab (h.slabs x)),
    (next_index h x),
    (slab_of v x at).slab.in_slab (h.slabs x).free (omega arith) room,
    taken.not_free,
    refl,
  )

  still-Out :
      (fs' ps' es' : List ℕ)
      → SameNodes fs ps es fs' ps' es'
      → (p : ℕ) → Out c.shape h.slabs fs ps es p
      → Out c.shape (after_take h x) fs' ps' es' p
  still-Out fs' ps' es' same p (y, at_y, s, e, i, lt, not_free, pe) = elim (ℕ_discrete y x) [
    | no ne ↦ (
      y,
      omega (arith, same (one_at y), at_y),
      s,
      update-other h.slabs x (taken_slab (h.slabs x)) y ne ∙ e,
      i,
      lt,
      not_free,
      pe,
    )
    | yes eq ↦
        let is_s : s ≡ h.slabs x = sym e ∙ ap h.slabs eq in
        (
          x,
          omega (arith, same (one_at x), at),
          taken_slab (h.slabs x),
          update-same h.slabs x (taken_slab (h.slabs x)),
          i,
          lt,
          λ (k, lo, hi, ke).
              subst (λ t. ¬ IsFree c.shape t i) is_s not_free (k, omega arith, hi, ke),
          pe ∙ ap (λ t. object c.shape t i) is_s,
        )
  ]

  only-Out :
      (fs' ps' es' : List ℕ)
      → SameNodes fs ps es fs' ps' es'
      → (p : ℕ) → Out c.shape (after_take h x) fs' ps' es' p
      → (p ≡ (next_object c.shape h x)) ⊎ Out c.shape h.slabs fs ps es p
  only-Out fs' ps' es' same p (y, at_y, s, e, i, lt, not_free, pe) = elim (ℕ_discrete y x) [
    | no ne ↦ inr (
      y,
      omega (arith, same (one_at y), at_y),
      s,
      sym (update-other h.slabs x (taken_slab (h.slabs x)) y ne) ∙ e,
      i,
      lt,
      not_free,
      pe,
    )
    | yes eq ↦
        let is_s : s ≡ taken_slab (h.slabs x) =
          sym e ∙ ap (after_take h x) eq ∙ update-same h.slabs x (taken_slab (h.slabs x)) in
        elim (ℕ_discrete i (next_index h x)) [
          | yes next ↦
              inl (pe ∙ ap (λ t. object c.shape t i) is_s ∙ ap (object c.shape (h.slabs x)) next)
          | no other ↦ inr (
            x,
            at,
            h.slabs x,
            refl,
            i,
            lt,
            (λ free. subst (λ t. ¬ IsFree c.shape t i) is_s not_free (taken.others i other free)),
            pe ∙ ap (λ t. object c.shape t i) is_s,
          )
        ]
  ]

-- An object that was not handed out, now is, and it alone.
abbrev pub IsHandedOut : (ℕ → Slab) → ℕ → CacheShape → List ℕ → List ℕ → List ℕ → Heap → ℕ → Type 0
IsHandedOut slabs cache shape fs ps es h' p =
    (own : Mem) × (c' : Cache) × (fs' : List ℕ) × (ps' : List ℕ) × (es' : List ℕ) × IsCache h' own
      cache c' fs' ps' es'
    × (c'.shape ≡ shape)
    × (¬ Out shape slabs fs ps es p)
    × Out shape h'.slabs fs' ps' es' p
    × ((q : ℕ) → Out shape slabs fs ps es q → Out shape h'.slabs fs' ps' es' q)
    × ((q : ℕ) → Out shape h'.slabs fs' ps' es' q → (q ≡ p) ⊎ Out shape slabs fs ps es q)

-- Or NULL with nothing done, as all slabs are full and there is no run of pages for one more.
abbrev pub AllocResult : Heap → ℕ → CacheShape → List ℕ → List ℕ → List ℕ → Heap × Option ℕ → Type 0
AllocResult h cache shape fs ps es (h', none) =
    (h' ≡ h) × (ps ≡ []) × (es ≡ []) × NoRun h.pages ((slab_bytes shape + 4095) / page_size)
AllocResult h cache shape fs ps es (h', some p) = IsHandedOut h.slabs cache shape fs ps es h' p

allocated-IsHandedOut :
    (h : Heap) (own : Mem) (cache : ℕ) (c : Cache) (fs ps es : List ℕ) (x : ℕ)
    → IsCache h own cache c fs ps es
    → IsFirst x ps es
    → IsHandedOut h.slabs cache c.shape fs ps es (allocated h cache c x) (next_object c.shape h x)
allocated-IsHandedOut h own cache c fs ps es x v first =
    let at = first-occurs x fs ps es first in
    let (room, (own', c', fs', ps', es', w, shape, same)) = first-room x v first in
    (
      own',
      c',
      fs',
      ps',
      es',
      w,
      shape,
      next-not-Out v x at room,
      next-Out v x at room fs' ps' es' same,
      still-Out v x at room fs' ps' es' same,
      only-Out v x at room fs' ps' es' same,
    )

IsHandedOut-before :
    (slabs slabs1 : ℕ → Slab) (cache : ℕ) (shape : CacheShape) (fs ps es es1 : List ℕ) (h' : Heap)
    (p : ℕ)
    → SameObjects shape slabs fs ps es slabs1 fs ps es1
    → IsHandedOut slabs1 cache shape fs ps es1 h' p
    → IsHandedOut slabs cache shape fs ps es h' p
IsHandedOut-before slabs slabs1 cache shape fs ps es es1 h' p (to, from)
      (own, c', fs', ps', es', w, same, fresh, out, still, only) =
    (
      own,
      c',
      fs',
      ps',
      es',
      w,
      same,
      (λ o. fresh (to p o)),
      out,
      (λ q o. still q (to q o)),
      (λ q o. back q (only q o)),
    )
  where
    back : (q : ℕ) → (q ≡ p) ⊎ Out shape slabs1 fs ps es1 q → (q ≡ p) ⊎ Out shape slabs fs ps es q
    back q (inl e) = inl e
    back q (inr o) = inr (from q o)

alloc_from-AllocResult :
    (h : Heap) (cache : ℕ) (c : Cache) (fs ps es : List ℕ) (r : Heap × Option ℕ)
    → SelectResult h cache c fs ps es r
    → AllocResult h cache c.shape fs ps es (alloc_from cache r)
unfolding alloc_from
alloc_from-AllocResult h cache c fs ps es (h', none) result = result
alloc_from-AllocResult h cache c fs ps es (h', some x) (own, c1, es1, v, shape, first, objects) =
    subst (AllocResult h cache c.shape fs ps es) (sym (alloc_from-allocated h' cache x c1 v.fields))
      (IsHandedOut-before h.slabs h'.slabs cache c.shape fs ps es es1 (allocated h' cache c1 x)
        (next_object c1.shape h' x) objects
        (subst
          (λ k.
            IsHandedOut h'.slabs cache k fs ps es1 (allocated h' cache c1 x)
              (next_object c1.shape h' x))
          shape (allocated-IsHandedOut h' own cache c1 fs ps es1 x v first)))

-- `cache_alloc` on a well-formed cache either hands out an object that was not handed out, when the
-- cache stays well formed and exactly that object is handed out besides those that were; or returns
-- NULL and changes nothing, when all its slabs are full and no run of pages is free for another.
pub cache_alloc_result :
    {h : Heap} {own : Mem} {cache : ℕ} {c : Cache} {fs ps es : List ℕ}
    → IsCache h own cache c fs ps es
    → AllocResult h cache c.shape fs ps es (cache_alloc cache h)
unfolding cache_alloc
cache_alloc_result {h} {own} {cache} {c} {fs} {ps} {es} v =
    alloc_from-AllocResult h cache c fs ps es (cache_select cache h) (cache_select_result ps es v)
