-- ===== src/Slab/Cache/Select.antt =====
-- `cache_select` of src/mm/allocator.c finds or makes a slab with a free object.
use ios.Prelude.{
  ℕ, ◌+◌, ◌/◌, ◌<◌, ◌≡◌, ◌≢◌, ◌⊎◌, Option, some, none, Bool, true, false, List, [], ◌∷◌, ◌++◌,
  arith, sym, refl, ap, ◌∙◌, inl, inr,
}
use mathlib.Core.Path.{subst}
use native.Mathlib.Decide.{ℕ_discrete}
use ios.Mem.{Mem}
use ios.Pages.{page_size}
use ios.Slab.{CacheShape, Slab, new_slab}
use ios.Slab.Sizes.{slab_bytes}
use ios.Slab.Free.{IsFree}
use ios.Slab.Links.Owned.{list_next-none, list_next-some}
use ios.Slab.Cache.{Cache, Heap, update, select_first, select_grown, cache_select, cache_grow}
use ios.Slab.Cache.Invariant.{
  IsCache, Held, sum_of-append, one_at, occurs, update-other, update-same,
}
use ios.Slab.Cache.Alloc.{StillCache, allocated, allocated-partial, allocated-free}
use ios.Slab.Cache.Grow.{NoRun, GrowResult, cache_grow_result}
use ios.Slab.Cache.Objects.{Out, occurs-Held}

-- The slab that `cache_select` chooses in a cache.
abbrev pub IsFirst : ℕ → List ℕ → List ℕ → Type 0
IsFirst x ps es =
    ((rest : List ℕ) × (ps ≡ x ∷ rest)) ⊎ ((rest : List ℕ) × (ps ≡ []) × (es ≡ x ∷ rest))

abbrev pub SameObjects :
    CacheShape
    → (ℕ → Slab)
    → List ℕ
    → List ℕ
    → List ℕ
    → (ℕ → Slab)
    → List ℕ
    → List ℕ
    → List ℕ
    → Type 0
SameObjects c slabs fs ps es slabs' fs' ps' es' =
    ((p : ℕ) → Out c slabs fs ps es p → Out c slabs' fs' ps' es' p)
    × ((p : ℕ) → Out c slabs' fs' ps' es' p → Out c slabs fs ps es p)

-- A cache with the objects handed out that it had, and a slab with a free object; or nothing done, as
-- all slabs are full and no pages are left.
abbrev pub SelectResult : Heap → ℕ → Cache → List ℕ → List ℕ → List ℕ → Heap × Option ℕ → Type 0
SelectResult h cache c fs ps es (h', none) =
    (h' ≡ h) × (ps ≡ []) × (es ≡ []) × NoRun h.pages ((slab_bytes c.shape + 4095) / page_size)
SelectResult h cache c fs ps es (h', some x) =
    (own : Mem) × (c' : Cache) × (es' : List ℕ) × IsCache h' own cache c' fs ps es'
    × (c'.shape ≡ c.shape)
    × IsFirst x ps es'
    × SameObjects c.shape h.slabs fs ps es h'.slabs fs ps es'

-- A new slab has no object handed out.
grown-SameObjects :
    {h : Heap} {own : Mem} {cache : ℕ} {c : Cache} {fs ps es : List ℕ} {slabs : ℕ → Slab} (addr : ℕ)
    → IsCache h own cache c fs ps es
    → ¬ Held h.pages addr
    → slabs ≡ update h.slabs addr (new_slab c.shape addr)
    → SameObjects c.shape h.slabs fs ps es slabs fs ps (es ++ addr ∷ [])
grown-SameObjects {h} {own} {cache} {c} {fs} {ps} {es} {slabs} addr v unheld e = (
  λ p (x, at, s, same, i, lt, taken, pe). (
    x,
    omega (arith, at, sum_of-append (one_at x) es (addr ∷ [])),
    s,
    ap (λ f. f x) e ∙ update-other h.slabs addr new x (not_new x at) ∙ same,
    i,
    lt,
    taken,
    pe,
  ),
  λ p (x, at, s, same, i, lt, taken, pe). elim (ℕ_discrete x addr) [
    | yes new_one ↦
        let is_new : s ≡ new =
          sym same ∙ ap slabs new_one ∙ ap (λ f. f addr) e ∙ update-same h.slabs addr new in
        absurd (
          taken (
            subst (λ t. IsFree c.shape t i) (sym is_new)
              (unfold new_slab in (i, omega arith, lt, refl))))
    | no other ↦ (
      x,
      ground (arith, at, sum_of-append (one_at x) es (addr ∷ [])),
      s,
      sym (update-other h.slabs addr new x other) ∙ ap (λ f. f x) (sym e) ∙ same,
      i,
      lt,
      taken,
      pe,
    )
  ],
)
  where
    new : Slab
    new = new_slab c.shape addr

    not_new : (x : ℕ) → 0 < occurs x fs ps es → x ≢ addr
    not_new x at is = unheld (subst (Held h.pages) is (occurs-Held v x at))

select_grown_result :
    {h : Heap} {own : Mem} {cache : ℕ} {c : Cache} {fs : List ℕ} (r : Heap × Bool)
    → IsCache h own cache c fs [] []
    → GrowResult h cache c fs [] [] r
    → SelectResult h cache c fs [] [] (select_grown cache r)
unfolding select_grown
select_grown_result (h', false) v (same, full) = (same, refl, refl, full)
select_grown_result {h} {own} {cache} {c} {fs} (h', true) v
      (own', c', addr, w, shape, unheld, slabs) =
    rw (list_next-some w.rings.frees)
      (own', c', addr ∷ [], w, shape, inr ([], refl, refl), grown-SameObjects addr v unheld slabs)

pub cache_select_result :
    {h : Heap} {own : Mem} {cache : ℕ} {c : Cache} {fs : List ℕ} (ps es : List ℕ)
    → IsCache h own cache c fs ps es
    → SelectResult h cache c fs ps es (cache_select cache h)
unfolding cache_select select_first
cache_select_result {h} {own} {cache} {c} (x ∷ ps) es v =
    rw (list_next-some v.rings.partials)
      (own, c, es, v, refl, inl (ps, refl), ((λ p o. o), (λ p o. o)))
cache_select_result {h} {own} {cache} {c} [] (x ∷ es) v =
    rw (list_next-none v.rings.partials, list_next-some v.rings.frees)
      (own, c, x ∷ es, v, refl, inr (es, refl, refl), ((λ p o. o), (λ p o. o)))
cache_select_result {h} {own} {cache} {c} [] [] v =
    rw (list_next-none v.rings.partials, list_next-none v.rings.frees)
      (select_grown_result (cache_grow cache h) v (cache_grow_result v))

pub first-occurs : (x : ℕ) (fs ps es : List ℕ) → IsFirst x ps es → 0 < occurs x fs ps es
first-occurs x fs ps es (inl (rest, e)) = rw e (ground arith)
first-occurs x fs ps es (inr (rest, e, e')) = rw (e, e') (ground arith)

pub first-room :
    {h : Heap} {own : Mem} {cache : ℕ} {c : Cache} {fs ps es : List ℕ} (x : ℕ)
    → IsCache h own cache c fs ps es
    → IsFirst x ps es
    → ((h.slabs x).free < c.shape.objs_per_slab)
      × StillCache (allocated h cache c x) cache c.shape fs ps es
first-room {h} {own} {cache} {c} {fs} {ps} {es} x v (inl (rest, e)) =
    let w = subst (λ qs. IsCache h own cache c fs qs es) e v in
    rw e (w.contents.partials.0.2, allocated-partial w)
first-room {h} {own} {cache} {c} {fs} {ps} {es} x v (inr (rest, e, e')) =
    let w =
      subst (λ qs. IsCache h own cache c fs [] qs) e'
        (subst (λ qs. IsCache h own cache c fs qs es) e v) in
    rw (e, e') (omega (arith, w.contents.frees.0.1, w.some_object), allocated-free w)
