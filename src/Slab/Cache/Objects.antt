-- ===== src/Slab/Cache/Objects.antt =====
-- The objects that a cache of src/mm/allocator.c has handed out, and where they lie.
use ios.Prelude.{
  ℕ, ◌+◌, ◌*◌, ◌/◌, ◌<◌, ◌≤◌, ◌≡◌, ◌≢◌, le_or_gt, List, [], ◌∷◌, arith, sym, refl, ap, ◌∙◌, All,
  All-map, inl, inr,
}
use mathlib.Core.Path.{subst}
use native.Mathlib.Decide.{ℕ_discrete}
use ios.Mem.{Mem}
use ios.Pages.{Pages, page_size}
use ios.Pages.Invariant.{IsValid}
use ios.Slab.{CacheShape, Slab, slab_size}
use ios.Slab.Sizes.{slab_bytes}
use ios.Slab.Free.{object, IsFree}
use ios.Slab.Cache.{Cache, Heap}
use ios.Slab.Cache.Invariant.{IsCache, IsHeadOf, IsCacheSlab, Held, sum_of, one_at, occurs}

-- The object at p, of some slab of the lists, is not free.
abbrev pub Out : CacheShape → (ℕ → Slab) → List ℕ → List ℕ → List ℕ → ℕ → Type 0
Out c slabs fs ps es p =
    (x : ℕ) × (0 < occurs x fs ps es)
    × (s : Slab) × (slabs x ≡ s)
    × (i : ℕ) × (i < c.objs_per_slab)
    × (¬ IsFree c s i)
    × (p ≡ object c s i)

pub at-All :
    (P : ℕ → Type 0) (x : ℕ) (nodes : List ℕ) → 0 < sum_of (one_at x) nodes → All P nodes → P x
at-All P x [] lt all = absurd (omega (arith, lt))
at-All P x (y ∷ ys) lt (p, all) = elim (ℕ_discrete y x) [
  | yes e ↦ subst P e p
  | no ne ↦ at-All P x ys (ground arith) all
]

-- What holds of the slabs of each list holds of a slab of one of them.
pub occurs-elim :
    (P : ℕ → Type 0) (x : ℕ) (fs ps es : List ℕ)
    → 0 < occurs x fs ps es
    → All P fs
    → All P ps
    → All P es
    → P x
occurs-elim P x fs ps es lt af ag ae = elim (ℕ_discrete (sum_of (one_at x) fs) 0) [
  | no some_full ↦ at-All P x fs (omega arith) af
  | yes none_full ↦ elim (ℕ_discrete (sum_of (one_at x) ps) 0) [
    | no some_partial ↦ at-All P x ps (omega arith) ag
    | yes none_partial ↦ at-All P x es (omega arith) ae
  ]
]

module _ {h : Heap} {own : Mem} {cache : ℕ} {c : Cache} {fs ps es : List ℕ}
    (v : IsCache h own cache c fs ps es) where
  pub slab_of : (x : ℕ) → 0 < occurs x fs ps es → IsCacheSlab h.pages c.shape x (h.slabs x)
  slab_of x lt =
      occurs-elim (λ y. IsCacheSlab h.pages c.shape y (h.slabs y)) x fs ps es lt
        (All-map _ _ (λ y p. p.0) fs v.contents.fulls)
        (All-map _ _ (λ y p. p.0) ps v.contents.partials)
        (All-map _ _ (λ y p. p.0) es v.contents.frees)

  pub occurs-Held : (x : ℕ) → 0 < occurs x fs ps es → Held h.pages x
  occurs-Held x lt = v.held x (
      occurs-elim (λ y. IsHeadOf cache (own y)) x fs ps es lt
        (All-map _ _ (λ y e. inl e) fs v.rings.fulls.owned)
        (All-map _ _ (λ y e. inr (inl e)) ps v.rings.partials.owned)
        (All-map _ _ (λ y e. inr (inr e)) es v.rings.frees.owned))

pub slab_bytes_lem :
    (c : CacheShape)
    → slab_bytes c ≡ slab_size + c.objs_per_slab * 4 + 15 + c.objs_per_slab * c.objsize
unfolding slab_bytes
slab_bytes_lem c = refl

-- An object lies in the slab's run of pages.
pub object-in_run :
    {pages : Pages} {c : CacheShape} {x : ℕ} {s : Slab} (i : ℕ) (b : IsCacheSlab pages c x s)
    → i < c.objs_per_slab
    → (x + slab_size + c.objs_per_slab * 4 ≤ object c s i)
      × (object c s i + c.objsize
          ≤ (b.start + pages.page_counts b.start) * page_size + pages.first_page)
object-in_run {pages} {c} {x} {s} i b lt =
    let last : c.objsize * i + c.objsize ≤ c.objs_per_slab * c.objsize = grind arith in
    let size = slab_bytes_lem c in
    (omega (arith, b.memory), omega (arith, last, b.memory, b.run, b.address, size))

object-injective :
    (c : CacheShape) (s : Slab) (i j : ℕ) → 1 ≤ c.objsize → object c s i ≡ object c s j → i ≡ j
object-injective c s i j positive e =
    let same : c.objsize * i ≡ c.objsize * j = omega (arith, e) in grind arith

-- Objects of two slabs of a cache are not at one address.
pub objects-apart :
    {pages : Pages} {c : CacheShape} {x y : ℕ} {s t : Slab} (i j : ℕ)
    → IsValid pages
    → IsCacheSlab pages c x s
    → IsCacheSlab pages c y t
    → x ≢ y
    → i < c.objs_per_slab
    → j < c.objs_per_slab
    → object c s i ≢ object c t j
objects-apart {pages} {c} {x} {y} i j v a b ne lt lu e =
    let one : 1 ≤ (slab_bytes c + 4095) / page_size =
      (let size = slab_bytes_lem c in omega (arith, size)) in
    let (from_a, to_a) = object-in_run i a lt in
    let (from_b, to_b) = object-in_run j b lu in
    let differ : a.start ≢ b.start = λ z. ne (omega (arith, a.address, b.address)) in
    let size = a.slab.some_size in
    elim (le_or_gt a.start b.start) [
      | inl less ↦
          let apart =
            v.apart a.start b.start (omega arith) (omega (arith, a.run)) (omega (arith, b.run)) in
          omega (arith, b.address, e)
      | inr more ↦
          let apart = v.apart b.start a.start more (omega (arith, b.run)) (omega (arith, a.run)) in
          omega (arith, a.address, e)
    ]

module _ {h : Heap} {own : Mem} {cache : ℕ} {c : Cache} {fs ps es : List ℕ}
    (v : IsCache h own cache c fs ps es) where
  -- A free object of a slab of the cache is not handed out.
  pub free-not-Out :
      (x i : ℕ)
      → 0 < occurs x fs ps es
      → i < c.shape.objs_per_slab
      → IsFree c.shape (h.slabs x) i
      → ¬ Out c.shape h.slabs fs ps es (object c.shape (h.slabs x) i)
  free-not-Out x i at lt free (y, at_y, s, same, j, lu, taken, e) = elim (ℕ_discrete x y) [
    | no ne ↦
        let b = subst (IsCacheSlab h.pages c.shape y) same (slab_of v y at_y) in
        objects-apart i j v.pages (slab_of v x at) b ne lt lu e
    | yes eq ↦
        let slab : h.slabs x ≡ s = ap h.slabs eq ∙ same in
        let index : i ≡ j =
          object-injective c.shape s i j v.some_size
            (ap (λ t. object c.shape t i) (sym slab) ∙ e) in
        taken (subst (λ t. IsFree c.shape t j) slab (subst (IsFree c.shape (h.slabs x)) index free))
  ]
