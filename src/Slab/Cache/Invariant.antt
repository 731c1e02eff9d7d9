-- ===== src/Slab/Cache/Invariant.antt =====
-- What holds of a cache of src/mm/allocator.c between calls: each slab is in the list for the number of
-- its objects that are taken, on pages of its own, and the counts are right.
use ios.Prelude.{
  ℕ, ◌+◌, ◌-◌, ◌*◌, ◌/◌, ◌==◌, if◌then◌else◌, ◌<◌, ◌≤◌, ◌≡◌, ◌≢◌, ◌⊎◌, true, List, [], ◌∷◌, ◌++◌,
  arith, sym, refl, ap, ◌∙◌, All, u64,
}
use mathlib.Core.Path.{subst}
use native.Mathlib.Decide.{ℕ_discrete}
use ios.Mem.{Mem}
use ios.Pages.{Pages, page_size, physical_memory_size, is_used}
use ios.Pages.Invariant.{IsValid}
use ios.Slab.{CacheShape, Slab, slab_size}
use ios.Slab.Sizes.{rounded_up, slab_bytes}
use ios.Slab.Free.{IsSlab}
use ios.Slab.Links.{Links}
use ios.Slab.Links.Rings.{Fresh}
use ios.Slab.Cache.{Cache, Heap, full, partial, free_list, update}
use ios.Slab.Cache.Moves.{IsRings, MovedRings}

-- The sum of f over the nodes.
abbrev pub sum_of : (ℕ → ℕ) → List ℕ → ℕ
sum_of f [] = 0
sum_of f (x ∷ xs) = f x + sum_of f xs

pub sum_of-append : (f : ℕ → ℕ) (xs ys : List ℕ) → sum_of f (xs ++ ys) ≡ sum_of f xs + sum_of f ys
sum_of-append f [] ys = omega arith
sum_of-append f (x ∷ xs) ys = omega (arith, sum_of-append f xs ys)

-- Three lists that have between them what three others have.
abbrev pub SameNodes : List ℕ → List ℕ → List ℕ → List ℕ → List ℕ → List ℕ → Type 0
SameNodes fs ps es fs' ps' es' =
    (f : ℕ → ℕ)
    → sum_of f fs' + sum_of f ps' + sum_of f es' ≡ sum_of f fs + sum_of f ps + sum_of f es

abbrev pub one_at : ℕ → ℕ → ℕ
one_at x y = if y == x then 1 else 0

-- How often a node is in the three lists.
abbrev pub occurs : ℕ → List ℕ → List ℕ → List ℕ → ℕ
occurs x fs ps es = sum_of (one_at x) fs + sum_of (one_at x) ps + sum_of (one_at x) es

-- The address lies in a page that is in use.
abbrev pub Held : Pages → ℕ → Type 0
Held pages a =
    (pages.first_page ≤ a) × (is_used pages.bitmap ((a - pages.first_page) / page_size) ≡ true)

-- The slab of a cache at x: in its own run of pages, its objects behind their numbers.
pub record IsCacheSlab (pages : Pages) (c : CacheShape) (x : ℕ) (s : Slab) : Type 0 where
  pub slab : IsSlab c s
  pub memory : s.memory ≡ rounded_up (x + slab_size + c.objs_per_slab * 4)
  pub start : ℕ
  pub address : x ≡ start * page_size + pages.first_page
  pub run : pages.page_counts start ≡ (slab_bytes c + 4095) / page_size

abbrev pub IsFullSlab : Pages → CacheShape → ℕ → Slab → Type 0
IsFullSlab pages c x s = IsCacheSlab pages c x s × (s.free ≡ c.objs_per_slab)

abbrev pub IsPartialSlab : Pages → CacheShape → ℕ → Slab → Type 0
IsPartialSlab pages c x s = IsCacheSlab pages c x s × (0 < s.free) × (s.free < c.objs_per_slab)

abbrev pub IsFreeSlab : Pages → CacheShape → ℕ → Slab → Type 0
IsFreeSlab pages c x s = IsCacheSlab pages c x s × (s.free ≡ 0)

pub record IsContents (pages : Pages) (c : CacheShape) (slabs : ℕ → Slab) (fs ps es : List ℕ)
    : Type 0 where
  pub fulls : All (λ x. IsFullSlab pages c x (slabs x)) fs
  pub partials : All (λ x. IsPartialSlab pages c x (slabs x)) ps
  pub frees : All (λ x. IsFreeSlab pages c x (slabs x)) es

abbrev pub taken_at : (ℕ → Slab) → ℕ → ℕ
taken_at slabs x = (slabs x).free

abbrev pub each_one : ℕ → ℕ
each_one x = 1

-- The key of one of the cache's lists.
abbrev pub IsHeadOf : ℕ → ℕ → Type 0
IsHeadOf cache k = (k ≡ full cache) ⊎ (k ≡ partial cache) ⊎ (k ≡ free_list cache)

-- `fs`, `ps` and `es` are the cache's full, partial and free slabs in the order of its lists; `own` gives
-- the list of a node.
pub record IsCache (h : Heap) (own : Mem) (cache : ℕ) (c : Cache) (fs ps es : List ℕ) : Type 0 where
  pub fields : h.caches cache ≡ c
  pub pages : IsValid h.pages
  pub some_object : 1 ≤ c.shape.objs_per_slab
  pub some_size : 1 ≤ c.shape.objsize
  pub small : slab_bytes c.shape ≤ physical_memory_size
  pub held : (x : ℕ) → IsHeadOf cache (own x) → Held h.pages x
  pub rings : IsRings h.links own cache fs ps es
  pub contents : IsContents h.pages c.shape h.slabs fs ps es
  pub total :
      c.totalobjs
      ≡ u64 (c.shape.objs_per_slab * (sum_of each_one fs + sum_of each_one ps + sum_of each_one es))
  pub in_use :
      c.inuse
      ≡ u64 (
          sum_of (taken_at h.slabs) fs
          + sum_of (taken_at h.slabs) ps
          + sum_of (taken_at h.slabs) es)

pub update-other {ℓ} :
    {A : Type ℓ} (f : ℕ → A) (a : ℕ) (v : A) (x : ℕ) → x ≢ a → update f a v x ≡ f x
unfolding update
update-other f a v x ne = ground arith

pub update-same {ℓ} : {A : Type ℓ} (f : ℕ → A) (a : ℕ) (v : A) → update f a v a ≡ v
unfolding update
update-same f a v = ground arith

-- What holds of other slabs still does when one is updated.
pub All-update :
    (P : ℕ → Slab → Type 0) (slabs : ℕ → Slab) (x : ℕ) (s : Slab) (nodes : List ℕ)
    → Fresh x nodes
    → All (λ y. P y (slabs y)) nodes
    → All (λ y. P y (update slabs x s y)) nodes
All-update P slabs x s [] fresh h = tt
All-update P slabs x s (y ∷ ys) (ne, fresh) (p, h) =
    (subst (P y) (sym (update-other slabs x s y ne)) p, All-update P slabs x s ys fresh h)

pub at-update :
    (P : ℕ → Slab → Type 0) (slabs : ℕ → Slab) (x : ℕ) (s : Slab) → P x s → P x (update slabs x s x)
at-update P slabs x s p = subst (P x) (sym (update-same slabs x s)) p

pub sum_of-update :
    (slabs : ℕ → Slab) (x : ℕ) (s : Slab) (nodes : List ℕ)
    → Fresh x nodes
    → sum_of (taken_at (update slabs x s)) nodes ≡ sum_of (taken_at slabs) nodes
sum_of-update slabs x s [] fresh = refl
sum_of-update slabs x s (y ∷ ys) (ne, fresh) =
    omega (arith, ap (λ t. t.free) (update-other slabs x s y ne), sum_of-update slabs x s ys fresh)

pub IsCacheSlab-with :
    {pages : Pages} {c : CacheShape} {x : ℕ} {s t : Slab}
    → IsCacheSlab pages c x s
    → IsSlab c t
    → t.memory ≡ s.memory
    → IsCacheSlab pages c x t
IsCacheSlab-with k slab e = record {
  slab = slab;
  memory = e ∙ k.memory;
  start = k.start;
  address = k.address;
  run = k.run;
}

-- The cache with new lists of the same slabs, of which x alone has changed.
pub IsCache-with :
    {h : Heap} {own : Mem} {cache : ℕ} {c : Cache} {fs ps es fs' ps' es' : List ℕ} (x : ℕ)
    (l' : Links) (slabs' : ℕ → Slab) (count : ℕ)
    → IsCache h own cache c fs ps es
    → IsHeadOf cache (own x)
    → SameNodes fs ps es fs' ps' es'
    → MovedRings own x l' cache fs' ps' es'
    → IsContents h.pages c.shape slabs' fs' ps' es'
    → count
      ≡ u64
          (sum_of (taken_at slabs') fs + sum_of (taken_at slabs') ps + sum_of (taken_at slabs') es)
    → (own' : Mem) × IsCache
        (record h {
          slabs = slabs';
          links = l';
          caches = update h.caches cache (record c { inuse = count });
        })
        own'
        cache
        (record c { inuse = count })
        fs'
        ps'
        es'
IsCache-with {h} {own} {cache} {c} {fs} {ps} {es} {fs'} {ps'} {es'} x l' slabs' count v at same
      (own', rings, kept) contents counted =
    (
      own',
      record {
        fields = update-same h.caches cache (record c { inuse = count });
        pages = v.pages;
        some_object = v.some_object;
        some_size = v.some_size;
        small = v.small;
        held = λ y k. elim (ℕ_discrete y x) [
          | yes e ↦ v.held y (subst (λ z. IsHeadOf cache (own z)) (sym e) at)
          | no ne ↦ v.held y (subst (IsHeadOf cache) (kept y ne) k)
        ];
        rings = rings;
        contents = contents;
        total = v.total ∙ ap (λ m. u64 (c.shape.objs_per_slab * m)) (sym (same each_one));
        in_use = counted ∙ ap u64 (sym (same (taken_at slabs')));
      },
    )
