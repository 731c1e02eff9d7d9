-- ===== src/Slab/Cache/Bounds.antt =====
-- A list of a cache of src/mm/allocator.c has at most as many slabs as there are pages.
use ios.Prelude.{
  ℕ, zero, suc, ◌+◌, ◌-◌, ◌*◌, ◌/◌, ◌<◌, ◌≤◌, ◌≡◌, ◌≢◌, List, [], ◌∷◌, arith, sym, All, All-map,
  length, get_or, le_or_gt, inl, inr,
}
use ios.Prelude.Injective.{not-IsInjective}
use ios.Mem.{Mem}
use ios.Pages.{Pages, page_size, total_pages}
use ios.Pages.Invariant.{IsValid}
use ios.Slab.{CacheShape, Slab}
use ios.Slab.Links.Rings.{Distinct}
use ios.Slab.Cache.{Cache, Heap}
use ios.Slab.Cache.Invariant.{IsCache, IsCacheSlab}
use ios.Slab.Cache.Objects.{slab_bytes_lem}

get-All :
    (P : ℕ → Type 0) (nodes : List ℕ) (k : ℕ)
    → k < length nodes
    → All P nodes
    → P (get_or nodes k 0)
get-All P [] k lt all = absurd (omega (arith, lt))
get-All P (x ∷ xs) zero lt all = all.0
get-All P (x ∷ xs) (suc k) lt all = get-All P xs k (omega (arith, lt)) all.1

get-Distinct :
    (nodes : List ℕ) (k l : ℕ)
    → Distinct nodes
    → k < l
    → l < length nodes
    → get_or nodes k 0 ≢ get_or nodes l 0
get-Distinct [] k l d less lt = absurd (omega (arith, lt))
get-Distinct (x ∷ xs) k zero d less lt = absurd (omega arith)
get-Distinct (x ∷ xs) zero (suc l) d less lt =
    λ e. get-All (λ y. y ≢ x) xs l (omega (arith, lt)) d.0 (sym e)
get-Distinct (x ∷ xs) (suc k) (suc l) d less lt =
    get-Distinct xs k l d.1 (omega (arith, less)) (omega (arith, lt))

-- The page that a slab starts at.
abbrev page_of : Pages → ℕ → ℕ
page_of pages x = (x - pages.first_page) / page_size

abbrev IsPlaced : Pages → ℕ → Type 0
IsPlaced pages x =
    (page_of pages x < total_pages) × (x ≡ page_of pages x * page_size + pages.first_page)

slab-IsPlaced :
    {pages : Pages} {c : CacheShape} {x : ℕ} {s : Slab}
    → IsValid pages
    → IsCacheSlab pages c x s
    → IsPlaced pages x
slab-IsPlaced {pages} {c} {x} v b =
    let size = slab_bytes_lem c in
    let some_pages : pages.page_counts b.start ≢ 0 = omega (arith, b.run, size) in
    let inside = v.inside b.start some_pages in
    let page : page_of pages x ≡ b.start = omega (arith, b.address) in
    (omega arith, omega (arith, b.address))

placed-length :
    (pages : Pages) (nodes : List ℕ)
    → All (IsPlaced pages) nodes
    → Distinct nodes
    → length nodes ≤ total_pages
placed-length pages nodes placed distinct = elim (le_or_gt (length nodes) total_pages) [
  | inl le ↦ le
  | inr more ↦ absurd (
      not-IsInjective total_pages (λ k. page_of pages (get_or nodes k 0))
        (λ k lt. (get-All (IsPlaced pages) nodes k (omega arith) placed).0)
        (λ k l less lt e.
          let pk = get-All (IsPlaced pages) nodes k (omega arith) placed in
          let pl = get-All (IsPlaced pages) nodes l (omega arith) placed in
          get-Distinct nodes k l distinct less (omega arith) (omega (arith, pk.1, pl.1, e))))
]

module _ {h : Heap} {own : Mem} {cache : ℕ} {c : Cache} {fs ps es : List ℕ}
    (v : IsCache h own cache c fs ps es) where
  pub full-length : length fs ≤ total_pages
  full-length =
      placed-length h.pages fs
        (All-map _ (IsPlaced h.pages) (λ x b. slab-IsPlaced v.pages b.0) fs v.contents.fulls)
        v.rings.fulls.distinct

  pub partial-length : length ps ≤ total_pages
  partial-length =
      placed-length h.pages ps
        (All-map _ (IsPlaced h.pages) (λ x b. slab-IsPlaced v.pages b.0) ps v.contents.partials)
        v.rings.partials.distinct
