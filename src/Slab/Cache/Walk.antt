-- ===== src/Slab/Cache/Walk.antt =====
-- The walk of `cache_dealloc_within` in src/mm/allocator.c finds the slab that an object is in.
use ios.Prelude.{
  ℕ, zero, suc, ◌+◌, ◌-◌, ◌*◌, ◌/◌, ◌<◌, ◌≤◌, ◌≡◌, ◌≢◌, ◌⊎◌, le_or_gt, some, none, List, [], ◌∷◌,
  ◌++◌, arith, refl, ap, ◌∙◌, All, inl, inr, length, ne→==_false,
}
use ios.Pages.{Pages, page_size}
use ios.Pages.Invariant.{IsValid}
use ios.Slab.{CacheShape, Slab, give_object}
use ios.Slab.Sizes.{slab_bytes}
use ios.Slab.Free.{object}
use ios.Slab.Links.Rings.{Fresh, Chain}
use ios.Slab.Cache.{Heap, dealloc_walk, dealloc_in}
use ios.Slab.Cache.Invariant.{IsCacheSlab}
use ios.Slab.Cache.Objects.{object-in_run, slab_bytes_lem}

-- The object is not in the slab's memory.
abbrev pub IsOutside : CacheShape → Slab → ℕ → Type 0
IsOutside c s p = give_object c s p ≡ none

mul_succ : (m k : ℕ) → m * k + m ≡ m * (k + 1)
mul_succ m k = grind arith

product : (m n : ℕ) → 1 ≤ n → m * (n - 1) + m ≡ m * n
product m n le = mul_succ m (n - 1) ∙ ap (λ k. m * k) (omega arith)

give_object-IsOutside :
    (c : CacheShape) (s : Slab) (p : ℕ)
    → (p < s.memory) ⊎ (s.memory + c.objsize * c.objs_per_slab ≤ p)
    → IsOutside c s p
unfolding give_object
give_object-IsOutside c s p (inl lt) = ground arith
give_object-IsOutside c s p (inr le) = ground arith

-- An object of one slab of a cache is in no other.
pub object-IsOutside :
    {pages : Pages} {c : CacheShape} {x y : ℕ} {s t : Slab} (i : ℕ)
    → IsValid pages
    → 1 ≤ c.objs_per_slab
    → IsCacheSlab pages c x s
    → IsCacheSlab pages c y t
    → x ≢ y
    → i < c.objs_per_slab
    → IsOutside c t (object c s i)
object-IsOutside {pages} {c} {x} {y} {s} {t} i v positive a b ne lt =
    let one : 1 ≤ (slab_bytes c + 4095) / page_size =
      (let size = slab_bytes_lem c in omega (arith, size)) in
    let (from_a, to_a) = object-in_run i a lt in
    let (from_b, to_b) = object-in_run (c.objs_per_slab - 1) b (omega arith) in
    let (start_b, end_b) = object-in_run 0 b positive in
    let differ : a.start ≢ b.start = λ z. ne (omega (arith, a.address, b.address)) in
    let size = a.slab.some_size in
    let last : c.objsize * (c.objs_per_slab - 1) + c.objsize ≡ c.objsize * c.objs_per_slab =
      product c.objsize c.objs_per_slab positive in
    give_object-IsOutside c t (object c s i) (elim (le_or_gt a.start b.start) [
      | inl less ↦
          let apart =
            v.apart a.start b.start (omega arith) (omega (arith, a.run)) (omega (arith, b.run)) in
          inl (omega (arith, b.address))
      | inr more ↦
          let apart = v.apart b.start a.start more (omega (arith, b.run)) (omega (arith, a.run)) in
          inr (omega (arith, a.address, last))
    ])

-- The object is in none of the slabs that are left of the walk.
pub dealloc_walk-none :
    (h : Heap) (cache last p fuel : ℕ) (a : ℕ) (xs : List ℕ)
    → All (λ y. IsOutside (h.caches cache).shape (h.slabs y) p) xs
    → Fresh last xs
    → length xs < fuel
    → Chain h.links a xs last
    → dealloc_walk fuel cache last (h.links.next a) p h ≡ some none
unfolding dealloc_walk
dealloc_walk-none h cache last p zero a xs outside fresh lt chain = absurd (omega (arith, lt))
dealloc_walk-none h cache last p (suc fuel) a [] outside fresh lt (n, b) = ground (arith, n)
dealloc_walk-none h cache last p (suc fuel) a (x ∷ xs) (out, outside) (ne, fresh) lt (n, b, chain) =
    rw
      (
        n,
        ne→==_false x last ne,
        out,
        dealloc_walk-none h cache last p fuel x xs outside fresh (omega (arith, lt)) chain,
      )
      (unfold dealloc_in in refl)

-- The object is in x, and in none of the slabs that are before it.
pub dealloc_walk-found :
    (h : Heap) (cache last p fuel : ℕ) (a : ℕ) (ls : List ℕ) (x : ℕ) (rs : List ℕ) (given : Slab)
    → All (λ y. IsOutside (h.caches cache).shape (h.slabs y) p) ls
    → give_object (h.caches cache).shape (h.slabs x) p ≡ some given
    → Fresh last (ls ++ x ∷ rs)
    → length ls < fuel
    → Chain h.links a (ls ++ x ∷ rs) last
    → dealloc_walk fuel cache last (h.links.next a) p h ≡ some (dealloc_in cache x (some given) h)
unfolding dealloc_walk
dealloc_walk-found h cache last p zero a ls x rs given outside found fresh lt chain =
    absurd (omega (arith, lt))
dealloc_walk-found h cache last p (suc fuel) a [] x rs given outside found (ne, fresh) lt
      (n, b, chain) =
    rw (n, ne→==_false x last ne, found) (unfold dealloc_in in refl)
dealloc_walk-found h cache last p (suc fuel) a (y ∷ ys) x rs given (out, outside) found (ne, fresh)
      lt (n, b, chain) =
    rw
      (
        n,
        ne→==_false y last ne,
        out,
        dealloc_walk-found h cache last p fuel y ys x rs given outside found fresh
            (omega (arith, lt)) chain,
      )
      (unfold dealloc_in in refl)
