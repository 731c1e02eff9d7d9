-- ===== src/Slab/Kmalloc/Roundtrip.antt =====
-- What `kfree` of src/mm/allocator.c does with what `kmalloc` gave.
use ios.Prelude.{
  ℕ, ◌+◌, ◌-◌, ◌^◌, ◌<◌, ◌≤◌, ◌≡◌, ◌≢◌, ◌⊎◌, Option, some, none, List, arith, sym, refl, ap, ◌∙◌,
  inl, inr, u64, ne→==_false,
}
use mathlib.Core.Path.{subst}
use ios.Mem.{Mem}
use ios.Pages.{total_pages}
use ios.Slab.{CacheShape, Slab}
use ios.Slab.Cache.{Cache, Heap, update, cache_alloc, cache_dealloc}
use ios.Slab.Cache.Invariant.{IsCache, IsCacheSlab, update-same}
use ios.Slab.Cache.Objects.{Out, slab_of, slab_bytes_lem, object-in_run}
use ios.Slab.Cache.Select.{SameObjects}
use ios.Slab.Cache.Handout.{AllocResult, IsHandedOut, cache_alloc_result}
use ios.Slab.Cache.Giveback.{cache_dealloc_result}
use ios.Slab.Kmalloc.{
  Allocator, AllocHdr, hdr_size, alloc_magic, pick_cache_for_total, small_result, kmalloc_total,
  kmalloc_with, ensure_init, kmalloc, with_heap, kfree,
}

-- `kmalloc` of an initialised allocator that picks the cache c.
pub kmalloc-cached :
    (endkernel size c : ℕ) (a : Allocator)
    → size ≢ 0
    → a.cache_cache ≢ 0
    → c ≢ 0
    → pick_cache_for_total (u64 (hdr_size + size)) a.size_caches ≡ c
    → kmalloc endkernel size a ≡ small_result c a (cache_alloc c a.heap)
unfolding kmalloc ensure_init kmalloc_with kmalloc_total
kmalloc-cached endkernel size c a nz ready nc e =
    rw (ne→==_false size 0 nz, ne→==_false a.cache_cache 0 ready, e, ne→==_false c 0 nc) refl

header_at : (obj : ℕ) → obj + hdr_size < 2 ^ 64 → u64 (obj + hdr_size + 2 ^ 64 - hdr_size) ≡ obj
header_at obj lt = omega arith

-- `kfree` of the memory behind the header of an object.
kfree-object :
    (fuel obj c : ℕ) (a : Allocator)
    → obj + hdr_size < 2 ^ 64
    → c ≢ 0
    → a.headers obj ≡ record { magic = alloc_magic; cache = c; raw_base = 0; raw_bytes = 0 }
    → kfree fuel (obj + hdr_size) a ≡ with_heap a (cache_dealloc fuel c obj a.heap)
unfolding kfree
kfree-object fuel obj c a lt nc e =
    rw (header_at obj lt, e, ne→==_false (obj + hdr_size) 0 (omega arith), ne→==_false c 0 nc) refl

-- The address of an object that is handed out leaves room.
Out-room :
    {h : Heap} {own : Mem} {cache : ℕ} {c : Cache} {fs ps es : List ℕ} (p : ℕ)
    → IsCache h own cache c fs ps es
    → Out c.shape h.slabs fs ps es p
    → p + c.shape.objsize < 2 ^ 64
Out-room {h} {own} {cache} {c} p v (x, at, s, e, i, lt, taken, pe) =
    let b = subst (IsCacheSlab h.pages c.shape x) e (slab_of v x at) in
    let (from, to) = object-in_run i b lt in
    let some_pages : h.pages.page_counts b.start ≢ 0 =
      (let size = slab_bytes_lem c.shape in omega (arith, b.run, size)) in
    omega (arith, v.pages.base, v.pages.inside b.start some_pages, to, pe)

-- The cache as before: well formed, with the same objects handed out.
abbrev pub IsRestored : (ℕ → Slab) → ℕ → CacheShape → List ℕ → List ℕ → List ℕ → Allocator → Type 0
IsRestored slabs cache shape fs ps es a =
    (own : Mem) × (c : Cache) × (fs' : List ℕ) × (ps' : List ℕ) × (es' : List ℕ) × IsCache a.heap
      own cache c fs' ps' es'
    × (c.shape ≡ shape)
    × SameObjects shape slabs fs ps es a.heap.slabs fs' ps' es'

-- What was taken back right after it was handed out.
restored :
    (slabs : ℕ → Slab) (cache : ℕ) (shape : CacheShape) (fs ps es : List ℕ) (h1 : Heap) (obj : ℕ)
    (fuel : ℕ) (a : Allocator)
    → total_pages < fuel
    → IsHandedOut slabs cache shape fs ps es h1 obj
    → (a' : Allocator) × (with_heap a (cache_dealloc fuel cache obj h1) ≡ some a')
      × IsRestored slabs cache shape fs ps es a'
restored slabs cache shape fs ps es h1 obj fuel a enough
      (own, c, fs1, ps1, es1, v, same, fresh, out, still, only) =
    let (h2, result, (own2, c2, fs2, ps2, es2, w, same2, gone, kept, less)) =
      cache_dealloc_result fuel obj v enough
        (subst (λ k. Out k h1.slabs fs1 ps1 es1 obj) (sym same) out) in
    (
      record a { heap = h2 },
      rw result refl,
      (
        own2,
        c2,
        fs2,
        ps2,
        es2,
        w,
        same2 ∙ same,
        (
          λ p o.
              subst (λ k. Out k h2.slabs fs2 ps2 es2 p) same
                (kept p (λ e. fresh (subst (Out shape slabs fs ps es) e o))
                  (subst (λ k. Out k h1.slabs fs1 ps1 es1 p) (sym same) (still p o))),
          λ p o.
              let o2 = subst (λ k. Out k h2.slabs fs2 ps2 es2 p) (sym same) o in
              only_old p (λ e. gone (subst (Out c.shape h2.slabs fs2 ps2 es2) e o2))
                (only p (subst (λ k. Out k h1.slabs fs1 ps1 es1 p) same (less p o2))),
        ),
      ),
    )
  where
    only_old :
        (p : ℕ) → p ≢ obj → (p ≡ obj) ⊎ Out shape slabs fs ps es p → Out shape slabs fs ps es p
    only_old p ne (inl e) = absurd (ne e)
    only_old p ne (inr o) = o

-- Freeing what `small_result` gave.
small_result-IsRestored :
    (shape : CacheShape) (fs ps es : List ℕ) (fuel cache p : ℕ) (a : Allocator)
    (r : Heap × Option ℕ)
    → hdr_size ≤ shape.objsize
    → cache ≢ 0
    → total_pages < fuel
    → AllocResult a.heap cache shape fs ps es r
    → (small_result cache a r).1 ≡ some p
    → (a' : Allocator) × (kfree fuel p (small_result cache a r).0 ≡ some a')
      × IsRestored a.heap.slabs cache shape fs ps es a'
unfolding small_result
small_result-IsRestored shape fs ps es fuel cache p a (h', none) header nc enough result e = cc
small_result-IsRestored shape fs ps es fuel cache p a (h', some obj) header nc enough result e =
    let (own', c', fs', ps', es', v, same, fresh, out, still, only) = result in
    let room = Out-room obj v (subst (λ k. Out k h'.slabs fs' ps' es' obj) (sym same) out) in
    let size : c'.shape.objsize ≡ shape.objsize = ap (λ k. k.objsize) same in
    let hdr : AllocHdr = record {
      magic = alloc_magic;
      cache = cache;
      raw_base = 0;
      raw_bytes = 0;
    } in
    let after : Allocator = record a { heap = h'; headers = update a.headers obj hdr } in
    let freed =
      kfree-object fuel obj cache after (omega (arith, room, size, header)) nc
        (update-same a.headers obj hdr) in
    let (a', done, back) =
      restored a.heap.slabs cache shape fs ps es h' obj fuel after enough result in
    let at : obj + hdr_size ≡ p = cc in
    (a', subst (λ q. kfree fuel q after ≡ some a') at (freed ∙ done), back)

-- Of an initialised allocator, for a size that is not 0 and for which a well-formed cache is picked whose
-- objects have room for a header: `kfree` of the pointer that `kmalloc` returned ends, with fuel for more
-- slabs than there are pages, and the cache is then well formed and has the objects handed out that it
-- had before the two calls.
pub kfree-kmalloc :
    {own : Mem} {c : Cache} {fs ps es : List ℕ} (endkernel size fuel cache p : ℕ) (a : Allocator)
    → IsCache a.heap own cache c fs ps es
    → size ≢ 0
    → a.cache_cache ≢ 0
    → cache ≢ 0
    → pick_cache_for_total (u64 (hdr_size + size)) a.size_caches ≡ cache
    → hdr_size ≤ c.shape.objsize
    → total_pages < fuel
    → (kmalloc endkernel size a).1 ≡ some p
    → (a' : Allocator) × (kfree fuel p (kmalloc endkernel size a).0 ≡ some a')
      × IsRestored a.heap.slabs cache c.shape fs ps es a'
kfree-kmalloc {own} {c} {fs} {ps} {es} endkernel size fuel cache p a v nz ready nc picked header
      enough e =
    let made = kmalloc-cached endkernel size cache a nz ready nc picked in
    rw made (
      small_result-IsRestored c.shape fs ps es fuel cache p a (cache_alloc cache a.heap) header nc
        enough (cache_alloc_result v) (ap (λ r. r.1) (sym made) ∙ e))
