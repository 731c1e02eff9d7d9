-- ===== src/Slab/Kmalloc/Placed.antt =====
-- Where the memory lies that `kmalloc` of src/mm/allocator.c returns, and the cache that it picks.
use ios.Prelude.{
  ℕ, zero, suc, ◌+◌, ◌*◌, ◌%◌, ◌^◌, ◌<◌, ◌≤◌, ◌≡◌, ◌≢◌, Option, some, none, ◌⊎◌, inl, inr, le_or_gt,
  List, [], leb, false, arith, sym, refl, ap, ◌∙◌, u64, if◌then◌else◌,
}
use mathlib.Core.Path.{subst}
use native.Mathlib.Nat.{pow-succ', pow-le-pow_right}
use ios.Mem.{Mem}
use ios.Slab.{CacheShape, align_up, alloc_alignment, cache_shape}
use ios.Slab.Free.{object-aligned}
use ios.Slab.Cache.{Cache, Heap, cache_alloc}
use ios.Slab.Cache.Invariant.{IsCache, update-same}
use ios.Slab.Cache.Objects.{Out, slab_of}
use ios.Slab.Cache.Handout.{AllocResult, IsHandedOut, cache_alloc_result}
use ios.Slab.Kmalloc.{
  Allocator, AllocHdr, hdr_size, kmalloc_min, alloc_magic, pick_loop, pick_cache_for_total,
  small_result, kmalloc,
}
use ios.Slab.Kmalloc.Roundtrip.{kmalloc-cached}

-- The pointer p, of `size` bytes, is the end of a header in an object of the cache.
pub record IsPlaced (a : Allocator) (cache size : ℕ) (shape : CacheShape) (fs ps es : List ℕ)
    (a' : Allocator) (p : ℕ) : Type 0 where
  pub obj : ℕ
  pub after_header : p ≡ obj + hdr_size
  pub handed_out : IsHandedOut a.heap.slabs cache shape fs ps es a'.heap obj
  pub inside : p + size ≤ obj + shape.objsize
  pub aligned : p % alloc_alignment ≡ 0
  pub header :
      a'.headers obj ≡ record { magic = alloc_magic; cache = cache; raw_base = 0; raw_bytes = 0 }

-- NULL, or such a pointer.
abbrev pub PlacedResult :
    Allocator → ℕ → ℕ → CacheShape → List ℕ → List ℕ → List ℕ → Allocator × Option ℕ → Type 0
PlacedResult a cache size shape fs ps es (a', none) = (a'.heap ≡ a.heap) × (ps ≡ []) × (es ≡ [])
PlacedResult a cache size shape fs ps es (a', some p) = IsPlaced a cache size shape fs ps es a' p

object_aligned :
    {h : Heap} {own : Mem} {cache : ℕ} {c : Cache} {fs ps es : List ℕ} (sz obj : ℕ)
    → c.shape ≡ cache_shape sz
    → IsCache h own cache c fs ps es
    → Out c.shape h.slabs fs ps es obj
    → obj % alloc_alignment ≡ 0
object_aligned {h} {own} {cache} {c} sz obj shape v (x, at, s, e, i, lt, taken, pe) =
    let b = slab_of v x at in
    let memory = ap (λ t. t.memory) (sym e) ∙ b.memory in
    let size : c.shape.objsize ≡ align_up sz =
      ap (λ k. k.objsize) shape ∙ (unfold cache_shape in refl) in
    let multiple : c.shape.objsize * i % alloc_alignment ≡ 0 = rw size (object-aligned sz i) in
    omega (arith, memory, pe, multiple)

small_result-placed :
    (shape : CacheShape) (fs ps es : List ℕ) (sz size cache : ℕ) (a : Allocator)
    (r : Heap × Option ℕ)
    → shape ≡ cache_shape sz
    → hdr_size + size ≤ shape.objsize
    → AllocResult a.heap cache shape fs ps es r
    → PlacedResult a cache size shape fs ps es (small_result cache a r)
unfolding small_result
small_result-placed shape fs ps es sz size cache a (h', none) made fits
      (same, no_partial, no_free, full) =
    (same, no_partial, no_free)
small_result-placed shape fs ps es sz size cache a (h', some obj) made fits result =
    let (own', c', fs', ps', es', v, same, fresh, out, still, only) = result in
    let aligned =
      object_aligned sz obj (same ∙ made) v
        (subst (λ k. Out k h'.slabs fs' ps' es' obj) (sym same) out) in
    let hdr : AllocHdr = record {
      magic = alloc_magic;
      cache = cache;
      raw_base = 0;
      raw_bytes = 0;
    } in
    record {
      obj = obj;
      after_header = refl;
      handed_out = result;
      inside = omega (arith, fits);
      aligned = omega (arith, aligned);
      header = update-same a.headers obj hdr;
    }

-- Of an initialised allocator, for a size that is not 0 and for which a well-formed cache is picked, made
-- for a size and whose objects have room for a header and the memory: `kmalloc` returns NULL with the heap as
-- it was, when every slab of the cache is full; or memory that lies in an object that no one had, behind
-- its header, at a multiple of the alignment.
pub kmalloc_placed :
    {own : Mem} {c : Cache} {fs ps es : List ℕ} (endkernel sz size cache : ℕ) (a : Allocator)
    → IsCache a.heap own cache c fs ps es
    → size ≢ 0
    → a.cache_cache ≢ 0
    → cache ≢ 0
    → pick_cache_for_total (u64 (hdr_size + size)) a.size_caches ≡ cache
    → c.shape ≡ cache_shape sz
    → hdr_size + size ≤ c.shape.objsize
    → PlacedResult a cache size c.shape fs ps es (kmalloc endkernel size a)
kmalloc_placed {own} {c} {fs} {ps} {es} endkernel sz size cache a v nz ready nc picked shape fits =
    subst (PlacedResult a cache size c.shape fs ps es)
      (sym (kmalloc-cached endkernel size cache a nz ready nc picked))
      (small_result-placed c.shape fs ps es sz size cache a (cache_alloc cache a.heap) shape fits
        (cache_alloc_result v))

double_pow : (sz j : ℕ) → sz * 2 ^ suc j ≡ sz * 2 * 2 ^ j
double_pow sz j = ap (λ q. sz * q) (pow-succ' 2 j) ∙ twice sz (2 ^ j)
  where
    twice : (a b : ℕ) → a * (2 * b) ≡ a * 2 * b
    twice a b = grind arith

-- The first of the sizes from sz on that the total fits is the one at k; or the total fits none of them.
abbrev IsPicked : ℕ → ℕ → ℕ → ℕ → Mem → ℕ → Type 0
IsPicked left i sz total m r =
    ((k : ℕ) × (k < left)
      × (r ≡ m (i + k))
      × (total ≤ sz * 2 ^ k)
      × ((j : ℕ) → j < k → sz * 2 ^ j < total))
    ⊎ ((r ≡ 0) × ((j : ℕ) → j < left → sz * 2 ^ j < total))

all_below :
    (k sz total : ℕ)
    → sz < total
    → ((j : ℕ) → j < k → sz * 2 * 2 ^ j < total)
    → (j : ℕ) → j < suc k
    → sz * 2 ^ j < total
all_below k sz total gt below zero lt = omega (arith, gt)
all_below k sz total gt below (suc j) lt = rw (double_pow sz j) (below j (omega (arith, lt)))

IsPicked-double :
    (left i sz total : ℕ) (m : Mem) (r : ℕ)
    → sz < total
    → IsPicked left (i + 1) (sz * 2) total m r
    → IsPicked (suc left) i sz total m r
IsPicked-double left i sz total m r gt (inl (k, lt, e, le, below)) = inl (
  suc k,
  omega (arith, lt),
  e ∙ ap m (omega arith),
  rw (double_pow sz k) le,
  all_below k sz total gt below,
)
IsPicked-double left i sz total m r gt (inr (e, below)) = inr (e, all_below left sz total gt below)

pick_loop_lem :
    (left i sz total : ℕ) (m : Mem)
    → sz * 2 ^ left < 2 ^ 64
    → IsPicked left i sz total m (pick_loop left i sz total m)
unfolding pick_loop
pick_loop_lem zero i sz total m small = inr (refl, λ j lt. absurd (omega (arith, lt)))
pick_loop_lem (suc left) i sz total m small =
    let doubled : sz * 2 * 2 ^ left < 2 ^ 64 = rw (sym (double_pow sz left)) small in
    let one : 2 ^ 0 ≤ 2 ^ left = pow-le-pow_right (omega arith) (zero_le left) in
    let low : sz * 2 < 2 ^ 64 = bounded (sz * 2) (2 ^ left) one doubled in
    let again = pick_loop_lem left (i + 1) (sz * 2) total m doubled in
    if-picked (u64_lem (sz * 2) low) again (le_or_gt total sz)
  where
    bounded : (a b : ℕ) → 2 ^ 0 ≤ b → a * b < 2 ^ 64 → a < 2 ^ 64
    bounded a b one lt = grind arith

    zero_le : (n : ℕ) → 0 ≤ n
    zero_le n = omega arith

    u64_lem : (a : ℕ) → a < 2 ^ 64 → u64 a ≡ a
    u64_lem a lt = omega arith

    if-picked :
        u64 (sz * 2) ≡ sz * 2
        → IsPicked left (i + 1) (sz * 2) total m (pick_loop left (i + 1) (sz * 2) total m)
        → (total ≤ sz) ⊎ (sz < total)
        → IsPicked
            (suc left)
            i
            sz
            total
            m
            (if leb total sz then m i else pick_loop left (i + 1) (u64 (sz * 2)) total m)
    if-picked e again (inl le) =
        inl (0, omega arith, ground arith, omega (arith, le), λ j lt. absurd (omega (arith, lt)))
    if-picked e again (inr gt) =
        let above : leb total sz ≡ false = ground arith in
        rw (above, e)
          (IsPicked-double left i sz total m (pick_loop left (i + 1) (sz * 2) total m) gt again)

-- `pick_cache_for_total` gives the cache of the least of the eight sizes from 32 to 4096 that the total
-- fits, and NULL for a total that fits none.
pub pick_cache_for_total_lem :
    (total : ℕ) (size_caches : Mem)
    → ((k : ℕ) × (k < 8)
        × (pick_cache_for_total total size_caches ≡ size_caches k)
        × (total ≤ kmalloc_min * 2 ^ k)
        × ((j : ℕ) → j < k → kmalloc_min * 2 ^ j < total))
      ⊎ ((pick_cache_for_total total size_caches ≡ 0) × (kmalloc_min * 2 ^ 7 < total))
unfolding pick_cache_for_total
pick_cache_for_total_lem total size_caches =
    elim (pick_loop_lem 8 0 kmalloc_min total size_caches (omega arith)) [
      | inl (k, lt, e, le, below) ↦ inl (k, lt, e ∙ ap size_caches (omega arith), le, below)
      | inr (e, below) ↦ inr (e, below 7 (omega arith))
    ]
