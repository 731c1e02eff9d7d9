-- ===== src/Slab/Cache/Grow.antt =====
-- `cache_grow` of src/mm/allocator.c: pages for a slab that no one else has.
use ios.Prelude.{
  ℕ, ◌+◌, ◌-◌, ◌*◌, ◌/◌, ◌^◌, ◌<◌, ◌≤◌, ◌≡◌, ◌≢◌, Option, some, none, Bool, true, false, List, [],
  ◌∷◌, ◌++◌, arith, sym, refl, ap, ◌∙◌, All, All-append, All-map, u32, u64, inl, inr,
}
use mathlib.Core.Path.{subst}
use native.Mathlib.Decide.{ℕ_discrete}
use ios.Mem.{Mem, store}
use ios.Pages.{Pages, page_size, physical_memory_size, total_pages, is_used, kalloc, pages_for}
use ios.Pages.Search.{IsFreeRun}
use ios.Pages.Alloc.{IsTaken, KallocResult, kalloc-first_fit, pages_for_pages}
use ios.Pages.Invariant.{IsValid, IsTaken-IsValid}
use ios.Slab.{CacheShape, Slab, slab_size, new_slab}
use ios.Slab.Sizes.{slab_bytes, slab_mem-exact, align_up-exact}
use ios.Slab.Free.{new_slab-IsSlab}
use ios.Slab.Links.Rings.{Fresh}
use ios.Slab.Links.Owned.{list_append-IsRing, list_append-keeps}
use ios.Slab.Cache.{
  Cache, Heap, full, partial, free_list, update, with_pages, page_alloc, kernel_malloc, add_slab,
  grow_with, cache_grow,
}
use ios.Slab.Cache.Invariant.{
  IsCache, IsHeadOf, IsContents, IsCacheSlab, IsFullSlab, IsPartialSlab, IsFreeSlab, Held, sum_of,
  sum_of-append, each_one, taken_at, All-update, at-update, sum_of-update, update-same,
}

-- No run of n pages is free.
abbrev pub NoRun : Pages → ℕ → Type 0
NoRun pages n = (start : ℕ) → start + n ≤ total_pages → ¬ IsFreeRun pages.bitmap n start

-- What `kernel_malloc` gives for at most the memory that there is.
abbrev pub KmallocResult : Heap → ℕ → Heap × Option ℕ → Type 0
KmallocResult h n (h', none) = (h' ≡ h) × NoRun h.pages n
KmallocResult h n (h', some addr) =
    (pages : Pages) × (start : ℕ) × (h' ≡ record h { pages = pages })
    × IsTaken h.pages n start pages addr

with_pages-KmallocResult :
    (h : Heap) (n : ℕ) (r : Pages × Option ℕ)
    → KallocResult h.pages n r
    → KmallocResult h n (with_pages h r)
with_pages-KmallocResult h n (pages, none) (same, full) =
    (ap (λ p. record h { pages = p }) same, full)
with_pages-KmallocResult h n (pages, some addr) (start, k) = (pages, start, refl, k)

pub kernel_malloc_result :
    (h : Heap) (memory : ℕ)
    → IsValid h.pages
    → 1 ≤ memory
    → memory ≤ physical_memory_size
    → KmallocResult h ((memory + 4095) / page_size) (kernel_malloc memory h)
unfolding kernel_malloc page_alloc
kernel_malloc_result h memory v lo hi =
    let n = (memory + 4095) / page_size in
    let size : u64 (memory + 4095) / 4096 ≡ n = omega arith in
    let one : 1 ≤ n = omega arith in
    let low : n < 2 ^ 32 = omega arith in
    let count = pages_for_pages n one low in
    let exact : u32 (pages_for (u64 (n * page_size))) ≡ n = omega (arith, count) in
    rw size (
      with_pages-KmallocResult h n (kalloc h.pages (u64 (n * page_size))) (
        subst (λ m. KallocResult h.pages m (kalloc h.pages (u64 (n * page_size)))) exact
          (kalloc-first_fit h.pages (u64 (n * page_size)) v.bytes (omega arith) (omega arith))))

module _ {s t : Pages} {n start addr : ℕ} (v : IsValid s) (k : IsTaken s n start t addr)
    (some_pages : 1 ≤ n) where
  pub taken-address : addr ≡ start * page_size + s.first_page
  taken-address = omega (arith, k.address, k.inside, v.base)

  -- The address was in no page in use.
  pub taken-unheld : ¬ Held s addr
  taken-unheld (le, used) =
      let page : (addr - s.first_page) / page_size ≡ start = omega (arith, taken-address) in
      let free = k.was_free start (omega arith) (omega arith) in
      let used_start : is_used s.bitmap start ≡ true =
        subst (λ q. is_used s.bitmap q ≡ true) page used in
      cc

  pub Held-taken : (x : ℕ) → Held s x → Held t x
  Held-taken x (le, used) =
      let page = (x - s.first_page) / page_size in rw k.base (le, ground (arith, k.used page))

  pub taken-Held : Held t addr
  taken-Held =
      let page : (addr - s.first_page) / page_size ≡ start = omega (arith, taken-address) in
      rw k.base (omega (arith, taken-address), rw page (ground (arith, k.used start)))

  -- Slabs on other runs are as they were.
  pub IsCacheSlab-taken :
      {c : CacheShape} {x : ℕ} {b : Slab}
      → 1 ≤ (slab_bytes c + 4095) / page_size
      → IsCacheSlab s c x b
      → IsCacheSlab t c x b
  IsCacheSlab-taken one b = record {
    slab = b.slab;
    memory = b.memory;
    start = b.start;
    address = omega (arith, b.address, k.base);
    run = ground (arith, k.counts b.start, b.run, v.marked b.start b.start, k.was_free b.start);
  }

store-other : (m : Mem) (a w x : ℕ) → x ≢ a → store m a w x ≡ m x
unfolding store
store-other m a w x ne = ground arith

taken_total : (n m k count : ℕ) → m ≡ k + 1 → count ≡ u64 (n * k) → u64 (count + n) ≡ u64 (n * m)
taken_total n m k count e c =
    let more : n * (k + 1) ≡ n * k + n = grind arith in rw e (omega (arith, more, c))

-- The heap with the slab that `cache_grow` makes, in a cache that it was not of.
module _ {h : Heap} {own : Mem} {cache : ℕ} {c : Cache} {fs ps es : List ℕ} {t : Pages}
    {start addr : ℕ} (v : IsCache h own cache c fs ps es)
    (k : IsTaken h.pages ((slab_bytes c.shape + 4095) / page_size) start t addr)
    (some_pages : 1 ≤ (slab_bytes c.shape + 4095) / page_size) where
  unowned : (g : ℕ) → IsHeadOf cache g → own addr ≢ g
  unowned g at e =
      taken-unheld v.pages k some_pages (v.held addr (subst (IsHeadOf cache) (sym e) at))

  addr-Fresh :
      (g : ℕ) (nodes : List ℕ) → IsHeadOf cache g → All (λ x. own x ≡ g) nodes → Fresh addr nodes
  addr-Fresh g nodes at owned =
      All-map (λ x. own x ≡ g) (λ x. x ≢ addr) (λ x o e. unowned g at (sym (ap own e) ∙ o)) nodes
        owned

  -- The numbers of the objects end below 2^64.
  room : addr + slab_size + c.shape.objs_per_slab * 4 + 15 < 2 ^ 64
  unfolding slab_bytes
  room = omega (arith, taken-address v.pages k some_pages, k.inside, v.pages.base)

  grown_slab : IsFreeSlab t c.shape addr (new_slab c.shape addr)
  grown_slab =
      unfold new_slab in
      (
        record {
          slab = unfold new_slab in new_slab-IsSlab c.shape addr v.some_size;
          memory = align_up-exact (addr + slab_size + c.shape.objs_per_slab * 4) room;
          start = start;
          address = omega (arith, taken-address v.pages k some_pages, k.base);
          run = ground (arith, k.counts start);
        },
        refl,
      )

  kept_slabs :
      (P : ℕ → Slab → Type 0) (Q : ℕ → Slab → Type 0) (g : ℕ) (nodes : List ℕ)
      → ((x : ℕ) (s : Slab) → P x s → Q x s)
      → IsHeadOf cache g
      → All (λ x. own x ≡ g) nodes
      → All (λ x. P x (h.slabs x)) nodes
      → All (λ x. Q x (update h.slabs addr (new_slab c.shape addr) x)) nodes
  kept_slabs P Q g nodes f at owned all =
      All-update Q h.slabs addr (new_slab c.shape addr) nodes (addr-Fresh g nodes at owned)
        (All-map (λ x. P x (h.slabs x)) (λ x. Q x (h.slabs x)) (λ x p. f x (h.slabs x) p) nodes all)

  kept_slab : {x : ℕ} {s : Slab} → IsCacheSlab h.pages c.shape x s → IsCacheSlab t c.shape x s
  kept_slab b = IsCacheSlab-taken v.pages k some_pages some_pages b

  grown-IsContents :
      IsContents t c.shape (update h.slabs addr (new_slab c.shape addr)) fs ps (es ++ addr ∷ [])
  grown-IsContents = record {
    fulls =
        kept_slabs (IsFullSlab h.pages c.shape) (IsFullSlab t c.shape) (full cache) fs
          (λ x s p. (kept_slab p.0, p.1)) (inl refl) v.rings.fulls.owned v.contents.fulls;
    partials =
        kept_slabs (IsPartialSlab h.pages c.shape) (IsPartialSlab t c.shape) (partial cache) ps
          (λ x s p. (kept_slab p.0, p.1, p.2)) (inr (inl refl)) v.rings.partials.owned
          v.contents.partials;
    frees =
        All-append (λ x. IsFreeSlab t c.shape x (update h.slabs addr (new_slab c.shape addr) x)) es
          (addr ∷ [])
          (kept_slabs (IsFreeSlab h.pages c.shape) (IsFreeSlab t c.shape) (free_list cache) es
            (λ x s p. (kept_slab p.0, p.1)) (inr (inr refl)) v.rings.frees.owned v.contents.frees)
          (at-update (IsFreeSlab t c.shape) h.slabs addr (new_slab c.shape addr) grown_slab, tt);
  }

  grown_total :
      u64 (c.totalobjs + c.shape.objs_per_slab)
      ≡ u64 (
          c.shape.objs_per_slab
          * (sum_of each_one fs + sum_of each_one ps + sum_of each_one (es ++ addr ∷ [])))
  grown_total =
      taken_total c.shape.objs_per_slab _
        (sum_of each_one fs + sum_of each_one ps + sum_of each_one es) c.totalobjs
        (omega (arith, sum_of-append each_one es (addr ∷ []))) v.total

  grown_in_use :
      let slabs = update h.slabs addr (new_slab c.shape addr) in
      c.inuse
      ≡ u64 (
          sum_of (taken_at slabs) fs
          + sum_of (taken_at slabs) ps
          + sum_of (taken_at slabs) (es ++ addr ∷ []))
  grown_in_use =
      let s = new_slab c.shape addr in
      let slabs = update h.slabs addr s in
      v.in_use
      ∙ ap u64 (
          omega (
            arith,
            sum_of-update h.slabs addr s fs
                (addr-Fresh (full cache) fs (inl refl) v.rings.fulls.owned),
            sum_of-update h.slabs addr s ps
                (addr-Fresh (partial cache) ps (inr (inl refl)) v.rings.partials.owned),
            sum_of-update h.slabs addr s es
                (addr-Fresh (free_list cache) es (inr (inr refl)) v.rings.frees.owned),
            sum_of-append (taken_at slabs) es (addr ∷ []),
            ap (λ b. b.free) (update-same h.slabs addr s),
            grown_slab.1,
          ))

  grown-Held : (x : ℕ) → IsHeadOf cache (store own addr (free_list cache) x) → Held t x
  grown-Held x at = elim (ℕ_discrete x addr) [
    | yes e ↦ subst (Held t) (sym e) (taken-Held v.pages k some_pages)
    | no ne ↦
        Held-taken v.pages k some_pages x
          (v.held x (subst (IsHeadOf cache) (store-other own addr (free_list cache) x ne) at))
  ]

  -- The cache with one slab more, whose objects are all free.
  pub add_slab-IsCache :
      let grown = record c { totalobjs = u64 (c.totalobjs + c.shape.objs_per_slab) } in
      IsCache
        (add_slab cache addr (record h { pages = t }))
        (store own addr (free_list cache))
        cache
        grown
        fs
        ps
        (es ++ addr ∷ [])
  unfolding add_slab
  add_slab-IsCache =
      let grown = record c { totalobjs = u64 (c.totalobjs + c.shape.objs_per_slab) } in
      let not_free = unowned (free_list cache) (inr (inr refl)) in
      rw v.fields (record {
        fields = update-same h.caches cache grown;
        pages = IsTaken-IsValid v.pages k some_pages;
        some_object = v.some_object;
        some_size = v.some_size;
        small = v.small;
        held = grown-Held;
        rings = record {
          fulls =
              list_append-keeps addr v.rings.frees not_free v.rings.fulls (omega arith)
                (unowned (full cache) (inl refl));
          partials =
              list_append-keeps addr v.rings.frees not_free v.rings.partials (omega arith)
                (unowned (partial cache) (inr (inl refl)));
          frees = list_append-IsRing addr v.rings.frees not_free;
        };
        contents = grown-IsContents;
        total = grown_total;
        in_use = grown_in_use;
      })

-- The return value 0 and its slab, or -1 and nothing done.
abbrev pub GrowResult : Heap → ℕ → Cache → List ℕ → List ℕ → List ℕ → Heap × Bool → Type 0
GrowResult h cache c fs ps es (h', false) =
    (h' ≡ h) × NoRun h.pages ((slab_bytes c.shape + 4095) / page_size)
GrowResult h cache c fs ps es (h', true) =
    (own : Mem) × (c' : Cache) × (addr : ℕ) × IsCache h' own cache c' fs ps (es ++ addr ∷ [])
    × (c'.shape ≡ c.shape)
    × (¬ Held h.pages addr)
    × (h'.slabs ≡ update h.slabs addr (new_slab c.shape addr))

grow_with-GrowResult :
    {h : Heap} {own : Mem} {cache : ℕ} {c : Cache} {fs ps es : List ℕ} (r : Heap × Option ℕ)
    → IsCache h own cache c fs ps es
    → 1 ≤ (slab_bytes c.shape + 4095) / page_size
    → KmallocResult h ((slab_bytes c.shape + 4095) / page_size) r
    → GrowResult h cache c fs ps es (grow_with cache r)
unfolding grow_with
grow_with-GrowResult (h', none) v one same = same
grow_with-GrowResult {h} {own} {cache} {c} {fs} {ps} {es} (h', some addr) v one
      (pages, start, e, k) =
    subst (λ g. GrowResult h cache c fs ps es (add_slab cache addr g, true)) (sym e)
      (
        store own addr (free_list cache),
        _,
        addr,
        add_slab-IsCache v k one,
        refl,
        taken-unheld v.pages k one,
        (unfold add_slab in rw v.fields refl),
      )

pub cache_grow_result :
    {h : Heap} {own : Mem} {cache : ℕ} {c : Cache} {fs ps es : List ℕ}
    → IsCache h own cache c fs ps es
    → GrowResult h cache c fs ps es (cache_grow cache h)
unfolding cache_grow
cache_grow_result {h} {own} {cache} {c} v =
    let some_memory : 1 ≤ slab_bytes c.shape = unfold slab_bytes in omega arith in
    rw (v.fields, slab_mem-exact c.shape (omega (arith, v.small)))
      (grow_with-GrowResult (kernel_malloc (slab_bytes c.shape) h) v (omega (arith, some_memory))
        (kernel_malloc_result h (slab_bytes c.shape) v.pages some_memory v.small))
