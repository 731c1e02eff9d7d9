-- ===== src/Pages/Invariant.antt =====
-- The representation invariant of src/mm/page_alloc.c, operation by operation.
use ios.Prelude.{
  ℕ, ◌+◌, ◌^◌, ◌<◌, ◌≤◌, ◌≡◌, ◌≢◌, true, false, leb, arith, Option, none, some, inl, inr, refl, u16,
  u32, ne→==_false, ==_iff, Bool-cases, leb→le,
}
use native.Mathlib.Decide.{ℕ_discrete}
use ios.Bits.{has_bit, set_bit}
use ios.Mem.{fill, Mem, store}
use ios.Pages.{
  init_allocator, Pages, total_pages, page_size, mark_page, physical_memory_size, is_used,
  unmark_pages, kalloc, pages_for, page_index, in_memory, page_free, move_run, shrink_run, krealloc,
  resize,
}
use ios.Pages.Marks.{IsBytes, mark_page-IsBytes, unmark_pages-IsBytes, is_used-unmark_pages}
use ios.Pages.Alloc.{IsTaken, KallocResult, kalloc-first_fit, page_free_taken}

-- The recorded runs lie in the bitmap, all their pages are marked, and no two overlap.
pub record IsValid (s : Pages) : Type 0 where
  pub base : s.first_page + physical_memory_size < 2 ^ 64
  pub bytes : IsBytes s.bitmap
  pub inside : (a : ℕ) → s.page_counts a ≢ 0 → a + s.page_counts a ≤ total_pages
  pub marked : (a q : ℕ) → a ≤ q → q < a + s.page_counts a → is_used s.bitmap q ≡ true
  pub apart :
      (a b : ℕ) → a < b → s.page_counts a ≢ 0 → s.page_counts b ≢ 0 → a + s.page_counts a ≤ b

-- `initAllocator` establishes the invariant when the kernel's end leaves room for the memory below
-- 2^64, the bitmap holds bytes, and no run is recorded past the last page.
pub init_allocator-IsValid :
    (endkernel : ℕ) (s : Pages)
    → endkernel + physical_memory_size + page_size < 2 ^ 64
    → IsBytes s.bitmap
    → ((a : ℕ) → total_pages ≤ a → s.page_counts a ≡ 0)
    → IsValid (init_allocator endkernel s)
unfolding init_allocator fill
init_allocator-IsValid endkernel s low bytes past = record {
  base = omega arith;
  bytes = mark_page-IsBytes 0 (λ i. ground (arith, bytes i));
  inside = λ a h. ground (arith, past a);
  marked = λ a q lo hi. ground (arith, past a);
  apart = λ a b lt ha hb. ground (arith, past a);
}

-- The first page is reserved.
pub init_allocator-reserves :
    (endkernel : ℕ) (s : Pages) → is_used (init_allocator endkernel s).bitmap 0 ≡ true
unfolding init_allocator fill mark_page is_used store has_bit set_bit
init_allocator-reserves endkernel s = refl

kalloc_zero : (s : Pages) (size : ℕ) → size ≡ 0 → (kalloc s size).1 ≡ none
unfolding kalloc
kalloc_zero s size z = ground arith

-- A run that was taken from free pages overlaps no recorded one.
pub IsTaken-IsValid :
    {s t : Pages} {n start addr : ℕ} → IsValid s → IsTaken s n start t addr → 0 < n → IsValid t
IsTaken-IsValid {s} {t} {n} {start} v k hn = record {
  base = omega (arith, k.base, v.base);
  bytes = k.bytes;
  inside = λ a h. ground (arith, k.counts a, v.inside a, k.inside);
  marked = λ a q lo hi. ground (arith, k.counts a, k.used q, v.marked a q);
  apart = λ a b lt ha hb. ground (
    arith,
    k.counts a,
    k.counts b,
    v.apart a b,
    v.marked a start,
    k.was_free start,
    v.marked b b,
    k.was_free b,
  );
}

-- Cutting the run at page `a` to its first m pages: the c pages from i on are unmarked.
cut_run-IsValid :
    {s : Pages} (v : IsValid s) (a m c i : ℕ)
    → m + c ≡ s.page_counts a
    → i ≡ a + m
    → IsValid
        (record s { bitmap = unmark_pages c i s.bitmap; page_counts = store s.page_counts a m })
unfolding store
cut_run-IsValid {s} v a m c i le from = record {
  base = v.base;
  bytes = unmark_pages-IsBytes c i v.bytes;
  inside = λ b h. ground (arith, v.inside a, v.inside b);
  marked = λ b q lo hi.
      ground (arith, is_used-unmark_pages c i q v.bytes, v.marked b q, v.apart a b, v.apart b a);
  apart = λ b d lt hb hd. ground (arith, v.apart b d);
}

-- `page_free` keeps the invariant, whatever address it is given.
pub page_free-IsValid : {s : Pages} (addr : ℕ) → IsValid s → IsValid (page_free s addr)
unfolding page_free
page_free-IsValid {s} addr v =
    let p = page_index s addr in
    elim (Bool-cases (in_memory s addr)) [
      | inl e ↦ rw e (cut_run-IsValid v p 0 (s.page_counts p) p (omega arith) (omega arith))
      | inr e ↦ rw e v
    ]

KallocResult-IsValid :
    {s : Pages} (n : ℕ) (r : Pages × Option ℕ)
    → IsValid s
    → 0 < n
    → KallocResult s n r
    → IsValid r.0
KallocResult-IsValid n (t, none) v hn (same, h) = rw same v
KallocResult-IsValid n (t, some addr) v hn (start, k) = IsTaken-IsValid v k hn

-- `kalloc` keeps the invariant, for a size whose page count is not 0 as an `int`.
pub kalloc-IsValid :
    {s : Pages} (size : ℕ) → IsValid s → 0 < u32 (pages_for size) → IsValid (kalloc s size).0
kalloc-IsValid {s} size v hn = elim (ℕ_discrete size 0) [
  | yes z ↦ unfold kalloc in rw z v
  | no nz ↦ KallocResult-IsValid _ (kalloc s size) v hn (kalloc-first_fit s size v.bytes nz hn)
]

memory-IsValid : {t : Pages} (m : Mem) → IsValid t → IsValid (record t { memory = m })
memory-IsValid m w = record {
  base = w.base;
  bytes = w.bytes;
  inside = w.inside;
  marked = w.marked;
  apart = w.apart;
}

move_run-IsValid :
    (addr old : ℕ) (r : Pages × Option ℕ) → IsValid r.0 → IsValid (move_run addr old r).0
unfolding move_run
move_run-IsValid addr old (s, none) v = v
move_run-IsValid addr old (s, some new_addr) v = page_free-IsValid addr (memory-IsValid _ v)

resize-IsValid :
    {s : Pages} (addr new_size : ℕ)
    → IsValid s
    → 0 < u32 (pages_for new_size)
    → IsValid (resize s addr new_size).0
unfolding resize shrink_run
resize-IsValid {s} addr new_size v hn = elim (Bool-cases (leb (u16 (pages_for new_size)) old)) [
  | inl le ↦ rw le (
      cut_run-IsValid v (page_index s addr) (u16 (pages_for new_size)) _ _
        (let f = leb→le _ _ le in omega arith) refl)
  | inr gt ↦ rw gt (move_run-IsValid addr old (kalloc s new_size) (kalloc-IsValid new_size v hn))
]
  where
    old : ℕ
    old = s.page_counts (page_index s addr)

pub leb_total : (n : ℕ) → n < total_pages → leb total_pages n ≡ false
leb_total n lt = ground arith

-- `krealloc` at an address whose page has a place in `page_counts` touches nothing behind that array and
-- keeps the invariant, for a new size whose page count is not 0 as an `int`.
pub krealloc-IsValid :
    {s : Pages} (addr new_size : ℕ)
    → IsValid s
    → page_index s addr < total_pages
    → 0 < u32 (pages_for new_size)
    → (r : Pages × Option ℕ) × (krealloc s addr new_size ≡ some r) × IsValid r.0
unfolding krealloc
krealloc-IsValid {s} addr new_size v inside hn = elim (ℕ_discrete new_size 0) [
  | yes z ↦ rw ((==_iff _ _).1 z) ((page_free s addr, none), refl, page_free-IsValid addr v)
  | no nz ↦
      rw (ne→==_false _ _ nz, leb_total _ inside)
        (resize s addr new_size, refl, resize-IsValid addr new_size v hn)
]

restored_by_free :
    {s : Pages} (n addr : ℕ) (r : Pages × Option ℕ)
    → IsValid s
    → 0 < n
    → r.1 ≡ some addr
    → KallocResult s n r
    → ((q : ℕ) → is_used (page_free r.0 addr).bitmap q ≡ is_used s.bitmap q)
      × ((a : ℕ) → (page_free r.0 addr).page_counts a ≡ s.page_counts a)
restored_by_free n addr (t, none) v hn e h = cc
restored_by_free {s} n addr (t, some got) v hn e (start, k) =
    rw (← same) (page_free_taken s t n start got k v.base hn unused)
  where
    same : got ≡ addr
    same = cc

    unused : s.page_counts start ≡ 0
    unused = ground (arith, v.marked start start, k.was_free start)

-- On a valid allocator, and for a size whose page count is not 0 as an `int`, freeing the address that
-- `kalloc` returned gives every page the mark and the count it had before the call.
pub page_free-kalloc :
    {s : Pages} (size : ℕ) {addr : ℕ}
    → IsValid s
    → 0 < u32 (pages_for size)
    → (kalloc s size).1 ≡ some addr
    → ((q : ℕ) → is_used (page_free (kalloc s size).0 addr).bitmap q ≡ is_used s.bitmap q)
      × ((a : ℕ) → (page_free (kalloc s size).0 addr).page_counts a ≡ s.page_counts a)
page_free-kalloc {s} size {addr} v hn e = elim (ℕ_discrete size 0) [
  | yes z ↦ cc (e, kalloc_zero s size z)
  | no nz ↦ restored_by_free _ addr (kalloc s size) v hn e (kalloc-first_fit s size v.bytes nz hn)
]
