-- ===== src/Pages/Alloc.antt =====
-- `kalloc` and `page_free` of src/mm/page_alloc.c.
use ios.Prelude.{
  ℕ, ◌+◌, ◌*◌, ◌^◌, ◌<◌, ◌≤◌, ◌≡◌, ◌≢◌, true, ◌&&◌, ltb, leb, ◌==◌, if◌then◌else◌, arith, Option,
  none, some, Option-cases, inl, inr, refl, u32, u64, ne→==_false,
}
use ios.Mem.{store}
use ios.Pages.{
  Pages, total_pages, page_size, physical_memory_size, is_used, unmark_pages, find_run, take_run,
  kalloc, pages_for, page_index, in_memory, page_free,
}
use ios.Pages.Marks.{IsBytes, mark_pages-IsBytes, is_used-mark_pages, is_used-unmark_pages}
use ios.Pages.Search.{IsFreeRun, IsFirstFit, find_run-IsFirstFit}

-- `t` and the address are what allocating the n pages from `start` on in `s` gives.
pub record IsTaken (s : Pages) (n start : ℕ) (t : Pages) (addr : ℕ) : Type 0 where
  pub address : addr ≡ u64 (start * page_size + s.first_page)
  pub inside : start + n ≤ total_pages
  pub was_free : IsFreeRun s.bitmap n start
  pub first : (a : ℕ) → a < start → ¬ IsFreeRun s.bitmap n a
  pub base : t.first_page ≡ s.first_page
  pub memory : t.memory ≡ s.memory
  pub bytes : IsBytes t.bitmap
  pub used :
      (q : ℕ)
      → is_used t.bitmap q ≡ (if leb start q && ltb q (start + n) then true else is_used s.bitmap q)
  pub counts : (a : ℕ) → t.page_counts a ≡ (if start == a then n else s.page_counts a)

abbrev pub KallocResult : Pages → ℕ → Pages × Option ℕ → Type 0
KallocResult s n (t, none) =
    (t ≡ s) × ((start : ℕ) → start + n ≤ total_pages → ¬ IsFreeRun s.bitmap n start)
KallocResult s n (t, some addr) = (start : ℕ) × IsTaken s n start t addr

take_run-IsTaken :
    (s : Pages) (n start : ℕ)
    → IsBytes s.bitmap
    → IsFirstFit s.bitmap n total_pages (some start)
    → KallocResult s n (take_run s n start)
unfolding take_run store
take_run-IsTaken s n start h (fits, free, least) = (
  start,
  record {
    address = refl;
    inside = fits;
    was_free = free;
    first = least;
    base = refl;
    memory = refl;
    bytes = mark_pages-IsBytes n start h;
    used = λ q. is_used-mark_pages n start q h;
    counts = λ a. ground arith;
  },
)

-- `kalloc` of a size that is not 0, whose page count as an `int` is n > 0, on a bitmap of bytes, takes
-- the first run of n free pages, marks it and no other page, and records its length; without one it
-- returns NULL and changes nothing.
pub kalloc-first_fit :
    (s : Pages) (size : ℕ)
    → IsBytes s.bitmap
    → size ≢ 0
    → 0 < u32 (pages_for size)
    → KallocResult s (u32 (pages_for size)) (kalloc s size)
unfolding kalloc
kalloc-first_fit s size h nz hn =
    let n = u32 (pages_for size) in
    let found = find_run-IsFirstFit s.bitmap n hn in
    rw (ne→==_false size 0 nz) (elim (Option-cases (find_run n total_pages s.bitmap 0 0 0)) [
      | inl e ↦ rw e (refl, rw e at found)
      | inr (start, e) ↦ rw e (take_run-IsTaken s n start h (rw e at found))
    ])

-- Where the pages lie: the address of page `start` is in memory and has that index.
pub page_index_of_address :
    (s : Pages) (start addr : ℕ)
    → s.first_page + physical_memory_size < 2 ^ 64
    → start < total_pages
    → addr ≡ u64 (start * page_size + s.first_page)
    → (page_index s addr ≡ start) × (in_memory s addr ≡ true)
unfolding page_index in_memory
page_index_of_address s start addr h hs e = (omega arith, ground arith)

-- Freeing the address of page `start` unmarks its recorded run and clears its count.
pub page_free_at :
    (s : Pages) (start addr : ℕ)
    → s.first_page + physical_memory_size < 2 ^ 64
    → start < total_pages
    → addr ≡ u64 (start * page_size + s.first_page)
    → page_free s addr ≡ record s {
      bitmap = unmark_pages (s.page_counts start) start s.bitmap;
      page_counts = store s.page_counts start 0;
    }
unfolding page_free
page_free_at s start addr h hs e =
    let (index, inside) = page_index_of_address s start addr h hs e in rw (inside, index)

-- Freeing what was just taken gives every page its mark and its count back.
pub page_free_taken :
    (s t : Pages) (n start addr : ℕ)
    → IsTaken s n start t addr
    → s.first_page + physical_memory_size < 2 ^ 64
    → 0 < n
    → s.page_counts start ≡ 0
    → ((q : ℕ) → is_used (page_free t addr).bitmap q ≡ is_used s.bitmap q)
      × ((a : ℕ) → (page_free t addr).page_counts a ≡ s.page_counts a)
unfolding store
page_free_taken s t n start addr k h hn zero_count =
    rw
      (page_free_at t start addr (omega (arith, k.base)) (omega (arith, k.inside))
        (omega (arith, k.base, k.address)))
      (
        λ q. ground (
          arith,
          is_used-unmark_pages (t.page_counts start) start q k.bytes,
          k.used q,
          k.counts start,
          k.was_free q,
        ),
        λ a. ground (arith, k.counts a),
      )

-- The page count of a whole number of pages.
pub pages_for_pages : (n : ℕ) → 1 ≤ n → n < 2 ^ 32 → pages_for (u64 (n * page_size)) ≡ n
unfolding pages_for
pages_for_pages n lo hi = ground arith
