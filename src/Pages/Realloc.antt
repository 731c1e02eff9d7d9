-- ===== src/Pages/Realloc.antt =====
-- `krealloc` of src/mm/page_alloc.c.
use ios.Prelude.{
  ℕ, ◌+◌, ◌-◌, ◌*◌, ◌<◌, ◌≤◌, ◌≡◌, ◌≢◌, ◌⊎◌, ◌&&◌, ◌==◌, if◌then◌else◌, true, false, leb, ltb,
  arith, Option, none, some, inl, inr, refl, sym, u16, u32, u64, ne→==_false, Bool-cases, leb→le,
  ap, ◌∙◌,
}
use ios.Mem.{Mem, store, blit}
use ios.Pages.{
  Pages, page_size, total_pages, is_used, kalloc, pages_for, page_index, move_run, shrink_run,
  copy_bytes, resize, krealloc,
}
use ios.Pages.Marks.{is_used-unmark_pages}
use ios.Pages.Search.{IsFreeRun}
use ios.Pages.Alloc.{KallocResult, kalloc-first_fit, page_free_at, page_index_of_address}
use ios.Pages.Copy.{copy_bytes-blit}
use ios.Pages.Invariant.{IsValid, leb_total}

-- Where page `idx` starts.
abbrev pub page_address : Pages → ℕ → ℕ
page_address s idx = u64 (idx * page_size + s.first_page)

-- The run at page `idx` was cut to its first n pages, where it was.
pub record Shrunk (s : Pages) (idx n : ℕ) (t : Pages) : Type 0 where
  pub fits : n ≤ s.page_counts idx
  pub memory : t.memory ≡ s.memory
  pub used :
      (q : ℕ)
      → is_used t.bitmap q
        ≡ (if leb (idx + n) q && ltb q (idx + s.page_counts idx) then false else is_used s.bitmap q)
  pub counts : (a : ℕ) → t.page_counts a ≡ (if idx == a then n else s.page_counts a)

-- The run at page `idx` was moved to the first run of n free pages.
pub record Moved (s : Pages) (idx n : ℕ) (t : Pages) (got : ℕ) : Type 0 where
  pub start : ℕ
  pub address : got ≡ page_address s start
  pub inside : start + n ≤ total_pages
  pub was_free : IsFreeRun s.bitmap n start
  pub first : (a : ℕ) → a < start → ¬ IsFreeRun s.bitmap n a
  pub used :
      (q : ℕ)
      → is_used t.bitmap q ≡ (
          if leb start q && ltb q (start + n)
          then true
          else if leb idx q && ltb q (idx + s.page_counts idx)
          then false
          else is_used s.bitmap q)
  pub counts :
      (a : ℕ)
      → t.page_counts a ≡ (if idx == a then 0 else if start == a then n else s.page_counts a)
  pub memory :
      (j : ℕ)
      → t.memory j
        ≡ blit s.memory got s.memory (page_address s idx) (s.page_counts idx * page_size) j

-- NULL: nothing changed, the run is too short, and no run of free pages is long enough. Otherwise the run
-- was long enough and was cut in place, or it was too short and was moved.
abbrev pub KreallocResult : Pages → ℕ → ℕ → Pages × Option ℕ → Type 0
KreallocResult s idx size (t, none) =
    (t ≡ s)
    × (s.page_counts idx < u16 (pages_for size))
    × ((start : ℕ)
        → start + u32 (pages_for size) ≤ total_pages
        → ¬ IsFreeRun s.bitmap (u32 (pages_for size)) start)
KreallocResult s idx size (t, some got) =
    ((got ≡ page_address s idx) × Shrunk s idx (u16 (pages_for size)) t)
    ⊎ ((s.page_counts idx < u16 (pages_for size)) × Moved s idx (u32 (pages_for size)) t got)

module _ {s : Pages} (v : IsValid s) (idx : ℕ) (recorded : s.page_counts idx ≢ 0) where
  in_table : idx < total_pages
  in_table = omega (arith, v.inside idx recorded)

  index : page_index s (page_address s idx) ≡ idx
  index = (page_index_of_address s idx (page_address s idx) v.base in_table refl).0

  -- The free run lies behind the recorded one or before it.
  runs_apart :
      (n start : ℕ)
      → 0 < n
      → IsFreeRun s.bitmap n start
      → (start + n ≤ idx) ⊎ (idx + s.page_counts idx ≤ start)
  runs_apart n start hn free =
      ground (arith, v.marked idx idx, free idx, v.marked idx start, free start)

  shrink_run-Shrunk :
      (n : ℕ) → n ≤ s.page_counts idx → Shrunk s idx n (shrink_run s idx (s.page_counts idx) n)
  unfolding shrink_run store
  shrink_run-Shrunk n le = record {
    fits = le;
    memory = refl;
    used = λ q. ground (arith, is_used-unmark_pages (s.page_counts idx - n) (idx + n) q v.bytes);
    counts = λ a. refl;
  }

  bytes_apart :
      (n start got : ℕ)
      → s.page_counts idx < n
      → start + n ≤ total_pages
      → got ≡ page_address s start
      → (start + n ≤ idx) ⊎ (idx + s.page_counts idx ≤ start)
      → (got + s.page_counts idx * page_size ≤ page_address s idx)
        ⊎ (page_address s idx + s.page_counts idx * page_size ≤ got)
  bytes_apart n start got more fits at (inl before) = inl (omega (arith, v.base, in_table))
  bytes_apart n start got more fits at (inr behind) =
      inr (omega (arith, v.base, v.inside idx recorded))

  move_run-KreallocResult :
      (size : ℕ) (r : Pages × Option ℕ)
      → 0 < u32 (pages_for size)
      → s.page_counts idx < u16 (pages_for size)
      → KallocResult s (u32 (pages_for size)) r
      → KreallocResult s idx size (move_run (page_address s idx) (s.page_counts idx) r)
  unfolding move_run
  move_run-KreallocResult size (t, none) hn gt (same, full) = (same, gt, full)
  move_run-KreallocResult size (t, some got) hn gt (start, k) =
      let old = s.page_counts idx in
      let m = copy_bytes (old * page_size) got (page_address s idx) t.memory in
      let apart = runs_apart (u32 (pages_for size)) start hn k.was_free in
      let same : t.page_counts idx ≡ old = ground (arith, k.counts idx, apart, hn, recorded) in
      let more : old < u32 (pages_for size) = omega (arith, gt) in
      let freed =
        page_free_at (record t { memory = m }) idx (page_address s idx)
          (omega (arith, k.base, v.base)) in_table
          (ap (λ (b : ℕ). u64 (idx * page_size + b)) (sym k.base)) in
      rw freed (
        inr (
          gt,
          record {
            start = start;
            address = k.address;
            inside = k.inside;
            was_free = k.was_free;
            first = k.first;
            used = λ q. ground (
              arith,
              is_used-unmark_pages (t.page_counts idx) idx q k.bytes,
              k.used q,
              same,
              apart,
            );
            counts = λ a. unfold store in ground (arith, k.counts a);
            memory = λ j.
                copy_bytes-blit (old * page_size) got (page_address s idx) t.memory
                  (bytes_apart _ start got more k.inside k.address apart) j
                ∙ ap (λ (b : Mem). blit b got b (page_address s idx) (old * page_size) j) k.memory;
          },
        ))

  resize-KreallocResult :
      (size : ℕ)
      → size ≢ 0
      → 0 < u32 (pages_for size)
      → KreallocResult s idx size (resize s (page_address s idx) size)
  unfolding resize
  resize-KreallocResult size nz hn =
      rw index (elim (Bool-cases (leb (u16 (pages_for size)) (s.page_counts idx))) [
        | inl le ↦ rw le (inl (refl, shrink_run-Shrunk _ (leb→le _ _ le)))
        | inr gt ↦ rw gt (
            move_run-KreallocResult size (kalloc s size) hn (ground (arith, gt))
              (kalloc-first_fit s size v.bytes nz hn))
      ])

-- On a valid allocator, for the address of a page where a run is recorded, and a new size that is not 0
-- and whose page count is not 0 as an `int`, `krealloc` touches nothing behind its table. When the run is
-- at least as long as the new page count, as the `uint16_t` that it is kept in, the run is cut to that
-- count at the same address, and no byte changes. When it is shorter, the call moves it to the first run of
-- free pages of the new length, with all its bytes, and frees the old pages; or it returns NULL, changes
-- nothing, and there was no such run.
pub krealloc_result :
    {s : Pages} (idx new_size : ℕ)
    → IsValid s
    → s.page_counts idx ≢ 0
    → new_size ≢ 0
    → 0 < u32 (pages_for new_size)
    → (r : Pages × Option ℕ) × (krealloc s (page_address s idx) new_size ≡ some r)
      × KreallocResult s idx new_size r
unfolding krealloc
krealloc_result {s} idx new_size v recorded nz hn =
    rw (ne→==_false new_size 0 nz, index v idx recorded, leb_total idx (in_table v idx recorded))
      (
        resize s (page_address s idx) new_size,
        refl,
        resize-KreallocResult v idx recorded new_size nz hn,
      )

-- A request, not of size 0, whose page count is a multiple of 65536 is cut to 0 by the `uint16_t`: `krealloc`
-- reports success at the old address, and has given all pages of the run back.
pub krealloc_truncates :
    (s : Pages) (addr new_size : ℕ)
    → new_size ≢ 0
    → page_index s addr < total_pages
    → u16 (pages_for new_size) ≡ 0
    → krealloc s addr new_size
      ≡ some (shrink_run s (page_index s addr) (s.page_counts (page_index s addr)) 0, some addr)
unfolding krealloc resize
krealloc_truncates s addr new_size nz lt e = ground arith
