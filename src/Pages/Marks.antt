-- ===== src/Pages/Marks.antt =====
-- What marking and unmarking a run of pages does to every page of the bitmap.
use ios.Prelude.{
  ℕ, zero, suc, ◌+◌, ◌/◌, ◌%◌, ◌<◌, ◌≡◌, true, false, ◌&&◌, ltb, leb, ◌==◌, if◌then◌else◌, arith,
}
use ios.Bits.{has_bit-set_bit, has_bit-clear_bit}
use ios.Mem.{Mem, store}
use ios.Pages.{is_used, mark_page, unmark_page, mark_pages, unmark_pages}

abbrev pub IsBytes : Mem → Type 0
IsBytes m = (i : ℕ) → m i < 256

pub mark_page-IsBytes : {m : Mem} (i : ℕ) → IsBytes m → IsBytes (mark_page m i)
unfolding mark_page store
mark_page-IsBytes {m} i h j =
    ground
      (arith, h j, has_bit-set_bit (m (i / 8)) (i % 8) 0 (h (i / 8)) (omega arith) (omega arith))

pub unmark_page-IsBytes : {m : Mem} (i : ℕ) → IsBytes m → IsBytes (unmark_page m i)
unfolding unmark_page store
unmark_page-IsBytes {m} i h j =
    ground
      (arith, h j, has_bit-clear_bit (m (i / 8)) (i % 8) 0 (h (i / 8)) (omega arith) (omega arith))

is_used-mark_page :
    {m : Mem} (i q : ℕ)
    → IsBytes m
    → is_used (mark_page m i) q ≡ (if i == q then true else is_used m q)
unfolding is_used mark_page store
is_used-mark_page {m} i q h =
    ground
      (arith, has_bit-set_bit (m (i / 8)) (i % 8) (q % 8) (h (i / 8)) (omega arith) (omega arith))

is_used-unmark_page :
    {m : Mem} (i q : ℕ)
    → IsBytes m
    → is_used (unmark_page m i) q ≡ (if i == q then false else is_used m q)
unfolding is_used unmark_page store
is_used-unmark_page {m} i q h =
    ground
      (arith, has_bit-clear_bit (m (i / 8)) (i % 8) (q % 8) (h (i / 8)) (omega arith) (omega arith))

-- Marking n pages from i on keeps the bitmap's bytes bytes.
pub mark_pages-IsBytes : (n i : ℕ) {m : Mem} → IsBytes m → IsBytes (mark_pages n i m)
unfolding mark_pages
mark_pages-IsBytes zero i h = h
mark_pages-IsBytes (suc n) i h = mark_pages-IsBytes n (i + 1) (mark_page-IsBytes i h)

pub unmark_pages-IsBytes : (n i : ℕ) {m : Mem} → IsBytes m → IsBytes (unmark_pages n i m)
unfolding unmark_pages
unmark_pages-IsBytes zero i h = h
unmark_pages-IsBytes (suc n) i h = unmark_pages-IsBytes n (i + 1) (unmark_page-IsBytes i h)

-- After marking n pages from i on, a page is used if it is one of them or was used before.
pub is_used-mark_pages :
    (n i q : ℕ) {m : Mem}
    → IsBytes m
    → is_used (mark_pages n i m) q ≡ (if leb i q && ltb q (i + n) then true else is_used m q)
unfolding mark_pages
is_used-mark_pages zero i q h = ground arith
is_used-mark_pages (suc n) i q h =
    ground (arith, is_used-mark_pages n (i + 1) q (mark_page-IsBytes i h), is_used-mark_page i q h)

-- After unmarking n pages from i on, a page is used if it is none of them and was used before.
pub is_used-unmark_pages :
    (n i q : ℕ) {m : Mem}
    → IsBytes m
    → is_used (unmark_pages n i m) q ≡ (if leb i q && ltb q (i + n) then false else is_used m q)
unfolding unmark_pages
is_used-unmark_pages zero i q h = ground arith
is_used-unmark_pages (suc n) i q h =
    ground
      (arith, is_used-unmark_pages n (i + 1) q (unmark_page-IsBytes i h), is_used-unmark_page i q h)
