-- ===== src/Pages/Tests.antt =====
-- Runs of the page allocator, and the theorems at concrete inputs.
use ios.Prelude.{ℕ, ◌≡◌, Option, some, none, refl, arith}
use ios.Bits.{has_bit, set_bit, clear_bit}
use ios.Mem.{store, zeros, fill}
use ios.Pages.{
  Pages, init_allocator, kalloc, take_run, find_run, page_free, krealloc, is_used, pages_for,
  mark_page, mark_pages, unmark_pages, unmark_page, page_index, in_memory,
}
use ios.Pages.Alloc.{KallocResult, kalloc-first_fit}
use ios.Pages.Invariant.{
  IsValid, kalloc-IsValid, page_free-IsValid, krealloc-IsValid, page_free-kalloc,
  init_allocator-IsValid,
}
use ios.Pages.Realloc.{page_address, KreallocResult, krealloc_result}

abbrev blank : Pages
blank = record { first_page = 0; bitmap = zeros; page_counts = zeros; memory = zeros }

abbrev endkernel : ℕ
endkernel = 0x123456

abbrev booted : Pages
booted = init_allocator endkernel blank

-- Page 0 is reserved, so the first two pages given are 1 and 2.
kalloc_two_pages : (kalloc booted 5000).1 ≡ some 0x125000
unfolding pages_for kalloc init_allocator find_run take_run is_used has_bit mark_page set_bit store
    fill
kalloc_two_pages = refl

kalloc_nothing : (kalloc booted 0).1 ≡ none
unfolding kalloc
kalloc_nothing = refl

abbrev after_two : Pages
after_two = (kalloc booted 5000).0

kalloc-after_two : (kalloc after_two 1).1 ≡ some 0x127000
unfolding pages_for kalloc init_allocator find_run take_run is_used has_bit mark_page mark_pages
    set_bit store fill
kalloc-after_two = refl

kalloc_after_free : (kalloc (page_free after_two 0x125000) 1).1 ≡ some 0x125000
unfolding pages_for kalloc init_allocator find_run take_run is_used has_bit mark_page mark_pages
    set_bit store fill page_free page_index in_memory unmark_pages unmark_page clear_bit
kalloc_after_free = refl

booted-IsValid : IsValid booted
booted-IsValid =
    init_allocator-IsValid endkernel blank (omega arith) (λ i. omega arith) (λ a h. refl)

kalloc-first_fit_example : KallocResult booted 2 (kalloc booted 5000)
unfolding pages_for
kalloc-first_fit_example =
    kalloc-first_fit booted 5000 booted-IsValid.bytes (omega arith) (omega arith)

kalloc-IsValid_example : IsValid (kalloc booted 5000).0
unfolding pages_for
kalloc-IsValid_example = kalloc-IsValid 5000 booted-IsValid (omega arith)

page_free-IsValid_example : IsValid (page_free booted 0x124000)
page_free-IsValid_example = page_free-IsValid 0x124000 booted-IsValid

krealloc-IsValid_example :
    (r : Pages × Option ℕ) × (krealloc booted 0x125000 9000 ≡ some r) × IsValid r.0
unfolding pages_for page_index init_allocator
krealloc-IsValid_example = krealloc-IsValid 0x125000 9000 booted-IsValid (omega arith) (omega arith)

after_two-IsValid : IsValid after_two
unfolding pages_for
after_two-IsValid = kalloc-IsValid 5000 booted-IsValid (omega arith)

recorded_run : after_two.page_counts 1 ≡ 2
unfolding pages_for kalloc init_allocator find_run take_run is_used has_bit mark_page set_bit store
    fill
recorded_run = refl

krealloc_result_example :
    (r : Pages × Option ℕ) × (krealloc after_two (page_address after_two 1) 9000 ≡ some r)
    × KreallocResult after_two 1 9000 r
unfolding pages_for
krealloc_result_example =
    krealloc_result 1 9000 after_two-IsValid (omega (arith, recorded_run)) (omega arith)
      (omega arith)

page_free-kalloc_example :
    ((q : ℕ) → is_used (page_free after_two 0x125000).bitmap q ≡ is_used booted.bitmap q)
    × ((a : ℕ) → (page_free after_two 0x125000).page_counts a ≡ booted.page_counts a)
unfolding pages_for
page_free-kalloc_example = page_free-kalloc 5000 booted-IsValid (omega arith) kalloc_two_pages

init_allocator-IsValid_example : IsValid (init_allocator 0x200001 blank)
init_allocator-IsValid_example =
    init_allocator-IsValid 0x200001 blank (omega arith) (λ i. omega arith) (λ a h. refl)
