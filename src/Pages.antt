-- ===== src/Pages.antt =====
-- src/mm/page_alloc.c: the physical page allocator, a bitmap with a page count for each run.
-- `bitmap` and `page_counts` are the two static arrays, `memory` is what pointers reach.
-- `&endkernel` is an address that the linker chooses, an argument of `init_allocator`.
pub mod Marks
pub mod Search
pub mod Invariant
pub mod Alloc
pub mod Copy
pub mod Realloc
mod Tests
use ios.Prelude.{
  ℕ, zero, suc, ◌+◌, ◌-◌, ◌*◌, ◌/◌, ◌%◌, ◌^◌, Bool, not, ◌&&◌, Option, none, some, ltb, leb, ◌==◌,
  if◌then◌else◌, u16, u32, u64, true, false,
}
use ios.Bits.{has_bit, set_bit, clear_bit}
use ios.Mem.{Mem, store, fill}

abbrev pub page_size : ℕ
page_size = 4096

abbrev pub physical_memory_size : ℕ
physical_memory_size = 31457280

-- In bytes.
abbrev pub bitmap_size : ℕ
bitmap_size = 960

abbrev pub total_pages : ℕ
total_pages = bitmap_size * 8

pub record Pages : Type 0 where
  pub first_page : ℕ
  pub bitmap : Mem
  pub page_counts : Mem
  pub memory : Mem

-- The test of `kalloc`'s loop is that this is false.
unfoldable pub is_used : Mem → ℕ → Bool
is_used bitmap p = has_bit (bitmap (p / 8)) (p % 8)

-- `bitmap[i / 8] |= (1 << (i % 8))`
unfoldable pub mark_page : Mem → ℕ → Mem
mark_page bitmap i = store bitmap (i / 8) (set_bit (bitmap (i / 8)) (i % 8))

-- `bitmap[i / 8] &= ~(1 << (i % 8))`
pub unmark_page : Mem → ℕ → Mem
unmark_page bitmap i = store bitmap (i / 8) (clear_bit (bitmap (i / 8)) (i % 8))

-- The loops over a run, with the pages left and the page reached.
unfoldable pub mark_pages : ℕ → ℕ → Mem → Mem
mark_pages zero i bitmap = bitmap
mark_pages (suc left) i bitmap = mark_pages left (i + 1) (mark_page bitmap i)

pub unmark_pages : ℕ → ℕ → Mem → Mem
unmark_pages zero i bitmap = bitmap
unmark_pages (suc left) i bitmap = unmark_pages left (i + 1) (unmark_page bitmap i)

unfoldable pub init_allocator : ℕ → Pages → Pages
init_allocator endkernel s = record s {
  first_page = u64 (endkernel + page_size - 1) / page_size * page_size;
  bitmap = mark_page (fill s.bitmap 0 0 bitmap_size) 0;
  page_counts = fill s.page_counts 0 0 (bitmap_size * 8);
}

-- Pages for `size` bytes, before a cast; the sum wraps as `size_t`.
unfoldable pub pages_for : ℕ → ℕ
pages_for size = if ltb size page_size then 1 else u64 (size + page_size - 1) / page_size

-- The loop of `kalloc` at page `p` with `left` pages to go. The count is an `int`, kept as its
-- bit pattern: it is only compared for equality with a run length below 2 ^ 31.
unfoldable pub find_run : ℕ → ℕ → Mem → ℕ → ℕ → ℕ → Option ℕ
find_run needed zero bitmap p run_start run_len = none
find_run needed (suc left) bitmap p run_start run_len =
    let start = if run_len == 0 then p else run_start in
    let longer = find_run needed left bitmap (p + 1) start (run_len + 1) in
    let again = find_run needed left bitmap (p + 1) run_start 0 in
    if is_used bitmap p then again else if run_len + 1 == needed then some start else longer

-- What `kalloc` does with the run that it found.
unfoldable pub take_run : Pages → ℕ → ℕ → Pages × Option ℕ
take_run s needed run_start = (
  record s {
    bitmap = mark_pages needed run_start s.bitmap;
    page_counts = store s.page_counts run_start (u16 needed);
  },
  some (u64 (run_start * page_size + s.first_page)),
)

unfoldable pub kalloc : Pages → ℕ → Pages × Option ℕ
kalloc s size =
    if size == 0
    then (s, none)
    else elim (find_run (u32 (pages_for size)) total_pages s.bitmap 0 0 0) [
      | none ↦ (s, none)
      | some run_start ↦ take_run s (u32 (pages_for size)) run_start
    ]

-- `((uint64_t)addr - first_page) / PAGE_SIZE`, as `uint32_t`.
pub page_index : Pages → ℕ → ℕ
page_index s addr = u32 (u64 (addr + 2 ^ 64 - s.first_page) / page_size)

pub in_memory : Pages → ℕ → Bool
in_memory s addr = leb s.first_page addr && ltb addr (u64 (s.first_page + physical_memory_size))

pub page_free : Pages → ℕ → Pages
page_free s addr =
    let page_num = page_index s addr in
    if in_memory s addr
    then record s {
      bitmap = unmark_pages (s.page_counts page_num) page_num s.bitmap;
      page_counts = store s.page_counts page_num 0;
    }
    else s

-- Shrinking in place: the trailing pages are freed.
pub shrink_run : Pages → ℕ → ℕ → ℕ → Pages
shrink_run s page_idx old_pages new_pages = record s {
  bitmap = unmark_pages (old_pages - new_pages) (page_idx + new_pages) s.bitmap;
  page_counts = store s.page_counts page_idx new_pages;
}

-- `memcpy` within the one memory, byte by byte upwards.
unfoldable pub copy_bytes : ℕ → ℕ → ℕ → Mem → Mem
copy_bytes zero dest src memory = memory
copy_bytes (suc left) dest src memory =
    copy_bytes left (dest + 1) (src + 1) (store memory dest (memory src))

-- Growing: allocate anew, copy, free the old run.
pub move_run : ℕ → ℕ → Pages × Option ℕ → Pages × Option ℕ
move_run addr old_pages (s, none) = (s, none)
move_run addr old_pages (s, some new_addr) = (
  page_free (record s { memory = copy_bytes (old_pages * page_size) new_addr addr s.memory }) addr,
  some new_addr,
)

-- `krealloc` behind its test for 0, at an index inside `page_counts`.
pub resize : Pages → ℕ → ℕ → Pages × Option ℕ
resize s addr new_size =
    let page_idx = page_index s addr in
    let old_pages = s.page_counts page_idx in
    let new_pages = u16 (pages_for new_size) in
    if leb new_pages old_pages
    then (shrink_run s page_idx old_pages new_pages, some addr)
    else move_run addr old_pages (kalloc s new_size)

-- `none` is an access behind the array `page_counts`, which the code does not guard.
pub krealloc : Pages → ℕ → ℕ → Option (Pages × Option ℕ)
krealloc s addr new_size =
    if new_size == 0
    then some (page_free s addr, none)
    else if leb total_pages (page_index s addr)
    then none
    else some (resize s addr new_size)
