-- ===== src/Disk/Laws.antt =====
-- What blocks are: 1024 bytes each, in place, apart from one another.
use ios.Prelude.{ℕ, ◌+◌, ◌*◌, ◌<◌, ◌≤◌, ◌≡◌, if◌then◌else◌, ◌==◌, arith, fun_ext}
use ios.Mem.{Mem, blit}
use ios.Disk.{
  disksim_read, disksim_write, block_read, block_write, max_block_size, disk_blocks, fs_success,
  fs_error,
}

-- The 1024 bytes of a block, over what the buffer held.
abbrev pub block_at : Mem → ℕ → Mem → Mem
block_at storage block to = blit to 0 storage (block * max_block_size) max_block_size

-- The storage with one block replaced.
abbrev pub with_block : Mem → ℕ → Mem → Mem
with_block storage block from = blit storage (block * max_block_size) from 0 max_block_size

block_read-at :
    (storage : Mem) (b : ℕ) (to : Mem) (j : ℕ)
    → b < disk_blocks
    → (block_read storage b to).1 j ≡ block_at storage b to j
unfolding block_read disksim_read blit
block_read-at storage b to j h = ground arith

block_write-at :
    (storage : Mem) (b : ℕ) (from : Mem) (j : ℕ)
    → b < disk_blocks
    → (block_write storage b from).1 j ≡ with_block storage b from j
unfolding block_write disksim_write blit
block_write-at storage b from j h = ground arith

-- Reading a block of the disk succeeds and fills the buffer's first 1024 bytes with the block's.
pub block_read_lem :
    (storage : Mem) (b : ℕ) (to : Mem)
    → b < disk_blocks
    → block_read storage b to ≡ (fs_success, block_at storage b to)
unfolding disksim_read
block_read_lem storage b to h = λ i. (status i, fun_ext (λ j. block_read-at storage b to j h) i)
  where
    status : (block_read storage b to).0 ≡ fs_success
    status = unfold block_read in ground arith

-- Writing a block of the disk succeeds, replaces the block's 1024 bytes and no other byte.
pub block_write_lem :
    (storage : Mem) (b : ℕ) (from : Mem)
    → b < disk_blocks
    → block_write storage b from ≡ (fs_success, with_block storage b from)
unfolding disksim_write
block_write_lem storage b from h =
    λ i. (status i, fun_ext (λ j. block_write-at storage b from j h) i)
  where
    status : (block_write storage b from).0 ≡ fs_success
    status = unfold block_write in ground arith

-- A block number past the disk, and below 2^31 - 1, gives -1, and neither reads nor writes anything.
pub block_outside :
    (storage : Mem) (b : ℕ) (buffer : Mem)
    → disk_blocks ≤ b
    → b < 2147483647
    → (block_read storage b buffer ≡ (fs_error, buffer))
      × (block_write storage b buffer ≡ (fs_error, storage))
unfolding block_read block_write disksim_read disksim_write
block_outside storage b buffer h low = (ground arith, ground arith)

-- Of blocks on the disk: one that was written reads back, and every other one reads as before.
pub block_read-block_write :
    (storage : Mem) (a b : ℕ) (from to : Mem) (j : ℕ)
    → a < disk_blocks
    → b < disk_blocks
    → j < max_block_size
    → (block_read (block_write storage a from).1 b to).1 j
      ≡ (if a == b then from j else (block_read storage b to).1 j)
unfolding blit
block_read-block_write storage a b from to j ha hb hj = ground (
  arith,
  block_read-at (block_write storage a from).1 b to j hb,
  block_read-at storage b to j hb,
  block_write-at storage a from (b * max_block_size + j) ha,
)

-- The bytes of a block that was replaced, and of one that was not.
pub block_at-with_block :
    (storage : Mem) (a b : ℕ) (from to : Mem) (j : ℕ)
    → j < max_block_size
    → block_at (with_block storage a from) b to j
      ≡ (if a == b then from j else block_at storage b to j)
unfolding blit
block_at-with_block storage a b from to j hj = ground arith

-- The bytes of block b after block a was written.
pub block_at-block_write :
    (storage : Mem) (a b : ℕ) (from to : Mem) (j : ℕ)
    → a < disk_blocks
    → j < max_block_size
    → block_at (block_write storage a from).1 b to j
      ≡ (if a == b then from j else block_at storage b to j)
block_at-block_write storage a b from to j on h =
    rw (block_write_lem storage a from on) (block_at-with_block storage a b from to j h)
