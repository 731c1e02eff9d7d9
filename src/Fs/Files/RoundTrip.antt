-- ===== src/Fs/Files/RoundTrip.antt =====
-- `fsWrite` and `fsRead` of src/fs/fs.c together.
use ios.Prelude.{
  ℕ, ◌+◌, ◌-◌, ◌*◌, ◌/◌, ◌%◌, ◌^◌, ◌<◌, ◌≤◌, ◌≡◌, ◌≢◌, ltb, arith, refl, ℤ, pos, negsuc, ◌∙◌, ap,
  false,
}
use ios.Mem.{Mem, zeros, at_offset}
use ios.Disk.{block_read, fs_success, max_block_size, disk_blocks}
use ios.Disk.Laws.{block_at}
use ios.Fs.Layout.{
  entry_inode, dir_entry_size, data_block_base, inode_bytes, inode_blocks, inode_block, fs_d_blocks,
  DirEntryLocation, Filesystem,
}
use ios.Fs.Inodes.{get_inode, insert_inode_table}
use ios.Fs.Inodes.Laws.{IsInodeNumber, get_inode-at}
use ios.Fs.Files.{fill_data_block, fs_read, fs_write, blocks_for}
use ios.Fs.Files.Access.{
  file_byte, written_byte, fill_data_block-written, ReadResult, fs_read-ReadResult,
}
use ios.Fs.Files.Keeps.{
  resized, resized-fields, field-insert_inode_table, block_at-insert_inode_table,
  write_with-keeps_blocks,
}

blocks_for-covers :
    (offset length p : ℕ)
    → offset + length < 2 ^ 31
    → p < offset + length
    → p / max_block_size < blocks_for offset length
unfolding blocks_for
blocks_for-covers offset length p small h = ground arith

written_byte-inside :
    (length offset : ℕ) (buffer : Mem) (p : ℕ)
    → offset ≤ p
    → p < offset + length
    → written_byte length offset buffer p ≡ buffer (p - offset)
written_byte-inside length offset buffer p lo hi = ground arith

-- The data blocks of a file are blocks of the data region, all different.
abbrev pub IsFile : Mem → Type 0
IsFile inode =
    ((k : ℕ) → k < inode_blocks inode → data_block_base ≤ inode_block inode k)
    × ((k : ℕ) → k < inode_blocks inode → inode_block inode k < disk_blocks)
    × ((k l : ℕ) → k < l → l < inode_blocks inode → inode_block inode k ≢ inode_block inode l)

-- The result of reading `wanted` bytes at `at` of the file after the write.
abbrev pub ReadsBack : ℕ → ℕ → Mem → ℕ → ℕ → Mem → ℤ × Mem → Type 0
ReadsBack offset length buffer at wanted out (pos n, out') =
    (1 ≤ n)
    × (n ≤ wanted)
    × (at + n ≤ offset + length)
    × ((k : ℕ) → k < n → out' k ≡ buffer (at - offset + k))
    × ((k : ℕ) → n ≤ k → out' k ≡ out k)
ReadsBack offset length buffer at wanted out (negsuc n, out') = 1 ≤ 0

-- The disk after a write that keeps the file's blocks.
abbrev after_write : Mem → Mem → ℕ → ℕ → ℕ → Mem → Mem
after_write storage inode number offset length buffer =
    insert_inode_table
      (fill_data_block (inode_blocks inode) 0 storage (resized inode (offset + length)) length
        offset buffer)
      number (resized inode (offset + length))

module _ (storage inode : Mem) (number offset length : ℕ) (buffer : Mem) (h : IsInodeNumber number)
    (file : IsFile inode) (blocks : blocks_for offset length ≡ inode_blocks inode)
    (few : inode_blocks inode ≤ fs_d_blocks) (some_length : 1 ≤ length)
    (small : offset + length < 2 ^ 31) where
  abbrev new_inode : Mem
  new_inode = resized inode (offset + length)

  abbrev filled : Mem
  filled = fill_data_block (inode_blocks inode) 0 storage new_inode length offset buffer

  abbrev after : Mem
  after = after_write storage inode number offset length buffer

  abbrev read_inode : Mem
  read_inode = (get_inode after number zeros).1

  new_inode-inode_block : (k : ℕ) → inode_block new_inode k ≡ inode_block inode k
  new_inode-inode_block k = (resized-fields inode (offset + length) k (omega arith) (omega arith)).2

  read_inode-inode_block :
      (k : ℕ) → k < inode_blocks inode → inode_block read_inode k ≡ inode_block new_inode k
  read_inode-inode_block k lt =
      field-insert_inode_table filled new_inode number (40 + 4 * k) h (omega arith)

  filled-at :
      (p : ℕ)
      → p < inode_blocks inode * max_block_size
      → file_byte filled new_inode p ≡ written_byte length offset buffer p
  filled-at p lt =
      fill_data_block-written (inode_blocks inode) storage new_inode length offset buffer p
        (λ k a b. rw (new_inode-inode_block k) (file.1 k (omega arith)))
        (λ k l a b. rw (new_inode-inode_block k, new_inode-inode_block l) (file.2 k l a b)) lt

  after-file_byte :
      (p : ℕ)
      → offset ≤ p
      → p < offset + length
      → file_byte after read_inode p ≡ buffer (p - offset)
  after-file_byte p lo hi =
      let covered : p / max_block_size < inode_blocks inode =
        omega (arith, blocks_for-covers offset length p small hi, blocks) in
      ap (λ (b : ℕ). block_at after b zeros (p % max_block_size))
        (read_inode-inode_block (p / max_block_size) covered)
      ∙ block_at-insert_inode_table filled new_inode number
          (inode_block new_inode (p / max_block_size)) (p % max_block_size) h
          (rw (new_inode-inode_block (p / max_block_size)) (file.0 (p / max_block_size) covered))
          (omega arith)
      ∙ filled-at p (omega (arith, covered))
      ∙ written_byte-inside length offset buffer p lo hi

  read_inode-inode_bytes : inode_bytes read_inode ≡ offset + length
  read_inode-inode_bytes =
      field-insert_inode_table filled new_inode number 4 h (omega arith)
      ∙ (resized-fields inode (offset + length) 0 (omega arith) (omega arith)).0

  read_inode-inode_blocks : inode_blocks read_inode ≡ inode_blocks inode
  read_inode-inode_blocks =
      field-insert_inode_table filled new_inode number 28 h (omega arith)
      ∙ (resized-fields inode (offset + length) 0 (omega arith) (omega arith)).1

  get_after : get_inode after number zeros ≡ (fs_success, read_inode)
  get_after = ap (λ (z : ℤ). (z, read_inode)) (get_inode-at after number zeros 0 h (omega arith)).0

  read_after :
      (at wanted : ℕ) (out : Mem)
      → offset ≤ at
      → at < offset + length
      → 1 ≤ wanted
      → wanted < 2 ^ 31
      → ReadResult after read_inode at wanted out (fs_read after number at wanted out)
  read_after at wanted out lo hi some_wanted small_wanted =
      let covered : at / max_block_size < inode_blocks inode =
        omega (arith, blocks_for-covers offset length at small hi, blocks) in
      fs_read-ReadResult after read_inode number at wanted out get_after some_wanted small_wanted
        (omega (arith, read_inode-inode_bytes)) (omega (arith, read_inode-inode_bytes))
        (omega (arith, read_inode-inode_blocks, covered))
        (rw
          (
            read_inode-inode_block (at / max_block_size) covered,
            new_inode-inode_block (at / max_block_size),
          )
          (file.1 (at / max_block_size) covered))

  read_back :
      (at wanted : ℕ) (out : Mem) (r : ℤ × Mem)
      → offset ≤ at
      → ReadResult after read_inode at wanted out r
      → ReadsBack offset length buffer at wanted out r
  read_back at wanted out (pos n, out') lo (some_n, n_fits, in_file, bytes) = (
    some_n,
    n_fits,
    omega (arith, read_inode-inode_bytes),
    λ k lt.
        bytes k
        ∙ ground
            (arith, after-file_byte (at + k) (omega arith) (omega (arith, read_inode-inode_bytes))),
    λ k le. bytes k ∙ ground arith,
  )
  read_back at wanted out (negsuc n, out') lo none_read = none_read

not_ltb : (a b : ℕ) → b ≤ a → ltb a b ≡ false
not_ltb a b h = ground arith

fs_write-keeps_blocks :
    (fs : Filesystem) (storage inode : Mem) (location : DirEntryLocation) (number offset length : ℕ)
    (buffer : Mem)
    → entry_inode
        (at_offset (block_read storage location.block zeros).1 (dir_entry_size * location.offset))
      ≡ number
    → get_inode storage number zeros ≡ (fs_success, inode)
    → blocks_for offset length ≡ inode_blocks inode
    → inode_blocks inode ≤ fs_d_blocks
    → fs_write fs storage location offset length buffer
      ≡ (fs_success, after_write storage inode number offset length buffer)
unfolding fs_write
fs_write-keeps_blocks fs storage inode location number offset length buffer entry e blocks few =
    rw
      (
        fs_write,
        entry,
        not_ltb fs_d_blocks (blocks_for offset length) (omega (arith, blocks, few)),
        e,
      )
      (write_with-keeps_blocks fs number offset length buffer storage inode blocks)

-- A file whose data blocks are different blocks of the data region is written, from `offset` on,
-- with at least one byte, so that it keeps its number of blocks, 12 at most. `fsWrite` succeeds, and
-- `fsRead` at any offset inside the bytes written gives back at least one and at most the wanted
-- number of them, none past them, and leaves the rest of the reader's buffer as it was.
pub fs_read-fs_write :
    (fs : Filesystem) (storage inode : Mem) (location : DirEntryLocation) (number offset length : ℕ)
    (buffer : Mem) (at wanted : ℕ) (out : Mem)
    → entry_inode
        (at_offset (block_read storage location.block zeros).1 (dir_entry_size * location.offset))
      ≡ number
    → IsInodeNumber number
    → get_inode storage number zeros ≡ (fs_success, inode)
    → IsFile inode
    → blocks_for offset length ≡ inode_blocks inode
    → inode_blocks inode ≤ fs_d_blocks
    → 1 ≤ length
    → offset + length < 2 ^ 31
    → offset ≤ at
    → at < offset + length
    → 1 ≤ wanted
    → wanted < 2 ^ 31
    → ((fs_write fs storage location offset length buffer).0 ≡ fs_success)
      × ReadsBack offset length buffer at wanted out
          (fs_read (fs_write fs storage location offset length buffer).1 number at wanted out)
fs_read-fs_write fs storage inode location number offset length buffer at wanted out entry h e file
      blocks few some_length small lo hi some_wanted small_wanted =
    rw
      (fs_write-keeps_blocks fs storage inode location number offset length buffer entry e blocks
        few)
      (
        refl,
        read_back storage inode number offset length buffer h file blocks few some_length small at
            wanted out _ lo
            (read_after storage inode number offset length buffer h file blocks few some_length
              small at wanted out lo hi some_wanted small_wanted),
      )
