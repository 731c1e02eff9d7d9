-- ===== src/Fs/Inodes/Laws.antt =====
-- `getInode` and `insertInodeTable` of src/fs/fs.c together.
use ios.Prelude.{
  ℕ, ◌+◌, ◌-◌, ◌*◌, ◌<◌, ◌≤◌, ◌≡◌, ltb, leb, ◌==◌, ◌||◌, ◌&&◌, if◌then◌else◌, arith, refl, ℤ, ◌∙◌,
  ap, false,
}
use ios.Mem.{Mem, blit, zeros}
use ios.Disk.{block_write, fs_success, fs_error, max_block_size}
use ios.Disk.Laws.{block_at, with_block, block_read_lem, block_write_lem}
use ios.Fs.Layout.{number_of_inodes, inode_size}
use ios.Fs.Inodes.{
  inode_table_block, inode_table_offset, inode_from_block, get_inode, insert_inode_table,
}

-- The numbers of inodes.
abbrev pub IsInodeNumber : ℕ → Type 0
IsInodeNumber n = (1 ≤ n) × (n ≤ number_of_inodes)

-- Byte j of inode n on the disk.
abbrev pub inode_byte : Mem → ℕ → ℕ → ℕ
inode_byte storage n j =
    storage (inode_table_block (n - 1) * max_block_size + inode_table_offset (n - 1) + j)

in_range : (n : ℕ) → IsInodeNumber n → (n == 0 || ltb number_of_inodes n) ≡ false
in_range n h = ground arith

-- `getInode` of a number in range succeeds with the 128 bytes of that inode in the table.
pub get_inode-at :
    (storage : Mem) (n : ℕ) (buffer : Mem) (j : ℕ)
    → IsInodeNumber n
    → j < inode_size
    → ((get_inode storage n buffer).0 ≡ fs_success)
      × ((get_inode storage n buffer).1 j ≡ inode_byte storage n j)
unfolding get_inode inode_from_block
get_inode-at storage n buffer j h hj =
    rw (in_range n h, block_read_lem storage (inode_table_block (n - 1)) zeros (omega arith))
      (refl, unfold blit in ground arith)

insert_inode_table_lem :
    (storage inode : Mem) (n : ℕ)
    → IsInodeNumber n
    → insert_inode_table storage n inode
      ≡ with_block storage (inode_table_block (n - 1)) (
          blit
            (block_at storage (inode_table_block (n - 1)) zeros)
            (inode_table_offset (n - 1))
            inode
            0
            inode_size)
unfolding insert_inode_table
insert_inode_table_lem storage inode n h =
    let at = inode_table_block (n - 1) in
    ap
      (λ (m : Mem).
        (block_write storage at (blit m (inode_table_offset (n - 1)) inode 0 inode_size)).1)
      (ap (λ (r : ℤ × Mem). r.1) (block_read_lem storage at zeros (omega arith)))
    ∙ ap (λ (r : ℤ × Mem). r.1) (block_write_lem storage at _ (omega arith))

pub insert_inode_table-at :
    (storage inode : Mem) (n a : ℕ)
    → IsInodeNumber n
    → insert_inode_table storage n inode a ≡ (
        let start = inode_table_block (n - 1) * max_block_size + inode_table_offset (n - 1) in
        if leb start a && ltb a (start + inode_size) then inode (a - start) else storage a)
unfolding blit
insert_inode_table-at storage inode n a h =
    ap (λ (m : Mem). m a) (insert_inode_table_lem storage inode n h) ∙ ground arith

-- An inode number out of range is refused, and the buffer stays as it was.
pub get_inode_outside :
    (storage : Mem) (n : ℕ) (buffer : Mem)
    → ¬ IsInodeNumber n
    → get_inode storage n buffer ≡ (fs_error, buffer)
unfolding get_inode
get_inode_outside storage n buffer h = ground arith

-- Of numbers in range: an inode that was put in the table is read back, and every other inode reads
-- as before.
pub get_inode-insert_inode_table :
    (storage inode buffer : Mem) (n k j : ℕ)
    → IsInodeNumber n
    → IsInodeNumber k
    → j < inode_size
    → (get_inode (insert_inode_table storage n inode) k buffer).1 j
      ≡ (if n == k then inode j else (get_inode storage k buffer).1 j)
get_inode-insert_inode_table storage inode buffer n k j hn hk hj = ground (
  arith,
  get_inode-at (insert_inode_table storage n inode) k buffer j hk hj,
  get_inode-at storage k buffer j hk hj,
  insert_inode_table-at storage inode n
      (inode_table_block (k - 1) * max_block_size + inode_table_offset (k - 1) + j) hn,
)
