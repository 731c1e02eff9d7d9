-- ===== src/Fs/Files/Keeps.antt =====
-- A write that keeps the file's number of blocks: the inode it stores, and the whole disk after it.
use ios.Prelude.{ℕ, ◌+◌, ◌-◌, ◌*◌, ◌^◌, ◌<◌, ◌≤◌, ◌≡◌, arith, refl, ◌∙◌, ap, some}
use ios.Mem.{Mem, blit, zeros, store, get_u32, put_u32}
use ios.Disk.{fs_success, max_block_size}
use ios.Disk.Laws.{block_at}
use ios.Fs.Layout.{
  inode_size, data_block_base, inode_bytes, inode_blocks, inode_block, put_inode_bytes,
  put_inode_blocks, Filesystem,
}
use ios.Fs.Inodes.{get_inode, insert_inode_table}
use ios.Fs.Inodes.Laws.{IsInodeNumber, get_inode-insert_inode_table, insert_inode_table-at}
use ios.Fs.Files.{fill_data_block, write_with, write_blocks, grow_blocks, shrink_blocks, blocks_for}

-- The inode that `fsWrite` stores for a file that keeps its blocks.
abbrev pub resized : Mem → ℕ → Mem
resized inode bytes = put_inode_blocks (put_inode_bytes inode bytes) (inode_blocks inode)

pub resized-fields :
    (inode : Mem) (bytes k : ℕ)
    → bytes < 2 ^ 32
    → inode_blocks inode < 2 ^ 32
    → (inode_bytes (resized inode bytes) ≡ bytes)
      × (inode_blocks (resized inode bytes) ≡ inode_blocks inode)
      × (inode_block (resized inode bytes) k ≡ inode_block inode k)
unfolding get_u32 put_u32 store
resized-fields inode bytes k h small = (ground arith, ground arith, ground arith)

put_inode_bytes-inode_blocks :
    (inode : Mem) (bytes : ℕ) → inode_blocks (put_inode_bytes inode bytes) ≡ inode_blocks inode
unfolding get_u32 put_u32 store
put_inode_bytes-inode_blocks inode bytes = ground arith

sub_self : (n : ℕ) → n - n ≡ 0
sub_self n = omega arith

-- The field of an inode that was put in the table.
pub field-insert_inode_table :
    (storage inode : Mem) (n o : ℕ)
    → IsInodeNumber n
    → o + 4 ≤ inode_size
    → get_u32 (get_inode (insert_inode_table storage n inode) n zeros).1 o ≡ get_u32 inode o
unfolding get_u32
field-insert_inode_table storage inode n o h small =
    ground (
      arith,
      read 0 (omega arith),
      read 1 (omega arith),
      read 2 (omega arith),
      read 3 (omega arith),
    )
  where
    read :
        (j : ℕ)
        → j < 4
        → (get_inode (insert_inode_table storage n inode) n zeros).1 (o + j) ≡ inode (o + j)
    read j lt =
        get_inode-insert_inode_table storage inode zeros n n (o + j) h h (omega arith)
        ∙ ground arith

-- The inode table lies before the data blocks.
pub block_at-insert_inode_table :
    (storage inode : Mem) (n b j : ℕ)
    → IsInodeNumber n
    → data_block_base ≤ b
    → j < max_block_size
    → block_at (insert_inode_table storage n inode) b zeros j ≡ block_at storage b zeros j
unfolding blit
block_at-insert_inode_table storage inode n b j h is_data hj =
    ground (arith, insert_inode_table-at storage inode n (b * max_block_size + j) h)

write_blocks-keeps_blocks :
    (number length offset : ℕ) (buffer inode storage : Mem)
    → write_blocks
        (inode_blocks inode)
        number
        length
        offset
        buffer
        (put_inode_bytes inode (offset + length))
        storage
      ≡ insert_inode_table
          (fill_data_block
            (inode_blocks inode)
            0
            storage
            (resized inode (offset + length))
            length
            offset
            buffer)
          number
          (resized inode (offset + length))
unfolding write_blocks shrink_blocks
write_blocks-keeps_blocks number length offset buffer inode storage =
    rw (put_inode_bytes-inode_blocks inode (offset + length), sub_self (inode_blocks inode)) refl

no_growth :
    (fs : Filesystem) (n i : ℕ) (storage inode : Mem)
    → n ≡ i
    → grow_blocks fs (n - i) i 0 storage inode ≡ (some inode, storage)
unfolding grow_blocks
no_growth fs n i storage inode e =
    let none_left : n - i ≡ 0 = omega arith in
    ap (λ (k : ℕ). grow_blocks fs k i 0 storage inode) none_left

pub write_with-keeps_blocks :
    (fs : Filesystem) (number offset length : ℕ) (buffer storage inode : Mem)
    → blocks_for offset length ≡ inode_blocks inode
    → write_with fs number offset length buffer storage (fs_success, inode) ≡ (
      fs_success,
      insert_inode_table
          (fill_data_block
            (inode_blocks inode)
            0
            storage
            (resized inode (offset + length))
            length
            offset
            buffer)
          number
          (resized inode (offset + length)),
    )
unfolding write_with
write_with-keeps_blocks fs number offset length buffer storage inode e =
    rw
      (
        write_with,
        no_growth fs (blocks_for offset length) (inode_blocks inode) storage
            (put_inode_bytes inode (offset + length)) e,
        e,
        no_growth fs (inode_blocks inode) (inode_blocks inode) storage
            (put_inode_bytes inode (offset + length)) refl,
      )
      (ap (λ (m : Mem). (fs_success, m))
        (write_blocks-keeps_blocks number length offset buffer inode storage))
