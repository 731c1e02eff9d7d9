-- ===== src/Fs/Format/Mount.antt =====
-- `fsFormat` and `readSuperblock` of src/fs/fs.c together.
use ios.Prelude.{ℕ, ◌+◌, ◌<◌, ◌≤◌, ◌≡◌, ◌≢◌, ◌⊎◌, some, arith, ℤ, refl, inr, ap, ◌∙◌}
use ios.Mem.{Mem, store, blit, zeros, get_u16, get_u32, put_u32, put_u16}
use ios.Mem.Fields.{put_u32_outside}
use ios.Disk.{block_read, block_write, fs_success, max_block_size, disk_blocks}
use ios.Disk.Laws.{block_at, block_read_lem, block_at-block_write}
use ios.Fs.Layout.{
  super_block_base, gdt_base, sb_magic_signature, sb_block_group_number, sb_block_per_group,
  sb_inode_per_group, inode_block,
}
use ios.Fs.Inodes.{get_inode}
use ios.Fs.Inodes.Laws.{get_inode-at}
use ios.Fs.Format.{
  fill_super_block, init_super_block, init_fs_gdt, init_block_bitmap, init_inode_bitmap,
  create_root, fs_format, count_root_block, count_root_directory, read_superblock, root_node,
  validate_sb, read_root_block, root_inode,
}

-- The super block that `fsFormat` writes first; `past` is what stands behind the structure.
abbrev made_super_block : Mem → Mem
made_super_block past = blit past 0 (put_u16 fill_super_block sb_block_group_number 0) 0 1020

elsewhere :
    (storage from : Mem) (a b j : ℕ)
    → a < disk_blocks
    → a ≢ b
    → j < max_block_size
    → block_at (block_write storage a from).1 b zeros j ≡ block_at storage b zeros j
elsewhere storage from a b j on apart h =
    block_at-block_write storage a b from zeros j on h ∙ ground arith

here :
    (storage from : Mem) (a j : ℕ)
    → a < disk_blocks
    → j < max_block_size
    → block_at (block_write storage a from).1 a zeros j ≡ from j
here storage from a j on h = block_at-block_write storage a a from zeros j on h ∙ ground arith

first_root_block : (past : Mem) → 1 + get_u32 (made_super_block past) 256 ≡ 517
unfolding get_u32 blit fill_super_block put_u32 put_u16 store
first_root_block past = refl

-- The round of `createRoot` over the super block changes the free blocks alone.
count_root_block-at :
    (storage : Mem) (j : ℕ)
    → (j < 12) ⊎ (16 ≤ j)
    → j < max_block_size
    → block_at (count_root_block storage 0) 1 zeros j ≡ block_at storage 1 zeros j
unfolding count_root_block
count_root_block-at storage j out h =
    here storage _ 1 j (omega arith) h
    ∙ put_u32_outside (block_read storage 1 zeros).1 12 _ j out
    ∙ ap (λ (m : Mem). m j)
        (ap (λ (r : ℤ × Mem). r.1) (block_read_lem storage 1 zeros (omega arith)))

-- The blocks 1, 2 and 517 apart, `createRoot` writes to others than the super block.
create_root-super_block :
    (storage sb : Mem) (j : ℕ)
    → 1 + get_u32 sb 256 ≡ 517
    → (j < 12) ⊎ (16 ≤ j)
    → j < max_block_size
    → block_at (create_root storage sb) 1 zeros j ≡ block_at storage 1 zeros j
unfolding create_root count_root_directory
create_root-super_block storage sb j root out h =
    elsewhere _ _ 5 1 j (omega arith) (omega arith) h
    ∙ elsewhere _ _ 3 1 j (omega arith) (omega arith) h
    ∙ elsewhere _ _ 2 1 j (omega arith) (omega arith) h
    ∙ count_root_block-at _ j out h
    ∙ elsewhere _ _ (1 + get_u32 sb 256) 1 j (omega (arith, root)) (omega (arith, root)) h

-- The super block on the disk after formatting, its count of free blocks apart.
super_block-at :
    (past_sb past_gdt storage : Mem) (j : ℕ)
    → (j < 12) ⊎ (16 ≤ j)
    → j < max_block_size
    → block_at (fs_format past_sb past_gdt storage).1 1 zeros j ≡ made_super_block past_sb j
unfolding fs_format init_super_block init_fs_gdt init_block_bitmap init_inode_bitmap
super_block-at past_sb past_gdt storage j out h =
    create_root-super_block _ (made_super_block past_sb) j (first_root_block past_sb) out h
    ∙ elsewhere _ _ 4 1 j (omega arith) (omega arith) h
    ∙ elsewhere _ _ 3 1 j (omega arith) (omega arith) h
    ∙ elsewhere _ _ 2 1 j (omega arith) (omega arith) h
    ∙ here _ _ 1 j (omega arith) h

-- The inode table's first block after formatting.
inode_block-at :
    (past_sb past_gdt storage : Mem) (j : ℕ)
    → j < max_block_size
    → block_at (fs_format past_sb past_gdt storage).1 5 zeros j ≡ blit zeros 128 root_inode 0 128 j
unfolding fs_format create_root
inode_block-at past_sb past_gdt storage j h = here _ _ 5 j (omega arith) h

root_inode-inode_block : inode_block root_inode 0 ≡ 517
unfolding get_u32 put_u32 put_u16 store
root_inode-inode_block = refl

from_table :
    (storage inode : Mem) (j : ℕ)
    → j < 4
    → block_at storage 5 zeros (168 + j) ≡ blit zeros 128 inode 0 128 (168 + j)
    → storage (5248 + (40 + j)) ≡ inode (40 + j)
unfolding blit
from_table storage inode j lt e = ground arith

mount_lem :
    (stale disk : Mem)
    → validate_sb (block_at disk 1 zeros) ≡ fs_success
    → (read_root_block disk zeros).0 ≡ fs_success
    → read_superblock stale disk
      ≡ some (record { sb = block_at disk 1 zeros; gd = block_at disk 2 zeros }, root_node stale)
unfolding read_superblock
mount_lem stale disk valid root =
    rw
      (
        read_superblock,
        block_read_lem disk super_block_base zeros (omega arith),
        valid,
        root,
        block_read_lem disk gdt_base zeros (omega arith),
        block_read_lem disk super_block_base zeros (omega arith),
      )
      refl

module _ (past_sb past_gdt storage : Mem) where
  abbrev formatted : Mem
  formatted = (fs_format past_sb past_gdt storage).1

  half_word :
      (o : ℕ)
      → 16 ≤ o
      → o < 1019
      → get_u16 (block_at formatted 1 zeros) o ≡ get_u16 (made_super_block past_sb) o
  unfolding get_u16
  half_word o lo hi = ground (
    arith,
    super_block-at past_sb past_gdt storage o (inr lo) (omega arith),
    super_block-at past_sb past_gdt storage (o + 1) (inr (omega arith)) (omega arith),
  )

  word :
      (o : ℕ)
      → 16 ≤ o
      → o < 1017
      → get_u32 (block_at formatted 1 zeros) o ≡ get_u32 (made_super_block past_sb) o
  unfolding get_u32
  word o lo hi = ground (
    arith,
    super_block-at past_sb past_gdt storage o (inr lo) (omega arith),
    super_block-at past_sb past_gdt storage (o + 1) (inr (omega arith)) (omega arith),
    super_block-at past_sb past_gdt storage (o + 2) (inr (omega arith)) (omega arith),
    super_block-at past_sb past_gdt storage (o + 3) (inr (omega arith)) (omega arith),
  )

  is_valid : validate_sb (block_at formatted 1 zeros) ≡ fs_success
  unfolding validate_sb
  is_valid = rw (half_word sb_magic_signature (omega arith) (omega arith), magic) refl
    where
      magic : get_u16 (made_super_block past_sb) sb_magic_signature ≡ 0xEF53
      magic = unfold get_u16 blit fill_super_block put_u32 put_u16 store in refl

  root_byte : (j : ℕ) → j < 4 → (get_inode formatted 2 zeros).1 (40 + j) ≡ root_inode (40 + j)
  root_byte j lt =
      (get_inode-at formatted 2 zeros (40 + j) (omega arith, omega arith) (omega arith)).1
      ∙ from_table formatted root_inode j (omega arith)
          (inode_block-at past_sb past_gdt storage (168 + j) (omega arith))

  root_block : inode_block (get_inode formatted 2 zeros).1 0 ≡ 517
  root_block = same ∙ root_inode-inode_block
    where
      same : inode_block (get_inode formatted 2 zeros).1 0 ≡ inode_block root_inode 0
      same =
          unfold get_u32 in
          ground (
            arith,
            root_byte 0 (omega arith),
            root_byte 1 (omega arith),
            root_byte 2 (omega arith),
            root_byte 3 (omega arith),
          )

  root_read : (read_root_block formatted zeros).0 ≡ fs_success
  unfolding read_root_block
  root_read =
      ap (λ (r : ℤ × Mem). r.0) (block_read_lem formatted _ zeros (omega (arith, root_block)))

  -- Right after `fsFormat`, whatever the disk held and whatever stands in memory behind the two
  -- structures on its stack and in the variable of the root's entry, `readSuperblock` mounts the disk with
  -- the root's node, whose entry has inode 2 and a name of length 1 that begins with '/'; the mounted super
  -- block has group 0, 8192 blocks and 4096 inodes per group.
  pub read_superblock-fs_format :
      (stale : Mem)
      → (read_superblock stale (fs_format past_sb past_gdt storage).1
          ≡ some (
            record {
              sb = block_at (fs_format past_sb past_gdt storage).1 1 zeros;
              gd = block_at (fs_format past_sb past_gdt storage).1 2 zeros;
            },
            root_node stale,
          ))
        × (get_u16 (block_at (fs_format past_sb past_gdt storage).1 1 zeros) sb_block_group_number
            ≡ 0)
        × (get_u32 (block_at (fs_format past_sb past_gdt storage).1 1 zeros) sb_block_per_group
            ≡ 8192)
        × (get_u32 (block_at (fs_format past_sb past_gdt storage).1 1 zeros) sb_inode_per_group
            ≡ 4096)
  read_superblock-fs_format stale = (
    mounted,
    half_word sb_block_group_number (omega arith) (omega arith) ∙ group,
    word sb_block_per_group (omega arith) (omega arith) ∙ block_count,
    word sb_inode_per_group (omega arith) (omega arith) ∙ inode_count,
  )
    where
      group : get_u16 (made_super_block past_sb) sb_block_group_number ≡ 0
      group = unfold get_u16 blit fill_super_block put_u32 put_u16 store in refl

      block_count : get_u32 (made_super_block past_sb) sb_block_per_group ≡ 8192
      block_count = unfold get_u32 blit fill_super_block put_u32 put_u16 store in refl

      inode_count : get_u32 (made_super_block past_sb) sb_inode_per_group ≡ 4096
      inode_count = unfold get_u32 blit fill_super_block put_u32 put_u16 store in refl

      mounted :
          read_superblock stale formatted
          ≡ some (
            record { sb = block_at formatted 1 zeros; gd = block_at formatted 2 zeros },
            root_node stale,
          )
      mounted = mount_lem stale formatted is_valid root_read
