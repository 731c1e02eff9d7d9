-- ===== src/Shell/Files/Whole.antt =====
-- `read_whole_file` of src/fs/shell.c reads the whole file, however few bytes each call gives.
use ios.Prelude.{
  ℕ, zero, suc, ◌+◌, ◌-◌, ◌/◌, ◌^◌, ◌<◌, ◌≤◌, ◌≡◌, true, false, ltb, leb, ◌==◌, if◌then◌else◌, ℤ,
  pos, negsuc, arith, refl, ap, sym, ◌∙◌, Bool-cases, inl, inr, lt→ltb,
}
use ios.Mem.{Mem, zeros, at_offset}
use ios.Disk.{fs_success, max_block_size, disk_blocks}
use ios.Fs.Layout.{entry_inode, inode_bytes, inode_blocks, inode_block}
use ios.Fs.Inodes.{get_inode}
use ios.Fs.Files.{fs_read, read_with}
use ios.Fs.Files.Access.{file_byte, ReadResult, fs_read-ReadResult}
use ios.Shell.Entries.{ShellEntry, sfs_read}
use ios.Shell.Files.{write_at, read_whole_loop, read_whole_file}

-- Every byte of the file is in a block of the inode, which is on the disk.
abbrev pub HasBlocks : Mem → Type 0
HasBlocks inode =
    (p : ℕ)
    → p < inode_bytes inode
    → (p / max_block_size < inode_blocks inode)
      × (inode_block inode (p / max_block_size) < disk_blocks)

-- All bytes of the file, and the rest of the object as it was.
abbrev pub IsWhole : Mem → Mem → Mem → ℕ × Mem → Type 0
IsWhole storage inode out (total, out') =
    (total ≡ inode_bytes inode)
    × ((j : ℕ) → out' j ≡ (if ltb j (inode_bytes inode) then file_byte storage inode j else out j))

ReadResult-some :
    (storage inode : Mem) (offset length : ℕ) (buffer : Mem) (got : ℤ × Mem)
    → ReadResult storage inode offset length buffer got
    → (n : ℕ) × (got.0 ≡ pos (suc n))
      × (offset + suc n ≤ inode_bytes inode)
      × ((k : ℕ)
          → got.1 k ≡ (if ltb k (suc n) then file_byte storage inode (offset + k) else buffer k))
ReadResult-some storage inode offset length buffer (negsuc n, part) h = absurd (omega (arith, h))
ReadResult-some storage inode offset length buffer (pos zero, part) h = absurd (omega (arith, h.0))
ReadResult-some storage inode offset length buffer (pos (suc n), part) h = (n, refl, h.2, h.3)

-- At the end of the file a call gives nothing.
fs_read-past :
    (storage inode : Mem) (number offset length : ℕ) (buffer : Mem)
    → get_inode storage number zeros ≡ (fs_success, inode)
    → (length == 0) ≡ false
    → leb (inode_bytes inode) offset ≡ true
    → fs_read storage number offset length buffer ≡ (pos 0, buffer)
unfolding fs_read read_with
fs_read-past storage inode number offset length buffer e some_length past =
    rw (some_length, e, past) refl

unchanged :
    (out part : Mem) (total j : ℕ)
    → ((k : ℕ) → part k ≡ at_offset out total k)
    → write_at out total part j ≡ out j
unchanged out part total j same = elim (Bool-cases (ltb j total)) [
  | inl lt ↦ rw lt refl
  | inr ge ↦ rw ge (same (j - total) ∙ ap out (ground arith))
]

module _ (storage inode : Mem) (entry : ShellEntry) (out0 : Mem) (max : ℕ)
    (found : get_inode storage (entry_inode entry.node.entry) zeros ≡ (fs_success, inode))
    (blocks : HasBlocks inode) (small : inode_bytes inode < 2 ^ 31)
    (fits : inode_bytes inode ≤ max) where
  -- The first `total` bytes are read.
  HasRead : Mem → ℕ → Type 0
  HasRead out total = (j : ℕ) → out j ≡ (if ltb j total then file_byte storage inode j else out0 j)

  HasRead-more :
      (out part : Mem) (total n : ℕ)
      → HasRead out total
      → ((k : ℕ)
          → part k
            ≡ (if ltb k n then file_byte storage inode (total + k) else at_offset out total k))
      → HasRead (write_at out total part) (total + n)
  unfolding HasRead
  HasRead-more out part total n read more j = elim (Bool-cases (ltb j total)) [
    | inl lt ↦ rw lt (ground (arith, read j))
    | inr ge ↦
        let there : total + (j - total) ≡ j = ground arith in
        rw (ge, more (j - total), there) (ground (arith, read j))
  ]

  read_whole_loop-IsWhole :
      (rounds total : ℕ) (out : Mem)
      → total ≤ inode_bytes inode
      → inode_bytes inode ≤ total + rounds
      → HasRead out total
      → IsWhole storage inode out0 (read_whole_loop rounds storage entry out max total)
  unfolding read_whole_loop sfs_read HasRead
  read_whole_loop-IsWhole zero total out le enough read =
      let done : total ≡ inode_bytes inode = omega arith in rw (sym done) (refl, read)
  read_whole_loop-IsWhole (suc rounds) total out le enough read =
      elim (Bool-cases (ltb total (inode_bytes inode))) [
        | inl more ↦
            let (has, on) = blocks total (ground arith) in
            let (n, some_n, in_file, part) =
              ReadResult-some storage inode total 1024 (at_offset out total) _ (
                fs_read-ReadResult storage inode (entry_inode entry.node.entry) total 1024
                  (at_offset out total) found (omega arith) (omega arith) (ground arith) small has
                  on) in
            rw (lt→ltb total max (ground arith), some_n)
              (read_whole_loop-IsWhole rounds (total + suc n) _ in_file (omega arith)
                (unfold HasRead in HasRead-more out _ total (suc n) read part))
        | inr done ↦
            let whole : total ≡ inode_bytes inode = ground arith in
            let past =
              fs_read-past storage inode (entry_inode entry.node.entry) total 1024
                (at_offset out total) found refl (ground arith) in
            let same : (j : ℕ)
                → out j
                  ≡ (if ltb j (inode_bytes inode) then file_byte storage inode j else out0 j) =
              λ j. rw (sym whole) (read j) in
            elim (Bool-cases (ltb total max)) [
              | inl room ↦
                  rw (room, ap (λ (g : ℤ × Mem). g.0) past)
                    (
                      whole,
                      λ j. unchanged out _ total j (λ k. ap (λ (g : ℤ × Mem). g.1 k) past) ∙ same j,
                    )
              | inr full ↦ rw full (whole, same)
            ]
      ]

-- A file of at most `max` bytes, less than 2^31, whose blocks are on the disk is read as a whole:
-- `read_whole_file` ends with the number of its bytes, all of them stand in the buffer in order, and
-- the rest of the buffer is as it was.
pub read_whole_file-IsWhole :
    (storage inode : Mem) (entry : ShellEntry) (out : Mem) (max : ℕ)
    → get_inode storage (entry_inode entry.node.entry) zeros ≡ (fs_success, inode)
    → HasBlocks inode
    → inode_bytes inode < 2 ^ 31
    → inode_bytes inode ≤ max
    → IsWhole storage inode out (read_whole_file storage entry out max)
unfolding read_whole_file
read_whole_file-IsWhole storage inode entry out max found blocks small fits =
    read_whole_loop-IsWhole storage inode entry out max found blocks small fits max 0 out
      (omega arith) (omega arith) (unfold HasRead in λ j. ground arith)
