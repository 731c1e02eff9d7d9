-- ===== src/Fs/Files/Access.antt =====
-- What reading a file gives, and what writing its data blocks leaves on the disk.
use ios.Prelude.{
  ℕ, zero, suc, ◌+◌, ◌-◌, ◌*◌, ◌/◌, ◌%◌, ◌^◌, ◌<◌, ◌≤◌, ◌≡◌, ◌≢◌, ◌&&◌, ltb, leb, ◌==◌,
  if◌then◌else◌, arith, refl, ℤ, pos, negsuc, ◌∙◌, ap, sym, false, ap₂, Bool-cases, inl, inr,
}
use ios.Mem.{Mem, blit, zeros}
use ios.Disk.{fs_success, max_block_size, disk_blocks}
use ios.Disk.Laws.{block_at, block_read_lem, block_at-block_write}
use ios.Fs.Layout.{inode_bytes, inode_blocks, inode_block}
use ios.Fs.Inodes.{get_inode}
use ios.Fs.Files.{data_block, fill_data_block, read_size, read_with, fs_read}

-- Byte p of the file that the inode describes.
abbrev pub file_byte : Mem → Mem → ℕ → ℕ
file_byte storage inode p =
    block_at storage (inode_block inode (p / max_block_size)) zeros (p % max_block_size)

-- Byte p of a file of which `fillDataBlock` wrote the bytes from `offset` on.
abbrev pub written_byte : ℕ → ℕ → Mem → ℕ → ℕ
written_byte length offset buffer p =
    if leb offset p && ltb p (offset + length) then buffer (p - offset) else 0

data_block-at :
    (length offset : ℕ) (buffer : Mem) (i j : ℕ)
    → j < max_block_size
    → data_block length offset buffer i j
      ≡ written_byte length offset buffer (i * max_block_size + j)
unfolding data_block blit
data_block-at length offset buffer i j h = ground arith

-- The numbers of `left` blocks of an inode from i on lie on the disk.
abbrev pub OnDisk : Mem → ℕ → ℕ → Type 0
OnDisk inode i left = (k : ℕ) → i ≤ k → k < i + left → inode_block inode k < disk_blocks

fill_data_block-elsewhere :
    (left i : ℕ) (storage inode : Mem) (length offset : ℕ) (buffer : Mem) (b j : ℕ)
    → OnDisk inode i left
    → ((k : ℕ) → i ≤ k → k < i + left → inode_block inode k ≢ b)
    → j < max_block_size
    → block_at (fill_data_block left i storage inode length offset buffer) b zeros j
      ≡ block_at storage b zeros j
unfolding fill_data_block
fill_data_block-elsewhere zero i storage inode length offset buffer b j on no_b h = refl
fill_data_block-elsewhere (suc left) i storage inode length offset buffer b j on no_b h =
    fill_data_block-elsewhere left (i + 1) _ inode length offset buffer b j
      (λ k lo hi. on k (omega arith) (omega arith)) (λ k lo hi. no_b k (omega arith) (omega arith))
      h
    ∙ ground (
      arith,
      block_at-block_write storage (inode_block inode i) b (data_block length offset buffer i) zeros
          j,
      on i,
      no_b i,
    )

fill_data_block-at :
    (left i : ℕ) (storage inode : Mem) (length offset : ℕ) (buffer : Mem) (k j : ℕ)
    → OnDisk inode i left
    → ((k l : ℕ) → i ≤ k → k < l → l < i + left → inode_block inode k ≢ inode_block inode l)
    → i ≤ k
    → k < i + left
    → j < max_block_size
    → block_at
        (fill_data_block left i storage inode length offset buffer)
        (inode_block inode k)
        zeros
        j
      ≡ data_block length offset buffer k j
unfolding fill_data_block
fill_data_block-at zero i storage inode length offset buffer k j on apart lo hi h =
    absurd (omega arith)
fill_data_block-at (suc left) i storage inode length offset buffer k j on apart lo hi h =
    elim (Bool-cases (i == k)) [
      | inl same ↦
          fill_data_block-elsewhere left (i + 1) _ inode length offset buffer (inode_block inode k)
            j (λ l a b. on l (omega arith) (omega arith))
            (λ l a b e. apart k l lo (ground arith) (omega arith) (sym e)) h
          ∙ ground (
            arith,
            block_at-block_write storage (inode_block inode i) (inode_block inode k)
                (data_block length offset buffer i) zeros j,
            on i,
          )
      | inr other ↦
          fill_data_block-at left (i + 1) _ inode length offset buffer k j
            (λ l a b. on l (omega arith) (omega arith))
            (λ p l a b c. apart p l (omega arith) b (omega arith)) (ground arith) (omega arith) h
    ]

read_size_bounds :
    (offset length size : ℕ)
    → 1 ≤ length
    → length < 2 ^ 31
    → offset < size
    → size < 2 ^ 31
    → (1 ≤ read_size offset length size)
      × (read_size offset length size ≤ length)
      × (offset + read_size offset length size ≤ size)
      × (offset % max_block_size + read_size offset length size ≤ max_block_size)
unfolding read_size
read_size_bounds offset length size some_length small inside small_size =
    (ground arith, ground arith, ground arith, ground arith)

-- What `fillDataBlock` leaves in the first `count` blocks of a file: the buffer from byte `offset`
-- on, for `length` bytes, and zeros in all other bytes of those blocks.
pub fill_data_block-written :
    (count : ℕ) (storage inode : Mem) (length offset : ℕ) (buffer : Mem) (p : ℕ)
    → OnDisk inode 0 count
    → ((k l : ℕ) → k < l → l < count → inode_block inode k ≢ inode_block inode l)
    → p < count * max_block_size
    → file_byte (fill_data_block count 0 storage inode length offset buffer) inode p
      ≡ written_byte length offset buffer p
fill_data_block-written count storage inode length offset buffer p on apart inside =
    fill_data_block-at count 0 storage inode length offset buffer (p / max_block_size)
      (p % max_block_size) on (λ k l a b c. apart k l b (omega arith)) (omega arith) (omega arith)
      (omega arith)
    ∙ data_block-at length offset buffer (p / max_block_size) (p % max_block_size) (omega arith)
    ∙ ap (written_byte length offset buffer) (omega arith)

-- The result of reading at most `length` bytes of a file from `offset` on: at least one byte, none
-- past the end of the file, and the buffer changed in these bytes only.
abbrev pub ReadResult : Mem → Mem → ℕ → ℕ → Mem → ℤ × Mem → Type 0
ReadResult storage inode offset length buffer (pos n, buffer') =
    (1 ≤ n)
    × (n ≤ length)
    × (offset + n ≤ inode_bytes inode)
    × ((k : ℕ) → buffer' k ≡ (if ltb k n then file_byte storage inode (offset + k) else buffer k))
ReadResult storage inode offset length buffer (negsuc n, buffer') = 1 ≤ 0

not_leb : (a b : ℕ) → b < a → leb a b ≡ false
not_leb a b h = ground arith

-- Bytes of one block are bytes of the file.
byte_of_block :
    (storage inode : Mem) (offset k : ℕ)
    → offset % max_block_size + k < max_block_size
    → block_at storage
        (inode_block inode (offset / max_block_size))
        zeros
        (offset % max_block_size + k)
      ≡ file_byte storage inode (offset + k)
byte_of_block storage inode offset k h =
    let same_block : offset / max_block_size ≡ (offset + k) / max_block_size = omega arith in
    let same_byte : offset % max_block_size + k ≡ (offset + k) % max_block_size = omega arith in
    ap₂ (λ (i j : ℕ). block_at storage (inode_block inode i) zeros j) same_block same_byte

copied-at :
    (storage inode : Mem) (offset n : ℕ) (buffer : Mem) (k : ℕ)
    → offset % max_block_size + n ≤ max_block_size
    → blit buffer 0
        (block_at storage (inode_block inode (offset / max_block_size)) zeros)
        (offset % max_block_size)
        n
        k
      ≡ (if ltb k n then file_byte storage inode (offset + k) else buffer k)
copied-at storage inode offset n buffer k h =
    copy_of _ _ (offset % max_block_size) n buffer k
      (λ lt. byte_of_block storage inode offset k (omega arith))
  where
    copy_of :
        (block : Mem) (byte o n : ℕ) (buffer : Mem) (k : ℕ)
        → (k < n → block (o + k) ≡ byte)
        → blit buffer 0 block o n k ≡ (if ltb k n then byte else buffer k)
    copy_of block byte o n buffer k e = unfold blit in ground arith

read_with-ReadResult :
    (storage inode : Mem) (offset length : ℕ) (buffer : Mem)
    → 1 ≤ length
    → length < 2 ^ 31
    → offset < inode_bytes inode
    → inode_bytes inode < 2 ^ 31
    → offset / max_block_size < inode_blocks inode
    → inode_block inode (offset / max_block_size) < disk_blocks
    → ReadResult storage inode offset length buffer
        (read_with storage offset length buffer (fs_success, inode))
unfolding read_with
read_with-ReadResult storage inode offset length buffer some_length small inside small_size
      has_block on =
    let (some_n, n_fits, in_file, in_block) =
      read_size_bounds offset length (inode_bytes inode) some_length small inside small_size in
    rw
      (
        not_leb _ _ inside,
        not_leb _ _ has_block,
        block_read_lem storage (inode_block inode (offset / max_block_size)) zeros on,
      )
      (some_n, n_fits, in_file, λ k. copied-at storage inode offset _ buffer k in_block)

-- `fsRead` of a file at an offset inside it, whose block is on the disk: it returns a number n of
-- bytes, at least one, at most `length`, none past the file's end, and the buffer takes the n bytes
-- of the file from the offset on and keeps its other bytes.
pub fs_read-ReadResult :
    (storage inode : Mem) (inode_num offset length : ℕ) (buffer : Mem)
    → get_inode storage inode_num zeros ≡ (fs_success, inode)
    → 1 ≤ length
    → length < 2 ^ 31
    → offset < inode_bytes inode
    → inode_bytes inode < 2 ^ 31
    → offset / max_block_size < inode_blocks inode
    → inode_block inode (offset / max_block_size) < disk_blocks
    → ReadResult storage inode offset length buffer (fs_read storage inode_num offset length buffer)
unfolding fs_read
fs_read-ReadResult storage inode inode_num offset length buffer e some_length small inside
      small_size has_block on =
    rw (no_zero length some_length, e)
      (read_with-ReadResult storage inode offset length buffer some_length small inside small_size
        has_block on)
  where
    no_zero : (n : ℕ) → 1 ≤ n → (n == 0) ≡ false
    no_zero n h = ground arith
