-- ===== src/Disk.antt =====
-- src/fs/disksim.c, the simulated disk, and the block operations of src/fs/fs.c over it.
-- The disk's storage is one memory; `numberOfSectors` and `bytesPerSector` are what `initFs` passes.
pub mod Laws
mod Tests
use ios.Prelude.{
  ℕ, zero, suc, ◌+◌, ◌*◌, ◌^◌, ltb, leb, if◌then◌else◌, u32, ℤ, pos, negsuc, Bool, true, false,
}
use ios.Mem.{Mem, blit}

abbrev pub total_disk_size : ℕ
total_disk_size = 8389632

abbrev pub max_sector_size : ℕ
max_sector_size = 512

abbrev pub sectors_per_block : ℕ
sectors_per_block = 2

abbrev pub max_block_size : ℕ
max_block_size = 1024

abbrev pub number_of_sectors : ℕ
number_of_sectors = 16386

-- The block numbers that lie on the disk.
abbrev pub disk_blocks : ℕ
disk_blocks = 8193

abbrev pub fs_error : ℤ
fs_error = negsuc 0

abbrev pub fs_success : ℤ
fs_success = pos 0

-- The 512 bytes of a sector into `to` at `o`, and the return value.
unfoldable pub disksim_read : Mem → ℕ → Mem → ℕ → ℤ × Mem
disksim_read storage sector to o =
    if leb number_of_sectors sector
    then (fs_error, to)
    else (fs_success, blit to o storage (sector * max_sector_size) max_sector_size)

-- The new storage after writing the 512 bytes of `from` at `o`.
unfoldable pub disksim_write : Mem → ℕ → Mem → ℕ → ℤ × Mem
disksim_write storage sector from o =
    if leb number_of_sectors sector
    then (fs_error, storage)
    else (fs_success, blit storage (sector * max_sector_size) from o max_sector_size)

-- Both rounds of the loop; the result is that of the last. `sectorNum` is kept as its bit pattern.
unfoldable pub block_write : Mem → ℕ → Mem → ℤ × Mem
block_write storage block from =
    let sector_num = u32 (block * sectors_per_block) in
    let first = disksim_write storage sector_num from 0 in
    disksim_write first.1 (u32 (sector_num + 1)) from max_sector_size

-- `to` is what the caller's buffer holds before.
unfoldable pub block_read : Mem → ℕ → Mem → ℤ × Mem
block_read storage block to =
    let sector_num = u32 (block * sectors_per_block) in
    let first = disksim_read storage sector_num to 0 in
    disksim_read storage (u32 (sector_num + 1)) first.1 max_sector_size
