-- ===== src/Disk/Tests.antt =====
-- The blocks of the disk at concrete inputs.
use ios.Prelude.{◌≡◌, arith}
use ios.Mem.{zeros, all_bytes}
use ios.Disk.{block_read, block_write}
use ios.Disk.Laws.{block_read-block_write}

block_read-block_write_example :
    (block_read (block_write zeros 3 (all_bytes 9)).1 3 zeros).1 1000 ≡ 9
block_read-block_write_example =
    block_read-block_write zeros 3 3 (all_bytes 9) zeros 1000 (omega arith) (omega arith)
      (omega arith)
