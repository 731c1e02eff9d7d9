-- ===== src/Shell/Line/Gap.antt =====
-- The two loops of `shell_readline` in src/fs/shell.c that close and open a gap in the line.
use ios.Prelude.{ℕ, zero, suc, ◌+◌, ◌-◌, ◌≡◌, ◌&&◌, arith, ltb, leb, if◌then◌else◌}
use ios.Mem.{Mem, store}
use ios.Shell.Line.{close_gap, open_gap}

-- From j on, `rounds` bytes come from one place further on.
pub close_gap-at :
    (rounds j : ℕ) (m : Mem) (k : ℕ)
    → close_gap rounds j m k ≡ (if leb j k && ltb k (j + rounds) then m (k + 1) else m k)
unfolding close_gap store
close_gap-at zero j m k = ground arith
close_gap-at (suc rounds) j m k =
    ground (arith, close_gap-at rounds (j + 1) (store m j (m (j + 1))) k)

-- The bytes from cur + 1 to cur + rounds come from one place before.
pub open_gap-at :
    (rounds cur : ℕ) (m : Mem) (k : ℕ)
    → open_gap rounds cur m k ≡ (if ltb cur k && leb k (cur + rounds) then m (k - 1) else m k)
unfolding open_gap store
open_gap-at zero cur m k = ground arith
open_gap-at (suc rounds) cur m k =
    ground (arith, open_gap-at rounds cur (store m (cur + rounds + 1) (m (cur + rounds))) k)
