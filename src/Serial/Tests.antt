-- ===== src/Serial/Tests.antt =====
-- The serial port at concrete reads.
use ios.Prelude.{ℕ, ◌≡◌, List, [], ◌∷◌, some, refl, arith}
use ios.Serial.{
  com1_base, uart_write, uart_thr, serial_write, serial_putc, send_byte, wait_tx, serial_try_getc,
}
use ios.Serial.Send.{IsSent, with_returns, serial_write-IsSent}

-- The port is busy twice.
abbrev some_reads : List ℕ
some_reads = 0 ∷ 0x20 ∷ 0x61 ∷ 0 ∷ 0x60 ∷ 7 ∷ []

serial_write_run :
    serial_write com1_base (b'a' ∷ 10 ∷ []) some_reads
    ≡ some (
      uart_write com1_base uart_thr b'a'
          ∷ uart_write com1_base uart_thr 13
          ∷ uart_write com1_base uart_thr 10
          ∷ [],
      7 ∷ [],
    )
unfolding serial_write serial_putc send_byte wait_tx
serial_write_run = refl

serial_try_getc_run : serial_try_getc (0x61 ∷ b'x' ∷ []) ≡ some (some b'x', [])
unfolding serial_try_getc
serial_try_getc_run = refl

serial_write-IsSent_example :
    IsSent com1_base
      (with_returns (b'a' ∷ 10 ∷ []))
      some_reads
      (serial_write com1_base (b'a' ∷ 10 ∷ []) some_reads)
serial_write-IsSent_example =
    serial_write-IsSent com1_base (b'a' ∷ 10 ∷ []) some_reads (omega arith)
