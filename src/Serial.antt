-- ===== src/Serial.antt =====
-- src/connection.c: the serial port. What `inb` returns, in the order of the calls, is a list; what
-- `outb` is given is a list of ports and values. `none` means that the reads end while the code waits.
pub mod Send
mod Tests
use ios.Prelude.{
  ℕ, zero, suc, ◌+◌, ◌/◌, ◌%◌, Bool, List, [], ◌∷◌, ◌++◌, Option, none, some, ◌==◌, if◌then◌else◌,
  u8, u16,
}

abbrev pub com1_base : ℕ
com1_base = 0x3F8

abbrev pub uart_thr : ℕ
uart_thr = 0

-- Ports and values, first to last.
abbrev pub Writes : Type 0
Writes = List (ℕ × ℕ)

abbrev pub uart_write : ℕ → ℕ → ℕ → ℕ × ℕ
uart_write base reg val = (u16 (base + reg), val)

-- The divisor latch is at registers 0 and 1 while bit 7 of register 3 is set.
unfoldable pub serial_init : ℕ → ℕ → Writes
serial_init base baud_divisor =
    uart_write base 1 0x00
    ∷ uart_write base 3 0x80
    ∷ uart_write base 0 (baud_divisor % 256)
    ∷ uart_write base 1 (u8 (baud_divisor / 256))
    ∷ uart_write base 3 0x03
    ∷ uart_write base 2 0xC7
    ∷ uart_write base 4 0x0B
    ∷ []

-- A line status whose bit 0 is set: a byte has come.
abbrev pub serial_rx_ready : ℕ → Bool
serial_rx_ready lsr = lsr % 2 == 1

-- A line status whose bit 5 is set: a byte can be sent.
abbrev pub serial_tx_ready : ℕ → Bool
serial_tx_ready lsr = lsr / 32 % 2 == 1

-- `while (!serial_tx_ready(base))`: the reads after the loop.
pub wait_tx : List ℕ → Option (List ℕ)
wait_tx [] = none
wait_tx (lsr ∷ reads) = let rest = wait_tx reads in if serial_tx_ready lsr then some reads else rest

-- One byte to the port, and what else is done after it.
abbrev pub sent : ℕ → ℕ → Option (List ℕ) → Option (Writes × List ℕ)
sent base val none = none
sent base val (some reads) = some (uart_write base uart_thr val ∷ [], reads)

unfoldable pub send_byte : ℕ → ℕ → List ℕ → Option (Writes × List ℕ)
send_byte base val reads = sent base val (wait_tx reads)

abbrev pub add_writes : Writes → Option (Writes × List ℕ) → Option (Writes × List ℕ)
add_writes out none = none
add_writes out (some (more, reads)) = some (out ++ more, reads)

abbrev pub and_then :
    Option (Writes × List ℕ) → (List ℕ → Option (Writes × List ℕ)) → Option (Writes × List ℕ)
and_then none f = none
and_then (some (out, reads)) f = add_writes out (f reads)

unfoldable pub serial_putc : ℕ → ℕ → List ℕ → Option (Writes × List ℕ)
serial_putc base c reads =
    if c == 10
    then and_then (send_byte base 13 reads) (send_byte base c)
    else send_byte base c reads

-- `s` are the bytes before the terminator.
pub serial_write : ℕ → List ℕ → List ℕ → Option (Writes × List ℕ)
serial_write base [] reads = some ([], reads)
serial_write base (c ∷ s) reads =
    and_then (serial_putc base c reads) (λ rest. serial_write base s rest)

pub serial_write_raw : ℕ → List ℕ → List ℕ → Option (Writes × List ℕ)
serial_write_raw base [] reads = some ([], reads)
serial_write_raw base (val ∷ vals) reads =
    and_then (send_byte base val reads) (λ rest. serial_write_raw base vals rest)

-- The second read is the byte; without one waiting, nothing.
unfoldable pub serial_try_getc : List ℕ → Option (Option ℕ × List ℕ)
serial_try_getc [] = none
serial_try_getc (lsr ∷ []) = if serial_rx_ready lsr then none else some (none, [])
serial_try_getc (lsr ∷ val ∷ reads) =
    if serial_rx_ready lsr then some (some val, reads) else some (none, val ∷ reads)

pub serial_getc_blocking : List ℕ → Option (ℕ × List ℕ)
serial_getc_blocking [] = none
serial_getc_blocking (lsr ∷ []) = none
serial_getc_blocking (lsr ∷ val ∷ reads) =
    let rest = serial_getc_blocking (val ∷ reads) in
    if serial_rx_ready lsr then some (val, reads) else rest
