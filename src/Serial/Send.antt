-- ===== src/Serial/Send.antt =====
-- The bytes that src/connection.c sends: all of them, in their order, once the port takes them.
use ios.Prelude.{
  ℕ, ◌+◌, ◌≤◌, ◌≡◌, false, List, [], ◌∷◌, ◌++◌, Option, some, ◌==◌, if◌then◌else◌, length,
  length-append, arith, refl, ap, ◌∙◌, Bool-cases, inl, inr,
}
use ios.Serial.{
  Writes, uart_thr, uart_write, serial_tx_ready, wait_tx, send_byte, and_then, serial_putc,
  serial_write, serial_write_raw,
}

-- How many of the reads are a status in which the port takes a byte.
abbrev pub ready_count : List ℕ → ℕ
ready_count [] = 0
ready_count (lsr ∷ reads) = (if serial_tx_ready lsr then 1 else 0) + ready_count reads

-- The bytes as writes to the port.
abbrev pub bytes_to : ℕ → List ℕ → Writes
bytes_to base [] = []
bytes_to base (val ∷ vals) = uart_write base uart_thr val ∷ bytes_to base vals

-- A carriage return before each newline.
abbrev pub with_returns : List ℕ → List ℕ
with_returns [] = []
with_returns (c ∷ s) = (if c == 10 then 13 ∷ c ∷ [] else c ∷ []) ++ with_returns s

-- The bytes were sent, and each took one status of a ready port at most.
abbrev pub IsSent : ℕ → List ℕ → List ℕ → Option (Writes × List ℕ) → Type 0
IsSent base vals reads r =
    (rest : List ℕ) × (r ≡ some (bytes_to base vals, rest))
    × (ready_count reads ≡ length vals + ready_count rest)

after_busy :
    (lsr : ℕ) (reads rest : List ℕ)
    → serial_tx_ready lsr ≡ false
    → wait_tx reads ≡ some rest
    → wait_tx (lsr ∷ reads) ≡ some rest
unfolding wait_tx
after_busy lsr reads rest busy e = rw busy e

wait_tx_lem :
    (reads : List ℕ)
    → 1 ≤ ready_count reads
    → (rest : List ℕ) × (wait_tx reads ≡ some rest) × (ready_count reads ≡ 1 + ready_count rest)
unfolding wait_tx
wait_tx_lem [] h = absurd (omega (arith, h))
wait_tx_lem (lsr ∷ reads) h = elim (Bool-cases (serial_tx_ready lsr)) [
  | inl ready ↦ (reads, rw ready refl, rw ready refl)
  | inr busy ↦
      let count : ready_count (lsr ∷ reads) ≡ ready_count reads = rw busy (omega arith) in
      let (rest, e, left) = wait_tx_lem reads (omega (arith, count, h)) in
      (rest, after_busy lsr reads rest busy e, count ∙ left)
]

send_byte-IsSent :
    (base val : ℕ) (reads : List ℕ)
    → 1 ≤ ready_count reads
    → IsSent base (val ∷ []) reads (send_byte base val reads)
unfolding send_byte
send_byte-IsSent base val reads h =
    let (rest, e, count) = wait_tx_lem reads h in (rest, rw e refl, omega (arith, count))

bytes_to-append :
    (base : ℕ) (xs ys : List ℕ) → bytes_to base (xs ++ ys) ≡ bytes_to base xs ++ bytes_to base ys
bytes_to-append base [] ys = refl
bytes_to-append base (x ∷ xs) ys =
    ap (λ zs. uart_write base uart_thr x ∷ zs) (bytes_to-append base xs ys)

IsSent-and_then :
    (base : ℕ) (xs ys reads : List ℕ) (r : Option (Writes × List ℕ))
    (f : List ℕ → Option (Writes × List ℕ))
    → IsSent base xs reads r
    → ((rest : List ℕ)
        → ready_count reads ≡ length xs + ready_count rest
        → IsSent base ys rest (f rest))
    → IsSent base (xs ++ ys) reads (and_then r f)
IsSent-and_then base xs ys reads r f (rest, e, count) later =
    let (last, e', count') = later rest count in
    (
      last,
      rw (e, e', bytes_to-append base xs ys) refl,
      omega (arith, count, count', length-append xs ys),
    )

-- `serial_write_raw`, when among the reads there are as many statuses of a ready port as there are bytes:
-- it ends, and has written exactly the bytes to the port, in their order.
pub serial_write_raw-IsSent :
    (base : ℕ) (vals reads : List ℕ)
    → length vals ≤ ready_count reads
    → IsSent base vals reads (serial_write_raw base vals reads)
unfolding serial_write_raw
serial_write_raw-IsSent base [] reads h = (reads, refl, omega arith)
serial_write_raw-IsSent base (val ∷ vals) reads h =
    IsSent-and_then base (val ∷ []) vals reads (send_byte base val reads)
      (λ rest. serial_write_raw base vals rest) (send_byte-IsSent base val reads (omega (arith, h)))
      (λ rest count. serial_write_raw-IsSent base vals rest (omega (arith, h, count)))

abbrev returned : ℕ → List ℕ
returned c = if c == 10 then 13 ∷ c ∷ [] else c ∷ []

serial_putc-IsSent :
    (base c : ℕ) (reads : List ℕ)
    → length (returned c) ≤ ready_count reads
    → IsSent base (returned c) reads (serial_putc base c reads)
unfolding serial_putc
serial_putc-IsSent base c reads h = elim (Bool-cases (c == 10)) [
  | inl newline ↦
      let room = (rw newline at h) in
      rw newline (
        IsSent-and_then base (13 ∷ []) (c ∷ []) reads (send_byte base 13 reads) (send_byte base c)
          (send_byte-IsSent base 13 reads (omega (arith, room)))
          (λ rest count. send_byte-IsSent base c rest (omega (arith, room, count))))
  | inr other ↦
      let room = (rw other at h) in rw other (send_byte-IsSent base c reads (omega (arith, room)))
]

-- `serial_write`, when among the reads there are as many statuses of a ready port as there are bytes to
-- send: it ends, and has written the bytes of the string to the port, in their order, with a carriage
-- return before each newline.
pub serial_write-IsSent :
    (base : ℕ) (s reads : List ℕ)
    → length (with_returns s) ≤ ready_count reads
    → IsSent base (with_returns s) reads (serial_write base s reads)
unfolding serial_write
serial_write-IsSent base [] reads h = (reads, refl, omega arith)
serial_write-IsSent base (c ∷ s) reads h =
    let room = length-append (returned c) (with_returns s) in
    IsSent-and_then base (returned c) (with_returns s) reads (serial_putc base c reads)
      (λ rest. serial_write base s rest) (serial_putc-IsSent base c reads (omega (arith, h, room)))
      (λ rest count. serial_write-IsSent base s rest (omega (arith, h, room, count)))
