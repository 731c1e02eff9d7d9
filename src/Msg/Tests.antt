-- ===== src/Msg/Tests.antt =====
-- Runs of the receiver, and the theorems at concrete inputs.
use ios.Prelude.{ℕ, ◌≡◌, List, [], ◌∷◌, refl, arith}
use ios.Mem.{Mem, store, zeros, blit, put_u16, c_string}
use ios.Msg.{
  Receiver, rx_idle, msg_send, send_length, packet, msg_poll, checksum, checksum_loop, fill_packet,
  bytes_of,
}
use ios.Msg.Bounds.{IsSafe, Untouched, msg_poll-IsSafe}
use ios.Msg.Deliver.{msg_poll-msg_send}

abbrev idle : Receiver
idle = record { rx_state = rx_idle; rx_buf = zeros; rx_pos = 0; rx_need = 0 }

abbrev hi_text : Mem
hi_text = store (store zeros 0 b'h') 1 b'i'

abbrev greeting : List ℕ
greeting = packet zeros 1 2 hi_text 2

-- The header, the payload, and the exclusive or of the eight bytes.
greeting_bytes : greeting ≡ 0x1D ∷ 0x05 ∷ 1 ∷ 2 ∷ 2 ∷ 0 ∷ b'h' ∷ b'i' ∷ 0x18 ∷ []
unfolding packet checksum checksum_loop fill_packet bytes_of store blit put_u16
greeting_bytes = refl

msg_poll-msg_send_example :
    ((msg_poll 2 greeting idle).0.rx_state ≡ rx_idle)
    × ((msg_poll 2 greeting idle).1 ≡ record { sender = 1; text = b'h' ∷ b'i' ∷ [] } ∷ [])
unfolding msg_send send_length c_string store
msg_poll-msg_send_example = msg_poll-msg_send zeros hi_text 1 2 2 2 greeting idle refl refl

idle-IsSafe : IsSafe idle
idle-IsSafe = record { in_hdr = ground arith; in_data = ground arith; in_chk = ground arith }

msg_poll-IsSafe_example :
    IsSafe (msg_poll 2 (0x1D ∷ 0x05 ∷ 7 ∷ 2 ∷ 0xFF ∷ 0xFF ∷ []) idle).0
    × Untouched zeros (msg_poll 2 (0x1D ∷ 0x05 ∷ 7 ∷ 2 ∷ 0xFF ∷ 0xFF ∷ []) idle).0.rx_buf
msg_poll-IsSafe_example =
    msg_poll-IsSafe 2 (0x1D ∷ 0x05 ∷ 7 ∷ 2 ∷ 0xFF ∷ 0xFF ∷ []) idle idle-IsSafe
