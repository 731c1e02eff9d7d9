-- ===== src/Msg/Bounds.antt =====
-- The bounds of the receiver of src/msg.c.
use ios.Prelude.{ℕ, ◌+◌, ◌≤◌, ◌<◌, ◌≡◌, List, [], ◌∷◌, arith, ◌∙◌, refl}
use ios.Mem.{Mem, store, get_u16}
use ios.Msg.{
  Receiver, RxState, rx_idle, rx_magic1, rx_hdr, rx_data, rx_chk, rx_byte, rx_dispatch,
  rx_byte_idle, rx_byte_magic1, rx_byte_hdr, rx_byte_data, rx_byte_chk, rx_store, rx_header_done,
  msg_poll, buffer_size, header_size, msg_max_payload,
}

-- Where the receiver stands in each state that stores bytes.
pub record IsSafe (r : Receiver) : Type 0 where
  pub in_hdr : r.rx_state ≡ rx_hdr → (2 ≤ r.rx_pos) × (r.rx_pos < header_size)
  pub in_data :
      r.rx_state ≡ rx_data
      → (header_size ≤ r.rx_pos)
        × (r.rx_pos < header_size + r.rx_need)
        × (r.rx_need ≤ msg_max_payload)
        × (get_u16 r.rx_buf 4 ≡ r.rx_need)
  pub in_chk :
      r.rx_state ≡ rx_chk → (r.rx_need ≤ msg_max_payload) × (get_u16 r.rx_buf 4 ≡ r.rx_need)

-- Nothing outside the buffer's 519 bytes changes.
abbrev pub Untouched : Mem → Mem → Type 0
Untouched m m' = (j : ℕ) → buffer_size ≤ j → m' j ≡ m j

rx_dispatch-IsSafe :
    (g_node_id b : ℕ) (s : RxState) (r : Receiver)
    → r.rx_state ≡ s
    → IsSafe r
    → IsSafe (rx_dispatch g_node_id b s r).0
unfolding rx_dispatch rx_byte_idle rx_byte_magic1 rx_byte_hdr rx_byte_data rx_byte_chk rx_store
    rx_header_done store get_u16
rx_dispatch-IsSafe g_node_id b rx_idle r e v = record {
  in_hdr = ground arith;
  in_data = ground arith;
  in_chk = ground arith;
}
rx_dispatch-IsSafe g_node_id b rx_magic1 r e v = record {
  in_hdr = ground arith;
  in_data = ground arith;
  in_chk = ground arith;
}
rx_dispatch-IsSafe g_node_id b rx_hdr r e v =
    let w = v.in_hdr e in
    record { in_hdr = ground arith; in_data = ground arith; in_chk = ground arith }
rx_dispatch-IsSafe g_node_id b rx_data r e v =
    let w = v.in_data e in
    record { in_hdr = ground arith; in_data = ground arith; in_chk = ground arith }
rx_dispatch-IsSafe g_node_id b rx_chk r e v = record {
  in_hdr = ground arith;
  in_data = ground arith;
  in_chk = ground arith;
}

rx_dispatch-Untouched :
    (g_node_id b : ℕ) (s : RxState) (r : Receiver)
    → r.rx_state ≡ s
    → IsSafe r
    → Untouched r.rx_buf (rx_dispatch g_node_id b s r).0.rx_buf
unfolding rx_dispatch rx_byte_idle rx_byte_magic1 rx_byte_hdr rx_byte_data rx_byte_chk rx_store
    rx_header_done store
rx_dispatch-Untouched g_node_id b rx_idle r e v j h = ground arith
rx_dispatch-Untouched g_node_id b rx_magic1 r e v j h = ground arith
rx_dispatch-Untouched g_node_id b rx_hdr r e v j h = let w = v.in_hdr e in ground arith
rx_dispatch-Untouched g_node_id b rx_data r e v j h = let w = v.in_data e in ground arith
rx_dispatch-Untouched g_node_id b rx_chk r e v j h = let w = v.in_chk e in ground arith

-- Whatever bytes arrive at a receiver whose position is in range, the position stays in range and only
-- bytes inside `rx_buf` are written.
pub msg_poll-IsSafe :
    (g_node_id : ℕ) (bs : List ℕ) (r : Receiver)
    → IsSafe r
    → IsSafe (msg_poll g_node_id bs r).0 × Untouched r.rx_buf (msg_poll g_node_id bs r).0.rx_buf
unfolding msg_poll rx_byte
msg_poll-IsSafe g_node_id [] r v = (v, λ j h. refl)
msg_poll-IsSafe g_node_id (b ∷ bs) r v =
    let r' = (rx_dispatch g_node_id b r.rx_state r).0 in
    let (safe, same) =
      msg_poll-IsSafe g_node_id bs r' (rx_dispatch-IsSafe g_node_id b r.rx_state r refl v) in
    (safe, λ j h. same j h ∙ rx_dispatch-Untouched g_node_id b r.rx_state r refl v j h)
