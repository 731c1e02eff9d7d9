-- ===== src/Msg/Deliver.antt =====
-- `msg_send` and `msg_poll` of src/msg.c together.
use ios.Prelude.{
  ℕ, suc, ◌+◌, ◌/◌, ◌^◌, ◌≤◌, ◌≡◌, ◌∙◌, ap, ap₂, List, [], ◌∷◌, ◌++◌, none, some, arith, ◌==◌,
  if◌then◌else◌, u8, pos,
}
use ios.Mem.{Mem, store, blit, get_u16, put_u16, c_string}
use ios.Msg.{
  Receiver, Message, rx_idle, rx_chk, rx_byte, rx_dispatch, rx_byte_chk, msg_poll, header_size,
  msg_max_payload, checksum, bytes_of, fill_packet, packet, add_message, msg_send, send_length,
  sent,
}
use ios.Msg.Frames.{
  store_all, store_all-bytes_of, bytes_of_ext, checksum_loop_ext, header_bytes, headed,
  c_string_ext, bytes_of_snoc, payload_step,
}

module _ (stack text : Mem) (sender target len : ℕ) (lo : 1 ≤ len)
    (hi : len ≤ msg_max_payload) where
  abbrev filled : Mem
  filled = fill_packet stack sender target text len

  abbrev check : ℕ
  check = checksum filled (header_size + len)

  abbrev whole : Mem
  whole = store filled (header_size + len) check

  payload_bytes : bytes_of whole 6 (suc len) ≡ bytes_of text 0 len ++ (check ∷ [])
  unfolding fill_packet store blit put_u16
  payload_bytes =
      bytes_of_snoc whole 6 len
      ∙ ap₂ (λ (l : List ℕ) (x : ℕ). l ++ (x ∷ []))
          (bytes_of_ext whole text 6 0 len (λ j lt. ground arith)) (ground arith)

  -- The packet is the header, the payload and the checksum of both.
  packet_bytes :
      packet stack sender target text len
      ≡ 0x1D
        ∷ 0x05
        ∷ sender
        ∷ target
        ∷ u8 len
        ∷ u8 (len / 2 ^ 8)
        ∷ (bytes_of text 0 len ++ (check ∷ []))
  unfolding packet bytes_of fill_packet store blit put_u16
  packet_bytes =
      let e : header_size + len + 1 ≡ suc (suc (suc (suc (suc (suc (suc len)))))) = omega arith in
      let h0 : whole 0 ≡ 0x1D = ground arith in
      let h1 : whole 1 ≡ 0x05 = ground arith in
      let h2 : whole 2 ≡ sender = ground arith in
      let h3 : whole 3 ≡ target = ground arith in
      let h4 : whole 4 ≡ u8 len = ground arith in
      let h5 : whole 5 ≡ u8 (len / 2 ^ 8) = ground arith in
      ap (λ (k : ℕ). bytes_of whole 0 k) e ∙ cc (h0, h1, h2, h3, h4, h5, payload_bytes)

  -- What the receiver's buffer holds when the checksum arrives.
  abbrev received : Mem → Mem
  received m = store_all (headed m sender target len) 6 (bytes_of text 0 len)

  received-at : (m : Mem) (j : ℕ) → received m j ≡ blit (headed m sender target len) 6 text 0 len j
  received-at m j = store_all-bytes_of (headed m sender target len) text 6 0 len j

  checksum-received : (m : Mem) → checksum (received m) (header_size + len) ≡ check
  unfolding checksum fill_packet blit store put_u16
  checksum-received m =
      checksum_loop_ext (header_size + len) 0 0 (received m) filled
        (λ j lt. received-at m j ∙ ground arith)

  -- The message as the receiver prints it.
  abbrev printed : Message
  printed = record { sender = sender; text = c_string text 0 len }

  received-facts :
      (m : Mem)
      → (get_u16 (received m) 4 ≡ len)
        × (received m 2 ≡ sender)
        × (received m 3 ≡ target)
        × (c_string (store (received m) (header_size + len) 0) header_size len
            ≡ c_string text 0 len)
  unfolding blit store get_u16 put_u16
  received-facts m = (
    ground (arith, received-at m 4, received-at m 5),
    ground (arith, received-at m 2),
    ground (arith, received-at m 3),
    c_string_ext _ text 6 0 len (λ j lt. ground (arith, received-at m (6 + j))),
  )

-- The checksum byte, when the header and the checksum are as the sender made them.
chk_byte :
    (g_node_id b sender target len p : ℕ) (m : Mem) (text : List ℕ)
    → checksum m (header_size + len) ≡ b
    → (get_u16 m 4 ≡ len)
      × (m 2 ≡ sender)
      × (m 3 ≡ target)
      × (c_string (store m (header_size + len) 0) header_size len ≡ text)
    → let r : Receiver = record { rx_state = rx_chk; rx_buf = m; rx_pos = p; rx_need = len } in
      ((rx_byte g_node_id b r).1
        ≡ (if target == g_node_id then some (record { sender = sender; text = text }) else none))
      × ((rx_byte g_node_id b r).0.rx_state ≡ rx_idle)
unfolding rx_byte rx_dispatch rx_byte_chk store
chk_byte g_node_id b sender target len p m text sum facts = ground arith

abbrev IsDelivered : ℕ → ℕ → Message → Receiver × List Message → Type 0
IsDelivered target g_node_id message (r, ms) =
    (r.rx_state ≡ rx_idle) × (ms ≡ (if target == g_node_id then message ∷ [] else []))

poll_one :
    (g_node_id b target : ℕ) (message : Message) (r : Receiver)
    → ((rx_byte g_node_id b r).1 ≡ (if target == g_node_id then some message else none))
      × ((rx_byte g_node_id b r).0.rx_state ≡ rx_idle)
    → IsDelivered target g_node_id message (msg_poll g_node_id (b ∷ []) r)
unfolding msg_poll add_message
poll_one g_node_id b target message r h = ground arith

packet-IsDelivered :
    (stack text : Mem) (sender target len g_node_id p need : ℕ) (m : Mem)
    → 1 ≤ len
    → len ≤ msg_max_payload
    → IsDelivered target g_node_id
        (record { sender = sender; text = c_string text 0 len })
        (msg_poll g_node_id
          (packet stack sender target text len)
          (record { rx_state = rx_idle; rx_buf = m; rx_pos = p; rx_need = need }))
packet-IsDelivered stack text sender target len g_node_id p need m lo hi =
    rw
      (
        packet_bytes stack text sender target len lo hi,
        header_bytes g_node_id sender target len _ m p need lo hi,
        payload_step g_node_id text len _ (headed m sender target len) lo,
      )
      (poll_one g_node_id _ target _ _ (
        chk_byte g_node_id _ sender target len (header_size + len) _ _
          (checksum-received stack text sender target len lo hi m)
          (received-facts stack text sender target len lo hi m)))

msg_send-eq_sent :
    (stack text : Mem) (sender target len : ℕ) (bytes : List ℕ)
    → msg_send stack sender target text (pos len) ≡ sent bytes
    → (bytes ≡ packet stack sender target text len) × (1 ≤ len) × (len ≤ msg_max_payload)
unfolding msg_send send_length
msg_send-eq_sent stack text sender target len bytes h = (ground arith, ground arith, ground arith)

-- Whatever `msg_send` puts on the line, an idle receiver ends idle after it; the node that is the
-- target prints the sender and the payload up to its first zero byte, once, and no other node
-- prints anything.
pub msg_poll-msg_send :
    (stack text : Mem) (sender target len g_node_id : ℕ) (bytes : List ℕ) (r : Receiver)
    → msg_send stack sender target text (pos len) ≡ sent bytes
    → r.rx_state ≡ rx_idle
    → ((msg_poll g_node_id bytes r).0.rx_state ≡ rx_idle)
      × ((msg_poll g_node_id bytes r).1 ≡ (
          if target == g_node_id
          then record { sender = sender; text = c_string text 0 len } ∷ []
          else []))
msg_poll-msg_send stack text sender target len g_node_id bytes r h e =
    let (same, lo, hi) = msg_send-eq_sent stack text sender target len bytes h in
    rw (same, idle)
      (packet-IsDelivered stack text sender target len g_node_id r.rx_pos r.rx_need r.rx_buf lo hi)
  where
    idle : r ≡ record r { rx_state = rx_idle }
    idle = λ i. record r { rx_state = e i }
