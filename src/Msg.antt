-- ===== src/Msg.antt =====
-- src/msg.c: messages between nodes over the serial line, with the bytes that go over it as lists.
-- The node's id, the receiver's static variables and the packet on the stack are explicit.
pub mod Bounds
pub mod Frames
pub mod Deliver
mod Tests
use ios.Prelude.{
  ℕ, zero, suc, ◌+◌, ◌/◌, ◌%◌, ◌^◌, ◌≤◌, Bool, true, false, ◌&&◌, ◌||◌, List, [], ◌∷◌, ◌++◌, Option,
  none, some, ltb, leb, ◌==◌, if◌then◌else◌, u8, u16, bit_xor, ℤ, pos, negsuc,
}
use ios.Mem.{Mem, store, blit, get_u16, put_u16, zeros, c_string}

abbrev pub msg_magic0 : ℕ
msg_magic0 = 0x1D

abbrev pub msg_magic1 : ℕ
msg_magic1 = 0x05

abbrev pub msg_max_nodes : ℕ
msg_max_nodes = 8

abbrev pub msg_max_payload : ℕ
msg_max_payload = 512

-- `sizeof(MsgHeader)`: magic 0 and 1, sender 2, target 3, length 4 and 5.
abbrev pub header_size : ℕ
header_size = 6

-- The size of `rx_buf` and of the packet on the stack.
abbrev pub buffer_size : ℕ
buffer_size = header_size + msg_max_payload + 1

pub checksum_loop : ℕ → ℕ → ℕ → Mem → ℕ
checksum_loop zero i c m = c
checksum_loop (suc left) i c m = checksum_loop left (i + 1) (u8 (bit_xor c (m i))) m

pub checksum : Mem → ℕ → ℕ
checksum m len = checksum_loop len 0 0 m

-- The n bytes from offset `o` on, as `serial_write_raw` sends them.
pub bytes_of : Mem → ℕ → ℕ → List ℕ
bytes_of m o zero = []
bytes_of m o (suc n) = m o ∷ bytes_of m (o + 1) n

-- The packet before its checksum; `stack` is what the uninitialised array holds.
pub fill_packet : Mem → ℕ → ℕ → Mem → ℕ → Mem
fill_packet stack sender target text len =
    let pkt = store (store (store (store stack 0 msg_magic0) 1 msg_magic1) 2 sender) 3 target in
    blit (put_u16 pkt 4 (u16 len)) header_size text 0 len

pub packet : Mem → ℕ → ℕ → Mem → ℕ → List ℕ
packet stack sender target text len =
    let body_len = header_size + len in
    let pkt = fill_packet stack sender target text len in
    bytes_of (store pkt body_len (checksum pkt body_len)) 0 (body_len + 1)

pub data Sent : Type 0 where
  no_id invalid_target too_long : Sent
  sent : List ℕ → Sent

-- `len <= 0 || len > MSG_MAX_PAYLOAD` fails.
pub send_length : Mem → ℕ → ℕ → Mem → ℤ → Sent
send_length stack sender target text (negsuc n) = too_long
send_length stack sender target text (pos len) =
    if len == 0 || ltb msg_max_payload len
    then too_long
    else sent (packet stack sender target text len)

pub msg_send : Mem → ℕ → ℕ → Mem → ℤ → Sent
msg_send stack g_node_id target text len =
    if g_node_id == 0xFF
    then no_id
    else if leb msg_max_nodes target
    then invalid_target
    else send_length stack g_node_id target text len

-- The new `g_node_id`, and what is sent: a message of one zero byte to the node itself.
pub msg_set_id : Mem → ℕ → ℕ → ℕ × Option Sent
msg_set_id stack g_node_id id =
    if leb msg_max_nodes id
    then (g_node_id, none)
    else (id, some (msg_send stack id id zeros (pos 1)))

pub data RxState : Type 0 where
  rx_idle rx_magic1 rx_hdr rx_data rx_chk : RxState

-- The static variables of the receiver.
pub record Receiver : Type 0 where
  pub rx_state : RxState
  pub rx_buf : Mem
  pub rx_pos : ℕ
  pub rx_need : ℕ

-- What is printed: the sender, and the payload up to its first zero byte.
pub record Message : Type 0 where
  pub sender : ℕ
  pub text : List ℕ

rx_byte_idle : ℕ → Receiver → Receiver
rx_byte_idle b r =
    if b == msg_magic0
    then record r { rx_buf = store r.rx_buf 0 b; rx_pos = 1; rx_state = rx_magic1 }
    else r

rx_byte_magic1 : ℕ → Receiver → Receiver
rx_byte_magic1 b r =
    if b == msg_magic1
    then record r { rx_buf = store r.rx_buf 1 b; rx_pos = 2; rx_state = rx_hdr }
    else record r { rx_state = rx_idle }

-- After the last byte of the header: `rx_need` is its length field.
rx_header_done : Receiver → Receiver
rx_header_done r =
    let need = get_u16 r.rx_buf 4 in
    if ltb msg_max_payload need || need == 0
    then record r { rx_need = need; rx_state = rx_idle }
    else record r { rx_need = need; rx_state = rx_data }

rx_store : ℕ → Receiver → Receiver
rx_store b r = record r { rx_buf = store r.rx_buf r.rx_pos b; rx_pos = r.rx_pos + 1 }

rx_byte_hdr : ℕ → Receiver → Receiver
rx_byte_hdr b r =
    let r' = rx_store b r in if leb header_size r'.rx_pos then rx_header_done r' else r'

rx_byte_data : ℕ → Receiver → Receiver
rx_byte_data b r =
    let r' = rx_store b r in
    if leb (header_size + r'.rx_need) r'.rx_pos then record r' { rx_state = rx_chk } else r'

-- The payload is terminated in place and printed if the checksum and the target are right.
rx_byte_chk : ℕ → ℕ → Receiver → Receiver × Option Message
rx_byte_chk g_node_id b r =
    let len = get_u16 r.rx_buf 4 in
    let ended = store r.rx_buf (header_size + len) 0 in
    if checksum r.rx_buf (header_size + r.rx_need) == b && r.rx_buf 3 == g_node_id
    then (
      record r { rx_buf = ended; rx_state = rx_idle },
      some (record { sender = ended 2; text = c_string ended header_size len }),
    )
    else (record r { rx_state = rx_idle }, none)

rx_dispatch : ℕ → ℕ → RxState → Receiver → Receiver × Option Message
rx_dispatch g_node_id b rx_idle r = (rx_byte_idle b r, none)
rx_dispatch g_node_id b rx_magic1 r = (rx_byte_magic1 b r, none)
rx_dispatch g_node_id b rx_hdr r = (rx_byte_hdr b r, none)
rx_dispatch g_node_id b rx_data r = (rx_byte_data b r, none)
rx_dispatch g_node_id b rx_chk r = rx_byte_chk g_node_id b r

-- The body of the loop of `msg_poll` for one byte.
pub rx_byte : ℕ → ℕ → Receiver → Receiver × Option Message
rx_byte g_node_id b r = rx_dispatch g_node_id b r.rx_state r

pub add_message : Option Message → List Message → List Message
add_message none ms = ms
add_message (some m) ms = m ∷ ms

-- The loop, over the bytes that the line holds.
pub msg_poll : ℕ → List ℕ → Receiver → Receiver × List Message
msg_poll g_node_id [] r = (r, [])
msg_poll g_node_id (b ∷ bs) r =
    let (r', m) = rx_byte g_node_id b r in
    let (r'', ms) = msg_poll g_node_id bs r' in (r'', add_message m ms)
