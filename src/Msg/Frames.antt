-- ===== src/Msg/Frames.antt =====
-- What the states of `msg_poll` do with the header and the payload of a packet.
use ios.Prelude.{
  ℕ, zero, suc, ◌+◌, ◌/◌, ◌^◌, ◌≤◌, ◌<◌, ◌≡◌, refl, ◌∙◌, ap, List, [], ◌∷◌, ◌++◌, none, arith, u8,
  length,
}
use ios.Mem.{Mem, store, blit, get_u16, put_u16, c_string}
use ios.Mem.Fields.{get_u16-put_u16}
use ios.Msg.{
  Receiver, rx_idle, rx_hdr, rx_data, rx_chk, rx_byte, rx_dispatch, rx_byte_idle, rx_byte_magic1,
  rx_byte_hdr, rx_byte_data, rx_store, rx_header_done, msg_poll, header_size, msg_max_payload,
  checksum_loop, bytes_of, add_message,
}

-- The buffer after storing a list of bytes from `o` on.
abbrev pub store_all : Mem → ℕ → List ℕ → Mem
store_all m o [] = m
store_all m o (x ∷ xs) = store_all (store m o x) (o + 1) xs

pub length-bytes_of : (m : Mem) (o n : ℕ) → length (bytes_of m o n) ≡ n
unfolding bytes_of
length-bytes_of m o zero = refl
length-bytes_of m o (suc n) = ap suc (length-bytes_of m (o + 1) n)

pub store_all-bytes_of :
    (m text : Mem) (o p n j : ℕ) → store_all m o (bytes_of text p n) j ≡ blit m o text p n j
unfolding bytes_of blit store
store_all-bytes_of m text o p zero j = ground arith
store_all-bytes_of m text o p (suc n) j =
    ground (arith, store_all-bytes_of (store m o (text p)) text (o + 1) (p + 1) n j)

pub bytes_of_ext :
    (m m' : Mem) (o o' n : ℕ)
    → ((j : ℕ) → j < n → m (o + j) ≡ m' (o' + j))
    → bytes_of m o n ≡ bytes_of m' o' n
unfolding bytes_of
bytes_of_ext m m' o o' zero h = refl
bytes_of_ext m m' o o' (suc n) h =
    let first : m o ≡ m' o' = ap m (omega arith) ∙ h 0 (omega arith) ∙ ap m' (omega arith) in
    let rest =
      bytes_of_ext m m' (o + 1) (o' + 1) n
        (λ j lt. ap m (omega arith) ∙ h (suc j) (omega arith) ∙ ap m' (omega arith)) in
    cc (first, rest)

pub checksum_loop_ext :
    (n i c : ℕ) (m m' : Mem)
    → ((j : ℕ) → j < i + n → m j ≡ m' j)
    → checksum_loop n i c m ≡ checksum_loop n i c m'
unfolding checksum_loop
checksum_loop_ext zero i c m m' h = refl
checksum_loop_ext (suc n) i c m m' h =
    rw (h i (omega arith)) (checksum_loop_ext n (i + 1) _ m m' (λ j lt. h j (omega arith)))

-- A byte that prints nothing.
poll_silent :
    (g_node_id b : ℕ) (bs : List ℕ) (r r' : Receiver)
    → rx_byte g_node_id b r ≡ (r', none)
    → msg_poll g_node_id (b ∷ bs) r ≡ msg_poll g_node_id bs r'
unfolding msg_poll add_message
poll_silent g_node_id b bs r r' e = rw e

data_byte_last :
    (g_node_id b : ℕ) (m : Mem) (p need : ℕ)
    → p + 1 ≡ header_size + need
    → rx_byte g_node_id b (record { rx_state = rx_data; rx_buf = m; rx_pos = p; rx_need = need })
      ≡ (record { rx_state = rx_chk; rx_buf = store m p b; rx_pos = p + 1; rx_need = need }, none)
unfolding rx_byte rx_dispatch rx_byte_data rx_store
data_byte_last g_node_id b m p need e = ground arith

data_byte_more :
    (g_node_id b : ℕ) (m : Mem) (p need : ℕ)
    → p + 1 < header_size + need
    → rx_byte g_node_id b (record { rx_state = rx_data; rx_buf = m; rx_pos = p; rx_need = need })
      ≡ (record { rx_state = rx_data; rx_buf = store m p b; rx_pos = p + 1; rx_need = need }, none)
unfolding rx_byte rx_dispatch rx_byte_data rx_store
data_byte_more g_node_id b m p need e = ground arith

-- The data state takes in the bytes that the header announced, and no more.
data_bytes :
    (g_node_id x : ℕ) (xs rest : List ℕ) (m : Mem) (p need : ℕ)
    → p + length (x ∷ xs) ≡ header_size + need
    → msg_poll g_node_id
        ((x ∷ xs) ++ rest)
        (record { rx_state = rx_data; rx_buf = m; rx_pos = p; rx_need = need })
      ≡ msg_poll g_node_id rest (record {
        rx_state = rx_chk;
        rx_buf = store_all m p (x ∷ xs);
        rx_pos = header_size + need;
        rx_need = need;
      })
data_bytes g_node_id x [] rest m p need len =
    rw (poll_silent g_node_id x rest _ _ (data_byte_last g_node_id x m p need (omega arith)), len)
      refl
data_bytes g_node_id x (y ∷ ys) rest m p need len =
    rw
      (poll_silent g_node_id x (y ∷ (ys ++ rest)) _ _
        (data_byte_more g_node_id x m p need (omega arith)))
      (data_bytes g_node_id y ys rest (store m p x) (p + 1) need (omega arith))

-- The buffer after a header.
abbrev pub headed : Mem → ℕ → ℕ → ℕ → Mem
headed m sender target len =
    put_u16 (store (store (store (store m 0 0x1D) 1 0x05) 2 sender) 3 target) 4 len

header_done :
    (m : Mem) (p need len : ℕ)
    → get_u16 m 4 ≡ len
    → 1 ≤ len
    → len ≤ msg_max_payload
    → rx_header_done (record { rx_state = rx_hdr; rx_buf = m; rx_pos = p; rx_need = need })
      ≡ record { rx_state = rx_data; rx_buf = m; rx_pos = p; rx_need = len }
unfolding rx_header_done
header_done m p need len e lo hi = ground arith

pub header_bytes :
    (g_node_id sender target len : ℕ) (rest : List ℕ) (m : Mem) (p need : ℕ)
    → 1 ≤ len
    → len ≤ msg_max_payload
    → msg_poll g_node_id
        (0x1D ∷ 0x05 ∷ sender ∷ target ∷ u8 len ∷ u8 (len / 2 ^ 8) ∷ rest)
        (record { rx_state = rx_idle; rx_buf = m; rx_pos = p; rx_need = need })
      ≡ msg_poll g_node_id rest (record {
        rx_state = rx_data;
        rx_buf = headed m sender target len;
        rx_pos = header_size;
        rx_need = len;
      })
unfolding msg_poll add_message rx_byte rx_dispatch rx_byte_idle rx_byte_magic1 rx_byte_hdr rx_store
    rx_header_done put_u16
header_bytes g_node_id sender target len rest m p need lo hi =
    rw
      (header_done (headed m sender target len) header_size need len
        (get_u16-put_u16 _ 4 len (omega arith)) lo hi)
      refl

-- The text that is printed depends on the bytes of the payload alone.
pub c_string_ext :
    (m m' : Mem) (o o' n : ℕ)
    → ((j : ℕ) → j < n → m (o + j) ≡ m' (o' + j))
    → c_string m o n ≡ c_string m' o' n
unfolding c_string
c_string_ext m m' o o' zero h = refl
c_string_ext m m' o o' (suc n) h =
    let first : m o ≡ m' o' = ap m (omega arith) ∙ h 0 (omega arith) ∙ ap m' (omega arith) in
    let rest =
      c_string_ext m m' (o + 1) (o' + 1) n
        (λ j lt. ap m (omega arith) ∙ h (suc j) (omega arith) ∙ ap m' (omega arith)) in
    rw (first, rest) refl

pub bytes_of_snoc : (m : Mem) (o n : ℕ) → bytes_of m o (suc n) ≡ bytes_of m o n ++ (m (o + n) ∷ [])
unfolding bytes_of
bytes_of_snoc m o zero = ap (λ (k : ℕ). m k ∷ []) (omega arith)
bytes_of_snoc m o (suc n) =
    ap (λ (l : List ℕ). m o ∷ l)
      (bytes_of_snoc m (o + 1) n ∙ ap (λ (k : ℕ). bytes_of m (o + 1) n ++ (m k ∷ [])) (omega arith))

-- The payload is not empty, so it has a first byte.
pub payload_step :
    (g_node_id : ℕ) (text : Mem) (len : ℕ) (rest : List ℕ) (m : Mem)
    → 1 ≤ len
    → msg_poll g_node_id
        (bytes_of text 0 len ++ rest)
        (record { rx_state = rx_data; rx_buf = m; rx_pos = header_size; rx_need = len })
      ≡ msg_poll g_node_id rest (record {
        rx_state = rx_chk;
        rx_buf = store_all m header_size (bytes_of text 0 len);
        rx_pos = header_size + len;
        rx_need = len;
      })
unfolding bytes_of
payload_step g_node_id text zero rest m lo = absurd (omega arith)
payload_step g_node_id text (suc n) rest m lo =
    data_bytes g_node_id (text 0) (bytes_of text 1 n) rest m header_size (suc n)
      (omega (arith, length-bytes_of text 1 n))
