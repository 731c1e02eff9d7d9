-- ===== src/Crypt.antt =====
-- src/fs/crypto.c: the XOR cipher of the `encrypt` and `decrypt` commands.
pub mod Involution
mod Tests
use ios.Prelude.{ℕ, zero, suc, ◌+◌, ◌*◌, ◌%◌, ◌^◌, ◌==◌, if◌then◌else◌, u8, bit_xor}
use ios.Mem.{Mem, store}

-- `while (password[klen]) klen++;` over at most `room` bytes, from `i` on: a password ends within
-- the bytes that its array has.
pub key_length : ℕ → ℕ → Mem → ℕ
key_length zero i password = i
key_length (suc room) i password =
    let rest = key_length room (i + 1) password in if password i == 0 then i else rest

-- `(uint8_t)password[i % klen] ^ (uint8_t)(i * 31)`
pub key_byte : Mem → ℕ → ℕ → ℕ
key_byte password klen i = u8 (bit_xor (u8 (password (i % klen))) (u8 (i * 31)))

crypt_loop : ℕ → ℕ → Mem → Mem → ℕ → Mem
crypt_loop zero i buf password klen = buf
crypt_loop (suc left) i buf password klen =
    crypt_loop left (i + 1) (store buf i (u8 (bit_xor (buf i) (key_byte password klen i)))) password
      klen

-- `room` is the size of the password's array.
pub crypt_xor : ℕ → Mem → ℕ → Mem → Mem
crypt_xor room buf len password =
    let klen = key_length room 0 password in
    if klen == 0 then buf else crypt_loop len 0 buf password klen
