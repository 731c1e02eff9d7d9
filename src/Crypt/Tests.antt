-- ===== src/Crypt/Tests.antt =====
-- The cipher at a concrete password.
use ios.Prelude.{◌≡◌, arith}
use ios.Mem.{Mem, store, zeros}
use ios.Crypt.{crypt_xor}
use ios.Crypt.Involution.{crypt_xor_twice}

abbrev key_text : Mem
key_text = store (store zeros 0 b'k') 1 b'y'

abbrev plain : Mem
plain = store (store zeros 0 b'o') 1 b'k'

crypt_xor_twice_example : crypt_xor 8 (crypt_xor 8 plain 2 key_text) 2 key_text ≡ plain
unfolding store
crypt_xor_twice_example = crypt_xor_twice 8 2 plain key_text (ground arith)
