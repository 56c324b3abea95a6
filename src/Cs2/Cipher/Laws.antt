-- ===== src/Cs2/Cipher/Laws.antt =====
-- The packet cipher is invertible in both directions, keeps lengths, and yields bytes.
use okam_ha_proxy.Prelude.{
  ℕ, zero, suc, ◌<◌, bit_xor, List, [], ◌∷◌, ◌≡◌, refl, ap, true, arith, Text, Bytes, IsBytes, all,
  length, get_or, ltb,
}
use okam_ha_proxy.Prelude.Bits.{xor_cancel, bit_xor-lt}
use okam_ha_proxy.Prelude.Outcome.{ok, ◌>>=◌}
use okam_ha_proxy.Cs2.Cipher.{
  shuffle, is_ascii, hash_loop, key_hash, pad, encrypt_loop, decrypt_loop, encrypt_packet,
  decrypt_packet,
}

pub decrypt_loop-encrypt_loop :
    (hashed : List ℕ) (previous : ℕ) (clear : Bytes)
    → decrypt_loop hashed previous (encrypt_loop hashed previous clear) ≡ clear
unfolding encrypt_loop decrypt_loop
decrypt_loop-encrypt_loop hashed previous [] = refl
decrypt_loop-encrypt_loop hashed previous (value ∷ rest) = cc (
  xor_cancel value (pad hashed previous),
  decrypt_loop-encrypt_loop hashed (bit_xor value (pad hashed previous)) rest,
)

encrypt_loop-decrypt_loop :
    (hashed : List ℕ) (previous : ℕ) (encrypted : Bytes)
    → encrypt_loop hashed previous (decrypt_loop hashed previous encrypted) ≡ encrypted
unfolding encrypt_loop decrypt_loop
encrypt_loop-decrypt_loop hashed previous [] = refl
encrypt_loop-decrypt_loop hashed previous (value ∷ rest) =
    rw (xor_cancel value (pad hashed previous))
      (ap (◌∷◌ value) (encrypt_loop-decrypt_loop hashed value rest))

length-encrypt_loop :
    (hashed : List ℕ) (previous : ℕ) (clear : Bytes)
    → length (encrypt_loop hashed previous clear) ≡ length clear
unfolding encrypt_loop
length-encrypt_loop hashed previous [] = refl
length-encrypt_loop hashed previous (value ∷ rest) =
    omega (arith, length-encrypt_loop hashed (bit_xor value (pad hashed previous)) rest)

shuffle-IsBytes : all (λ b. ltb b 256) shuffle ≡ true
unfolding shuffle
shuffle-IsBytes = refl

get_or-IsByte : (bs : Bytes) (i : ℕ) → all (λ b. ltb b 256) bs ≡ true → get_or bs i 0 < 256
get_or-IsByte [] i h = omega arith
get_or-IsByte (b ∷ bs) zero h = ground arith
get_or-IsByte (b ∷ bs) (suc i) h = get_or-IsByte bs i (ground arith)

pub pad-lt : (hashed : List ℕ) (previous : ℕ) → pad hashed previous < 256
unfolding pad
pad-lt hashed previous = get_or-IsByte shuffle _ shuffle-IsBytes

encrypt_loop-IsBytes :
    (hashed : List ℕ) (previous : ℕ) (clear : Bytes)
    → IsBytes clear
    → IsBytes (encrypt_loop hashed previous clear)
unfolding encrypt_loop
encrypt_loop-IsBytes hashed previous [] h = tt
encrypt_loop-IsBytes hashed previous (value ∷ rest) (h, hs) = (
  bit_xor-lt value (pad hashed previous) h (pad-lt hashed previous),
  encrypt_loop-IsBytes hashed (bit_xor value (pad hashed previous)) rest hs,
)

-- The four running bytes at the end of the key.
abbrev pub hash_of : Text → List ℕ
hash_of key = hash_loop (0 ∷ 0 ∷ 0 ∷ 0 ∷ []) key

pub encrypt_packet_ascii :
    (key : Text) (clear : Bytes)
    → is_ascii key ≡ true
    → encrypt_packet key clear ≡ ok (encrypt_loop (hash_of key) 0 clear)
unfolding encrypt_packet key_hash
encrypt_packet_ascii key clear h = rw h

pub decrypt_packet_ascii :
    (key : Text) (encrypted : Bytes)
    → is_ascii key ≡ true
    → decrypt_packet key encrypted ≡ ok (decrypt_loop (hash_of key) 0 encrypted)
unfolding decrypt_packet key_hash
decrypt_packet_ascii key encrypted h = rw h

-- Under an ASCII key, decrypting what was encrypted under that key gives the bytes back, and so does
-- encrypting what was decrypted; neither raises.
pub decrypt_packet-encrypt_packet :
    (key : Text) (bytes : Bytes)
    → is_ascii key ≡ true
    → ((encrypt_packet key bytes >>= decrypt_packet key) ≡ ok bytes)
      × ((decrypt_packet key bytes >>= encrypt_packet key) ≡ ok bytes)
decrypt_packet-encrypt_packet key bytes h = (
  rw (encrypt_packet_ascii key bytes h, decrypt_packet_ascii key _ h)
      (ap ok (decrypt_loop-encrypt_loop (hash_of key) 0 bytes)),
  rw (decrypt_packet_ascii key bytes h, encrypt_packet_ascii key _ h)
      (ap ok (encrypt_loop-decrypt_loop (hash_of key) 0 bytes)),
)

-- Under an ASCII key, a packet of bytes is encrypted to as many bytes, each below 256.
pub encrypt_packet-IsBytes :
    (key : Text) (clear : Bytes)
    → is_ascii key ≡ true
    → IsBytes clear
    → (encrypted : Bytes) × (encrypt_packet key clear ≡ ok encrypted)
      × (length encrypted ≡ length clear)
      × IsBytes encrypted
encrypt_packet-IsBytes key clear h bytes = (
  encrypt_loop (hash_of key) 0 clear,
  encrypt_packet_ascii key clear h,
  length-encrypt_loop (hash_of key) 0 clear,
  encrypt_loop-IsBytes (hash_of key) 0 clear bytes,
)
