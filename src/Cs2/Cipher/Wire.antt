-- ===== src/Cs2/Cipher/Wire.antt =====
-- A packet survives the wire envelopes, and the keys for which it does not.
use okam_ha_proxy.Prelude.{
  ℕ, ◌<◌, bit_xor, Bool, true, false, not, ◌||◌, List, [], ◌∷◌, ◌++◌, ◌≡◌, ◌≢◌, refl, ap, arith,
  Text, Bytes, All, length, take, to_bytes2, equal, ◌==◌, if◌then◌else◌, holds_below,
  holds_below-at,
}
use okam_ha_proxy.Prelude.Outcome.{Result, ok}
use okam_ha_proxy.Cs2.Cipher.{
  is_ascii, pad, encrypt_loop, encrypt_packet, encrypted_packet_types, dual_wire_packet_types,
  is_one_of, encode_wire_packets, clear_of, accepted, check_header, decode_datagram, frame,
}
use okam_ha_proxy.Cs2.Cipher.Laws.{
  hash_of, encrypt_packet_ascii, decrypt_packet_ascii, decrypt_loop-encrypt_loop, pad-lt,
}

module _ (key : Text) (kind : ℕ) (body : Bytes) (fits : length body < 65536) where
  check_header-frame : check_header (frame kind body) ≡ accepted (frame kind body)
  unfolding check_header
  check_header-frame = ground arith

  decode_datagram-frame : decode_datagram key (frame kind body) ≡ ok (accepted (frame kind body))
  unfolding decode_datagram clear_of
  decode_datagram-frame = ap ok check_header-frame

clash_table : holds_below (λ b. not (bit_xor 0xf1 b == 0xf1) || b == 0) 256 ≡ true
unfolding holds_below
clash_table = refl

no_clash : (b : ℕ) → b < 256 → b ≢ 0 → (bit_xor 0xf1 b == 0xf1) ≡ false
no_clash b h ne = ground (arith, holds_below-at _ 256 clash_table b h)

-- Whether a receiver takes a ciphertext under this key for a clear packet.
abbrev pub Clashes : Text → Type 0
Clashes key = pad (hash_of key) 0 ≡ 0

encrypt_loop_first :
    (hashed : List ℕ) (clear : Bytes)
    → pad hashed 0 ≢ 0
    → equal (take 1 (encrypt_loop hashed 0 (0xf1 ∷ clear))) (0xf1 ∷ []) ≡ false
unfolding encrypt_loop
encrypt_loop_first hashed clear ne = ground (arith, no_clash (pad hashed 0) (pad-lt hashed 0) ne)

encrypt_loop_clash :
    (hashed : List ℕ) (clear : Bytes)
    → pad hashed 0 ≡ 0
    → equal (take 1 (encrypt_loop hashed 0 (0xf1 ∷ clear))) (0xf1 ∷ []) ≡ true
unfolding encrypt_loop
encrypt_loop_clash hashed clear e = rw e

clear_of-encrypt_loop :
    (key : Text) (clear : Bytes)
    → is_ascii key ≡ true
    → ¬ (Clashes key)
    → clear_of key (encrypt_loop (hash_of key) 0 (0xf1 ∷ clear)) ≡ ok (0xf1 ∷ clear)
unfolding clear_of
clear_of-encrypt_loop key clear ascii ne =
    let back = decrypt_loop-encrypt_loop (hash_of key) 0 (0xf1 ∷ clear) in
    rw (encrypt_loop_first (hash_of key) clear ne)
      (rw (decrypt_packet_ascii key _ ascii) (ap ok back))

decode_sealed :
    (key : Text) (kind : ℕ) (body : Bytes)
    → is_ascii key ≡ true
    → ¬ (Clashes key)
    → length body < 65536
    → decode_datagram key (encrypt_loop (hash_of key) 0 (frame kind body))
      ≡ ok (accepted (frame kind body))
unfolding decode_datagram
decode_sealed key kind body ascii ne fits =
    rw (clear_of-encrypt_loop key (kind ∷ (to_bytes2 (length body) ++ body)) ascii ne)
      (ap ok (check_header-frame key kind body fits))

-- Under an ASCII key whose first pad byte is not 0, `_encode_wire_packets` of a packet with a fitting
-- header and a body below 65536 bytes yields one or two datagrams, and `_receive_clear` under the same
-- key makes that packet of each of them.
pub decode_datagram-encode_wire_packets :
    (key : Text) (kind : ℕ) (body : Bytes)
    → is_ascii key ≡ true
    → ¬ (Clashes key)
    → length body < 65536
    → (wire : List Bytes) × (encode_wire_packets key (frame kind body) ≡ ok wire)
      × (0 < length wire)
      × All (λ w. decode_datagram key w ≡ ok (accepted (frame kind body))) wire
unfolding encode_wire_packets
decode_datagram-encode_wire_packets key kind body ascii ne fits =
    rw (encrypt_packet_ascii key (frame kind body) ascii)
      (choose (is_one_of dual_wire_packet_types kinds) (is_one_of encrypted_packet_types kinds))
  where
    kinds : Bytes
    kinds = take 2 (frame kind body)

    sealed : Bytes
    sealed = encrypt_loop (hash_of key) 0 (frame kind body)

    plain_back : decode_datagram key (frame kind body) ≡ ok (accepted (frame kind body))
    plain_back = decode_datagram-frame key kind body fits

    sealed_back : decode_datagram key sealed ≡ ok (accepted (frame kind body))
    sealed_back = decode_sealed key kind body ascii ne fits

    choose :
        (dual encrypted : Bool)
        → (wire : List Bytes) × (◌≡◌ {A = Result (List Bytes)}
            (ok (
              if dual
              then frame kind body ∷ sealed ∷ []
              else if encrypted
              then sealed ∷ []
              else frame kind body ∷ []))
            (ok wire))
          × (0 < length wire)
          × All (λ w. decode_datagram key w ≡ ok (accepted (frame kind body))) wire
    choose true encrypted =
        (frame kind body ∷ sealed ∷ [], refl, omega arith, (plain_back, (sealed_back, tt)))
    choose false true = (sealed ∷ [], refl, omega arith, (sealed_back, tt))
    choose false false = (frame kind body ∷ [], refl, omega arith, (plain_back, tt))

-- Under an ASCII key whose first pad byte is 0, the encrypted form of every packet is taken for a
-- clear one: `_receive_clear` goes on with the ciphertext, for whatever the packet holds.
pub clear_of-encrypt_packet_clash :
    (key : Text) (kind : ℕ) (body : Bytes)
    → is_ascii key ≡ true
    → Clashes key
    → (encrypted : Bytes) × (encrypt_packet key (frame kind body) ≡ ok encrypted)
      × (clear_of key encrypted ≡ ok encrypted)
unfolding clear_of
clear_of-encrypt_packet_clash key kind body ascii clash = (
  encrypt_loop (hash_of key) 0 (frame kind body),
  encrypt_packet_ascii key (frame kind body) ascii,
  rw (encrypt_loop_clash (hash_of key) (kind ∷ (to_bytes2 (length body) ++ body)) clash),
)
