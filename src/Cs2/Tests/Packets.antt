-- ===== src/Cs2/Tests/Packets.antt =====
-- Instances of the theorems on the cipher, the addresses and the chunks.
use okam_ha_proxy.Prelude.{
  ◌<◌, ◌≤◌, List, [], ◌∷◌, ◌++◌, ◌≡◌, refl, arith, Bytes, IsBytes, All, codes, concat, length,
  slice, take, replicate, from_bytes, some,
}
use okam_ha_proxy.Prelude.Outcome.{ok, ◌>>=◌}
use okam_ha_proxy.Cs2.Address.{
  Endpoint, encode_network_address, decode_network_address, decode_relay_list,
  make_relay_request_from_ack, make_relay_request,
}
use okam_ha_proxy.Cs2.Address.RoundTrip.{
  decode_network_address-encode_network_address, encode_network_address-decode_network_address,
}
use okam_ha_proxy.Cs2.Address.Relay.{
  decoded_set, decode_relay_list-entries, length-decode_relay_list,
  make_relay_request_from_ack-check_header,
}
use okam_ha_proxy.Cs2.Cipher.{
  accepted, check_header, clear_of, decode_datagram, encode_wire_packets, encrypt_packet,
  decrypt_packet, frame, hash_loop, pad, shuffle,
}
use okam_ha_proxy.Cs2.Cipher.Laws.{decrypt_packet-encrypt_packet, encrypt_packet-IsBytes}
use okam_ha_proxy.Cs2.Cipher.Wire.{
  Clashes, decode_datagram-encode_wire_packets, clear_of-encrypt_packet_clash,
}
use okam_ha_proxy.Cs2.Transfer.{chunks}
use okam_ha_proxy.Cs2.Transfer.Chunks.{IsChunk, concat-chunks}
use okam_ha_proxy.Cs2.Examples.{device, plain_inet}

decrypt_packet-encrypt_packet_example :
    ((encrypt_packet (codes "abc") (1 ∷ 2 ∷ 3 ∷ []) >>= decrypt_packet (codes "abc"))
      ≡ ok (1 ∷ 2 ∷ 3 ∷ []))
    × ((decrypt_packet (codes "abc") (1 ∷ 2 ∷ 3 ∷ []) >>= encrypt_packet (codes "abc"))
        ≡ ok (1 ∷ 2 ∷ 3 ∷ []))
decrypt_packet-encrypt_packet_example =
    decrypt_packet-encrypt_packet (codes "abc") (1 ∷ 2 ∷ 3 ∷ []) refl

encrypt_packet-IsBytes_instance :
    (encrypted : Bytes) × (encrypt_packet (codes "abc") (1 ∷ 2 ∷ 3 ∷ []) ≡ ok encrypted)
    × (length encrypted ≡ 3)
    × IsBytes encrypted
encrypt_packet-IsBytes_instance =
    encrypt_packet-IsBytes (codes "abc") (1 ∷ 2 ∷ 3 ∷ []) refl (omega arith)

no_clash_abc : ¬ (Clashes (codes "abc"))
unfolding pad hash_loop shuffle
no_clash_abc e = omega arith

decode_datagram-encode_wire_packets_example :
    (wire : List Bytes) × (encode_wire_packets (codes "abc") (frame 0x41 device) ≡ ok wire)
    × (0 < length wire)
    × All (λ w. decode_datagram (codes "abc") w ≡ ok (accepted (frame 0x41 device))) wire
decode_datagram-encode_wire_packets_example =
    decode_datagram-encode_wire_packets (codes "abc") 0x41 device refl no_clash_abc (omega arith)

-- The key of one character whose first pad byte is 0: `_SHUFFLE[27]` is 0.
clash_example : Clashes (27 ∷ [])
unfolding pad hash_loop shuffle
clash_example = refl

clear_of-encrypt_packet_clash_example :
    (encrypted : Bytes) × (encrypt_packet (27 ∷ []) (frame 0xe0 []) ≡ ok encrypted)
    × (clear_of (27 ∷ []) encrypted ≡ ok encrypted)
clear_of-encrypt_packet_clash_example =
    clear_of-encrypt_packet_clash (27 ∷ []) 0xe0 [] refl clash_example

decode_network_address-encode_network_address_example :
    (encode_network_address plain_inet (192 ∷ 0 ∷ 2 ∷ 7 ∷ []) 32108
      >>= decode_network_address plain_inet)
    ≡ ok (192 ∷ 0 ∷ 2 ∷ 7 ∷ [], 32108)
decode_network_address-encode_network_address_example =
    decode_network_address-encode_network_address plain_inet 192 0 2 7 32108 (omega arith) (λ e. cc)
      (omega arith) (omega arith)

abbrev packed_address : Bytes
packed_address = 0 ∷ 2 ∷ 108 ∷ 125 ∷ 7 ∷ 2 ∷ 0 ∷ 192 ∷ replicate 8 9

packed_address_decodes :
    decode_network_address plain_inet packed_address ≡ ok (192 ∷ 0 ∷ 2 ∷ 7 ∷ [], 32108)
unfolding decode_network_address
packed_address_decodes = refl

encode_network_address-decode_network_address_example :
    encode_network_address plain_inet (192 ∷ 0 ∷ 2 ∷ 7 ∷ []) 32108
    ≡ ok (take 8 packed_address ++ replicate 8 0)
encode_network_address-decode_network_address_example =
    encode_network_address-decode_network_address plain_inet packed_address (192 ∷ 0 ∷ 2 ∷ 7 ∷ [])
      32108 (omega arith) packed_address_decodes

decode_relay_list-entries_instance :
    decode_relay_list plain_inet
      (0xf1 ∷ 0x69 ∷ 0 ∷ 20 ∷ 1 ∷ 0 ∷ 0 ∷ 0 ∷ concat (packed_address ∷ []))
    ≡ decoded_set plain_inet (packed_address ∷ []) []
decode_relay_list-entries_instance =
    decode_relay_list-entries plain_inet (packed_address ∷ []) 0 20 0 0 0 (refl, tt) (omega arith)

length-decode_relay_list_instance :
    length (decode_relay_list plain_inet (0xf1 ∷ 0x69 ∷ 0 ∷ 20 ∷ 1 ∷ 0 ∷ 0 ∷ 0 ∷ packed_address))
    ≤ 32
length-decode_relay_list_instance =
    length-decode_relay_list plain_inet (0xf1 ∷ 0x69 ∷ 0 ∷ 20 ∷ 1 ∷ 0 ∷ 0 ∷ 0 ∷ packed_address)

abbrev relay : Endpoint
relay = (192 ∷ 0 ∷ 2 ∷ 7 ∷ [], 9000)

abbrev relay_ack : Bytes
relay_ack = 0xf1 ∷ 0x73 ∷ 0 ∷ 8 ∷ 1 ∷ 2 ∷ 3 ∷ 4 ∷ 35 ∷ 40 ∷ 0 ∷ 0 ∷ []

abbrev relay_request : Bytes
relay_request =
    make_relay_request device (0 ∷ 2 ∷ 40 ∷ 35 ∷ 7 ∷ 2 ∷ 0 ∷ 192 ∷ replicate 8 0) 0x01020304

relay_ack_answered :
    make_relay_request_from_ack plain_inet device relay relay_ack ≡ some relay_request
unfolding make_relay_request_from_ack encode_network_address
relay_ack_answered = refl

make_relay_request_from_ack-check_header_instance :
    (check_header relay_request ≡ accepted relay_request)
    × (slice 4 24 relay_request ≡ device)
    × (encode_network_address plain_inet (192 ∷ 0 ∷ 2 ∷ 7 ∷ []) (from_bytes (slice 8 10 relay_ack))
        ≡ ok (slice 24 40 relay_request))
    × (slice 40 44 relay_request ≡ slice 4 8 relay_ack)
make_relay_request_from_ack-check_header_instance =
    make_relay_request_from_ack-check_header plain_inet device relay relay_ack relay_request refl
      (omega arith) relay_ack_answered

concat-chunks_instance :
    (concat (chunks (codes "abc")) ≡ codes "abc") × All IsChunk (chunks (codes "abc"))
concat-chunks_instance = concat-chunks (codes "abc")
