-- ===== src/Cs2/Address/Relay.antt =====
-- The packets of the relay negotiation.
use mathlib.Core.List.{reverse}
use okam_ha_proxy.Prelude.{
  concat, ℕ, zero, suc, ◌+◌, ◌*◌, ◌≤◌, true, false, ◌≡◌, refl, ap, sym, ◌∙◌, append_assoc, List, [],
  ◌∷◌, ◌++◌, some, arith, Text, Bytes, IsBytes, length, length-append, length-reverse, length-take,
  length-drop, to_bytes4-from_bytes, All-take, All-drop, IsByte, take, drop, slice, replicate,
  from_bytes, to_bytes4, All, Option-cases, inl, inr, ◌==◌, ==_self, ltb, get_or, take-append,
  drop-append,
}
use okam_ha_proxy.Prelude.Outcome.{Result, ok, err}
use okam_ha_proxy.Inet.{Inet}
use okam_ha_proxy.Cs2.Cipher.{check_header, accepted}
use okam_ha_proxy.Cs2.Address.{
  Endpoint, add, add_decoded, encode_network_address, decode_network_address, request_of,
  relay_list_loop, decode_relay_list, make_relay_request, make_relay_request_from_ack,
}

length-add :
    (endpoint : Endpoint) (found : List Endpoint) → length (add endpoint found) ≤ length found + 1
length-add endpoint found = ground (arith, length-append found (endpoint ∷ []))

length-add_decoded :
    (r : Result Endpoint) (found : List Endpoint) → length (add_decoded r found) ≤ length found + 1
length-add_decoded (ok endpoint) found = length-add endpoint found
length-add_decoded (err _) found = omega arith

-- The set of the endpoints that the entries decode to, in the order of their first appearance.
abbrev pub decoded_set : Inet → List Bytes → List Endpoint → List Endpoint
decoded_set inet [] found = found
decoded_set inet (entry ∷ entries) found =
    decoded_set inet entries (add_decoded (decode_network_address inet entry) found)

request_of-some :
    (uid : Bytes) (token : ℕ) (answer : Result Bytes) {request : Bytes}
    → request_of uid token answer ≡ some request
    → (address : Bytes) × (answer ≡ ok address) × (request ≡ make_relay_request uid address token)
request_of-some uid token (ok address) h = (address, refl, cc)
request_of-some uid token (err _) h = cc

module _ (uid address : Bytes) (token : ℕ) (twenty : length uid ≡ 20)
    (sixteen : length address ≡ 16) where
  -- The constant length field of the header agrees with the parts.
  pub check_header-make_relay_request :
      check_header (make_relay_request uid address token)
      ≡ accepted (make_relay_request uid address token)
  unfolding check_header make_relay_request
  check_header-make_relay_request = ground (
    arith,
    length-append uid (address ++ to_bytes4 token),
    length-append address (to_bytes4 token),
  )

  slice-make_relay_request :
      (slice 4 24 (make_relay_request uid address token) ≡ uid)
      × (slice 24 40 (make_relay_request uid address token) ≡ address)
      × (slice 40 44 (make_relay_request uid address token) ≡ to_bytes4 token)
  unfolding make_relay_request
  slice-make_relay_request = (
    take-append uid (address ++ to_bytes4 token) 20 (omega arith),
    rw (drop-append uid (address ++ to_bytes4 token) 20 (omega arith))
        (take-append address (to_bytes4 token) 16 (omega arith)),
    rw (← append_assoc uid address (to_bytes4 token)) (
        rw (
          drop-append (uid ++ address) (to_bytes4 token) 36
            (omega (arith, length-append uid address)))),
  )

module _ (inet : Inet) where
  relay_list_loop-concat :
      (entries : List Bytes) (found : List Endpoint)
      → All (λ entry. length entry ≡ 16) entries
      → relay_list_loop inet (length entries) (concat entries) found
        ≡ decoded_set inet entries found
  unfolding relay_list_loop
  relay_list_loop-concat [] found h = refl
  relay_list_loop-concat (entry ∷ entries) found (h, hs) =
      rw
        (
          relay_list_loop,
          take-append entry (concat entries) 16 (omega arith),
          drop-append entry (concat entries) 16 (omega arith),
        )
        (relay_list_loop-concat entries _ hs)

  length-concat :
      (entries : List Bytes)
      → All (λ entry. length entry ≡ 16) entries
      → length (concat entries) ≡ length entries * 16
  length-concat [] h = refl
  length-concat (entry ∷ entries) (h, hs) =
      omega (arith, length-append entry (concat entries), length-concat entries hs)

  -- A relay list packet with up to 32 entries of 16 bytes is read as the set of the endpoints that its
  -- entries decode to, in order; entries that do not decode are skipped. The four header bytes behind
  -- the kind and the three behind the count do not matter.
  pub decode_relay_list-entries :
      (entries : List Bytes) (high low r s t : ℕ)
      → All (λ entry. length entry ≡ 16) entries
      → length entries ≤ 32
      → decode_relay_list inet
          (0xf1 ∷ 0x69 ∷ high ∷ low ∷ length entries ∷ r ∷ s ∷ t ∷ concat entries)
        ≡ decoded_set inet entries []
  unfolding decode_relay_list
  decode_relay_list-entries entries high low r s t sizes few =
      let n = length entries in
      let rest = concat entries in
      let size = length (0xf1 ∷ 0x69 ∷ high ∷ low ∷ n ∷ r ∷ s ∷ t ∷ rest) in
      let total : size ≡ 8 + n * 16 = omega (arith, length-concat entries sizes) in
      let long : ltb size 8 ≡ false = ground arith in
      let within : ltb 32 n ≡ false = ground arith in
      let exact : (size == 8 + n * 16) ≡ true = rw total (==_self (8 + n * 16)) in
      rw (long, within, exact) (relay_list_loop-concat entries [] sizes)

  length-relay_list_loop :
      (count : ℕ) (rest : Bytes) (found : List Endpoint)
      → length (relay_list_loop inet count rest found) ≤ length found + count
  unfolding relay_list_loop
  length-relay_list_loop zero rest found = omega arith
  length-relay_list_loop (suc count) rest found =
      let decoded = decode_network_address inet (take 16 rest) in
      omega (
        arith,
        length-add_decoded decoded found,
        length-relay_list_loop count (drop 16 rest) (add_decoded decoded found),
      )

  -- Whatever arrives, at most 32 relays are learnt from one packet.
  pub length-decode_relay_list : (packet : Bytes) → length (decode_relay_list inet packet) ≤ 32
  unfolding decode_relay_list
  length-decode_relay_list packet =
      ground (arith, length-relay_list_loop (get_or packet 4 0) (drop 8 packet) [])

  length-encode_network_address :
      (host : Text) (port : ℕ) (address : Bytes)
      → encode_network_address inet host port ≡ ok address
      → length address ≡ 16
  unfolding encode_network_address
  length-encode_network_address host port address h = elim (Option-cases (inet.aton host)) [
    | inl missing ↦ absurd (ground arith)
    | inr (packed, found) ↦
        let four = inet.length-aton host packed found in
        ground (arith, length-append (reverse packed) (replicate 8 0), length-reverse packed)
  ]

  request_fields :
      (uid : Bytes) (relay_endpoint : Endpoint) (packet request : Bytes)
      → make_relay_request_from_ack inet uid relay_endpoint packet ≡ some request
      → (address : Bytes) × (encode_network_address inet relay_endpoint.0
            (from_bytes (slice 8 10 packet))
          ≡ ok address)
        × (request ≡ make_relay_request uid address (from_bytes (slice 4 8 packet)))
        × (length packet ≡ 12)
  unfolding make_relay_request_from_ack
  request_fields uid relay_endpoint packet request h =
      let answer = encode_network_address inet relay_endpoint.0 (from_bytes (slice 8 10 packet)) in
      let given : request_of uid (from_bytes (slice 4 8 packet)) answer ≡ some request =
        ground arith in
      let (address, found, is) = request_of-some uid (from_bytes (slice 4 8 packet)) answer given in
      (address, found, is, ground arith)

  -- If an F1 73 acknowledgement of bytes yields a relay request for a 20-byte device identifier, then
  -- that request passes the receiver's header checks, carries the identifier, the encoded address of
  -- the relay's host with the allocated port, and the four token bytes of the acknowledgement.
  pub make_relay_request_from_ack-check_header :
      (uid : Bytes) (relay_endpoint : Endpoint) (packet request : Bytes)
      → length uid ≡ 20
      → IsBytes packet
      → make_relay_request_from_ack inet uid relay_endpoint packet ≡ some request
      → (check_header request ≡ accepted request)
        × (slice 4 24 request ≡ uid)
        × (encode_network_address inet relay_endpoint.0 (from_bytes (slice 8 10 packet))
            ≡ ok (slice 24 40 request))
        × (slice 40 44 request ≡ slice 4 8 packet)
  make_relay_request_from_ack-check_header uid relay_endpoint packet request size bytes h =
      let (address, encoded, is, twelve) = request_fields uid relay_endpoint packet request h in
      let sixteen = length-encode_network_address _ _ address encoded in
      let token = slice 4 8 packet in
      let four : length token ≡ 4 =
        omega (arith, length-take 4 (drop 4 packet), length-drop 4 packet) in
      let same =
        to_bytes4-from_bytes token four (All-take IsByte 4 _ (All-drop IsByte 4 packet bytes)) in
      let (its_uid, its_address, its_token) =
        slice-make_relay_request uid address (from_bytes token) size sixteen in
      rw is (
        check_header-make_relay_request uid address (from_bytes token) size sixteen,
        its_uid,
        encoded ∙ ap ok (sym its_address),
        its_token ∙ same,
      )
