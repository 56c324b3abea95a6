-- ===== src/Cs2/Address.antt =====
-- Endpoints and the packets of the rendezvous in src/okam_native/cs2.py: `encode_network_address`,
-- `decode_network_address`, `_decode_relay_list`, `_make_relay_request`, `_make_relay_punch` and
-- `_make_relay_request_from_ack`.
pub mod RoundTrip
pub mod Relay
use okam_ha_proxy.Prelude.{
  ℕ, zero, suc, ◌+◌, ◌-◌, ◌*◌, Bool, not, ◌&&◌, ◌||◌, List, [], ◌∷◌, ◌++◌, Option, none, some, Text,
  Bytes, codes, equal, length, take, drop, slice, get_or, any, replicate, to_bytes2_little,
  to_bytes4, from_bytes, from_bytes_little, ltb, leb, ◌==◌, if◌then◌else◌,
}
use mathlib.Core.List.{reverse}
use okam_ha_proxy.Prelude.Outcome.{
  Result, ok, err, local_port_invalid, local_address_invalid, remote_address_invalid, ◌>>=◌,
}
use okam_ha_proxy.Inet.{Inet}

-- A socket address: host text and port.
abbrev pub Endpoint : Type 0
Endpoint = Text × ℕ

abbrev pub endpoint_eq : Endpoint → Endpoint → Bool
endpoint_eq a b = equal a.0 b.0 && a.1 == b.1

-- `socket.inet_aton` under a handler for OSError
abbrev pub or_raise : Option Bytes → Result Bytes
or_raise none = err local_address_invalid
or_raise (some address) = ok address

-- `set.add`
abbrev pub add : Endpoint → List Endpoint → List Endpoint
add endpoint found = if any (endpoint_eq endpoint) found then found else found ++ endpoint ∷ []

-- One round of the loop of `_decode_relay_list`; an entry that does not decode is skipped.
abbrev pub add_decoded : Result Endpoint → List Endpoint → List Endpoint
add_decoded (ok endpoint) found = add endpoint found
add_decoded (err _) found = found

unfoldable pub make_relay_request : Bytes → Bytes → ℕ → Bytes
make_relay_request uid local_address token =
    (0xf1 ∷ 0x80 ∷ 0x00 ∷ 0x28 ∷ []) ++ (uid ++ (local_address ++ to_bytes4 token))

unfoldable pub make_relay_punch : Bytes → ℕ → Bytes
make_relay_punch uid token =
    (0xf1 ∷ 0x83 ∷ 0x00 ∷ 0x1c ∷ []) ++ (to_bytes4 token ++ (uid ++ (0 ∷ 0 ∷ 0 ∷ 0 ∷ [])))

abbrev pub request_of : Bytes → ℕ → Result Bytes → Option Bytes
request_of uid token (ok allocated_address) = some (make_relay_request uid allocated_address token)
request_of uid token (err _) = none

module _ (inet : Inet) where
  unfoldable pub encode_network_address : Text → ℕ → Result Bytes
  encode_network_address host port =
      if not (ltb 0 port && leb port 65535) then err local_port_invalid else do
        address ← or_raise (inet.aton host)
        ok ((0x00 ∷ 0x02 ∷ []) ++ (to_bytes2_little port ++ (reverse address ++ replicate 8 0)))

  -- The slice `payload[4:8]` has four bytes, so `inet_ntoa` does not raise.
  unfoldable pub decode_network_address : Bytes → Result Endpoint
  decode_network_address payload =
      if ltb (length payload) 16 || not (equal (take 2 payload) (0x00 ∷ 0x02 ∷ []))
      then err remote_address_invalid
      else let port = from_bytes_little (slice 2 4 payload) in
        let host = inet.ntoa (reverse (slice 4 8 payload)) in
        if port == 0 || equal host (codes "0.0.0.0")
        then err remote_address_invalid
        else ok (host, port)

  -- The loop of `_decode_relay_list` over `count` entries of 16 bytes.
  unfoldable pub relay_list_loop : ℕ → Bytes → List Endpoint → List Endpoint
  relay_list_loop zero rest found = found
  relay_list_loop (suc count) rest found =
      relay_list_loop count (drop 16 rest)
        (add_decoded (decode_network_address (take 16 rest)) found)

  unfoldable pub decode_relay_list : Bytes → List Endpoint
  unfolding relay_list_loop
  decode_relay_list packet =
      if ltb (length packet) 8 || not (equal (take 2 packet) (0xf1 ∷ 0x69 ∷ []))
      then []
      else let count = get_or packet 4 0 in
        if ltb 32 count || not (length packet == 8 + count * 16)
        then []
        else relay_list_loop count (drop 8 packet) []

  unfoldable pub make_relay_request_from_ack : Bytes → Endpoint → Bytes → Option Bytes
  unfolding make_relay_request
  make_relay_request_from_ack uid relay_endpoint packet =
      if not (length packet == 12) || not (equal (take 2 packet) (0xf1 ∷ 0x73 ∷ []))
      then none
      else let token = from_bytes (slice 4 8 packet) in
        let allocated_port = from_bytes (slice 8 10 packet) in
        request_of uid token (encode_network_address relay_endpoint.0 allocated_port)
