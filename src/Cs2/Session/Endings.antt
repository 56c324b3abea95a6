-- ===== src/Cs2/Session/Endings.antt =====
-- A round of a session comes to an end: none of its actions runs out of rounds.
use okam_ha_proxy.Prelude.{
  false, List, [], ◌∷◌, ◌≡◌, refl, Text, Bytes, Option, some, none, ℕ, Bool-cases, inl, inr, arith,
}
use okam_ha_proxy.Prelude.Exec.Ends.{Ends, ends_rules, ran_out, bind-Ends}
use okam_ha_proxy.Cs2.Address.{Endpoint}
use okam_ha_proxy.Cs2.Cipher.{
  Received, accepted, undecodable, length_mismatch, is_ascii, key_hash, encrypt_packet,
  decrypt_packet, encode_wire_packets, clear_of, decode_datagram,
}
use okam_ha_proxy.Cs2.World.{World, Receipt, datagram, timed_out, os_error}
use okam_ha_proxy.Cs2.State.{
  SocketState, unopened, opened, shut, Pending, PendingKey, send_clear, send_all, sendto,
  require_socket, now, receipt_of, receive_from, receive_clear, take_received, take_receipt,
}
use okam_ha_proxy.Cs2.Session.{
  assert_peer, take_data, handle_data, retransmit_one, retransmit_loop, retransmit_to, retransmit,
  dispatch, from_source, pump_received, pump,
}

encode_wire_packets-ends :
    (key : Text) (packet : Bytes) → ran_out (encode_wire_packets key packet) ≡ false
unfolding encode_wire_packets encrypt_packet key_hash
encode_wire_packets-ends key packet = elim (Bool-cases (is_ascii key)) [
  | inl ascii ↦ rw ascii
  | inr other ↦ rw other
]

decode_datagram-ends : (key : Text) (packet : Bytes) → ran_out (decode_datagram key packet) ≡ false
unfolding decode_datagram clear_of decrypt_packet key_hash
decode_datagram-ends key packet = ground arith

module _ (world : World) where
  pub assert_peer-Ends : (peer : Option Endpoint) → Ends (assert_peer peer)
  assert_peer-Ends none = search ends_rules
  assert_peer-Ends (some peer) = search ends_rules

  sendto-Ends : (packet : Bytes) (address : Endpoint) → Ends (sendto world packet address)
  unfolding sendto
  sendto-Ends packet address = record { ends = λ s. ground arith }

  send_all-Ends :
      (packets : List Bytes) (address : Endpoint) → Ends (send_all world packets address)
  unfolding send_all
  send_all-Ends [] address = search ends_rules
  send_all-Ends (packet ∷ rest) address =
      bind-Ends _ _ (sendto-Ends packet address) (λ _. send_all-Ends rest address)

  require_socket-Ends : (socket : SocketState) → Ends (require_socket world socket)
  require_socket-Ends unopened = search ends_rules
  require_socket-Ends opened = search ends_rules
  require_socket-Ends shut = search ends_rules

  pub send_clear-Ends :
      (packet : Bytes) (address : Endpoint) → Ends (send_clear world packet address)
  unfolding send_clear
  send_clear-Ends packet address =
      search (ends_rules, require_socket-Ends, encode_wire_packets-ends, send_all-Ends) depth 12

  ruleset round_rules = (ends_rules, assert_peer-Ends, send_clear-Ends)

  take_data-Ends : (body : Bytes) → Ends (take_data world body)
  unfolding take_data
  take_data-Ends body = search round_rules depth 12

  handle_data-Ends : (packet : Bytes) → Ends (handle_data world packet)
  unfolding handle_data
  handle_data-Ends packet = search (round_rules, take_data-Ends)

  retransmit_one-Ends :
      (time : ℕ) (peer : Endpoint) (key : PendingKey) (value : Pending)
      → Ends (retransmit_one world time peer key value)
  unfolding retransmit_one
  retransmit_one-Ends time peer key value = search round_rules depth 12

  retransmit_loop-Ends :
      (time : ℕ) (peer : Endpoint) (entries : List (PendingKey × Pending))
      → Ends (retransmit_loop world time peer entries)
  unfolding retransmit_loop
  retransmit_loop-Ends time peer [] = search ends_rules
  retransmit_loop-Ends time peer ((key, value) ∷ rest) =
      bind-Ends _ _ (retransmit_one-Ends time peer key value)
        (λ _. retransmit_loop-Ends time peer rest)

  pub now-Ends : Ends (now world)
  now-Ends = record { ends = λ s. refl }

  retransmit_to-Ends : (peer : Option Endpoint) → Ends (retransmit_to world peer)
  retransmit_to-Ends none = search ends_rules
  retransmit_to-Ends (some peer) = search (ends_rules, now-Ends, retransmit_loop-Ends) depth 8

  retransmit-Ends : Ends (retransmit world)
  unfolding retransmit
  retransmit-Ends = record { ends = λ s. (retransmit_to-Ends s.peer).ends s }

  take_received-Ends :
      (received : Received) (address : Endpoint) → Ends (take_received world received address)
  unfolding take_received
  take_received-Ends (accepted clear) address = search ends_rules
  take_received-Ends undecodable address = search ends_rules depth 8
  take_received-Ends length_mismatch address = search ends_rules depth 8

  take_receipt-Ends : (receipt : Receipt) → Ends (take_receipt world receipt)
  unfolding take_receipt
  take_receipt-Ends (datagram encrypted address) =
      search (ends_rules, decode_datagram-ends, take_received-Ends) depth 12
  take_receipt-Ends timed_out = search ends_rules
  take_receipt-Ends os_error = search ends_rules

  receive_from-Ends : (socket : SocketState) → Ends (receive_from world socket)
  receive_from-Ends unopened = record { ends = λ s. refl }
  receive_from-Ends socket = record {
    ends = λ s. (take_receipt-Ends (receipt_of world socket s.receives)).ends _;
  }

  pub receive_clear-Ends : Ends (receive_clear world)
  unfolding receive_clear
  receive_clear-Ends = record { ends = λ s. (receive_from-Ends s.socket).ends s }

  dispatch-Ends : (packet : Bytes) (address : Endpoint) → Ends (dispatch world packet address)
  unfolding dispatch
  dispatch-Ends packet address = search (round_rules, handle_data-Ends) depth 16

  from_source-Ends :
      (peer : Option Endpoint) (packet : Bytes) (address : Endpoint)
      → Ends (from_source world peer packet address)
  unfolding from_source
  from_source-Ends none packet address = search ends_rules
  from_source-Ends (some peer) packet address = search (ends_rules, dispatch-Ends) depth 8

  pump_received-Ends : (received : Option (Bytes × Endpoint)) → Ends (pump_received world received)
  unfolding pump_received
  pump_received-Ends none = search ends_rules
  pump_received-Ends (some (packet, address)) = search (ends_rules, from_source-Ends) depth 8

  pub pump-Ends : Ends (pump world)
  unfolding pump
  pump-Ends = search (ends_rules, retransmit-Ends, receive_clear-Ends, pump_received-Ends)
