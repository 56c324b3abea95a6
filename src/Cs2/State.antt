-- ===== src/Cs2/State.antt =====
-- The fields of `CS2Session` in src/okam_native/cs2.py, its counters, and sending and receiving.
use okam_ha_proxy.Prelude.{
  ℕ, ◌+◌, Bool, true, false, ◌||◌, List, [], ◌∷◌, ◌++◌, Option, none, some, Text, Bytes, equal, ltb,
  length, any, if◌then◌else◌,
}
use okam_ha_proxy.Prelude.Outcome.{
  ok, err, socket_unavailable, send_failed, receive_failed, not_connected,
}
use okam_ha_proxy.Prelude.Exec.{Exec, pure, raise, lift, gets, modify, ◌>>=◌, ◌>>◌}
use okam_ha_proxy.Cs2.Address.{Endpoint}
use okam_ha_proxy.Cs2.Channel.{Channel}
use okam_ha_proxy.Cs2.Cipher.{
  encode_wire_packets, decode_datagram, Received, accepted, undecodable, length_mismatch,
}
use okam_ha_proxy.Cs2.World.{World, Receipt, datagram, timed_out, os_error}

-- The names of the counters. The last five stand for the names that the source builds from a packet
-- kind, a length or a command number.
pub data CounterName : Type 0 where
  packets_received packets_undecodable packets_length_mismatch pump_packets : CounterName
  packets_from_other_source peer_port_drift alive_requests punch_repeats : CounterName
  readiness_requests ack_packets data_packets close_packets other_packets : CounterName
  data_packets_invalid retransmits declined_readiness : CounterName
  channel_packets channel_bytes command_kind : ℕ → CounterName
  connect_kind other_kind : Bytes → CounterName
  connect_length : Bytes → ℕ → CounterName

-- Different names have different codes.
abbrev pub name_code : CounterName → List ℕ
name_code packets_received = 0 ∷ []
name_code packets_undecodable = 1 ∷ []
name_code packets_length_mismatch = 2 ∷ []
name_code pump_packets = 3 ∷ []
name_code packets_from_other_source = 4 ∷ []
name_code peer_port_drift = 5 ∷ []
name_code alive_requests = 6 ∷ []
name_code punch_repeats = 7 ∷ []
name_code readiness_requests = 8 ∷ []
name_code ack_packets = 9 ∷ []
name_code data_packets = 10 ∷ []
name_code close_packets = 11 ∷ []
name_code other_packets = 12 ∷ []
name_code data_packets_invalid = 13 ∷ []
name_code retransmits = 14 ∷ []
name_code declined_readiness = 15 ∷ []
name_code (channel_packets c) = 16 ∷ c ∷ []
name_code (channel_bytes c) = 17 ∷ c ∷ []
name_code (command_kind c) = 18 ∷ c ∷ []
name_code (connect_kind kind) = 19 ∷ kind
name_code (other_kind kind) = 20 ∷ kind
name_code (connect_length kind n) = 21 ∷ n ∷ kind

abbrev pub same_name : CounterName → CounterName → Bool
same_name a b = equal (name_code a) (name_code b)

abbrev pub Counters : Type 0
Counters = List (CounterName × ℕ)

-- `counters[name] = counters.get(name, 0) + amount`
unfoldable pub add_to : CounterName → ℕ → Counters → Counters
add_to name amount [] = (name, amount) ∷ []
add_to name amount ((other, n) ∷ rest) =
    if same_name other name
    then (other, n + amount) ∷ rest
    else (other, n) ∷ add_to name amount rest

unfoldable pub has_name : CounterName → Counters → Bool
has_name name counters = any (λ entry. same_name entry.0 name) counters

-- `MAX_COUNTER_KEYS`
abbrev pub max_counter_keys : ℕ
max_counter_keys = 48

-- `_count_kind`, on the counters
unfoldable pub add_kind : CounterName → Counters → Counters
unfolding has_name
add_kind name counters =
    if has_name name counters || ltb (length counters) max_counter_keys
    then add_to name 1 counters
    else counters

-- `[packet, sent_at, attempts]`
pub record Pending : Type 0 where
  pub packet : Bytes
  pub sent_at : ℕ
  pub attempts : ℕ

abbrev pub PendingKey : Type 0
PendingKey = ℕ × ℕ

-- `self._socket`: None, an open socket, or one that was closed.
pub data SocketState : Type 0 where
  unopened opened shut : SocketState

-- The last four fields record what passed between the session and the world: the datagrams sent, and
-- the numbers of the calls of `sendto`, `recvfrom` and `monotonic`.
pub record Session : Type 0 where
  pub uid : Bytes
  pub servers : List Text
  pub key : Text
  pub prefer_relay : Bool
  pub socket : SocketState
  pub peer : Option Endpoint
  pub outgoing_sequence : List ℕ
  pub incoming : List Channel
  pub pending : List (PendingKey × Pending)
  pub closed : Bool
  pub counters : Counters
  pub close_targets : List Endpoint
  pub connect_path : Text
  pub wire : List (Bytes × Endpoint)
  pub sends : ℕ
  pub receives : ℕ
  pub clock_reads : ℕ

abbrev pub Action : Type 0 → Type 0
Action A = Exec Session A

abbrev pub count : CounterName → ℕ → Action (Unit {0})
count name amount = modify (λ s. record s { counters = add_to name amount s.counters })

abbrev pub count_kind : CounterName → Action (Unit {0})
count_kind name = modify (λ s. record s { counters = add_kind name s.counters })

abbrev pub is_peer_set : Option Endpoint → Bool
is_peer_set none = false
is_peer_set (some _) = true

-- `connected`
abbrev pub connected : Session → Bool
connected s = if s.closed then false else is_peer_set s.peer

abbrev pub require_connected : Action (Unit {0})
require_connected s = if connected s then (ok tt, s) else (err not_connected, s)

module _ (world : World) where
  -- `time.monotonic()`
  abbrev pub now : Action ℕ
  now s = (ok (world.monotonic s.clock_reads), record s { clock_reads = s.clock_reads + 1 })

  -- `self._socket.sendto`; a closed socket raises OSError.
  abbrev pub is_refused : SocketState → ℕ → Bytes → Endpoint → Bool
  is_refused opened n wire_packet address = world.refuses n wire_packet address
  is_refused _ n wire_packet address = true

  unfoldable pub sendto : Bytes → Endpoint → Action (Unit {0})
  sendto wire_packet address s =
      if is_refused s.socket s.sends wire_packet address
      then (err send_failed, record s { sends = s.sends + 1 })
      else (ok tt, record s { sends = s.sends + 1; wire = s.wire ++ (wire_packet, address) ∷ [] })

  unfoldable pub send_all : List Bytes → Endpoint → Action (Unit {0})
  unfolding sendto
  send_all [] address = pure tt
  send_all (wire_packet ∷ rest) address = do sendto wire_packet address; send_all rest address

  abbrev pub require_socket : SocketState → Action (Unit {0})
  require_socket unopened = raise socket_unavailable
  require_socket _ = pure tt

  -- `_send_clear`
  unfoldable pub send_clear : Bytes → Endpoint → Action (Unit {0})
  unfolding send_all
  send_clear packet address = do
    socket ← gets (λ s. s.socket)
    key ← gets (λ s. s.key)
    require_socket socket
    wire_packets ← lift (encode_wire_packets key packet)
    send_all wire_packets address

  -- What `_receive_clear` does with a datagram.
  unfoldable pub take_received : Received → Endpoint → Action (Option (Bytes × Endpoint))
  take_received (accepted clear) address = pure (some (clear, address))
  take_received undecodable address = do count packets_undecodable 1; pure none
  take_received length_mismatch address = do count packets_length_mismatch 1; pure none

  unfoldable pub take_receipt : Receipt → Action (Option (Bytes × Endpoint))
  unfolding take_received
  take_receipt timed_out = pure none
  take_receipt os_error = raise receive_failed
  take_receipt (datagram encrypted address) = do
    count packets_received 1
    key ← gets (λ s. s.key)
    received ← lift (decode_datagram key encrypted)
    take_received received address

  -- `recvfrom` of a closed socket raises OSError.
  abbrev pub receipt_of : SocketState → ℕ → Receipt
  receipt_of opened n = world.recvfrom n
  receipt_of _ n = os_error

  abbrev pub receive_from : SocketState → Action (Option (Bytes × Endpoint))
  receive_from unopened s = (ok none, s)
  receive_from socket s =
      take_receipt (receipt_of socket s.receives) (record s { receives = s.receives + 1 })

  -- `_receive_clear`
  unfoldable pub receive_clear : Action (Option (Bytes × Endpoint))
  unfolding take_receipt
  receive_clear s = receive_from s.socket s
