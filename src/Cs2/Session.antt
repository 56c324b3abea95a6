-- ===== src/Cs2/Session.antt =====
-- One round of `CS2Session` in src/okam_native/cs2.py: `_pump` with `_handle_data`, `_retransmit`, and
-- `close`.
pub mod Sending
pub mod Data
pub mod Invariant
pub mod Stable
pub mod Rounds
pub mod Validity
pub mod Retries
pub mod Growth
pub mod Endings
use okam_ha_proxy.Prelude.{
  ℕ, ◌+◌, ◌-◌, Bool, true, false, not, ◌||◌, List, [], ◌∷◌, ◌++◌, Option, none, some, Bytes, equal,
  length, take, drop, slice, get_or, set, from_bytes, ltb, leb, ◌==◌, if◌then◌else◌,
}
use okam_ha_proxy.Prelude.Outcome.{Result, ok, err, not_acknowledged, peer_closed, assertion_error}
use okam_ha_proxy.Prelude.Exec.{pure, raise, gets, modify, ◌>>=◌, ◌>>◌}
use okam_ha_proxy.Cs2.Address.{Endpoint, endpoint_eq, add}
use okam_ha_proxy.Cs2.Channel.{Channel, empty_channel, accept}
use okam_ha_proxy.Cs2.World.{World}
use okam_ha_proxy.Cs2.State.{
  Session, Action, SocketState, unopened, shut, Pending, PendingKey, count, count_kind, now,
  send_clear, receive_clear, pump_packets, packets_from_other_source, peer_port_drift,
  alive_requests, punch_repeats, readiness_requests, ack_packets, data_packets, close_packets,
  other_packets, data_packets_invalid, retransmits, channel_packets, channel_bytes, other_kind,
}
use okam_ha_proxy.Cs2.Pending.{pop_pending, put_pending, handle_ack}

-- `assert self._peer is not None`
abbrev pub assert_peer : Option Endpoint → Action Endpoint
assert_peer none = raise assertion_error
assert_peer (some peer) = pure peer

-- `RETRANSMIT_SECONDS` in milliseconds, and `MAX_RETRANSMITS`
abbrev pub retransmit_after : ℕ
retransmit_after = 500

abbrev pub max_retransmits : ℕ
max_retransmits = 20

abbrev pub channel_at : Session → ℕ → Channel
channel_at s channel = get_or s.incoming channel empty_channel

-- A change of the receiving side of one channel.
abbrev pub update_channel : ℕ → (Channel → Channel) → Action (Unit {0})
update_channel channel f =
    modify (λ s. record s { incoming = set s.incoming channel (f (channel_at s channel)) })

abbrev pub is_data_invalid : Bytes → Bool
is_data_invalid packet =
    let body = drop 4 packet in
    ltb (length packet) 4
    || not (from_bytes (slice 2 4 packet) == length body)
    || ltb (length body) 4
    || not (get_or body 0 0 == 0xd1)
    || leb 8 (get_or body 1 0)

-- The acknowledgement of one packet: `F1 D1 00 06 D1 channel 00 01` and the sequence bytes.
abbrev pub make_ack : ℕ → Bytes → Bytes
make_ack channel sequence_bytes =
    (0xf1 ∷ 0xd1 ∷ 0x00 ∷ 0x06 ∷ 0xd1 ∷ channel ∷ 0x00 ∷ 0x01 ∷ []) ++ sequence_bytes

-- `F1 F0 00 00`
abbrev pub close_packet : Bytes
close_packet = 0xf1 ∷ 0xf0 ∷ 0x00 ∷ 0x00 ∷ []

abbrev pub went_out : Result (Unit {0}) → Bool → Bool
went_out (ok _) flag = true
went_out (err _) flag = flag

-- The targets of `close`: the endpoints met while connecting, and the peer.
abbrev pub with_peer : Option Endpoint → List Endpoint → List Endpoint
with_peer none targets = targets
with_peer (some peer) targets = add peer targets

abbrev pub close_targets_of : Session → List Endpoint
close_targets_of s = with_peer s.peer s.close_targets

module _ (world : World) where
  -- `_handle_data` behind its check
  unfoldable pub take_data : Bytes → Action (Unit {0})
  take_data body = do
    let channel = get_or body 1 0
    count (channel_packets channel) 1
    count (channel_bytes channel) (length body - 4)
    peer ← gets (λ s. s.peer)
    address ← assert_peer peer
    send_clear world (make_ack channel (slice 2 4 body)) address
    update_channel channel (λ c. accept c (from_bytes (slice 2 4 body)) (drop 4 body))

  unfoldable pub handle_data : Bytes → Action (Unit {0})
  unfolding take_data
  handle_data packet =
      if is_data_invalid packet then count data_packets_invalid 1 else take_data (drop 4 packet)

  -- One round of the loop of `_retransmit`. `value` is the entry as the loop took it.
  unfoldable pub retransmit_one : ℕ → Endpoint → PendingKey → Pending → Action (Unit {0})
  retransmit_one time peer key value =
      if ltb (time - value.sent_at) retransmit_after
      then pure tt
      else if leb max_retransmits value.attempts
      then (do
        modify (λ s. record s { pending = pop_pending key s.pending })
        raise not_acknowledged)
      else (do
        send_clear world value.packet peer
        count retransmits 1
        modify (λ s. record s {
          pending =
              put_pending key
                (record { packet = value.packet; sent_at = time; attempts = value.attempts + 1 })
                s.pending;
        }))

  unfoldable pub retransmit_loop : ℕ → Endpoint → List (PendingKey × Pending) → Action (Unit {0})
  unfolding retransmit_one
  retransmit_loop time peer [] = pure tt
  retransmit_loop time peer ((key, value) ∷ rest) = do
    retransmit_one time peer key value
    retransmit_loop time peer rest

  abbrev pub retransmit_to : Option Endpoint → Action (Unit {0})
  retransmit_to none = pure tt
  retransmit_to (some peer) = do
    time ← now world
    pending ← gets (λ s. s.pending)
    retransmit_loop time peer pending

  -- `_retransmit`
  unfoldable pub retransmit : Action (Unit {0})
  unfolding retransmit_loop
  retransmit s = retransmit_to s.peer s

  -- The loop of `close` over its targets; the flag is `sent`.
  unfoldable pub close_loop : List Endpoint → Bool → Session → Bool × Session
  close_loop [] sent s = (sent, s)
  close_loop (target ∷ rest) sent s =
      let (outcome, after) = send_clear world close_packet target s in
      close_loop rest (went_out outcome sent) after

  abbrev pub send_close : SocketState → List Endpoint → Session → Bool × Session
  send_close unopened targets s = (false, s)
  send_close _ targets s = close_loop targets false s

  abbrev pub shut_socket : SocketState → SocketState
  shut_socket unopened = unopened
  shut_socket _ = shut

  -- `close`; its result is whether a close packet went out.
  unfoldable pub close : Session → Bool × Session
  unfolding close_loop
  close s =
      if s.closed
      then (true, s)
      else (let (sent, after) = send_close s.socket (close_targets_of s) s in
          (sent, record after { socket = shut_socket after.socket; closed = true; peer = none }))

  -- `_pump` on a packet of the peer, by its kind
  unfoldable pub dispatch : Bytes → Endpoint → Action (Unit {0})
  unfolding handle_data handle_ack close
  dispatch packet address =
      let kind = take 2 packet in
      if equal kind (0xf1 ∷ 0xe0 ∷ [])
      then (do count alive_requests 1; send_clear world (0xf1 ∷ 0xe1 ∷ 0x00 ∷ 0x00 ∷ []) address)
      else if equal kind (0xf1 ∷ 0x41 ∷ [])
      then (do
        count punch_repeats 1
        uid ← gets (λ s. s.uid)
        send_clear world ((0xf1 ∷ 0x42 ∷ 0x00 ∷ 0x14 ∷ []) ++ uid) address)
      else if equal kind (0xf1 ∷ 0x42 ∷ [])
      then (do
        count readiness_requests 1
        send_clear world (0xf1 ∷ 0x43 ∷ 0x00 ∷ 0x00 ∷ []) address)
      else if equal kind (0xf1 ∷ 0xd1 ∷ [])
      then (do
        count ack_packets 1
        modify (λ s. record s { pending = handle_ack packet s.pending }))
      else if equal kind (0xf1 ∷ 0xd0 ∷ [])
      then (do count data_packets 1; handle_data packet)
      else if equal kind (0xf1 ∷ 0xf0 ∷ [])
      then (do count close_packets 1; modify (λ s. (close s).1); raise peer_closed)
      else (do count other_packets 1; count_kind (other_kind kind))

  -- The test of the source address in `_pump`.
  unfoldable pub from_source : Option Endpoint → Bytes → Endpoint → Action (Unit {0})
  unfolding dispatch
  from_source none packet address = count packets_from_other_source 1
  from_source (some peer) packet address =
      if endpoint_eq address peer
      then dispatch packet address
      else if not (equal address.0 peer.0)
      then count packets_from_other_source 1
      else (do count peer_port_drift 1; dispatch packet address)

  unfoldable pub pump_received : Option (Bytes × Endpoint) → Action (Unit {0})
  unfolding from_source
  pump_received none = pure tt
  pump_received (some (packet, address)) = do
    count pump_packets 1
    peer ← gets (λ s. s.peer)
    from_source peer packet address

  -- `_pump`
  unfoldable pub pump : Action (Unit {0})
  unfolding retransmit pump_received
  pump = do retransmit; received ← receive_clear world; pump_received received
