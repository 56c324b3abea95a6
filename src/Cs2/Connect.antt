-- ===== src/Cs2/Connect.antt =====
-- `connect` of `CS2Session` in src/okam_native/cs2.py: the negotiation with the directory servers, the
-- relays and the camera, until one of them becomes the peer.
pub mod Messages
pub mod Answers
pub mod Calm
pub mod Establishing
pub mod Looping
pub mod Reaching
pub mod Ending
use okam_ha_proxy.Prelude.{
  ℕ, zero, suc, ◌+◌, ◌-◌, Bool, true, false, not, ◌&&◌, ◌||◌, List, [], ◌∷◌, ◌++◌, Option, none,
  some, map, Text, Bytes, codes, equal, length, take, slice, any, null, min, max, from_bytes, ltb,
  leb, ◌==◌, if◌then◌else◌,
}
use okam_ha_proxy.Prelude.Outcome.{
  Result, ok, err, index_error, session_started, socket_not_opened, route_unavailable,
  not_established, out_of_fuel,
}
use okam_ha_proxy.Prelude.Exec.{pure, raise, lift, gets, modify, ◌>>=◌, ◌>>◌}
use okam_ha_proxy.Inet.{Inet}
use okam_ha_proxy.Cs2.Address.{
  Endpoint, endpoint_eq, add, encode_network_address, decode_network_address, decode_relay_list,
  make_relay_punch, make_relay_request_from_ack,
}
use okam_ha_proxy.Cs2.World.{World}
use okam_ha_proxy.Cs2.State.{
  Session, Action, SocketState, unopened, opened, shut, count, count_kind, now, send_clear,
  receive_clear, connect_kind, connect_length, declined_readiness,
}
use okam_ha_proxy.Cs2.Session.{close}
use okam_ha_proxy.Cs2.Connect.Messages.{
  directory_port, Call, Negotiation, add_all, is_kind, if_needed, add_target,
}
use okam_ha_proxy.Cs2.Connect.Answers.{send_due, take_packet}

module _ (inet : Inet) (world : World) (call : Call) where
  -- What is remembered and counted of every packet before that.
  unfoldable pub note_packet : Bytes → Endpoint → Action (Unit {0})
  note_packet packet address = do
    if_needed (is_kind 0x41 packet || is_kind 0x42 packet || is_kind 0x84 packet)
        (add_target address)
    count_kind (connect_kind (take 2 packet))
    if_needed (is_kind 0x73 packet || is_kind 0x82 packet || is_kind 0x84 packet)
        (count_kind (connect_length (take 2 packet) (length packet)))

  unfoldable pub take_answer : Negotiation → Option (Bytes × Endpoint) → Action (Option Negotiation)
  unfolding note_packet take_packet
  take_answer n none = pure (some n)
  take_answer n (some (packet, address)) = do
    note_packet packet address
    take_packet inet world call packet address n

  -- One round of the loop; None when the session is established.
  unfoldable pub round : Negotiation → Action (Option Negotiation)
  unfolding send_due take_answer
  round n = do
    time ← now world
    sent ← send_due inet world call time n
    received ← receive_clear world
    take_answer sent received

  abbrev pub fail : Action (Unit {0})
  fail = do modify (λ s. (close world s).1); raise not_established

  abbrev pub carry_on : (Negotiation → Action (Unit {0})) → Option Negotiation → Action (Unit {0})
  carry_on next none = pure tt
  carry_on next (some n) = next n

  -- The loop, for at most the given number of rounds.
  unfoldable pub connect_loop : ℕ → ℕ → Negotiation → Action (Unit {0})
  unfolding round
  connect_loop zero deadline n s = (err out_of_fuel, s)
  connect_loop (suc rounds) deadline n s = elim (leb deadline (world.monotonic s.clock_reads)) [
    | true ↦ fail (record s { clock_reads = s.clock_reads + 1 })
    | false ↦
        ◌>>=◌ (round n) (carry_on (connect_loop rounds deadline))
          (record s { clock_reads = s.clock_reads + 1 })
  ]

abbrev pub directory_of : List Text → List Endpoint
directory_of servers = add_all (map (λ server. (server, directory_port)) servers) []

-- `lookup_payload` is the identifier and the local address.
abbrev pub call_of : Bytes → Bytes → List Text → Bool → Call
call_of local_address uid servers prefer = record {
  uid = uid;
  servers = servers;
  lookup = (0xf1 ∷ 0x20 ∷ 0x00 ∷ 0x24 ∷ []) ++ (uid ++ local_address);
  directory_endpoints = directory_of servers;
  prefer_relay = prefer;
}

abbrev pub begin : Negotiation
begin = record {
  endpoints = [];
  relay_endpoints = [];
  relay_port_endpoint = none;
  relay_request = none;
  last_directory_send = 0;
  last_relay_list_send = 0;
  last_relay_send = 0;
  last_punch_send = 0;
  hello_sent = false;
}

-- How the socket opens: not at all, without a name, or at a local port.
pub data Opening : Type 0 where
  unavailable unnamed : Opening
  bound : ℕ → Opening

abbrev pub require_unopened : SocketState → Action (Unit {0})
require_unopened unopened = pure tt
require_unopened _ = raise session_started

module _ (inet : Inet) (world : World) where
  -- The negotiation from a known local address on.
  unfoldable pub connect_from : ℕ → ℕ → Text → ℕ → Action (Unit {0})
  unfolding connect_loop
  connect_from rounds timeout local_host local_port = do
    local_address ← lift (encode_network_address inet local_host local_port)
    uid ← gets (λ s. s.uid)
    servers ← gets (λ s. s.servers)
    prefer ← gets (λ s. s.prefer_relay)
    time ← now world
    connect_loop inet world (call_of local_address uid servers prefer) rounds (time + timeout) begin

  unfoldable pub use_route : Option Text → Action Text
  use_route (some host) = pure host
  use_route none = do modify (λ s. (close world s).1); raise route_unavailable

  -- `route` gives the local host of the route to a server, or None where OSError is raised.
  unfoldable pub find_route : (Text → Option Text) → List Text → Action Text
  unfolding use_route
  find_route route [] = raise index_error
  find_route route (server ∷ servers) = use_route (route server)

  unfoldable pub open_socket : Opening → Action ℕ
  open_socket unavailable = raise socket_not_opened
  open_socket unnamed = do
    modify (λ s. (close world (record s { socket = opened })).1)
    raise socket_not_opened
  open_socket (bound port) = do modify (λ s. record s { socket = opened }); pure port

  -- `connect`; `timeout` is in milliseconds
  unfoldable pub connect : ℕ → ℕ → Opening → (Text → Option Text) → Action (Unit {0})
  unfolding open_socket find_route connect_from
  connect rounds timeout opening route = do
    socket ← gets (λ s. s.socket)
    require_unopened socket
    port ← open_socket opening
    servers ← gets (λ s. s.servers)
    host ← find_route route servers
    connect_from rounds timeout host port
