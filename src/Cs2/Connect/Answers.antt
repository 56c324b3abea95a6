-- ===== src/Cs2/Connect/Answers.antt =====
-- What `connect` of src/okam_native/cs2.py sends by its timers, and how it answers a packet.
use okam_ha_proxy.Prelude.{
  ℕ, ◌-◌, Bool, true, false, not, ◌&&◌, List, [], ◌∷◌, ◌++◌, Option, none, some, map, Text, Bytes,
  codes, length, slice, null, from_bytes, leb, ◌==◌, if◌then◌else◌,
}
use okam_ha_proxy.Prelude.Outcome.{Result, ok, err}
use okam_ha_proxy.Prelude.Exec.{pure, modify, ◌>>=◌, ◌>>◌}
use okam_ha_proxy.Inet.{Inet}
use okam_ha_proxy.Cs2.Address.{
  Endpoint, endpoint_eq, add, decode_network_address, decode_relay_list, make_relay_punch,
  make_relay_request_from_ack,
}
use okam_ha_proxy.Cs2.World.{World}
use okam_ha_proxy.Cs2.State.{Action, count, send_clear, declined_readiness}
use okam_ha_proxy.Cs2.Connect.Messages.{
  directory_retry, relay_list_retry, relay_retry, punch_retry, Call, Negotiation, punch,
  relay_list_request, relay_port_request, is_in, add_all, to_all, twice_to, to_directory,
  punch_targets, to_relays, is_kind, add_target, names_camera, decoded, Case, camera_address,
  relay_list, relay_answer, relay_port, rendezvous, relay_targets, direct_punch, direct_accept,
  readiness, relay_ready, ignored,
}

module _ (world : World) where
  unfoldable pub send_each : List (Bytes × Endpoint) → Action (Unit {0})
  send_each [] = pure tt
  send_each ((packet, address) ∷ rest) = do send_clear world packet address; send_each rest

module _ (inet : Inet) (world : World) (call : Call) where
  -- The four timers of a round, in their order.
  unfoldable pub send_directory : ℕ → Negotiation → Action Negotiation
  unfolding send_each
  send_directory time n =
      if leb directory_retry (time - n.last_directory_send)
      then (do
        send_each world (to_directory n.hello_sent call.lookup call.servers)
        pure (record n { hello_sent = true; last_directory_send = time }))
      else pure n

  unfoldable pub send_relay_list : ℕ → Negotiation → Action Negotiation
  unfolding send_each
  send_relay_list time n =
      if leb relay_list_retry (time - n.last_relay_list_send)
      then (do
        send_each world (to_all (relay_list_request call.uid) call.directory_endpoints)
        pure (record n { last_relay_list_send = time }))
      else pure n

  unfoldable pub send_relay : ℕ → Negotiation → Action Negotiation
  unfolding send_each
  send_relay time n =
      if not (null n.relay_endpoints) && leb relay_retry (time - n.last_relay_send)
      then (do send_each world (to_relays call n); pure (record n { last_relay_send = time }))
      else pure n

  unfoldable pub send_punch : ℕ → Negotiation → Action Negotiation
  unfolding send_each
  send_punch time n =
      if not (null n.endpoints) && leb punch_retry (time - n.last_punch_send)
      then (do
        send_each world (twice_to (punch call.uid) (punch_targets n.endpoints))
        pure (record n { last_punch_send = time }))
      else pure n

  unfoldable pub send_due : ℕ → Negotiation → Action Negotiation
  unfolding send_directory send_relay_list send_relay send_punch
  send_due time n = do
    asked ← send_directory time n
    listed ← send_relay_list time asked
    relayed ← send_relay time listed
    send_punch time relayed

  -- F1 40: the directory names the address of the camera.
  unfoldable pub take_endpoint : Result Endpoint → Negotiation → Action (Option Negotiation)
  unfolding send_each
  take_endpoint (err error) n = pure (some n)
  take_endpoint (ok endpoint) n = do
    add_target endpoint
    send_each world (twice_to (punch call.uid) (endpoint ∷ []))
    pure (some (record n { endpoints = add endpoint n.endpoints }))

  -- F1 71: the first relay that answers is the one.
  unfoldable pub take_relay : Option Endpoint → Endpoint → Negotiation → Action (Option Negotiation)
  take_relay (some relay) address n = pure (some n)
  take_relay none address n = do
    send_clear world relay_port_request address
    pure (some (record n { relay_port_endpoint = some address }))

  -- F1 73: the port of that relay, from which the request follows.
  unfoldable pub take_request : Option Bytes → Negotiation → Action (Option Negotiation)
  unfolding send_each
  take_request none n = pure (some n)
  take_request (some request) n = do
    send_each world (to_all request call.directory_endpoints)
    pure (some (record n { relay_request = some request }))

  abbrev pub is_relay : Endpoint → Option Endpoint → Bool
  is_relay address none = false
  is_relay address (some relay) = endpoint_eq address relay

  unfoldable pub take_port : Bytes → Endpoint → Negotiation → Action (Option Negotiation)
  unfolding take_request
  take_port packet address n =
      if is_relay address n.relay_port_endpoint
      then take_request (make_relay_request_from_ack inet call.uid address packet) n
      else pure (some n)

  -- F1 82: the rendezvous is acknowledged to the target and to the directory.
  unfoldable pub take_hello :
      Bytes → Endpoint → Result Endpoint → Negotiation → Action (Option Negotiation)
  unfolding send_each
  take_hello packet address (err error) n = pure (some n)
  take_hello packet address (ok target) n = do
    send_each world (
        twice_to (make_relay_punch call.uid (from_bytes (slice 20 24 packet)))
          (target ∷ address ∷ []))
    pure (some n)

  -- F1 02: two addresses, of which those that decode get the empty F1 03.
  unfoldable pub take_targets : Bytes → Negotiation → Action (Option Negotiation)
  unfolding send_each
  take_targets packet n = do
    send_each world (
        twice_to (0xf1 ∷ 0x03 ∷ 0x00 ∷ 0x00 ∷ []) (
          decoded (decode_network_address inet (slice 4 20 packet))
          ++ decoded (decode_network_address inet (slice 20 36 packet))))
    pure (some n)

  -- The address becomes the peer, and `connect` returns: None.
  unfoldable pub adopt : Text → List Bytes → Endpoint → Action (Option Negotiation)
  unfolding send_each
  adopt path packets address = do
    modify (λ s. record s { peer = some address; connect_path = path })
    send_each world (map (λ packet. (packet, address)) packets)
    pure none

  -- The readiness of the camera is acknowledged, but a relay is waited for.
  unfoldable pub decline : Endpoint → Negotiation → Action (Option Negotiation)
  decline address n = do
    count declined_readiness 1
    send_clear world (0xf1 ∷ 0x43 ∷ 0x00 ∷ 0x00 ∷ []) address
    pure (some n)

  -- The chain of tests on a packet, by its kind, its source and `prefer_relay`.
  unfoldable pub classify : Bytes → Endpoint → Negotiation → Case
  classify packet address n =
      let from_directory = is_in address call.directory_endpoints in
      let from_relay = is_in address n.relay_endpoints in
      let from_camera = not from_directory && names_camera call.uid packet in
      if is_kind 0x40 packet && from_directory && leb 20 (length packet)
      then camera_address
      else if is_kind 0x69 packet && from_directory
      then relay_list
      else if is_kind 0x71 packet && from_relay
      then relay_answer
      else if is_kind 0x73 packet && from_relay
      then relay_port
      else if is_kind 0x82 packet && from_directory
      then (if length packet == 24 then rendezvous else ignored)
      else if is_kind 0x02 packet && length packet == 36
      then relay_targets
      else if is_kind 0x41 packet && not call.prefer_relay && from_camera
      then direct_punch
      else if is_kind 0x42 packet && not call.prefer_relay && from_camera
      then direct_accept
      else if is_kind 0x42 packet && call.prefer_relay && from_camera
      then readiness
      else if is_kind 0x84 packet && from_camera
      then relay_ready
      else ignored

  unfoldable pub act : Case → Bytes → Endpoint → Negotiation → Action (Option Negotiation)
  unfolding take_endpoint take_relay take_port take_hello take_targets adopt decline
  act camera_address packet address n =
      take_endpoint (decode_network_address inet (slice 4 20 packet)) n
  act relay_list packet address n = pure (
      some
        (record n { relay_endpoints = add_all (decode_relay_list inet packet) n.relay_endpoints }))
  act relay_answer packet address n = take_relay n.relay_port_endpoint address n
  act relay_port packet address n = take_port packet address n
  act rendezvous packet address n =
      take_hello packet address (decode_network_address inet (slice 4 20 packet)) n
  act relay_targets packet address n = take_targets packet n
  act direct_punch packet address n =
      adopt (codes "direct-punch")
        (((0xf1 ∷ 0x42 ∷ 0x00 ∷ 0x14 ∷ []) ++ call.uid) ∷ (0xf1 ∷ 0xe0 ∷ 0x00 ∷ 0x00 ∷ []) ∷ [])
        address
  act direct_accept packet address n =
      adopt (codes "direct-accept") ((0xf1 ∷ 0x43 ∷ 0x00 ∷ 0x00 ∷ []) ∷ []) address
  act readiness packet address n = decline address n
  act relay_ready packet address n =
      adopt (codes "relay") ((0xf1 ∷ 0xe0 ∷ 0x00 ∷ 0x00 ∷ []) ∷ []) address
  act ignored packet address n = pure (some n)

  unfoldable pub take_packet : Bytes → Endpoint → Negotiation → Action (Option Negotiation)
  unfolding classify act
  take_packet packet address n = act (classify packet address n) packet address n
