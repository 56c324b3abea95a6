-- ===== src/Cs2/Tests/Connecting.antt =====
-- Runs of `connect`, and its theorems at concrete inputs.
use okam_ha_proxy.Prelude.{
  true, false, [], ◌∷◌, ◌++◌, ◌≡◌, refl, arith, Option, none, some, Text, codes,
}
use okam_ha_proxy.Prelude.Outcome.{ok, err, not_established}
use okam_ha_proxy.Prelude.Exec.Ends.{ran_out}
use okam_ha_proxy.Prelude.Exec.Returns.{Returns}
use okam_ha_proxy.Prelude.Exec.{◌>>=◌}
use okam_ha_proxy.Cs2.Address.{encode_network_address}
use okam_ha_proxy.Cs2.Cipher.{
  decode_datagram, clear_of, check_header, encode_wire_packets, encrypt_packet, key_hash,
}
use okam_ha_proxy.Cs2.Session.{close}
use okam_ha_proxy.Cs2.World.{World, datagram}
use okam_ha_proxy.Cs2.State.{Session, unopened, shut, receive_clear, send_clear}
use okam_ha_proxy.Cs2.Examples.{ready, device, camera, quiet, plain_inet}
use okam_ha_proxy.Cs2.Connect.{bound, connect, connect_loop, begin, call_of}
use okam_ha_proxy.Cs2.Connect.Reaching.{Reached, connect-Reached}
use okam_ha_proxy.Cs2.Transfer.Termination.{IsMonotonic}
use okam_ha_proxy.Cs2.Connect.Ending.{connect_loop_ends}

-- A session that has not begun.
abbrev fresh : Session
fresh = record ready { socket = unopened; peer = none; connect_path = [] }

-- A relay that says that the camera is ready.
abbrev answering : World
answering = record quiet {
  recvfrom = λ n. datagram ((0xf1 ∷ 0x84 ∷ 0x00 ∷ 0x14 ∷ []) ++ device) camera;
}

abbrev local_host : Text → Option Text
local_host server = some (192 ∷ 168 ∷ 1 ∷ 5 ∷ [])

relay_found :
    let (outcome, s) = connect plain_inet answering 5 1000 (bound 40000) local_host fresh in
    (outcome ≡ ok tt) × (s.peer ≡ some camera) × (s.connect_path ≡ codes "relay")
unfolding connect ◌>>=◌ encode_network_address receive_clear decode_datagram clear_of check_header
    send_clear encode_wire_packets encrypt_packet key_hash
relay_found = (refl, refl, refl)

nobody_found :
    let (outcome, s) = connect plain_inet quiet 20 1000 (bound 40000) local_host fresh in
    (outcome ≡ err not_established) × (s.closed ≡ true) × (s.socket ≡ shut)
unfolding connect ◌>>=◌ encode_network_address receive_clear send_clear encode_wire_packets
    encrypt_packet key_hash close
nobody_found = (refl, refl, refl)

connect-Reached_example :
    Returns
      (λ _ t. Reached plain_inet answering fresh t)
      (connect plain_inet answering 5 1000 (bound 40000) local_host fresh)
connect-Reached_example =
    connect-Reached plain_inet answering 5 1000 (bound 40000) local_host fresh refl

quiet_forward : IsMonotonic quiet
quiet_forward m n h = omega arith

connect_loop_ends_example :
    ran_out (connect_loop plain_inet quiet (call_of [] device [] true) 11 1000 begin fresh).0
    ≡ false
connect_loop_ends_example =
    connect_loop_ends plain_inet quiet (call_of [] device [] true) quiet_forward 10 11 1000 begin
      fresh (omega arith) (omega arith) (omega arith)
