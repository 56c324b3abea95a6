-- ===== src/Rtsp/Tests.antt =====
-- Runs and instances of the theorems on the H.264 stream.
use okam_ha_proxy.Prelude.{
  ℕ, String, codes, true, false, ◌<◌, ◌≤◌, ◌^◌, List, [], ◌∷◌, ◌++◌, map, ◌≡◌, refl, arith, none,
  some, Bytes, All, concat, replicate,
}
use okam_ha_proxy.Rtsp.Rbsp.{sps_rbsp, nal_rbsp, escape, nal_rbsp-escape}
use okam_ha_proxy.Prelude.Exec.{◌>>=◌}
use okam_ha_proxy.Rtsp.Bits.{read, ue}
use okam_ha_proxy.Rtsp.Sps.{skip_ues, frame_ticks_from_sps, frame_ticks_from_sps-bounds}
use okam_ha_proxy.Rtsp.NalUnits.{nal_units}
use okam_ha_proxy.Rtsp.StartCodes.{IsCut, bodies, non_empty, retained, nal_units-cuts}
use okam_ha_proxy.Rtsp.AccessUnits.{
  empty_assembler, push_all, IsPicture, IsConsistent, push_all-units,
}
use okam_ha_proxy.Rtsp.Requests.{
  Bridge, Request, numbered, Outside, new_client, handle_request, handle_all,
}
use okam_ha_proxy.Rtsp.Requests.Invariant.{
  IsSound, Settles, handle_request-Settles, handle_all-IsSound,
}
use okam_ha_proxy.Rtsp.Packets.{send_access_unit, interleaved}
use okam_ha_proxy.Rtsp.Packets.Receiver.{receive}
use okam_ha_proxy.Rtsp.Packets.Units.{IsPacket, send_access_unit-received}

abbrev payload : Bytes
payload = 0 ∷ 0 ∷ 1 ∷ 0 ∷ 0 ∷ 0 ∷ 3 ∷ []

nal_rbsp-escape_example : nal_rbsp (0x65 ∷ escape 0 payload) ≡ payload
nal_rbsp-escape_example = nal_rbsp-escape 0x65 payload

-- A parameter set for 25 frames per second.
abbrev sps : Bytes
sps = 103 ∷ 66 ∷ 0 ∷ 30 ∷ 221 ∷ 232 ∷ 64 ∷ 0 ∷ 0 ∷ 3 ∷ 0 ∷ 64 ∷ 0 ∷ 0 ∷ 12 ∷ 176 ∷ []

sps_ticks : frame_ticks_from_sps sps ≡ some 3600
unfolding frame_ticks_from_sps ◌>>=◌ read sps_rbsp ue skip_ues
sps_ticks = refl

frame_ticks_from_sps-bounds_instance : (1 ≤ 3600) × (3600 ≤ 900000)
frame_ticks_from_sps-bounds_instance = frame_ticks_from_sps-bounds sps 3600 sps_ticks

-- Two start codes, behind one byte of an earlier unit, in a stream that arrives in two parts.
abbrev arriving : Bytes
arriving = 0 ∷ 1 ∷ 0x65 ∷ 7 ∷ 0 ∷ 0 ∷ 0 ∷ 1 ∷ 0x41 ∷ []

nal_units-cuts_example :
    (cuts : List (ℕ × ℕ)) × IsCut ((9 ∷ 0 ∷ []) ++ arriving) 0 cuts
    × (nal_units arriving (9 ∷ 0 ∷ []) ≡ (
      non_empty (bodies ((9 ∷ 0 ∷ []) ++ arriving) cuts),
      retained ((9 ∷ 0 ∷ []) ++ arriving) cuts,
    ))
nal_units-cuts_example = nal_units-cuts arriving (9 ∷ 0 ∷ [])

two_parts :
    nal_units (0 ∷ 1 ∷ 0x65 ∷ 7 ∷ 0 ∷ 0 ∷ 0 ∷ 1 ∷ 0x41 ∷ []) (9 ∷ 0 ∷ [])
    ≡ ((0x65 ∷ 7 ∷ []) ∷ [], 0 ∷ 0 ∷ 0 ∷ 1 ∷ 0x41 ∷ [])
unfolding nal_units
two_parts = refl

-- A delimiter, a parameter set, a slice, and the next delimiter.
abbrev four_units : List Bytes
four_units = (0x09 ∷ []) ∷ (0x67 ∷ []) ∷ (0x65 ∷ 0x80 ∷ []) ∷ (0x09 ∷ []) ∷ []

push_all-units_example :
    (concat (push_all four_units empty_assembler).1 ++ (push_all four_units empty_assembler).0.units
      ≡ [] ++ four_units)
    × All IsPicture (push_all four_units empty_assembler).1
    × IsConsistent (push_all four_units empty_assembler).0
push_all-units_example = push_all-units four_units empty_assembler λ e. cc

-- A small unit and one that needs two fragments.
abbrev two_units : List Bytes
two_units = (0x67 ∷ 66 ∷ []) ∷ (0x65 ∷ replicate 1500 7) ∷ []

send_access_unit-received_example :
    (packets : List Bytes) × ((send_access_unit 0 two_units 65535 3000 7).0
      ≡ map (interleaved 0) packets)
    × (receive 3000 7 none 65535 packets ≡ some two_units)
    × All IsPacket packets
    × ((send_access_unit 0 two_units 65535 3000 7).1 < 2 ^ 16)
send_access_unit-received_example =
    send_access_unit-received 3000 7 0 two_units 65535 (omega arith) (omega arith)
      ((omega arith, omega arith, omega arith), ((omega arith, omega arith, omega arith), tt))
      (omega arith)

abbrev front_door : Bridge
front_door = record { number = 1; battery_camera = true }

abbrev asks : String → Request
asks name = record {
  method = codes name;
  cseq = codes "7";
  is_target_valid = true;
  bridge = some front_door;
  over_tcp = true;
  channels = numbered 2 3;
}

abbrev working : Outside
working = record { disconnected = λ n. false; acquire = λ n bridge passive. some 5 }

new_client-IsSound : IsSound new_client
new_client-IsSound = (refl, (λ e. cc), omega arith)

handle_request-Settles_example :
    Settles (asks "SETUP") new_client (handle_request working (some (asks "SETUP")) new_client)
handle_request-Settles_example =
    handle_request-Settles working (asks "SETUP") new_client new_client-IsSound

handle_all-IsSound_instance : IsSound (
    handle_all working
      (some (asks "SETUP") ∷ some (asks "PLAY") ∷ some (asks "PLAY") ∷ [])
      new_client)
handle_all-IsSound_instance =
    handle_all-IsSound working (some (asks "SETUP") ∷ some (asks "PLAY") ∷ some (asks "PLAY") ∷ [])
      new_client new_client-IsSound
