-- ===== src/Cs2/Tests/Retries.antt =====
-- An instance of the theorem on packets that are sent again.
use okam_ha_proxy.Prelude.{◌+◌, ◌*◌, List, [], ◌∷◌, ◌++◌, ◌≡◌, refl, arith, Bytes, map, codes}
use okam_ha_proxy.Prelude.Outcome.{ok, err, not_acknowledged}
use okam_ha_proxy.Cs2.Cipher.{encode_wire_packets, encrypt_loop}
use okam_ha_proxy.Cs2.Cipher.Laws.{hash_of, encrypt_packet_ascii}
use okam_ha_proxy.Cs2.World.{World}
use okam_ha_proxy.Cs2.State.{Pending}
use okam_ha_proxy.Cs2.Session.{retransmit}
use okam_ha_proxy.Cs2.Session.Data.{data_packet}
use okam_ha_proxy.Cs2.Session.Retries.{times, waiting, copies, retransmit-gives_up}
use okam_ha_proxy.Cs2.Examples.{quiet, camera, ready}

-- A second passes between two readings of the clock.
abbrev slow : World
slow = record quiet { monotonic = λ n. 1000 * n + 500 }

abbrev packet : Bytes
packet = data_packet 0 0 (codes "a")

-- A packet as `write` enters it.
abbrev entry : Pending
entry = record { packet = packet; sent_at = 0; attempts = 1 }

abbrev wire_forms : List Bytes
wire_forms = encrypt_loop (hash_of (codes "abc")) 0 packet ∷ []

encoded_packet : encode_wire_packets (codes "abc") packet ≡ ok wire_forms
unfolding encode_wire_packets
encoded_packet = rw (encrypt_packet_ascii (codes "abc") packet refl) refl

retransmit-gives_up_example :
    let (outcome, t) = times 19 (retransmit slow) (waiting ready camera (0, 0) entry) in
    (outcome ≡ ok tt)
    × (t.wire ≡ [] ++ copies 19 (map (λ w. (w, camera)) wire_forms))
    × ((retransmit slow t).0 ≡ err not_acknowledged)
retransmit-gives_up_example =
    retransmit-gives_up slow camera (0, 0) wire_forms 19 ready entry (λ n. omega arith)
      (record { is_open = refl; ascii = refl; goes_out = λ n w address. refl }) encoded_packet
      (omega arith) (omega arith)
