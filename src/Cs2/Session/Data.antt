-- ===== src/Cs2/Session/Data.antt =====
-- What a data packet does to the session.
use okam_ha_proxy.Prelude.{
  ℕ, suc, ◌-◌, ◌≤◌, ◌<◌, true, false, List, [], ◌∷◌, ◌++◌, ◌≡◌, ◌≢◌, refl, arith, Text, Bytes, map,
  get_or-set_same, some, length, set, to_bytes2, from_bytes-to_bytes2,
}
use okam_ha_proxy.Prelude.Outcome.{ok}
use okam_ha_proxy.Prelude.Exec.{◌>>=◌}
use okam_ha_proxy.Cs2.Address.{Endpoint}
use okam_ha_proxy.Cs2.Channel.{empty_channel, accept}
use okam_ha_proxy.Cs2.Channel.Loss.{accept_full}
use okam_ha_proxy.Cs2.Cipher.{is_ascii, frame, encrypt_loop, encode_wire_packets}
use okam_ha_proxy.Cs2.Cipher.Laws.{hash_of, encrypt_packet_ascii}
use okam_ha_proxy.Cs2.World.{World}
use okam_ha_proxy.Cs2.State.{Session, add_to, channel_packets, channel_bytes}
use okam_ha_proxy.Cs2.Session.{channel_at, make_ack, is_data_invalid, handle_data}
use okam_ha_proxy.Cs2.Session.Sending.{IsUp, sent_to, send_clear_up}

-- A data packet as the peer builds it.
abbrev pub data_packet : ℕ → ℕ → Bytes → Bytes
data_packet channel sequence payload =
    frame 0xd0 ((0xd1 ∷ channel ∷ []) ++ (to_bytes2 sequence ++ payload))

-- The two wire forms of an acknowledgement under the session's key.
abbrev pub ack_forms : Session → ℕ → ℕ → List Bytes
ack_forms s channel sequence =
    let ack = (0xf1 ∷ 0xd1 ∷ 0 ∷ 6 ∷ 0xd1 ∷ channel ∷ 0 ∷ 1 ∷ []) ++ to_bytes2 sequence in
    ack ∷ encrypt_loop (hash_of s.key) 0 ack ∷ []

-- The session after a data packet: counted, acknowledged, and handed to its channel.
abbrev pub after_data : Session → Endpoint → ℕ → ℕ → Bytes → Session
after_data s peer channel sequence payload =
    record (sent_to s (ack_forms s channel sequence) peer) {
      counters =
          add_to (channel_bytes channel) (length payload)
            (add_to (channel_packets channel) 1 s.counters);
      incoming = set s.incoming channel (accept (channel_at s channel) sequence payload);
    }

data_packet_valid :
    (channel sequence : ℕ) (payload : Bytes)
    → channel < 8
    → length payload < 65532
    → is_data_invalid (data_packet channel sequence payload) ≡ false
data_packet_valid channel sequence payload small fits = ground arith

ack_encoded :
    (key : Text) (channel sequence : ℕ)
    → is_ascii key ≡ true
    → encode_wire_packets key (make_ack channel (to_bytes2 sequence))
      ≡ ok (
          make_ack channel (to_bytes2 sequence)
          ∷ encrypt_loop (hash_of key) 0 (make_ack channel (to_bytes2 sequence))
          ∷ [])
unfolding encode_wire_packets
ack_encoded key channel sequence ascii = rw (encrypt_packet_ascii key _ ascii)

module _ (world : World) where
  -- While the wire is up, a data packet of the peer for one of the eight channels is acknowledged in
  -- both wire forms and handed to its channel, and nothing else of the session changes but the counters
  -- and the record of what went out.
  pub handle_data_lem :
      (s : Session) (peer : Endpoint) (channel sequence : ℕ) (payload : Bytes)
      → IsUp world s
      → s.peer ≡ some peer
      → channel < 8
      → sequence < 65536
      → length payload < 65532
      → handle_data world (data_packet channel sequence payload) s
        ≡ (ok tt, after_data s peer channel sequence payload)
  unfolding handle_data ◌>>=◌
  handle_data_lem s peer channel sequence payload up has_peer small number fits =
      let four : suc (suc (suc (suc (length payload)))) - 4 ≡ length payload = omega arith in
      let counted = record s {
        peer = some peer;
        counters =
            add_to (channel_bytes channel) (length payload)
              (add_to (channel_packets channel) 1 s.counters);
      } in
      let still : IsUp world counted = record {
        is_open = up.is_open;
        ascii = up.ascii;
        goes_out = up.goes_out;
      } in
      let acked =
        send_clear_up world (make_ack channel (to_bytes2 sequence)) peer counted
          (ack_forms s channel sequence) still (ack_encoded s.key channel sequence up.ascii) in
      rw (data_packet_valid channel sequence payload small fits, has_peer)
        (rw four (rw acked (rw (from_bytes-to_bytes2 sequence number) refl)))

  -- While the wire is up and 64 packets or more of a channel wait, every data packet for that channel
  -- but the one that is due is acknowledged to the peer in both wire forms although its payload is
  -- dropped: no channel changes.
  pub handle_data_acknowledges_dropped :
      (s : Session) (peer : Endpoint) (channel sequence : ℕ) (payload : Bytes)
      → IsUp world s
      → s.peer ≡ some peer
      → channel < 8
      → sequence < 65536
      → length payload < 65532
      → 64 ≤ length (channel_at s channel).held
      → sequence ≢ (channel_at s channel).expected
      → (t : Session) × (handle_data world (data_packet channel sequence payload) s ≡ (ok tt, t))
        × (t.wire ≡ s.wire ++ map (λ w. (w, peer)) (ack_forms s channel sequence))
        × ((j : ℕ) → channel_at t j ≡ channel_at s j)
  handle_data_acknowledges_dropped s peer channel sequence payload up has_peer small number fits
        full ne =
      (
        after_data s peer channel sequence payload,
        handle_data_lem s peer channel sequence payload up has_peer small number fits,
        refl,
        λ j.
            rw (accept_full (channel_at s channel) sequence payload full ne)
              (get_or-set_same s.incoming channel j empty_channel),
      )
