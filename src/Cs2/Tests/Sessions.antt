-- ===== src/Cs2/Tests/Sessions.antt =====
-- Instances of the theorems on a channel and on a session.
use okam_ha_proxy.Prelude.{
  ℕ, ◌+◌, ◌%◌, false, List, [], ◌∷◌, ◌++◌, ◌≡◌, refl, arith, Bytes, map, codes, length, none, true,
}
use okam_ha_proxy.Prelude.Outcome.{ok}
use okam_ha_proxy.Prelude.Exec.Keeps.{Keeps}
use okam_ha_proxy.Prelude.Exec.Returns.{Returns}
use okam_ha_proxy.Prelude.Exec.Ends.{ran_out}
use okam_ha_proxy.Cs2.Channel.{empty_channel, lookup, without, drain, hold, accept}
use okam_ha_proxy.Cs2.Channel.Stream.{prefix, Tracks, delivered_by}
use okam_ha_proxy.Cs2.Channel.Delivery.{Event, arrive, take_bytes, fresh, run, run-prefix}
use okam_ha_proxy.Cs2.Channel.Loss.{IsKept, accept-IsKept}
use okam_ha_proxy.Cs2.State.{Session, send_clear}
use okam_ha_proxy.Cs2.Pending.{put_pending}
use okam_ha_proxy.Cs2.Cipher.{
  encode_wire_packets, encrypt_packet, key_hash, encrypt_loop, pad, shuffle,
}
use okam_ha_proxy.Prelude.Exec.{◌>>=◌}
use okam_ha_proxy.Cs2.Session.{channel_at, handle_data, close, pump}
use okam_ha_proxy.Cs2.Session.Data.{
  data_packet, ack_forms, after_data, handle_data_lem, handle_data_acknowledges_dropped,
}
use okam_ha_proxy.Cs2.Session.Invariant.{IsValid}
use okam_ha_proxy.Cs2.Session.Validity.{pump-IsValid, close-IsValid}
use okam_ha_proxy.Cs2.Transfer.{chunks, send_chunk, write_chunk, write_chunks, write, read_exact}
use okam_ha_proxy.Cs2.Transfer.Reading.{ReadOutcome, read_exact-outcome}
use okam_ha_proxy.Cs2.Transfer.Sent.{Sent}
use okam_ha_proxy.Cs2.Transfer.Writing.{Written, write-acked}
use okam_ha_proxy.Cs2.Transfer.Termination.{IsMonotonic, read_exact_ends, write_ends}
use okam_ha_proxy.Cs2.Examples.{quiet, camera, ready, ready-IsValid, crowded, quiet-IsUp}

-- The second packet arrives before the first, and a byte is read.
abbrev letters : ℕ → Bytes
letters k = (97 + k) ∷ []

abbrev events : List Event
events = arrive 1 ∷ arrive 0 ∷ take_bytes 1 ∷ []

run-prefix_example :
    ((run letters fresh events).read ++ (run letters fresh events).channel.buffer
      ≡ prefix letters (run letters fresh events).delivered)
    × (lookup ((run letters fresh events).delivered % 65536) (run letters fresh events).channel.held
        ≡ none)
unfolding accept hold drain lookup without
run-prefix_example = run-prefix letters events (omega arith)

start : Tracks letters 0 [] empty_channel
start = record { expects = refl; delivered = refl; ahead = tt }

accept-IsKept_example :
    IsKept letters 1
      (delivered_by empty_channel (1 % 65536) (letters 1) + 0)
      (accept empty_channel (1 % 65536) (letters 1))
accept-IsKept_example =
    accept-IsKept letters 0 [] empty_channel 1 start (omega arith) (omega arith) (omega arith)

handle_data_example :
    handle_data quiet (data_packet 1 0 (codes "a")) ready
    ≡ (ok tt, after_data ready camera 1 0 (codes "a"))
handle_data_example =
    handle_data_lem quiet ready camera 1 0 (codes "a") (quiet-IsUp ready refl refl) refl
      (omega arith) (omega arith) (omega arith)

handle_data_acknowledges_dropped_example :
    (t : Session) × (handle_data quiet (data_packet 1 7 (codes "a")) crowded ≡ (ok tt, t))
    × (t.wire ≡ [] ++ map (λ w. (w, camera)) (ack_forms crowded 1 7))
    × ((j : ℕ) → channel_at t j ≡ channel_at crowded j)
handle_data_acknowledges_dropped_example =
    handle_data_acknowledges_dropped quiet crowded camera 1 7 (codes "a")
      (quiet-IsUp crowded refl refl) refl (omega arith) (omega arith) (omega arith) (omega arith)
      (omega arith)

pump-IsValid_example : Keeps IsValid (pump quiet)
pump-IsValid_example = pump-IsValid quiet

close-IsValid_example :
    IsValid (close quiet ready).1
    × ((close quiet ready).1.closed ≡ true)
    × ((close quiet ready).1.peer ≡ none)
close-IsValid_example = close-IsValid quiet ready ready-IsValid

read_exact-outcome_example : ReadOutcome ready 0 8 (read_exact quiet 100 0 8 3000 ready)
read_exact-outcome_example = read_exact-outcome quiet 100 0 8 3000 ready ready-IsValid

quiet-IsMonotonic : IsMonotonic quiet
quiet-IsMonotonic m n h = omega arith

read_exact_ends_example : ran_out (read_exact quiet 31 0 8 3000 ready).0 ≡ false
read_exact_ends_example =
    read_exact_ends quiet quiet-IsMonotonic 30 31 0 8 3000 ready (omega arith) (omega arith)

write-acked_example :
    Returns
      (λ _ t.
        Sent quiet 0 0
          (chunks (codes "GET /"))
          ready
          (write_chunks quiet 0 (chunks (codes "GET /")) ready).1
        × Written 0 0 (length (chunks (codes "GET /"))) t)
      (write quiet 100 0 (codes "GET /") 5000 ready)
write-acked_example = write-acked quiet 100 0 5000 (codes "GET /") ready ready-IsValid

one_reading : (write_chunks quiet 0 (chunks (codes "GET /")) ready).1.clock_reads ≡ 1
unfolding write_chunks write_chunk send_chunk chunks send_clear encode_wire_packets encrypt_packet
    key_hash encrypt_loop pad shuffle put_pending ◌>>=◌
one_reading = refl

write_ends_example : ran_out (write quiet 52 0 (codes "GET /") 5000 ready).0 ≡ false
write_ends_example =
    write_ends quiet quiet-IsMonotonic 51 52 0 5000 (codes "GET /") ready
      (omega (arith, one_reading)) (omega arith)
