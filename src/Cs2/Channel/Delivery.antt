-- ===== src/Cs2/Channel/Delivery.antt =====
-- What a reader gets from a channel, over whole runs of arrivals and reads.
use okam_ha_proxy.Prelude.{
  ℕ, ◌+◌, ◌%◌, ◌<◌, List, [], ◌∷◌, ◌++◌, append_assoc, ◌≡◌, refl, ap, ◌∙◌, none, Bytes, take, drop,
  take-append-drop,
}
use okam_ha_proxy.Cs2.Channel.{Channel, empty_channel, lookup, accept, consume}
use okam_ha_proxy.Cs2.Channel.Stream.{prefix, Tracks, IsSettled, delivered_by, accept-Tracks}

-- What happens to a channel: the `k`-th packet of the peer arrives, or the reader takes bytes.
pub data Event : Type 0 where
  arrive : ℕ → Event
  take_bytes : ℕ → Event

-- A channel with what was read from it so far, and the number of packets delivered in order.
pub record Reader : Type 0 where
  pub channel : Channel
  pub read : Bytes
  pub delivered : ℕ

abbrev pub fresh : Reader
fresh = record { channel = empty_channel; read = []; delivered = 0 }

abbrev pub happen : (ℕ → Bytes) → Reader → Event → Reader
happen sent r (arrive k) = record {
  channel = accept r.channel (k % 65536) (sent k);
  read = r.read;
  delivered = delivered_by r.channel (k % 65536) (sent k) + r.delivered;
}
happen sent r (take_bytes size) = record {
  channel = (consume size r.channel).1;
  read = r.read ++ (consume size r.channel).0;
  delivered = r.delivered;
}

abbrev pub run : (ℕ → Bytes) → Reader → List Event → Reader
run sent r [] = r
run sent r (e ∷ es) = run sent (happen sent r e) es

-- Each packet arrives less than half the sequence space away from the next one to deliver; packets may
-- be lost, repeated and reordered at will.
abbrev pub InWindow : (ℕ → Bytes) → Reader → List Event → Type 0
InWindow sent r [] = Unit
InWindow sent r (arrive k ∷ es) =
    (r.delivered < k + 32768)
    × (k < r.delivered + 32768)
    × InWindow sent (happen sent r (arrive k)) es
InWindow sent r (take_bytes size ∷ es) = InWindow sent (happen sent r (take_bytes size)) es

module _ (sent : ℕ → Bytes) where
  abbrev Good : Reader → Type 0
  Good r = Tracks sent r.delivered r.read r.channel × IsSettled sent r.channel

  consume-Good : (r : Reader) (size : ℕ) → Good r → Good (happen sent r (take_bytes size))
  unfolding consume
  consume-Good r size (t, settled) = (
    record {
      expects = t.expects;
      delivered =
          append_assoc r.read (take size r.channel.buffer) (drop size r.channel.buffer)
          ∙ ap (λ bs. r.read ++ bs) (take-append-drop size r.channel.buffer)
          ∙ t.delivered;
      ahead = t.ahead;
    },
    settled,
  )

  run-Good : (es : List Event) (r : Reader) → Good r → InWindow sent r es → Good (run sent r es)
  run-Good [] r g w = g
  run-Good (arrive k ∷ es) r (t, settled) (lo, hi, w) =
      run-Good es (happen sent r (arrive k))
        (accept-Tracks sent r.delivered r.read r.channel k t settled lo hi) w
  run-Good (take_bytes size ∷ es) r g w =
      run-Good es (happen sent r (take_bytes size)) (consume-Good r size g) w

  -- Over any run of arrivals within the window and of reads, from a fresh channel: what was read and
  -- what is buffered is together exactly the payloads of the packets delivered so far, in the order in
  -- which the peer numbered them, with none missing and none twice; and the next packet in that order
  -- is not left waiting among the packets held.
  pub run-prefix :
      (es : List Event)
      → InWindow sent fresh es
      → ((run sent fresh es).read ++ (run sent fresh es).channel.buffer
          ≡ prefix sent (run sent fresh es).delivered)
        × (lookup ((run sent fresh es).delivered % 65536) (run sent fresh es).channel.held ≡ none)
  run-prefix es w =
      let (t, settled) = run-Good es fresh start w in (t.delivered, rw t.expects at settled)
    where
      start : Good fresh
      start = (record { expects = refl; delivered = refl; ahead = tt }, unfold lookup in refl)
