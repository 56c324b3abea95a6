-- ===== src/Cs2/Transfer.antt =====
-- `write` and `read_exact` of `CS2Session` in src/okam_native/cs2.py.
pub mod Reading
pub mod Numbering
pub mod Sent
pub mod Writing
pub mod Chunks
pub mod Termination
use okam_ha_proxy.Prelude.{
  ℕ, zero, suc, ◌+◌, ◌*◌, ◌%◌, true, false, ◌&&◌, List, [], ◌∷◌, ◌++◌, Bytes, length, take, drop,
  get_or, set, any, to_bytes2, ltb, leb,
}
use okam_ha_proxy.Prelude.Outcome.{
  ok, err, channel_invalid, not_acknowledged, read_request_invalid, cs2_timeout, out_of_fuel,
}
use okam_ha_proxy.Prelude.Exec.{pure, require, gets, modify, ◌>>=◌, ◌>>◌}
use okam_ha_proxy.Cs2.Channel.{consume}
use okam_ha_proxy.Cs2.Cipher.{frame}
use okam_ha_proxy.Cs2.World.{World}
use okam_ha_proxy.Cs2.State.{Action, PendingKey, now, require_connected, send_clear}
use okam_ha_proxy.Cs2.Pending.{put_pending, is_pending}
use okam_ha_proxy.Cs2.Session.{assert_peer, channel_at, update_channel, pump}

-- `DRW_CHUNK_BYTES` and `MAX_FRAME_BYTES`
abbrev pub drw_chunk_bytes : ℕ
drw_chunk_bytes = 1024

abbrev pub max_frame_bytes : ℕ
max_frame_bytes = 8 * 1024 * 1024

-- `payload[offset : offset + DRW_CHUNK_BYTES]` for each offset; a chunk takes at least one byte, so the
-- length of the payload is fuel enough.
unfoldable pub chunks_of : ℕ → Bytes → List Bytes
chunks_of zero payload = []
chunks_of (suc fuel) [] = []
chunks_of (suc fuel) (b ∷ payload) =
    take drw_chunk_bytes (b ∷ payload) ∷ chunks_of fuel (drop drw_chunk_bytes (b ∷ payload))

unfoldable pub chunks : Bytes → List Bytes
unfolding chunks_of
chunks payload = chunks_of (length payload) payload

module _ (world : World) where
  -- The sending half of a round of the first loop of `write`.
  unfoldable pub send_chunk : ℕ → ℕ → Bytes → Action (Unit {0})
  send_chunk channel sequence chunk = do
    let packet = frame 0xd0 ((0xd1 ∷ channel ∷ []) ++ (to_bytes2 sequence ++ chunk))
    peer ← gets (λ s. s.peer)
    address ← assert_peer peer
    send_clear world packet address
    time ← now world
    modify (λ s. record s {
      pending =
          put_pending (channel, sequence) (record { packet = packet; sent_at = time; attempts = 1 })
            s.pending;
    })

  -- One round of the first loop of `write`: a chunk goes out and waits for its acknowledgement.
  unfoldable pub write_chunk : ℕ → Bytes → Action PendingKey
  write_chunk channel chunk = do
    sequences ← gets (λ s. s.outgoing_sequence)
    let sequence = get_or sequences channel 0
    modify (λ s. record s {
      outgoing_sequence = set s.outgoing_sequence channel ((sequence + 1) % 65536);
    })
    send_chunk channel sequence chunk
    pure (channel, sequence)

  unfoldable pub write_chunks : ℕ → List Bytes → Action (List PendingKey)
  unfolding write_chunk
  write_chunks channel [] = pure []
  write_chunks channel (chunk ∷ rest) = do
    key ← write_chunk channel chunk
    keys ← write_chunks channel rest
    pure (key ∷ keys)

  -- The waiting loop of `write`, for at most the given number of rounds.
  unfoldable pub await_acks : ℕ → ℕ → List PendingKey → Action (Unit {0})
  await_acks zero deadline keys s = (err out_of_fuel, s)
  await_acks (suc rounds) deadline keys s = elim (any (λ key. is_pending key s.pending) keys) [
    | false ↦ (ok tt, s)
    | true ↦ elim (leb deadline (world.monotonic s.clock_reads)) [
      | true ↦ (err not_acknowledged, record s { clock_reads = s.clock_reads + 1 })
      | false ↦
          ◌>>◌ (pump world) (await_acks rounds deadline keys)
            (record s { clock_reads = s.clock_reads + 1 })
    ]
  ]

  -- `write`; `timeout` is in milliseconds
  unfoldable pub write : ℕ → ℕ → Bytes → ℕ → Action (Unit {0})
  unfolding write_chunks send_chunk await_acks chunks
  write rounds channel payload timeout = do
    require_connected
    lists ← gets (λ s. s.incoming)
    require (ltb channel (length lists)) channel_invalid
    keys ← write_chunks channel (chunks payload)
    time ← now world
    await_acks rounds (time + timeout) keys

  -- The waiting loop of `read_exact`, for at most the given number of rounds.
  unfoldable pub await_bytes : ℕ → ℕ → ℕ → ℕ → Action (Unit {0})
  await_bytes zero deadline channel size s = (err out_of_fuel, s)
  await_bytes (suc rounds) deadline channel size s =
      elim (ltb (length (channel_at s channel).buffer) size) [
        | false ↦ (ok tt, s)
        | true ↦ elim (leb deadline (world.monotonic s.clock_reads)) [
          | true ↦ (err cs2_timeout, record s { clock_reads = s.clock_reads + 1 })
          | false ↦
              ◌>>◌ (pump world) (await_bytes rounds deadline channel size)
                (record s { clock_reads = s.clock_reads + 1 })
        ]
      ]

  -- `read_exact`; a size is not negative here
  unfoldable pub read_exact : ℕ → ℕ → ℕ → ℕ → Action Bytes
  unfolding await_bytes consume
  read_exact rounds channel size timeout = do
    require_connected
    lists ← gets (λ s. s.incoming)
    require (ltb channel (length lists) && leb size max_frame_bytes) read_request_invalid
    time ← now world
    await_bytes rounds (time + timeout) channel size
    bytes ← gets (λ s. (consume size (channel_at s channel)).0)
    update_channel channel (λ c. (consume size c).1)
    pure bytes
