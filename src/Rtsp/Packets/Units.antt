-- ===== src/Rtsp/Packets/Units.antt =====
-- The packets of an access unit: `_send_access_unit` of src/okam_native/rtsp.py.
use okam_ha_proxy.Prelude.{
  ℕ, zero, suc, ◌+◌, ◌%◌, ◌^◌, ◌≤◌, ◌<◌, bit_and, Bool, true, false, List, [], ◌∷◌, map, ◌≡◌, refl,
  ap, ◌∙◌, arith, none, some, Bytes, All, All-append, length, length-take, null, drop, leb,
  Bool-cases, inl, inr,
}
use okam_ha_proxy.Rtsp.Packets.{
  fragments, rtp_packets, next_of, packets_of, send_access_unit, interleaved,
}
use okam_ha_proxy.Rtsp.Packets.Receiver.{receive, all_of}
use okam_ha_proxy.Rtsp.Packets.Reception.{receive-rtp_packets, rtp_packets-any, null-append}

-- A packet, and the number of the one behind it.
abbrev IsSound : Bytes × ℕ → Type 0
IsSound packet = (length packet.0 ≤ 1412) × (packet.1 < 2 ^ 16)

-- A NAL unit of one of the types 1 to 23, which are those of single units.
abbrev pub IsSendable : Bytes → Type 0
IsSendable [] = ⊥
IsSendable (h ∷ rest) = (h < 256) × (1 ≤ bit_and h 0x1f) × (bit_and h 0x1f ≤ 23)

abbrev pub IsPacket : Bytes → Type 0
IsPacket packet = length packet ≤ 1412

All-IsPacket :
    (packets : List (Bytes × ℕ)) → All IsSound packets → All IsPacket (map (λ p. p.0) packets)
All-IsPacket [] h = tt
All-IsPacket (packet ∷ packets) (sound, sounds) = (sound.0, All-IsPacket packets sounds)

next_of-lt :
    (sequence : ℕ) (packets : List (Bytes × ℕ))
    → sequence < 2 ^ 16
    → All IsSound packets
    → next_of sequence packets < 2 ^ 16
next_of-lt sequence [] h sounds = h
next_of-lt sequence (packet ∷ packets) h (sound, sounds) =
    next_of-lt packet.1 packets sound.1 sounds

module _ (timestamp ssrc : ℕ) where
  fragments-IsSound :
      (marker : Bool) (fuel h : ℕ) (rest : Bytes) (first : Bool) (sequence : ℕ)
      → All IsSound (fragments timestamp ssrc marker fuel h rest first sequence)
  unfolding fragments
  fragments-IsSound marker zero h rest first sequence = tt
  fragments-IsSound marker (suc fuel) h [] first sequence = tt
  fragments-IsSound marker (suc fuel) h (b ∷ bytes) first sequence = (
    (omega (arith, length-take 1398 (b ∷ bytes)), omega arith),
    fragments-IsSound marker fuel h (drop 1398 (b ∷ bytes)) false ((sequence + 1) % 2 ^ 16),
  )

  rtp_packets-IsSound :
      (marker : Bool) (nal : Bytes) (sequence : ℕ)
      → All IsSound (rtp_packets timestamp ssrc marker nal sequence)
  unfolding rtp_packets
  rtp_packets-IsSound marker [] sequence = ((omega arith, omega arith), tt)
  rtp_packets-IsSound marker (h ∷ rest) sequence =
      elim (Bool-cases (leb (suc (length rest)) 1400)) [
        | inl short ↦ rw short ((ground arith, omega arith), tt)
        | inr long ↦ rw long (fragments-IsSound marker (length rest) h rest true sequence)
      ]

  packets_of-null :
      (nals : List Bytes) (sequence : ℕ)
      → null (packets_of timestamp ssrc nals sequence).0 ≡ null nals
  unfolding packets_of
  packets_of-null [] sequence = refl
  packets_of-null (nal ∷ nals) sequence =
      null-append _ _ (rtp_packets-any timestamp ssrc (null nals) nal sequence)

  packets_of-received :
      (nals : List Bytes) (sequence : ℕ)
      → timestamp < 2 ^ 32
      → ssrc < 2 ^ 32
      → All IsSendable nals
      → sequence < 2 ^ 16
      → (receive timestamp ssrc none sequence (packets_of timestamp ssrc nals sequence).0
          ≡ some nals)
        × All IsPacket (packets_of timestamp ssrc nals sequence).0
        × ((packets_of timestamp ssrc nals sequence).1 < 2 ^ 16)
  unfolding packets_of receive
  packets_of-received [] sequence time source sendable below = (refl, tt, below)
  packets_of-received ([] ∷ nals) sequence time source sendable below = absurd sendable.0
  packets_of-received ((h ∷ rest) ∷ nals) sequence time source (sendable, others) below =
      let packets = rtp_packets timestamp ssrc (null nals) (h ∷ rest) sequence in
      let sounds = rtp_packets-IsSound (null nals) (h ∷ rest) sequence in
      let next = next_of sequence packets in
      let (read, sizes, small) =
        packets_of-received nals next time source others
          (next_of-lt sequence packets below sounds) in
      let received =
        receive-rtp_packets timestamp ssrc time source (null nals) h rest sequence
          (packets_of timestamp ssrc nals next).0 sendable.0 sendable.1 sendable.2 below
          (packets_of-null nals next) in
      (
        received ∙ ap (all_of ((h ∷ rest) ∷ [])) read,
        All-append IsPacket (map (λ p. p.0) packets) _ (All-IsPacket packets sounds) sizes,
        small,
      )

  -- What `_send_access_unit` sends for the NAL units of an access unit, all of them of types 1 to 23, are
  -- interleaved frames of packets of at most 1412 bytes, from which a receiver that follows RFC 6184 gets
  -- exactly these NAL units, while it checks of every packet the version, the payload type, the sequence
  -- number, the timestamp, the source, and that the marker is on the last packet and on no other; the
  -- number that is returned for the next access unit fits 16 bits.
  pub send_access_unit-received :
      (rtp_channel : ℕ) (nals : List Bytes) (sequence : ℕ)
      → timestamp < 2 ^ 32
      → ssrc < 2 ^ 32
      → All IsSendable nals
      → sequence < 2 ^ 16
      → (packets : List Bytes) × ((send_access_unit rtp_channel nals sequence timestamp ssrc).0
          ≡ map (interleaved rtp_channel) packets)
        × (receive timestamp ssrc none sequence packets ≡ some nals)
        × All IsPacket packets
        × ((send_access_unit rtp_channel nals sequence timestamp ssrc).1 < 2 ^ 16)
  unfolding send_access_unit
  send_access_unit-received rtp_channel nals sequence time source sendable below =
      let (read, sizes, small) = packets_of-received nals sequence time source sendable below in
      ((packets_of timestamp ssrc nals sequence).0, refl, read, sizes, small)
