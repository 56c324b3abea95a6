-- ===== src/Rtsp/Packets.antt =====
-- RTP packets: `_rtp_packets` of src/okam_native/rtsp.py.
pub mod Receiver
pub mod Reception
pub mod Units
use okam_ha_proxy.Prelude.{
  ℕ, zero, suc, ◌+◌, ◌*◌, ◌-◌, ◌%◌, ◌^◌, bit_and, bit_or, Bool, true, false, ◌&&◌, List, [], ◌∷◌,
  ◌++◌, map, Bytes, length, null, take, drop, to_bytes2, to_bytes4, leb, if◌then◌else◌,
}

abbrev pub max_rtp_payload : ℕ
max_rtp_payload = 1400

-- `int(flag)`
abbrev pub bit_of : Bool → ℕ
bit_of true = 1
bit_of false = 0

-- The header of a packet: version 2, the marker over the payload type 96, the sequence number, the
-- timestamp and the source.
abbrev pub header : ℕ → ℕ → ℕ → Bool → Bytes
header timestamp ssrc sequence marker =
    (0x80 ∷ bit_or (bit_of marker * 128) 96 ∷ [])
    ++ (to_bytes2 sequence ++ (to_bytes4 timestamp ++ to_bytes4 ssrc))

abbrev pub fu_header : ℕ → Bool → Bool → ℕ
fu_header nal_type first last =
    bit_or (bit_or nal_type (if first then 0x80 else 0)) (if last then 0x40 else 0)

-- What `for packet, sequence in packets` leaves in `sequence`.
abbrev pub next_of : ℕ → List (Bytes × ℕ) → ℕ
next_of sequence [] = sequence
next_of sequence (packet ∷ packets) = next_of packet.1 packets

module _ (timestamp ssrc : ℕ) (marker : Bool) where
  -- The loop over the fragments; `rest` is `nal[offset:]`, and each round takes at least one byte of it.
  unfoldable pub fragments : ℕ → ℕ → Bytes → Bool → ℕ → List (Bytes × ℕ)
  fragments zero nal_header rest first sequence = []
  fragments (suc fuel) nal_header [] first sequence = []
  fragments (suc fuel) nal_header (byte ∷ bytes) first sequence =
      let rest = byte ∷ bytes in
      let behind = drop (max_rtp_payload - 2) rest in
      let last = null behind in
      let next = (sequence + 1) % 2 ^ 16 in
      (
        header timestamp ssrc sequence (marker && last)
            ++ (bit_or (bit_and nal_header 0xe0) 28
                ∷ fu_header (bit_and nal_header 0x1f) first last
                ∷ take (max_rtp_payload - 2) rest),
        next,
      )
      ∷ fragments fuel nal_header behind false next

  -- `_rtp_packets`: each packet with the sequence number of the next one
  unfoldable pub rtp_packets : Bytes → ℕ → List (Bytes × ℕ)
  unfolding fragments
  rtp_packets [] sequence = (header timestamp ssrc sequence marker, (sequence + 1) % 2 ^ 16) ∷ []
  rtp_packets (nal_header ∷ payload) sequence =
      if leb (suc (length payload)) max_rtp_payload
      then (
        header timestamp ssrc sequence marker ++ (nal_header ∷ payload),
        (sequence + 1) % 2 ^ 16,
      )
        ∷ []
      else fragments (length payload) nal_header payload true sequence

-- `_send_access_unit`: the packets that go out, each in an interleaved frame, and the next sequence
-- number; the last NAL unit of the access unit has the marker.
abbrev pub interleaved : ℕ → Bytes → Bytes
interleaved rtp_channel packet = (0x24 ∷ rtp_channel ∷ []) ++ (to_bytes2 (length packet) ++ packet)

unfoldable pub packets_of : ℕ → ℕ → List Bytes → ℕ → List Bytes × ℕ
packets_of timestamp ssrc [] sequence = ([], sequence)
packets_of timestamp ssrc (nal ∷ nals) sequence =
    let packets = rtp_packets timestamp ssrc (null nals) nal sequence in
    let (others, next) = packets_of timestamp ssrc nals (next_of sequence packets) in
    (map (λ p. p.0) packets ++ others, next)

unfoldable pub send_access_unit : ℕ → List Bytes → ℕ → ℕ → ℕ → List Bytes × ℕ
unfolding packets_of
send_access_unit rtp_channel access_unit sequence timestamp ssrc =
    let (packets, next) = packets_of timestamp ssrc access_unit sequence in
    (map (interleaved rtp_channel) packets, next)
