-- ===== src/Rtsp/Packets/Receiver.antt =====
-- A receiver of RTP packets after RFC 6184.
use okam_ha_proxy.Prelude.{
  ℕ, ◌+◌, ◌%◌, ◌^◌, bit_and, bit_or, Bool, true, false, ◌&&◌, List, [], ◌∷◌, ◌++◌, Option, none,
  some, Bytes, null, take, drop, slice, from_bytes, leb, ◌==◌, equal, if◌then◌else◌,
}

-- What the receiver holds of an unfinished NAL unit, and the units that are complete.
abbrev pub Step : Type 0
Step = Option (Option Bytes × List Bytes)

abbrev finish : Bool → Option Bytes → Step
finish ends none = none
finish true (some nal) = some (none, nal ∷ [])
finish false (some nal) = some (some nal, [])

abbrev extend : Option Bytes → Bytes → Option Bytes
extend none piece = none
extend (some nal) piece = some (nal ++ piece)

-- A fragment: the first has bit 7 of its header set, the last bit 6.
abbrev fragment : Option Bytes → ℕ → Bytes → Step
fragment partial indicator [] = none
fragment partial indicator (fu ∷ piece) = finish (bit_and fu 0x40 == 0x40) (
    if leb 0x80 fu
    then some (bit_or (bit_and indicator 0xe0) (bit_and fu 0x1f) ∷ piece)
    else extend partial piece)

-- Types 1 to 23 are single units, and 28 is FU-A; the other types are not those of a unit.
abbrev pub payload : Option Bytes → Bytes → Step
payload partial [] = none
payload partial (indicator ∷ bytes) =
    let nal_type = bit_and indicator 0x1f in
    if nal_type == 28
    then fragment partial indicator bytes
    else if leb 1 nal_type && leb nal_type 23
    then some (none, (indicator ∷ bytes) ∷ [])
    else none

-- Version 2 without padding, extension or sources, payload type 96, the marker exactly where the packet
-- is the `last` one, and the numbers expected.
abbrev pub is_expected : ℕ → ℕ → ℕ → Bool → Bytes → Bool
is_expected timestamp ssrc sequence last packet =
    equal (take 2 packet) (0x80 ∷ (if last then 0xe0 else 0x60) ∷ [])
    && (from_bytes (slice 2 4 packet) == sequence)
    && (from_bytes (slice 4 8 packet) == timestamp)
    && (from_bytes (slice 8 12 packet) == ssrc)

abbrev pub all_of : List Bytes → Option (List Bytes) → Option (List Bytes)
all_of nals none = none
all_of nals (some more) = some (nals ++ more)

-- All NAL units of the packets of an access unit, whose sequence numbers go up by one from `sequence`,
-- and which have the timestamp, the source, and the marker on the last of them; `none` where a packet is
-- missing, malformed, or the last unit is not finished.
unfoldable pub receive : ℕ → ℕ → Option Bytes → ℕ → List Bytes → Option (List Bytes)
receive timestamp ssrc none sequence [] = some []
receive timestamp ssrc (some nal) sequence [] = none
receive timestamp ssrc partial sequence (packet ∷ packets) =
    elim (is_expected timestamp ssrc sequence (null packets) packet) [
      | false ↦ none
      | true ↦ elim (payload partial (drop 12 packet)) [
        | none ↦ none
        | some after ↦
            all_of after.1 (receive timestamp ssrc after.0 ((sequence + 1) % 2 ^ 16) packets)
      ]
    ]
