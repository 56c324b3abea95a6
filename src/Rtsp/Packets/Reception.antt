-- ===== src/Rtsp/Packets/Reception.antt =====
-- What a receiver makes of the packets of a NAL unit: `_rtp_packets` of src/okam_native/rtsp.py.
use okam_ha_proxy.Prelude.{
  ℕ, zero, suc, ◌+◌, ◌%◌, ◌^◌, ◌≤◌, ◌<◌, bit_and, bit_or, Bool, true, false, not, ◌&&◌, List, [],
  ◌∷◌, ◌++◌, append_assoc, append-nil, map, ◌≡◌, refl, ap, sym, ◌∙◌, arith, Option, none, some,
  Bytes, length, length-drop, null, take, drop, take-append-drop, leb, ◌==◌, if◌then◌else◌,
  Bool-cases, inl, inr, holds_below, holds_below-at,
}
use okam_ha_proxy.Rtsp.Packets.{header, fu_header, fragments, rtp_packets, next_of}
use okam_ha_proxy.Rtsp.Packets.Receiver.{Step, payload, is_expected, all_of, receive}

-- The bits of the fragment's two header bytes, for every header byte.
abbrev test_bits : Bool → Bool → ℕ → Bool
test_bits first last h =
    let indicator = bit_or (bit_and h 0xe0) 28 in
    let fu = fu_header (bit_and h 0x1f) first last in
    (bit_and indicator 0x1f == 28)
    && (bit_or (bit_and indicator 0xe0) (bit_and fu 0x1f) == h)
    && (if first then leb 0x80 fu else not (leb 0x80 fu))
    && (if last then bit_and fu 0x40 == 0x40 else not (bit_and fu 0x40 == 0x40))

test_bits_lem : (first last : Bool) (h : ℕ) → h < 256 → test_bits first last h ≡ true
unfolding holds_below
test_bits_lem true true h small = holds_below-at (test_bits true true) 256 refl h small
test_bits_lem true false h small = holds_below-at (test_bits true false) 256 refl h small
test_bits_lem false true h small = holds_below-at (test_bits false true) 256 refl h small
test_bits_lem false false h small = holds_below-at (test_bits false false) 256 refl h small

abbrev fragment_of : ℕ → Bool → Bool → Bytes → Bytes
fragment_of h first last piece =
    bit_or (bit_and h 0xe0) 28 ∷ fu_header (bit_and h 0x1f) first last ∷ piece

-- What is held before a fragment whose unit has given `nal` so far.
abbrev held : Bool → Bytes → Option Bytes
held true nal = none
held false nal = some nal

abbrev grown : Bool → Bytes → Step
grown true nal = some (none, nal ∷ [])
grown false nal = some (some nal, [])

payload-fragment :
    (h : ℕ) (first last : Bool) (nal piece : Bytes)
    → h < 256
    → (first ≡ true → nal ≡ h ∷ [])
    → payload (held first nal) (fragment_of h first last piece) ≡ grown last (nal ++ piece)
payload-fragment h true true nal piece small start =
    let bits = test_bits_lem true true h small in rw (start refl) (ground arith)
payload-fragment h true false nal piece small start =
    let bits = test_bits_lem true false h small in rw (start refl) (ground arith)
payload-fragment h false true nal piece small start =
    let bits = test_bits_lem false true h small in ground arith
payload-fragment h false false nal piece small start =
    let bits = test_bits_lem false false h small in ground arith

-- One packet that carries the number expected and a payload that is understood.
from_bytes-header :
    (timestamp ssrc sequence : ℕ) (marker : Bool) (bytes : Bytes)
    → sequence < 2 ^ 16
    → timestamp < 2 ^ 32
    → ssrc < 2 ^ 32
    → is_expected timestamp ssrc sequence marker (header timestamp ssrc sequence marker ++ bytes)
      ≡ true
from_bytes-header timestamp ssrc sequence true bytes small time source = ground arith
from_bytes-header timestamp ssrc sequence false bytes small time source = ground arith

module _ (timestamp ssrc : ℕ) (time : timestamp < 2 ^ 32) (source : ssrc < 2 ^ 32) where
  receive-packet :
      (partial after : Option Bytes) (nals : List Bytes) (sequence : ℕ) (marker : Bool)
      (bytes : Bytes) (packets : List Bytes)
      → sequence < 2 ^ 16
      → null packets ≡ marker
      → payload partial bytes ≡ some (after, nals)
      → receive timestamp ssrc partial sequence
          ((header timestamp ssrc sequence marker ++ bytes) ∷ packets)
        ≡ all_of nals (receive timestamp ssrc after ((sequence + 1) % 2 ^ 16) packets)
  unfolding receive
  receive-packet none after nals sequence marker bytes packets small ends understood =
      rw
        (
          ends,
          from_bytes-header timestamp ssrc sequence marker bytes small time source,
          receive,
          understood,
        )
        refl
  receive-packet (some nal) after nals sequence marker bytes packets small ends understood =
      rw
        (
          ends,
          from_bytes-header timestamp ssrc sequence marker bytes small time source,
          receive,
          understood,
        )
        refl

and_true : (b : Bool) → b ≡ (b && true)
and_true true = refl
and_true false = refl

and_false : (b : Bool) → false ≡ (b && false)
and_false true = refl
and_false false = refl

null-eq : (bytes : Bytes) → null bytes ≡ true → bytes ≡ []
null-eq [] h = refl
null-eq (byte ∷ bytes) h = cc

pub full-null : (bytes : Bytes) → null bytes ≡ false → 0 < length bytes
full-null [] h = cc
full-null (byte ∷ bytes) h = omega arith

all_of-nil : (nals : Option (List Bytes)) → all_of [] nals ≡ nals
all_of-nil none = refl
all_of-nil (some nals) = refl

pub null-append : (a b : List Bytes) → null a ≡ false → null (a ++ b) ≡ false
null-append [] b h = cc
null-append (packet ∷ a) b h = refl

module _ (timestamp ssrc : ℕ) (marker : Bool) where
  fragments-goes_on :
      (fuel h : ℕ) (behind : Bytes) (sequence : ℕ)
      → 0 < length behind
      → length behind ≤ fuel
      → null (map (λ p. p.0) (fragments timestamp ssrc marker fuel h behind false sequence)) ≡ false
  unfolding fragments
  fragments-goes_on zero h behind sequence full enough = absurd (omega arith)
  fragments-goes_on (suc fuel) h [] sequence full enough = absurd (omega arith)
  fragments-goes_on (suc fuel) h (b ∷ bytes) sequence full enough = refl

  fragments-ended :
      (fuel h : ℕ) (behind : Bytes) (sequence : ℕ)
      → null behind ≡ true
      → fragments timestamp ssrc marker fuel h behind false sequence ≡ []
  unfolding fragments
  fragments-ended zero h behind sequence ends = refl
  fragments-ended (suc fuel) h [] sequence ends = refl
  fragments-ended fuel h (b ∷ bytes) sequence ends = cc

  pub rtp_packets-any :
      (nal : Bytes) (sequence : ℕ)
      → null (map (λ p. p.0) (rtp_packets timestamp ssrc marker nal sequence)) ≡ false
  unfolding rtp_packets fragments
  rtp_packets-any [] sequence = refl
  rtp_packets-any (h ∷ []) sequence = refl
  rtp_packets-any (h ∷ b ∷ rest) sequence = elim (Bool-cases (leb (suc (length (b ∷ rest))) 1400)) [
    | inl short ↦ rw short refl
    | inr long ↦ rw long refl
  ]

module _ (timestamp ssrc : ℕ) (time : timestamp < 2 ^ 32) (source : ssrc < 2 ^ 32)
    (marker : Bool) where
  receive-nothing :
      (fuel h : ℕ) (behind nal piece rest : Bytes) (sequence : ℕ) (more : List Bytes)
      → null behind ≡ true
      → nal ++ rest ≡ (nal ++ piece) ++ behind
      → let packets = fragments timestamp ssrc marker fuel h behind false sequence in
        all_of
          ((nal ++ piece) ∷ [])
          (receive timestamp ssrc none sequence (map (λ p. p.0) packets ++ more))
        ≡ all_of ((nal ++ rest) ∷ []) (receive timestamp ssrc none (next_of sequence packets) more)
  unfolding fragments
  receive-nothing zero h [] nal piece rest sequence more ends whole =
      rw (whole, append-nil (nal ++ piece)) refl
  receive-nothing (suc fuel) h [] nal piece rest sequence more ends whole =
      rw (whole, append-nil (nal ++ piece)) refl
  receive-nothing fuel h (b ∷ bytes) nal piece rest sequence more ends whole = cc

  receive-fragments :
      (fuel h : ℕ) (rest : Bytes) (first : Bool) (nal : Bytes) (sequence : ℕ) (more : List Bytes)
      → 0 < length rest
      → length rest ≤ fuel
      → h < 256
      → (first ≡ true → nal ≡ h ∷ [])
      → sequence < 2 ^ 16
      → null more ≡ marker
      → let packets = fragments timestamp ssrc marker fuel h rest first sequence in
        receive timestamp ssrc (held first nal) sequence (map (λ p. p.0) packets ++ more)
        ≡ all_of ((nal ++ rest) ∷ []) (receive timestamp ssrc none (next_of sequence packets) more)
  unfolding fragments
  receive-fragments zero h [] first nal sequence more full enough small start below marked =
      absurd (omega arith)
  receive-fragments zero h (b ∷ bytes) first nal sequence more full enough small start below
        marked =
      absurd (omega arith)
  receive-fragments (suc fuel) h [] first nal sequence more full enough small start below marked =
      absurd (omega arith)
  receive-fragments (suc fuel) h (b ∷ bytes) first nal sequence more full enough small start below
        marked =
      let rest = b ∷ bytes in
      let piece = take 1398 rest in
      let behind = drop 1398 rest in
      let next = (sequence + 1) % 2 ^ 16 in
      let others =
        map (λ p. p.0) (fragments timestamp ssrc marker fuel h behind false next) ++ more in
      let whole : nal ++ rest ≡ (nal ++ piece) ++ behind =
        ap (λ r. nal ++ r) (sym (take-append-drop 1398 rest))
        ∙ sym (append_assoc nal piece behind) in
      elim (Bool-cases (null behind)) [
        | inl last ↦
            let met =
              receive-packet timestamp ssrc time source (held first nal) none ((nal ++ piece) ∷ [])
                sequence (marker && true) (fragment_of h first true piece) others below
                (rw (fragments-ended timestamp ssrc marker fuel h behind next last)
                  (marked ∙ and_true marker))
                (payload-fragment h first true nal piece small start) in
            rw last (met ∙ receive-nothing fuel h behind nal piece rest next more last whole)
        | inr goes_on ↦
            let met =
              receive-packet timestamp ssrc time source (held first nal) (some (nal ++ piece)) []
                sequence (marker && false) (fragment_of h first false piece) others below
                (null-append _ more (
                    fragments-goes_on timestamp ssrc marker fuel h behind next
                      (full-null behind goes_on) (omega (arith, length-drop 1398 rest)))
                  ∙ and_false marker)
                (payload-fragment h first false nal piece small start) in
            let ih =
              receive-fragments fuel h behind false (nal ++ piece) next more
                (full-null behind goes_on) (omega (arith, length-drop 1398 rest)) small (λ e. cc)
                (omega arith) marked in
            rw goes_on (met ∙ all_of-nil _ ∙ rw (ih, whole) refl)
      ]

  pub receive-rtp_packets :
      (h : ℕ) (rest : Bytes) (sequence : ℕ) (more : List Bytes)
      → h < 256
      → 1 ≤ bit_and h 0x1f
      → bit_and h 0x1f ≤ 23
      → sequence < 2 ^ 16
      → null more ≡ marker
      → let packets = rtp_packets timestamp ssrc marker (h ∷ rest) sequence in
        receive timestamp ssrc none sequence (map (λ p. p.0) packets ++ more)
        ≡ all_of ((h ∷ rest) ∷ []) (receive timestamp ssrc none (next_of sequence packets) more)
  unfolding rtp_packets
  receive-rtp_packets h rest sequence more small some_kind single_kind below marked =
      elim (Bool-cases (leb (suc (length rest)) 1400)) [
        | inl short ↦
            let single : (bit_and h 0x1f == 28) ≡ false = ground arith in
            let known : (leb 1 (bit_and h 0x1f) && leb (bit_and h 0x1f) 23) ≡ true = ground arith in
            rw short (
              receive-packet timestamp ssrc time source none none ((h ∷ rest) ∷ []) sequence marker
                (h ∷ rest) more below marked (rw (single, known) refl))
        | inr long ↦ rw long (
            receive-fragments (length rest) h rest true (h ∷ []) sequence more (ground arith)
              (omega arith) small (λ e. refl) below marked)
      ]
