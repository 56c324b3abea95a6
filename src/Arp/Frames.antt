-- ===== src/Arp/Frames.antt =====
-- Which frames wake a camera.
use mathlib.Core.Path.{subst}
use okam_ha_proxy.Prelude.{
  equal-eq, ℕ, zero, suc, ◌+◌, ◌*◌, ◌≤◌, ◌<◌, arith, All, length, get_or, take, drop, [], ◌∷◌, ◌∙◌,
  ◌≡◌, ◌↔◌, refl, ap, Bool, true, false, not, ◌&&◌, ◌||◌, List, Option, none, some, Text, Bytes,
  slice, from_bytes, replicate, ◌==◌, equal, equal_self, sym, ==_iff, if◌then◌else◌, Bool-cases,
  inl, inr,
}
use okam_ha_proxy.Inet.{Inet}
use okam_ha_proxy.Arp.{
  ArpPacket, is_arp, is_ipv4_arp, packet_of, parse_arp_request, request_only, camera_at, wake_for,
  handle_packet, observe, is_expected_camera_arp,
}

-- A byte of a frame.
abbrev pub byte_of : Bytes → ℕ → ℕ
byte_of frame n = get_or frame n 0

-- A broadcast ARP request in IPv4 over Ethernet, byte by byte: EtherType 0806, hardware type 1, protocol
-- type 0800, address lengths 6 and 4, operation 1, and room for the four addresses.
abbrev pub IsBroadcastRequest : Bytes → Type 0
IsBroadcastRequest frame =
    (42 ≤ length frame)
    × (take 6 frame ≡ 255 ∷ 255 ∷ 255 ∷ 255 ∷ 255 ∷ 255 ∷ [])
    × ((byte_of frame 12 ≡ 8) × (byte_of frame 13 ≡ 6))
    × ((byte_of frame 14 ≡ 0) × (byte_of frame 15 ≡ 1))
    × ((byte_of frame 16 ≡ 8) × (byte_of frame 17 ≡ 0))
    × ((byte_of frame 18 ≡ 6) × (byte_of frame 19 ≡ 4))
    × ((byte_of frame 20 ≡ 0) × (byte_of frame 21 ≡ 1))

-- The same by the tests of the code.
abbrev IsRequest : Bytes → Type 0
IsRequest frame =
    (is_arp frame ≡ true)
    × (is_ipv4_arp frame ≡ true)
    × (equal (slice 0 6 frame) (replicate 6 0xff) ≡ true)
    × (from_bytes (slice 20 22 frame) ≡ 1)

-- A number of two bytes.
from_bytes-pair :
    (k : ℕ) (frame : Bytes)
    → k + 2 ≤ length frame
    → from_bytes (take 2 (drop k frame)) ≡ byte_of frame k * 256 + byte_of frame (suc k)
from_bytes-pair zero [] h = absurd (omega arith)
from_bytes-pair zero (a ∷ []) h = absurd (omega arith)
from_bytes-pair zero (a ∷ b ∷ frame) h = omega arith
from_bytes-pair (suc k) [] h = absurd (omega arith)
from_bytes-pair (suc k) (a ∷ frame) h = from_bytes-pair k frame (omega arith)

byte_of-lt : (frame : Bytes) (k : ℕ) → All (λ b. b < 256) frame → byte_of frame k < 256
byte_of-lt [] k h = omega arith
byte_of-lt (a ∷ frame) zero (h, hs) = h
byte_of-lt (a ∷ frame) (suc k) (h, hs) = byte_of-lt frame k hs

pair_split :
    (frame : Bytes) (k high low : ℕ)
    → All (λ b. b < 256) frame
    → k + 2 ≤ length frame
    → low < 256
    → from_bytes (take 2 (drop k frame)) ≡ high * 256 + low
    → (byte_of frame k ≡ high) × (byte_of frame (suc k) ≡ low)
pair_split frame k high low bytes room small h =
    let e = from_bytes-pair k frame room in
    let bound = byte_of-lt frame (suc k) bytes in (omega arith, omega arith)

IsRequest-IsBroadcastRequest : (frame : Bytes) → IsBroadcastRequest frame → IsRequest frame
IsRequest-IsBroadcastRequest frame (room, everyone, ether, hardware, protocol, sizes, operation) =
    let ether_eq = from_bytes-pair 12 frame (omega arith) in
    let hardware_eq = from_bytes-pair 14 frame (omega arith) in
    let protocol_eq = from_bytes-pair 16 frame (omega arith) in
    let operation_eq = from_bytes-pair 20 frame (omega arith) in
    (ground arith, ground arith, rw everyone refl, omega arith)

IsBroadcastRequest-IsRequest :
    (frame : Bytes) → All (λ b. b < 256) frame → IsRequest frame → IsBroadcastRequest frame
IsBroadcastRequest-IsRequest frame bytes (arp, ipv4, everyone, request) =
    let room : 42 ≤ length frame = ground arith in
    (
      room,
      equal-eq (take 6 frame) _ everyone,
      pair_split frame 12 8 6 bytes (omega arith) (omega arith) (ground arith),
      pair_split frame 14 0 1 bytes (omega arith) (omega arith) (ground arith),
      pair_split frame 16 8 0 bytes (omega arith) (omega arith) (ground arith),
      (ground arith, ground arith),
      pair_split frame 20 0 1 bytes (omega arith) (omega arith) request,
    )

none-some : (packet : ArpPacket) → none ≡ some packet → ⊥
none-some packet h = cc

none-pair : (pair : Text × ArpPacket) → none ≡ some pair → ⊥
none-pair pair h = cc

some-eq : {A : Type 0} {a b : A} → some a ≡ some b → a ≡ b
some-eq h = cc

kept_request :
    (broadcast asked : Bool) (packet kept : ArpPacket)
    → (if not broadcast || not asked then none else some packet) ≡ some kept
    → (broadcast ≡ true) × (asked ≡ true) × (packet ≡ kept)
kept_request true true packet kept h = (refl, refl, some-eq h)
kept_request true false packet kept h = cc
kept_request false asked packet kept h = cc

both : (a b : Bool) → (a && b) ≡ true → (a ≡ true) × (b ≡ true)
both true b h = (refl, h)
both false b h = cc

module _ (inet : Inet) where
  parse_arp_request-IsRequest :
      (frame : Bytes) → IsRequest frame → parse_arp_request inet frame ≡ some (packet_of inet frame)
  unfolding parse_arp_request
  parse_arp_request-IsRequest frame (arp, ipv4, everyone, request) =
      rw (arp, ipv4, everyone, request) refl

  IsRequest-request_only :
      (frame : Bytes) (packet : ArpPacket)
      → is_arp frame ≡ true
      → is_ipv4_arp frame ≡ true
      → request_only inet (some (packet_of inet frame)) ≡ some packet
      → IsRequest frame × (packet ≡ packet_of inet frame)
  IsRequest-request_only frame packet arp ipv4 h =
      let (everyone, request, is) =
        kept_request (equal (slice 0 6 frame) (replicate 6 0xff))
          (from_bytes (slice 20 22 frame) == 1) (packet_of inet frame) packet h in
      ((arp, ipv4, everyone, (==_iff (from_bytes (slice 20 22 frame)) 1).0 request), sym is)

  IsRequest-parse_arp_request :
      (frame : Bytes) (packet : ArpPacket)
      → parse_arp_request inet frame ≡ some packet
      → IsRequest frame × (packet ≡ packet_of inet frame)
  unfolding parse_arp_request
  IsRequest-parse_arp_request frame packet h =
      elim (Bool-cases (is_arp frame && is_ipv4_arp frame)) [
        | inr other ↦ absurd (none-some packet (rw other at h))
        | inl arp ↦
            let (framed, ipv4) = both (is_arp frame) (is_ipv4_arp frame) arp in
            IsRequest-request_only frame packet framed ipv4 (rw arp at h)
      ]

  -- What the frame of a request says.
  abbrev pub said_by : Bytes → ArpPacket
  said_by frame = record {
    operation = 1;
    sender_ip = inet.ntoa (take 4 (drop 28 frame));
    target_ip = inet.ntoa (take 4 (drop 38 frame));
    sender_mac = take 6 (drop 22 frame);
    broadcast = true;
  }

  packet_of-said_by : (frame : Bytes) → IsRequest frame → packet_of inet frame ≡ said_by frame
  packet_of-said_by frame (arp, ipv4, everyone, request) = rw (everyone, request) refl

  -- What wakes a camera.
  abbrev pub Wakes : List (Text × Text) → Bytes → Text → ArpPacket → Type 0
  Wakes cameras frame uid packet =
      IsBroadcastRequest frame
      × (packet ≡ said_by frame)
      × (camera_at cameras (inet.ntoa (take 4 (drop 28 frame))) ≡ some uid)

  Wakes-observe :
      (cameras : List (Text × Text)) (frame : Bytes) (uid : Text) (packet : ArpPacket)
      → Wakes cameras frame uid packet
      → observe inet cameras frame ≡ some (uid, packet)
  unfolding observe
  Wakes-observe cameras frame uid packet (layout, is, known) =
      let request = IsRequest-IsBroadcastRequest frame layout in
      let (arp, ipv4, everyone, asked) = request in
      rw
        (
          is,
          sym (packet_of-said_by frame request),
          parse_arp_request-IsRequest frame request,
          known,
          everyone,
          asked,
          equal_self (inet.ntoa (slice 28 32 frame)),
        )
        refl

  wake_for-eq-some :
      (packet : ArpPacket) (camera : Option Text) (uid : Text) (woken : ArpPacket)
      → wake_for packet camera ≡ some (uid, woken)
      → (camera ≡ some uid) × (packet ≡ woken)
  wake_for-eq-some packet none uid woken h = cc
  wake_for-eq-some packet (some known) uid woken h =
      elim (Bool-cases (is_expected_camera_arp packet (some packet.sender_ip))) [
        | inl expected ↦
            let is : (known, packet) ≡ (uid, woken) = some-eq (rw expected at h) in
            (ap (λ p. some p.0) is, ap (λ p. p.1) is)
        | inr other ↦ absurd (none-pair (uid, woken) (rw other at h))
      ]

  handle_packet-eq-some :
      (cameras : List (Text × Text)) (request : Option ArpPacket) (uid : Text) (woken : ArpPacket)
      → handle_packet cameras request ≡ some (uid, woken)
      → (request ≡ some woken) × (camera_at cameras woken.sender_ip ≡ some uid)
  unfolding handle_packet
  handle_packet-eq-some cameras none uid woken h = cc
  handle_packet-eq-some cameras (some packet) uid woken h =
      let (known, is) = wake_for-eq-some packet (camera_at cameras packet.sender_ip) uid woken h in
      (ap (λ p. some p) is, subst (λ p. camera_at cameras p.sender_ip ≡ some uid) is known)

  -- A frame of bytes that arrives wakes the camera `uid` exactly if it is, byte by byte, a broadcast ARP
  -- request for IPv4 over Ethernet of at least 42 bytes whose sender address is the one configured for that
  -- camera; the packet that is passed on then has the addresses at their places in the frame.
  pub observe-Wakes :
      (cameras : List (Text × Text)) (frame : Bytes) (uid : Text) (packet : ArpPacket)
      → All (λ b. b < 256) frame
      → (observe inet cameras frame ≡ some (uid, packet)) ↔ Wakes cameras frame uid packet
  unfolding observe
  observe-Wakes cameras frame uid packet bytes = (
    λ h.
        let (parsed, known) =
          handle_packet-eq-some cameras (parse_arp_request inet frame) uid packet h in
        let (request, is) = IsRequest-parse_arp_request frame packet parsed in
        (
          IsBroadcastRequest-IsRequest frame bytes request,
          is ∙ packet_of-said_by frame request,
          subst (λ p. camera_at cameras p.sender_ip ≡ some uid) is known,
        ),
    Wakes-observe cameras frame uid packet,
  )
