-- ===== src/Arp.antt =====
-- The observation of ARP requests: the file src/okam_native/arp_listener.py. The socket, the thread
-- and the log lines are left out; an interface is not looked at.
pub mod Frames
pub mod Tests
use okam_ha_proxy.Prelude.{
  ℕ, ◌*◌, Bool, true, false, not, ◌&&◌, ◌||◌, List, [], ◌∷◌, Option, none, some, Text, Bytes,
  length, get_or, slice, from_bytes, replicate, ltb, ◌==◌, equal, if◌then◌else◌,
}
use okam_ha_proxy.Inet.{Inet}

-- `ArpPacket`; `sender_mac` is kept as the bytes that are printed.
pub record ArpPacket : Type 0 where
  pub operation : ℕ
  pub sender_ip : Text
  pub target_ip : Text
  pub sender_mac : Bytes
  pub broadcast : Bool

abbrev pub arp_frame_length : ℕ
arp_frame_length = 42

-- The header fields that must be those of ARP over Ethernet for IPv4.
abbrev pub is_arp : Bytes → Bool
is_arp frame =
    not (ltb (length frame) arp_frame_length) && (from_bytes (slice 12 14 frame) == 0x0806)

abbrev pub is_ipv4_arp : Bytes → Bool
is_ipv4_arp frame =
    (from_bytes (slice 14 16 frame) == 1)
    && (from_bytes (slice 16 18 frame) == 0x0800)
    && (get_or frame 18 0 == 6)
    && (get_or frame 19 0 == 4)

module _ (inet : Inet) where
  abbrev pub packet_of : Bytes → ArpPacket
  packet_of frame = record {
    operation = from_bytes (slice 20 22 frame);
    sender_ip = inet.ntoa (slice 28 32 frame);
    target_ip = inet.ntoa (slice 38 42 frame);
    sender_mac = slice 22 28 frame;
    broadcast = equal (slice 0 6 frame) (replicate 6 0xff);
  }

  unfoldable pub parse_arp_packet : Bytes → Option ArpPacket
  parse_arp_packet frame =
      if is_arp frame && is_ipv4_arp frame then some (packet_of frame) else none

  abbrev pub request_only : Option ArpPacket → Option ArpPacket
  request_only none = none
  request_only (some packet) =
      if not packet.broadcast || not (packet.operation == 1) then none else some packet

  unfoldable pub parse_arp_request : Bytes → Option ArpPacket
  unfolding parse_arp_packet
  parse_arp_request frame = request_only (parse_arp_packet frame)

abbrev pub is_known : Option Text → Text → Bool
is_known none ip = false
is_known (some camera_ip) ip = equal ip camera_ip

abbrev pub is_expected_camera_arp : ArpPacket → Option Text → Bool
is_expected_camera_arp request camera_ip =
    request.broadcast && (request.operation == 1) && is_known camera_ip request.sender_ip

-- `self._ip_to_camera_uid.get(ip)`
unfoldable pub camera_at : List (Text × Text) → Text → Option Text
camera_at [] ip = none
camera_at (entry ∷ entries) ip = if equal entry.0 ip then some entry.1 else camera_at entries ip

abbrev pub wake_for : ArpPacket → Option Text → Option (Text × ArpPacket)
wake_for packet none = none
wake_for packet (some uid) =
    if is_expected_camera_arp packet (some packet.sender_ip) then some (uid, packet) else none

-- `_handle_packet`: the call of `on_wake` that is made, if any
unfoldable pub handle_packet : List (Text × Text) → Option ArpPacket → Option (Text × ArpPacket)
unfolding camera_at
handle_packet cameras none = none
handle_packet cameras (some packet) = wake_for packet (camera_at cameras packet.sender_ip)

-- A round of the loop of `_run`.
unfoldable pub observe : Inet → List (Text × Text) → Bytes → Option (Text × ArpPacket)
unfolding parse_arp_request handle_packet
observe inet cameras frame = handle_packet cameras (parse_arp_request inet frame)
