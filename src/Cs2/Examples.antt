-- ===== src/Cs2/Examples.antt =====
-- A world and a session for the tests and the instances of the theorems.
use okam_ha_proxy.Prelude.{
  ◌*◌, true, false, [], ◌∷◌, ◌++◌, ◌≡◌, refl, sym, ap, Option, none, some, arith, inl, inr, Text,
  Bytes, IsBytes, codes, replicate, set, length, equal, equal-eq, Bool-cases, ◌==◌, if◌then◌else◌,
}
use okam_ha_proxy.Cs2.Address.{Endpoint}
use okam_ha_proxy.Cs2.Channel.{empty_channel}
use okam_ha_proxy.Inet.{Inet}
use okam_ha_proxy.Cs2.Cipher.{is_ascii}
use okam_ha_proxy.Cs2.Session.Sending.{IsUp}
use okam_ha_proxy.Cs2.Session.Invariant.{IsValid}
use okam_ha_proxy.Cs2.World.{World, timed_out}
use okam_ha_proxy.Cs2.State.{Session, opened}

-- The clock advances by 100 ms with each reading, nothing arrives, and every datagram goes out.
abbrev pub quiet : World
quiet = record {
  monotonic = λ n. 100 * n;
  recvfrom = λ n. timed_out;
  refuses = λ n packet address. false;
}

abbrev pub camera : Endpoint
camera = (codes "192.0.2.7", 32108)

abbrev pub device : Bytes
device =
    codes "ABCD" ++ (0 ∷ 0 ∷ 0 ∷ 0 ∷ 0 ∷ 1 ∷ 226 ∷ 64 ∷ []) ++ codes "VWXYZ" ++ (0 ∷ 0 ∷ 0 ∷ [])

abbrev pub ready : Session
ready = record {
  uid = device;
  servers = codes "203.0.113.1" ∷ [];
  key = codes "abc";
  prefer_relay = true;
  socket = opened;
  peer = some camera;
  outgoing_sequence = replicate 8 0;
  incoming = replicate 8 empty_channel;
  pending = [];
  closed = false;
  counters = [];
  close_targets = [];
  connect_path = codes "relay";
  wire = [];
  sends = 0;
  receives = 0;
  clock_reads = 0;
}

-- An `Inet` for the instances: the text of an address is its bytes, but for 0.0.0.0.
abbrev pub zero_address : Bytes
zero_address = 0 ∷ 0 ∷ 0 ∷ 0 ∷ []

abbrev pub plain_aton : Text → Option Bytes
plain_aton host =
    if equal host (codes "0.0.0.0")
    then some zero_address
    else if length host == 4
    then some host
    else none

abbrev pub plain_ntoa : Bytes → Text
plain_ntoa packed = if equal packed zero_address then codes "0.0.0.0" else packed

pub length-plain_aton :
    (host : Text) (packed : Bytes) → plain_aton host ≡ some packed → length packed ≡ 4
length-plain_aton host packed h = ground arith

pub plain_aton-plain_ntoa :
    (packed : Bytes)
    → length packed ≡ 4
    → IsBytes packed
    → plain_aton (plain_ntoa packed) ≡ some packed
plain_aton-plain_ntoa packed four bytes = elim (Bool-cases (equal packed zero_address)) [
  | inl same ↦ rw same (ap some (sym (equal-eq packed zero_address same)))
  | inr other ↦ rw other (elim (Bool-cases (equal packed (codes "0.0.0.0"))) [
    | inl text ↦ absurd (omega (arith, ap length (equal-eq packed (codes "0.0.0.0") text)))
    | inr not_text ↦ rw (not_text, four) refl
  ])
]

abbrev pub plain_inet : Inet
plain_inet = record {
  aton = plain_aton;
  ntoa = plain_ntoa;
  length-aton = length-plain_aton;
  aton-ntoa = plain_aton-plain_ntoa;
  ntoa_zero = refl;
}

-- While its channel 1 holds 64 packets.
abbrev pub crowded : Session
crowded = record ready {
  incoming =
      set (replicate 8 empty_channel) 1
        (record { expected = 0; buffer = []; held = replicate 64 (5, []) });
}

pub quiet-IsUp : (s : Session) → s.socket ≡ opened → is_ascii s.key ≡ true → IsUp quiet s
quiet-IsUp s is_open ascii = record {
  is_open = is_open;
  ascii = ascii;
  goes_out = λ n packet address. refl;
}

pub ready-IsValid : IsValid ready
ready-IsValid = record {
  channels = refl;
  bounded = omega arith;
  numbered = refl;
  numbers = omega arith;
  retries = tt;
  closed_means = λ h. cc;
}
