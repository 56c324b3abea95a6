-- ===== src/Cs2/Connect/Messages.antt =====
-- The packets of the negotiation in `connect` of src/okam_native/cs2.py, and its local variables.
use okam_ha_proxy.Prelude.{
  ℕ, zero, suc, ◌+◌, ◌-◌, Bool, ◌&&◌, List, [], ◌∷◌, ◌++◌, Option, none, some, Text, Bytes, equal,
  length, take, slice, any, min, max, ◌==◌, if◌then◌else◌,
}
use okam_ha_proxy.Prelude.Outcome.{Result, ok, err}
use okam_ha_proxy.Prelude.Exec.{pure, modify}
use okam_ha_proxy.Cs2.Address.{Endpoint, endpoint_eq, add}
use okam_ha_proxy.Cs2.State.{Action}

-- `DIRECTORY_PORT`, `DIRECTORY_RETRY_SECONDS`, `RELAY_LIST_RETRY_SECONDS`, `RELAY_RETRY_SECONDS`,
-- `PUNCH_RETRY_SECONDS`, all in milliseconds, and `PUNCH_PORT_RANGE`
abbrev pub directory_port : ℕ
directory_port = 32100

abbrev pub directory_retry : ℕ
directory_retry = 1000

abbrev pub relay_list_retry : ℕ
relay_list_retry = 3000

abbrev pub relay_retry : ℕ
relay_retry = 1000

abbrev pub punch_retry : ℕ
punch_retry = 1000

abbrev pub punch_port_range : ℕ
punch_port_range = 3

-- What a call of `connect` works with from its start on: the lookup, the directory servers, and the
-- fields that do not change. The sets are lists in order of insertion.
pub record Call : Type 0 where
  pub uid : Bytes
  pub servers : List Text
  pub lookup : Bytes
  pub directory_endpoints : List Endpoint
  pub prefer_relay : Bool

-- The local variables that the loop of `connect` writes.
pub record Negotiation : Type 0 where
  pub endpoints : List Endpoint
  pub relay_endpoints : List Endpoint
  pub relay_port_endpoint : Option Endpoint
  pub relay_request : Option Bytes
  pub last_directory_send : ℕ
  pub last_relay_list_send : ℕ
  pub last_relay_send : ℕ
  pub last_punch_send : ℕ
  pub hello_sent : Bool

abbrev pub hello : Bytes
hello = 0xf1 ∷ 0x00 ∷ 0x00 ∷ 0x00 ∷ []

abbrev pub punch : Bytes → Bytes
punch uid = (0xf1 ∷ 0x41 ∷ 0x00 ∷ 0x14 ∷ []) ++ uid

abbrev pub relay_list_request : Bytes → Bytes
relay_list_request uid = (0xf1 ∷ 0x67 ∷ 0x00 ∷ 0x14 ∷ []) ++ uid

abbrev pub relay_hello : Bytes
relay_hello = 0xf1 ∷ 0x70 ∷ 0x00 ∷ 0x00 ∷ []

abbrev pub relay_port_request : Bytes
relay_port_request = 0xf1 ∷ 0x72 ∷ 0x00 ∷ 0x00 ∷ []

abbrev pub is_in : Endpoint → List Endpoint → Bool
is_in address found = any (endpoint_eq address) found

abbrev pub add_all : List Endpoint → List Endpoint → List Endpoint
add_all [] found = found
add_all (e ∷ es) found = add_all es (add e found)

abbrev pub to_all : Bytes → List Endpoint → List (Bytes × Endpoint)
to_all packet [] = []
to_all packet (e ∷ es) = (packet, e) ∷ to_all packet es

abbrev pub twice_to : Bytes → List Endpoint → List (Bytes × Endpoint)
twice_to packet [] = []
twice_to packet (e ∷ es) = (packet, e) ∷ (packet, e) ∷ twice_to packet es

-- What goes to the directory servers: the hello once, and the lookup.
abbrev pub to_directory : Bool → Bytes → List Text → List (Bytes × Endpoint)
to_directory said lookup [] = []
to_directory said lookup (server ∷ servers) =
    (if said then [] else (hello, (server, directory_port)) ∷ [])
    ++ ((lookup, (server, directory_port)) ∷ to_directory said lookup servers)

-- `range(low, low + n)`, as the ports of a host
abbrev pub ports_from : Text → ℕ → ℕ → List Endpoint
ports_from host low zero = []
ports_from host low (suc n) = (host, low) ∷ ports_from host (low + 1) n

abbrev pub punch_targets : List Endpoint → List Endpoint
punch_targets [] = []
punch_targets ((host, port) ∷ es) =
    let low = max 1 (port - punch_port_range) in
    ports_from host low (min 65535 (port + punch_port_range) + 1 - low) ++ punch_targets es

-- The rendezvous with the relays: hello, then the request for a port, then the request itself.
abbrev pub to_relays : Call → Negotiation → List (Bytes × Endpoint)
to_relays call n = elim n.relay_port_endpoint [
  | none ↦ to_all relay_hello n.relay_endpoints
  | some relay ↦ elim n.relay_request [
    | none ↦ (relay_port_request, relay) ∷ []
    | some request ↦ to_all request call.directory_endpoints
  ]
]

abbrev pub is_kind : ℕ → Bytes → Bool
is_kind code packet = equal (take 2 packet) (0xf1 ∷ code ∷ [])

abbrev pub if_needed : Bool → Action (Unit {0}) → Action (Unit {0})
if_needed test action = if test then action else pure tt

abbrev pub add_target : Endpoint → Action (Unit {0})
add_target address = modify (λ s. record s { close_targets = add address s.close_targets })

-- `len(packet) == 24 and packet[4:24] == self.uid`
abbrev pub names_camera : Bytes → Bytes → Bool
names_camera uid packet = length packet == 24 && equal (slice 4 24 packet) uid

abbrev pub decoded : Result Endpoint → List Endpoint
decoded (ok endpoint) = endpoint ∷ []
decoded (err error) = []

-- The branches of the chain of tests on a packet; the names are those of the packets.
pub data Case : Type 0 where
  camera_address relay_list relay_answer relay_port rendezvous relay_targets : Case
  direct_punch direct_accept readiness relay_ready ignored : Case
