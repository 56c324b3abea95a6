-- ===== src/Cs2/Connect/Reaching.antt =====
-- A call of `connect` as a whole: the socket, the route, and then the loop.
use okam_ha_proxy.Prelude.{
  ℕ, ◌+◌, Bool, true, false, List, [], ◌∷◌, Option, some, none, Text, Bytes, codes, ◌≡◌, refl,
}
use okam_ha_proxy.Inet.{Inet}
use okam_ha_proxy.Prelude.Exec.{pure, raise, gets, lift, ◌>>=◌}
use okam_ha_proxy.Prelude.Exec.Returns.{holds-Returns, Returns, continue-Returns}
use okam_ha_proxy.Cs2.Address.{Endpoint, encode_network_address}
use okam_ha_proxy.Cs2.World.{World}
use okam_ha_proxy.Cs2.State.{SocketState, unopened, opened, shut, Session}
use okam_ha_proxy.Cs2.Connect.Messages.{is_in}
use okam_ha_proxy.Cs2.Connect.{
  connect_loop, Opening, unavailable, unnamed, bound, require_unopened, open_socket, find_route,
  use_route, connect_from, connect, call_of, begin, directory_of,
}
use okam_ha_proxy.Cs2.Connect.Establishing.{IsOpen}
use okam_ha_proxy.Cs2.Connect.Looping.{connect_loop-Establishes}

-- The fields that `connect` reads stay what they were until its loop.
abbrev Ready : Session → Session → Type 0
Ready s t = (t.closed ≡ false) × (t.servers ≡ s.servers) × (t.prefer_relay ≡ s.prefer_relay)

module _ (inet : Inet) (world : World) (s : Session) where
  require_unopened-Ready :
      (socket : SocketState) (t : Session)
      → Ready s t
      → Returns (λ _ u. Ready s u) (require_unopened socket t)
  unfolding pure raise
  require_unopened-Ready unopened t ready = ready
  require_unopened-Ready opened t ready = tt
  require_unopened-Ready shut t ready = tt

  open_socket-Ready :
      (opening : Opening) (t : Session)
      → Ready s t
      → Returns (λ _ u. Ready s u) (open_socket inet world opening t)
  unfolding open_socket ◌>>=◌
  open_socket-Ready unavailable t ready = tt
  open_socket-Ready unnamed t ready = tt
  open_socket-Ready (bound port) t ready = ready

  use_route-Ready :
      (host : Option Text) (t : Session)
      → Ready s t
      → Returns (λ _ u. Ready s u) (use_route inet world host t)
  unfolding use_route ◌>>=◌
  use_route-Ready none t ready = tt
  use_route-Ready (some host) t ready = ready

  find_route-Ready :
      (route : Text → Option Text) (servers : List Text) (t : Session)
      → Ready s t
      → Returns (λ _ u. Ready s u) (find_route inet world route servers t)
  unfolding find_route raise
  find_route-Ready route [] t ready = tt
  find_route-Ready route (server ∷ servers) t ready = use_route-Ready (route server) t ready

  -- The result of `connect`: see below.
  abbrev pub Reached : Session → Type 0
  Reached t =
      (t.closed ≡ false)
      × (address : Endpoint) × (t.peer ≡ some address)
      × (is_in address (directory_of s.servers) ≡ false)
      × (s.prefer_relay ≡ true → t.connect_path ≡ codes "relay")

  loop-Reached :
      (rounds deadline : ℕ) (local_address uid : Bytes) (servers : List Text) (prefer : Bool)
      (t : Session)
      → IsOpen t
      → servers ≡ s.servers
      → prefer ≡ s.prefer_relay
      → Returns
          (λ _ u. Reached u)
          (connect_loop inet world
            (call_of local_address uid servers prefer)
            rounds
            deadline
            begin
            t)
  loop-Reached rounds deadline local_address uid servers prefer t p same kept = rw same (
      rw kept (
        connect_loop-Establishes inet world (call_of local_address uid s.servers s.prefer_relay)
          rounds deadline begin t p))

  connect_from-Reached :
      (rounds timeout : ℕ) (host : Text) (port : ℕ) (t : Session)
      → Ready s t
      → Returns (λ _ u. Reached u) (connect_from inet world rounds timeout host port t)
  unfolding connect_from ◌>>=◌ lift gets
  connect_from-Reached rounds timeout host port t (p, same, kept) =
      continue-Returns (λ _ u. Ready s u) (λ _ u. Reached u)
        (encode_network_address inet host port, t) _
        (holds-Returns (Ready s) (encode_network_address inet host port, t) (p, same, kept))
        λ address u (q, same', kept').
          loop-Reached rounds _ address u.uid u.servers u.prefer_relay
            (record u { clock_reads = u.clock_reads + 1 }) q same' kept'

  opened-Reached :
      (rounds timeout port : ℕ) (route : Text → Option Text) (t : Session)
      → Ready s t
      → Returns
          (λ _ u. Reached u)
          ((gets (λ u. u.servers) >>= λ servers. find_route inet world route servers >>= λ host.
              connect_from inet world rounds timeout host port)
            t)
  unfolding ◌>>=◌ gets
  opened-Reached rounds timeout port route t ready =
      continue-Returns (λ _ u. Ready s u) (λ _ u. Reached u)
        (find_route inet world route t.servers t) _ (find_route-Ready route t.servers t ready)
        λ host u there. connect_from-Reached rounds timeout host port u there

module _ (inet : Inet) (world : World) where
  -- A call of `connect` on an open session that returns leaves an open session with a peer that is
  -- no directory server of it, and whose path is "relay" if the session prefers a relay.
  pub connect-Reached :
      (rounds timeout : ℕ) (opening : Opening) (route : Text → Option Text) (s : Session)
      → s.closed ≡ false
      → Returns (λ _ t. Reached inet world s t) (connect inet world rounds timeout opening route s)
  unfolding connect ◌>>=◌ gets
  connect-Reached rounds timeout opening route s p =
      continue-Returns (λ _ t. Ready s t) (λ _ t. Reached inet world s t)
        (require_unopened s.socket s) _
        (require_unopened-Ready inet world s s.socket s (p, refl, refl))
        λ _ t ready.
          continue-Returns (λ _ u. Ready s u) (λ _ u. Reached inet world s u)
            (open_socket inet world opening t) _ (open_socket-Ready inet world s opening t ready)
            λ port u there. opened-Reached inet world s rounds timeout port route u there
