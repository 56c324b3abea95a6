-- ===== src/Cs2/Connect/Establishing.antt =====
-- What `connect` reaches: a peer that named the camera, and the relay if one is preferred. Each
-- answer to a packet goes on with an open session, or establishes it.
use okam_ha_proxy.Prelude.{
  Bool, true, false, List, Option, some, none, Text, Bytes, codes, map, ◌≡◌, refl, sym,
  if◌then◌else◌,
}
use mathlib.Core.Path.{subst}
use okam_ha_proxy.Inet.{Inet}
use okam_ha_proxy.Prelude.Outcome.{Result, ok, err}
use okam_ha_proxy.Prelude.Exec.{pure, modify, ◌>>=◌}
use okam_ha_proxy.Prelude.Exec.Keeps.{Keeps, keeps_rules}
use okam_ha_proxy.Prelude.Exec.Returns.{Returns, Keeps-Returns, bind-Returns, continue-Returns}
use okam_ha_proxy.Cs2.Address.{Endpoint}
use okam_ha_proxy.Cs2.World.{World}
use okam_ha_proxy.Cs2.State.{Session, Action, send_clear}
use okam_ha_proxy.Cs2.Connect.Messages.{Negotiation, Call, is_in}
use okam_ha_proxy.Cs2.Connect.Answers.{
  is_relay, send_each, take_endpoint, take_relay, take_request, take_port, take_hello, take_targets,
  adopt, decline,
}
use okam_ha_proxy.Cs2.Connect.Calm.{
  IsCalm, count-Keeps, add_target-Keeps, send_clear-Keeps, send_each-Keeps,
}

-- While `connect` waits: the session is not closed.
abbrev pub IsOpen : Session → Type 0
IsOpen s = s.closed ≡ false

-- When it returns: the session is open, its peer is no directory server, and if a relay is preferred
-- the path is the relay's.
abbrev pub Established : Call → Session → Type 0
Established call s =
    (s.closed ≡ false)
    × (address : Endpoint) × (s.peer ≡ some address)
    × (is_in address call.directory_endpoints ≡ false)
    × (call.prefer_relay ≡ true → s.connect_path ≡ codes "relay")

pub IsOpen-IsCalm : IsCalm IsOpen
IsOpen-IsCalm = record {
  sending = λ s t same p. subst IsOpen (sym same) p;
  counting = λ s counters p. p;
  clocking = λ s p. p;
  receiving = λ s p. p;
  targeting = λ s targets p. p;
}

Established-IsCalm : (call : Call) → IsCalm (Established call)
Established-IsCalm call = record {
  sending = λ s t same p. subst (Established call) (sym same) p;
  counting = λ s counters p. p;
  clocking = λ s p. p;
  receiving = λ s p. p;
  targeting = λ s targets p. p;
}

abbrev pub Post : Call → Option Negotiation → Session → Type 0
Post call none s = Established call s
Post call (some n) s = IsOpen s

-- An action of the loop: it goes on with an open session, or the session is established.
pub record Proceeds (call : Call) (m : Action (Option Negotiation)) : Type 0 where
  pub proceeds : (s : Session) → IsOpen s → Returns (Post call) (m s)

module _ (call : Call) where
  pub again-Proceeds : (n : Negotiation) → Proceeds call (pure (some n))
  unfolding pure
  again-Proceeds n = record { proceeds = λ s p. p }

  pub bind-Proceeds :
      {A : Type 0} (m : Action A) (f : A → Action (Option Negotiation))
      → Keeps IsOpen m
      → ((a : A) → Proceeds call (f a))
      → Proceeds call (m >>= f)
  bind-Proceeds m f kept next = record {
    proceeds = λ s p.
        bind-Returns (λ _ t. IsOpen t) (Post call) m f s (Keeps-Returns IsOpen m s kept p)
          λ a t q. (next a).proceeds t q;
  }

  branch-Proceeds :
      (test : Bool) (m n : Action (Option Negotiation))
      → (test ≡ true → Proceeds call m)
      → Proceeds call n
      → Proceeds call (if test then m else n)
  branch-Proceeds true m n p q = p refl
  branch-Proceeds false m n p q = q

  ruleset proceeding = (keeps_rules, again-Proceeds, bind-Proceeds)

module _ (inet : Inet) (world : World) (call : Call) where
  abbrev each-Keeps : (sends : List (Bytes × Endpoint)) → Keeps IsOpen (send_each world sends)
  each-Keeps = send_each-Keeps world IsOpen IsOpen-IsCalm

  abbrev one-Keeps :
      (packet : Bytes) (address : Endpoint) → Keeps IsOpen (send_clear world packet address)
  one-Keeps = send_clear-Keeps world IsOpen IsOpen-IsCalm

  pub take_endpoint-Proceeds :
      (endpoint : Result Endpoint) (n : Negotiation)
      → Proceeds call (take_endpoint inet world call endpoint n)
  unfolding take_endpoint
  take_endpoint-Proceeds (err error) n = search (proceeding)
  take_endpoint-Proceeds (ok endpoint) n =
      search (proceeding, each-Keeps, add_target-Keeps world IsOpen IsOpen-IsCalm) depth 10

  pub take_relay-Proceeds :
      (relay : Option Endpoint) (address : Endpoint) (n : Negotiation)
      → Proceeds call (take_relay inet world call relay address n)
  unfolding take_relay
  take_relay-Proceeds (some relay) address n = search (proceeding)
  take_relay-Proceeds none address n = search (proceeding, one-Keeps) depth 10

  take_request-Proceeds :
      (request : Option Bytes) (n : Negotiation)
      → Proceeds call (take_request inet world call request n)
  unfolding take_request
  take_request-Proceeds none n = search (proceeding)
  take_request-Proceeds (some request) n = search (proceeding, each-Keeps) depth 10

  pub take_port-Proceeds :
      (packet : Bytes) (address : Endpoint) (n : Negotiation)
      → Proceeds call (take_port inet world call packet address n)
  unfolding take_port
  take_port-Proceeds packet address n =
      branch-Proceeds call (is_relay inet world call address n.relay_port_endpoint) _ _
        (λ same. take_request-Proceeds _ n) (again-Proceeds call n)

  pub take_hello-Proceeds :
      (packet : Bytes) (address : Endpoint) (target : Result Endpoint) (n : Negotiation)
      → Proceeds call (take_hello inet world call packet address target n)
  unfolding take_hello
  take_hello-Proceeds packet address (err error) n = search (proceeding)
  take_hello-Proceeds packet address (ok target) n = search (proceeding, each-Keeps) depth 10

  pub take_targets-Proceeds :
      (packet : Bytes) (n : Negotiation) → Proceeds call (take_targets inet world call packet n)
  unfolding take_targets
  take_targets-Proceeds packet n = search (proceeding, each-Keeps) depth 10

  pub decline-Proceeds :
      (address : Endpoint) (n : Negotiation) → Proceeds call (decline inet world call address n)
  unfolding decline
  decline-Proceeds address n =
      search (proceeding, one-Keeps, count-Keeps world IsOpen IsOpen-IsCalm) depth 10

  pub adopt-Proceeds :
      (path : Text) (packets : List Bytes) (address : Endpoint)
      → is_in address call.directory_endpoints ≡ false
      → (call.prefer_relay ≡ true → path ≡ codes "relay")
      → Proceeds call (adopt inet world call path packets address)
  unfolding adopt modify ◌>>=◌
  adopt-Proceeds path packets address outside fits = record {
    proceeds = λ s p.
        let taken = record s { peer = some address; connect_path = path } in
        let sends = map (λ packet. (packet, address)) packets in
        let kept = send_each-Keeps world (Established call) (Established-IsCalm call) sends in
        continue-Returns (λ _ t. Established call t) (Post call) (send_each world sends taken)
          (λ _. pure none)
          (Keeps-Returns (Established call) (send_each world sends) taken kept
            (p, address, refl, outside, fits))
          (λ _ t q. q);
  }
