-- ===== src/Cs2/Connect/Calm.antt =====
-- What the negotiation of `connect` leaves true: every predicate that its single updates keep.
use okam_ha_proxy.Prelude.{ℕ, ◌+◌, Bool, List, [], ◌∷◌, Bytes}
use okam_ha_proxy.Prelude.Exec.Keeps.{
  Keeps, keeps_rules, modify-Keeps, bind-Keeps, if-Keeps, pure-Keeps,
}
use okam_ha_proxy.Cs2.Address.{Endpoint}
use okam_ha_proxy.Cs2.Cipher.{Received, accepted, undecodable, length_mismatch}
use okam_ha_proxy.Cs2.World.{World, Receipt, datagram, timed_out, os_error}
use okam_ha_proxy.Cs2.State.{
  Session, SocketState, unopened, CounterName, Counters, count, count_kind, send_clear, now,
  receipt_of, receive_from, receive_clear, take_received, take_receipt,
}
use okam_ha_proxy.Inet.{Inet}
use okam_ha_proxy.Cs2.Session.Sending.{SentOnly, send_clear-SentOnly}
use okam_ha_proxy.Cs2.Connect.Messages.{Negotiation, Call, add_target, if_needed}
use okam_ha_proxy.Cs2.Connect.Answers.{
  send_each, send_directory, send_relay_list, send_relay, send_punch, send_due,
}
use okam_ha_proxy.Cs2.Connect.{note_packet}

pub record IsCalm (P : Session → Type 0) : Type 0 where
  pub sending : (s t : Session) → SentOnly s t → P s → P t
  pub counting : (s : Session) (counters : Counters) → P s → P (record s { counters = counters })
  pub clocking : (s : Session) → P s → P (record s { clock_reads = s.clock_reads + 1 })
  pub receiving : (s : Session) → P s → P (record s { receives = s.receives + 1 })
  pub targeting :
      (s : Session) (targets : List Endpoint) → P s → P (record s { close_targets = targets })

module _ (world : World) (P : Session → Type 0) (calm : IsCalm P) where
  pub count-Keeps : (name : CounterName) (n : ℕ) → Keeps P (count name n)
  count-Keeps name n = modify-Keeps _ (λ s p. calm.counting s _ p)

  count_kind-Keeps : (name : CounterName) → Keeps P (count_kind name)
  count_kind-Keeps name = modify-Keeps _ (λ s p. calm.counting s _ p)

  pub add_target-Keeps : (address : Endpoint) → Keeps P (add_target address)
  add_target-Keeps address = modify-Keeps _ (λ s p. calm.targeting s _ p)

  pub send_clear-Keeps :
      (packet : Bytes) (address : Endpoint) → Keeps P (send_clear world packet address)
  send_clear-Keeps packet address = record {
    after = λ s p. calm.sending s _ (send_clear-SentOnly world packet address s) p;
  }

  pub now-Keeps : Keeps P (now world)
  now-Keeps = record { after = λ s p. calm.clocking s p }

  ruleset calm_rules =
      (keeps_rules, count-Keeps, count_kind-Keeps, add_target-Keeps, send_clear-Keeps, now-Keeps)

  pub send_each-Keeps : (sends : List (Bytes × Endpoint)) → Keeps P (send_each world sends)
  unfolding send_each
  send_each-Keeps [] = search calm_rules
  send_each-Keeps ((packet, address) ∷ rest) =
      bind-Keeps _ _ (send_clear-Keeps packet address) (λ _. send_each-Keeps rest)

  take_received-Keeps :
      (received : Received) (address : Endpoint) → Keeps P (take_received world received address)
  unfolding take_received
  take_received-Keeps (accepted clear) address = search calm_rules
  take_received-Keeps undecodable address = search calm_rules depth 8
  take_received-Keeps length_mismatch address = search calm_rules depth 8

  take_receipt-Keeps : (receipt : Receipt) → Keeps P (take_receipt world receipt)
  unfolding take_receipt
  take_receipt-Keeps (datagram encrypted address) =
      search (calm_rules, take_received-Keeps) depth 12
  take_receipt-Keeps timed_out = search calm_rules
  take_receipt-Keeps os_error = search calm_rules

  receive_from-Keeps : (socket : SocketState) → Keeps P (receive_from world socket)
  receive_from-Keeps unopened = record { after = λ s p. p }
  receive_from-Keeps socket = record {
    after = λ s p.
        (take_receipt-Keeps (receipt_of world socket s.receives)).after _ (calm.receiving s p);
  }

  pub receive_clear-Keeps : Keeps P (receive_clear world)
  unfolding receive_clear
  receive_clear-Keeps = record { after = λ s p. (receive_from-Keeps s.socket).after s p }

  when-Keeps : (test : Bool) (m : _) → Keeps P m → Keeps P (if_needed test m)
  when-Keeps test m p = if-Keeps test m _ p (pure-Keeps tt)

module _ (inet : Inet) (world : World) (call : Call) (P : Session → Type 0) (calm : IsCalm P) where
  pub note_packet-Keeps :
      (packet : Bytes) (address : Endpoint) → Keeps P (note_packet inet world call packet address)
  unfolding note_packet
  note_packet-Keeps packet address =
      search
        (
          keeps_rules,
          when-Keeps world P calm,
          add_target-Keeps world P calm,
          count_kind-Keeps world P calm,
        )
        depth 12

  pub send_due-Keeps : (time : ℕ) (n : Negotiation) → Keeps P (send_due inet world call time n)
  unfolding send_due send_directory send_relay_list send_relay send_punch
  send_due-Keeps time n = search (keeps_rules, send_each-Keeps world P calm) depth 20
