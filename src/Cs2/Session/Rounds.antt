-- ===== src/Cs2/Session/Rounds.antt =====
-- Every round of a session keeps each predicate that its single updates keep.
use okam_ha_proxy.Prelude.{
  ℕ, ◌+◌, ◌≤◌, Bool, false, List, [], ◌∷◌, arith, Bytes, Option, some, none, Bool-cases, inl, inr,
  leb,
}
use okam_ha_proxy.Prelude.Exec.{modify}
use okam_ha_proxy.Prelude.Exec.Keeps.{Keeps, keeps_rules, modify-Keeps, bind-Keeps}
use okam_ha_proxy.Cs2.Address.{Endpoint}
use okam_ha_proxy.Cs2.Channel.{accept}
use okam_ha_proxy.Cs2.Cipher.{Received, accepted, undecodable, length_mismatch}
use okam_ha_proxy.Cs2.World.{World, Receipt, datagram, timed_out, os_error}
use okam_ha_proxy.Cs2.State.{
  Session, SocketState, unopened, opened, shut, Pending, PendingKey, CounterName, count, count_kind,
  send_clear, now, receipt_of, receive_from, receive_clear, take_received, take_receipt,
}
use okam_ha_proxy.Cs2.Pending.{pop_pending, put_pending, handle_ack}
use okam_ha_proxy.Cs2.Session.{
  update_channel, assert_peer, take_data, handle_data, retransmit_one, retransmit_loop,
  retransmit_to, retransmit, close_packet, close_targets_of, send_close, close_loop, close,
  dispatch, from_source, pump_received, pump,
}
use okam_ha_proxy.Cs2.Session.Sending.{send_clear-SentOnly}
use okam_ha_proxy.Cs2.Session.Stable.{IsStable}

module _ (world : World) (P : Session → Type 0) (stable : IsStable P) where
  count-Keeps : (name : CounterName) (n : ℕ) → Keeps P (count name n)
  count-Keeps name n = modify-Keeps _ (λ s p. stable.counting s _ p)

  count_kind-Keeps : (name : CounterName) → Keeps P (count_kind name)
  count_kind-Keeps name = modify-Keeps _ (λ s p. stable.counting s _ p)

  pub assert_peer-Keeps : (peer : Option Endpoint) → Keeps P (assert_peer peer)
  assert_peer-Keeps none = search keeps_rules
  assert_peer-Keeps (some peer) = search keeps_rules

  accept-Keeps :
      (channel sequence : ℕ) (payload : Bytes)
      → Keeps P (update_channel channel (λ c. accept c sequence payload))
  accept-Keeps channel sequence payload =
      modify-Keeps _ (λ s p. stable.accepting s channel sequence payload p)

  pop_pending-Keeps :
      (key : PendingKey)
      → Keeps P (modify (λ (s : Session). record s { pending = pop_pending key s.pending }))
  pop_pending-Keeps key = modify-Keeps _ (λ s p. stable.popping s key p)

  pub put_pending-Keeps :
      (key : PendingKey) (value : Pending)
      → value.attempts ≤ 20
      → Keeps P (modify (λ (s : Session). record s { pending = put_pending key value s.pending }))
  put_pending-Keeps key value within = modify-Keeps _ (λ s p. stable.putting s key value within p)

  handle_ack-Keeps :
      (packet : Bytes)
      → Keeps P (modify (λ (s : Session). record s { pending = handle_ack packet s.pending }))
  handle_ack-Keeps packet = modify-Keeps _ (λ s p. stable.acking s packet p)

  pub send_clear-Keeps :
      (packet : Bytes) (address : Endpoint) → Keeps P (send_clear world packet address)
  send_clear-Keeps packet address = record {
    after = λ s p. stable.sending s _ (send_clear-SentOnly world packet address s) p;
  }

  ruleset stable_rules = (
    keeps_rules, count-Keeps, count_kind-Keeps, assert_peer-Keeps, accept-Keeps, handle_ack-Keeps,
    send_clear-Keeps,
  )

  take_data-Keeps : (body : Bytes) → Keeps P (take_data world body)
  unfolding take_data
  take_data-Keeps body = search stable_rules depth 12

  handle_data-Keeps : (packet : Bytes) → Keeps P (handle_data world packet)
  unfolding handle_data
  handle_data-Keeps packet = search (stable_rules, take_data-Keeps)

  retransmit_one-Keeps :
      (time : ℕ) (peer : Endpoint) (key : PendingKey) (value : Pending)
      → Keeps P (retransmit_one world time peer key value)
  unfolding retransmit_one
  retransmit_one-Keeps time peer key value = elim (Bool-cases (leb 20 value.attempts)) [
    | inl spent ↦ rw spent (search (stable_rules, pop_pending-Keeps))
    | inr left ↦
        let within : value.attempts + 1 ≤ 20 = ground arith in
        rw left (search (stable_rules, put_pending-Keeps, within) depth 8)
  ]

  retransmit_loop-Keeps :
      (time : ℕ) (peer : Endpoint) (entries : List (PendingKey × Pending))
      → Keeps P (retransmit_loop world time peer entries)
  unfolding retransmit_loop
  retransmit_loop-Keeps time peer [] = search stable_rules
  retransmit_loop-Keeps time peer ((key, value) ∷ rest) =
      bind-Keeps _ _ (retransmit_one-Keeps time peer key value)
        (λ _. retransmit_loop-Keeps time peer rest)

  pub now-Keeps : Keeps P (now world)
  now-Keeps = record { after = λ s p. stable.clocking s p }

  retransmit_to-Keeps : (peer : Option Endpoint) → Keeps P (retransmit_to world peer)
  retransmit_to-Keeps none = search stable_rules
  retransmit_to-Keeps (some peer) = search (stable_rules, now-Keeps, retransmit_loop-Keeps) depth 8

  retransmit-Keeps : Keeps P (retransmit world)
  unfolding retransmit
  retransmit-Keeps = record { after = λ s v. (retransmit_to-Keeps s.peer).after s v }

  take_received-Keeps :
      (received : Received) (address : Endpoint) → Keeps P (take_received world received address)
  unfolding take_received
  take_received-Keeps (accepted clear) address = search stable_rules
  take_received-Keeps undecodable address = search stable_rules depth 8
  take_received-Keeps length_mismatch address = search stable_rules depth 8

  take_receipt-Keeps : (receipt : Receipt) → Keeps P (take_receipt world receipt)
  unfolding take_receipt
  take_receipt-Keeps (datagram encrypted address) =
      search (stable_rules, take_received-Keeps) depth 12
  take_receipt-Keeps timed_out = search stable_rules
  take_receipt-Keeps os_error = search stable_rules

  receive_from-Keeps : (socket : SocketState) → Keeps P (receive_from world socket)
  receive_from-Keeps unopened = record { after = λ s v. v }
  receive_from-Keeps socket = record {
    after = λ s v.
        (take_receipt-Keeps (receipt_of world socket s.receives)).after _ (stable.receiving s v);
  }

  receive_clear-Keeps : Keeps P (receive_clear world)
  unfolding receive_clear
  receive_clear-Keeps = record { after = λ s v. (receive_from-Keeps s.socket).after s v }

  close_loop-Keeps :
      (targets : List Endpoint) (sent : Bool) (s : Session)
      → P s
      → P (close_loop world targets sent s).1
  unfolding close_loop
  close_loop-Keeps [] sent s v = v
  close_loop-Keeps (target ∷ rest) sent s v =
      close_loop-Keeps rest _ _ ((send_clear-Keeps close_packet target).after s v)

  send_close-Keeps :
      (socket : SocketState) (targets : List Endpoint) (s : Session)
      → P s
      → P (send_close world socket targets s).1
  send_close-Keeps unopened targets s v = v
  send_close-Keeps opened targets s v = close_loop-Keeps targets false s v
  send_close-Keeps shut targets s v = close_loop-Keeps targets false s v

  pub close-Keeps : (s : Session) → P s → P (close world s).1
  unfolding close
  close-Keeps s v = elim (Bool-cases s.closed) [
    | inl done ↦ simp done v
    | inr live ↦ simp live (stable.closing _ _ (send_close-Keeps s.socket (close_targets_of s) s v))
  ]

  closing-Keeps : Keeps P (modify (λ s. (close world s).1))
  closing-Keeps = modify-Keeps _ close-Keeps

  dispatch-Keeps : (packet : Bytes) (address : Endpoint) → Keeps P (dispatch world packet address)
  unfolding dispatch
  dispatch-Keeps packet address = search (stable_rules, handle_data-Keeps, closing-Keeps) depth 16

  from_source-Keeps :
      (peer : Option Endpoint) (packet : Bytes) (address : Endpoint)
      → Keeps P (from_source world peer packet address)
  unfolding from_source
  from_source-Keeps none packet address = search stable_rules
  from_source-Keeps (some peer) packet address = search (stable_rules, dispatch-Keeps) depth 8

  pump_received-Keeps :
      (received : Option (Bytes × Endpoint)) → Keeps P (pump_received world received)
  unfolding pump_received
  pump_received-Keeps none = search stable_rules
  pump_received-Keeps (some (packet, address)) = search (stable_rules, from_source-Keeps) depth 8

  pub pump-Keeps : Keeps P (pump world)
  unfolding pump
  pump-Keeps = search (stable_rules, retransmit-Keeps, receive_clear-Keeps, pump_received-Keeps)
