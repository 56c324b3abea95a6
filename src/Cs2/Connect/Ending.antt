-- ===== src/Cs2/Connect/Ending.antt =====
-- The loop of `connect` ends: none of its actions runs out of rounds, and each round reads the clock.
use okam_ha_proxy.Prelude.{
  ℕ, zero, suc, ◌+◌, ◌≤◌, ◌<◌, Bool, true, false, List, [], ◌∷◌, Option, some, none, Text, Bytes,
  codes, ◌++◌, ◌≡◌, refl, arith, leb, Bool-cases, inl, inr, if◌then◌else◌,
}
use okam_ha_proxy.Inet.{Inet}
use okam_ha_proxy.Prelude.Outcome.{Result, ok, err}
use okam_ha_proxy.Prelude.Exec.{pure, modify, ◌>>=◌}
use okam_ha_proxy.Prelude.Exec.Keeps.{Keeps, modify-Keeps, pure-Keeps, bind-Keeps}
use okam_ha_proxy.Prelude.Exec.Ends.{
  Ends, pure-Ends, modify-Ends, bind-Ends, ran_out, ran_out-continue,
}
use okam_ha_proxy.Cs2.Address.{Endpoint}
use okam_ha_proxy.Cs2.World.{World}
use okam_ha_proxy.Cs2.State.{
  Session, Action, CounterName, count, count_kind, send_clear, receive_clear, now,
}
use okam_ha_proxy.Cs2.Session.Growth.{HasRead}
use okam_ha_proxy.Cs2.Session.Endings.{send_clear-Ends, now-Ends, receive_clear-Ends}
use okam_ha_proxy.Cs2.Transfer.Termination.{IsMonotonic, early_lt}
use okam_ha_proxy.Cs2.Connect.Messages.{
  Negotiation, Call, add_target, Case, camera_address, relay_list, relay_answer, relay_port,
  rendezvous, relay_targets, direct_punch, direct_accept, readiness, relay_ready, ignored,
}
use okam_ha_proxy.Cs2.Connect.Answers.{
  send_each, send_directory, send_relay_list, send_relay, send_punch, send_due, take_endpoint,
  take_relay, take_request, take_port, take_hello, take_targets, is_relay, adopt, decline, classify,
  act, take_packet,
}
use okam_ha_proxy.Cs2.Connect.{take_answer, note_packet, round, carry_on, connect_loop}
use okam_ha_proxy.Cs2.Connect.Calm.{IsCalm, send_clear-Keeps, now-Keeps, receive_clear-Keeps}

HasRead-IsCalm : (k : ℕ) → IsCalm (HasRead k)
HasRead-IsCalm k = record {
  sending = λ s t only p. rw only p;
  counting = λ s counters p. p;
  clocking = λ s p. omega arith;
  receiving = λ s p. p;
  targeting = λ s targets p. p;
}

-- An action that does not run out of rounds and moves the clock only forward.
record Steady {A : Type 0} (m : Action A) : Type 0 where
  ending : Ends m
  reading : (k : ℕ) → Keeps (HasRead k) m

pure-Steady : {A : Type 0} (a : A) → Steady (pure a)
pure-Steady a = record { ending = pure-Ends a; reading = λ k. pure-Keeps a }

bind-Steady :
    {A B : Type 0} (m : Action A) (f : A → Action B)
    → Steady m
    → ((a : A) → Steady (f a))
    → Steady (m >>= f)
bind-Steady m f p q = record {
  ending = bind-Ends m f p.ending (λ a. (q a).ending);
  reading = λ k. bind-Keeps m f (p.reading k) (λ a. (q a).reading k);
}

if-Steady :
    {A : Type 0} (test : Bool) (m n : Action A)
    → Steady m
    → Steady n
    → Steady (if test then m else n)
if-Steady true m n p q = p
if-Steady false m n p q = q

writes-Steady :
    (f : Session → Session)
    → ((s : Session) → (f s).clock_reads ≡ s.clock_reads)
    → Steady (modify f)
writes-Steady f same = record {
  ending = modify-Ends f;
  reading = λ k. modify-Keeps f (λ s p. omega (arith, same s));
}

add_target-Steady : (address : Endpoint) → Steady (add_target address)
add_target-Steady address = writes-Steady _ (λ s. refl)

count-Steady : (name : CounterName) (n : ℕ) → Steady (count name n)
count-Steady name n = writes-Steady _ (λ s. refl)

count_kind-Steady : (name : CounterName) → Steady (count_kind name)
count_kind-Steady name = writes-Steady _ (λ s. refl)

ruleset steady_rules =
    (pure-Steady, bind-Steady, if-Steady, add_target-Steady, count-Steady, count_kind-Steady)

module _ (world : World) where
  now-Steady : Steady (now world)
  now-Steady = record {
    ending = now-Ends world;
    reading = λ k. now-Keeps world (HasRead k) (HasRead-IsCalm k);
  }

  send_clear-Steady :
      (packet : Bytes) (address : Endpoint) → Steady (send_clear world packet address)
  send_clear-Steady packet address = record {
    ending = send_clear-Ends world packet address;
    reading = λ k. send_clear-Keeps world (HasRead k) (HasRead-IsCalm k) packet address;
  }

  receive_clear-Steady : Steady (receive_clear world)
  receive_clear-Steady = record {
    ending = receive_clear-Ends world;
    reading = λ k. receive_clear-Keeps world (HasRead k) (HasRead-IsCalm k);
  }

  send_each-Steady : (sends : List (Bytes × Endpoint)) → Steady (send_each world sends)
  unfolding send_each
  send_each-Steady [] = pure-Steady tt
  send_each-Steady ((packet, address) ∷ rest) =
      bind-Steady _ _ (send_clear-Steady packet address) (λ _. send_each-Steady rest)

  ruleset sends = (steady_rules, send_clear-Steady, send_each-Steady)

module _ (inet : Inet) (world : World) (call : Call) where
  send_due-Steady : (time : ℕ) (n : Negotiation) → Steady (send_due inet world call time n)
  unfolding send_due send_directory send_relay_list send_relay send_punch
  send_due-Steady time n = search sends depth 20

  take_endpoint-Steady :
      (endpoint : Result Endpoint) (n : Negotiation)
      → Steady (take_endpoint inet world call endpoint n)
  unfolding take_endpoint
  take_endpoint-Steady (err error) n = search sends
  take_endpoint-Steady (ok endpoint) n = search sends depth 10

  take_relay-Steady :
      (relay : Option Endpoint) (address : Endpoint) (n : Negotiation)
      → Steady (take_relay inet world call relay address n)
  unfolding take_relay
  take_relay-Steady (some relay) address n = search sends
  take_relay-Steady none address n = search sends depth 10

  take_request-Steady :
      (request : Option Bytes) (n : Negotiation) → Steady (take_request inet world call request n)
  unfolding take_request
  take_request-Steady none n = search sends
  take_request-Steady (some request) n = search sends depth 10

  take_hello-Steady :
      (packet : Bytes) (address : Endpoint) (target : Result Endpoint) (n : Negotiation)
      → Steady (take_hello inet world call packet address target n)
  unfolding take_hello
  take_hello-Steady packet address (err error) n = search sends
  take_hello-Steady packet address (ok target) n = search sends depth 10

  adopt-Steady :
      (path : Text) (packets : List Bytes) (address : Endpoint)
      → Steady (adopt inet world call path packets address)
  unfolding adopt
  adopt-Steady path packets address =
      bind-Steady _ _ (writes-Steady _ (λ s. refl))
        λ _. bind-Steady _ _ (send_each-Steady world _) (λ _. pure-Steady none)

  act-Steady :
      (c : Case) (packet : Bytes) (address : Endpoint) (n : Negotiation)
      → Steady (act inet world call c packet address n)
  unfolding act take_port take_targets decline
  act-Steady camera_address packet address n = take_endpoint-Steady _ n
  act-Steady relay_list packet address n = pure-Steady _
  act-Steady relay_answer packet address n = take_relay-Steady n.relay_port_endpoint address n
  act-Steady relay_port packet address n =
      if-Steady (is_relay inet world call address n.relay_port_endpoint) _ _
        (take_request-Steady _ n) (pure-Steady _)
  act-Steady rendezvous packet address n = take_hello-Steady packet address _ n
  act-Steady relay_targets packet address n = search sends depth 10
  act-Steady direct_punch packet address n =
      adopt-Steady (codes "direct-punch")
        (((0xf1 ∷ 0x42 ∷ 0x00 ∷ 0x14 ∷ []) ++ call.uid) ∷ (0xf1 ∷ 0xe0 ∷ 0x00 ∷ 0x00 ∷ []) ∷ [])
        address
  act-Steady direct_accept packet address n =
      adopt-Steady (codes "direct-accept") ((0xf1 ∷ 0x43 ∷ 0x00 ∷ 0x00 ∷ []) ∷ []) address
  act-Steady readiness packet address n = search sends depth 10
  act-Steady relay_ready packet address n =
      adopt-Steady (codes "relay") ((0xf1 ∷ 0xe0 ∷ 0x00 ∷ 0x00 ∷ []) ∷ []) address
  act-Steady ignored packet address n = pure-Steady _

  note_packet-Steady :
      (packet : Bytes) (address : Endpoint) → Steady (note_packet inet world call packet address)
  unfolding note_packet
  note_packet-Steady packet address = search steady_rules depth 12

  take_answer-Steady :
      (n : Negotiation) (received : Option (Bytes × Endpoint))
      → Steady (take_answer inet world call n received)
  unfolding take_answer take_packet
  take_answer-Steady n none = pure-Steady _
  take_answer-Steady n (some (packet, address)) =
      bind-Steady _ _ (note_packet-Steady packet address)
        λ _. act-Steady (classify inet world call packet address n) packet address n

  round-Steady : (n : Negotiation) → Steady (round inet world call n)
  unfolding round
  round-Steady n = bind-Steady _ _ (now-Steady world) λ time.
      bind-Steady _ _ (send_due-Steady time n) λ sent.
        bind-Steady _ _ (receive_clear-Steady world) λ received. take_answer-Steady sent received

  module _ (forward : IsMonotonic world) where
    round-read :
        (n : Negotiation) (s : Session) → s.clock_reads ≤ (round inet world call n s).1.clock_reads
    round-read n s = ((round-Steady n).reading s.clock_reads).after s (omega arith)

    go_on-ends :
        (next : Negotiation → Action (Unit {0})) (left : Option Negotiation) (t : Session)
        → ((n : Negotiation) → ran_out (next n t).0 ≡ false)
        → ran_out (carry_on inet world call next left t).0 ≡ false
    unfolding pure
    go_on-ends next none t again = refl
    go_on-ends next (some n) t again = again n

    -- With a clock that cannot go backwards, the loop of `connect` ends: where the clock has met the
    -- deadline by its reading `last`, counted from 0, rounds beyond it are enough, whatever arrives.
    pub connect_loop_ends :
        (last rounds deadline : ℕ) (n : Negotiation) (s : Session)
        → deadline ≤ world.monotonic last
        → last < s.clock_reads + rounds
        → 0 < rounds
        → ran_out (connect_loop inet world call rounds deadline n s).0 ≡ false
    unfolding connect_loop ◌>>=◌
    connect_loop_ends last zero deadline n s met enough left = absurd (omega arith)
    connect_loop_ends last (suc rounds) deadline n s met enough left =
        let counted = record s { clock_reads = s.clock_reads + 1 } in
        elim (Bool-cases (leb deadline (world.monotonic s.clock_reads))) [
          | inl late ↦ rw (late, connect_loop) refl
          | inr early ↦
              let soon : s.clock_reads < last =
                early_lt world forward last deadline s.clock_reads met early in
              rw (early, connect_loop)
                (ran_out-continue (round inet world call n counted) _
                  ((round-Steady n).ending.ends counted)
                  λ more. go_on-ends _ more (round inet world call n counted).1 λ m.
                    connect_loop_ends last rounds deadline m (round inet world call n counted).1 met
                      (omega (arith, round-read n counted)) (omega arith))
        ]
