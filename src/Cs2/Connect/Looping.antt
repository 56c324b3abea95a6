-- ===== src/Cs2/Connect/Looping.antt =====
-- The whole loop of `connect` reaches that state, if it returns.
use okam_ha_proxy.Prelude.{
  ℕ, zero, suc, ◌+◌, Bool, true, false, not, ◌&&◌, [], ◌∷◌, ◌++◌, Option, some, none, Bytes, codes,
  ◌≡◌, refl, arith, leb, length, ◌==◌, Bool-cases, inl, inr, if◌then◌else◌,
}
use okam_ha_proxy.Inet.{Inet}
use okam_ha_proxy.Prelude.Exec.{pure, ◌>>=◌}
use okam_ha_proxy.Prelude.Exec.Returns.{Returns, bind-Returns}
use okam_ha_proxy.Cs2.Address.{Endpoint}
use okam_ha_proxy.Cs2.World.{World}
use okam_ha_proxy.Cs2.State.{Session, Action}
use okam_ha_proxy.Cs2.Connect.Messages.{
  Negotiation, Call, is_in, is_kind, names_camera, Case, camera_address, relay_list, relay_answer,
  relay_port, rendezvous, relay_targets, direct_punch, direct_accept, readiness, relay_ready,
  ignored,
}
use okam_ha_proxy.Cs2.Connect.Answers.{classify, act, take_packet}
use okam_ha_proxy.Cs2.Connect.{take_answer, round, fail, carry_on, connect_loop}
use okam_ha_proxy.Cs2.Connect.Calm.{
  now-Keeps, receive_clear-Keeps, note_packet-Keeps, send_due-Keeps,
}
use okam_ha_proxy.Cs2.Connect.Establishing.{
  Established, IsOpen, IsOpen-IsCalm, Post, Proceeds, adopt-Proceeds, again-Proceeds, bind-Proceeds,
  decline-Proceeds, take_endpoint-Proceeds, take_hello-Proceeds, take_port-Proceeds,
  take_relay-Proceeds, take_targets-Proceeds,
}

module _ (inet : Inet) (world : World) (call : Call) where
  -- Only a packet from outside the directory makes its source the peer, and without a relay only
  -- where none is preferred.
  abbrev Adopting : Endpoint → Case → Type 0
  Adopting address direct_punch =
      (is_in address call.directory_endpoints ≡ false) × (call.prefer_relay ≡ false)
  Adopting address direct_accept =
      (is_in address call.directory_endpoints ≡ false) × (call.prefer_relay ≡ false)
  Adopting address relay_ready = is_in address call.directory_endpoints ≡ false
  Adopting address _ = Unit

  record Fits (address : Endpoint) (c : Case) : Type 0 where
    fits : Adopting address c

  branch-Fits :
      (address : Endpoint) (test : Bool) (c d : Case)
      → (test ≡ true → Adopting address c)
      → Fits address d
      → Fits address (if test then c else d)
  branch-Fits address true c d h k = record { fits = h refl }
  branch-Fits address false c d h k = k

  ignored-Fits : (address : Endpoint) → Fits address ignored
  ignored-Fits address = record { fits = tt }

  rendezvous-Fits :
      (address : Endpoint) (test full : Bool) (d : Case)
      → Fits address d
      → Fits address (if test then (if full then rendezvous else ignored) else d)
  rendezvous-Fits address true true d k = record { fits = tt }
  rendezvous-Fits address true false d k = record { fits = tt }
  rendezvous-Fits address false full d k = k

  classify-Fits :
      (packet : Bytes) (address : Endpoint) (n : Negotiation)
      → Fits address (classify inet world call packet address n)
  unfolding classify
  classify-Fits packet address n =
      let from_directory = is_in address call.directory_endpoints in
      let from_relay = is_in address n.relay_endpoints in
      let from_camera = not from_directory && names_camera call.uid packet in
      let branch = branch-Fits address in
      branch (is_kind 0x40 packet && from_directory && leb 20 (length packet)) camera_address _
        (λ _. tt)
        (branch (is_kind 0x69 packet && from_directory) relay_list _ (λ _. tt)
          (branch (is_kind 0x71 packet && from_relay) relay_answer _ (λ _. tt)
            (branch (is_kind 0x73 packet && from_relay) relay_port _ (λ _. tt)
              (rendezvous-Fits address (is_kind 0x82 packet && from_directory) (length packet == 24)
                _
                (branch (is_kind 0x02 packet && length packet == 36) relay_targets _ (λ _. tt)
                  (branch (is_kind 0x41 packet && not call.prefer_relay && from_camera) direct_punch
                    _ (λ test. ground arith)
                    (branch (is_kind 0x42 packet && not call.prefer_relay && from_camera)
                      direct_accept _ (λ test. ground arith)
                      (branch (is_kind 0x42 packet && call.prefer_relay && from_camera) readiness _
                        (λ _. tt)
                        (branch (is_kind 0x84 packet && from_camera) relay_ready _
                          (λ test. ground arith) (ignored-Fits address))))))))))

  act-Proceeds :
      (packet : Bytes) (address : Endpoint) (n : Negotiation) (c : Case)
      → Adopting address c
      → Proceeds call (act inet world call c packet address n)
  unfolding act
  act-Proceeds packet address n camera_address e = take_endpoint-Proceeds inet world call _ n
  act-Proceeds packet address n relay_list e = again-Proceeds call _
  act-Proceeds packet address n relay_answer e =
      take_relay-Proceeds inet world call n.relay_port_endpoint address n
  act-Proceeds packet address n relay_port e = take_port-Proceeds inet world call packet address n
  act-Proceeds packet address n rendezvous e =
      take_hello-Proceeds inet world call packet address _ n
  act-Proceeds packet address n relay_targets e = take_targets-Proceeds inet world call packet n
  act-Proceeds packet address n direct_punch (outside, direct) =
      adopt-Proceeds inet world call (codes "direct-punch")
        (((0xf1 ∷ 0x42 ∷ 0x00 ∷ 0x14 ∷ []) ++ call.uid) ∷ (0xf1 ∷ 0xe0 ∷ 0x00 ∷ 0x00 ∷ []) ∷ [])
        address outside (λ preferred. cc)
  act-Proceeds packet address n direct_accept (outside, direct) =
      adopt-Proceeds inet world call (codes "direct-accept") ((0xf1 ∷ 0x43 ∷ 0x00 ∷ 0x00 ∷ []) ∷ [])
        address outside (λ preferred. cc)
  act-Proceeds packet address n readiness e = decline-Proceeds inet world call address n
  act-Proceeds packet address n relay_ready outside =
      adopt-Proceeds inet world call (codes "relay") ((0xf1 ∷ 0xe0 ∷ 0x00 ∷ 0x00 ∷ []) ∷ []) address
        outside (λ _. refl)
  act-Proceeds packet address n ignored e = again-Proceeds call n

  take_answer-Proceeds :
      (n : Negotiation) (received : Option (Bytes × Endpoint))
      → Proceeds call (take_answer inet world call n received)
  unfolding take_answer take_packet
  take_answer-Proceeds n none = again-Proceeds call n
  take_answer-Proceeds n (some (packet, address)) =
      bind-Proceeds call _ _ (note_packet-Keeps inet world call IsOpen IsOpen-IsCalm packet address)
        λ _.
          act-Proceeds packet address n (classify inet world call packet address n)
            (classify-Fits packet address n).fits

  round-Proceeds : (n : Negotiation) → Proceeds call (round inet world call n)
  unfolding round
  round-Proceeds n = bind-Proceeds call _ _ (now-Keeps world IsOpen IsOpen-IsCalm) λ time.
      bind-Proceeds call _ _ (send_due-Keeps inet world call IsOpen IsOpen-IsCalm time n) λ sent.
        bind-Proceeds call _ _ (receive_clear-Keeps world IsOpen IsOpen-IsCalm)
          λ received. take_answer-Proceeds sent received

  fail-Establishes : (s : Session) → Returns (λ _ t. Established call t) (fail inet world call s)
  unfolding ◌>>=◌
  fail-Establishes s = tt

  go_on-Establishes :
      (next : Negotiation → Action (Unit {0})) (left : Option Negotiation) (t : Session)
      → ((n : Negotiation) → IsOpen t → Returns (λ _ u. Established call u) (next n t))
      → Post call left t
      → Returns (λ _ u. Established call u) (carry_on inet world call next left t)
  unfolding pure
  go_on-Establishes next none t again q = q
  go_on-Establishes next (some n) t again q = again n q

  pub connect_loop-Establishes :
      (rounds deadline : ℕ) (n : Negotiation) (s : Session)
      → IsOpen s
      → Returns (λ _ t. Established call t) (connect_loop inet world call rounds deadline n s)
  unfolding connect_loop
  connect_loop-Establishes zero deadline n s p = tt
  connect_loop-Establishes (suc rounds) deadline n s p =
      let counted = record s { clock_reads = s.clock_reads + 1 } in
      elim (Bool-cases (leb deadline (world.monotonic s.clock_reads))) [
        | inl late ↦ rw (late, connect_loop) (fail-Establishes counted)
        | inr early ↦
            rw (early, connect_loop)
              (bind-Returns (Post call) (λ _ t. Established call t) (round inet world call n) _
                counted ((round-Proceeds n).proceeds counted p)
                λ left t q.
                  go_on-Establishes _ left t
                    (λ m open_. connect_loop-Establishes rounds deadline m t open_) q)
      ]
