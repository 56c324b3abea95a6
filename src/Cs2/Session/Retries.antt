-- ===== src/Cs2/Session/Retries.antt =====
-- How often `_retransmit` of src/okam_native/cs2.py sends a packet that is never acknowledged.
use okam_ha_proxy.Prelude.{
  ℕ, zero, suc, ◌+◌, ◌-◌, ◌≤◌, ◌<◌, List, [], ◌∷◌, ◌++◌, append-nil, append_assoc, ◌≡◌, refl, sym,
  ap, ◌∙◌, arith, some, Bytes, length, map, true, false, ltb, leb, ==_self,
}
use okam_ha_proxy.Prelude.Outcome.{ok, err, not_acknowledged}
use okam_ha_proxy.Prelude.Exec.{pure, ◌>>=◌}
use okam_ha_proxy.Cs2.Address.{Endpoint}
use okam_ha_proxy.Cs2.Cipher.{encode_wire_packets}
use okam_ha_proxy.Cs2.World.{World}
use okam_ha_proxy.Cs2.State.{Session, Action, Pending, PendingKey, add_to, retransmits}
use okam_ha_proxy.Cs2.Pending.{put_pending, same_key}
use okam_ha_proxy.Cs2.Session.{retransmit, retransmit_one, retransmit_loop}
use okam_ha_proxy.Cs2.Session.Sending.{IsUp, send_clear_up}

-- `_retransmit`, called `n` times.
abbrev pub times : ℕ → Action (Unit {0}) → Action (Unit {0})
times zero action = pure tt
times (suc n) action = action >>= λ _. times n action

-- A session that has this peer, and one packet that waits.
abbrev pub waiting : Session → Endpoint → PendingKey → Pending → Session
waiting s peer key value = record s { peer = some peer; pending = (key, value) ∷ [] }

-- `n` times the same datagrams.
abbrev pub copies : ℕ → List (Bytes × Endpoint) → List (Bytes × Endpoint)
copies zero out = []
copies (suc n) out = out ++ copies n out

same_self : (key : PendingKey) → same_key key key ≡ true
same_self (channel, n) = rw (==_self channel, ==_self n) refl

put_one :
    (key : PendingKey) (old new : Pending) → put_pending key new ((key, old) ∷ []) ≡ (key, new) ∷ []
unfolding put_pending
put_one key old new = rw (same_self key) refl

module _ (world : World) (peer : Endpoint) (key : PendingKey) (forms : List Bytes) where
  -- What one more transmission leaves.
  abbrev resent : Session → Session
  resent s = record s {
    wire = s.wire ++ map (λ w. (w, peer)) forms;
    sends = s.sends + length forms;
    counters = add_to retransmits 1 s.counters;
    clock_reads = s.clock_reads + 1;
  }

  retransmit_due :
      (s : Session) (value : Pending)
      → IsUp world (waiting s peer key value)
      → encode_wire_packets s.key value.packet ≡ ok forms
      → value.sent_at + 500 ≤ world.monotonic s.clock_reads
      → value.attempts < 20
      → retransmit world (waiting s peer key value) ≡ (
        ok tt,
        waiting (resent s) peer key (record {
          packet = value.packet;
          sent_at = world.monotonic s.clock_reads;
          attempts = value.attempts + 1;
        }),
      )
  unfolding retransmit retransmit_loop retransmit_one ◌>>=◌
  retransmit_due s value up encoded late few =
      let due : ltb (world.monotonic s.clock_reads - value.sent_at) 500 ≡ false = ground arith in
      let left : leb 20 value.attempts ≡ false = ground arith in
      let counted = record (waiting s peer key value) { clock_reads = s.clock_reads + 1 } in
      let went =
        send_clear_up world value.packet peer counted forms
          (record { is_open = up.is_open; ascii = up.ascii; goes_out = up.goes_out }) encoded in
      rw (due, left)
        (rw went (
          ap (λ entries. (ok tt, record (waiting (resent s) peer key value) { pending = entries }))
            (put_one key value _)))

  retransmit_spent :
      (s : Session) (value : Pending)
      → value.sent_at + 500 ≤ world.monotonic s.clock_reads
      → value.attempts ≡ 20
      → (retransmit world (waiting s peer key value)).0 ≡ err not_acknowledged
  unfolding retransmit retransmit_loop retransmit_one ◌>>=◌
  retransmit_spent s value late all =
      let due : ltb (world.monotonic s.clock_reads - value.sent_at) 500 ≡ false = ground arith in
      let spent : leb 20 value.attempts ≡ true = ground arith in rw (due, spent) refl

  -- A packet that is the only one that waits, and that nothing acknowledges, on an open socket that refuses
  -- nothing, where `_retransmit` is called half a second or more after the packet was sent and then again
  -- each half second or later: of a packet that counts `20 - k` attempts so far, exactly `k` calls return,
  -- which send its wire forms `k` times more and nothing else; and the next call raises that it was not
  -- acknowledged.
  pub retransmit-gives_up :
      (k : ℕ) (s : Session) (value : Pending)
      → ((n : ℕ) → world.monotonic n + 500 ≤ world.monotonic (n + 1))
      → IsUp world (waiting s peer key value)
      → encode_wire_packets s.key value.packet ≡ ok forms
      → value.sent_at + 500 ≤ world.monotonic s.clock_reads
      → value.attempts + k ≡ 20
      → let (outcome, t) = times k (retransmit world) (waiting s peer key value) in
        (outcome ≡ ok tt)
        × (t.wire ≡ s.wire ++ copies k (map (λ w. (w, peer)) forms))
        × ((retransmit world t).0 ≡ err not_acknowledged)
  unfolding ◌>>=◌
  retransmit-gives_up zero s value spaced up encoded late count =
      (refl, sym (append-nil s.wire), retransmit_spent s value late (omega arith))
  retransmit-gives_up (suc k) s value spaced up encoded late count =
      let again : Pending = record {
        packet = value.packet;
        sent_at = world.monotonic s.clock_reads;
        attempts = value.attempts + 1;
      } in
      let (returned, wired, raised) =
        retransmit-gives_up k (resent s) again spaced
          (record { is_open = up.is_open; ascii = up.ascii; goes_out = up.goes_out }) encoded
          (spaced s.clock_reads) (omega arith) in
      let out : List (Bytes × Endpoint) = map (λ w. (w, peer)) forms in
      rw (retransmit_due s value up encoded late (omega arith))
        (returned, wired ∙ append_assoc s.wire out (copies k out), raised)
