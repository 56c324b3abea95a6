-- ===== src/Cs2/Transfer/Writing.antt =====
-- What a call of `write` that returns has achieved.
use okam_ha_proxy.Prelude.{
  ℕ, zero, suc, ◌<◌, false, List, [], ◌∷◌, ◌≡◌, refl, inl, inr, arith, Bytes, All, any, length,
  get_or, Bool-cases, ltb, leb,
}
use okam_ha_proxy.Prelude.Exec.{◌>>=◌, gets}
use okam_ha_proxy.Prelude.Exec.Keeps.{bind-Keeps}
use okam_ha_proxy.Prelude.Exec.Returns.{
  Returns, any-Returns, bind-Returns, continue-Returns, both-Returns, two-Returns, reached-Returns,
  then-Returns,
}
use okam_ha_proxy.Cs2.World.{World}
use okam_ha_proxy.Cs2.State.{Session, PendingKey, Pending, connected}
use okam_ha_proxy.Cs2.Pending.{is_pending}
use okam_ha_proxy.Cs2.Session.{pump}
use okam_ha_proxy.Cs2.Session.Stable.{IsStable}
use okam_ha_proxy.Cs2.Session.Rounds
use okam_ha_proxy.Cs2.Session.Invariant.{IsValid}
use okam_ha_proxy.Cs2.Transfer.Numbering.{
  keys_from, number_after, Numbered, Numbered-IsStable, write_chunks-numbers,
}
use okam_ha_proxy.Cs2.Transfer.Sent.{Sent, write_chunks-Sent}
use okam_ha_proxy.Cs2.Transfer.{write_chunks, chunks, await_acks, write}

-- Each key is acknowledged.
abbrev pub AllAcked : List PendingKey → Session → Type 0
AllAcked keys s = All (λ key. is_pending key s.pending ≡ false) keys

-- `n` packets from the number `first` on are sent and acknowledged.
abbrev pub Written : ℕ → ℕ → ℕ → Session → Type 0
Written channel first n s =
    AllAcked (keys_from channel first n) s
    × (get_or s.outgoing_sequence channel 0 ≡ number_after first n)

none_pending :
    (keys : List PendingKey) (pending : List (PendingKey × Pending))
    → any (λ key. is_pending key pending) keys ≡ false
    → All (λ key. is_pending key pending ≡ false) keys
none_pending [] pending h = tt
none_pending (key ∷ keys) pending h = (ground arith, none_pending keys pending (ground arith))

module _ (world : World) where
  await_acks-after :
      (P : Session → Type 0) (stable : IsStable P) (rounds deadline : ℕ) (keys : List PendingKey)
      (s : Session)
      → P s
      → P (await_acks world rounds deadline keys s).1
  unfolding await_acks
  await_acks-after P stable zero deadline keys s p = p
  await_acks-after P stable (suc rounds) deadline keys s p =
      elim (Bool-cases (any (λ key. is_pending key s.pending) keys)) [
        | inl waiting ↦
            rw (waiting, await_acks)
              (elim (Bool-cases (leb deadline (world.monotonic s.clock_reads))) [
                | inl late ↦ rw (late, await_acks) (stable.clocking s p)
                | inr early ↦
                    rw (early, await_acks)
                      ((bind-Keeps (pump world) (λ _. await_acks world rounds deadline keys)
                          (Rounds.pump-Keeps world P stable)
                          (λ _. record {
                            after = await_acks-after P stable rounds deadline keys;
                          })).after
                        _ (stable.clocking s p))
              ])
        | inr acked ↦ rw (acked, await_acks) p
      ]

  await_acks-acked :
      (rounds deadline : ℕ) (keys : List PendingKey) (s : Session)
      → Returns (λ _ t. AllAcked keys t) (await_acks world rounds deadline keys s)
  unfolding await_acks
  await_acks-acked zero deadline keys s = tt
  await_acks-acked (suc rounds) deadline keys s =
      elim (Bool-cases (any (λ key. is_pending key s.pending) keys)) [
        | inl waiting ↦
            rw (waiting, await_acks)
              (elim (Bool-cases (leb deadline (world.monotonic s.clock_reads))) [
                | inl late ↦ rw (late, await_acks) tt
                | inr early ↦
                    rw (early, await_acks)
                      (bind-Returns (λ _ _. Unit) _ (pump world) _ _ (any-Returns (pump world _))
                        (λ _ t _. await_acks-acked rounds deadline keys t))
              ])
        | inr acked ↦ rw (acked, await_acks) (none_pending keys s.pending acked)
      ]

  await_acks-Written :
      (rounds deadline channel first n : ℕ) (keys : List PendingKey)
      → keys ≡ keys_from channel first n
      → (s : Session) → Numbered channel (number_after first n) s
      → Returns (λ _ t. Written channel first n t) (await_acks world rounds deadline keys s)
  await_acks-Written rounds deadline channel first n keys are s p = rw are (
      both-Returns _ (λ t. get_or t.outgoing_sequence channel 0 ≡ number_after first n) _
        (await_acks-acked rounds deadline (keys_from channel first n) s)
        (await_acks-after _ (Numbered-IsStable channel (number_after first n)) rounds deadline
          (keys_from channel first n) s p).0)

  -- From a well-formed session, a `write` that returns on channel `channel` has sent every one of its
  -- chunks, in order, to the peer: behind the datagrams of before there are the wire forms of one data
  -- packet for each chunk, numbered on from the channel's next number modulo 65536, and each packet is
  -- entered among those that wait for an acknowledgement. When `write` returns, none of them waits any more,
  -- and the channel's next number is the one behind them.
  pub write-acked :
      (rounds channel timeout : ℕ) (payload : Bytes) (s : Session)
      → IsValid s
      → let pieces = chunks payload in
        let first = get_or s.outgoing_sequence channel 0 in
        Returns
          (λ _ t.
            Sent world channel first pieces s (write_chunks world channel pieces s).1
            × Written channel first (length pieces) t)
          (write world rounds channel payload timeout s)
  unfolding write gets ◌>>=◌
  write-acked rounds channel timeout payload s v = elim (Bool-cases (connected s)) [
    | inr down ↦ rw down tt
    | inl up ↦ rw up (elim (Bool-cases (ltb channel (length s.incoming))) [
      | inr refused ↦ rw refused tt
      | inl asked ↦
          let pieces = chunks payload in
          let first = get_or s.outgoing_sequence channel 0 in
          let there : channel < length s.outgoing_sequence =
            ground (arith, v.channels, v.numbered) in
          rw asked (
            continue-Returns
              (λ keys t.
                ((keys ≡ keys_from channel first (length pieces))
                  × Numbered channel (number_after first (length pieces)) t)
                × Sent world channel first pieces s (write_chunks world channel pieces s).1)
              (λ _ t.
                Sent world channel first pieces s (write_chunks world channel pieces s).1
                × Written channel first (length pieces) t)
              (write_chunks world channel pieces s) _
              (two-Returns
                (λ keys t.
                  (keys ≡ keys_from channel first (length pieces))
                  × Numbered channel (number_after first (length pieces)) t)
                (λ _ _. Sent world channel first pieces s (write_chunks world channel pieces s).1)
                (write_chunks world channel pieces s)
                (write_chunks-numbers world channel first pieces s (refl, there))
                (reached-Returns (Sent world channel first pieces s)
                  (write_chunks world channel pieces s)
                  (write_chunks-Sent world channel first pieces s up (refl, there))))
              λ keys t ((are, p), sent).
                then-Returns (λ _ u. Written channel first (length pieces) u) _ _
                  (await_acks-Written rounds _ channel first (length pieces) keys are _ p)
                  (λ _ u written. (sent, written)))
    ])
  ]
