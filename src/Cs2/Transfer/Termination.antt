-- ===== src/Cs2/Transfer/Termination.antt =====
-- The loops of `write` and `read_exact` end: the deadline is met after finitely many rounds.
use okam_ha_proxy.Prelude.{
  ℕ, zero, suc, ◌+◌, ◌≤◌, ◌<◌, ◌&&◌, false, List, [], ◌∷◌, ◌≡◌, refl, inl, inr, arith, Bytes, any,
  length, Bool-cases, ltb, leb,
}
use okam_ha_proxy.Prelude.Exec.{◌>>=◌}
use okam_ha_proxy.Prelude.Exec.Ends.{
  Ends, pure-Ends, gets-Ends, modify-Ends, ran_out, ran_out-continue, bind-Ends,
}
use okam_ha_proxy.Cs2.World.{World}
use okam_ha_proxy.Cs2.State.{Session, PendingKey, connected}
use okam_ha_proxy.Cs2.Pending.{is_pending}
use okam_ha_proxy.Cs2.Session.{channel_at, pump}
use okam_ha_proxy.Cs2.Session.Rounds
use okam_ha_proxy.Cs2.Session.Growth.{HasRead, HasRead-IsStable}
use okam_ha_proxy.Cs2.Session.Endings.{assert_peer-Ends, send_clear-Ends, now-Ends, pump-Ends}
use okam_ha_proxy.Cs2.Transfer.{
  send_chunk, write_chunk, write_chunks, chunks, await_acks, write, await_bytes, read_exact,
  max_frame_bytes,
}

-- The clock of the world cannot go backwards.
abbrev pub IsMonotonic : World → Type 0
IsMonotonic world = (m n : ℕ) → m ≤ n → world.monotonic m ≤ world.monotonic n

module _ (world : World) (forward : IsMonotonic world) where
  -- While the deadline is not met, the reading that meets it is still to come.
  pub early_lt :
      (n deadline reads : ℕ)
      → deadline ≤ world.monotonic n
      → leb deadline (world.monotonic reads) ≡ false
      → reads < n
  early_lt n deadline reads met early = elim (Bool-cases (ltb reads n)) [
    | inl ahead ↦ ground arith
    | inr behind ↦
        let passed : n ≤ reads = ground arith in
        let later = forward n reads passed in absurd (ground arith)
  ]

  -- The state after a round, whatever the round did.
  pump-read : (s : Session) → s.clock_reads ≤ (pump world s).1.clock_reads
  pump-read s =
      (Rounds.pump-Keeps world (HasRead s.clock_reads) (HasRead-IsStable s.clock_reads)).after s
        (omega arith)

  await_bytes-ends :
      (n rounds deadline channel size : ℕ) (s : Session)
      → deadline ≤ world.monotonic n
      → 0 < rounds
      → n < s.clock_reads + rounds
      → ran_out (await_bytes world rounds deadline channel size s).0 ≡ false
  unfolding await_bytes ◌>>=◌
  await_bytes-ends n zero deadline channel size s met some_left h = absurd (omega arith)
  await_bytes-ends n (suc rounds) deadline channel size s met some_left h =
      elim (Bool-cases (ltb (length (channel_at s channel).buffer) size)) [
        | inr enough ↦ rw (enough, await_bytes) refl
        | inl short ↦
            rw (short, await_bytes)
              (elim (Bool-cases (leb deadline (world.monotonic s.clock_reads))) [
                | inl late ↦ rw (late, await_bytes) refl
                | inr early ↦
                    let soon : s.clock_reads < n = early_lt n deadline s.clock_reads met early in
                    let counted = record s { clock_reads = s.clock_reads + 1 } in
                    rw (early, await_bytes)
                      (ran_out-continue (pump world counted) _ ((pump-Ends world).ends counted) λ _.
                        await_bytes-ends n rounds deadline channel size (pump world counted).1 met
                          (omega arith) (omega (arith, pump-read counted)))
              ])
      ]

  await_acks-ends :
      (n rounds deadline : ℕ) (keys : List PendingKey) (s : Session)
      → deadline ≤ world.monotonic n
      → 0 < rounds
      → n < s.clock_reads + rounds
      → ran_out (await_acks world rounds deadline keys s).0 ≡ false
  unfolding await_acks ◌>>=◌
  await_acks-ends n zero deadline keys s met some_left h = absurd (omega arith)
  await_acks-ends n (suc rounds) deadline keys s met some_left h =
      elim (Bool-cases (any (λ key. is_pending key s.pending) keys)) [
        | inr acked ↦ rw (acked, await_acks) refl
        | inl waiting ↦
            rw (waiting, await_acks)
              (elim (Bool-cases (leb deadline (world.monotonic s.clock_reads))) [
                | inl late ↦ rw (late, await_acks) refl
                | inr early ↦
                    let soon : s.clock_reads < n = early_lt n deadline s.clock_reads met early in
                    let counted = record s { clock_reads = s.clock_reads + 1 } in
                    rw (early, await_acks)
                      (ran_out-continue (pump world counted) _ ((pump-Ends world).ends counted) λ _.
                        await_acks-ends n rounds deadline keys (pump world counted).1 met
                          (omega arith) (omega (arith, pump-read counted)))
              ])
      ]

  -- With a clock that cannot go backwards, `read_exact` ends: where the clock has met the deadline by its
  -- n-th reading, more than n rounds are enough for its loop, whatever arrives.
  pub read_exact_ends :
      (n rounds channel size timeout : ℕ) (s : Session)
      → world.monotonic s.clock_reads + timeout ≤ world.monotonic n
      → n < rounds
      → ran_out (read_exact world rounds channel size timeout s).0 ≡ false
  unfolding read_exact ◌>>=◌
  read_exact_ends n rounds channel size timeout s met enough = elim (Bool-cases (connected s)) [
    | inr down ↦ rw down refl
    | inl up ↦
        rw up (elim (Bool-cases (ltb channel (length s.incoming) && leb size max_frame_bytes)) [
          | inr refused ↦ rw refused refl
          | inl asked ↦
              let started = record s { clock_reads = s.clock_reads + 1 } in
              let deadline = world.monotonic s.clock_reads + timeout in
              rw asked (
                ran_out-continue (await_bytes world rounds deadline channel size started) _
                  (await_bytes-ends n rounds deadline channel size started met (omega arith)
                    (omega arith))
                  λ _. refl)
        ])
  ]

  send_chunk-Ends :
      (channel sequence : ℕ) (chunk : Bytes) → Ends (send_chunk world channel sequence chunk)
  unfolding send_chunk
  send_chunk-Ends channel sequence chunk = bind-Ends _ _ (gets-Ends _) λ peer.
      bind-Ends _ _ (assert_peer-Ends world peer) λ address.
        bind-Ends _ _ (send_clear-Ends world _ address)
          λ _. bind-Ends _ _ (now-Ends world) λ time. modify-Ends _

  write_chunk-Ends : (channel : ℕ) (chunk : Bytes) → Ends (write_chunk world channel chunk)
  unfolding write_chunk
  write_chunk-Ends channel chunk = bind-Ends _ _ (gets-Ends _) λ sequences.
      bind-Ends _ _ (modify-Ends _)
        λ _. bind-Ends _ _ (send_chunk-Ends channel _ chunk) λ _. pure-Ends _

  write_chunks-Ends : (channel : ℕ) (pieces : List Bytes) → Ends (write_chunks world channel pieces)
  unfolding write_chunks
  write_chunks-Ends channel [] = pure-Ends []
  write_chunks-Ends channel (chunk ∷ rest) =
      bind-Ends _ _ (write_chunk-Ends channel chunk)
        λ key. bind-Ends _ _ (write_chunks-Ends channel rest) λ keys. pure-Ends _

  -- Under such a clock `write` ends too: where the clock has met the deadline, which is set when the last
  -- chunk is out, by its n-th reading, more than n rounds are enough.
  pub write_ends :
      (n rounds channel timeout : ℕ) (payload : Bytes) (s : Session)
      → (let out = (write_chunks world channel (chunks payload) s).1 in
          world.monotonic out.clock_reads + timeout ≤ world.monotonic n)
      → n < rounds
      → ran_out (write world rounds channel payload timeout s).0 ≡ false
  unfolding write ◌>>=◌
  write_ends n rounds channel timeout payload s met enough = elim (Bool-cases (connected s)) [
    | inr down ↦ rw down refl
    | inl up ↦ rw up (elim (Bool-cases (ltb channel (length s.incoming))) [
      | inr refused ↦ rw refused refl
      | inl asked ↦ rw asked (
          ran_out-continue (write_chunks world channel (chunks payload) s) _
            ((write_chunks-Ends channel (chunks payload)).ends s)
            λ keys. await_acks-ends n rounds _ keys _ met (omega arith) (omega arith))
    ])
  ]
