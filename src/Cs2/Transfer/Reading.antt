-- ===== src/Cs2/Transfer/Reading.antt =====
-- What a reader gets from `read_exact`.
use okam_ha_proxy.Prelude.{
  ℕ, zero, suc, ◌+◌, ◌≤◌, ◌<◌, ◌&&◌, ◌++◌, ◌≡◌, inl, inr, arith, Bytes, length, length-take,
  take-append-drop, get_or-set_self, Bool-cases, ltb, leb,
}
use okam_ha_proxy.Prelude.Outcome.{Result, ok, err}
use okam_ha_proxy.Prelude.Exec.{◌>>=◌, ◌>>◌, pure, gets, continue}
use okam_ha_proxy.Prelude.Exec.Returns.{Returns, any-Returns, bind-Returns}
use okam_ha_proxy.Prelude.Exec.Keeps.{bind-Keeps}
use okam_ha_proxy.Cs2.Channel.{empty_channel, consume}
use okam_ha_proxy.Cs2.World.{World}
use okam_ha_proxy.Cs2.State.{Session, Action, connected}
use okam_ha_proxy.Cs2.Session.{channel_at, update_channel, pump}
use okam_ha_proxy.Cs2.Session.Stable.{IsStable}
use okam_ha_proxy.Cs2.Session.Rounds
use okam_ha_proxy.Cs2.Session.Invariant.{IsValid}
use okam_ha_proxy.Cs2.Session.Validity.{IsValid-IsStable}
use okam_ha_proxy.Cs2.Session.Growth.{Extends, Extends-refl, HasGrown, HasGrown-IsStable}
use okam_ha_proxy.Cs2.Transfer.{await_bytes, read_exact, max_frame_bytes}

-- What `s` was and what came of a call for `size` bytes: if it returns, it returns `size` bytes, and
-- these with what is left in the buffer are what was there, with what arrived meanwhile behind it; if
-- it raises, all that was there is still there, with what arrived behind it.
abbrev pub ReadOutcome : Session → ℕ → ℕ → Result Bytes × Session → Type 0
ReadOutcome s channel size (ok bytes, t) =
    (length bytes ≡ size)
    × Extends (channel_at s channel).buffer (bytes ++ (channel_at t channel).buffer)
ReadOutcome s channel size (err _, t) =
    Extends (channel_at s channel).buffer (channel_at t channel).buffer

module _ (world : World) where
  pub await_bytes-after :
      (P : Session → Type 0) (stable : IsStable P) (rounds deadline channel size : ℕ) (s : Session)
      → P s
      → P (await_bytes world rounds deadline channel size s).1
  unfolding await_bytes
  await_bytes-after P stable zero deadline channel size s p = p
  await_bytes-after P stable (suc rounds) deadline channel size s p =
      elim (Bool-cases (ltb (length (channel_at s channel).buffer) size)) [
        | inl short ↦
            rw (short, await_bytes)
              (elim (Bool-cases (leb deadline (world.monotonic s.clock_reads))) [
                | inl late ↦ rw (late, await_bytes) (stable.clocking s p)
                | inr early ↦
                    rw (early, await_bytes)
                      ((bind-Keeps (pump world)
                          (λ _. await_bytes world rounds deadline channel size)
                          (Rounds.pump-Keeps world P stable)
                          (λ _. record {
                            after = await_bytes-after P stable rounds deadline channel size;
                          })).after
                        _ (stable.clocking s p))
              ])
        | inr enough ↦ rw (enough, await_bytes) p
      ]

  await_bytes-enough :
      (rounds deadline channel size : ℕ) (s : Session)
      → Returns
          (λ _ t. size ≤ length (channel_at t channel).buffer)
          (await_bytes world rounds deadline channel size s)
  unfolding await_bytes
  await_bytes-enough zero deadline channel size s = tt
  await_bytes-enough (suc rounds) deadline channel size s =
      elim (Bool-cases (ltb (length (channel_at s channel).buffer) size)) [
        | inl short ↦
            rw (short, await_bytes)
              (elim (Bool-cases (leb deadline (world.monotonic s.clock_reads))) [
                | inl late ↦ rw (late, await_bytes) tt
                | inr early ↦
                    rw (early, await_bytes)
                      (bind-Returns (λ _ _. Unit) _ (pump world) _ _ (any-Returns (pump world _))
                        (λ _ t _. await_bytes-enough rounds deadline channel size t))
              ])
        | inr enough ↦
            let there : size ≤ length (channel_at s channel).buffer = ground arith in
            rw (enough, await_bytes) there
      ]

  -- What `read_exact` does when its waiting loop is over.
  take_out : ℕ → ℕ → Action Bytes
  take_out channel size = do
    bytes ← gets (λ s. (consume size (channel_at s channel)).0)
    update_channel channel (λ c. (consume size c).1)
    pure bytes

  take_out-outcome :
      (s : Session) (channel size : ℕ) (waited : Result (Unit {0}) × Session)
      → HasGrown (λ j. (channel_at s j).buffer) waited.1
      → channel < length waited.1.incoming
      → Returns (λ _ t. size ≤ length (channel_at t channel).buffer) waited
      → ReadOutcome s channel size (continue waited.0 (λ _. take_out channel size) waited.1)
  unfolding take_out consume ◌>>=◌
  take_out-outcome s channel size (err _, t) grown there enough = grown channel
  take_out-outcome s channel size (ok _, t) grown there enough =
      let buffer = (channel_at t channel).buffer in
      let written = (consume size (channel_at t channel)).1 in
      (
        omega (arith, length-take size buffer),
        rw (get_or-set_self t.incoming channel written empty_channel there)
            (rw (take-append-drop size buffer) (grown channel)),
      )

  -- From a well-formed session, `read_exact` returns exactly as many bytes as asked for, taken from the
  -- front of what the channel had and what arrived during the call, and leaves the rest in the buffer;
  -- where it raises, whichever the exception, it takes nothing: all that the channel had is still there.
  pub read_exact-outcome :
      (rounds channel size timeout : ℕ) (s : Session)
      → IsValid s
      → ReadOutcome s channel size (read_exact world rounds channel size timeout s)
  unfolding read_exact take_out ◌>>=◌
  read_exact-outcome rounds channel size timeout s v = elim (Bool-cases (connected s)) [
    | inr down ↦ rw down (Extends-refl (channel_at s channel).buffer)
    | inl up ↦
        rw up (elim (Bool-cases (ltb channel (length s.incoming) && leb size max_frame_bytes)) [
          | inr refused ↦ rw refused (Extends-refl (channel_at s channel).buffer)
          | inl asked ↦
              let before = λ (j : ℕ). (channel_at s j).buffer in
              let started = record s { clock_reads = s.clock_reads + 1 } in
              let deadline = world.monotonic s.clock_reads + timeout in
              let waited = await_bytes world rounds deadline channel size started in
              let valid =
                await_bytes-after IsValid IsValid-IsStable rounds deadline channel size started
                  (IsValid-IsStable.clocking s v) in
              let grown =
                await_bytes-after (HasGrown before) (HasGrown-IsStable before) rounds deadline
                  channel size started (λ j. Extends-refl (before j)) in
              let there : channel < length waited.1.incoming =
                ground (arith, v.channels, valid.channels) in
              rw asked (
                take_out-outcome s channel size waited grown there
                  (await_bytes-enough rounds deadline channel size started))
        ])
  ]
