-- ===== src/Cs2/Channel/Loss.antt =====
-- When an arriving packet is kept, and when the code drops it for good.
use okam_ha_proxy.Prelude.{
  ℕ, ◌+◌, ◌%◌, ◌≤◌, ◌<◌, true, [], ◌∷◌, ◌++◌, ◌≡◌, ◌≢◌, ap, ◌∙◌, ◌⊎◌, none, some, arith, inl, inr,
  Bytes, length, Bool-cases, Option-cases, ltb, ◌==◌,
}
use okam_ha_proxy.Cs2.Channel.{Held, Channel, lookup, hold, accept}
use okam_ha_proxy.Cs2.Channel.Drain.{All-lookup}
use okam_ha_proxy.Cs2.Channel.Stream.{IsAhead, Tracks, delivered_by, is_ahead}

lookup-append_some :
    (s : ℕ) (held rest : Held) (body : Bytes)
    → lookup s held ≡ some body
    → lookup s (held ++ rest) ≡ some body
unfolding lookup
lookup-append_some s [] rest body h = cc
lookup-append_some s ((k, b) ∷ held) rest body h =
    ground (arith, lookup-append_some s held rest body)

lookup-append_self :
    (s : ℕ) (held : Held) (body : Bytes)
    → lookup s held ≡ none
    → lookup s (held ++ (s, body) ∷ []) ≡ some body
unfolding lookup
lookup-append_self s [] body h = ground arith
lookup-append_self s ((k, b) ∷ held) body h = ground (arith, lookup-append_self s held body)

module _ (sent : ℕ → Bytes) where
  -- Packet `k` is not lost: it is delivered, or waits under its own sequence number.
  abbrev pub IsKept : ℕ → ℕ → Channel → Type 0
  IsKept k n c = (k < n) ⊎ (lookup (k % 65536) c.held ≡ some (sent k))

  -- A packet that is due or ahead of its turn by less than half the sequence space, and that arrives
  -- while fewer than 64 packets wait, is afterwards delivered or held with its payload, also if it had
  -- arrived before.
  pub accept-IsKept :
      (n : ℕ) (read : Bytes) (c : Channel) (k : ℕ)
      → Tracks sent n read c
      → n ≤ k
      → k < n + 32768
      → length c.held < 64
      → IsKept k (delivered_by c (k % 65536) (sent k) + n) (accept c (k % 65536) (sent k))
  unfolding accept hold
  accept-IsKept n read c k t lo hi room = elim (Bool-cases (k % 65536 == c.expected)) [
    | inl turn ↦
        let same : k ≡ n = ground (arith, t.expects) in inl (rw turn (rw same (omega arith)))
    | inr other ↦ rw other (elim (Option-cases (lookup (k % 65536) c.held)) [
      | inl absent ↦
          let near : is_ahead (k % 65536) c.expected ≡ true = ground (arith, t.expects) in
          let fits : ltb (length c.held) 64 ≡ true = ground arith in
          inr (rw (absent, fits, near) (lookup-append_self (k % 65536) c.held (sent k) absent))
      | inr (body, present) ↦
          let (j, j_lo, j_hi, key, is) =
            All-lookup (IsAhead sent n) (k % 65536) c.held body t.ahead present in
          let same : j ≡ k = omega (arith, key, j_lo, j_hi) in
          inr (rw present (present ∙ ap some (is ∙ ap sent same)))
    ])
  ]

-- While 64 packets or more wait, a packet other than the one due leaves the channel as it was: its
-- payload is not kept, whatever its sequence number.
pub accept_full :
    (c : Channel) (sequence : ℕ) (payload : Bytes)
    → 64 ≤ length c.held
    → sequence ≢ c.expected
    → accept c sequence payload ≡ c
unfolding accept
accept_full c sequence payload full ne = ground arith
