-- ===== src/Cs2/Session/Growth.antt =====
-- A round only ever appends to the buffers of the channels, and only moves the clock forward.
use okam_ha_proxy.Prelude.{
  ℕ, zero, suc, ◌≤◌, [], ◌++◌, append-nil, append_assoc, ◌≡◌, refl, sym, ap, ◌∙◌, arith, inl, inr,
  Bytes, length, get_or-set, Bool-cases, Option-cases, ◌==◌,
}
use okam_ha_proxy.Cs2.Channel.{
  Channel, empty_channel, lookup, without, deliver, drain, hold, accept,
}
use okam_ha_proxy.Cs2.Channel.Stream.{is_ahead, has_room}
use okam_ha_proxy.Cs2.State.{Session}
use okam_ha_proxy.Cs2.Session.{channel_at}
use okam_ha_proxy.Cs2.Session.Stable.{IsStable}

-- `longer` is `bytes` with more behind it.
abbrev pub Extends : Bytes → Bytes → Type 0
Extends bytes longer = (extra : Bytes) × (longer ≡ bytes ++ extra)

pub Extends-refl : (bytes : Bytes) → Extends bytes bytes
Extends-refl bytes = ([], sym (append-nil bytes))

pub Extends-trans : (a b c : Bytes) → Extends a b → Extends b c → Extends a c
Extends-trans a b c (x, p) (y, q) = (x ++ y, q ∙ ap (λ bs. bs ++ y) p ∙ append_assoc a x y)

drain-Extends : (fuel : ℕ) (c : Channel) → Extends c.buffer (drain fuel c).buffer
unfolding drain
drain-Extends zero c = Extends-refl c.buffer
drain-Extends (suc fuel) c = elim (Option-cases (lookup c.expected c.held)) [
  | inl absent ↦ rw (absent, drain) (Extends-refl c.buffer)
  | inr (body, present) ↦
      let after = deliver c body (without c.expected c.held) in
      rw (present, drain)
        (Extends-trans c.buffer (c.buffer ++ body) (drain fuel after).buffer (body, refl)
          (drain-Extends fuel after))
]

hold-Extends :
    (c : Channel) (sequence : ℕ) (payload : Bytes)
    → Extends c.buffer (hold c sequence payload).buffer
unfolding hold
hold-Extends c sequence payload = elim (Bool-cases (is_ahead sequence c.expected)) [
  | inl near ↦ rw near (Extends-refl c.buffer)
  | inr far ↦ rw far (Extends-refl c.buffer)
]

accept-Extends :
    (c : Channel) (sequence : ℕ) (payload : Bytes)
    → Extends c.buffer (accept c sequence payload).buffer
unfolding accept
accept-Extends c sequence payload = elim (Bool-cases (sequence == c.expected)) [
  | inl turn ↦
      let after = deliver c payload c.held in
      rw turn (
        Extends-trans c.buffer (c.buffer ++ payload) (drain (length c.held) after).buffer
          (payload, refl) (drain-Extends (length c.held) after))
  | inr other ↦ rw other (elim (Bool-cases (has_room c sequence)) [
    | inl room ↦ rw room (hold-Extends c sequence payload)
    | inr full ↦ rw full (Extends-refl c.buffer)
  ])
]

-- Every channel still has what it had when its buffer was that of the function, with more behind it.
abbrev pub HasGrown : (ℕ → Bytes) → Session → Type 0
HasGrown before s = (j : ℕ) → Extends (before j) (channel_at s j).buffer

pub HasGrown-IsStable : (before : ℕ → Bytes) → IsStable (HasGrown before)
HasGrown-IsStable before = record {
  sending = λ s t only p. rw only p;
  counting = λ s counters p. p;
  clocking = λ s p. p;
  receiving = λ s p. p;
  popping = λ s key p. p;
  putting = λ s key value within p. p;
  acking = λ s packet p. p;
  accepting = λ s channel sequence payload p j.
      elim (get_or-set s.incoming channel j (accept (channel_at s channel) sequence payload)
        empty_channel) [
          | inl old ↦ rw old (p j)
          | inr (same, new) ↦ rw new (
              Extends-trans (before j) (channel_at s j).buffer _ (p j)
                (rw (← same) (accept-Extends (channel_at s channel) sequence payload)))
        ];
  closing = λ s socket p. p;
}

-- At least so many readings of the clock were made.
abbrev pub HasRead : ℕ → Session → Type 0
HasRead n s = n ≤ s.clock_reads

pub HasRead-IsStable : (n : ℕ) → IsStable (HasRead n)
HasRead-IsStable n = record {
  sending = λ s t only p. rw only p;
  counting = λ s counters p. p;
  clocking = λ s p. omega arith;
  receiving = λ s p. p;
  popping = λ s key p. p;
  putting = λ s key value within p. p;
  acking = λ s packet p. p;
  accepting = λ s channel sequence payload p. p;
  closing = λ s socket p. p;
}
