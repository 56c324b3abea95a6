-- ===== src/Cs2/Channel/Stream.antt =====
-- The reassembly refines an ordered byte stream: `sent k` is the payload of the k-th data packet of a
-- peer, which numbers its packets modulo 65536.
use okam_ha_proxy.Prelude.{
  ℕ, zero, suc, ◌+◌, ◌-◌, ◌%◌, ◌≤◌, ◌<◌, Bool, [], ◌∷◌, ◌++◌, append_assoc, ◌≡◌, ◌≢◌, refl, sym, ap,
  ◌∙◌, none, some, arith, inl, inr, Bytes, All, All-append, length, Bool-cases, Option-cases, ltb,
  not, ◌&&◌, ◌==◌, if◌then◌else◌,
}
use native.Mathlib.Nat.{zero-add}
use okam_ha_proxy.Cs2.Channel.{
  Held, Channel, is_some, lookup, without, deliver, drain, hold, accept,
}
use okam_ha_proxy.Cs2.Channel.Drain.{All-without, All-lookup, All-unlisted, drain-settled}

-- The first `n` payloads, one after the other.
abbrev pub prefix : (ℕ → Bytes) → ℕ → Bytes
prefix sent zero = []
prefix sent (suc n) = prefix sent n ++ sent n

-- The test of `hold`.
abbrev pub is_ahead : ℕ → ℕ → Bool
is_ahead sequence expected =
    let distance = (sequence + 65536 - expected) % 65536 in ltb 0 distance && ltb distance 0x8000

-- The test before `hold`.
abbrev pub has_room : Channel → ℕ → Bool
has_room c sequence = not (is_some (lookup sequence c.held)) && ltb (length c.held) 64

-- The rounds that the loop makes.
abbrev pub drain_rounds : ℕ → Channel → ℕ
drain_rounds zero c = 0
drain_rounds (suc fuel) c = elim (lookup c.expected c.held) [
  | none ↦ 0
  | some payload ↦ suc (drain_rounds fuel (deliver c payload (without c.expected c.held)))
]

-- How many packets the arrival of one delivers.
abbrev pub delivered_by : Channel → ℕ → Bytes → ℕ
delivered_by c sequence payload =
    if sequence == c.expected
    then suc (drain_rounds (length c.held) (deliver c payload c.held))
    else 0

pub lookup-append_ne :
    (s t : ℕ) (body : Bytes) (held : Held)
    → t ≢ s
    → lookup s held ≡ none
    → lookup s (held ++ (t, body) ∷ []) ≡ none
unfolding lookup
lookup-append_ne s t body [] ne h = ground arith
lookup-append_ne s t body ((k, b) ∷ rest) ne h = ground (arith, lookup-append_ne s t body rest)

module _ (sent : ℕ → Bytes) where
  -- An entry holds the payload of a packet from `n` on, less than half the sequence space ahead.
  abbrev pub IsAhead : ℕ → ℕ × Bytes → Type 0
  IsAhead n entry = (k : ℕ) × (n ≤ k) × (k < n + 32768) × (entry.0 ≡ k % 65536) × (entry.1 ≡ sent k)

  -- `n` packets are delivered, and `read` is what the reader has taken of them.
  pub record Tracks (n : ℕ) (read : Bytes) (c : Channel) : Type 0 where
    pub expects : c.expected ≡ n % 65536
    pub delivered : read ++ c.buffer ≡ prefix sent n
    pub ahead : All (IsAhead n) c.held

  abbrev pub IsSettled : Channel → Type 0
  IsSettled c = lookup c.expected c.held ≡ none

  All-IsAhead-suc :
      (n e : ℕ) (held : Held)
      → e ≡ n % 65536
      → All (λ entry. IsAhead n entry × (entry.0 ≢ e)) held
      → All (IsAhead (suc n)) held
  All-IsAhead-suc n e [] is h = tt
  All-IsAhead-suc n e (entry ∷ rest) is (((k, lo, hi, key, body), ne), hs) =
      let later : suc n ≤ k = ground arith in
      ((k, later, omega arith, key, body), All-IsAhead-suc n e rest is hs)

  deliver-Tracks :
      (n : ℕ) (read : Bytes) (c : Channel) (held : Held)
      → Tracks n read c
      → All (λ entry. IsAhead n entry × (entry.0 ≢ c.expected)) held
      → Tracks (suc n) read (deliver c (sent n) held)
  deliver-Tracks n read c held t others = record {
    expects = omega (arith, t.expects);
    delivered = sym (append_assoc read c.buffer (sent n)) ∙ ap (λ bs. bs ++ sent n) t.delivered;
    ahead = All-IsAhead-suc n c.expected held t.expects others;
  }

  drain-Tracks :
      (fuel n : ℕ) (read : Bytes) (c : Channel)
      → Tracks n read c
      → Tracks (drain_rounds fuel c + n) read (drain fuel c)
  unfolding drain
  drain-Tracks zero n read c t = rw zero-add t
  drain-Tracks (suc fuel) n read c t = elim (Option-cases (lookup c.expected c.held)) [
    | inl absent ↦ rw (absent, drain, drain_rounds, zero-add) t
    | inr (body, present) ↦
        let (k, lo, hi, key, is) = All-lookup (IsAhead n) c.expected c.held body t.ahead present in
        let turn : k ≡ n = omega (arith, key, t.expects, lo, hi) in
        let rest = without c.expected c.held in
        let others = All-without (IsAhead n) c.expected c.held t.ahead in
        let step = deliver-Tracks n read c rest t others in
        let after = deliver c (sent n) rest in
        let shift : drain_rounds fuel after + suc n ≡ suc (drain_rounds fuel after) + n =
          omega arith in
        rw (present, drain, drain_rounds)
          (rw (is, turn) (rw shift at (drain-Tracks fuel (suc n) read after step)))
  ]

  hold-Tracks :
      (n : ℕ) (read : Bytes) (c : Channel) (k : ℕ)
      → Tracks n read c
      → IsSettled c
      → k % 65536 ≢ c.expected
      → n < k + 32768
      → k < n + 32768
      → Tracks n read (hold c (k % 65536) (sent k)) × IsSettled (hold c (k % 65536) (sent k))
  unfolding hold
  hold-Tracks n read c k t settled ne lo hi = elim (Bool-cases (is_ahead (k % 65536) c.expected)) [
    | inl near ↦
        let later : n ≤ k = ground (arith, t.expects) in
        let entry : All (IsAhead n) ((k % 65536, sent k) ∷ []) = ((k, later, hi, refl, refl), tt) in
        rw near (
          record {
            expects = t.expects;
            delivered = t.delivered;
            ahead = All-append (IsAhead n) c.held ((k % 65536, sent k) ∷ []) t.ahead entry;
          },
          lookup-append_ne c.expected (k % 65536) (sent k) c.held ne settled,
        )
    | inr far ↦ rw far (t, settled)
  ]

  -- The arrival of a packet of the window keeps the account of what is delivered.
  pub accept-Tracks :
      (n : ℕ) (read : Bytes) (c : Channel) (k : ℕ)
      → Tracks n read c
      → IsSettled c
      → n < k + 32768
      → k < n + 32768
      → Tracks (delivered_by c (k % 65536) (sent k) + n) read (accept c (k % 65536) (sent k))
        × IsSettled (accept c (k % 65536) (sent k))
  unfolding accept
  accept-Tracks n read c k t settled lo hi = elim (Bool-cases (k % 65536 == c.expected)) [
    | inl turn ↦
        let same : k ≡ n = ground (arith, t.expects) in
        let after = deliver c (sent n) c.held in
        let step =
          deliver-Tracks n read c c.held t
            (All-unlisted (IsAhead n) c.expected c.held t.ahead settled) in
        let fuel = length c.held in
        let shift : drain_rounds fuel after + suc n ≡ suc (drain_rounds fuel after) + n =
          omega arith in
        rw turn (
          rw same (
            rw shift at (drain-Tracks fuel (suc n) read after step),
            drain-settled fuel after (omega arith),
          ))
    | inr other ↦ rw other (elim (Bool-cases (has_room c (k % 65536))) [
      | inl room ↦ rw (room, zero-add) (hold-Tracks n read c k t settled (ground arith) lo hi)
      | inr full ↦ rw (full, zero-add) (t, settled)
    ])
  ]
