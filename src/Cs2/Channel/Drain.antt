-- ===== src/Cs2/Channel/Drain.antt =====
-- The association list of packets that wait, and the loop that empties it.
use mathlib.Core.Path.{subst}
use okam_ha_proxy.Prelude.{
  ℕ, zero, suc, ◌≤◌, ◌<◌, [], ◌∷◌, ◌≡◌, ◌≢◌, refl, none, some, arith, inl, inr, Bytes, All, length,
  Bool-cases, Option-cases, ◌==◌,
}
use okam_ha_proxy.Cs2.Channel.{Held, Channel, lookup, without, deliver, drain}

pub length-without-le : (s : ℕ) (held : Held) → length (without s held) ≤ length held
unfolding without
length-without-le s [] = omega arith
length-without-le s ((k, body) ∷ rest) = ground (arith, length-without-le s rest)

pub length-without-lt :
    (s : ℕ) (held : Held) (body : Bytes)
    → lookup s held ≡ some body
    → length (without s held) < length held
unfolding lookup without
length-without-lt s [] body h = cc
length-without-lt s ((k, b) ∷ rest) body h =
    ground (arith, length-without-le s rest, length-without-lt s rest body)

module _ (P : ℕ × Bytes → Type 0) (s : ℕ) where
  pub All-without : (held : Held) → All P held → All (λ e. P e × (e.0 ≢ s)) (without s held)
  unfolding without
  All-without [] h = tt
  All-without ((k, body) ∷ rest) (h, hs) = elim (Bool-cases (k == s)) [
    | inl same ↦ rw same (All-without rest hs)
    | inr other ↦ rw other ((h, ground arith), All-without rest hs)
  ]

  pub All-lookup :
      (held : Held) (body : Bytes) → All P held → lookup s held ≡ some body → P (s, body)
  unfolding lookup
  All-lookup [] body h e = cc
  All-lookup ((k, b) ∷ rest) body (h, hs) e = elim (Bool-cases (k == s)) [
    | inl same ↦ let at : (k, b) ≡ (s, body) = ground arith in subst P at h
    | inr other ↦ All-lookup rest body hs (ground arith)
  ]

  pub All-unlisted :
      (held : Held) → All P held → lookup s held ≡ none → All (λ e. P e × (e.0 ≢ s)) held
  unfolding lookup
  All-unlisted [] h e = tt
  All-unlisted ((k, body) ∷ rest) (h, hs) e =
      ((h, ground arith), All-unlisted rest hs (ground arith))

no_entries : (s : ℕ) (held : Held) → length held ≤ 0 → lookup s held ≡ none
unfolding lookup
no_entries s [] h = refl
no_entries s (e ∷ rest) h = absurd (omega arith)

-- With as many rounds as entries the loop ends by its own test.
pub drain-settled :
    (fuel : ℕ) (c : Channel)
    → length c.held ≤ fuel
    → lookup (drain fuel c).expected (drain fuel c).held ≡ none
unfolding drain
drain-settled zero c h = no_entries c.expected c.held (omega arith)
drain-settled (suc fuel) c h = elim (Option-cases (lookup c.expected c.held)) [
  | inl absent ↦ rw (absent, drain) absent
  | inr (body, present) ↦
      rw (present, drain)
        (drain-settled fuel (deliver c body (without c.expected c.held))
          (omega (arith, length-without-lt c.expected c.held body present)))
]
