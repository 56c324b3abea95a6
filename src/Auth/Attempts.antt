-- ===== src/Auth/Attempts.antt =====
-- What a call of `authenticate` does: which candidates it tries, and what its end says of them.
use mathlib.Core.List.Perm
use mathlib.Core.List.{Perm}
use okam_ha_proxy.Prelude.{
  ℕ, ◌+◌, ◌≡◌, ◌⊎◌, inl, inr, refl, ap, Bool, true, false, List, [], ◌∷◌, ◌++◌, map, Option, none,
  some, Text, if◌then◌else◌, Bool-cases, Option-cases,
}
use okam_ha_proxy.Auth.Candidates.{Candidate}
use okam_ha_proxy.Auth.Cache.{Entry, Cache, get, invalidate}
use okam_ha_proxy.Auth.Selection.{
  LoginResult, Attempt, Outcome, selected, rejected, transport_error, attempt_failed,
  matches_cached, tried_first, pick, order_from, order, explicit_rejection, attempt_each,
  authenticate,
}

abbrev plain_order : List Candidate → List (Candidate × Bool)
plain_order = map (λ c. (c, false))

plain_order_lem :
    (candidates : List Candidate) → map (λ p. p.0) (plain_order candidates) ≡ candidates
plain_order_lem [] = refl
plain_order_lem (c ∷ candidates) = ap (◌∷◌ c) (plain_order_lem candidates)

abbrev IsPick : List Candidate → Option (Candidate × List Candidate) → Type 0
IsPick available none = Unit
IsPick available (some (cached, others)) = Perm (cached ∷ others) available

tried_first-IsPick :
    (c : Candidate) (candidates : List Candidate) (found : Option (Candidate × List Candidate))
    → IsPick candidates found
    → IsPick (c ∷ candidates) (tried_first found c)
tried_first-IsPick c candidates none h = tt
tried_first-IsPick c candidates (some (cached, others)) h =
    Perm.trans (Perm.swap c cached others) (Perm.cons c h)

pick-IsPick :
    (entry : Option Entry) (available : List Candidate) → IsPick available (pick entry available)
unfolding pick
pick-IsPick entry [] = tt
pick-IsPick entry (c ∷ candidates) = elim (Bool-cases (matches_cached entry c)) [
  | inl matches ↦ rw matches (Perm.refl (c ∷ candidates))
  | inr differs ↦
      rw differs
        (tried_first-IsPick c candidates (pick entry candidates) (pick-IsPick entry candidates))
]

order_from-Perm :
    (available : List Candidate) (found : Option (Candidate × List Candidate))
    → IsPick available found
    → Perm (map (λ p. p.0) (order_from available found)) available
order_from-Perm available none h = rw (plain_order_lem available) (Perm.refl available)
order_from-Perm available (some (cached, others)) h = rw (plain_order_lem others) h

-- Every available candidate is in the order of attempts, just as often as it is available.
order-Perm :
    (entry : Option Entry) (available : List Candidate)
    → Perm (map (λ p. p.0) (order entry available)) available
unfolding order
order-Perm entry available =
    order_from-Perm available (pick entry available) (pick-IsPick entry available)

module _ (attempt : Attempt) where
  -- The attempt after which a call ends, with its answer.
  abbrev pub IsLast : Outcome → Candidate → Option LoginResult → Type 0
  IsLast (selected chosen result) candidate answer =
      (chosen ≡ candidate) × (answer ≡ some result) × (result.authenticated ≡ true)
  IsLast (rejected codes) candidate answer = ⊥
  IsLast transport_error candidate answer =
      (result : LoginResult) × (answer ≡ some result)
      × (result.authenticated ≡ false)
      × (explicit_rejection result ≡ false)
  IsLast attempt_failed candidate answer = answer ≡ none

  abbrev pub IsRefused : ℕ → Candidate → Option ℕ → Type 0
  IsRefused number candidate code =
      (result : LoginResult) × (attempt number candidate ≡ some result)
      × (explicit_rejection result ≡ true)
      × (result.login_result ≡ code)

  -- The end of a call against the candidates `queue`, of which it tries those in `trace`: each but the
  -- last was refused explicitly, and the last decides, unless all were refused.
  abbrev pub Agrees : ℕ → List Candidate → List Candidate → List (Option ℕ) → Outcome → Type 0
  Agrees number queue [] codes outcome = (queue ≡ []) × (outcome ≡ rejected codes)
  Agrees number [] (candidate ∷ trace) codes outcome = ⊥
  Agrees number (first ∷ queue) (candidate ∷ trace) codes outcome =
      (candidate ≡ first)
      × (((trace ≡ []) × IsLast outcome candidate (attempt number candidate))
          ⊎ ((code : Option ℕ) × IsRefused number candidate code
              × Agrees (number + 1) queue trace (codes ++ code ∷ []) outcome))

  attempt_each-Agrees :
      (uid : Text) (number : ℕ) (ordered : List (Candidate × Bool)) (codes : List (Option ℕ))
      (cache : Cache)
      → let after = attempt_each attempt uid number ordered codes cache in
        Agrees number (map (λ p. p.0) ordered) after.1 codes after.0
  unfolding attempt_each
  attempt_each-Agrees uid number [] codes cache = (refl, refl)
  attempt_each-Agrees uid number ((candidate, cached) ∷ others) codes cache =
      elim (Option-cases (attempt number candidate)) [
        | inl failed ↦ rw failed (refl, inl (refl, refl))
        | inr (result, answer) ↦ elim (Bool-cases result.authenticated) [
          | inl good ↦ rw answer (simp good (refl, inl (refl, (refl, refl, refl))))
          | inr bad ↦ elim (Bool-cases (explicit_rejection result)) [
            | inl refused ↦
                let kept = if cached then invalidate uid cache else cache in
                rw answer (
                  simp (bad, refused)
                    (
                      refl,
                      inr (
                        result.login_result,
                        (result, refl, refused, refl),
                        attempt_each-Agrees uid (number + 1) others
                            (codes ++ result.login_result ∷ []) kept,
                      ),
                    ))
            | inr unclear ↦
                rw answer (simp (bad, unclear) (refl, inl (refl, (result, refl, bad, unclear))))
          ]
        ]
      ]

  -- A call tries the available candidates in one order, each at most once; every one before the last
  -- was refused explicitly by the camera. The call ends with the last candidate tried exactly where the
  -- camera accepted it, as a transport error where its answer was no explicit refusal, with the attempt's
  -- own error where it raised, and as rejected, with the login result of each, only where all were refused.
  pub authenticate-Agrees :
      (uid : Text) (available : List Candidate) (cache : Cache)
      → let after = authenticate attempt uid available cache in
        (queue : List Candidate) × Perm queue available × Agrees 1 queue after.1 [] after.0
  unfolding authenticate
  authenticate-Agrees uid available cache =
      let ordered = order (get uid cache) available in
      (
        map (λ p. p.0) ordered,
        order-Perm (get uid cache) available,
        attempt_each-Agrees uid 1 ordered [] cache,
      )
