-- ===== src/Auth/Resources.antt =====
-- `authenticate_resource` against `authenticate`: the same choice, with the session kept.
use okam_ha_proxy.Prelude.{
  ℕ, ◌+◌, ◌≡◌, refl, ap, Bool, List, [], ◌∷◌, ◌++◌, Option, none, some, Text, Bool-cases,
  Option-cases, inl, inr, if◌then◌else◌,
}
use okam_ha_proxy.Auth.Candidates.{Candidate}
use okam_ha_proxy.Auth.Cache.{Cache, get, invalidate}
use okam_ha_proxy.Auth.Selection.{
  LoginResult, Outcome, selected, After, tried, explicit_rejection, order, attempt_each,
  authenticate, Event, attempted, discarded, ResourceOutcome, kept, ended, attempts_resource,
  authenticate_resource,
}

module _ {Resource : Type 0} where
  abbrev pub without_resource : ResourceOutcome Resource → Outcome
  without_resource (kept candidate result resource) = selected candidate result
  without_resource (ended outcome) = outcome

  abbrev pub login_of : Option (LoginResult × Option Resource) → Option LoginResult
  login_of none = none
  login_of (some answer) = some answer.0

  -- The candidates tried, and the sessions discarded.
  abbrev pub attempted_of : List (Event Resource) → List Candidate
  attempted_of [] = []
  attempted_of (attempted candidate ∷ events) = candidate ∷ attempted_of events
  attempted_of (discarded resource ∷ events) = attempted_of events

  abbrev pub erase : ResourceOutcome Resource × List (Event Resource) × Cache → After
  erase after = (without_resource after.0, attempted_of after.1, after.2)

module _ {Resource : Type 0} (attempt : ℕ → Candidate → Option (LoginResult × Option Resource))
    (uid : Text) where
  abbrev login_only : ℕ → Candidate → Option LoginResult
  login_only number candidate = login_of (attempt number candidate)

  attempts_resource-attempt_each :
      (number : ℕ) (ordered : List (Candidate × Bool)) (results : List (Option ℕ)) (cache : Cache)
      → erase (attempts_resource attempt uid number ordered results cache)
        ≡ attempt_each login_only uid number ordered results cache
  unfolding attempts_resource attempt_each
  attempts_resource-attempt_each number [] results cache = refl
  attempts_resource-attempt_each number ((candidate, cached) ∷ others) results cache =
      elim (Option-cases (attempt number candidate)) [
        | inl failed ↦ rw failed refl
        | inr ((result, none), answer) ↦ rw answer (elim (Bool-cases result.authenticated) [
          | inl good ↦ simp good refl
          | inr bad ↦ elim (Bool-cases (explicit_rejection result)) [
            | inl refused ↦
                let after = if cached then invalidate uid cache else cache in
                simp (bad, refused)
                  (ap (tried candidate) (
                    attempts_resource-attempt_each (number + 1) others
                      (results ++ result.login_result ∷ []) after))
            | inr unclear ↦ simp (bad, unclear) refl
          ]
        ])
        | inr ((result, some resource), answer) ↦
            rw answer (elim (Bool-cases result.authenticated) [
              | inl good ↦ simp good refl
              | inr bad ↦ elim (Bool-cases (explicit_rejection result)) [
                | inl refused ↦
                    let after = if cached then invalidate uid cache else cache in
                    simp (bad, refused)
                      (ap (tried candidate) (
                        attempts_resource-attempt_each (number + 1) others
                          (results ++ result.login_result ∷ []) after))
                | inr unclear ↦ simp (bad, unclear) refl
              ]
            ])
      ]

  -- With the sessions left out, `authenticate_resource` is `authenticate`: it tries the same candidates
  -- in the same order, ends in the same way, and leaves the same cache.
  pub authenticate_resource-authenticate :
      (available : List Candidate) (cache : Cache)
      → erase (authenticate_resource attempt uid available cache)
        ≡ authenticate login_only uid available cache
  unfolding authenticate_resource authenticate
  authenticate_resource-authenticate available cache =
      attempts_resource-attempt_each 1 (order (get uid cache) available) [] cache
