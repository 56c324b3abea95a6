-- ===== src/Auth/Effects.antt =====
-- What a call of `authenticate` does to the cache of credential sources.
use okam_ha_proxy.Prelude.{
  ℕ, ◌+◌, ◌≡◌, refl, ◌∙◌, Bool, true, false, List, [], ◌∷◌, ◌++◌, Option, some, Text, equal, ◌==◌,
  Bool-cases, Option-cases, inl, inr, if◌then◌else◌,
}
use okam_ha_proxy.Auth.Candidates.{Candidate}
use okam_ha_proxy.Auth.Cache.{
  Cache, get, invalidate, get-invalidate_other, get-set_source_other, get-set_source_self,
}
use okam_ha_proxy.Auth.Selection.{
  LoginResult, Attempt, Outcome, selected, After, source_number, persist, explicit_rejection, order,
  attempt_each, authenticate,
}

-- What the cache holds of the camera after a call.
abbrev pub IsRemembered : Text → Outcome → Cache → Type 0
IsRemembered uid (selected candidate result) cache =
    (source_number candidate.source == 0) ≡ false
    → get uid cache ≡ some (record { source = candidate.source; source_uid = candidate.source_uid })
IsRemembered uid outcome cache = Unit

get-persist_other :
    (uid camera : Text) (candidate : Candidate) (cache : Cache)
    → equal camera uid ≡ false
    → get camera (persist uid candidate cache) ≡ get camera cache
get-persist_other uid camera candidate cache away =
    elim (Bool-cases (source_number candidate.source == 0)) [
      | inl by_hand ↦ rw by_hand refl
      | inr known ↦ rw known (get-set_source_other uid camera _ cache away)
    ]

get-persist_self :
    (uid : Text) (candidate : Candidate) (result : LoginResult) (cache : Cache)
    → IsRemembered uid (selected candidate result) (persist uid candidate cache)
get-persist_self uid candidate result cache known = rw known (get-set_source_self uid _ cache)

get-invalidated_other :
    (uid camera : Text) (cached : Bool) (cache : Cache)
    → equal camera uid ≡ false
    → get camera (if cached then invalidate uid cache else cache) ≡ get camera cache
get-invalidated_other uid camera true cache away = get-invalidate_other uid camera cache away
get-invalidated_other uid camera false cache away = refl

module _ (attempt : Attempt) (uid : Text) where
  abbrev pub HasKept : Cache → After → Type 0
  HasKept cache after =
      IsRemembered uid after.0 after.2
      × ((camera : Text) → equal camera uid ≡ false → get camera after.2 ≡ get camera cache)

  attempt_each-HasKept :
      (number : ℕ) (ordered : List (Candidate × Bool)) (results : List (Option ℕ)) (cache : Cache)
      → HasKept cache (attempt_each attempt uid number ordered results cache)
  unfolding attempt_each
  attempt_each-HasKept number [] results cache = (tt, λ camera away. refl)
  attempt_each-HasKept number ((candidate, cached) ∷ others) results cache =
      elim (Option-cases (attempt number candidate)) [
        | inl failed ↦ rw failed (tt, λ camera away. refl)
        | inr (result, answer) ↦ rw answer (elim (Bool-cases result.authenticated) [
          | inl good ↦ simp good (
            get-persist_self uid candidate result cache,
            λ camera away. get-persist_other uid camera candidate cache away,
          )
          | inr bad ↦ elim (Bool-cases (explicit_rejection result)) [
            | inl refused ↦
                let after = if cached then invalidate uid cache else cache in
                let (remembered, others_kept) =
                  attempt_each-HasKept (number + 1) others (results ++ result.login_result ∷ [])
                    after in
                simp (bad, refused)
                  (
                    remembered,
                    λ camera away.
                        others_kept camera away
                        ∙ get-invalidated_other uid camera cached cache away,
                  )
            | inr unclear ↦ simp (bad, unclear) (tt, λ camera away. refl)
          ]
        ])
      ]

  -- After a call that selects a candidate which is not the manual one, the cache names its source for
  -- the camera; whatever the end of a call, what the cache holds of any other camera is unchanged.
  pub authenticate-HasKept :
      (available : List Candidate) (cache : Cache)
      → HasKept cache (authenticate attempt uid available cache)
  unfolding authenticate
  authenticate-HasKept available cache =
      attempt_each-HasKept 1 (order (get uid cache) available) [] cache
