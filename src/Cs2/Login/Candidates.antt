-- ===== src/Cs2/Login/Candidates.antt =====
-- What `authenticate_camera` says of the candidates, whether one is accepted or all are rejected; and
-- what `inspect_h264` finds.
use okam_ha_proxy.Prelude.{
  ℕ, ◌+◌, ◌-◌, ◌≤◌, min, Bool, true, false, List, [], ◌∷◌, ◌++◌, append_assoc, ◌≡◌, refl, sym, ap,
  ◌∙◌, arith, Option, Text, length, length-append, leb, if◌then◌else◌, Bool-cases, inl, inr, All,
  All-append,
}
use okam_ha_proxy.Prelude.Exec.{pure}
use okam_ha_proxy.Prelude.Exec.Returns.{Returns, any-Returns, bind-Returns}
use okam_ha_proxy.Cs2.World.{World}
use okam_ha_proxy.Cs2.State.{Session, Action, now}
use okam_ha_proxy.Cs2.Commands.{LoginCode}
use okam_ha_proxy.Cs2.Login.{
  Login, accepted, rejected, is_zero, login_candidates, try_candidate, try_timely, try_each,
  authenticate_camera, auth_candidate_time,
}

abbrev IsFailure : Option LoginCode → Type 0
IsFailure result = is_zero result ≡ false

-- The credential is the candidate at its index, and its result, 0, is the last of the attempts, which
-- are as many as the candidates up to it; the others failed. A rejection says that every candidate
-- that was tried failed, and no more than the candidates were tried.
abbrev pub Settled : List (Text × Text) → Login → Type 0
Settled candidates (accepted user password index attempts) =
    (before after : List (Text × Text)) × (candidates ≡ before ++ (user, password) ∷ after)
    × (length before ≡ index)
    × (failures : List (Option LoginCode)) × (result : Option LoginCode) × (attempts
        ≡ failures ++ result ∷ [])
    × (length failures ≡ index)
    × All IsFailure failures
    × (is_zero result ≡ true)
Settled candidates (rejected attempts) =
    All IsFailure attempts × (length attempts ≤ length candidates)

module _ (world : World) (turns rounds deadline : ℕ) (candidates : List (Text × Text)) where
  conclude-Settled :
      (before rest : List (Text × Text)) (credential : Text × Text) (index : ℕ)
      (attempts : List (Option LoginCode)) (result : Option LoginCode)
      (next : List (Option LoginCode) → Action Login) (t : Session)
      → candidates ≡ before ++ credential ∷ rest
      → length before ≡ index
      → length attempts ≡ index
      → All IsFailure attempts
      → ((tried : List (Option LoginCode)) (u : Session)
          → length tried ≡ index + 1
          → All IsFailure tried
          → Returns (λ r _. Settled candidates r) (next tried u))
      → Returns
          (λ r _. Settled candidates r)
          ((if is_zero result
              then pure (accepted credential.0 credential.1 index (attempts ++ result ∷ []))
              else next (attempts ++ result ∷ []))
            t)
  unfolding pure
  conclude-Settled before rest credential index attempts result next t these at as_many failed on =
      elim (Bool-cases (is_zero result)) [
        | inl zero_result ↦
            rw zero_result
              (before, rest, these, at, attempts, result, refl, as_many, failed, zero_result)
        | inr other ↦ rw other (
            on (attempts ++ result ∷ []) t
              (omega (arith, length-append attempts (result ∷ []), as_many))
              (All-append IsFailure attempts (result ∷ []) failed (other, tt)))
      ]

  try_timely-Settled :
      (before rest : List (Text × Text)) (credential : Text × Text) (index : ℕ) (late : Bool)
      (remaining : ℕ) (attempts : List (Option LoginCode))
      (next : List (Option LoginCode) → Action Login) (t : Session)
      → candidates ≡ before ++ credential ∷ rest
      → length before ≡ index
      → length attempts ≡ index
      → All IsFailure attempts
      → ((tried : List (Option LoginCode)) (u : Session)
          → length tried ≡ index + 1
          → All IsFailure tried
          → Returns (λ r _. Settled candidates r) (next tried u))
      → Returns
          (λ r _. Settled candidates r)
          (try_timely world turns rounds index late remaining credential attempts next t)
  unfolding try_timely pure
  try_timely-Settled before rest credential index true remaining attempts next t these at as_many
        failed on =
      (failed, omega (arith, ap length these, length-append before (credential ∷ rest)))
  try_timely-Settled before rest credential index false remaining attempts next t these at as_many
        failed on =
      bind-Returns (λ _ _. Unit) (λ r _. Settled candidates r) (now world) _ t
        (any-Returns (now world t))
        λ began u _.
          bind-Returns (λ _ _. Unit) (λ r _. Settled candidates r)
            (try_candidate world turns rounds (began + min remaining auth_candidate_time)
              credential)
            _ u
            (any-Returns (
              try_candidate world turns rounds (began + min remaining auth_candidate_time)
                credential u))
            λ result v _.
              conclude-Settled before rest credential index attempts result next v these at as_many
                failed on

  try_each-Settled :
      (before rest : List (Text × Text)) (index : ℕ) (attempts : List (Option LoginCode))
      (s : Session)
      → candidates ≡ before ++ rest
      → length before ≡ index
      → length attempts ≡ index
      → All IsFailure attempts
      → Returns
          (λ r _. Settled candidates r)
          (try_each world turns rounds deadline index rest attempts s)
  unfolding try_each pure
  try_each-Settled before [] index attempts s these at as_many failed =
      (failed, omega (arith, ap length these, length-append before []))
  try_each-Settled before (credential ∷ rest) index attempts s these at as_many failed =
      bind-Returns (λ _ _. Unit) (λ r _. Settled candidates r) (now world) _ s
        (any-Returns (now world s))
        λ time u _.
          try_timely-Settled before rest credential index (leb deadline time) (deadline - time)
            attempts (try_each world turns rounds deadline (index + 1) rest) u these at as_many
            failed
            λ tried v as_many' failed'.
              try_each-Settled (before ++ credential ∷ []) rest (index + 1) tried v
                (these ∙ sym (append_assoc before (credential ∷ []) rest))
                (omega (arith, length-append before (credential ∷ []))) as_many' failed'

module _ (world : World) where
  -- A call of `authenticate_camera` that returns has accepted the candidate whose attempt, the last
  -- one, gave the result 0, after one failed attempt for each candidate before it; one that rejects
  -- the login has only failed attempts, no more than there are candidates.
  pub authenticate_camera-Settled :
      (turns rounds timeout : ℕ) (device_password : Text) (s : Session)
      → Returns
          (λ r _. Settled (login_candidates device_password) r)
          (authenticate_camera world turns rounds device_password timeout s)
  unfolding authenticate_camera
  authenticate_camera-Settled turns rounds timeout device_password s =
      bind-Returns (λ _ _. Unit) (λ r _. Settled (login_candidates device_password) r) (now world) _
        s (any-Returns (now world s))
        λ began u _.
          try_each-Settled world turns rounds (began + timeout) (login_candidates device_password)
            [] (login_candidates device_password) 0 [] u refl refl refl tt
