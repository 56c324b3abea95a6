-- ===== src/Auth/Distinct.antt =====
-- What the candidates of a camera are: distinct, bounded, and with the fallback.
use mathlib.Core.Path.{subst}
use okam_ha_proxy.Prelude.{
  ℕ, ◌+◌, ◌≤◌, ◌≡◌, ◌⊎◌, inl, inr, refl, arith, Bool, true, false, ◌||◌, List, [], ◌∷◌, ◌++◌,
  Option, none, some, Text, codes, any, null, length, length-append, equal, equal-eq, if◌then◌else◌,
  Bool-cases,
}
use okam_ha_proxy.Auth.Candidates.{
  Candidate, Device, Configured, Value, text, other, distinct, build_candidates, automatic,
  device_candidates, device_candidate, account_candidate, empty_candidate, fallback, manual, uid_of,
  password_of, associated_of, is_present, is_own, given, absent, malformed,
}

abbrev pub has_password : Text → List Candidate → Bool
has_password password = any (λ c. equal password c.password)

-- No password twice, and none of `seen`.
abbrev pub IsDistinct : List Text → List Candidate → Type 0
IsDistinct seen [] = Unit
IsDistinct seen (candidate ∷ candidates) =
    (any (equal candidate.password) seen ≡ false)
    × IsDistinct (candidate.password ∷ seen) candidates

distinct-IsDistinct :
    (seen : List Text) (candidates : List Candidate) → IsDistinct seen (distinct seen candidates)
unfolding distinct
distinct-IsDistinct seen [] = tt
distinct-IsDistinct seen (candidate ∷ candidates) =
    elim (Bool-cases (any (equal candidate.password) seen)) [
      | inl known ↦ rw known (distinct-IsDistinct seen candidates)
      | inr new ↦ rw new (new, distinct-IsDistinct (candidate.password ∷ seen) candidates)
    ]

length-distinct :
    (seen : List Text) (candidates : List Candidate)
    → length (distinct seen candidates) ≤ length candidates
unfolding distinct
length-distinct seen [] = omega arith
length-distinct seen (candidate ∷ candidates) =
    elim (Bool-cases (any (equal candidate.password) seen)) [
      | inl known ↦ let ih = length-distinct seen candidates in rw known (omega arith)
      | inr new ↦
          let ih = length-distinct (candidate.password ∷ seen) candidates in rw new (omega arith)
    ]

-- A password that was there, and was not seen before, is still there.
has_password-distinct :
    (password : Text) (seen : List Text) (candidates : List Candidate)
    → has_password password candidates ≡ true
    → any (equal password) seen ≡ false
    → has_password password (distinct seen candidates) ≡ true
unfolding distinct
has_password-distinct password seen [] h new = cc
has_password-distinct password seen (candidate ∷ candidates) h new =
    elim (Bool-cases (equal password candidate.password)) [
      | inl same ↦
          let names = equal-eq password candidate.password same in
          let fresh : any (equal candidate.password) seen ≡ false = rw names at new in
          rw (fresh, same) refl
      | inr differs ↦ elim (Bool-cases (any (equal candidate.password) seen)) [
        | inl known ↦
            rw known (has_password-distinct password seen candidates (rw differs at h) new)
        | inr fresh ↦
            rw (fresh, differs)
              (has_password-distinct password (candidate.password ∷ seen) candidates
                (rw differs at h) (rw (differs, new) refl))
      ]
    ]

abbrev pub candidates_of : Option (List Candidate) → List Candidate
candidates_of none = []
candidates_of (some candidates) = candidates

length-account_candidate :
    (value : Value) (uid : Option Text) → length (account_candidate value uid) ≤ 1
length-account_candidate (text []) uid = omega arith
length-account_candidate (text (c ∷ password)) uid = omega arith
length-account_candidate other uid = omega arith

length-empty_candidate :
    (present : Bool) (value : Value) → length (empty_candidate present value) ≤ 1
length-empty_candidate true (text []) = omega arith
length-empty_candidate true (text (c ∷ password)) = omega arith
length-empty_candidate true other = omega arith
length-empty_candidate false value = omega arith

has_password-append :
    (password : Text) (front back : List Candidate)
    → has_password password back ≡ true
    → has_password password (front ++ back) ≡ true
has_password-append password [] back h = h
has_password-append password (candidate ∷ front) back h =
    elim (Bool-cases (equal password candidate.password)) [
      | inl same ↦ rw same refl
      | inr differs ↦ rw differs (has_password-append password front back h)
    ]

module _ (casefold : Text → Text) where
  length-device_candidate :
      (own : Option Text) (uid password : Value)
      → length (device_candidate casefold own uid password) ≤ 1
  length-device_candidate own other password = omega arith
  length-device_candidate own (text uid) password =
      elim (Bool-cases (null uid || is_own casefold own uid)) [
        | inl passed ↦ rw passed (omega arith)
        | inr used ↦ rw used (length-account_candidate password (some uid))
      ]

  length-device_candidates :
      (own : Option Text) (devices : List Device)
      → length (device_candidates casefold own devices) ≤ length devices
  unfolding device_candidates
  length-device_candidates own [] = omega arith
  length-device_candidates own (device ∷ devices) =
      let first = device_candidate casefold own (uid_of device) (password_of device) in
      let one = length-device_candidate own (uid_of device) (password_of device) in
      omega (
        arith,
        one,
        length-append first (device_candidates casefold own devices),
        length-device_candidates own devices,
      )

  has_password-automatic :
      (account : Device) (own : Option Text) (devices : List Device)
      → has_password (codes "888888") (automatic casefold account own devices) ≡ true
  has_password-automatic account own devices =
      has_password-append (codes "888888") (account_candidate (associated_of account) own) _ (
        has_password-append (codes "888888") (device_candidates casefold own devices) _ (
          has_password-append (codes "888888")
            (empty_candidate (is_present account) (associated_of account)) (fallback ∷ []) refl))

  length-automatic :
      (account : Device) (own : Option Text) (devices : List Device)
      → length (automatic casefold account own devices) ≤ length devices + 3
  length-automatic account own devices =
      let front = account_candidate (associated_of account) own in
      let middle = device_candidates casefold own devices in
      let back = empty_candidate (is_present account) (associated_of account) in
      omega (
        arith,
        length-append front (middle ++ (back ++ (fallback ∷ []))),
        length-append middle (back ++ (fallback ∷ [])),
        length-append back (fallback ∷ []),
        length-account_candidate (associated_of account) own,
        length-device_candidates own devices,
        length-empty_candidate (is_present account) (associated_of account),
      )

  abbrev pub IsOffer : ℕ → List Candidate → Type 0
  IsOffer bound candidates =
      IsDistinct [] candidates
      × (length candidates ≤ bound)
      × (has_password (codes "888888") candidates ≡ true)

  distinct-IsOffer :
      (bound : ℕ) (candidates : List Candidate)
      → length candidates ≤ bound
      → has_password (codes "888888") candidates ≡ true
      → IsOffer bound (distinct [] candidates)
  distinct-IsOffer bound candidates few has = (
    distinct-IsDistinct [] candidates,
    omega (arith, length-distinct [] candidates),
    has_password-distinct (codes "888888") [] candidates has refl,
  )

  offer :
      (account : Device) (password : Text) (own : Option Text) (devices : List Device)
      → IsOffer (length devices + 4) (
          distinct [] (
            (if null password then [] else manual password ∷ [])
            ++ automatic casefold account own devices))
  offer account [] own devices =
      distinct-IsOffer _ _ (omega (arith, length-automatic account own devices))
        (has_password-automatic account own devices)
  offer account (c ∷ rest) own devices =
      distinct-IsOffer _ (manual (c ∷ rest) ∷ automatic casefold account own devices)
        (omega (arith, length-automatic account own devices))
        (has_password-append (codes "888888") (manual (c ∷ rest) ∷ [])
          (automatic casefold account own devices) (has_password-automatic account own devices))

  -- Unless an administrator asks for one credential strictly, the candidates that are built have no
  -- password twice, have the fixed fallback password among them, and are at most four more than the
  -- devices of the account; strictly, the only candidate is the configured one.
  pub build_candidates_lem :
      (account : Device) (configured : Configured) (own : Option Text) (devices : List Device)
      (strict : Bool) (candidates : List Candidate)
      → build_candidates casefold account configured own devices strict ≡ some candidates
      → ((strict ≡ false) × IsOffer (length devices + 4) candidates)
        ⊎ ((strict ≡ true)
            × ((password : Text) × (configured ≡ given password)
                × (candidates ≡ manual password ∷ [])))
  unfolding build_candidates
  build_candidates_lem account (given password) own devices true candidates h =
      inr (refl, (password, refl, cc))
  build_candidates_lem account absent own devices true candidates h = cc
  build_candidates_lem account malformed own devices strict candidates h = cc
  build_candidates_lem account absent own devices false candidates h =
      let is : distinct [] (automatic casefold account own devices) ≡ candidates = cc in
      inl (refl, subst (IsOffer (length devices + 4)) is (offer account [] own devices))
  build_candidates_lem account (given password) own devices false candidates h =
      let is : distinct [] (
            (if null password then [] else manual password ∷ [])
            ++ automatic casefold account own devices)
          ≡ candidates =
        cc in
      inl (refl, subst (IsOffer (length devices + 4)) is (offer account password own devices))
