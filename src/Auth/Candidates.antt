-- ===== src/Auth/Candidates.antt =====
-- The candidates for a camera: `CredentialCandidate` and `build_candidates` of
-- src/okam_native/auth.py.
use okam_ha_proxy.Prelude.{
  Bool, true, false, not, ◌&&◌, ◌||◌, List, [], ◌∷◌, ◌++◌, Option, none, some, Text, codes, any,
  null, equal, if◌then◌else◌,
}

-- `MANUAL_SOURCE`, `ACCOUNT_SOURCE`, `EMPTY_PASSWORD_SOURCE`, `FALLBACK_SOURCE`
pub data Source : Type 0 where
  manual_password account_device_password empty_password fallback_888888 : Source

pub record Candidate : Type 0 where
  pub source : Source
  pub password : Text
  pub source_uid : Option Text

-- A Python object where the code only asks whether it is a `str`: `None` is one that is not.
pub data Value : Type 0 where
  text : Text → Value
  other : Value

-- What stands for a device: a `str`, the entries of a `dict` (`none`: the key is missing), or an object's
-- attributes (`other`: the attribute is missing); `password_present` matters as `True` or not.
pub data Device : Type 0 where
  plain : Text → Device
  mapping : Option Value → Option Value → Option Value → Device
  item : Value → Value → Bool → Device

-- `configured_password`
pub data Configured : Type 0 where
  absent : Configured
  given : Text → Configured
  malformed : Configured

abbrev pub has_key : Option Value → Bool
has_key none = false
has_key (some v) = true

-- `values.get("password", values.get("device_password"))`
abbrev pub get_password : Option Value → Option Value → Value
get_password (some v) device_password = v
get_password none (some v) = v
get_password none none = other

abbrev pub associated_of : Device → Value
associated_of (plain password) = text password
associated_of (mapping uid password device_password) = get_password password device_password
associated_of (item uid device_password present) = device_password

-- `associated_present is True`
abbrev pub is_present : Device → Bool
is_present (plain password) = false
is_present (mapping uid password device_password) = has_key password || has_key device_password
is_present (item uid device_password present) = present

abbrev pub uid_of : Device → Value
uid_of (plain password) = other
uid_of (mapping (some uid) password device_password) = uid
uid_of (mapping none password device_password) = other
uid_of (item uid device_password present) = uid

-- The password of an entry of `account_devices`; a `str` has no such attribute.
abbrev pub password_of : Device → Value
password_of (plain password) = other
password_of (mapping uid password device_password) = get_password password device_password
password_of (item uid device_password present) = device_password

abbrev pub account_candidate : Value → Option Text → List Candidate
account_candidate (text password) uid =
    if null password
    then []
    else record { source = account_device_password; password = password; source_uid = uid } ∷ []
account_candidate other uid = []

abbrev pub empty_candidate : Bool → Value → List Candidate
empty_candidate true (text []) =
    record { source = empty_password; password = []; source_uid = none } ∷ []
empty_candidate present value = []

abbrev pub manual : Text → Candidate
manual password = record { source = manual_password; password = password; source_uid = none }

abbrev pub fallback : Candidate
fallback = record { source = fallback_888888; password = codes "888888"; source_uid = none }

-- The second loop: a password that was seen is passed over.
unfoldable pub distinct : List Text → List Candidate → List Candidate
distinct seen [] = []
distinct seen (candidate ∷ candidates) =
    let known = any (equal candidate.password) seen in
    let rest = distinct (if known then seen else candidate.password ∷ seen) candidates in
    if known then rest else candidate ∷ rest

-- `casefold` is `str.casefold`.
module _ (casefold : Text → Text) where
  -- `account_device_uid and uid.casefold() == account_device_uid.casefold()`
  abbrev pub is_own : Option Text → Text → Bool
  is_own none uid = false
  is_own (some own) uid = not (null own) && equal (casefold uid) (casefold own)

  abbrev pub device_candidate : Option Text → Value → Value → List Candidate
  device_candidate own other password = []
  device_candidate own (text uid) password =
      if null uid || is_own own uid then [] else account_candidate password (some uid)

  -- The first loop.
  unfoldable pub device_candidates : Option Text → List Device → List Candidate
  device_candidates own [] = []
  device_candidates own (device ∷ devices) =
      device_candidate own (uid_of device) (password_of device) ++ device_candidates own devices

  abbrev pub automatic : Device → Option Text → List Device → List Candidate
  automatic account own devices =
      account_candidate (associated_of account) own
      ++ (device_candidates own devices
          ++ (empty_candidate (is_present account) (associated_of account) ++ (fallback ∷ [])))

  -- `build_candidates`; `none` is the P2PError of a configured credential that is no `str`
  unfoldable pub build_candidates :
      Device → Configured → Option Text → List Device → Bool → Option (List Candidate)
  unfolding distinct device_candidates
  build_candidates account (given password) own devices true = some (manual password ∷ [])
  build_candidates account absent own devices true = none
  build_candidates account malformed own devices strict = none
  build_candidates account absent own devices false =
      some (distinct [] (automatic account own devices))
  build_candidates account (given password) own devices false = some (
      distinct []
        ((if null password then [] else manual password ∷ []) ++ automatic account own devices))
