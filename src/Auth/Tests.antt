-- ===== src/Auth/Tests.antt =====
-- Instances of the theorems on the choice of a credential.
use mathlib.Core.List.{Perm}
use okam_ha_proxy.Prelude.{
  ℕ, ◌+◌, true, false, List, [], ◌∷◌, ◌≡◌, ◌⊎◌, refl, Option, some, Text, codes, equal, length,
}
use okam_ha_proxy.Auth.Candidates.{
  Candidate, Device, account_device_password, text, item, given, build_candidates, manual, fallback,
}
use okam_ha_proxy.Auth.Cache.{Cache}
use okam_ha_proxy.Auth.Selection.{LoginResult, Attempt, authenticate, authenticate_resource}
use okam_ha_proxy.Auth.Distinct.{IsOffer, build_candidates_lem}
use okam_ha_proxy.Auth.Attempts.{Agrees, authenticate-Agrees}
use okam_ha_proxy.Auth.Resources.{erase, login_of, authenticate_resource-authenticate}
use okam_ha_proxy.Auth.Effects.{HasKept, authenticate-HasKept}

abbrev camera_device : Device
camera_device = item (text (codes "CAM1")) (text (codes "secret")) true

abbrev account_candidate_1 : Candidate
account_candidate_1 = record {
  source = account_device_password;
  password = codes "secret";
  source_uid = some (codes "CAM1");
}

abbrev offered : List Candidate
offered = account_candidate_1 ∷ fallback ∷ []

offered_lem :
    build_candidates
      (λ t. t)
      camera_device
      (given [])
      (some (codes "CAM1"))
      (camera_device ∷ [])
      false
    ≡ some offered
unfolding build_candidates
offered_lem = refl

build_candidates_lem_example :
    ((false ≡ false) × IsOffer (λ t. t) (length (camera_device ∷ []) + 4) offered)
    ⊎ ((false ≡ true)
        × ((password : Text) × (given [] ≡ given password) × (offered ≡ manual password ∷ [])))
build_candidates_lem_example =
    build_candidates_lem (λ t. t) camera_device (given []) (some (codes "CAM1"))
      (camera_device ∷ []) false offered offered_lem

-- A camera that takes the fallback password only.
abbrev takes_fallback : Attempt
takes_fallback number candidate = some (record {
  connected = true;
  login_sent = true;
  login_response_received = true;
  authenticated = equal candidate.password (codes "888888");
  login_result = some 5;
})

abbrev with_session : ℕ → Candidate → Option (LoginResult × Option ℕ)
with_session number candidate = some (
  record {
    connected = true;
    login_sent = true;
    login_response_received = true;
    authenticated = equal candidate.password (codes "888888");
    login_result = some 5;
  },
  some number,
)

-- The cache names the account's password, which the camera no longer takes.
abbrev stale : Cache
stale =
    (codes "CAM1", record { source = account_device_password; source_uid = some (codes "CAM1") })
    ∷ []

authenticate-Agrees_example :
    (queue : List Candidate) × Perm queue offered
    × Agrees takes_fallback 1 queue
        (authenticate takes_fallback (codes "CAM1") offered stale).1
        []
        (authenticate takes_fallback (codes "CAM1") offered stale).0
authenticate-Agrees_example = authenticate-Agrees takes_fallback (codes "CAM1") offered stale

authenticate_resource-authenticate_example :
    erase (authenticate_resource with_session (codes "CAM1") offered stale)
    ≡ authenticate
        (λ number candidate. login_of (with_session number candidate))
        (codes "CAM1")
        offered
        stale
authenticate_resource-authenticate_example =
    authenticate_resource-authenticate with_session (codes "CAM1") offered stale

authenticate-HasKept_example :
    HasKept takes_fallback
      (codes "CAM1")
      stale
      (authenticate takes_fallback (codes "CAM1") offered stale)
authenticate-HasKept_example = authenticate-HasKept takes_fallback (codes "CAM1") offered stale
