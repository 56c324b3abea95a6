-- ===== src/Cs2/Tests/Logins.antt =====
-- Runs of the login and of `inspect_h264`, and the theorems about them at concrete inputs.
use okam_ha_proxy.Prelude.{true, [], ◌∷◌, ◌≡◌, refl, Bytes, codes}
use okam_ha_proxy.Prelude.Exec.Returns.{Returns}
use okam_ha_proxy.Cs2.Examples.{ready, quiet}
use okam_ha_proxy.Cs2.Login.{login_candidates, authenticate_camera, inspect_h264}
use okam_ha_proxy.Cs2.Login.Candidates.{Settled, authenticate_camera-Settled}

default_password_once : login_candidates (codes "888888") ≡ (codes "admin", codes "888888") ∷ []
unfolding login_candidates
default_password_once = refl

authenticate_camera-Settled_example :
    Returns
      (λ r _. Settled (login_candidates (codes "secret")) r)
      (authenticate_camera quiet 2 9 (codes "secret") 1000 ready)
authenticate_camera-Settled_example =
    authenticate_camera-Settled quiet 2 9 1000 (codes "secret") ready

-- A parameter set and a key frame.
abbrev stream : Bytes
stream = 0 ∷ 0 ∷ 0 ∷ 1 ∷ 103 ∷ 0 ∷ 0 ∷ 1 ∷ 101 ∷ []

stream_seen : inspect_h264 stream ≡ (true, true)
unfolding inspect_h264
stream_seen = refl
