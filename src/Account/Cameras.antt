-- ===== src/Account/Cameras.antt =====
-- What the normalized configurations are.
use mathlib.Core.Path.{subst}
use okam_ha_proxy.Prelude.{◌≡◌, refl, false, List, [], ◌∷◌, Option, none, some, Text, All, any}
use okam_ha_proxy.Account.Configuration.{
  configured_twice, alias_collides, fine, Strings, Cameras, camera_list, no_cameras,
  cameras_not_a_list, Camera, Item, mapping, not_a_mapping, Seen, AuthMode, automatic, by_password,
  contains, configure_all, configure, normalize_camera_configurations, keys_of, uid_of, alias_of,
  password_of, mode_of, get_mode, kept_password, battery_of, ip_of, get, collides, >>=-eq-fine,
  refuse-eq-fine,
}
use okam_ha_proxy.Account.Uids.{IsFresh, fine-eq, some-eq}

-- A password where, and only where, the camera is to be opened by password.
abbrev pub Fits : AuthMode → Option Text → Type 0
Fits automatic none = Unit
Fits automatic (some password) = ⊥
Fits by_password none = ⊥
Fits by_password (some password) = Unit

abbrev pub HasFitting : Camera → Type 0
HasFitting camera = Fits camera.auth_mode camera.password

kept_password-Fits :
    (mode : AuthMode) (given : Option Text) (password : Option Text)
    → kept_password mode given ≡ fine password
    → Fits mode password
kept_password-Fits automatic given password h =
    let e : none ≡ password = fine-eq h in subst (Fits automatic) e tt
kept_password-Fits by_password none password h = cc
kept_password-Fits by_password (some given) password h =
    let e : some given ≡ password = fine-eq h in subst (Fits by_password) e tt

module _ (strings : Strings) where
  abbrev IsConfigured : Seen → Camera × Seen → Type 0
  IsConfigured seen (camera, after) =
      (contains seen.uids (strings.casefold camera.uid) ≡ false)
      × (after.uids ≡ strings.casefold camera.uid ∷ seen.uids)
      × HasFitting camera

  configure-IsConfigured :
      (seen : Seen) (item : Item) (result : Camera × Seen)
      → configure strings seen item ≡ fine result
      → IsConfigured seen result
  unfolding configure
  configure-IsConfigured seen not_a_mapping result h = cc
  configure-IsConfigured seen (mapping item) result h =
      let (uid, named, h1) = >>=-eq-fine (uid_of strings (get item.uid)) _ h in
      let (new, h2) =
        refuse-eq-fine (contains seen.uids (strings.casefold uid)) configured_twice _ h1 in
      let (aliases, aliased, h3) =
        >>=-eq-fine (alias_of strings seen.aliases (get item.alias)) _ h2 in
      let (given, secret, h4) = >>=-eq-fine (password_of (get item.password)) _ h3 in
      let (mode, moded, h5) =
        >>=-eq-fine (mode_of (get_mode item.auth_method item.auth_mode) given) _ h4 in
      let (password, kept, h6) = >>=-eq-fine (kept_password mode given) _ h5 in
      let (battery, charged, h7) = >>=-eq-fine (battery_of item.battery_camera) _ h6 in
      let (ip, addressed, h8) = >>=-eq-fine (ip_of strings (get item.ip)) _ h7 in
      subst (IsConfigured seen) (fine-eq h8)
        (new, refl, kept_password-Fits mode given password kept)

  abbrev pub IsTidy : List Text → List Camera → Type 0
  IsTidy seen cameras = IsFresh seen (keys_of strings cameras) × All HasFitting cameras

  configure_all-IsTidy :
      (seen : Seen) (items : List Item) (cameras : List Camera)
      → configure_all strings seen items ≡ fine cameras
      → IsTidy seen.uids cameras
  unfolding configure_all
  configure_all-IsTidy seen [] cameras h = subst (IsTidy seen.uids) (fine-eq h) (tt, tt)
  configure_all-IsTidy seen (item ∷ items) cameras h =
      let (pair, done, h1) = >>=-eq-fine (configure strings seen item) _ h in
      let (rest, others, h2) =
        >>=-eq-fine (configure_all strings pair.1 items) (λ r. fine (pair.0 ∷ r)) h1 in
      let (new, grown, fits) = configure-IsConfigured seen item pair done in
      let (fresh, all_fit) = configure_all-IsTidy pair.1 items rest others in
      let fresh' = subst (λ uids. IsFresh uids (keys_of strings rest)) grown fresh in
      subst (IsTidy seen.uids) (fine-eq h2) ((new, fresh'), (fits, all_fit))

  -- Whatever the values of the options: in the configurations that are accepted no two cameras have
  -- identifiers that agree up to case, no alias is the identifier of another camera up to case, and a camera has a
  -- password where it is to be opened by password and none in automatic mode.
  pub normalize_camera_configurations-IsTidy :
      (given : Cameras) (cameras : List Camera)
      → normalize_camera_configurations strings given ≡ fine (some cameras)
      → IsTidy [] cameras × (any (collides strings (keys_of strings cameras)) cameras ≡ false)
  unfolding normalize_camera_configurations
  normalize_camera_configurations-IsTidy no_cameras cameras h = cc
  normalize_camera_configurations-IsTidy cameras_not_a_list cameras h = cc
  normalize_camera_configurations-IsTidy (camera_list items) cameras h =
      let (result, done, h1) =
        >>=-eq-fine (configure_all strings (record { uids = []; aliases = [] }) items) _ h in
      let (apart, h2) =
        refuse-eq-fine (any (collides strings (keys_of strings result)) result) alias_collides
          (fine (some result)) h1 in
      subst (λ r. IsTidy [] r × (any (collides strings (keys_of strings r)) r ≡ false))
        (some-eq (fine-eq h2)) (configure_all-IsTidy _ items result done, apart)
