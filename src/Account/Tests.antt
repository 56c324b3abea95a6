-- ===== src/Account/Tests.antt =====
-- Instances of the theorems on the configured cameras.
use okam_ha_proxy.Prelude.{◌≡◌, refl, true, false, [], ◌∷◌, none, some, All, any, null, codes}
use okam_ha_proxy.Account.Configuration.{
  Strings, text, flag, uid_list, no_uids, Cameras, camera_list, mapping, Camera, by_password, fine,
  normalize_camera_uids, normalize_camera_configurations, keys_of, collides,
}
use okam_ha_proxy.Account.Uids.{IsFresh, IsNonblank, normalize_camera_uids-IsFresh}
use okam_ha_proxy.Account.Cameras.{IsTidy, normalize_camera_configurations-IsTidy}
use okam_ha_proxy.Account.Selection.{AccountDevice, Options}
use okam_ha_proxy.Account.Chosen.{Chosen}

-- Text without spaces and of one case; every text counts as an address.
abbrev lower_case : Strings
lower_case = record { strip = λ t. t; casefold = λ t. t; ipv4 = λ t. some t }

two_uids :
    normalize_camera_uids lower_case (uid_list (text (codes "a") ∷ text (codes "b") ∷ []))
    ≡ fine (some (codes "a" ∷ codes "b" ∷ []))
unfolding normalize_camera_uids
two_uids = refl

normalize_camera_uids-IsFresh_instance :
    (null (codes "a" ∷ codes "b" ∷ []) ≡ false)
    × IsFresh [] (codes "a" ∷ codes "b" ∷ [])
    × All IsNonblank (codes "a" ∷ codes "b" ∷ [])
normalize_camera_uids-IsFresh_instance =
    normalize_camera_uids-IsFresh lower_case (uid_list (text (codes "a") ∷ text (codes "b") ∷ []))
      (codes "a" ∷ codes "b" ∷ []) two_uids

abbrev given : Cameras
given = camera_list (
    mapping (record {
      uid = some (text (codes "cam1"));
      alias = some (text (codes "door"));
      password = some (text (codes "pw"));
      auth_method = none;
      auth_mode = none;
      battery_camera = some (flag false);
      ip = none;
    })
    ∷ [])

abbrev door : Camera
door = record {
  uid = codes "cam1";
  alias = some (codes "door");
  password = some (codes "pw");
  auth_mode = by_password;
  battery_camera = false;
  camera_ip = none;
}

one_camera : normalize_camera_configurations lower_case given ≡ fine (some (door ∷ []))
unfolding normalize_camera_configurations
one_camera = refl

normalize_camera_configurations-IsTidy_example :
    IsTidy lower_case [] (door ∷ [])
    × (any (collides lower_case (keys_of lower_case (door ∷ []))) (door ∷ []) ≡ false)
normalize_camera_configurations-IsTidy_example =
    normalize_camera_configurations-IsTidy lower_case given (door ∷ []) one_camera

abbrev device_1 : AccountDevice
device_1 = record {
  uid = codes "cam1";
  name = codes "Front";
  device_password = codes "x";
  password_present = true;
}

abbrev options : Options
options = record { cameras = given; camera_uids = no_uids; camera_uid = none; camera_id = text [] }
