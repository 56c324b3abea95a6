-- ===== src/Account/Selection.antt =====
-- The cameras that the options select: `select_account_devices` and
-- `configured_camera_selections` of src/okam_native/account.py.
use okam_ha_proxy.Prelude.{
  Bool, true, List, [], ◌∷◌, map, Option, none, some, Text, equal, if◌then◌else◌,
}
use okam_ha_proxy.Account.Configuration.{
  devices_duplicate, uid_not_found, Outcome, fine, fails, ◌>>=◌, ◌>>◌, refuse, Strings, Value, text,
  Uids, no_uids, uid_list, Cameras, AuthMode, automatic, Camera, contains, normalize_camera_uids,
  normalize_camera_configurations,
}

-- `AccountDevice`
pub record AccountDevice : Type 0 where
  pub uid : Text
  pub name : Text
  pub device_password : Text
  pub password_present : Bool

-- `CameraSelection`
pub record CameraSelection : Type 0 where
  pub device : AccountDevice
  pub alias : Option Text
  pub password : Option Text
  pub auth_mode : AuthMode
  pub battery_camera : Bool
  pub camera_ip : Option Text

-- `CameraSelection(device)`
abbrev pub plain_selection : AccountDevice → CameraSelection
plain_selection device = record {
  device = device;
  alias = none;
  password = none;
  auth_mode = automatic;
  battery_camera = true;
  camera_ip = none;
}

abbrev pub found : Option AccountDevice → Outcome AccountDevice
found none = fails uid_not_found
found (some device) = fine device

-- The options that are read: `cameras`, `camera_uids`, `camera_uid` (`none`: the key is missing), and
-- `camera_id`.
pub record Options : Type 0 where
  pub cameras : Cameras
  pub camera_uids : Uids
  pub camera_uid : Option Value
  pub camera_id : Value

-- The legacy identifiers, `camera_uid` counting only where `camera_uids` is missing or `None`.
abbrev pub raw_of : Uids → Option Value → Uids
raw_of no_uids none = no_uids
raw_of no_uids (some uid) = uid_list (uid ∷ [])
raw_of given uid = given

module _ (strings : Strings) where
  -- The loop that fills `by_uid`.
  unfoldable pub check_devices : List Text → List AccountDevice → Outcome (Unit {0})
  check_devices seen [] = fine tt
  check_devices seen (device ∷ devices) = do
    refuse (contains seen (strings.casefold device.uid)) devices_duplicate
    check_devices (strings.casefold device.uid ∷ seen) devices

  -- `by_uid.get(uid.casefold())`
  unfoldable pub find_device : Text → List AccountDevice → Option AccountDevice
  find_device uid [] = none
  find_device uid (device ∷ devices) =
      if equal (strings.casefold uid) (strings.casefold device.uid)
      then some device
      else find_device uid devices

  unfoldable pub find_devices : List AccountDevice → List Text → Outcome (List AccountDevice)
  unfolding find_device
  find_devices devices [] = fine []
  find_devices devices (uid ∷ uids) = do
    device ← found (find_device uid devices)
    rest ← find_devices devices uids
    fine (device ∷ rest)

  abbrev pub select_from : List AccountDevice → Option (List Text) → Outcome (List AccountDevice)
  select_from devices none = fine devices
  select_from devices (some uids) = do _ ← check_devices [] devices; find_devices devices uids

  -- `select_account_devices`
  unfoldable pub select_account_devices : List AccountDevice → Uids → Outcome (List AccountDevice)
  unfolding find_devices check_devices
  select_account_devices devices camera_uids = do
    uids ← normalize_camera_uids strings camera_uids
    select_from devices uids

  abbrev pub selection_of : AccountDevice → Camera → CameraSelection
  selection_of device camera = record {
    device = device;
    alias = camera.alias;
    password = camera.password;
    auth_mode = camera.auth_mode;
    battery_camera = camera.battery_camera;
    camera_ip = camera.camera_ip;
  }

  unfoldable pub select_cameras : List AccountDevice → List Camera → Outcome (List CameraSelection)
  unfolding find_device
  select_cameras devices [] = fine []
  select_cameras devices (camera ∷ cameras) = do
    device ← found (find_device camera.uid devices)
    rest ← select_cameras devices cameras
    fine (selection_of device camera ∷ rest)

  abbrev pub legacy_alias : Value → Option Text
  legacy_alias (text alias) = some (strings.strip alias)
  legacy_alias _ = none

  abbrev pub legacy_camera : Option Text → Text → Camera
  legacy_camera alias uid = record {
    uid = uid;
    alias = alias;
    password = none;
    auth_mode = automatic;
    battery_camera = true;
    camera_ip = none;
  }

  abbrev pub legacy_cameras : Value → Option (List Text) → List Camera
  legacy_cameras camera_id none = []
  legacy_cameras camera_id (some (uid ∷ [])) = legacy_camera (legacy_alias camera_id) uid ∷ []
  legacy_cameras camera_id (some uids) = map (legacy_camera none) uids

  -- `current`, an empty list standing for `None` too, since both are followed by the same code.
  abbrev pub current_cameras : Options → Option (List Camera) → Outcome (List Camera)
  current_cameras options (some cameras) = fine cameras
  current_cameras options none = do
    uids ← normalize_camera_uids strings (raw_of options.camera_uids options.camera_uid)
    fine (legacy_cameras options.camera_id uids)

  abbrev pub choose : List AccountDevice → List Camera → Outcome (List CameraSelection)
  choose devices [] = fine (map plain_selection devices)
  choose devices (camera ∷ cameras) = do
    _ ← check_devices [] devices
    select_cameras devices (camera ∷ cameras)

  -- `configured_camera_selections`
  unfoldable pub configured_camera_selections :
      List AccountDevice → Options → Outcome (List CameraSelection)
  unfolding check_devices select_cameras
  configured_camera_selections devices options = do
    configured ← normalize_camera_configurations strings options.cameras
    cameras ← current_cameras options configured
    choose devices cameras
