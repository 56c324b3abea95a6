-- ===== src/Account/Configuration.antt =====
-- The configured cameras: `normalize_camera_uids` and `normalize_camera_configurations` of
-- src/okam_native/account.py.
use okam_ha_proxy.Prelude.{
  ◌≡◌, refl, Bool, true, false, not, ◌&&◌, ◌||◌, List, [], ◌∷◌, Option, none, some, Text, codes,
  any, null, equal, if◌then◌else◌,
}

-- `AccountError`, by its message.
pub data Failure : Type 0 where
  uids_no_list uid_invalid uid_empty uids_duplicate uids_empty : Failure
  devices_duplicate uid_not_found : Failure
  cameras_no_list configuration_no_mapping uid_required configured_twice alias_invalid
        alias_duplicate :
      Failure
  password_invalid auth_method_invalid password_required battery_no_boolean ip_invalid ip_no_address
        alias_collides :
      Failure

pub data Outcome {ℓ} (A : Type ℓ) : Type ℓ where
  fine : A → Outcome A
  fails : Failure → Outcome A

infixl 5 ◌>>=◌ ◌>>◌
abbrev pub ◌>>=◌ {ℓ κ} : {A : Type ℓ} {B : Type κ} → Outcome A → (A → Outcome B) → Outcome B
(fails failure) >>= f = fails failure
(fine a) >>= f = f a

abbrev pub ◌>>◌ {κ} : {B : Type κ} → Outcome (Unit {0}) → Outcome B → Outcome B
m >> n = m >>= λ _. n

-- `if test: raise AccountError(...)`
abbrev pub refuse : Bool → Failure → Outcome (Unit {0})
refuse test failure = elim test [ true ↦ fails failure | false ↦ fine tt ]

-- A value of the options, as far as the code tells values apart: a `str`, a `bool`, `None`, or another
-- value that can be hashed.
pub data Value : Type 0 where
  text : Text → Value
  flag : Bool → Value
  null_value other : Value

-- A list of values, `None`, or something else.
pub data Uids : Type 0 where
  no_uids not_a_list : Uids
  uid_list : List Value → Uids

abbrev pub contains : List Text → Text → Bool
contains seen item = any (equal item) seen

-- A mapping of the `cameras` list, by its keys; `none` is a key that is missing.
pub record Mapping : Type 0 where
  pub uid : Option Value
  pub alias : Option Value
  pub password : Option Value
  pub auth_method : Option Value
  pub auth_mode : Option Value
  pub battery_camera : Option Value
  pub ip : Option Value

pub data Item : Type 0 where
  mapping : Mapping → Item
  not_a_mapping : Item

pub data Cameras : Type 0 where
  no_cameras cameras_not_a_list : Cameras
  camera_list : List Item → Cameras

pub data AuthMode : Type 0 where
  automatic by_password : AuthMode

-- `(uid, alias, password, auth_mode, battery_camera, camera_ip)`
pub record Camera : Type 0 where
  pub uid : Text
  pub alias : Option Text
  pub password : Option Text
  pub auth_mode : AuthMode
  pub battery_camera : Bool
  pub camera_ip : Option Text

-- What the loop has seen.
pub record Seen : Type 0 where
  pub uids : List Text
  pub aliases : List Text

abbrev pub get : Option Value → Value
get none = null_value
get (some v) = v

-- `item.get("auth_method", item.get("auth_mode"))`
abbrev pub get_mode : Option Value → Option Value → Value
get_mode (some v) mode = v
get_mode none mode = get mode

abbrev pub password_of : Value → Outcome (Option Text)
password_of null_value = fine none
password_of (text password) = fine (some password)
password_of _ = fails password_invalid

abbrev pub is_set : Option Text → Bool
is_set none = false
is_set (some t) = not (null t)

-- A `str` that names a mode; 'configured_password' is turned into 'password' first.
abbrev pub named_mode : Text → Outcome AuthMode
named_mode name =
    if equal name (codes "configured_password") || equal name (codes "password")
    then fine by_password
    else if equal name (codes "automatic")
    then fine automatic
    else fails auth_method_invalid

abbrev pub mode_of : Value → Option Text → Outcome AuthMode
mode_of null_value password = fine (if is_set password then by_password else automatic)
mode_of (text name) password = named_mode name
mode_of _ password = fails auth_method_invalid

-- The password that stays: none in automatic mode, and one that must be there otherwise.
abbrev pub kept_password : AuthMode → Option Text → Outcome (Option Text)
kept_password by_password none = fails password_required
kept_password by_password (some password) = fine (some password)
kept_password automatic password = fine none

abbrev pub battery_of : Option Value → Outcome Bool
battery_of none = fine true
battery_of (some (flag b)) = fine b
battery_of (some _) = fails battery_no_boolean

-- `str.strip`, `str.casefold`, and the text of `ipaddress.ip_address` of a text that is an IPv4 address
-- (`none` for every other text).
pub record Strings : Type 0 where
  pub strip : Text → Text
  pub casefold : Text → Text
  pub ipv4 : Text → Option Text

module _ (strings : Strings) where
  -- The loop of `normalize_camera_uids`, `seen` being the identifiers before.
  unfoldable pub uids_loop : List Text → List Value → Outcome (List Text)
  uids_loop seen [] = fine []
  uids_loop seen (text item ∷ items) = do
    let uid = strings.strip item
    refuse (null uid) uid_empty
    refuse (contains seen uid) uids_duplicate
    rest ← uids_loop (uid ∷ seen) items
    fine (uid ∷ rest)
  uids_loop seen (_ ∷ items) = fails uid_invalid

  -- `normalize_camera_uids`
  unfoldable pub normalize_camera_uids : Uids → Outcome (Option (List Text))
  unfolding uids_loop
  normalize_camera_uids no_uids = fine none
  normalize_camera_uids not_a_list = fails uids_no_list
  normalize_camera_uids (uid_list items) = do
    result ← uids_loop [] items
    refuse (null result) uids_empty
    fine (some result)

  -- The alias, and the aliases seen with it.
  abbrev pub alias_of : List Text → Value → Outcome (Option Text × List Text)
  alias_of seen null_value = fine (none, seen)
  alias_of seen (text alias) =
      let stripped = strings.strip alias in
      if null stripped
      then fine (none, seen)
      else if contains seen (strings.casefold stripped)
      then fails alias_duplicate
      else fine (some stripped, strings.casefold stripped ∷ seen)
  alias_of seen _ = fails alias_invalid

  abbrev pub uid_of : Value → Outcome Text
  uid_of (text uid) =
      if null (strings.strip uid) then fails uid_required else fine (strings.strip uid)
  uid_of _ = fails uid_required

  abbrev pub ip_text : Option Text → Outcome (Option Text)
  ip_text none = fails ip_no_address
  ip_text (some ip) = fine (some ip)

  abbrev pub ip_of : Value → Outcome (Option Text)
  ip_of null_value = fine none
  ip_of (text ip) =
      if null (strings.strip ip)
      then fails ip_no_address
      else ip_text (strings.ipv4 (strings.strip ip))
  ip_of _ = fails ip_invalid

  -- One round of the loop of `normalize_camera_configurations`.
  unfoldable pub configure : Seen → Item → Outcome (Camera × Seen)
  configure seen not_a_mapping = fails configuration_no_mapping
  configure seen (mapping item) = do
    uid ← uid_of (get item.uid)
    let key = strings.casefold uid
    refuse (contains seen.uids key) configured_twice
    (alias, aliases) ← alias_of seen.aliases (get item.alias)
    given ← password_of (get item.password)
    mode ← mode_of (get_mode item.auth_method item.auth_mode) given
    password ← kept_password mode given
    battery ← battery_of item.battery_camera
    ip ← ip_of (get item.ip)
    fine (
      record {
        uid = uid;
        alias = alias;
        password = password;
        auth_mode = mode;
        battery_camera = battery;
        camera_ip = ip;
      },
      record { uids = key ∷ seen.uids; aliases = aliases },
    )

  unfoldable pub configure_all : Seen → List Item → Outcome (List Camera)
  unfolding configure
  configure_all seen [] = fine []
  configure_all seen (item ∷ items) = do
    (camera, after) ← configure seen item
    rest ← configure_all after items
    fine (camera ∷ rest)

  -- Whether the alias of a camera is the identifier of another.
  abbrev pub alias_collides_with : List Text → Text → Option Text → Bool
  alias_collides_with keys uid none = false
  alias_collides_with keys uid (some alias) =
      contains keys (strings.casefold alias)
      && not (equal (strings.casefold alias) (strings.casefold uid))

  abbrev pub collides : List Text → Camera → Bool
  collides keys camera = alias_collides_with keys camera.uid camera.alias

  -- `{uid.casefold() for uid, ... in result}`
  abbrev pub keys_of : List Camera → List Text
  keys_of [] = []
  keys_of (camera ∷ cameras) = strings.casefold camera.uid ∷ keys_of cameras

  -- `normalize_camera_configurations`
  unfoldable pub normalize_camera_configurations : Cameras → Outcome (Option (List Camera))
  unfolding configure_all
  normalize_camera_configurations no_cameras = fine none
  normalize_camera_configurations cameras_not_a_list = fails cameras_no_list
  normalize_camera_configurations (camera_list items) = do
    cameras ← configure_all (record { uids = []; aliases = [] }) items
    refuse (any (collides (keys_of cameras)) cameras) alias_collides
    fine (some cameras)

-- What a chain that ends well has passed.
pub >>=-eq-fine {ℓ κ} :
    {A : Type ℓ} {B : Type κ} (step : Outcome A) (next : A → Outcome B) {end : B}
    → step >>= next ≡ fine end
    → (a : A) × (step ≡ fine a) × (next a ≡ fine end)
>>=-eq-fine (fails failure) next h = cc
>>=-eq-fine (fine a) next h = (a, refl, h)

pub refuse-eq-fine {κ} :
    {B : Type κ} (test : Bool) (failure : Failure) (next : Outcome B) {end : B}
    → refuse test failure >> next ≡ fine end
    → (test ≡ false) × (next ≡ fine end)
refuse-eq-fine true failure next h = cc
refuse-eq-fine false failure next h = (refl, h)
