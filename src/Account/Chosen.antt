-- ===== src/Account/Chosen.antt =====
-- What the selected cameras are.
use mathlib.Core.List.{Mem}
use okam_ha_proxy.Prelude.{◌≡◌, List, [], ◌∷◌, map, Option, none, some, Text}
use okam_ha_proxy.Account.Configuration.{Strings, Camera}
use okam_ha_proxy.Account.Selection.{AccountDevice, CameraSelection, plain_selection, selection_of}

module _ (strings : Strings) where
  abbrev IsOwn : Text → List AccountDevice → Option AccountDevice → Type 0
  IsOwn uid devices none = Unit
  IsOwn uid devices (some device) =
      Mem device devices × (strings.casefold uid ≡ strings.casefold device.uid)

  -- A selection for each camera, in order: a device of the account whose identifier is the camera's up to
  -- case, with the camera's settings.
  abbrev pub Serves : List AccountDevice → List Camera → List CameraSelection → Type 0
  Serves devices [] selections = selections ≡ []
  Serves devices (camera ∷ cameras) [] = ⊥
  Serves devices (camera ∷ cameras) (selection ∷ selections) =
      ((device : AccountDevice) × Mem device devices
        × (strings.casefold camera.uid ≡ strings.casefold device.uid)
        × (selection ≡ selection_of strings device camera))
      × Serves devices cameras selections

  -- With no camera configured every device is selected as it is.
  abbrev pub Chosen : List AccountDevice → List Camera → List CameraSelection → Type 0
  Chosen devices [] selections = selections ≡ map plain_selection devices
  Chosen devices (camera ∷ cameras) selections = Serves devices (camera ∷ cameras) selections
