-- ===== src/Cs2/Login/Frames.antt =====
-- What `inspect_h264` finds: a loop over all places against a statement about one place.
use okam_ha_proxy.Prelude.{ℕ, Bool, ◌||◌, ◌&&◌, List, [], ◌∷◌, Bytes, bit_and, leb, ◌==◌}
use okam_ha_proxy.Cs2.Login.{nal_behind}

abbrev pub suffixes : Bytes → List Bytes
suffixes [] = []
suffixes (byte ∷ bytes) = (byte ∷ bytes) ∷ suffixes bytes

-- The kind of the NAL unit that a start code at the front announces; 0 is no kind of one.
abbrev pub nal_kind : Bytes → ℕ
nal_kind [] = 0
nal_kind (byte ∷ bytes) = bit_and byte 31

abbrev pub is_valid_at : Bytes → Bool
is_valid_at bytes = let kind = nal_kind (nal_behind bytes) in leb 1 kind && leb kind 12

abbrev pub is_keyframe_at : Bytes → Bool
is_keyframe_at bytes = let kind = nal_kind (nal_behind bytes) in kind == 5 || kind == 7
