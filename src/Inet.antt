-- ===== src/Inet.antt =====
-- The address functions of Python's `socket` module, which the program calls and does not implement.
use okam_ha_proxy.Prelude.{[], ◌∷◌, ◌≡◌, Option, some, Text, Bytes, IsBytes, codes, length}

-- `inet_aton` and `inet_ntoa` as documented: four packed bytes and their dotted text.
pub record Inet : Type 0 where
  -- `none` stands for the OSError of a text that is no address.
  pub aton : Text → Option Bytes
  pub ntoa : Bytes → Text
  pub length-aton : (host : Text) (packed : Bytes) → aton host ≡ some packed → length packed ≡ 4
  pub aton-ntoa :
      (packed : Bytes) → length packed ≡ 4 → IsBytes packed → aton (ntoa packed) ≡ some packed
  pub ntoa_zero : ntoa (0 ∷ 0 ∷ 0 ∷ 0 ∷ []) ≡ codes "0.0.0.0"
