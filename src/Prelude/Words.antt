-- ===== src/Prelude/Words.antt =====
-- Bytes, and Python's `int.to_bytes` and `int.from_bytes` at the widths that the program uses.
use Prim.Native.Nat.{ℕ, ◌+◌, ◌*◌, ◌/◌, ◌%◌, ◌^◌, ◌<◌}
use mathlib.Core.Path.{◌≡◌}
use mathlib.Core.List.{List, [], ◌∷◌}
use native.Mathlib.Omega.{arith}
use okam_ha_proxy.Prelude.Lists.{All, length}

abbrev pub Bytes : Type 0
Bytes = List ℕ

abbrev pub IsByte : ℕ → Type 0
IsByte b = b < 256

abbrev pub IsBytes : Bytes → Type 0
IsBytes = All IsByte

-- `n.to_bytes(2, "big")`, `n.to_bytes(2, "little")`, `n.to_bytes(4, "big")`; the callers keep `n` in
-- range, so there is no OverflowError
abbrev pub to_bytes2 : ℕ → Bytes
to_bytes2 n = (n / 256 % 256) ∷ (n % 256) ∷ []

abbrev pub to_bytes2_little : ℕ → Bytes
to_bytes2_little n = (n % 256) ∷ (n / 256 % 256) ∷ []

abbrev pub to_bytes4 : ℕ → Bytes
to_bytes4 n = (n / 2 ^ 24 % 256) ∷ (n / 2 ^ 16 % 256) ∷ (n / 256 % 256) ∷ (n % 256) ∷ []

-- `int.from_bytes(bs, "big")`
abbrev pub from_bytes_onto : ℕ → Bytes → ℕ
from_bytes_onto acc [] = acc
from_bytes_onto acc (b ∷ bs) = from_bytes_onto (acc * 256 + b) bs

abbrev pub from_bytes : Bytes → ℕ
from_bytes = from_bytes_onto 0

-- `int.from_bytes(bs, "little")`
abbrev pub from_bytes_little : Bytes → ℕ
from_bytes_little [] = 0
from_bytes_little (b ∷ bs) = b + 256 * from_bytes_little bs

pub from_bytes-to_bytes2 : (n : ℕ) → n < 2 ^ 16 → from_bytes (to_bytes2 n) ≡ n
from_bytes-to_bytes2 n h = omega arith

pub from_bytes_little-to_bytes2_little :
    (n : ℕ) → n < 2 ^ 16 → from_bytes_little (to_bytes2_little n) ≡ n
from_bytes_little-to_bytes2_little n h = omega arith

pub from_bytes-to_bytes4 : (n : ℕ) → n < 2 ^ 32 → from_bytes (to_bytes4 n) ≡ n
from_bytes-to_bytes4 n h = omega arith

pub to_bytes4-from_bytes :
    (bs : Bytes) → length bs ≡ 4 → IsBytes bs → to_bytes4 (from_bytes bs) ≡ bs
to_bytes4-from_bytes (a ∷ b ∷ c ∷ d ∷ []) h bytes = ground arith
to_bytes4-from_bytes (a ∷ b ∷ c ∷ d ∷ e ∷ r) h bytes = absurd (omega arith)
to_bytes4-from_bytes [] h bytes = absurd (omega arith)
to_bytes4-from_bytes (a ∷ []) h bytes = absurd (omega arith)
to_bytes4-from_bytes (a ∷ b ∷ []) h bytes = absurd (omega arith)
to_bytes4-from_bytes (a ∷ b ∷ c ∷ []) h bytes = absurd (omega arith)
