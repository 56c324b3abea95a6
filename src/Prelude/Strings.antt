-- ===== src/Prelude/Strings.antt =====
-- Text as a list of code points, and the equality of such lists.
use Prim.Native.Char.{code}
use Prim.Native.Nat.{ℕ}
use Prim.Native.String.{String}
use mathlib.Core.Path.{◌≡◌, refl}
use mathlib.Core.Logic.{◌↔◌}
use mathlib.Core.Bool.{Bool, true, false, ◌&&◌}
use mathlib.Core.List.{List, [], ◌∷◌}
use native.Mathlib.Omega.{arith}
use okam_ha_proxy.Prelude.Tests.{◌==◌}

-- A Python `str`: its code points.
abbrev pub Text : Type 0
Text = List ℕ

abbrev pub codes : String → Text
codes String.[] = []
codes (String.◌∷◌ c s) = code c ∷ codes s

-- `==` of byte strings and of texts
abbrev pub equal : List ℕ → List ℕ → Bool
equal [] [] = true
equal (x ∷ xs) (y ∷ ys) = x == y && equal xs ys
equal _ _ = false

pub equal-eq : (xs ys : List ℕ) → equal xs ys ≡ true → xs ≡ ys
equal-eq [] [] h = refl
equal-eq [] (y ∷ ys) h = ground arith
equal-eq (x ∷ xs) [] h = ground arith
equal-eq (x ∷ xs) (y ∷ ys) h = ground (arith, equal-eq xs ys)

pub equal_self : (xs : List ℕ) → equal xs xs ≡ true
equal_self [] = refl
equal_self (x ∷ xs) = ground (arith, equal_self xs)

pub equal_iff : (xs ys : List ℕ) → (equal xs ys ≡ true) ↔ (xs ≡ ys)
equal_iff xs ys = (equal-eq xs ys, λ e. ground (arith, equal_self xs))
