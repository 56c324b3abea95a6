-- ===== src/Unicode.antt =====
-- The character tests of Python's `str`, which the program calls and does not implement.
use okam_ha_proxy.Prelude.{ℕ, ◌-◌, ◌<◌, ◌≡◌, Bool, true, ◌&&◌, ◌||◌, Option, some, leb}

abbrev pub is_ascii_digit : ℕ → Bool
is_ascii_digit c = leb 48 c && leb c 57

abbrev pub is_ascii_alpha : ℕ → Bool
is_ascii_alpha c = leb 65 c && leb c 90 || leb 97 c && leb c 122

-- `str.isalnum`, `str.isdigit` and `str.isalpha` of one character, and the value of a character that
-- `int` accepts as a decimal digit; `none` where `int` raises ValueError, as for the digit '²'.
pub record Unicode : Type 0 where
  pub isalnum : ℕ → Bool
  pub isdigit : ℕ → Bool
  pub isalpha : ℕ → Bool
  pub decimal : ℕ → Option ℕ
  pub isalnum_ascii : (c : ℕ) → c < 128 → isalnum c ≡ (is_ascii_digit c || is_ascii_alpha c)
  pub isdigit_ascii : (c : ℕ) → c < 128 → isdigit c ≡ is_ascii_digit c
  pub isalpha_ascii : (c : ℕ) → c < 128 → isalpha c ≡ is_ascii_alpha c
  pub decimal_ascii : (c : ℕ) → is_ascii_digit c ≡ true → decimal c ≡ some (c - 48)
  pub decimal-lt : (c d : ℕ) → decimal c ≡ some d → d < 10
