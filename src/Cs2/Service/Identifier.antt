-- ===== src/Cs2/Service/Identifier.antt =====
-- The encoded device identifier.
use native.Mathlib.Nat.{pow-suc}
use okam_ha_proxy.Prelude.{
  ℕ, zero, suc, ◌+◌, ◌*◌, ◌^◌, ◌≤◌, ◌<◌, true, not, [], ◌∷◌, ◌++◌, ◌≡◌, refl, arith, Option, none,
  some, Text, Bytes, IsByte, IsBytes, All-append, length, length-append, length-take, length-drop,
  take, drop, slice, replicate, to_bytes4,
}
use okam_ha_proxy.Prelude.Outcome.{ok, transport_identifier_invalid, >>=-eq-ok, require-eq-ok}
use okam_ha_proxy.Unicode.{Unicode}
use okam_ha_proxy.Cs2.Cipher.{is_ascii}
use okam_ha_proxy.Cs2.Service.{digit_onto, parse_int, is_malformed_uid, encode_uid}

is_ascii-IsBytes : (text : Text) → is_ascii text ≡ true → IsBytes text
is_ascii-IsBytes [] h = tt
is_ascii-IsBytes (c ∷ rest) h = (ground arith, is_ascii-IsBytes rest (ground arith))

abbrev pub layout : Text → ℕ → Bytes
layout uid serial =
    take 4 uid ++ (replicate 4 0 ++ (to_bytes4 serial ++ (drop 10 uid ++ replicate 3 0)))

length-layout : (uid : Text) (serial : ℕ) → length uid ≡ 15 → length (layout uid serial) ≡ 20
length-layout uid serial fifteen = omega (
  arith,
  length-append (take 4 uid)
      (replicate 4 0 ++ (to_bytes4 serial ++ (drop 10 uid ++ replicate 3 0))),
  length-append (drop 10 uid) (replicate 3 0),
  length-take 4 uid,
  length-drop 10 uid,
)

layout-IsBytes :
    (uid : Text) (serial : ℕ)
    → IsBytes (take 4 uid)
    → IsBytes (drop 10 uid)
    → IsBytes (layout uid serial)
layout-IsBytes uid serial front back =
    let end = All-append IsByte (drop 10 uid) (replicate 3 0) back (omega arith) in
    All-append IsByte (take 4 uid) _ front (
      omega arith,
      (
        omega arith,
        (
          omega arith,
          (omega arith, (omega arith, (omega arith, (omega arith, (omega arith, end))))),
        ),
      ),
    )

mul_le : (p a b : ℕ) → a ≤ b → a * p ≤ b * p
mul_le zero a b h = omega arith
mul_le (suc p) a b h = omega (arith, mul_le p a b h)

-- One more digit in front of a bound.
shifted :
    (acc d next n p : ℕ)
    → next ≡ acc * 10 + d
    → d < 10
    → n < (next + 1) * p
    → n < (acc + 1) * (p * 10)
shifted acc d next n p is small h =
    grind (arith, mul_le p (next + 1) ((acc + 1) * 10) (omega arith))

module _ (unicode : Unicode) where
  digit_onto-eq-ok :
      (acc : ℕ) (digit : Option ℕ) {next : ℕ}
      → digit_onto acc digit ≡ ok next
      → (d : ℕ) × (digit ≡ some d) × (next ≡ acc * 10 + d)
  digit_onto-eq-ok acc none h = cc
  digit_onto-eq-ok acc (some d) h = (d, refl, cc)

  parse_int-lt :
      (acc : ℕ) (text : Text) (n : ℕ)
      → parse_int unicode acc text ≡ ok n
      → n < (acc + 1) * 10 ^ length text
  unfolding parse_int
  parse_int-lt acc [] n h = ground arith
  parse_int-lt acc (c ∷ rest) n h =
      let (next, digit, h1) = >>=-eq-ok (digit_onto acc (unicode.decimal c)) _ h in
      let (d, value, is) = digit_onto-eq-ok acc (unicode.decimal c) digit in
      let small = unicode.decimal-lt c d value in
      let ih = parse_int-lt next rest n h1 in
      rw (pow-suc 10 (length rest)) (shifted acc d next n (10 ^ length rest) is small ih)

  -- An identifier that is encoded has 15 characters, and gives 20 bytes: its first four characters,
  -- four zeros, the number of its six digits, its last five characters, and three zeros. The number is
  -- below a million.
  pub encode_uid-layout :
      (uid : Text) (bytes : Bytes)
      → encode_uid unicode uid ≡ ok bytes
      → (length uid ≡ 15)
        × (length bytes ≡ 20)
        × IsBytes bytes
        × ((serial : ℕ) × (parse_int unicode 0 (slice 4 10 uid) ≡ ok serial)
            × (serial < 1000000)
            × (bytes ≡ layout uid serial))
  unfolding encode_uid
  encode_uid-layout uid bytes h =
      let (formed, h1) =
        require-eq-ok (not (is_malformed_uid unicode uid)) transport_identifier_invalid _ h in
      let (front, h2) = require-eq-ok (is_ascii (take 4 uid)) transport_identifier_invalid _ h1 in
      let (serial, number, h3) = >>=-eq-ok (parse_int unicode 0 (slice 4 10 uid)) _ h2 in
      let (back, h4) = require-eq-ok (is_ascii (drop 10 uid)) transport_identifier_invalid _ h3 in
      let fifteen : length uid ≡ 15 = ground arith in
      let is : bytes ≡ layout uid serial = cc in
      let six : length (slice 4 10 uid) ≡ 6 =
        omega (arith, length-take 6 (drop 4 uid), length-drop 4 uid) in
      let below = rw six at (parse_int-lt 0 (slice 4 10 uid) serial number) in
      (
        fifteen,
        rw is (length-layout uid serial fifteen),
        rw is (
            layout-IsBytes uid serial (is_ascii-IsBytes (take 4 uid) front)
              (is_ascii-IsBytes (drop 10 uid) back)),
        (serial, number, omega (arith, below), is),
      )
