-- ===== src/Cs2/Service.antt =====
-- The directory parameter and the device identifier of src/okam_native/cs2.py:
-- `decode_service_parameter` and `encode_uid`.
pub mod Parameter
pub mod Identifier
use mathlib.Core.List.{foldl, reverse}
use okam_ha_proxy.Prelude.{
  ℕ, zero, suc, ◌+◌, ◌-◌, ◌*◌, ◌%◌, bit_xor, Bool, true, false, not, ◌&&◌, ◌||◌, List, [], ◌∷◌,
  ◌++◌, Option, none, some, Text, Bytes, length, take, drop, slice, get_or, all, any, null,
  replicate, to_bytes4, ltb, leb, ◌==◌, if◌then◌else◌,
}
use okam_ha_proxy.Prelude.Outcome.{
  Result, ok, err, service_parameter_invalid, directory_list_invalid, transport_identifier_invalid,
  value_error, ◌>>=◌, ◌>>◌, require,
}
use okam_ha_proxy.Inet.{Inet}
use okam_ha_proxy.Unicode.{Unicode}
use okam_ha_proxy.Cs2.Cipher.{is_ascii}

-- `_DECODE_LOOKUP`
unfoldable pub decode_lookup : Bytes
decode_lookup =
    0x49 ∷ 0x59 ∷ 0x43 ∷ 0x3d ∷ 0xb5 ∷ 0xbf ∷ 0x6d ∷ 0xa3 ∷ 0x47 ∷ 0x53 ∷ 0x4f ∷ 0x61 ∷ 0x65 ∷ 0xe3
    ∷ 0x71 ∷ 0xe9 ∷ 0x67 ∷ 0x7f ∷ 0x02 ∷ 0x03 ∷ 0x0b ∷ 0xad ∷ 0xb3 ∷ 0x89 ∷ 0x2b ∷ 0x2f ∷ 0x35
    ∷ 0xc1 ∷ 0x6b ∷ 0x8b ∷ 0x95 ∷ 0x97 ∷ 0x11 ∷ 0xe5 ∷ 0xa7 ∷ 0x0d ∷ 0xef ∷ 0xf1 ∷ 0x05 ∷ 0x07
    ∷ 0x83 ∷ 0xfb ∷ 0x9d ∷ 0x3b ∷ 0xc5 ∷ 0xc7 ∷ 0x13 ∷ 0x17 ∷ 0x1d ∷ 0x1f ∷ 0x25 ∷ 0x29 ∷ 0xd3
    ∷ 0xdf ∷ []

-- `text.partition(separator)`: what stands before it, whether it is there, and what stands behind.
unfoldable pub partition : ℕ → Text → Text × Bool × Text
partition separator [] = ([], false, [])
partition separator (c ∷ rest) =
    let (before, found, behind) = partition separator rest in
    if c == separator then ([], true, rest) else (c ∷ before, found, behind)

-- The byte that the next two letters stand for, `decoded` being the bytes before it.
abbrev pub decode_letters : Bytes → ℕ → ℕ → ℕ
decode_letters decoded high low =
    bit_xor (bit_xor (foldl bit_xor 57 decoded) (get_or decode_lookup (length decoded % 54) 0))
      ((high - 65) * 16 + (low - 65))

abbrev pub is_letter : ℕ → Bool
is_letter c = leb 65 c && leb c 80

-- The loop of `decode_service_parameter`; a last letter with no partner is not reached.
unfoldable pub decode_pairs : Bytes → Text → Result Bytes
decode_pairs decoded [] = ok decoded
decode_pairs decoded (high ∷ []) = ok decoded
decode_pairs decoded (high ∷ low ∷ rest) =
    let next = decode_pairs (decoded ++ decode_letters decoded high low ∷ []) rest in
    if is_letter high && is_letter low then next else err service_parameter_invalid

-- `data.rstrip(b"\0")`
unfoldable pub rstrip : Bytes → Bytes
rstrip [] = []
rstrip (b ∷ rest) = let kept = rstrip rest in if null kept && b == 0 then [] else b ∷ kept

-- The items of `text.split(",")`, the one being read first.
unfoldable pub split_at : ℕ → Text → Text × List Text
split_at separator [] = ([], [])
split_at separator (c ∷ rest) =
    let (item, items) = split_at separator rest in
    if c == separator then ([], item ∷ items) else (c ∷ item, items)

abbrev pub nonempty : List Text → List Text
nonempty [] = []
nonempty (item ∷ items) = if null item then nonempty items else item ∷ nonempty items

-- `tuple(item for item in text.split(",") if item)`
abbrev pub split_servers : Text → List Text
split_servers text = let (item, items) = split_at 44 text in nonempty (item ∷ items)

abbrev pub aton_result : Option Bytes → Result (Unit {0})
aton_result none = err service_parameter_invalid
aton_result (some _) = ok tt

module _ (inet : Inet) where
  -- `socket.inet_aton(server)` for each; a text with a zero character raises ValueError, which the
  -- handler does not catch.
  unfoldable pub check_servers : List Text → Result (Unit {0})
  check_servers [] = ok tt
  check_servers (server ∷ rest) = do
    require (not (any (λ c. c == 0) server)) value_error
    _ ← aton_result (inet.aton server)
    check_servers rest

  unfoldable pub decode_service_parameter : Text → Result (List Text × Text)
  unfolding check_servers decode_pairs rstrip split_at
  decode_service_parameter value = do
    let (encoded, separator, key) = partition 58 value
    require
        (not (not separator || null key || ltb 128 (length key) || not (length encoded % 2 == 0)))
        service_parameter_invalid
    require (not (null encoded || ltb 4096 (length encoded))) service_parameter_invalid
    decoded ← decode_pairs [] encoded
    let text = rstrip decoded
    require (is_ascii text) service_parameter_invalid
    let servers = split_servers text
    require (not (null servers || ltb 16 (length servers))) directory_list_invalid
    _ ← check_servers servers
    require (is_ascii key) service_parameter_invalid
    ok (servers, key)

abbrev pub digit_onto : ℕ → Option ℕ → Result ℕ
digit_onto acc none = err value_error
digit_onto acc (some d) = ok (acc * 10 + d)

module _ (unicode : Unicode) where
  -- `int(text)` of a text of digits
  unfoldable pub parse_int : ℕ → Text → Result ℕ
  parse_int acc [] = ok acc
  parse_int acc (c ∷ rest) = do next ← digit_onto acc (unicode.decimal c); parse_int next rest

  abbrev pub is_malformed_uid : Text → Bool
  is_malformed_uid uid =
      not (length uid == 15)
      || not (all unicode.isalnum (take 4 uid))
      || not (all unicode.isdigit (slice 4 10 uid))
      || not (all unicode.isalpha (drop 10 uid))

  -- Six digits are below 2 ^ 32, so `to_bytes` does not raise.
  unfoldable pub encode_uid : Text → Result Bytes
  unfolding parse_int
  encode_uid uid = do
    require (not (is_malformed_uid uid)) transport_identifier_invalid
    require (is_ascii (take 4 uid)) transport_identifier_invalid
    serial ← parse_int 0 (slice 4 10 uid)
    require (is_ascii (drop 10 uid)) transport_identifier_invalid
    ok (take 4 uid ++ (replicate 4 0 ++ (to_bytes4 serial ++ (drop 10 uid ++ replicate 3 0))))
