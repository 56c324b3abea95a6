-- ===== src/Cs2/Commands.antt =====
-- The camera commands of src/okam_native/cs2.py: `make_cgi_request`, `write_command`, `read_command` and
-- `parse_result`.
pub mod Framing
use okam_ha_proxy.Prelude.{
  ℕ, zero, suc, ◌+◌, ◌*◌, ◌-◌, Bool, true, false, not, ◌&&◌, ◌||◌, List, [], ◌∷◌, ◌++◌, Option,
  none, some, Text, Bytes, codes, any, null, length, slice, take, drop, ltb, leb, ◌==◌,
  if◌then◌else◌, to_bytes2_little, from_bytes_little, equal, get_or,
}
use okam_ha_proxy.Prelude.Outcome.{
  Result, ok, err, cgi_path_invalid, credential_invalid, cgi_request_invalid, cgi_request_too_large,
  command_framing_invalid, ◌>>=◌, ◌>>◌, require,
}
use okam_ha_proxy.Cs2.Cipher.{is_ascii}

abbrev pub is_control : ℕ → Bool
is_control c = ltb c 0x20

abbrev pub is_credential_invalid : ℕ → Text → Bool
is_credential_invalid limit text = ltb limit (length text) || any is_control text

-- `f"GET /{path}loginuse={user}&loginpas={password}&user=admin&pwd=888888&"`
abbrev pub cgi_text : Text → Text → Text → Text
cgi_text path user password =
    codes "GET /"
    ++ (path
        ++ (codes "loginuse="
            ++ (user ++ (codes "&loginpas=" ++ (password ++ codes "&user=admin&pwd=888888&")))))

-- `struct.pack("<HHHH", 0x0A01, 0, length, 0)`
abbrev pub command_header : ℕ → Bytes
command_header size =
    to_bytes2_little 0x0a01 ++ (to_bytes2_little 0 ++ (to_bytes2_little size ++ to_bytes2_little 0))

unfoldable pub make_cgi_request : Text → Text → Text → Result Bytes
make_cgi_request path user password = do
  require (not (null path || ltb 2048 (length path) || any is_control path)) cgi_path_invalid
  require (not (null user || is_credential_invalid 512 user)) credential_invalid
  require (not (is_credential_invalid 512 password)) credential_invalid
  require (is_ascii (cgi_text path user password)) cgi_request_invalid
  require (not (ltb 65535 (length (cgi_text path user password)))) cgi_request_too_large
  ok (command_header (length (cgi_text path user password)) ++ cgi_text path user password)

-- What `read_command` makes of the eight header bytes: the command and the length of its body.
unfoldable pub read_header : ℕ → Bytes → Result (ℕ × ℕ)
read_header max_command_bytes header = do
  require
      (not (
        not (from_bytes_little (slice 0 2 header) == 0x0a01)
        || ltb max_command_bytes (from_bytes_little (slice 4 6 header))))
      command_framing_invalid
  ok (from_bytes_little (slice 2 4 header), from_bytes_little (slice 4 6 header))

-- `while cursor < len(payload) and payload[cursor] in ...: cursor += 1`
unfoldable pub skip_while : (ℕ → Bool) → Bytes → Bytes
skip_while test [] = []
skip_while test (byte ∷ bytes) =
    let rest = skip_while test bytes in if test byte then rest else byte ∷ bytes

abbrev pub is_blank : ℕ → Bool
is_blank c = c == 32 || c == 9

abbrev pub is_blank_or_quote : ℕ → Bool
is_blank_or_quote c = is_blank c || c == 34 || c == 39

abbrev pub is_digit : ℕ → Bool
is_digit c = leb 48 c && leb c 57

-- A Python `int` that may be negative.
pub data LoginCode : Type 0 where
  positive negative : ℕ → LoginCode

-- `int(payload[start:cursor])`, `acc` being the digits before
unfoldable pub digits_onto : ℕ → Bytes → ℕ
digits_onto acc [] = acc
digits_onto acc (byte ∷ bytes) =
    let rest = digits_onto (acc * 10 + (byte - 48)) bytes in if is_digit byte then rest else acc

abbrev pub has_digit : Bytes → Bool
has_digit [] = false
has_digit (byte ∷ bytes) = is_digit byte

-- The number behind the sign.
abbrev pub number_of : (ℕ → LoginCode) → Bytes → Option LoginCode
number_of sign bytes = if has_digit bytes then some (sign (digits_onto 0 bytes)) else none

abbrev pub signed_number : Bytes → Option LoginCode
signed_number [] = none
signed_number (byte ∷ bytes) =
    if byte == 45 then number_of negative bytes else number_of positive (byte ∷ bytes)

-- What stands behind `result`, if it is `=` and a number.
abbrev pub value_behind : Bytes → Option LoginCode
value_behind [] = none
value_behind (byte ∷ bytes) =
    if byte == 61 then signed_number (skip_while is_blank_or_quote bytes) else none

abbrev pub or_else : Option LoginCode → Option LoginCode → Option LoginCode
or_else none next = next
or_else (some value) next = some value

-- `parse_result`: the value behind the first `result` that has one
unfoldable pub parse_result : Bytes → Option LoginCode
unfolding skip_while digits_onto
parse_result [] = none
parse_result (byte ∷ bytes) =
    let rest = parse_result bytes in
    if equal (take 6 (byte ∷ bytes)) (codes "result")
    then or_else (value_behind (skip_while is_blank (drop 6 (byte ∷ bytes)))) rest
    else rest
