-- ===== src/Cs2/Commands/Framing.antt =====
-- What is sent as a camera command, and how its header is read.
use okam_ha_proxy.Prelude.{
  ℕ, ◌+◌, ◌*◌, ◌/◌, ◌%◌, ◌≤◌, ◌<◌, ◌≡◌, refl, arith, true, false, ◌++◌, Text, Bytes, codes, any,
  null, length, length-append, take, drop, ltb,
}
use okam_ha_proxy.Prelude.Outcome.{ok}
use okam_ha_proxy.Cs2.Cipher.{is_ascii}
use okam_ha_proxy.Cs2.Commands.{is_control, cgi_text, command_header, make_cgi_request, read_header}

length-cgi_text :
    (path user password : Text)
    → length path ≤ 2048
    → length user ≤ 512
    → length password ≤ 512
    → length (cgi_text path user password) < 65536
length-cgi_text path user password p u w = omega (
  arith,
  length-append path (
      codes "loginuse="
      ++ (user ++ (codes "&loginpas=" ++ (password ++ codes "&user=admin&pwd=888888&")))),
  length-append user (codes "&loginpas=" ++ (password ++ codes "&user=admin&pwd=888888&")),
  length-append password (codes "&user=admin&pwd=888888&"),
)

not_long : (n : ℕ) → n < 65536 → ltb 65535 n ≡ false
not_long n h = ground arith

read_header-command_header :
    (bound size : ℕ) (body : Bytes)
    → size < 65536
    → size ≤ bound
    → read_header bound (take 8 (command_header size ++ body)) ≡ ok (0, size)
unfolding read_header
read_header-command_header bound size body small fits =
    let is : size % 256 + 256 * (size / 256 % 256 + 256 * 0) ≡ size = omega arith in
    let bounded : ltb bound size ≡ false = ground arith in rw (is, bounded) refl

-- The texts that `make_cgi_request` accepts.
abbrev pub IsFit : Text → Text → Text → Type 0
IsFit path user password =
    (null path ≡ false)
    × (length path ≤ 2048)
    × (any is_control path ≡ false)
    × (null user ≡ false)
    × (length user ≤ 512)
    × (any is_control user ≡ false)
    × (length password ≤ 512)
    × (any is_control password ≡ false)
    × (is_ascii (cgi_text path user password) ≡ true)

make_cgi_request-IsFit :
    (path user password : Text)
    → IsFit path user password
    → make_cgi_request path user password
      ≡ ok (command_header (length (cgi_text path user password)) ++ cgi_text path user password)
unfolding make_cgi_request
make_cgi_request-IsFit path user password (p, pl, pc, u, ul, uc, wl, wc, ascii) =
    let short = length-cgi_text path user password pl ul wl in
    let path_fits : ltb 2048 (length path) ≡ false = ground arith in
    let user_fits : ltb 512 (length user) ≡ false = ground arith in
    let password_fits : ltb 512 (length password) ≡ false = ground arith in
    let request_fits : ltb 65535 (length (cgi_text path user password)) ≡ false =
      not_long _ short in
    rw (p, path_fits, pc, u, user_fits, uc, password_fits, wc, ascii, request_fits) refl

-- A path and credentials of the allowed lengths without control characters, which give an ASCII request, are
-- always framed: the request is never too large. `read_command` takes such a frame apart again: its first eight bytes
-- announce a body of exactly the length of the text that follows them.
pub read_header-make_cgi_request :
    (bound : ℕ) (path user password : Text)
    → 65536 ≤ bound
    → IsFit path user password
    → (packet : Bytes) × (make_cgi_request path user password ≡ ok packet)
      × (read_header bound (take 8 packet) ≡ ok (0, length (drop 8 packet)))
      × (drop 8 packet ≡ cgi_text path user password)
read_header-make_cgi_request bound path user password large fit =
    let text = cgi_text path user password in
    let short = length-cgi_text path user password fit.1 fit.4 fit.6 in
    (
      command_header (length text) ++ text,
      make_cgi_request-IsFit path user password fit,
      read_header-command_header bound (length text) text short (omega arith),
      refl,
    )
