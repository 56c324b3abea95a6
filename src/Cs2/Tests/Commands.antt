-- ===== src/Cs2/Tests/Commands.antt =====
-- A run and an instance of the theorem on camera commands.
use okam_ha_proxy.Prelude.{◌≡◌, refl, arith, some, Bytes, codes, take, drop, length}
use okam_ha_proxy.Prelude.Outcome.{ok}
use okam_ha_proxy.Cs2.Commands.{cgi_text, make_cgi_request, read_header, parse_result, negative}
use okam_ha_proxy.Cs2.Commands.Framing.{read_header-make_cgi_request}

read_header-make_cgi_request_example :
    (packet : Bytes) × (make_cgi_request (codes "login.cgi?") (codes "admin") (codes "pw")
      ≡ ok packet)
    × (read_header 1048576 (take 8 packet) ≡ ok (0, length (drop 8 packet)))
    × (drop 8 packet ≡ cgi_text (codes "login.cgi?") (codes "admin") (codes "pw"))
read_header-make_cgi_request_example =
    read_header-make_cgi_request 1048576 (codes "login.cgi?") (codes "admin") (codes "pw")
      (omega arith) (refl, omega arith, refl, refl, omega arith, refl, omega arith, refl, refl)

first_value : parse_result (codes "var result1 = 3; result = '-12'; result=7;") ≡ some (negative 12)
unfolding parse_result
first_value = refl
