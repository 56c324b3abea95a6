-- ===== src/Prelude/Outcome.antt =====
-- What a Python call gives: a value, or one of the exceptions that the program raises or lets pass.
use mathlib.Core.Bool.{Bool, true, false}
use mathlib.Core.Path.{◌≡◌, refl}

-- `CS2Error`, one constructor for each message text that a caller can tell apart only by reading
-- it, `CS2Timeout`, and the built-in exceptions that a modelled function lets escape.
pub data Error : Type 0 where
  service_parameter_invalid directory_list_invalid transport_identifier_invalid : Error
  local_port_invalid local_address_invalid remote_address_invalid transport_key_invalid : Error
  session_started socket_not_opened route_unavailable not_established : Error
  channel_invalid not_acknowledged read_request_invalid peer_closed receive_failed : Error
  socket_unavailable send_failed not_connected : Error
  cgi_path_invalid credential_invalid cgi_request_invalid cgi_request_too_large : Error
  command_framing_invalid command_body_missing video_framing_invalid video_frame_invalid : Error
  session_closed starter_failed pipes_unavailable cleanup_incomplete : Error
  cs2_timeout : Error
  value_error index_error assertion_error : Error
  -- no Python exception: the rounds that the model was given for a loop are used up
  out_of_fuel : Error

pub data Result {ℓ} (Value : Type ℓ) : Type ℓ where
  ok : Value → Result Value
  err : Error → Result Value

-- `if not test: raise error`
abbrev pub require : Bool → Error → Result (Unit {0})
require test error = elim test [ true ↦ ok tt | false ↦ err error ]

module _ {ℓ κ} {Value : Type ℓ} {Next : Type κ} where
  infixl 5 ◌>>=◌
  -- The rest of a function, which a raised exception skips.
  abbrev pub ◌>>=◌ : Result Value → (Value → Result Next) → Result Next
  (err error) >>= rest = err error
  (ok value) >>= rest = rest value

  -- What a chain that returns has passed.
  pub >>=-eq-ok :
      (first : Result Value) (rest : Value → Result Next) {last : Next}
      → first >>= rest ≡ ok last
      → (value : Value) × (first ≡ ok value) × (rest value ≡ ok last)
  >>=-eq-ok (err error) rest returned = cc
  >>=-eq-ok (ok value) rest returned = (value, refl, returned)

module _ {κ} {Next : Type κ} where
  infixl 5 ◌>>◌
  abbrev pub ◌>>◌ : Result (Unit {0}) → Result Next → Result Next
  test >> rest = test >>= λ _. rest

  pub require-eq-ok :
      (test : Bool) (error : Error) (rest : Result Next) {last : Next}
      → require test error >> rest ≡ ok last
      → (test ≡ true) × (rest ≡ ok last)
  require-eq-ok true error rest returned = (refl, returned)
  require-eq-ok false error rest returned = cc
