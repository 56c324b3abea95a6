-- ===== src/Cs2/Login.antt =====
-- The camera's login and its video frames in src/okam_native/cs2.py: `write_command`, `read_command`,
-- `login_candidates`, `_read_response`, `authenticate_camera`, `read_video_frame`, `inspect_h264`.
pub mod Candidates
pub mod Frames
use okam_ha_proxy.Prelude.{
  ℕ, zero, suc, ◌+◌, ◌-◌, Bool, true, false, not, ◌&&◌, ◌||◌, List, [], ◌∷◌, ◌++◌, Option, none,
  some, map, min, Text, Bytes, codes, equal, length, take, drop, slice, get_or, any, bit_and, ltb,
  leb, ◌==◌, from_bytes_little, if◌then◌else◌,
}
use okam_ha_proxy.Prelude.Outcome.{
  Error, Result, ok, err, command_framing_invalid, command_body_missing, video_framing_invalid,
  video_frame_invalid, cs2_timeout, out_of_fuel,
}
use okam_ha_proxy.Prelude.Exec.{pure, raise, lift, require, ◌>>=◌, ◌>>◌}
use okam_ha_proxy.Cs2.World.{World}
use okam_ha_proxy.Cs2.State.{Session, Action, now, count_kind, command_kind}
use okam_ha_proxy.Cs2.Transfer.{write, read_exact, max_frame_bytes}
use okam_ha_proxy.Cs2.Commands.{
  LoginCode, positive, negative, make_cgi_request, read_header, parse_result,
}

-- `MAX_COMMAND_BYTES`, `LOGIN_RESPONSE_COMMAND`, and `AUTH_CANDIDATE_SECONDS` in milliseconds
abbrev pub max_command_bytes : ℕ
max_command_bytes = 1048576

abbrev pub login_response_command : ℕ
login_response_command = 0x6001

abbrev pub auth_candidate_time : ℕ
auth_candidate_time = 15000

-- `list(dict.fromkeys((("admin", device_password), ("admin", "888888"))))`
unfoldable pub login_candidates : Text → List (Text × Text)
login_candidates device_password =
    (codes "admin", device_password)
    ∷ (if equal device_password (codes "888888") then [] else (codes "admin", codes "888888") ∷ [])

-- The accepted credential, or the exception `CameraLoginRejected`, each with the results.
pub data Login : Type 0 where
  accepted : Text → Text → ℕ → List (Option LoginCode) → Login
  rejected : List (Option LoginCode) → Login

abbrev pub is_zero : Option LoginCode → Bool
is_zero (some (positive n)) = n == 0
is_zero (some (negative n)) = n == 0
is_zero none = false

abbrev pub result_of : Option (ℕ × LoginCode) → Option LoginCode
result_of none = none
result_of (some (command, result)) = some result

-- `except CS2Timeout: raise CS2Error(...)`
abbrev pub without_timeout : Result Bytes → Result Bytes
without_timeout (ok bytes) = ok bytes
without_timeout (err cs2_timeout) = err command_body_missing
without_timeout (err error) = err error

-- `payload[index : index + 3]` and the four bytes from there: where the NAL unit begins, behind it
abbrev pub nal_behind : Bytes → Bytes
nal_behind bytes =
    if equal (take 3 bytes) (0 ∷ 0 ∷ 1 ∷ [])
    then drop 3 bytes
    else if equal (take 4 bytes) (0 ∷ 0 ∷ 0 ∷ 1 ∷ [])
    then drop 4 bytes
    else []

abbrev pub mark_kind : ℕ → Bool × Bool → Bool × Bool
mark_kind kind (valid, keyframe) =
    if leb 1 kind && leb kind 12
    then (true, keyframe || kind == 5 || kind == 7)
    else (valid, keyframe)

abbrev pub mark_nal : Bytes → Bool × Bool → Bool × Bool
mark_nal [] marks = marks
mark_nal (byte ∷ bytes) marks = mark_kind (bit_and byte 31) marks

-- The loop of `inspect_h264` over the places of the payload.
unfoldable pub inspect_from : Bytes → Bool × Bool → Bool × Bool
inspect_from [] marks = marks
inspect_from (byte ∷ bytes) marks = inspect_from bytes (mark_nal (nal_behind (byte ∷ bytes)) marks)

-- `inspect_h264`: whether there is a valid NAL unit, and whether one begins a key frame
unfoldable pub inspect_h264 : Bytes → Bool × Bool
unfolding inspect_from
inspect_h264 payload = inspect_from payload (false, false)

unfoldable pub take_result :
    ℕ → Option LoginCode → Action (Option (ℕ × LoginCode)) → Action (Option (ℕ × LoginCode))
take_result command none next s = next s
take_result command (some result) next s = (ok (some (command, result)), s)

-- What `_read_response` does with a command: one that is not asked for, or has no result, is skipped.
unfoldable pub take_command :
    List ℕ
    → Result (ℕ × Bytes) × Session
    → Action (Option (ℕ × LoginCode))
    → Result (Option (ℕ × LoginCode)) × Session
unfolding take_result
take_command commands (ok (command, payload), s) next =
    if any (λ c. c == command) commands
    then take_result command (parse_result payload) next s
    else next s
take_command commands (err cs2_timeout, s) next = (ok none, s)
take_command commands (err error, s) next = (err error, s)

module _ (world : World) where
  unfoldable pub write_command : ℕ → Bytes → Action (Unit {0})
  write_command rounds request = do
    require (leb 8 (length request)) command_framing_invalid
    write world rounds 0 request 5000

  unfoldable pub read_body : ℕ → ℕ → ℕ → Action Bytes
  read_body rounds size timeout s =
      let (outcome, after) = read_exact world rounds 0 size timeout s in
      (without_timeout outcome, after)

  unfoldable pub read_command : ℕ → ℕ → Action (ℕ × Bytes)
  unfolding read_body read_header
  read_command rounds timeout = do
    began ← now world
    header ← read_exact world rounds 0 8 timeout
    (command, size) ← lift (read_header max_command_bytes header)
    count_kind (command_kind command)
    later ← now world
    payload ← read_body rounds size (began + timeout - later)
    pure (command, payload)

  -- `_read_response`, for at most the given number of commands.
  unfoldable pub read_response : ℕ → ℕ → List ℕ → ℕ → Action (Option (ℕ × LoginCode))
  unfolding read_command take_command
  read_response zero rounds commands deadline s = (err out_of_fuel, s)
  read_response (suc turns) rounds commands deadline s =
      let next = read_response turns rounds commands deadline in
      let time = world.monotonic s.clock_reads in
      let counted = record s { clock_reads = s.clock_reads + 1 } in
      if leb deadline time
      then (ok none, counted)
      else take_command commands (read_command rounds (deadline - time) counted) next

  -- One candidate of `authenticate_camera`: its result.
  unfoldable pub try_candidate : ℕ → ℕ → ℕ → Text × Text → Action (Option LoginCode)
  unfolding write_command read_response
  try_candidate turns rounds window (user, password) = do
    request ← lift (make_cgi_request (codes "get_status.cgi?name=admin&") user password)
    write_command rounds request
    answer ← read_response turns rounds (login_response_command ∷ []) window
    pure (result_of answer)

  -- A candidate whose time has not run out; `next` goes on with its result.
  unfoldable pub try_timely :
      ℕ
      → ℕ
      → ℕ
      → Bool
      → ℕ
      → Text × Text
      → List (Option LoginCode)
      → (List (Option LoginCode) → Action Login)
      → Action Login
  unfolding try_candidate
  try_timely turns rounds index true remaining credential attempts next = pure (rejected attempts)
  try_timely turns rounds index false remaining credential attempts next = do
    began ← now world
    result ← try_candidate turns rounds (began + min remaining auth_candidate_time) credential
    let tried = attempts ++ result ∷ []
    (if is_zero result then pure (accepted credential.0 credential.1 index tried) else next tried)

  unfoldable pub try_each :
      ℕ → ℕ → ℕ → ℕ → List (Text × Text) → List (Option LoginCode) → Action Login
  unfolding try_timely
  try_each turns rounds deadline index [] attempts = pure (rejected attempts)
  try_each turns rounds deadline index (credential ∷ rest) attempts = do
    time ← now world
    try_timely turns rounds index (leb deadline time) (deadline - time) credential attempts
        (try_each turns rounds deadline (index + 1) rest)

  -- `authenticate_camera`; `timeout` is in milliseconds
  unfoldable pub authenticate_camera : ℕ → ℕ → Text → ℕ → Action Login
  unfolding try_each login_candidates
  authenticate_camera turns rounds device_password timeout = do
    began ← now world
    try_each turns rounds (began + timeout) 0 (login_candidates device_password) []

  unfoldable pub read_video_frame : ℕ → ℕ → Action (Bytes × ℕ)
  read_video_frame rounds timeout = do
    header ← read_exact world rounds 1 32 timeout
    require (equal (take 4 header) (0x55 ∷ 0xaa ∷ 0x15 ∷ 0xa8 ∷ [])) video_framing_invalid
    let size = from_bytes_little (slice 16 20 header)
    require (ltb 0 size && leb size max_frame_bytes) video_frame_invalid
    payload ← read_exact world rounds 1 size timeout
    pure (payload, get_or header 4 0)
