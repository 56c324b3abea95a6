-- ===== src/Live/Media.antt =====
-- The parameter sets and the newest key frame of a stream, and the diagnostic events, after
-- `_note_media`, `_record_unit`, `_preamble` and `_diagnostic` of src/okam_native/session.py.
use okam_ha_proxy.Prelude.{
  ℕ, ◌+◌, ◌-◌, ◌%◌, bit_and, Bool, true, false, not, ◌&&◌, ◌||◌, List, [], ◌∷◌, ◌++◌, Bytes, equal,
  ◌==◌, ltb, leb, length, get_or, take, drop, slice, null, any, if◌then◌else◌,
}

-- The names of the diagnostic events.
pub data Event : Type 0 where
  session_lock_wait_begin session_lock_acquired session_start_begin session_start_complete : Event
  state_transition native_start_begin camera_live_failed : Event
  first_helper_stdout_chunk pump_first_chunk pump_progress : Event
  first_h264_sps first_h264_pps first_h264_idr h264_frame_progress : Event

abbrev pub event_code : Event → ℕ
event_code session_lock_wait_begin = 0
event_code session_lock_acquired = 1
event_code session_start_begin = 2
event_code session_start_complete = 3
event_code state_transition = 4
event_code native_start_begin = 5
event_code camera_live_failed = 6
event_code first_helper_stdout_chunk = 7
event_code pump_first_chunk = 8
event_code pump_progress = 9
event_code first_h264_sps = 10
event_code first_h264_pps = 11
event_code first_h264_idr = 12
event_code h264_frame_progress = 13

abbrev pub has_event : Event → List Event → Bool
has_event e es = any (λ d. event_code d == event_code e) es

-- The set `repeatable` of `_diagnostic`, of the events that the session itself emits.
unfoldable pub repeatable : Event → Bool
repeatable session_lock_wait_begin = true
repeatable session_lock_acquired = true
repeatable _ = false

-- `_diagnostic_events`, a set, and the events that were emitted, the last one first.
pub record Diagnostics : Type 0 where
  pub seen : List Event
  pub emitted : List Event

unfoldable pub diagnostic : Event → Diagnostics → Diagnostics
unfolding repeatable
diagnostic e d =
    if has_event e d.seen && not (repeatable e)
    then d
    else record { seen = if repeatable e then d.seen else e ∷ d.seen; emitted = e ∷ d.emitted }

abbrev pub annex_b_start : Bytes
annex_b_start = 0 ∷ 0 ∷ 1 ∷ []

abbrev pub max_preamble_bytes : ℕ
max_preamble_bytes = 1048576

abbrev pub max_scan_bytes : ℕ
max_scan_bytes = 4194304

-- `_scan`, `_sps`, `_pps`, `_keyframe`, `_h264_frame_count` and the diagnostic events.
pub record Media : Type 0 where
  pub scan : Bytes
  pub sps : Bytes
  pub pps : Bytes
  pub keyframe : Bytes
  pub frame_count : ℕ
  pub diagnostics : Diagnostics

abbrev emit : Event → Media → Media
emit e m = record m { diagnostics = diagnostic e m.diagnostics }

-- The places of `ANNEX_B_START` that `find` gives from `position` on, each search starting behind
-- the place found before.
unfoldable pub find_starts : ℕ → Bytes → List ℕ
find_starts position (a ∷ b ∷ c ∷ rest) = elim (a == 0 && b == 0 && c == 1) [
  | true ↦ position ∷ find_starts (position + 3) rest
  | false ↦ find_starts (position + 1) (b ∷ c ∷ rest)
]
find_starts position (a ∷ b ∷ []) = []
find_starts position (a ∷ []) = []
find_starts position [] = []

-- `unit[prefix] & 0x1F`, behind three or four bytes of a start code
abbrev prefix_length : Bytes → ℕ
prefix_length unit = if equal (take 4 unit) (0 ∷ 0 ∷ 0 ∷ 1 ∷ []) then 4 else 3

-- `frame_count == 1 or frame_count % 100 == 0`
frame_progress : Media → Media
frame_progress m =
    if m.frame_count == 1 || m.frame_count % 100 == 0 then emit h264_frame_progress m else m

record_kind : ℕ → Bytes → Media → Media
unfolding frame_progress
record_kind kind unit m =
    if kind == 7
    then emit first_h264_sps (record m { sps = unit })
    else if kind == 8
    then emit first_h264_pps (record m { pps = unit })
    else if kind == 5
    then frame_progress
        (emit first_h264_idr (record m { keyframe = unit; frame_count = m.frame_count + 1 }))
    else if kind == 1
    then frame_progress (record m { frame_count = m.frame_count + 1 })
    else m

unfoldable pub record_unit : Bytes → Media → Media
unfolding record_kind
record_unit unit m =
    if leb (length unit) 3 || ltb max_preamble_bytes (length unit)
    then m
    else if leb (length unit) (prefix_length unit)
    then m
    else record_kind (bit_and (get_or unit (prefix_length unit) 0) 31) unit m

-- `for begin, end in zip(starts, starts[1:]): self._record_unit(bytes(scan[begin:end]))`
unfoldable pub record_units : Bytes → List ℕ → Media → Media
record_units scan (begin ∷ end ∷ starts) m =
    record_units scan (end ∷ starts) (record_unit (slice begin end scan) m)
record_units scan (begin ∷ []) m = m
record_units scan [] m = m

abbrev pub last_start : List ℕ → ℕ
last_start [] = 0
last_start (start ∷ []) = start
last_start (start ∷ next ∷ starts) = last_start (next ∷ starts)

-- `scan.extend(chunk)`, and no more than the last `MAX_SCAN_BYTES` of it
unfoldable pub extend_scan : Bytes → Bytes → Bytes
extend_scan scan chunk =
    let extended = scan ++ chunk in
    if ltb max_scan_bytes (length extended)
    then drop (length extended - max_scan_bytes) extended
    else extended

unfoldable pub note_media : Bytes → Media → Media
unfolding extend_scan find_starts record_units
note_media chunk m =
    let extended = extend_scan m.scan chunk in
    let starts = find_starts 0 extended in
    let scanned = record m { scan = extended } in
    if ltb (length starts) 2
    then scanned
    else record (record_units extended starts scanned) { scan = drop (last_start starts) extended }

-- What a new viewer is sent first.
unfoldable pub preamble : Media → Bytes
preamble m =
    if null m.sps || null m.pps
    then []
    else let joined = m.sps ++ m.pps ++ m.keyframe in
      if leb (length joined) max_preamble_bytes then joined else []
