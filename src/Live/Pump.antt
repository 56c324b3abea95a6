-- ===== src/Live/Pump.antt =====
-- The threads of a helper process in src/okam_native/session.py: `_pump`, which reads its video,
-- `_drain_stderr`, and the summary that it leaves on its error output.
use okam_ha_proxy.Prelude.{
  ℕ, ◌+◌, ◌-◌, ◌%◌, Bool, true, false, ◌&&◌, ◌||◌, List, [], ◌∷◌, ◌++◌, Option, none, some, codes,
  Bytes, ◌==◌, ltb, length, take, if◌then◌else◌,
}
use mathlib.Core.List.{reverse}
use okam_ha_proxy.Live.Media.{
  Diagnostics, diagnostic, note_media, first_helper_stdout_chunk, pump_first_chunk, pump_progress,
}
use okam_ha_proxy.Live.State.{
  Session, Subscriber, set_state, phase_code, has_passive, idle, standby, connected, streaming,
}

-- `MAX_RESPONSE_BYTES` of src/okam_native/p2p.py
abbrev pub max_stderr_bytes : ℕ
max_stderr_bytes = 65536

-- The diagnostic events of a chunk, by the number of chunks so far.
note_progress : ℕ → Diagnostics → Diagnostics
note_progress chunks d =
    let first =
      if chunks == 1
      then diagnostic pump_first_chunk (diagnostic first_helper_stdout_chunk d)
      else d in
    if chunks == 1 || chunks % 100 == 0 then diagnostic pump_progress first else first

unfoldable pub count_chunk : Bytes → Session → Session
unfolding note_progress
count_chunk chunk s = record s {
  helper_stdout_chunks = s.helper_stdout_chunks + 1;
  helper_stdout_bytes = s.helper_stdout_bytes + length chunk;
  media = record s.media {
    diagnostics = note_progress (s.helper_stdout_chunks + 1) s.media.diagnostics;
  };
}

-- What `_pump` does under the lock with a chunk that is not empty. (`set_state` of the phase that is
-- there already changes nothing.)
unfoldable pub pump_chunk : Bytes → Session → Session
unfolding count_chunk set_state
pump_chunk chunk s =
    let t = record (count_chunk chunk s) { media_ready = true } in
    let u =
      set_state (if phase_code t.phase == phase_code connected then streaming else t.phase) t in
    record u { media = note_media chunk u.media }

-- A chunk of the error output: no more than `MAX_RESPONSE_BYTES` are kept.
unfoldable pub drain_stderr : Bytes → Session → Session
drain_stderr chunk s =
    let remaining = max_stderr_bytes - length s.stderr in
    record s { stderr = if ltb 0 remaining then s.stderr ++ take remaining chunk else s.stderr }

-- `bytes.splitlines()`: a line ends at "\n", "\r" or "\r\n", and the last one need not end.
split_lines_onto : Bytes → Bytes → List Bytes
split_lines_onto [] [] = []
split_lines_onto (b ∷ bs) [] = (b ∷ bs) ∷ []
split_lines_onto line (b ∷ []) = if b == 10 || b == 13 then line ∷ [] else (line ++ b ∷ []) ∷ []
split_lines_onto line (b ∷ c ∷ rest) = elim (b == 13 && c == 10) [
  | true ↦ line ∷ split_lines_onto [] rest
  | false ↦ elim (b == 10 || b == 13) [
    | true ↦ line ∷ split_lines_onto [] (c ∷ rest)
    | false ↦ split_lines_onto (line ++ b ∷ []) (c ∷ rest)
  ]
]

unfoldable pub split_lines : Bytes → List Bytes
unfolding split_lines_onto
split_lines bs = split_lines_onto [] bs

abbrev pub queues_of_active : List Subscriber → List ℕ
queues_of_active [] = []
queues_of_active (u ∷ us) = if u.passive then queues_of_active us else u.queue ∷ queues_of_active us

abbrev pub only_passive : List Subscriber → List Subscriber
only_passive [] = []
only_passive (u ∷ us) = if u.passive then u ∷ only_passive us else only_passive us

-- `_restore_standby_media_locked`
unfoldable pub restore_standby_media : Session → Session
restore_standby_media s = record s {
  media = record s.media {
    scan = [];
    sps = s.standby_media.0;
    pps = s.standby_media.1;
    keyframe = s.standby_media.2;
  };
  media_ready = false;
}

-- `load` stands for `json.loads` of a line's text and the test for a dictionary with the key
-- "disconnected", whose value it gives: a Boolean, or something else.
module _ (load : Bytes → Option (Option Bool)) where
  -- The last such line, the lines in reverse order.
  unfoldable pub find_summary : List Bytes → Option (Option Bool)
  find_summary [] = none
  find_summary (line ∷ lines) = elim (load line) [
    | some value ↦ some value
    | none ↦ find_summary lines
  ]

  -- `_parse_summary_locked`; `bad` is `returncode != 0`
  unfoldable pub parse_summary : Bool → Session → Session
  unfolding find_summary split_lines
  parse_summary bad s = record s {
    clean_disconnect = elim (find_summary (reverse (split_lines s.stderr))) [
      | some (some value) ↦ some value
      | some none ↦ s.clean_disconnect
      | none ↦ s.clean_disconnect
    ];
    last_error = if bad then some (codes "native_stream_ended") else s.last_error;
  }

  -- What `_pump` does under the lock when the process has exited; `p` is that process.
  unfoldable pub pump_end : ℕ → Bool → Session → Session
  unfolding restore_standby_media parse_summary set_state has_passive
  pump_end p bad s =
      let kept = record s {
        subscribers = only_passive s.subscribers;
        process = elim s.process [ none ↦ none | some q ↦ if q == p then none else some q ];
      } in
      let parsed = parse_summary bad (restore_standby_media kept) in
      set_state (if has_passive parsed.subscribers then standby else idle) parsed
