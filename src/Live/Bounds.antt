-- ===== src/Live/Bounds.antt =====
-- What a camera session holds in memory stays bounded: the viewers' queues, the error output of the
-- helper, the bytes kept for the next scan, and what a new viewer is sent.
pub mod Events
use okam_ha_proxy.Prelude.{
  ℕ, zero, suc, ◌-◌, ◌≤◌, Bool, true, false, not, ◌&&◌, ◌||◌, List, [], ◌∷◌, ◌++◌, ◌≡◌, refl, arith,
  Option, none, some, ltb, length, take, get_or, set, All, All-append, length-append, length-take,
  length-drop, any, ◌==◌, null, Bool-cases, inl, inr, if◌then◌else◌, Bytes,
}
use okam_ha_proxy.Live.Media.{
  Media, max_scan_bytes, max_preamble_bytes, extend_scan, annex_b_start, session_lock_acquired,
  session_lock_wait_begin, session_start_begin, session_start_complete, note_media, find_starts,
  last_start, preamble,
}
use okam_ha_proxy.Live.State.{
  Session, Thread, Rest, Chunk, no_media, note, has_active, open_session, set_state, reads, ends,
  terminates, sleeps,
}
use okam_ha_proxy.Live.Queues.{max_queue, put_chunk, put_into, next_chunk}
use okam_ha_proxy.Live.Viewers.{
  Turn, Start, started, pipes_missing, raised, acquire, acquire_turn, admit, after_start,
  start_locked, subscribe, add_viewer, show_standby, ensure_standby_thread, adopt_process,
  clear_stream, release, close, stop_if_idle, mark_stopping, close_subscription, first_chunks,
  is_none, has_exited,
}
use okam_ha_proxy.Live.Pump.{
  pump_chunk, count_chunk, pump_end, parse_summary, restore_standby_media, drain_stderr,
  max_stderr_bytes,
}
use okam_ha_proxy.Live.Threads.{
  Input, chunk, ended, standby_round, after_round, pump_input, go_on, run_targets, run_thread,
  resume_found, resume, add_thread, split_thread, Event, acquires, tries_again, releases,
  unsubscribes, takes, times_out, closes, reports, exits, resumes, step, run,
}

pub put_chunk-length-le :
    (value : Chunk) (q : List Chunk) → length q ≤ max_queue → length (put_chunk value q) ≤ max_queue
unfolding put_chunk
put_chunk-length-le value [] h = omega arith
put_chunk-length-le value (c ∷ q) h =
    ground (arith, length-append (c ∷ q) (value ∷ []), length-append q (value ∷ []))

abbrev IsShort : List Chunk → Type 0
IsShort q = length q ≤ max_queue

pub All-set :
    (qs : List (List Chunk)) (r : ℕ) (q : List Chunk)
    → All IsShort qs
    → IsShort q
    → All IsShort (set qs r q)
All-set [] r q h k = tt
All-set (p ∷ qs) zero q h k = (k, h.1)
All-set (p ∷ qs) (suc r) q h k = (h.0, All-set qs r q h.1 k)

pub IsShort-get_or : (qs : List (List Chunk)) (r : ℕ) → All IsShort qs → IsShort (get_or qs r [])
IsShort-get_or [] r h = omega arith
IsShort-get_or (p ∷ qs) zero h = h.0
IsShort-get_or (p ∷ qs) (suc r) h = IsShort-get_or qs r h.1

pub put_into-IsShort :
    (value : Chunk) (r : ℕ) (qs : List (List Chunk))
    → All IsShort qs
    → All IsShort (put_into value r qs)
unfolding put_into
put_into-IsShort value r qs h =
    All-set qs r (put_chunk value (get_or qs r [])) h
      (put_chunk-length-le value (get_or qs r []) (IsShort-get_or qs r h))

pub next_chunk-IsShort : (q : List Chunk) → IsShort q → IsShort (next_chunk q).1
unfolding next_chunk
next_chunk-IsShort [] h = h
next_chunk-IsShort (c ∷ q) h = omega arith

extend_scan-le : (scan bs : Bytes) → length (extend_scan scan bs) ≤ max_scan_bytes
unfolding extend_scan
extend_scan-le scan bs =
    ground (arith, length-drop (length (scan ++ bs) - max_scan_bytes) (scan ++ bs))

pub note_media-scan_le : (bs : Bytes) (m : Media) → length (note_media bs m).scan ≤ max_scan_bytes
unfolding note_media
note_media-scan_le bs m =
    let extended = extend_scan m.scan bs in
    ground
      (arith, extend_scan-le m.scan bs, length-drop (last_start (find_starts 0 extended)) extended)

-- What a new viewer is sent is no more than 1 MiB.
pub preamble-le : (m : Media) → length (preamble m) ≤ max_preamble_bytes
unfolding preamble
preamble-le m = ground arith

pub record IsBounded (s : Session) : Type 0 where
  pub short_queues : All IsShort s.queues
  pub stderr_kept : length s.stderr ≤ max_stderr_bytes
  pub scan_kept : length s.media.scan ≤ max_scan_bytes

pub open_session-IsBounded : (frame : Bytes) → IsBounded (open_session frame)
unfolding open_session
open_session-IsBounded frame = ground (arith, note_media-scan_le (frame ++ annex_b_start) no_media)

-- Only the queues change.
pub requeue :
    (s : Session) (qs : List (List Chunk))
    → IsBounded s
    → All IsShort qs
    → IsBounded (record s { queues = qs })
requeue s qs h short = record {
  short_queues = short;
  stderr_kept = h.stderr_kept;
  scan_kept = h.scan_kept;
}

first_chunks-IsShort : (bs : Bytes) → IsShort (first_chunks bs)
first_chunks-IsShort [] = omega arith
first_chunks-IsShort (b ∷ bs) = omega arith

subscribe-IsBounded :
    (passive : Bool) (n : ℕ) (s : Session) → IsBounded s → IsBounded (subscribe passive n s)
unfolding subscribe add_viewer show_standby set_state ensure_standby_thread
subscribe-IsBounded passive n s h =
    let new = first_chunks (preamble s.media) in
    let grown =
      All-append IsShort s.queues (new ∷ []) h.short_queues
        (first_chunks-IsShort (preamble s.media), tt) in
    elim (Bool-cases (passive && is_none s.process)) [
      | inl shown ↦ rw shown record {
        short_queues =
            put_into-IsShort (Chunk.bytes s.standby_frame) (length s.queues) (s.queues ++ new ∷ [])
              grown;
        stderr_kept = h.stderr_kept;
        scan_kept = h.scan_kept;
      }
      | inr other ↦
          rw other
            record { short_queues = grown; stderr_kept = h.stderr_kept; scan_kept = h.scan_kept }
    ]

after_start-IsBounded :
    (n : ℕ) (start : Start) (s : Session)
    → IsBounded s
    → IsBounded (after_start n (start_locked start s)).1
unfolding after_start start_locked adopt_process set_state clear_stream
after_start-IsBounded n started s h =
    subscribe-IsBounded false n (note session_start_complete (start_locked started s).1)
      record { short_queues = h.short_queues; stderr_kept = omega arith; scan_kept = omega arith }
after_start-IsBounded n pipes_missing s h = record {
  short_queues = h.short_queues;
  stderr_kept = omega arith;
  scan_kept = omega arith;
}
after_start-IsBounded n raised s h = record {
  short_queues = h.short_queues;
  stderr_kept = omega arith;
  scan_kept = omega arith;
}

pub rebound :
    (s t : Session)
    → s.queues ≡ t.queues
    → s.stderr ≡ t.stderr
    → s.media.scan ≡ t.media.scan
    → IsBounded s
    → IsBounded t
rebound s t q e m h = record {
  short_queues = rw (← q) h.short_queues;
  stderr_kept = rw (← e) h.stderr_kept;
  scan_kept = rw (← m) h.scan_kept;
}

admit-IsBounded :
    (passive : Bool) (n : ℕ) (wake : Bool) (start : Start) (s : Session)
    → IsBounded s
    → IsBounded (admit passive n wake start s).1
unfolding admit
admit-IsBounded passive n wake start s h = elim (Bool-cases (not passive && is_none s.process)) [
  | inl starts ↦ rw starts (
      after_start-IsBounded n start
        (note session_start_begin (record s { idle_timer = false; wake_before_connect = wake }))
        (rebound s _ refl refl refl h))
  | inr joins ↦ rw joins (
      subscribe-IsBounded passive n (record s { idle_timer = false })
        (rebound s _ refl refl refl h))
]

branch-IsBounded :
    (b : Bool) (x y : Turn × Session)
    → IsBounded x.1
    → IsBounded y.1
    → IsBounded (if b then x else y).1
branch-IsBounded true x y h k = h
branch-IsBounded false x y h k = k

pub acquire_turn-IsBounded :
    (passive : Bool) (n : ℕ) (wake : Bool) (start : Start) (s : Session)
    → IsBounded s
    → IsBounded (acquire_turn passive n wake start s).1
unfolding acquire_turn
acquire_turn-IsBounded passive n wake start s h =
    let t = note session_lock_acquired s in
    let same = rebound s t refl refl refl h in
    branch-IsBounded s.closed _ _ same
      (branch-IsBounded (has_exited t) _ _ same (admit-IsBounded passive n wake start t same))

pub stop_if_idle-IsBounded : (s : Session) → IsBounded s → IsBounded (stop_if_idle s)
unfolding stop_if_idle mark_stopping set_state
stop_if_idle-IsBounded s h = elim (Bool-cases (has_active s.subscribers || s.closed)) [
  | inl busy ↦ rw busy (rebound s _ refl refl refl h)
  | inr idle_now ↦ rw idle_now (rebound s _ refl refl refl h)
]

pub drain_stderr-le :
    (bs kept : Bytes)
    → length kept ≤ max_stderr_bytes
    → length (
        if ltb 0 (max_stderr_bytes - length kept)
        then kept ++ take (max_stderr_bytes - length kept) bs
        else kept)
      ≤ max_stderr_bytes
drain_stderr-le bs kept h = ground (
  arith,
  length-append kept (take (max_stderr_bytes - length kept) bs),
  length-take (max_stderr_bytes - length kept) bs,
)
