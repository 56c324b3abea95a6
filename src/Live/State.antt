-- ===== src/Live/State.antt =====
-- The fields of `NativeStreamSession` in src/okam_native/session.py, the queues and helper
-- processes that it works with, `__init__`, and the fields that are only read.
use okam_ha_proxy.Prelude.{
  ℕ, Bool, true, false, not, ◌&&◌, List, [], ◌++◌, Option, none, some, Text, Bytes, ◌==◌, length,
  any, null, if◌then◌else◌,
}
use okam_ha_proxy.Live.Media.{
  Event, Media, Diagnostics, annex_b_start, diagnostic, note_media, state_transition,
}

-- `_state`
pub data Phase : Type 0 where
  idle standby starting authenticating connected streaming stopping failed : Phase

abbrev pub phase_code : Phase → ℕ
phase_code idle = 0
phase_code standby = 1
phase_code starting = 2
phase_code authenticating = 3
phase_code connected = 4
phase_code streaming = 5
phase_code stopping = 6
phase_code failed = 7

-- An entry of a viewer's queue: bytes, or the mark `_END`.
pub data Chunk : Type 0 where
  bytes : Bytes → Chunk
  stop : Chunk

-- An entry of `_subscribers`: the identifier, the queue, and whether the viewer is passive. A queue
-- is shared by reference: `queue` is its place in `queues`.
pub record Subscriber : Type 0 where
  pub identifier : ℕ
  pub queue : ℕ
  pub passive : Bool

-- What a thread does next outside the lock: entries that it still has to put into queues, and then
-- the rest of its code.
pub data Rest : Type 0 where
  -- the pump of this process reads its next chunk
  reads : ℕ → Rest
  -- the pump ends: the standby thread is started and the end of the cleanup told
  ends : Rest
  -- `_terminate(process)`
  terminates : Option ℕ → Rest
  -- the standby thread sleeps and checks again
  sleeps : Rest

pub record Thread : Type 0 where
  pub targets : List ℕ
  pub value : Chunk
  pub rest : Rest

pub record Session : Type 0 where
  pub closed : Bool
  pub phase : Phase
  -- a helper process is named by the generation that started it
  pub process : Option ℕ
  pub generation : ℕ
  pub cleanup_complete : Bool
  pub subscribers : List Subscriber
  -- whether an idle timer is set
  pub idle_timer : Bool
  pub stderr : Bytes
  pub clean_disconnect : Option Bool
  pub last_error : Option Text
  pub media_ready : Bool
  pub media : Media
  pub standby_frame : Bytes
  pub standby_media : Bytes × Bytes × Bytes
  pub wake_before_connect : Bool
  pub helper_stdout_bytes : ℕ
  pub helper_stdout_chunks : ℕ
  -- the processes that have not exited, the queues that were made, and the threads outside the lock
  pub running : List ℕ
  pub queues : List (List Chunk)
  pub threads : List Thread
  -- whether the standby thread lives
  pub standby_thread : Bool

abbrev pub no_events : Diagnostics
no_events = record { seen = []; emitted = [] }

abbrev pub no_media : Media
no_media = record {
  scan = [];
  sps = [];
  pps = [];
  keyframe = [];
  frame_count = 0;
  diagnostics = no_events;
}

abbrev blank : Bytes → Session
blank frame = record {
  closed = false;
  phase = idle;
  process = none;
  generation = 0;
  cleanup_complete = true;
  subscribers = [];
  idle_timer = false;
  stderr = [];
  clean_disconnect = none;
  last_error = none;
  media_ready = false;
  media = no_media;
  standby_frame = frame;
  standby_media = ([], [], []);
  wake_before_connect = true;
  helper_stdout_bytes = 0;
  helper_stdout_chunks = 0;
  running = [];
  queues = [];
  threads = [];
  standby_thread = false;
}

-- `NativeStreamSession(..., standby_frame=frame)`; the empty frame stands for None too
unfoldable pub open_session : Bytes → Session
open_session frame =
    if null frame
    then blank frame
    else let m = note_media (frame ++ annex_b_start) no_media in
      record (blank frame) {
        media = record m { frame_count = 0; diagnostics = record m.diagnostics { seen = [] } };
        standby_media = (m.sps, m.pps, m.keyframe);
      }

-- `self._diagnostic(event)`, which writes the diagnostic events only
abbrev pub note : Event → Session → Session
note e s = record s { media = record s.media { diagnostics = diagnostic e s.media.diagnostics } }

unfoldable pub set_state : Phase → Session → Session
set_state phase s = record s {
  phase = phase;
  media = record s.media {
    diagnostics =
        if phase_code s.phase == phase_code phase
        then s.media.diagnostics
        else diagnostic state_transition s.media.diagnostics;
  };
}

-- `process is not None and process.poll() is None`
unfoldable pub is_running : Session → Bool
is_running s = elim s.process [ none ↦ false | some p ↦ any (λ q. q == p) s.running ]

-- `_active_subscribers_locked()`, and whether a viewer is passive
unfoldable pub has_active : List Subscriber → Bool
has_active subscribers = any (λ u. not u.passive) subscribers

unfoldable pub has_passive : List Subscriber → Bool
has_passive subscribers = any (λ u. u.passive) subscribers

pub record SessionStatus : Type 0 where
  pub is_running : Bool
  pub viewers : ℕ
  pub clean_disconnect : Option Bool
  pub last_error : Option Text
  pub media_ready : Bool
  pub is_standby : Bool
  pub phase : Phase

unfoldable pub status : Session → SessionStatus
unfolding is_running has_passive
status s = record {
  is_running = is_running s;
  viewers = length s.subscribers;
  clean_disconnect = s.clean_disconnect;
  last_error = s.last_error;
  media_ready = s.media_ready;
  is_standby = not (is_running s) && has_passive s.subscribers;
  phase = s.phase;
}

unfoldable pub parameter_sets : Session → Bytes × Bytes
parameter_sets s = (s.media.sps, s.media.pps)
