-- ===== src/Live/Viewers.antt =====
-- The methods of `NativeStreamSession` in src/okam_native/session.py that viewers and the idle timer
-- call: `acquire`, `release`, `close`, `_start_locked`, `_stop_if_idle`.
use okam_ha_proxy.Prelude.{
  ℕ, ◌+◌, Bool, true, false, not, ◌&&◌, ◌||◌, List, [], ◌∷◌, ◌++◌, Option, none, some, map, Bytes,
  ◌==◌, length, null, if◌then◌else◌,
}
use okam_ha_proxy.Prelude.Outcome.{
  Error, Result, ok, err, session_closed, starter_failed, pipes_unavailable,
}
use okam_ha_proxy.Live.Media.{
  preamble, session_lock_wait_begin, session_lock_acquired, session_start_begin,
  session_start_complete, native_start_begin, camera_live_failed,
}
use okam_ha_proxy.Live.State.{
  Session, Subscriber, Chunk, bytes, stop, reads, terminates, sleeps, note, set_state, is_running,
  has_active, standby, starting, authenticating, connected, stopping, failed,
}
use okam_ha_proxy.Live.Queues.{put_into}

-- `process is None`
abbrev pub is_none : Option ℕ → Bool
is_none none = true
is_none (some p) = false

-- What the starter gives: a process, a process without the pipes, or an exception.
pub data Start : Type 0 where
  started pipes_missing raised : Start

-- The fields that a new helper process starts with.
unfoldable pub clear_stream : Session → Session
clear_stream s = record s {
  stderr = [];
  clean_disconnect = none;
  last_error = none;
  media_ready = false;
  media = record {
    scan = [];
    sps = [];
    pps = [];
    keyframe = [];
    frame_count = 0;
    diagnostics = record s.media.diagnostics { seen = [] };
  };
  helper_stdout_bytes = 0;
  helper_stdout_chunks = 0;
}

-- The process runs, and its pump is a thread of its own.
unfoldable pub adopt_process : Session → Session
unfolding set_state
adopt_process s =
    let t =
      set_state connected (record s { process = some s.generation; cleanup_complete = false }) in
    record t {
      running = s.generation ∷ s.running;
      threads = s.threads ++ record { targets = []; value = stop; rest = reads s.generation } ∷ [];
    }

-- A process without pipes is killed at once, and never kept.
unfoldable pub start_locked : Start → Session → Result (Unit {0}) × Session
unfolding set_state clear_stream adopt_process
start_locked start s =
    let begun =
      note native_start_begin (set_state starting (record s { generation = s.generation + 1 })) in
    let asked = set_state authenticating (clear_stream begun) in
    elim start [
      | started ↦ (ok tt, adopt_process asked)
      | pipes_missing ↦ (err pipes_unavailable, set_state failed asked)
      | raised ↦ (err starter_failed, note camera_live_failed (set_state failed asked))
    ]

-- `_ensure_standby_thread_locked`
unfoldable pub ensure_standby_thread : Session → Session
ensure_standby_thread s =
    let starts = not (null s.standby_frame || s.closed || s.standby_thread) in
    record s {
      standby_thread = if starts then true else s.standby_thread;
      threads =
          if starts
          then s.threads ++ record { targets = []; value = stop; rest = sleeps } ∷ []
          else s.threads;
    }

abbrev pub first_chunks : Bytes → List Chunk
first_chunks [] = []
first_chunks (b ∷ bs) = bytes (b ∷ bs) ∷ []

-- A new viewer with a queue of its own, behind the others.
unfoldable pub add_viewer : Bool → ℕ → Session → Session
add_viewer passive identifier s = record s {
  queues = s.queues ++ first_chunks (preamble s.media) ∷ [];
  subscribers =
      s.subscribers
      ++ record { identifier = identifier; queue = length s.queues; passive = passive } ∷ [];
}

-- A passive viewer of a stopped camera sees the standby frame.
unfoldable pub show_standby : ℕ → Session → Session
unfolding set_state ensure_standby_thread
show_standby reference s =
    let t = set_state standby s in
    ensure_standby_thread
      (record t { queues = put_into (bytes s.standby_frame) reference t.queues })

unfoldable pub subscribe : Bool → ℕ → Session → Session
unfolding add_viewer show_standby
subscribe passive identifier s =
    let t = add_viewer passive identifier s in
    if passive && is_none t.process then show_standby (length s.queues) t else t

-- What one round of `acquire` under the lock comes to: a subscription with its queue, an exception,
-- or a wait for the cleanup of a process that has exited, after which the round is repeated.
pub data Turn : Type 0 where
  subscribed : ℕ → Turn
  refused : Error → Turn
  waits : Turn

unfoldable pub after_start : ℕ → Result (Unit {0}) × Session → Turn × Session
unfolding subscribe
after_start identifier (ok tt, s) =
    (subscribed (length s.queues), subscribe false identifier (note session_start_complete s))
after_start identifier (err error, s) = (refused error, s)

-- The camera is free: no process, or one that runs.
unfoldable pub admit : Bool → ℕ → Bool → Start → Session → Turn × Session
unfolding start_locked subscribe after_start
admit passive identifier wake start s =
    let t = record s { idle_timer = false } in
    if not passive && is_none t.process
    then after_start identifier
        (start_locked start (note session_start_begin (record t { wake_before_connect = wake })))
    else (subscribed (length t.queues), subscribe passive identifier t)

abbrev pub has_exited : Session → Bool
has_exited s = not (is_none s.process) && not (is_running s)

unfoldable pub acquire_turn : Bool → ℕ → Bool → Start → Session → Turn × Session
unfolding admit
acquire_turn passive identifier wake start s =
    let t = note session_lock_acquired s in
    if t.closed
    then (refused session_closed, t)
    else if has_exited t
    then (waits, t)
    else admit passive identifier wake start t

unfoldable pub acquire : Bool → ℕ → Bool → Start → Session → Turn × Session
unfolding acquire_turn
acquire passive identifier wake start s =
    acquire_turn passive identifier wake start (note session_lock_wait_begin s)

-- `_subscribers.pop(subscription_id, None)`
unfoldable pub without : ℕ → List Subscriber → List Subscriber
without identifier [] = []
without identifier (u ∷ us) = if u.identifier == identifier then us else u ∷ without identifier us

-- The idle timer starts when no active viewer is left.
unfoldable pub release : ℕ → Session → Session
unfolding without has_active
release identifier s =
    let left = without identifier s.subscribers in
    record s {
      subscribers = left;
      idle_timer = elim s.process [
        | none ↦ s.idle_timer
        | some p ↦ if has_active left || s.closed then s.idle_timer else true
      ];
    }

-- `StreamSubscription.close`, whose flag `_closed` says whether it was called before
unfoldable pub close_subscription : Bool → ℕ → ℕ → Session → Session
unfolding release
close_subscription already identifier reference s =
    if already
    then s
    else release identifier (record s { queues = put_into stop reference s.queues })

abbrev pub queues_of : List Subscriber → List ℕ
queues_of subscribers = map (λ u. u.queue) subscribers

-- `if process is not None and process.poll() is None: self._set_state_locked("STOPPING")`;
-- `set_state` of the phase that is there already changes nothing
unfoldable pub mark_stopping : Session → Session
unfolding set_state is_running
mark_stopping s = set_state (if is_running s then stopping else s.phase) s

-- The locked part of `close`; the thread then ends every viewer and terminates the process.
unfoldable pub close : Session → Session
unfolding mark_stopping
close s =
    let t = mark_stopping (record s { closed = true; idle_timer = false }) in
    record t {
      subscribers = [];
      threads =
          t.threads
          ++ record { targets = queues_of t.subscribers; value = stop; rest = terminates t.process }
            ∷ [];
    }

-- The callback of the idle timer; the thread then terminates the process.
unfoldable pub stop_if_idle : Session → Session
unfolding mark_stopping has_active
stop_if_idle s =
    let t = record s { idle_timer = false } in
    if has_active t.subscribers || t.closed
    then t
    else let stopped = mark_stopping t in
      record stopped {
        threads =
            stopped.threads
            ++ record { targets = []; value = stop; rest = terminates stopped.process } ∷ [];
      }
