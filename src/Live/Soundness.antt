-- ===== src/Live/Soundness.antt =====
-- The well-formedness of a camera session that every event keeps, whatever the order in which the
-- viewers, the timer and the threads come: the parts of the state that decide about processes.
pub mod Events
use okam_ha_proxy.Prelude.{
  ℕ, zero, suc, ◌+◌, ◌≤◌, Bool, true, false, not, ◌&&◌, ◌||◌, List, [], ◌∷◌, ◌++◌, append_assoc,
  append-nil, ◌≡◌, ◌≢◌, refl, arith, Option, none, some, ◌==◌, length, All, Bool-cases,
  Option-cases, ◌⊎◌, inl, inr, any, if◌then◌else◌, Bytes,
}
use okam_ha_proxy.Live.State.{
  Phase, Session, Subscriber, Thread, Rest, Chunk, reads, ends, terminates, sleeps, set_state,
  is_running, has_active, has_passive, idle, standby, starting, authenticating, connected,
  streaming, stopping, failed, phase_code, note, open_session,
}
use okam_ha_proxy.Live.Queues.{put_into}
use okam_ha_proxy.Live.Media.{
  session_lock_acquired, session_start_begin, session_start_complete, session_lock_wait_begin,
}
use okam_ha_proxy.Live.Pump.{
  pump_chunk, count_chunk, pump_end, parse_summary, restore_standby_media, only_passive,
}
use okam_ha_proxy.Live.Viewers.{
  Start, started, pipes_missing, raised, acquire, acquire_turn, admit, start_locked, subscribe,
  add_viewer, release, without, close, stop_if_idle, is_none, after_start, queues_of, mark_stopping,
  clear_stream, close_subscription, ensure_standby_thread, show_standby, adopt_process,
}

-- The processes whose output is read.
abbrev pub reader : Rest → List ℕ
reader (reads p) = p ∷ []
reader ends = []
reader (terminates p) = []
reader sleeps = []

abbrev pub readers : List Thread → List ℕ
readers [] = []
readers (t ∷ ts) = reader t.rest ++ readers ts

abbrev pub as_list : Option ℕ → List ℕ
as_list none = []
as_list (some p) = p ∷ []

-- The phases of a session without a process, and with one.
abbrev pub is_at_rest : Phase → Bool
is_at_rest phase = phase_code phase == 0 || phase_code phase == 1 || phase_code phase == 7

abbrev pub is_at_work : Phase → Bool
is_at_work phase = phase_code phase == 4 || phase_code phase == 5 || phase_code phase == 6

abbrev pub phase_fits : Option ℕ → Phase → Bool
phase_fits none phase = is_at_rest phase
phase_fits (some p) phase = is_at_work phase

-- A session whose process is none has no process that runs, and no viewer who waits for video.
pub record IsSound (s : Session) : Type 0 where
  pub one_process : (s.running ≡ []) ⊎ (s.running ≡ as_list s.process)
  pub one_pump : readers s.threads ≡ as_list s.process
  pub phase_of_process : phase_fits s.process s.phase ≡ true
  pub served : s.process ≡ none → has_active s.subscribers ≡ false
  pub closed_empty : s.closed ≡ true → s.subscribers ≡ []
  pub closed_quiet : s.closed ≡ true → s.idle_timer ≡ false

pub readers-append : (ts us : List Thread) → readers (ts ++ us) ≡ readers ts ++ readers us
readers-append [] us = refl
readers-append (t ∷ ts) us = simp (readers-append ts us, append_assoc)

-- A thread that reads no process changes nothing.
pub readers-append-other :
    (ts : List Thread) (t : Thread) → reader t.rest ≡ [] → readers (ts ++ t ∷ []) ≡ readers ts
readers-append-other ts t other = rw (readers-append ts (t ∷ []), other) (append-nil (readers ts))

pub open_session-IsSound : (frame : Bytes) → IsSound (open_session frame)
unfolding open_session has_active
open_session-IsSound frame = ground arith

has_active-without :
    (n : ℕ) (us : List Subscriber) → has_active us ≡ false → has_active (without n us) ≡ false
unfolding has_active without
has_active-without n [] h = refl
has_active-without n (u ∷ us) h = ground (arith, has_active-without n us)

pub release-IsSound : (n : ℕ) (s : Session) → IsSound s → IsSound (release n s)
unfolding release
release-IsSound n s h = ground (arith, has_active-without n s.subscribers)

pub set_phase-IsSound :
    (phase : Phase) (s : Session)
    → phase_fits s.process phase ≡ true
    → IsSound s
    → IsSound (set_state phase s)
unfolding set_state
set_phase-IsSound phase s fits h = ground arith

pub ensure_standby_thread-IsSound : (s : Session) → IsSound s → IsSound (ensure_standby_thread s)
unfolding ensure_standby_thread
ensure_standby_thread-IsSound s h = ground (
  arith,
  readers-append-other s.threads (record { targets = []; value = Chunk.stop; rest = sleeps }) refl,
)

has_active-append :
    (us vs : List Subscriber) → has_active (us ++ vs) ≡ (has_active us || has_active vs)
unfolding has_active
has_active-append [] vs = refl
has_active-append (u ∷ us) vs = ground (arith, has_active-append us vs)

add_viewer-IsSound :
    (passive : Bool) (n : ℕ) (s : Session)
    → IsSound s
    → s.closed ≡ false
    → (s.process ≡ none → passive ≡ true)
    → IsSound (add_viewer passive n s)
unfolding add_viewer has_active
add_viewer-IsSound passive n s h live allowed =
    let new : Subscriber = record { identifier = n; queue = length s.queues; passive = passive } in
    ground (arith, has_active-append s.subscribers (new ∷ []))

show_standby-IsSound :
    (reference : ℕ) (s : Session)
    → IsSound s
    → s.process ≡ none
    → IsSound (show_standby reference s)
unfolding show_standby set_state
show_standby-IsSound reference s h free =
    let t = set_state standby s in
    ensure_standby_thread-IsSound
      (record t { queues = put_into (Chunk.bytes s.standby_frame) reference t.queues })
      (ground arith)

pub subscribe-IsSound :
    (passive : Bool) (n : ℕ) (s : Session)
    → IsSound s
    → s.closed ≡ false
    → (s.process ≡ none → passive ≡ true)
    → IsSound (subscribe passive n s)
unfolding subscribe add_viewer
subscribe-IsSound passive n s h live allowed =
    let grown = add_viewer-IsSound passive n s h live allowed in
    elim (Bool-cases (passive && is_none s.process)) [
      | inl shown ↦
          rw shown
            (show_standby-IsSound (length s.queues) (add_viewer passive n s) grown (ground arith))
      | inr other ↦ rw other grown
    ]

pub start_locked-IsSound :
    (start : Start) (s : Session) → IsSound s → s.process ≡ none → IsSound (start_locked start s).1
unfolding start_locked adopt_process set_state clear_stream
start_locked-IsSound started s h free = ground (
  arith,
  readers-append s.threads
      (record { targets = []; value = Chunk.stop; rest = reads (s.generation + 1) } ∷ []),
)
start_locked-IsSound pipes_missing s h free = ground arith
start_locked-IsSound raised s h free = ground arith

pub close-IsSound : (s : Session) → IsSound s → IsSound (close s)
unfolding close mark_stopping set_state has_active
close-IsSound s h = ground (
  arith,
  readers-append-other s.threads
      (record {
        targets = queues_of s.subscribers;
        value = Chunk.stop;
        rest = terminates s.process;
      })
      refl,
)

pub stop_if_idle-IsSound : (s : Session) → IsSound s → IsSound (stop_if_idle s)
unfolding stop_if_idle mark_stopping set_state
stop_if_idle-IsSound s h = ground (
  arith,
  readers-append-other s.threads
      (record { targets = []; value = Chunk.stop; rest = terminates s.process }) refl,
)

after_start-IsSound :
    (n : ℕ) (start : Start) (s : Session)
    → IsSound s
    → s.closed ≡ false
    → s.process ≡ none
    → IsSound (after_start n (start_locked start s)).1
unfolding after_start start_locked adopt_process set_state clear_stream
after_start-IsSound n started s h live free =
    let begun = start_locked-IsSound started s h free in
    subscribe-IsSound false n (note session_start_complete (start_locked started s).1)
      (ground arith) live (λ gone. cc)
after_start-IsSound n pipes_missing s h live free = start_locked-IsSound pipes_missing s h free
after_start-IsSound n raised s h live free = start_locked-IsSound raised s h free

pub admit-IsSound :
    (passive : Bool) (n : ℕ) (wake : Bool) (start : Start) (s : Session)
    → IsSound s
    → s.closed ≡ false
    → IsSound (admit passive n wake start s).1
unfolding admit
admit-IsSound passive n wake start s h live = elim (Bool-cases (not passive && is_none s.process)) [
  | inl starts ↦
      let ready =
        note session_start_begin (record s { idle_timer = false; wake_before_connect = wake }) in
      rw starts (after_start-IsSound n start ready (ground arith) live (ground arith))
  | inr joins ↦ rw joins (
      subscribe-IsSound passive n (record s { idle_timer = false }) (ground arith) live
        (ground arith))
]

pub acquire_turn-IsSound :
    (passive : Bool) (n : ℕ) (wake : Bool) (start : Start) (s : Session)
    → IsSound s
    → IsSound (acquire_turn passive n wake start s).1
unfolding acquire_turn
acquire_turn-IsSound passive n wake start s h =
    ground (arith, admit-IsSound passive n wake start (note session_lock_acquired s))

pub acquire-IsSound :
    (passive : Bool) (n : ℕ) (wake : Bool) (start : Start) (s : Session)
    → IsSound s
    → IsSound (acquire passive n wake start s).1
unfolding acquire
acquire-IsSound passive n wake start s h =
    acquire_turn-IsSound passive n wake start (note session_lock_wait_begin s) (ground arith)
