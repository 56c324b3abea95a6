-- ===== src/Live/Tests.antt =====
-- Runs of a camera session, and its theorems at concrete inputs.
use okam_ha_proxy.Prelude.{
  Bool, true, false, List, [], ◌∷◌, ◌++◌, ◌≡◌, refl, arith, Option, none, some, length, replicate,
  get_or, All, all, Bytes, equal, if◌then◌else◌,
}
use okam_ha_proxy.Live.Media.{record_unit, preamble, note_media, session_lock_wait_begin}
use okam_ha_proxy.Live.State.{
  Session, bytes, stop, reads, note, open_session, streaming, standby, idle,
}
use okam_ha_proxy.Live.Queues.{put_into}
use okam_ha_proxy.Live.Viewers.{started, raised, queues_of}
use okam_ha_proxy.Live.Threads.{
  Event, acquires, releases, times_out, closes, reports, exits, resumes, chunk, ended, run,
}
use okam_ha_proxy.Live.Soundness.{IsSound}
use okam_ha_proxy.Live.Soundness.Events.{run-IsSound}
use okam_ha_proxy.Live.Bounds.{IsBounded}
use okam_ha_proxy.Live.Bounds.Events.{run-IsBounded}
use okam_ha_proxy.Live.Acquiring.{CallAnswer, acquire_call, acquire_call-CallAnswer}
use okam_ha_proxy.Live.Viewing.{IsLast, pump-delivers}
use okam_ha_proxy.Live.Stopping.{is_internal, comes_to_rest}

-- A reader of summaries, which knows the line "T".
load : Bytes → Option (Option Bool)
load line = if equal line (84 ∷ []) then some (some true) else none

-- An access unit of parameter sets and a key frame, and the start of the next one.
abbrev video : Bytes
video = 0 ∷ 0 ∷ 1 ∷ 103 ∷ 0 ∷ 0 ∷ 1 ∷ 104 ∷ 0 ∷ 0 ∷ 1 ∷ 101 ∷ 9 ∷ 0 ∷ 0 ∷ 1 ∷ 65 ∷ []

abbrev watched : List Event
watched = acquires false 7 true started ∷ resumes 0 (chunk video) ∷ resumes 0 (chunk []) ∷ []

abbrev placeholder : Bytes
placeholder = 0 ∷ 0 ∷ 1 ∷ 101 ∷ []

-- The viewer has the video, and the next one starts with the parameter sets and the key frame.
video_shown :
    let s = run load (open_session []) watched in
    (s.phase ≡ streaming)
    × (s.queues ≡ (bytes video ∷ []) ∷ [])
    × (preamble s.media ≡ 0 ∷ 0 ∷ 1 ∷ 103 ∷ 0 ∷ 0 ∷ 1 ∷ 104 ∷ 0 ∷ 0 ∷ 1 ∷ 101 ∷ 9 ∷ [])
unfolding run open_session note_media preamble put_into record_unit
video_shown = (refl, refl, refl)

-- Viewer 7 leaves, the timer stops the helper, and its pump cleans up behind it.
abbrev stopped : List Event
stopped =
    watched
    ++ reports (84 ∷ 10 ∷ [])
      ∷ releases 7
      ∷ times_out
      ∷ resumes 1 (chunk [])
      ∷ resumes 0 (ended false)
      ∷ resumes 0 (chunk [])
      ∷ []

helper_ended :
    let s = run load (open_session []) stopped in
    (s.phase ≡ idle)
    × (s.process ≡ none)
    × (s.running ≡ [])
    × (s.threads ≡ [])
    × (s.clean_disconnect ≡ some true)
    × (s.last_error ≡ none)
unfolding run open_session note_media load
helper_ended = (refl, refl, refl, refl, refl, refl)

-- A passive viewer of a stopped camera gets the placeholder, by the standby thread again and again.
placeholder_shown :
    let s =
      run load
        (open_session placeholder)
        (acquires true 8 true started ∷ resumes 0 (chunk []) ∷ resumes 0 (chunk []) ∷ []) in
    (s.phase ≡ standby) × (s.queues ≡ (bytes placeholder ∷ bytes placeholder ∷ []) ∷ [])
unfolding run open_session note_media preamble put_into record_unit
placeholder_shown = (refl, refl)

-- The helper has exited and its pump has given the process up, but has not ended its viewers yet: a
-- new viewer starts the next helper, and then the old pump says that the cleanup is complete.
generations_overlap :
    let s = run load (open_session []) (
      acquires false 7 true started
      ∷ exits 1
      ∷ resumes 0 (ended true)
      ∷ acquires false 9 true started
      ∷ resumes 0 (chunk [])
      ∷ resumes 0 (chunk [])
      ∷ []) in
    (s.process ≡ some 2) × (s.running ≡ 2 ∷ []) × (s.cleanup_complete ≡ true)
unfolding run open_session load
generations_overlap = (refl, refl, refl)

run-IsSound_example : IsSound (run load (open_session []) stopped)
run-IsSound_example = run-IsSound load [] stopped

run-IsBounded_example : IsBounded (run load (open_session placeholder) watched)
run-IsBounded_example = run-IsBounded load placeholder watched

acquire_call-CallAnswer_example :
    CallAnswer load false 7 true raised
      ((true, closes ∷ []) ∷ [])
      (note session_lock_wait_begin (open_session []))
      (acquire_call load false 7 true raised ((true, closes ∷ []) ∷ []) (open_session []))
acquire_call-CallAnswer_example =
    acquire_call-CallAnswer load false 7 true raised ((true, closes ∷ []) ∷ []) (open_session [])

-- A session with the viewer 7, and what its pump reads.
one_viewer : Session
unfolding run
one_viewer = run load (open_session []) (acquires false 7 true started ∷ [])

pump-delivers_example :
    let before = record one_viewer {
      threads = record { targets = []; value = stop; rest = reads 1 } ∷ [];
    } in
    let after = run load before (
      resumes 0 (chunk video)
      ∷ replicate (length (queues_of one_viewer.subscribers)) (resumes 0 (chunk []))) in
    All (λ r. IsLast (bytes video) (get_or after.queues r [])) (queues_of one_viewer.subscribers)
    × (after.subscribers ≡ one_viewer.subscribers)
    × (after.threads ≡ record { targets = []; value = bytes video; rest = reads 1 } ∷ [])
unfolding one_viewer run open_session
pump-delivers_example =
    pump-delivers load one_viewer 1 stop [] 0
      (0 ∷ 1 ∷ 103 ∷ 0 ∷ 0 ∷ 1 ∷ 104 ∷ 0 ∷ 0 ∷ 1 ∷ 101 ∷ 9 ∷ 0 ∷ 0 ∷ 1 ∷ 65 ∷ []) (chunk [])
      (omega arith)

comes_to_rest_example :
    (es : List Event) × (all is_internal es ≡ true)
    × ((run load one_viewer es).process ≡ none)
    × ((run load one_viewer es).running ≡ [])
unfolding one_viewer run open_session
comes_to_rest_example =
    comes_to_rest load one_viewer 1 (run-IsSound load [] (acquires false 7 true started ∷ [])) refl
