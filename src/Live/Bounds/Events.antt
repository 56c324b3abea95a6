-- ===== src/Live/Bounds/Events.antt =====
-- Every event keeps a camera session bounded, so every run does.
use okam_ha_proxy.Prelude.{
  ℕ, Bool, true, false, List, [], ◌∷◌, refl, arith, Option, none, some, any, ◌==◌, null, Bool-cases,
  inl, inr, Bytes,
}
use okam_ha_proxy.Live.Media.{session_lock_wait_begin}
use okam_ha_proxy.Live.State.{
  Session, Thread, Rest, Chunk, note, open_session, set_state, reads, ends, terminates, sleeps,
}
use okam_ha_proxy.Live.Queues.{put_into}
use okam_ha_proxy.Live.Viewers.{
  acquire, ensure_standby_thread, release, close, mark_stopping, close_subscription,
}
use okam_ha_proxy.Live.Pump.{
  pump_chunk, count_chunk, pump_end, parse_summary, restore_standby_media, drain_stderr,
}
use okam_ha_proxy.Live.Threads.{
  Input, chunk, ended, standby_round, after_round, pump_input, go_on, run_targets, run_thread,
  resume_found, resume, add_thread, split_thread, Event, acquires, tries_again, releases,
  unsubscribes, takes, times_out, closes, reports, exits, resumes, step, run,
}
use okam_ha_proxy.Live.Bounds.{
  All-set, IsShort-get_or, put_into-IsShort, next_chunk-IsShort, note_media-scan_le,
  open_session-IsBounded, requeue, rebound, acquire_turn-IsBounded, stop_if_idle-IsBounded,
  drain_stderr-le, IsBounded,
}

after_round-IsBounded :
    (round : Option (List ℕ)) (s : Session)
    → IsBounded s
    → IsBounded (add_thread (after_round round s).0 (after_round round s).1)
unfolding after_round
after_round-IsBounded none s h = rebound s _ refl refl refl h
after_round-IsBounded (some references) s h = rebound s _ refl refl refl h

module _ (load : Bytes → Option (Option Bool)) where
  pump_input-IsBounded :
      (p : ℕ) (input : Input) (s : Session)
      → IsBounded s
      → IsBounded (add_thread (pump_input load p input s).0 (pump_input load p input s).1)
  unfolding pump_input pump_chunk count_chunk set_state pump_end parse_summary restore_standby_media
  pump_input-IsBounded p (chunk []) s h = rebound s _ refl refl refl h
  pump_input-IsBounded p (chunk (b ∷ bs)) s h = record {
    short_queues = h.short_queues;
    stderr_kept = h.stderr_kept;
    scan_kept = note_media-scan_le (b ∷ bs) _;
  }
  pump_input-IsBounded p (ended bad) s h = elim (Bool-cases (any (λ q. q == p) s.running)) [
    | inl waits ↦ rw waits (rebound s _ refl refl refl h)
    | inr exited ↦ rw exited record {
      short_queues = h.short_queues;
      stderr_kept = h.stderr_kept;
      scan_kept = omega arith;
    }
  ]

  go_on-IsBounded :
      (rest : Rest) (input : Input) (s : Session)
      → IsBounded s
      → IsBounded (add_thread (go_on load rest input s).0 (go_on load rest input s).1)
  unfolding go_on ensure_standby_thread
  go_on-IsBounded (reads p) input s h = pump_input-IsBounded p input s h
  go_on-IsBounded ends input s h = elim (Bool-cases (null s.subscribers)) [
    | inl empty ↦ rw empty (rebound s _ refl refl refl h)
    | inr others ↦ rw others (rebound s _ refl refl refl h)
  ]
  go_on-IsBounded (terminates none) input s h = rebound s _ refl refl refl h
  go_on-IsBounded (terminates (some p)) input s h = rebound s _ refl refl refl h
  go_on-IsBounded sleeps input s h = after_round-IsBounded (standby_round s) s h

  run_targets-IsBounded :
      (references : List ℕ) (t : Thread) (input : Input) (s : Session)
      → IsBounded s
      → IsBounded (
          add_thread
            (run_targets load references t input s).0
            (run_targets load references t input s).1)
  unfolding run_targets
  run_targets-IsBounded [] t input s h = go_on-IsBounded t.rest input s h
  run_targets-IsBounded (r ∷ rs) t input s h =
      let put = put_into-IsShort t.value r s.queues h.short_queues in
      rebound (record s { queues = put_into t.value r s.queues }) _ refl refl refl
        (requeue s _ h put)

  resume_found-IsBounded :
      (found : Option Thread) (others : List Thread) (input : Input) (s : Session)
      → IsBounded s
      → IsBounded (resume_found load found others input s)
  unfolding resume_found run_thread
  resume_found-IsBounded none others input s h = h
  resume_found-IsBounded (some t) others input s h =
      run_targets-IsBounded t.targets t input (record s { threads = others })
        (rebound s _ refl refl refl h)

  step-IsBounded : (s : Session) (e : Event) → IsBounded s → IsBounded (step load s e)
  unfolding step acquire release close mark_stopping set_state close_subscription drain_stderr
      resume
  step-IsBounded s (acquires passive n wake start) h =
      acquire_turn-IsBounded passive n wake start (note session_lock_wait_begin s)
        (rebound s _ refl refl refl h)
  step-IsBounded s (tries_again passive n wake start) h =
      acquire_turn-IsBounded passive n wake start s h
  step-IsBounded s (releases n) h = rebound s _ refl refl refl h
  step-IsBounded s (unsubscribes true n reference) h = h
  step-IsBounded s (unsubscribes false n reference) h =
      let put = put_into-IsShort Chunk.stop reference s.queues h.short_queues in
      rebound (record s { queues = put_into Chunk.stop reference s.queues }) _ refl refl refl
        (requeue s _ h put)
  step-IsBounded s (takes reference) h = requeue s _ h (
      All-set s.queues reference _ h.short_queues
        (next_chunk-IsShort _ (IsShort-get_or s.queues reference h.short_queues)))
  step-IsBounded s times_out h = stop_if_idle-IsBounded s h
  step-IsBounded s closes h = rebound s _ refl refl refl h
  step-IsBounded s (reports line) h = record {
    short_queues = h.short_queues;
    stderr_kept = drain_stderr-le line s.stderr h.stderr_kept;
    scan_kept = h.scan_kept;
  }
  step-IsBounded s (exits p) h = rebound s _ refl refl refl h
  step-IsBounded s (resumes place input) h =
      resume_found-IsBounded (split_thread place s.threads).0 (split_thread place s.threads).1 input
        s h

  run_from-IsBounded : (s : Session) (es : List Event) → IsBounded s → IsBounded (run load s es)
  unfolding run
  run_from-IsBounded s [] h = h
  run_from-IsBounded s (e ∷ es) h = run_from-IsBounded (step load s e) es (step-IsBounded s e h)

  -- After any events in any order every viewer's queue holds at most 32 entries, at most 64 KiB of
  -- the helper's error output are kept, and at most 4 MiB of video are kept for the next scan.
  pub run-IsBounded :
      (frame : Bytes) (es : List Event) → IsBounded (run load (open_session frame) es)
  run-IsBounded frame es = run_from-IsBounded (open_session frame) es (open_session-IsBounded frame)
