-- ===== src/Live/Soundness/Events.antt =====
-- The pump and the other threads keep a session well formed, and so does every event, in any order.
use okam_ha_proxy.Prelude.{
  ℕ, zero, suc, ◌≤◌, Bool, true, false, List, [], ◌∷◌, ◌++◌, ◌≡◌, refl, ap, arith, Option, none,
  some, ◌==◌, length, Bool-cases, ◌⊎◌, inl, inr, any, Bytes, length-append, null,
}
use okam_ha_proxy.Live.State.{
  Session, Subscriber, Thread, Rest, Chunk, reads, ends, terminates, sleeps, set_state, has_active,
  open_session,
}
use okam_ha_proxy.Live.Queues.{put_into}
use okam_ha_proxy.Live.Pump.{
  pump_chunk, count_chunk, pump_end, parse_summary, restore_standby_media, only_passive,
  queues_of_active, drain_stderr,
}
use okam_ha_proxy.Live.Viewers.{close_subscription}
use okam_ha_proxy.Live.Threads.{
  Input, chunk, ended, exit_process, terminate, standby_round, pump_input, go_on, run_thread,
  run_targets, resume_found, after_round, split_thread, add_thread, Event, acquires, tries_again,
  releases, unsubscribes, takes, times_out, closes, reports, exits, resumes, resume, step, run,
}
use okam_ha_proxy.Live.Soundness.{
  IsSound, reader, readers, as_list, ensure_standby_thread-IsSound, release-IsSound, close-IsSound,
  stop_if_idle-IsSound, acquire-IsSound, acquire_turn-IsSound, open_session-IsSound,
}

-- The pump's end: only passive viewers are left, and the process is none.
has_active-only_passive : (us : List Subscriber) → has_active (only_passive us) ≡ false
unfolding has_active
has_active-only_passive [] = refl
has_active-only_passive (u ∷ us) = ground (arith, has_active-only_passive us)

pump_chunk-IsSound : (bs : Bytes) (s : Session) → IsSound s → IsSound (pump_chunk bs s)
unfolding pump_chunk count_chunk set_state
pump_chunk-IsSound bs s h = ground arith

pump_end-IsSound :
    (load : Bytes → Option (Option Bool)) (p : ℕ) (bad : Bool) (s : Session) (ts : List Thread)
    → IsSound s
    → s.process ≡ some p
    → s.running ≡ []
    → readers ts ≡ []
    → IsSound (record (pump_end load p bad s) { threads = ts })
unfolding pump_end restore_standby_media parse_summary set_state
pump_end-IsSound load p bad s ts h = ground (arith, has_active-only_passive s.subscribers)

exit_process-nil-or :
    (p : ℕ) (q : Option ℕ) (ps : List ℕ)
    → (ps ≡ []) ⊎ (ps ≡ as_list q)
    → (exit_process p ps ≡ []) ⊎ (exit_process p ps ≡ as_list q)
unfolding exit_process
exit_process-nil-or p q [] h = inl refl
exit_process-nil-or p none (r ∷ rs) h = ground arith
exit_process-nil-or p (some q) (r ∷ []) h = ground arith
exit_process-nil-or p (some q) (r ∷ r' ∷ rs) h = ground arith

exits-IsSound :
    (p : ℕ) (s : Session) → IsSound s → IsSound (record s { running = exit_process p s.running })
exits-IsSound p s h = ground (arith, exit_process-nil-or p s.process s.running)

terminate-IsSound : (p : Option ℕ) (s : Session) → IsSound s → IsSound (terminate p s)
unfolding terminate
terminate-IsSound none s h = h
terminate-IsSound (some p) s h = exits-IsSound p s h

front-reader :
    (r u : Rest) (others all : List ℕ)
    → reader r ++ others ≡ all
    → length (reader u ++ all) ≤ 1
    → reader r ++ (reader u ++ others) ≡ reader u ++ all
front-reader (reads p) (reads q) others all same few = absurd (ground arith)
front-reader ends u others all same few = ap (λ ps. reader u ++ ps) same
front-reader (terminates p) u others all same few = ap (λ ps. reader u ++ ps) same
front-reader sleeps u others all same few = ap (λ ps. reader u ++ ps) same
front-reader (reads p) ends others all same few = same
front-reader (reads p) (terminates q) others all same few = same
front-reader (reads p) sleeps others all same few = same

-- The thread at a place stands in front, or behind the others: the same processes are read.
readers-split_thread :
    (n : ℕ) (ts : List Thread) (t : Thread)
    → (split_thread n ts).0 ≡ some t
    → length (readers ts) ≤ 1
    → reader t.rest ++ readers (split_thread n ts).1 ≡ readers ts
unfolding split_thread
readers-split_thread n [] t found few = cc
readers-split_thread zero (u ∷ us) t found few = cc
readers-split_thread (suc n) (u ∷ us) t found few =
    let ih =
      readers-split_thread n us t found
        (omega (arith, length-append (reader u.rest) (readers us))) in
    front-reader t.rest u.rest _ _ ih few

few_as_list : (p : Option ℕ) → length (as_list p) ≤ 1
few_as_list none = omega arith
few_as_list (some p) = omega arith

few-readers : (s : Session) → IsSound s → length (readers s.threads) ≤ 1
few-readers s h = ground (arith, few_as_list s.process)

after_round-IsSound :
    (round : Option (List ℕ)) (s : Session)
    → IsSound s
    → IsSound (add_thread (after_round round s).0 (after_round round s).1)
unfolding after_round
after_round-IsSound none s h = ground arith
after_round-IsSound (some references) s h = ground arith

unsubscribe-IsSound :
    (already : Bool) (n reference : ℕ) (s : Session)
    → IsSound s
    → IsSound (close_subscription already n reference s)
unfolding close_subscription
unsubscribe-IsSound true n reference s h = h
unsubscribe-IsSound false n reference s h =
    release-IsSound n (record s { queues = put_into Chunk.stop reference s.queues }) (ground arith)

module _ (load : Bytes → Option (Option Bool)) where
  pump_input-IsSound :
      (p : ℕ) (input : Input) (s : Session) (t : Thread)
      → t.rest ≡ reads p
      → IsSound (record s { threads = t ∷ s.threads })
      → IsSound (add_thread (pump_input load p input s).0 (pump_input load p input s).1)
  unfolding pump_input
  pump_input-IsSound p (chunk []) s t e h = ground arith
  pump_input-IsSound p (chunk (b ∷ bs)) s t e h =
      let read = pump_chunk-IsSound (b ∷ bs) (record s { threads = t ∷ s.threads }) h in
      unfold pump_chunk count_chunk set_state in ground arith
  pump_input-IsSound p (ended bad) s t e h = elim (Bool-cases (any (λ q. q == p) s.running)) [
    | inl waits ↦ rw waits (ground arith)
    | inr exited ↦
        let left : Thread = record {
          targets = queues_of_active s.subscribers;
          value = Chunk.stop;
          rest = ends;
        } in
        rw exited (
          pump_end-IsSound load p bad (record s { threads = t ∷ s.threads }) (left ∷ s.threads) h
            (ground arith) (ground arith) (ground arith))
  ]

  go_on-IsSound :
      (rest : Rest) (input : Input) (s : Session) (t : Thread)
      → t.rest ≡ rest
      → IsSound (record s { threads = t ∷ s.threads })
      → IsSound (add_thread (go_on load rest input s).0 (go_on load rest input s).1)
  unfolding go_on
  go_on-IsSound (reads p) input s t e h = pump_input-IsSound p input s t e h
  go_on-IsSound ends input s t e h =
      let woken = ensure_standby_thread-IsSound s (ground arith) in
      elim (Bool-cases (null s.subscribers)) [
        | inl empty ↦ rw empty (ground arith)
        | inr others ↦ rw others (ground arith)
      ]
  go_on-IsSound (terminates p) input s t e h = terminate-IsSound p s (ground arith)
  go_on-IsSound sleeps input s t e h = after_round-IsSound (standby_round s) s (ground arith)

  run_targets-IsSound :
      (references : List ℕ) (t : Thread) (input : Input) (s : Session)
      → IsSound (record s { threads = t ∷ s.threads })
      → IsSound (
          add_thread
            (run_targets load references t input s).0
            (run_targets load references t input s).1)
  unfolding run_targets
  run_targets-IsSound [] t input s h = go_on-IsSound t.rest input s t refl h
  run_targets-IsSound (r ∷ rs) t input s h = ground arith

  resume_found-IsSound :
      (found : Option Thread) (others : List Thread) (input : Input) (s : Session)
      → IsSound s
      → ((t : Thread) → found ≡ some t → reader t.rest ++ readers others ≡ readers s.threads)
      → IsSound (resume_found load found others input s)
  unfolding resume_found run_thread
  resume_found-IsSound none others input s h same = h
  resume_found-IsSound (some t) others input s h same =
      run_targets-IsSound t.targets t input (record s { threads = others })
        (ground (arith, same t refl))

  resume-IsSound :
      (place : ℕ) (input : Input) (s : Session) → IsSound s → IsSound (resume load place input s)
  unfolding resume
  resume-IsSound place input s h =
      resume_found-IsSound (split_thread place s.threads).0 (split_thread place s.threads).1 input s
        h λ t found. readers-split_thread place s.threads t found (few-readers s h)

  step-IsSound : (s : Session) (e : Event) → IsSound s → IsSound (step load s e)
  unfolding step
  step-IsSound s (acquires passive n wake start) h = acquire-IsSound passive n wake start s h
  step-IsSound s (tries_again passive n wake start) h =
      acquire_turn-IsSound passive n wake start s h
  step-IsSound s (releases n) h = release-IsSound n s h
  step-IsSound s (unsubscribes already n reference) h = unsubscribe-IsSound already n reference s h
  step-IsSound s (takes reference) h = ground arith
  step-IsSound s times_out h = stop_if_idle-IsSound s h
  step-IsSound s closes h = close-IsSound s h
  step-IsSound s (reports line) h = unfold drain_stderr in ground arith
  step-IsSound s (exits p) h = exits-IsSound p s h
  step-IsSound s (resumes place input) h = resume-IsSound place input s h

  run_from-IsSound : (s : Session) (es : List Event) → IsSound s → IsSound (run load s es)
  unfolding run
  run_from-IsSound s [] h = h
  run_from-IsSound s (e ∷ es) h = run_from-IsSound (step load s e) es (step-IsSound s e h)

  -- A session is well formed after any events in any order: the helper process that the session
  -- holds is the only one that may run, exactly one thread reads its output, its phase is one of a
  -- session at work, and without a process it is one of a session at rest, in which no viewer waits
  -- for video; a closed session has no viewers and no idle timer.
  pub run-IsSound : (frame : Bytes) (es : List Event) → IsSound (run load (open_session frame) es)
  run-IsSound frame es = run_from-IsSound (open_session frame) es (open_session-IsSound frame)
