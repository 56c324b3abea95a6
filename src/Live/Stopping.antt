-- ===== src/Live/Stopping.antt =====
-- How a camera session comes to rest: a helper that has exited is always cleaned up behind.
use okam_ha_proxy.Prelude.{
  ℕ, zero, suc, Bool, true, false, List, [], ◌∷◌, ◌++◌, ◌≡◌, sym, ◌⊎◌, refl, ap, arith, Option,
  none, some, length, replicate, all, Bytes,
}
use mathlib.Core.Path.{subst}
use okam_ha_proxy.Live.State.{
  Session, Thread, Rest, reads, ends, terminates, sleeps, Chunk, set_state,
}
use okam_ha_proxy.Live.Pump.{pump_end, parse_summary, restore_standby_media}
use okam_ha_proxy.Live.Threads.{
  Event, resumes, exits, Input, ended, exit_process, run_targets, run_thread, resume, resume_found,
  split_thread, go_on, pump_input, step, run,
}
use okam_ha_proxy.Live.Soundness.{IsSound, reader, readers}

-- The thread that reads a process, and its place.
record Pump (ts : List Thread) (p : ℕ) : Type 0 where
  place : ℕ
  targets : List ℕ
  value : Chunk
  at_place :
      (split_thread place ts).0 ≡ some (record { targets = targets; value = value; rest = reads p })

Pump-behind : (t : Thread) (ts : List Thread) (p : ℕ) → Pump ts p → Pump (t ∷ ts) p
unfolding split_thread
Pump-behind t ts p h = record {
  place = suc h.place;
  targets = h.targets;
  value = h.value;
  at_place = h.at_place;
}

Pump-either :
    (t : Thread) (ts : List Thread) (p : ℕ) (r : Rest)
    → t.rest ≡ r
    → reader r ++ readers ts ≡ p ∷ []
    → (readers ts ≡ p ∷ [] → Pump ts p)
    → Pump (t ∷ ts) p
unfolding split_thread
Pump-either t ts p (reads q) e h behind = record {
  place = 0;
  targets = t.targets;
  value = t.value;
  at_place = ground arith;
}
Pump-either t ts p ends e h behind = Pump-behind t ts p (behind h)
Pump-either t ts p (terminates q) e h behind = Pump-behind t ts p (behind h)
Pump-either t ts p sleeps e h behind = Pump-behind t ts p (behind h)

find-Pump : (ts : List Thread) (p : ℕ) → readers ts ≡ p ∷ [] → Pump ts p
find-Pump [] p h = absurd (ground arith)
find-Pump (t ∷ ts) p h = Pump-either t ts p t.rest refl h (find-Pump ts p)

exit_process-own : (p : ℕ) (ps : List ℕ) → (ps ≡ []) ⊎ (ps ≡ p ∷ []) → exit_process p ps ≡ []
unfolding exit_process
exit_process-own p [] h = refl
exit_process-own p (q ∷ []) h = ground arith
exit_process-own p (q ∷ r ∷ rs) h = ground arith

-- The exit of a helper, and steps of threads: what happens with no viewer, timer or call.
abbrev pub is_internal : Event → Bool
is_internal (resumes place input) = true
is_internal (exits p) = true
is_internal _ = false

all_steps_internal : (n : ℕ) → all is_internal (replicate n (resumes 0 (ended true))) ≡ true
all_steps_internal zero = refl
all_steps_internal (suc n) = all_steps_internal n

module _ (load : Bytes → Option (Option Bool)) where
  -- A pump in front, of a process that has exited, puts its entries and cleans up.
  pump-cleans :
      (s : Session) (rs : List ℕ) (value : Chunk) (p : ℕ) (ts : List Thread)
      (queues : List (List Chunk))
      → s.running ≡ []
      → s.process ≡ some p
      → let after =
          run load
            (record s {
              threads = record { targets = rs; value = value; rest = reads p } ∷ ts;
              queues = queues;
            })
            (replicate (suc (length rs)) (resumes 0 (ended true))) in
        (after.process ≡ none) × (after.running ≡ [])
  unfolding run step resume split_thread resume_found run_thread run_targets go_on pump_input
      pump_end parse_summary restore_standby_media set_state
  pump-cleans s [] value p ts queues stopped own = ground arith
  pump-cleans s (r ∷ rs) value p ts queues stopped own = pump-cleans s rs value p ts _ stopped own

  -- A thread at a place goes on like one in front.
  run-front :
      (s : Session) (place : ℕ) (t : Thread) (input : Input) (es : List Event)
      → (split_thread place s.threads).0 ≡ some t
      → run load s (resumes place input ∷ es)
        ≡ run load
            (record s { threads = t ∷ (split_thread place s.threads).1 })
            (resumes 0 input ∷ es)
  unfolding run step resume split_thread resume_found
  run-front s place t input es found =
      ap (λ f. run load (resume_found load f (split_thread place s.threads).1 input s) es) found

  -- Whatever its viewers do, a session with a process can be brought to rest by the exit of that
  -- process and steps of the session's own threads: then it has no process, and none runs.
  pub comes_to_rest :
      (s : Session) (p : ℕ)
      → IsSound s
      → s.process ≡ some p
      → (es : List Event) × (all is_internal es ≡ true)
        × ((run load s es).process ≡ none)
        × ((run load s es).running ≡ [])
  comes_to_rest s p h own =
      let pump = find-Pump s.threads p (ground arith) in
      let stopped = record s { running = exit_process p s.running } in
      let steps = replicate (length pump.targets) (resumes 0 (ended true)) in
      let gone = exit_process-own p s.running (ground arith) in
      let clean =
        pump-cleans stopped pump.targets pump.value p (split_thread pump.place s.threads).1 s.queues
          gone own in
      let front = run-front stopped pump.place _ (ended true) steps pump.at_place in
      let rest =
        subst (λ (after : Session). (after.process ≡ none) × (after.running ≡ [])) (sym front)
          clean in
      unfold run in
      unfold step in
      (
        exits p ∷ resumes pump.place (ended true) ∷ steps,
        all_steps_internal (length pump.targets),
        rest.0,
        rest.1,
      )
