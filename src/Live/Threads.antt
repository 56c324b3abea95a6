-- ===== src/Live/Threads.antt =====
-- The threads of a session, src/okam_native/session.py: what each does outside the lock, entry by
-- entry, and the events that may come in any order.
use okam_ha_proxy.Prelude.{
  ℕ, zero, suc, Bool, true, false, ◌||◌, List, [], ◌∷◌, Option, none, some, Bytes, ◌==◌, any,
  get_or, set, null, if◌then◌else◌,
}
use okam_ha_proxy.Live.State.{
  Session, Subscriber, Thread, bytes, stop, Rest, reads, ends, terminates, sleeps, is_running,
}
use okam_ha_proxy.Live.Queues.{put_into, next_chunk}
use okam_ha_proxy.Live.Viewers.{
  Start, acquire, acquire_turn, release, close_subscription, close, stop_if_idle, queues_of,
  ensure_standby_thread,
}
use okam_ha_proxy.Live.Pump.{pump_chunk, pump_end, drain_stderr, queues_of_active}

-- What a thread gets from outside: a read of the helper's output, which is a chunk or, at its end,
-- whether the exit status is not 0; the other threads get nothing.
pub data Input : Type 0 where
  chunk : Bytes → Input
  ended : Bool → Input

-- The processes other than `p`.
unfoldable pub exit_process : ℕ → List ℕ → List ℕ
exit_process p [] = []
exit_process p (q ∷ qs) = if q == p then exit_process p qs else q ∷ exit_process p qs

-- `_terminate(process)`: it returns when the process has exited.
unfoldable pub terminate : Option ℕ → Session → Session
unfolding exit_process
terminate none s = s
terminate (some p) s = record s { running = exit_process p s.running }

-- The entries that the standby loop puts now; None ends the loop.
abbrev pub queues_of_passive : List Subscriber → List ℕ
queues_of_passive [] = []
queues_of_passive (u ∷ us) =
    if u.passive then u.queue ∷ queues_of_passive us else queues_of_passive us

unfoldable pub standby_round : Session → Option (List ℕ)
unfolding is_running
standby_round s =
    if s.closed || null s.standby_frame
    then none
    else if is_running s
    then some []
    else elim (queues_of_passive s.subscribers) [
      | [] ↦ none
      | reference ∷ references ↦ some (reference ∷ references)
    ]

-- The standby thread ends, or puts the frame into these queues and sleeps.
unfoldable pub after_round : Option (List ℕ) → Session → Option Thread × Session
after_round none s = (none, record s { standby_thread = false })
after_round (some references) s =
    (some (record { targets = references; value = bytes s.standby_frame; rest = sleeps }), s)

module _ (load : Bytes → Option (Option Bool)) where
  -- The end of the pump: a summary, the viewers that it ends, and what it does after them.
  unfoldable pub pump_input : ℕ → Input → Session → Option Thread × Session
  unfolding pump_chunk pump_end
  pump_input p (chunk []) s = (some (record { targets = []; value = stop; rest = reads p }), s)
  pump_input p (chunk (b ∷ bs)) s =
      let t = pump_chunk (b ∷ bs) s in
      (
        some (record { targets = queues_of t.subscribers; value = bytes (b ∷ bs); rest = reads p }),
        t,
      )
  pump_input p (ended bad) s =
      if any (λ q. q == p) s.running
      then (some (record { targets = []; value = stop; rest = reads p }), s)
      else (
        some (record { targets = queues_of_active s.subscribers; value = stop; rest = ends }),
        pump_end load p bad s,
      )

  -- The thread goes on behind its entries; None when it is over. `process.wait()` waits for the exit.
  unfoldable pub go_on : Rest → Input → Session → Option Thread × Session
  unfolding pump_input ensure_standby_thread terminate standby_round after_round
  go_on (reads p) input s = pump_input p input s
  go_on ends input s =
      let t = if null s.subscribers then s else ensure_standby_thread s in
      (none, record t { cleanup_complete = true })
  go_on (terminates process) input s = (none, terminate process s)
  go_on sleeps input s = after_round (standby_round s) s

  -- A thread puts its next entry, or goes on behind the last one.
  unfoldable pub run_targets : List ℕ → Thread → Input → Session → Option Thread × Session
  unfolding go_on
  run_targets [] t input s = go_on t.rest input s
  run_targets (reference ∷ references) t input s = (
    some (record t { targets = references }),
    record s { queues = put_into t.value reference s.queues },
  )

  unfoldable pub run_thread : Thread → Input → Session → Option Thread × Session
  unfolding run_targets
  run_thread t input s = run_targets t.targets t input s

-- The thread at a place, and the others.
unfoldable pub split_thread : ℕ → List Thread → Option Thread × List Thread
split_thread n [] = (none, [])
split_thread zero (t ∷ ts) = (some t, ts)
split_thread (suc n) (t ∷ ts) = let (found, others) = split_thread n ts in (found, t ∷ others)

abbrev pub add_thread : Option Thread → Session → Session
add_thread none s = s
add_thread (some t) s = record s { threads = t ∷ s.threads }

pub data Event : Type 0 where
  -- a call of `acquire`, and the rounds that follow a wait: passive, identifier, wake, start
  acquires : Bool → ℕ → Bool → Start → Event
  tries_again : Bool → ℕ → Bool → Start → Event
  -- `release`, and `StreamSubscription.close`: closed before, identifier, queue
  releases : ℕ → Event
  unsubscribes : Bool → ℕ → ℕ → Event
  -- a viewer takes an entry of a queue
  takes : ℕ → Event
  times_out closes : Event
  -- the helper writes on its error output, or exits by itself
  reports : Bytes → Event
  exits : ℕ → Event
  -- the thread at this place takes its next step
  resumes : ℕ → Input → Event

module _ (load : Bytes → Option (Option Bool)) where
  unfoldable pub resume_found : Option Thread → List Thread → Input → Session → Session
  unfolding run_thread
  resume_found none others input s = s
  resume_found (some t) others input s =
      let (left, s') = run_thread load t input (record s { threads = others }) in add_thread left s'

  unfoldable pub resume : ℕ → Input → Session → Session
  unfolding split_thread resume_found
  resume place input s =
      let (found, others) = split_thread place s.threads in resume_found found others input s

  unfoldable pub step : Session → Event → Session
  unfolding acquire acquire_turn release close_subscription close stop_if_idle drain_stderr
      exit_process resume next_chunk
  step s (acquires passive identifier wake start) = (acquire passive identifier wake start s).1
  step s (tries_again passive identifier wake start) =
      (acquire_turn passive identifier wake start s).1
  step s (releases identifier) = release identifier s
  step s (unsubscribes already identifier reference) =
      close_subscription already identifier reference s
  step s (takes reference) = record s {
    queues = set s.queues reference (next_chunk (get_or s.queues reference [])).1;
  }
  step s times_out = stop_if_idle s
  step s closes = close s
  step s (reports line) = drain_stderr line s
  step s (exits p) = record s { running = exit_process p s.running }
  step s (resumes place input) = resume place input s

  unfoldable pub run : Session → List Event → Session
  unfolding step
  run s [] = s
  run s (e ∷ es) = run (step s e) es
