-- ===== src/Live/Acquiring.antt =====
-- A whole call of `acquire` of src/okam_native/session.py: its turns under the lock, and its waits for
-- the cleanup of a helper that has exited, while the other threads go on.
use okam_ha_proxy.Prelude.{
  Bool, true, false, List, [], ◌∷◌, ◌≡◌, ◌≢◌, ◌⊎◌, inl, inr, refl, ℕ, Option, Bytes,
}
use okam_ha_proxy.Prelude.Outcome.{cleanup_incomplete}
use okam_ha_proxy.Live.Media.{session_lock_wait_begin}
use okam_ha_proxy.Live.State.{Session, note}
use okam_ha_proxy.Live.Viewers.{Start, Turn, subscribed, refused, waits, acquire_turn}
use okam_ha_proxy.Live.Threads.{Event, run}
use okam_ha_proxy.Live.Viewing.{Answer, acquire_turn-Answer}

-- What `cleanup_wait.wait(timeout=15.0)` returns, and what the other threads do until the lock is free
-- for this thread again.
abbrev pub Wait : Type 0
Wait = Bool × List Event

-- A turn that gives or refuses the subscription ends the call; one that waits is followed by the wait,
-- behind which the session is `later`, and by the `rest` of the turns.
abbrev pub after_turn : Turn → Session → Bool → Session → Turn × Session → Turn × Session
after_turn (subscribed queue) s completed later rest = (subscribed queue, s)
after_turn (refused error) s completed later rest = (refused error, s)
after_turn waits s true later rest = rest
after_turn waits s false later rest = (refused cleanup_incomplete, later)

module _ (load : Bytes → Option (Option Bool)) (passive : Bool) (n : ℕ) (wake : Bool)
    (start : Start) where
  -- The loop of `acquire`, for the waits that are over; behind the last of them it may wait still.
  unfoldable pub acquire_turns : List Wait → Session → Turn × Session
  acquire_turns [] s = acquire_turn passive n wake start s
  acquire_turns ((completed, events) ∷ more) s =
      let (turn, t) = acquire_turn passive n wake start s in
      let later = run load t events in after_turn turn t completed later (acquire_turns more later)

  unfoldable pub acquire_call : List Wait → Session → Turn × Session
  unfolding acquire_turns
  acquire_call over s = acquire_turns over (note session_lock_wait_begin s)

  -- What the result of a call says: it is that of the first turn that does not wait, on the session as the
  -- other threads have left it, unless a wait before it was not answered in time.
  abbrev pub CallAnswer : List Wait → Session → Turn × Session → Type 0
  CallAnswer [] s result = Answer passive n start s result
  CallAnswer ((completed, events) ∷ more) s result =
      ((result.0 ≢ waits) × Answer passive n start s result)
      ⊎ ((t : Session) × Answer passive n start s (waits, t)
          × (((completed ≡ true) × CallAnswer more (run load t events) result)
              ⊎ ((completed ≡ false) × (result ≡ (refused cleanup_incomplete, run load t events)))))

  after_turn-CallAnswer :
      (completed : Bool) (events : List Event) (more : List Wait) (s t : Session) (turn : Turn)
      (rest : Turn × Session)
      → Answer passive n start s (turn, t)
      → CallAnswer more (run load t events) rest
      → CallAnswer
          ((completed, events) ∷ more)
          s
          (after_turn turn t completed (run load t events) rest)
  after_turn-CallAnswer completed events more s t (subscribed queue) rest h k = inl ((λ e. cc), h)
  after_turn-CallAnswer completed events more s t (refused error) rest h k = inl ((λ e. cc), h)
  after_turn-CallAnswer true events more s t waits rest h k = inr (t, h, inl (refl, k))
  after_turn-CallAnswer false events more s t waits rest h k = inr (t, h, inr (refl, refl))

  acquire_turns-CallAnswer :
      (over : List Wait) (s : Session) → CallAnswer over s (acquire_turns over s)
  unfolding acquire_turns
  acquire_turns-CallAnswer [] s = acquire_turn-Answer passive n wake start s
  acquire_turns-CallAnswer ((completed, events) ∷ more) s =
      let (turn, t) = acquire_turn passive n wake start s in
      after_turn-CallAnswer completed events more s t turn _
        (acquire_turn-Answer passive n wake start s)
        (acquire_turns-CallAnswer more (run load t events))

  -- A call of `acquire`, its waits included, whatever the other threads do during them. A turn waits only
  -- where the helper has exited and its process is still there, and leaves the viewers and the process as
  -- they were. A wait that is not answered within its time ends the call with the exception for it. Else
  -- the last turn decides, on the session as it finds it: one that gets a subscription adds one viewer
  -- with a new queue behind the others, stops the idle timer, and leaves no active viewer without a
  -- process; one that raises leaves the viewers, the queues and the processes as they were, and raises
  -- because the session is closed or, for an active viewer of a camera without a process, because the
  -- start failed.
  pub acquire_call-CallAnswer :
      (over : List Wait) (s : Session)
      → CallAnswer over (note session_lock_wait_begin s) (acquire_call over s)
  unfolding acquire_call
  acquire_call-CallAnswer over s = acquire_turns-CallAnswer over (note session_lock_wait_begin s)
