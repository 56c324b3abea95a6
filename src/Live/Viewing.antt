-- ===== src/Live/Viewing.antt =====
-- What a viewer gets from a camera session: a place among the viewers and a running camera, or an
-- exception that leaves the viewers as they were; and then every chunk of the video.
use okam_ha_proxy.Prelude.{
  ℕ, ◌<◌, Bool, true, false, not, ◌&&◌, List, [], ◌∷◌, ◌++◌, ◌≡◌, sym, ◌≢◌, ◌⊎◌, inl, inr, refl,
  arith, Option, none, length, ltb, replicate, get_or, get_or-set, length-set, get_or-set_self, All,
  Bool-cases, if◌then◌else◌, Bytes,
}
use mathlib.Core.Path.{subst}
use okam_ha_proxy.Prelude.Outcome.{session_closed}
use okam_ha_proxy.Live.Media.{session_lock_acquired}
use okam_ha_proxy.Live.State.{
  Session, Thread, Rest, reads, Chunk, bytes, failed, note, set_state, is_running,
}
use okam_ha_proxy.Live.Queues.{put_chunk, put_into, max_queue, behind_first}
use okam_ha_proxy.Live.Viewers.{
  Start, started, pipes_missing, raised, Turn, subscribed, refused, waits, acquire_turn, admit,
  after_start, start_locked, subscribe, add_viewer, show_standby, ensure_standby_thread,
  adopt_process, clear_stream, is_none, has_exited, queues_of,
}
use okam_ha_proxy.Live.Pump.{pump_chunk, count_chunk}
use okam_ha_proxy.Live.Threads.{
  resumes, Input, chunk, run_targets, run_thread, resume, resume_found, split_thread, go_on,
  pump_input, step, run,
}

-- What the result of a call of `acquire` says of the session before and after.
abbrev pub Answer : Bool → ℕ → Start → Session → Turn × Session → Type 0
Answer passive n start s (subscribed q, t) =
    (s.closed ≡ false)
    × (q ≡ length s.queues)
    × (t.subscribers
        ≡ s.subscribers ++ record { identifier = n; queue = q; passive = passive } ∷ [])
    × (t.idle_timer ≡ false)
    × (passive ≡ false → t.process ≢ none)
Answer passive n start s (refused error, t) =
    (t.subscribers ≡ s.subscribers)
    × (t.queues ≡ s.queues)
    × (t.process ≡ s.process)
    × (t.running ≡ s.running)
    × (((s.closed ≡ true) × (error ≡ session_closed) × (t.phase ≡ s.phase))
        ⊎ ((s.closed ≡ false)
            × (s.process ≡ none)
            × (passive ≡ false)
            × (start ≢ started)
            × (t.phase ≡ failed)))
Answer passive n start s (waits, t) =
    (s.closed ≡ false)
    × (has_exited s ≡ true)
    × (s.process ≢ none)
    × (t.subscribers ≡ s.subscribers)
    × (t.process ≡ s.process)

branch-Answer :
    (passive : Bool) (n : ℕ) (start : Start) (s : Session) (b : Bool) (x y : Turn × Session)
    → (b ≡ true → Answer passive n start s x)
    → (b ≡ false → Answer passive n start s y)
    → Answer passive n start s (if b then x else y)
branch-Answer passive n start s true x y h k = h refl
branch-Answer passive n start s false x y h k = k refl

admit-Answer :
    (passive : Bool) (n : ℕ) (wake : Bool) (start : Start) (s : Session)
    → s.closed ≡ false
    → Answer passive n start s (admit passive n wake start s)
unfolding admit after_start start_locked subscribe add_viewer show_standby ensure_standby_thread
    adopt_process clear_stream set_state
admit-Answer passive n wake started s live =
    branch-Answer passive n started s (not passive && is_none s.process) _ _ (λ e. ground arith)
      (λ e. ground arith)
admit-Answer passive n wake pipes_missing s live =
    branch-Answer passive n pipes_missing s (not passive && is_none s.process) _ _
      (λ e. ground arith) (λ e. ground arith)
admit-Answer passive n wake raised s live =
    branch-Answer passive n raised s (not passive && is_none s.process) _ _ (λ e. ground arith)
      (λ e. ground arith)

-- One turn of `acquire` under the lock.
pub acquire_turn-Answer :
    (passive : Bool) (n : ℕ) (wake : Bool) (start : Start) (s : Session)
    → Answer passive n start s (acquire_turn passive n wake start s)
unfolding acquire_turn is_running
acquire_turn-Answer passive n wake start s =
    let t = note session_lock_acquired s in
    branch-Answer passive n start s s.closed _ _ (λ e. ground arith)
      λ live.
        branch-Answer passive n start s (has_exited t) _ _ (λ e. ground arith)
          λ free. admit-Answer passive n wake start t live

-- The last entry of a queue.
abbrev pub IsLast : Chunk → List Chunk → Type 0
IsLast value q = (older : List Chunk) × (q ≡ older ++ value ∷ [])

put_chunk-IsLast : (value : Chunk) (q : List Chunk) → IsLast value (put_chunk value q)
unfolding put_chunk
put_chunk-IsLast value q = elim (Bool-cases (ltb (length q) max_queue)) [
  | inl room ↦ (q, rw room refl)
  | inr full ↦ (behind_first q, rw full refl)
]

-- The rest of a thread's entries, put one after the other.
abbrev pub put_all : Chunk → List ℕ → List (List Chunk) → List (List Chunk)
put_all value [] queues = queues
put_all value (r ∷ rs) queues = put_all value rs (put_into value r queues)

put_into-IsLast :
    (value : Chunk) (r i : ℕ) (queues : List (List Chunk))
    → IsLast value (get_or queues i [])
    → IsLast value (get_or (put_into value r queues) i [])
unfolding put_into
put_into-IsLast value r i queues h =
    let new = put_chunk value (get_or queues r []) in
    elim (get_or-set queues r i new []) [
      | inl old ↦ rw old h
      | inr (same, written) ↦ rw written (put_chunk-IsLast value (get_or queues r []))
    ]

put_all-IsLast_old :
    (value : Chunk) (rs : List ℕ) (i : ℕ) (queues : List (List Chunk))
    → IsLast value (get_or queues i [])
    → IsLast value (get_or (put_all value rs queues) i [])
put_all-IsLast_old value [] i queues h = h
put_all-IsLast_old value (r ∷ rs) i queues h =
    put_all-IsLast_old value rs i (put_into value r queues) (put_into-IsLast value r i queues h)

put_all-IsLast :
    (value : Chunk) (rs : List ℕ) (queues : List (List Chunk))
    → All (λ r. r < length queues) rs
    → All (λ r. IsLast value (get_or (put_all value rs queues) r [])) rs
put_all-IsLast value [] queues h = tt
put_all-IsLast value (r ∷ rs) queues (h, hs) =
    let new = put_chunk value (get_or queues r []) in
    let written : IsLast value (get_or (put_into value r queues) r []) =
      unfold put_into in
      rw (get_or-set_self queues r new [] h) (put_chunk-IsLast value (get_or queues r [])) in
    let same : length (put_into value r queues) ≡ length queues =
      unfold put_into in length-set queues r new in
    (
      put_all-IsLast_old value rs r (put_into value r queues) written,
      put_all-IsLast value rs (put_into value r queues) (rw same hs),
    )

module _ (load : Bytes → Option (Option Bool)) where
  -- A thread in front puts its entries.
  pub run-puts :
      (s : Session) (rs : List ℕ) (value : Chunk) (rest : Rest) (ts : List Thread)
      (queues : List (List Chunk)) (input : Input)
      → run load
          (record s {
            threads = record { targets = rs; value = value; rest = rest } ∷ ts;
            queues = queues;
          })
          (replicate (length rs) (resumes 0 input))
        ≡ record s {
          threads = record { targets = []; value = value; rest = rest } ∷ ts;
          queues = put_all value rs queues;
        }
  unfolding run step resume split_thread resume_found run_thread run_targets
  run-puts s [] value rest ts queues input = refl
  run-puts s (r ∷ rs) value rest ts queues input =
      run-puts s rs value rest ts (put_into value r queues) input

  -- The pump reads a chunk that is not empty and puts it: with its next steps it becomes the newest
  -- entry of every viewer's queue, and the pump reads on.
  pub pump-delivers :
      (s : Session) (p : ℕ) (value : Chunk) (ts : List Thread) (b : ℕ) (bs : Bytes) (input : Input)
      → All (λ r. r < length s.queues) (queues_of s.subscribers)
      → let before = record s {
        threads = record { targets = []; value = value; rest = reads p } ∷ ts;
      } in
        let after = run load before (
          resumes 0 (chunk (b ∷ bs))
          ∷ replicate (length (queues_of s.subscribers)) (resumes 0 input)) in
        All (λ r. IsLast (bytes (b ∷ bs)) (get_or after.queues r [])) (queues_of s.subscribers)
        × (after.subscribers ≡ s.subscribers)
        × (after.threads ≡ record { targets = []; value = bytes (b ∷ bs); rest = reads p } ∷ ts)
  unfolding run step resume split_thread resume_found run_thread run_targets go_on pump_input
      pump_chunk count_chunk set_state
  pump-delivers s p value ts b bs input known =
      let read = pump_chunk (b ∷ bs) (record s { threads = ts }) in
      let viewers = queues_of s.subscribers in
      let put = run-puts read viewers (bytes (b ∷ bs)) (reads p) ts s.queues input in
      subst
        (λ (after : Session).
          All (λ r. IsLast (bytes (b ∷ bs)) (get_or after.queues r [])) viewers
          × (after.subscribers ≡ s.subscribers)
          × (after.threads ≡ record { targets = []; value = bytes (b ∷ bs); rest = reads p } ∷ ts))
        (sym put) (put_all-IsLast (bytes (b ∷ bs)) viewers s.queues known, refl, refl)
