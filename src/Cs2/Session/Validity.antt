-- ===== src/Cs2/Session/Validity.antt =====
-- Every round of a session keeps it well formed.
use okam_ha_proxy.Prelude.{true, ◌≡◌, refl, ◌∙◌, none, length-set, Bool-cases, inl, inr}
use okam_ha_proxy.Cs2.Session.Invariant.{
  IsValid, IsValid-SentOnly, accept-IsBounded, All-set, All-get_or, pop_pending-WithinRetries,
  put_pending-WithinRetries, handle_ack-WithinRetries,
}
use okam_ha_proxy.Prelude.Exec.Keeps.{Keeps}
use okam_ha_proxy.Cs2.World.{World}
use okam_ha_proxy.Cs2.State.{Session}
use okam_ha_proxy.Cs2.Session.{close, pump}
use okam_ha_proxy.Cs2.Session.Stable.{IsStable}
use okam_ha_proxy.Cs2.Session.Rounds

pub IsValid-IsStable : IsStable IsValid
IsValid-IsStable = record {
  sending = IsValid-SentOnly;
  counting = λ s counters v. assumption;
  clocking = λ s v. assumption;
  receiving = λ s v. assumption;
  popping = λ s key v. record {
    channels = v.channels;
    bounded = v.bounded;
    numbered = v.numbered;
    numbers = v.numbers;
    retries = pop_pending-WithinRetries key s.pending v.retries;
    closed_means = v.closed_means;
  };
  putting = λ s key value within v. record {
    channels = v.channels;
    bounded = v.bounded;
    numbered = v.numbered;
    numbers = v.numbers;
    retries = put_pending-WithinRetries key value s.pending within v.retries;
    closed_means = v.closed_means;
  };
  acking = λ s packet v. record {
    channels = v.channels;
    bounded = v.bounded;
    numbered = v.numbered;
    numbers = v.numbers;
    retries = handle_ack-WithinRetries packet s.pending v.retries;
    closed_means = v.closed_means;
  };
  accepting = λ s channel sequence payload v. record {
    channels = length-set s.incoming channel _ ∙ v.channels;
    bounded =
        All-set s.incoming channel _ v.bounded
          (accept-IsBounded _ sequence payload (All-get_or s.incoming channel v.bounded));
    numbered = v.numbered;
    numbers = v.numbers;
    retries = v.retries;
    closed_means = v.closed_means;
  };
  closing = λ s socket v. record {
    channels = v.channels;
    bounded = v.bounded;
    numbered = v.numbered;
    numbers = v.numbers;
    retries = v.retries;
    closed_means = λ _. refl;
  };
}

module _ (world : World) where
  -- One round of `_pump`, whatever arrives and whether it returns or raises, keeps a session well
  -- formed: eight channels on either side, at most 64 packets held in each, every sequence number below
  -- 65536, no packet that waits counted with more than 20 attempts, and no peer once the session is closed.
  pub pump-IsValid : Keeps IsValid (pump world)
  pump-IsValid = Rounds.pump-Keeps world IsValid IsValid-IsStable

  close-closed :
      (s : Session)
      → IsValid s
      → ((close world s).1.closed ≡ true) × ((close world s).1.peer ≡ none)
  unfolding close
  close-closed s v = elim (Bool-cases s.closed) [
    | inl done ↦ simp done (refl, v.closed_means done)
    | inr live ↦ simp live (refl, refl)
  ]

  -- Closing keeps a well-formed session well formed, and leaves it closed, with no peer.
  pub close-IsValid :
      (s : Session)
      → IsValid s
      → IsValid (close world s).1
        × ((close world s).1.closed ≡ true)
        × ((close world s).1.peer ≡ none)
  close-IsValid s v =
      let (closed, peerless) = close-closed s v in
      (Rounds.close-Keeps world IsValid IsValid-IsStable s v, closed, peerless)
