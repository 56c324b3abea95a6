-- ===== src/Cs2/Transfer/Numbering.antt =====
-- The numbers that the packets of `write` in src/okam_native/cs2.py have.
use mathlib.Core.Path.{ap₂}
use okam_ha_proxy.Prelude.{
  ℕ, zero, suc, ◌+◌, ◌%◌, ◌<◌, List, [], ◌∷◌, ◌≡◌, refl, arith, Bytes, length, get_or, set,
  get_or-set_self, length-set,
}
use okam_ha_proxy.Prelude.Exec.{gets, modify, pure}
use okam_ha_proxy.Prelude.Exec.Keeps.{Keeps, gets-Keeps, bind-Keeps}
use okam_ha_proxy.Prelude.Exec.Returns.{Returns, bind-Returns, Keeps-Returns}
use okam_ha_proxy.Cs2.World.{World}
use okam_ha_proxy.Cs2.State.{Session, PendingKey}
use okam_ha_proxy.Cs2.Session.Stable.{IsStable}
use okam_ha_proxy.Cs2.Session.Rounds
use okam_ha_proxy.Cs2.Transfer.{send_chunk, write_chunk, write_chunks}

-- The keys of `n` packets of a channel, numbered on from `first`.
abbrev pub keys_from : ℕ → ℕ → ℕ → List PendingKey
keys_from channel first zero = []
keys_from channel first (suc n) = (channel, first) ∷ keys_from channel ((first + 1) % 65536) n

-- The number behind those of `n` packets.
abbrev pub number_after : ℕ → ℕ → ℕ
number_after first zero = first
number_after first (suc n) = number_after ((first + 1) % 65536) n

-- The next number of a channel, and how many channels there are.
abbrev pub Numbered : ℕ → ℕ → Session → Type 0
Numbered channel n s =
    (get_or s.outgoing_sequence channel 0 ≡ n) × (channel < length s.outgoing_sequence)

pub Numbered-IsStable : (channel n : ℕ) → IsStable (Numbered channel n)
Numbered-IsStable channel n = record {
  sending = λ s t only p. rw only p;
  counting = λ s counters p. p;
  clocking = λ s p. p;
  receiving = λ s p. p;
  popping = λ s key p. p;
  putting = λ s key value within p. p;
  acking = λ s packet p. p;
  accepting = λ s channel sequence payload p. p;
  closing = λ s socket p. p;
}

module _ (world : World) where
  send_chunk-Keeps :
      (P : Session → Type 0) (stable : IsStable P) (channel sequence : ℕ) (chunk : Bytes)
      → Keeps P (send_chunk world channel sequence chunk)
  unfolding send_chunk
  send_chunk-Keeps P stable channel sequence chunk = bind-Keeps _ _ (gets-Keeps _) λ peer.
      bind-Keeps _ _ (Rounds.assert_peer-Keeps world P stable peer) λ address.
        bind-Keeps _ _ (Rounds.send_clear-Keeps world P stable _ address) λ _.
          bind-Keeps _ _ (Rounds.now-Keeps world P stable)
            λ time. Rounds.put_pending-Keeps world P stable (channel, sequence) _ (omega arith)

  numbering :
      (channel n : ℕ) (s : Session)
      → Numbered channel n s
      → Numbered channel
          ((n + 1) % 65536)
          (record s { outgoing_sequence = set s.outgoing_sequence channel ((n + 1) % 65536) })
  numbering channel n s (next, there) = (
    get_or-set_self s.outgoing_sequence channel ((n + 1) % 65536) 0 there,
    omega (arith, length-set s.outgoing_sequence channel ((n + 1) % 65536)),
  )

  pub write_chunk-numbers :
      (channel n : ℕ) (chunk : Bytes) (s : Session)
      → Numbered channel n s
      → Returns
          (λ key t. (key ≡ (channel, n)) × Numbered channel ((n + 1) % 65536) t)
          (write_chunk world channel chunk s)
  unfolding write_chunk gets modify pure
  write_chunk-numbers channel n chunk s (next, there) =
      bind-Returns (λ sequences t. (get_or sequences channel 0 ≡ n) × Numbered channel n t) _ _ _ s
        (next, (next, there))
        λ sequences t (is, p). rw is (
          bind-Returns (λ _ u. Numbered channel ((n + 1) % 65536) u) _ _ _ t
            (numbering channel n t p)
            λ _ u q.
              bind-Returns (λ _ v. Numbered channel ((n + 1) % 65536) v) _ _ _ u
                (Keeps-Returns _ _ u
                  (send_chunk-Keeps _ (Numbered-IsStable channel ((n + 1) % 65536)) channel n chunk)
                  q)
                λ _ v r. (refl, r))

  pub write_chunks-numbers :
      (channel n : ℕ) (pieces : List Bytes) (s : Session)
      → Numbered channel n s
      → Returns
          (λ keys t.
            (keys ≡ keys_from channel n (length pieces))
            × Numbered channel (number_after n (length pieces)) t)
          (write_chunks world channel pieces s)
  unfolding write_chunks pure
  write_chunks-numbers channel n [] s p = (refl, p)
  write_chunks-numbers channel n (chunk ∷ rest) s p =
      bind-Returns (λ key t. (key ≡ (channel, n)) × Numbered channel ((n + 1) % 65536) t) _ _ _ s
        (write_chunk-numbers channel n chunk s p)
        λ key t (is, q).
          bind-Returns
            (λ keys u.
              (keys ≡ keys_from channel ((n + 1) % 65536) (length rest))
              × Numbered channel (number_after ((n + 1) % 65536) (length rest)) u)
            _ _ _ t (write_chunks-numbers channel ((n + 1) % 65536) rest t q)
            λ keys u (are, r). (ap₂ ◌∷◌ is are, r)
