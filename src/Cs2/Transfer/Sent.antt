-- ===== src/Cs2/Transfer/Sent.antt =====
-- What the first loop of `write` in src/okam_native/cs2.py has sent when it is over, and that each of
-- its packets then waits for its acknowledgement.
use mathlib.Core.Path.{subst}
use okam_ha_proxy.Prelude.{
  ℕ, ◌+◌, ◌%◌, true, List, [], ◌∷◌, ◌++◌, append-nil, append_assoc, ◌≡◌, refl, sym, ap, ◌∙◌, inl,
  inr, Option, none, some, Bytes, All, length, get_or, set, map, Bool-cases, ==_self, arith, Text,
}
use okam_ha_proxy.Prelude.Outcome.{Result, ok, err}
use okam_ha_proxy.Prelude.Exec.{◌>>=◌, lift}
use okam_ha_proxy.Prelude.Exec.Returns.{
  Returns, continue-Returns, both-Returns, then-Returns, two-Returns,
}
use okam_ha_proxy.Cs2.Address.{Endpoint}
use okam_ha_proxy.Cs2.Cipher.{encode_wire_packets}
use okam_ha_proxy.Cs2.World.{World}
use okam_ha_proxy.Cs2.State.{
  Session, SocketState, unopened, opened, shut, Pending, PendingKey, sendto, send_all, send_clear,
  is_refused, require_socket, is_peer_set, connected,
}
use okam_ha_proxy.Cs2.Pending.{put_pending, is_pending, same_key}
use okam_ha_proxy.Cs2.Session.Sending.{SentOnly, send_clear-SentOnly}
use okam_ha_proxy.Cs2.Session.Data.{data_packet}
use okam_ha_proxy.Cs2.Transfer.Numbering.{keys_from, Numbered, write_chunk-numbers}
use okam_ha_proxy.Cs2.Transfer.{send_chunk, write_chunk, write_chunks}

same_key_self : (key : PendingKey) → same_key key key ≡ true
same_key_self (channel, n) = rw (==_self channel, ==_self n) refl

is_pending-put :
    (key : PendingKey) (value : Pending) (pending : List (PendingKey × Pending))
    → is_pending key (put_pending key value pending) ≡ true
unfolding is_pending put_pending
is_pending-put key value [] = rw (same_key_self key) refl
is_pending-put key value ((other, p) ∷ rest) = elim (Bool-cases (same_key other key)) [
  | inl same ↦ rw same (rw same refl)
  | inr differs ↦ rw differs (rw differs (is_pending-put key value rest))
]

is_pending-put_kept :
    (kept key : PendingKey) (value : Pending) (pending : List (PendingKey × Pending))
    → is_pending kept pending ≡ true
    → is_pending kept (put_pending key value pending) ≡ true
unfolding is_pending put_pending
is_pending-put_kept kept key value [] h = cc
is_pending-put_kept kept key value ((other, p) ∷ rest) h = elim (Bool-cases (same_key other key)) [
  | inl same ↦ rw same h
  | inr differs ↦ rw differs (elim (Bool-cases (same_key other kept)) [
    | inl here ↦ rw here refl
    | inr elsewhere ↦ rw elsewhere (is_pending-put_kept kept key value rest (rw elsewhere at h))
  ])
]

-- The datagrams of data packets that carry these pieces, one after the other, numbered on from `first`
-- modulo 65536: the wire forms of each, all to the peer.
abbrev pub CarriesAll : Text → Endpoint → ℕ → ℕ → List Bytes → List (Bytes × Endpoint) → Type 0
CarriesAll key peer channel first [] out = out ≡ []
CarriesAll key peer channel first (piece ∷ pieces) out =
    (forms : List Bytes) × (others : List (Bytes × Endpoint)) × (encode_wire_packets key
        (data_packet channel first piece)
      ≡ ok forms)
    × CarriesAll key peer channel ((first + 1) % 65536) pieces others
    × (out ≡ map (λ form. (form, peer)) forms ++ others)

some_peer :
    (found : Option Endpoint) → is_peer_set found ≡ true → (peer : Endpoint) × (found ≡ some peer)
some_peer none h = cc
some_peer (some peer) h = (peer, refl)

peer_of : (s : Session) → connected s ≡ true → (peer : Endpoint) × (s.peer ≡ some peer)
peer_of s up = elim (Bool-cases s.closed) [
  | inl shut_down ↦ absurd (ground arith)
  | inr live ↦ some_peer s.peer (rw live at up)
]

-- These datagrams are behind those of before.
abbrev Wired : List (Bytes × Endpoint) → List (Bytes × Endpoint) → Unit {0} → Session → Type 0
Wired before more done t = t.wire ≡ before ++ more

abbrev to_one : Endpoint → List Bytes → List (Bytes × Endpoint)
to_one address forms = map (λ form. (form, address)) forms

-- The wire forms of a packet.
abbrev Forms :
    Result (List Bytes) → Endpoint → List (Bytes × Endpoint) → Unit {0} → Session → Type 0
Forms encoded address before done t =
    (forms : List Bytes) × (encoded ≡ ok forms) × (t.wire ≡ before ++ to_one address forms)

module _ (world : World) where
  send_all-wire :
      (forms : List Bytes) (address : Endpoint) (s : Session)
      → Returns (Wired s.wire (to_one address forms)) (send_all world forms address s)
  unfolding send_all ◌>>=◌ sendto
  send_all-wire [] address s = sym (append-nil s.wire)
  send_all-wire (w ∷ ws) address s =
      elim (Bool-cases (is_refused world s.socket s.sends w address)) [
        | inl refused ↦ rw refused tt
        | inr passed ↦ rw passed (
            let out = record s { sends = s.sends + 1; wire = s.wire ++ (w, address) ∷ [] } in
            then-Returns (Wired out.wire (to_one address ws))
              (Wired s.wire (to_one address (w ∷ ws))) (send_all world ws address out)
              (send_all-wire ws address out)
              (λ _ t h. h ∙ append_assoc s.wire ((w, address) ∷ []) (to_one address ws)))
      ]

  send_clear-wire :
      (packet : Bytes) (address : Endpoint) (s : Session)
      → Returns
          (Forms (encode_wire_packets s.key packet) address s.wire)
          (send_clear world packet address s)
  unfolding send_clear ◌>>=◌
  send_clear-wire packet address s = go s.socket (encode_wire_packets s.key packet)
    where
      all_out :
          (ws : List Bytes) → Returns (Forms (ok ws) address s.wire) (send_all world ws address s)
      all_out ws =
          then-Returns (Wired s.wire (to_one address ws)) (Forms (ok ws) address s.wire) _
            (send_all-wire ws address s) (λ _ t h. (ws, refl, h))

      go :
          (socket : SocketState) (encoded : Result (List Bytes))
          → Returns (Forms encoded address s.wire) (
              (require_socket world socket >>= λ _.
              lift encoded >>= λ ws. send_all world ws address)
                s)
      go unopened encoded = tt
      go opened (ok ws) = all_out ws
      go opened (err _) = tt
      go shut (ok ws) = all_out ws
      go shut (err _) = tt

  -- After a chunk: its datagrams are out, and it waits under its key; the rest is as before.
  abbrev Chunk : ℕ → ℕ → Bytes → Endpoint → Session → Session → Type 0
  Chunk channel n chunk peer s t =
      Forms (encode_wire_packets s.key (data_packet channel n chunk)) peer s.wire tt t
      × (t.key ≡ s.key)
      × (t.peer ≡ some peer)
      × ((value : Pending) × (t.pending ≡ put_pending (channel, n) value s.pending))

  send_chunk-Chunk :
      (channel n : ℕ) (chunk : Bytes) (peer : Endpoint) (s : Session)
      → s.peer ≡ some peer
      → Returns (λ _ t. Chunk channel n chunk peer s t) (send_chunk world channel n chunk s)
  unfolding send_chunk ◌>>=◌
  send_chunk-Chunk channel n chunk peer s has =
      let packet = data_packet channel n chunk in
      let sent = send_clear world packet peer s in
      simp has (
        continue-Returns
          (λ done t. Forms (encode_wire_packets s.key packet) peer s.wire done t × SentOnly s t)
          (λ _ t. Chunk channel n chunk peer s t) sent _
          (both-Returns _ (SentOnly s) sent (send_clear-wire packet peer s)
            (send_clear-SentOnly world packet peer s))
          λ done t (forms, only). (
            forms,
            ap (λ (r : Session). r.key) only,
            ap (λ (r : Session). r.peer) only ∙ has,
            (
              record { packet = packet; sent_at = world.monotonic t.clock_reads; attempts = 1 },
              ap
                  (λ (r : Session).
                    put_pending (channel, n)
                      (record {
                        packet = packet;
                        sent_at = world.monotonic t.clock_reads;
                        attempts = 1;
                      })
                      r.pending)
                  only,
            ),
          ))

  write_chunk-Chunk :
      (channel n : ℕ) (chunk : Bytes) (peer : Endpoint) (s : Session)
      → get_or s.outgoing_sequence channel 0 ≡ n
      → s.peer ≡ some peer
      → Returns (λ _ t. Chunk channel n chunk peer s t) (write_chunk world channel chunk s)
  unfolding write_chunk ◌>>=◌
  write_chunk-Chunk channel n chunk peer s next has =
      let numbered = record s {
        outgoing_sequence = set s.outgoing_sequence channel ((n + 1) % 65536);
      } in
      rw next (
        continue-Returns (λ _ t. Chunk channel n chunk peer numbered t)
          (λ _ t. Chunk channel n chunk peer s t) (send_chunk world channel n chunk numbered) _
          (send_chunk-Chunk channel n chunk peer numbered has) λ done t c. c)

  -- After the first loop of `write`.
  abbrev pub Sent : ℕ → ℕ → List Bytes → Session → Session → Type 0
  Sent channel first pieces s t =
      (peer : Endpoint) × (out : List (Bytes × Endpoint)) × (s.peer ≡ some peer)
      × CarriesAll s.key peer channel first pieces out
      × (t.wire ≡ s.wire ++ out)
      × All (λ key. is_pending key t.pending ≡ true) (keys_from channel first (length pieces))

  -- The same, and what waited before waits still.
  abbrev SentFrom : Endpoint → ℕ → ℕ → List Bytes → Session → Session → Type 0
  SentFrom peer channel first pieces s t =
      ((out : List (Bytes × Endpoint)) × CarriesAll s.key peer channel first pieces out
        × (t.wire ≡ s.wire ++ out))
      × All (λ key. is_pending key t.pending ≡ true) (keys_from channel first (length pieces))
      × ((key : PendingKey) → is_pending key s.pending ≡ true → is_pending key t.pending ≡ true)

  SentFrom-Chunk :
      (peer : Endpoint) (channel n : ℕ) (chunk : Bytes) (rest : List Bytes) (s t u : Session)
      → Chunk channel n chunk peer s t
      → SentFrom peer channel ((n + 1) % 65536) rest t u
      → SentFrom peer channel n (chunk ∷ rest) s u
  SentFrom-Chunk peer channel n chunk rest s t u ((forms, encoded, went), key, same, (value, put))
        ((out, carried, wired), waiting, kept) =
      (
        (
          to_one peer forms ++ out,
          (
            forms,
            out,
            encoded,
            subst (λ k. CarriesAll k peer channel ((n + 1) % 65536) rest out) key carried,
            refl,
          ),
          wired ∙ ap (λ w. w ++ out) went ∙ append_assoc s.wire (to_one peer forms) out,
        ),
        (kept (channel, n) (rw put (is_pending-put (channel, n) value s.pending)), waiting),
        (λ other h. kept other (rw put (is_pending-put_kept other (channel, n) value s.pending h))),
      )

  write_chunks-SentFrom :
      (peer : Endpoint) (channel n : ℕ) (pieces : List Bytes) (s : Session)
      → Numbered channel n s
      → s.peer ≡ some peer
      → Returns (λ _ t. SentFrom peer channel n pieces s t) (write_chunks world channel pieces s)
  unfolding write_chunks ◌>>=◌
  write_chunks-SentFrom peer channel n [] s p has =
      (([], refl, sym (append-nil s.wire)), tt, (λ key h. h))
  write_chunks-SentFrom peer channel n (chunk ∷ rest) s p has =
      let next = (n + 1) % 65536 in
      let one = write_chunk world channel chunk s in
      continue-Returns
        (λ key t. ((key ≡ (channel, n)) × Numbered channel next t) × Chunk channel n chunk peer s t)
        (λ _ u. SentFrom peer channel n (chunk ∷ rest) s u) one _
        (two-Returns (λ key t. (key ≡ (channel, n)) × Numbered channel next t)
          (λ _ t. Chunk channel n chunk peer s t) one
          (write_chunk-numbers world channel n chunk s p)
          (write_chunk-Chunk channel n chunk peer s p.0 has))
        λ key t ((is, numbered), c).
          continue-Returns (λ _ u. SentFrom peer channel next rest t u)
            (λ _ u. SentFrom peer channel n (chunk ∷ rest) s u) (write_chunks world channel rest t)
            _ (write_chunks-SentFrom peer channel next rest t numbered c.2)
            λ keys u others. SentFrom-Chunk peer channel n chunk rest s t u c others

  pub write_chunks-Sent :
      (channel n : ℕ) (pieces : List Bytes) (s : Session)
      → connected s ≡ true
      → Numbered channel n s
      → Returns (λ _ t. Sent channel n pieces s t) (write_chunks world channel pieces s)
  write_chunks-Sent channel n pieces s up p =
      let (peer, has) = peer_of s up in
      then-Returns (λ _ t. SentFrom peer channel n pieces s t) (λ _ t. Sent channel n pieces s t) _
        (write_chunks-SentFrom peer channel n pieces s p has)
        λ _ t ((out, carried, wired), waiting, kept). (peer, out, has, carried, wired, waiting)
