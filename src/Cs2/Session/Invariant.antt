-- ===== src/Cs2/Session/Invariant.antt =====
-- The well-formedness of a session, which every round keeps.
use okam_ha_proxy.Prelude.{
  ℕ, zero, suc, ◌≤◌, ◌<◌, true, List, [], ◌∷◌, ◌≡◌, arith, Bytes, none, length, length-append,
  get_or, set, from_bytes, slice, drop, All, Bool-cases, Option-cases, inl, inr,
}
use okam_ha_proxy.Cs2.Channel.{
  Channel, empty_channel, lookup, without, deliver, drain, hold, accept,
}
use okam_ha_proxy.Cs2.Channel.Drain.{length-without-le}
use okam_ha_proxy.Cs2.State.{Session, Pending, PendingKey}
use okam_ha_proxy.Cs2.Pending.{
  same_key, pop_pending, put_pending, ack_loop, is_ack_malformed, is_ack_miscounted, handle_ack,
}
use okam_ha_proxy.Cs2.Session.Sending.{SentOnly}

-- At most 64 packets wait, and the expected sequence number is one of 16 bits.
pub record IsBounded (c : Channel) : Type 0 where
  pub few : length c.held ≤ 64
  pub in_range : c.expected < 65536

drain-IsBounded : (fuel : ℕ) (c : Channel) → IsBounded c → IsBounded (drain fuel c)
unfolding drain
drain-IsBounded zero c h = h
drain-IsBounded (suc fuel) c h = elim (Option-cases (lookup c.expected c.held)) [
  | inl absent ↦ rw (absent, drain) h
  | inr (body, present) ↦
      rw (present, drain)
        (drain-IsBounded fuel (deliver c body (without c.expected c.held))
          (omega (arith, h.few, length-without-le c.expected c.held)))
]

pub accept-IsBounded :
    (c : Channel) (sequence : ℕ) (payload : Bytes)
    → IsBounded c
    → IsBounded (accept c sequence payload)
unfolding accept hold
accept-IsBounded c sequence payload h = ground (
  arith,
  drain-IsBounded (length c.held) (deliver c payload c.held),
  length-append c.held ((sequence, payload) ∷ []),
)

abbrev pub WithinRetries : PendingKey × Pending → Type 0
WithinRetries entry = entry.1.attempts ≤ 20

pub record IsValid (s : Session) : Type 0 where
  pub channels : length s.incoming ≡ 8
  pub bounded : All IsBounded s.incoming
  pub numbered : length s.outgoing_sequence ≡ 8
  pub numbers : All (λ n. n < 65536) s.outgoing_sequence
  pub retries : All WithinRetries s.pending
  pub closed_means : s.closed ≡ true → s.peer ≡ none

pub IsValid-SentOnly : (s t : Session) → SentOnly s t → IsValid s → IsValid t
IsValid-SentOnly s t only v = rw only (record {
  channels = v.channels;
  bounded = v.bounded;
  numbered = v.numbered;
  numbers = v.numbers;
  retries = v.retries;
  closed_means = v.closed_means;
})

pub All-set :
    (cs : List Channel) (i : ℕ) (c : Channel)
    → All IsBounded cs
    → IsBounded c
    → All IsBounded (set cs i c)
All-set [] i c h b = tt
All-set (x ∷ cs) zero c (h, hs) b = (b, hs)
All-set (x ∷ cs) (suc i) c (h, hs) b = (h, All-set cs i c hs b)

pub All-get_or :
    (cs : List Channel) (i : ℕ) → All IsBounded cs → IsBounded (get_or cs i empty_channel)
All-get_or [] i h = omega arith
All-get_or (x ∷ cs) zero (h, hs) = h
All-get_or (x ∷ cs) (suc i) (h, hs) = All-get_or cs i hs

pub pop_pending-WithinRetries :
    (key : PendingKey) (pending : List (PendingKey × Pending))
    → All WithinRetries pending
    → All WithinRetries (pop_pending key pending)
unfolding pop_pending
pop_pending-WithinRetries key [] h = tt
pop_pending-WithinRetries key ((other, p) ∷ rest) (h, hs) = elim (Bool-cases (same_key other key)) [
  | inl same ↦ rw same (pop_pending-WithinRetries key rest hs)
  | inr different ↦ rw different (h, pop_pending-WithinRetries key rest hs)
]

pub put_pending-WithinRetries :
    (key : PendingKey) (value : Pending) (pending : List (PendingKey × Pending))
    → value.attempts ≤ 20
    → All WithinRetries pending
    → All WithinRetries (put_pending key value pending)
unfolding put_pending
put_pending-WithinRetries key value [] v h = (v, tt)
put_pending-WithinRetries key value ((other, p) ∷ rest) v (h, hs) =
    elim (Bool-cases (same_key other key)) [
      | inl same ↦ rw same (v, hs)
      | inr different ↦ rw different (h, put_pending-WithinRetries key value rest v hs)
    ]

ack_loop-WithinRetries :
    (channel n : ℕ) (rest : Bytes) (pending : List (PendingKey × Pending))
    → All WithinRetries pending
    → All WithinRetries (ack_loop channel n rest pending)
unfolding ack_loop
ack_loop-WithinRetries channel zero rest pending h = h
ack_loop-WithinRetries channel (suc n) rest pending h =
    ack_loop-WithinRetries channel n (drop 2 rest) _ (pop_pending-WithinRetries _ pending h)

pub handle_ack-WithinRetries :
    (packet : Bytes) (pending : List (PendingKey × Pending))
    → All WithinRetries pending
    → All WithinRetries (handle_ack packet pending)
unfolding handle_ack
handle_ack-WithinRetries packet pending h =
    let body = drop 4 packet in
    elim (Bool-cases (is_ack_malformed (drop 4 packet))) [
      | inl malformed ↦ rw malformed h
      | inr formed ↦ rw formed (elim (Bool-cases (is_ack_miscounted (drop 4 packet))) [
        | inl miscounted ↦ rw miscounted h
        | inr counted ↦ rw counted (
            ack_loop-WithinRetries (get_or body 1 0) (from_bytes (slice 2 4 body)) (drop 4 body)
              pending h)
      ])
    ]
