-- ===== src/Cs2/Pending.antt =====
-- The packets that wait for an acknowledgement, `_pending` of `CS2Session` in
-- src/okam_native/cs2.py, and `_handle_ack`.
use okam_ha_proxy.Prelude.{
  ℕ, zero, suc, ◌+◌, ◌*◌, Bool, not, ◌&&◌, ◌||◌, List, [], ◌∷◌, Bytes, length, take, drop, slice,
  get_or, any, from_bytes, ltb, leb, ◌==◌, if◌then◌else◌,
}
use okam_ha_proxy.Cs2.State.{Pending, PendingKey}

abbrev pub same_key : PendingKey → PendingKey → Bool
same_key a b = a.0 == b.0 && a.1 == b.1

-- `self._pending.pop(key, None)`
unfoldable pub pop_pending : PendingKey → List (PendingKey × Pending) → List (PendingKey × Pending)
pop_pending key [] = []
pop_pending key ((other, p) ∷ rest) =
    let others = pop_pending key rest in if same_key other key then others else (other, p) ∷ others

-- `self._pending[key] = value`
unfoldable pub put_pending :
    PendingKey → Pending → List (PendingKey × Pending) → List (PendingKey × Pending)
put_pending key value [] = (key, value) ∷ []
put_pending key value ((other, p) ∷ rest) =
    if same_key other key then (other, value) ∷ rest else (other, p) ∷ put_pending key value rest

-- `key in self._pending`
unfoldable pub is_pending : PendingKey → List (PendingKey × Pending) → Bool
is_pending key pending = any (λ entry. same_key entry.0 key) pending

-- The loop of `_handle_ack` over the sequence numbers, two bytes each.
unfoldable pub ack_loop : ℕ → ℕ → Bytes → List (PendingKey × Pending) → List (PendingKey × Pending)
ack_loop channel zero rest pending = pending
ack_loop channel (suc n) rest pending =
    ack_loop channel n (drop 2 rest) (pop_pending (channel, from_bytes (take 2 rest)) pending)

-- The two tests of `_handle_ack`, on `packet[4:]`
abbrev pub is_ack_malformed : Bytes → Bool
is_ack_malformed body =
    ltb (length body) 4 || not (get_or body 0 0 == 0xd1) || leb 8 (get_or body 1 0)

abbrev pub is_ack_miscounted : Bytes → Bool
is_ack_miscounted body =
    let n = from_bytes (slice 2 4 body) in ltb 512 n || not (length body == 4 + n * 2)

-- `_handle_ack`, on the packets that wait for an acknowledgement
unfoldable pub handle_ack : Bytes → List (PendingKey × Pending) → List (PendingKey × Pending)
unfolding ack_loop
handle_ack packet pending =
    let body = drop 4 packet in
    if is_ack_malformed body
    then pending
    else if is_ack_miscounted body
    then pending
    else ack_loop (get_or body 1 0) (from_bytes (slice 2 4 body)) (drop 4 body) pending
