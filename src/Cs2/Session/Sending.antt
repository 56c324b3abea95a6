-- ===== src/Cs2/Session/Sending.antt =====
-- What sending changes: the record of what went out, and nothing else of the session.
use okam_ha_proxy.Prelude.{
  ℕ, suc, ◌+◌, true, false, List, [], ◌∷◌, ◌++◌, append-nil, append_assoc, ◌≡◌, refl, sym, ◌∙◌,
  arith, Bytes, map, length, inl, inr, Bool-cases,
}
use native.Mathlib.Nat.{add-zero}
use okam_ha_proxy.Prelude.Outcome.{Result, ok, err}
use okam_ha_proxy.Prelude.Exec.{lift, ◌>>=◌}
use okam_ha_proxy.Cs2.Address.{Endpoint}
use okam_ha_proxy.Cs2.Cipher.{is_ascii, encode_wire_packets}
use okam_ha_proxy.Cs2.World.{World}
use okam_ha_proxy.Cs2.State.{
  Session, SocketState, is_refused, require_socket, unopened, opened, shut, sendto, send_all,
  send_clear,
}

-- The session after some datagrams went out to one address.
abbrev pub sent_to : Session → List Bytes → Endpoint → Session
sent_to s wire_packets address = record s {
  wire = s.wire ++ map (λ w. (w, address)) wire_packets;
  sends = s.sends + length wire_packets;
}

-- `t` is `s` but for what went out.
abbrev pub SentOnly : Session → Session → Type 0
SentOnly s t = t ≡ record s { wire = t.wire; sends = t.sends }

module _ (world : World) where
  send_all-SentOnly :
      (wire_packets : List Bytes) (address : Endpoint) (s : Session)
      → SentOnly s (send_all world wire_packets address s).1
  unfolding send_all ◌>>=◌
  send_all-SentOnly [] address s = refl
  send_all-SentOnly (w ∷ ws) address s =
      elim (Bool-cases (is_refused world s.socket s.sends w address)) [
        | inl refused ↦ rw refused refl
        | inr passed ↦ rw passed (
            send_all-SentOnly ws address
              (record s { sends = s.sends + 1; wire = s.wire ++ (w, address) ∷ [] }))
      ]

  pub send_clear-SentOnly :
      (packet : Bytes) (address : Endpoint) (s : Session)
      → SentOnly s (send_clear world packet address s).1
  unfolding send_clear ◌>>=◌
  send_clear-SentOnly packet address s = go s.socket (encode_wire_packets s.key packet)
    where
      go :
          (socket : SocketState) (wire_packets : Result (List Bytes))
          → SentOnly s
              ((require_socket world socket >>= λ _.
                  lift wire_packets >>= λ ws. send_all world ws address)
                s).1
      go unopened wire_packets = refl
      go opened (ok ws) = send_all-SentOnly ws address s
      go opened (err _) = refl
      go shut (ok ws) = send_all-SentOnly ws address s
      go shut (err _) = refl

  -- The wire is up: the socket is open, the key is ASCII, and no datagram is refused.
  pub record IsUp (s : Session) : Type 0 where
    pub is_open : s.socket ≡ opened
    pub ascii : is_ascii s.key ≡ true
    pub goes_out : (n : ℕ) (w : Bytes) (address : Endpoint) → world.refuses n w address ≡ false

  one_out : Session → Bytes → Endpoint → Session
  one_out s w address = record s { sends = s.sends + 1; wire = s.wire ++ (w, address) ∷ [] }

  sendto_up :
      (w : Bytes) (address : Endpoint) (s : Session)
      → IsUp s
      → sendto world w address s ≡ (ok tt, one_out s w address)
  unfolding sendto one_out
  sendto_up w address s up = rw (up.is_open, up.goes_out s.sends w address)

  send_all_up :
      (wire_packets : List Bytes) (address : Endpoint) (s : Session)
      → IsUp s
      → send_all world wire_packets address s ≡ (ok tt, sent_to s wire_packets address)
  unfolding send_all ◌>>=◌
  send_all_up [] address s up =
      λ i. (ok tt, record s { wire = sym (append-nil s.wire) i; sends = sym (add-zero s.sends) i })
  send_all_up (w ∷ ws) address s up =
      rw (sendto_up w address s up) (send_all_up ws address (one_out s w address) still ∙ regroup)
    where
      still : IsUp (one_out s w address)
      still =
          unfold one_out in
          record { is_open = up.is_open; ascii = up.ascii; goes_out = up.goes_out }

      regroup :
          ◌≡◌ {A = Result (Unit {0}) × Session}
            (ok tt, sent_to (one_out s w address) ws address)
            (ok tt, sent_to s (w ∷ ws) address)
      regroup =
          unfold one_out in
          λ i. (
            ok tt,
            record s {
              wire = append_assoc s.wire ((w, address) ∷ []) (map (λ v. (v, address)) ws) i;
              sends = count_one i;
            },
          )
        where
          count_one : s.sends + 1 + length ws ≡ s.sends + suc (length ws)
          count_one = omega arith

  -- While the wire is up, `_send_clear` returns, and all wire forms of the packet go out.
  pub send_clear_up :
      (packet : Bytes) (address : Endpoint) (s : Session) (wire_packets : List Bytes)
      → IsUp s
      → encode_wire_packets s.key packet ≡ ok wire_packets
      → send_clear world packet address s ≡ (ok tt, sent_to s wire_packets address)
  unfolding send_clear ◌>>=◌
  send_clear_up packet address s ws up e =
      rw (up.is_open, e)
        (send_all_up ws address (record s { socket = opened })
          (record { is_open = refl; ascii = up.ascii; goes_out = up.goes_out }))
