-- ===== src/Cs2/Session/Stable.antt =====
-- The single updates of which the rounds of a session are made.
use okam_ha_proxy.Prelude.{ℕ, ◌+◌, ◌≤◌, true, none, Bytes, set}
use okam_ha_proxy.Cs2.Channel.{accept}
use okam_ha_proxy.Cs2.State.{Session, SocketState, Pending, PendingKey, Counters}
use okam_ha_proxy.Cs2.Pending.{pop_pending, put_pending, handle_ack}
use okam_ha_proxy.Cs2.Session.{channel_at}
use okam_ha_proxy.Cs2.Session.Sending.{SentOnly}

-- A predicate that each of them keeps.
pub record IsStable (P : Session → Type 0) : Type 0 where
  pub sending : (s t : Session) → SentOnly s t → P s → P t
  pub counting : (s : Session) (counters : Counters) → P s → P (record s { counters = counters })
  pub clocking : (s : Session) → P s → P (record s { clock_reads = s.clock_reads + 1 })
  pub receiving : (s : Session) → P s → P (record s { receives = s.receives + 1 })
  pub popping :
      (s : Session) (key : PendingKey) → P s → P (record s { pending = pop_pending key s.pending })
  pub putting :
      (s : Session) (key : PendingKey) (value : Pending)
      → value.attempts ≤ 20
      → P s
      → P (record s { pending = put_pending key value s.pending })
  pub acking :
      (s : Session) (packet : Bytes) → P s → P (record s { pending = handle_ack packet s.pending })
  pub accepting :
      (s : Session) (channel sequence : ℕ) (payload : Bytes)
      → P s
      → P (record s {
        incoming = set s.incoming channel (accept (channel_at s channel) sequence payload);
      })
  pub closing :
      (s : Session) (socket : SocketState)
      → P s
      → P (record s { socket = socket; closed = true; peer = none })
