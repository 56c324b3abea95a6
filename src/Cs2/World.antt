-- ===== src/Cs2/World.antt =====
-- What the session meets outside the program: the clock and the network, as the calls of
-- `time.monotonic`, `socket.recvfrom` and `socket.sendto` answer them.
use okam_ha_proxy.Prelude.{ℕ, Bool, Bytes}
use okam_ha_proxy.Cs2.Address.{Endpoint}

-- `recvfrom` gives a datagram and its source, times out (`ConnectionResetError` is handled alike), or
-- raises another OSError.
pub data Receipt : Type 0 where
  datagram : Bytes → Endpoint → Receipt
  timed_out : Receipt
  os_error : Receipt

-- Each function takes the number of the calls made before. Times are in milliseconds.
pub record World : Type 0 where
  pub monotonic : ℕ → ℕ
  pub recvfrom : ℕ → Receipt
  pub refuses : ℕ → Bytes → Endpoint → Bool
