-- ===== src/Cs2/Channel.antt =====
-- The receiving side of one channel in src/okam_native/cs2.py: the reassembly in `_handle_data` and the
-- buffer that `read_exact` takes from. `_incoming_sequence[c]`, `_channel_buffers[c]` and
-- `_out_of_order[c]` are the three fields of the channel `c`.
pub mod Stream
pub mod Drain
pub mod Delivery
pub mod Loss
use okam_ha_proxy.Prelude.{
  ℕ, zero, suc, ◌+◌, ◌-◌, ◌%◌, Bool, true, false, not, ◌&&◌, List, [], ◌∷◌, ◌++◌, Option, none,
  some, Bytes, length, take, drop, ltb, ◌==◌, if◌then◌else◌,
}

-- `dict[int, bytes]` in the order of insertion
abbrev pub Held : Type 0
Held = List (ℕ × Bytes)

unfoldable pub lookup : ℕ → Held → Option Bytes
lookup sequence [] = none
lookup sequence ((k, body) ∷ rest) = if k == sequence then some body else lookup sequence rest

unfoldable pub without : ℕ → Held → Held
without sequence [] = []
without sequence ((k, body) ∷ rest) =
    let others = without sequence rest in if k == sequence then others else (k, body) ∷ others

pub record Channel : Type 0 where
  pub expected : ℕ
  pub buffer : Bytes
  pub held : Held

abbrev pub empty_channel : Channel
empty_channel = record { expected = 0; buffer = []; held = [] }

-- `self._channel_buffers[channel].extend(payload)` and `expected = (expected + 1) & 0xFFFF`
abbrev pub deliver : Channel → Bytes → Held → Channel
deliver c payload held = record {
  expected = (c.expected + 1) % 65536;
  buffer = c.buffer ++ payload;
  held = held;
}

-- `while expected in self._out_of_order[channel]`. Every round takes an entry away, so the number of
-- entries is fuel enough.
unfoldable pub drain : ℕ → Channel → Channel
drain zero c = c
drain (suc fuel) c = elim (lookup c.expected c.held) [
  | none ↦ c
  | some payload ↦ drain fuel (deliver c payload (without c.expected c.held))
]

abbrev pub is_some {ℓ} : {A : Type ℓ} → Option A → Bool
is_some none = false
is_some (some _) = true

-- A packet ahead of its turn is kept if it is less than half the sequence space ahead.
unfoldable pub hold : Channel → ℕ → Bytes → Channel
hold c sequence payload =
    let distance = (sequence + 65536 - c.expected) % 65536 in
    if ltb 0 distance && ltb distance 0x8000
    then record c { held = c.held ++ (sequence, payload) ∷ [] }
    else c

-- The end of `_handle_data`, from `expected = self._incoming_sequence[channel]` on.
unfoldable pub accept : Channel → ℕ → Bytes → Channel
accept c sequence payload =
    if sequence == c.expected
    then drain (length c.held) (deliver c payload c.held)
    else if not (is_some (lookup sequence c.held)) && ltb (length c.held) 64
    then hold c sequence payload
    else c

-- The end of `read_exact`: `bytes(buffer[:size])` and `del buffer[:size]`.
unfoldable pub consume : ℕ → Channel → Bytes × Channel
consume size c = (take size c.buffer, record c { buffer = drop size c.buffer })
