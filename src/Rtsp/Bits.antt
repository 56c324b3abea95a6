-- ===== src/Rtsp/Bits.antt =====
-- The bit reader of src/okam_native/rtsp.py: `_BitReader`.
use okam_ha_proxy.Prelude.{
  ℕ, zero, suc, ◌+◌, ◌-◌, ◌*◌, ◌/◌, ◌%◌, ◌^◌, bit_and, Bytes, length, get_or, ltb, ◌==◌,
  if◌then◌else◌,
}
use okam_ha_proxy.Prelude.Outcome.{ok, err, value_error}
use okam_ha_proxy.Prelude.Exec.{Exec, pure, ◌>>=◌}

-- `_BitReader`
pub record Reader : Type 0 where
  pub bytes : Bytes
  pub offset : ℕ

abbrev pub reader_of : Bytes → Reader
reader_of bytes = record { bytes = bytes; offset = 0 }

abbrev pub Reading : Type 0 → Type 0
Reading = Exec Reader

-- `(data[offset // 8] >> (7 - offset % 8)) & 1`
abbrev pub bit_at : Bytes → ℕ → ℕ
bit_at bytes offset = bit_and (get_or bytes (offset / 8) 0 / 2 ^ (7 - offset % 8)) 1

-- The loop of `read`.
unfoldable pub read_bits : ℕ → ℕ → Reading ℕ
read_bits value zero r = (ok value, r)
read_bits value (suc count) r =
    read_bits (value * 2 + bit_at r.bytes r.offset) count (record r { offset = r.offset + 1 })

-- `read`
unfoldable pub read : ℕ → Reading ℕ
unfolding read_bits
read count r =
    if ltb (length r.bytes * 8) (r.offset + count)
    then (err value_error, r)
    else read_bits 0 count r

-- The loop of `ue`, `nulls` bits behind; after the last of its rounds it has raised.
unfoldable pub count_zeros : ℕ → ℕ → Reading ℕ
unfolding ◌>>=◌
count_zeros zero nulls r = (err value_error, r)
count_zeros (suc rounds) nulls r =
    ◌>>=◌ (read 1) (λ bit. if bit == 0 then count_zeros rounds (nulls + 1) else pure nulls) r

-- `ue`: the 32nd zero raises
unfoldable pub ue : Reading ℕ
unfolding count_zeros
ue = do nulls ← count_zeros 32 0; rest ← read nulls; pure (2 ^ nulls - 1 + rest)

-- A Python `int` that may be negative.
pub data Signed : Type 0 where
  plus minus : ℕ → Signed

-- `se`
unfoldable pub se : Reading Signed
se = do value ← ue; pure (if value % 2 == 0 then minus (value / 2) else plus ((value + 1) / 2))
