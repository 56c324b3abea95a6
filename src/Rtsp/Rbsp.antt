-- ===== src/Rtsp/Rbsp.antt =====
-- The payload of a NAL unit without its emulation prevention bytes: `_nal_rbsp`, `_sps_rbsp` and
-- `_vcl_starts_new_picture` of src/okam_native/rtsp.py.
use okam_ha_proxy.Prelude.{
  ℕ, ◌+◌, bit_and, Bool, true, false, ◌&&◌, ◌||◌, [], ◌∷◌, ◌≡◌, refl, ap, arith, Option, none, some,
  Bytes, leb, ◌==◌, if◌then◌else◌, Bool-cases, inl, inr,
}
use okam_ha_proxy.Prelude.Outcome.{Result, ok, err}
use okam_ha_proxy.Rtsp.Bits.{reader_of, ue}

-- The loop of `_nal_rbsp`, behind `nulls` zero bytes.
unfoldable pub rbsp_loop : ℕ → Bytes → Bytes
rbsp_loop nulls [] = []
rbsp_loop nulls (byte ∷ bytes) =
    let drops = leb 2 nulls && byte == 3 in
    let rest = rbsp_loop (if drops then 0 else if byte == 0 then nulls + 1 else 0) bytes in
    if drops then rest else byte ∷ rest

unfoldable pub nal_rbsp : Bytes → Bytes
unfolding rbsp_loop
nal_rbsp [] = []
nal_rbsp (header ∷ bytes) = rbsp_loop 0 bytes

-- `nal[0] & 0x1F`, the callers having checked or assumed that there is a byte
abbrev pub kind_of : Bytes → ℕ
kind_of [] = 0
kind_of (header ∷ bytes) = bit_and header 0x1f

unfoldable pub sps_rbsp : Bytes → Bytes
unfolding nal_rbsp
sps_rbsp nal = if kind_of nal == 7 then nal_rbsp nal else []

abbrev pub is_vcl : Bytes → Bool
is_vcl nal = kind_of nal == 1 || kind_of nal == 5

abbrev pub first_is_zero : Result ℕ → Option Bool
first_is_zero (ok value) = some (value == 0)
first_is_zero (err e) = none

unfoldable pub vcl_starts_new_picture : Bytes → Option Bool
unfolding nal_rbsp ue
vcl_starts_new_picture nal =
    if is_vcl nal then first_is_zero (ue (reader_of (nal_rbsp nal))).0 else none

-- The encoder's side, as H.264 defines it: behind two zero bytes, a byte of at most 3 has the byte 3
-- in front of it.
unfoldable pub escape : ℕ → Bytes → Bytes
escape nulls [] = []
escape nulls (byte ∷ bytes) =
    let escapes = leb 2 nulls && leb byte 3 in
    let nulls' = if byte == 0 then (if escapes then 1 else nulls + 1) else 0 in
    let rest = byte ∷ escape nulls' bytes in if escapes then 3 ∷ rest else rest

rbsp_loop-escape : (nulls : ℕ) (bytes : Bytes) → rbsp_loop nulls (escape nulls bytes) ≡ bytes
unfolding rbsp_loop escape
rbsp_loop-escape nulls [] = refl
rbsp_loop-escape nulls (byte ∷ bytes) = elim (Bool-cases (leb 2 nulls && leb byte 3)) [
  | inl escapes ↦
      let many : leb 2 nulls ≡ true = ground arith in
      rw (escapes, many) (ap (◌∷◌ byte) (rbsp_loop-escape (if byte == 0 then 1 else 0) bytes))
  | inr plain ↦
      let kept : (leb 2 nulls && byte == 3) ≡ false = ground arith in
      rw (plain, kept) (ap (◌∷◌ byte) (rbsp_loop-escape (if byte == 0 then nulls + 1 else 0) bytes))
]

-- A payload that an encoder has escaped behind a header byte is read back.
pub nal_rbsp-escape :
    (header : ℕ) (payload : Bytes) → nal_rbsp (header ∷ escape 0 payload) ≡ payload
unfolding nal_rbsp
nal_rbsp-escape header payload = rbsp_loop-escape 0 payload
