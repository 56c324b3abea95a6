-- ===== src/Rtsp/NalUnits.antt =====
-- NAL units of an Annex-B byte stream: `_nal_units` of src/okam_native/rtsp.py.
use okam_ha_proxy.Prelude.{
  ℕ, zero, suc, ◌+◌, Bool, true, false, ◌&&◌, List, [], ◌∷◌, ◌++◌, Bytes, length, null, take, drop,
  slice, leb, equal, if◌then◌else◌,
}

abbrev pub code3 : Bytes
code3 = 0 ∷ 0 ∷ 1 ∷ []

abbrev pub code4 : Bytes
code4 = 0 ∷ 0 ∷ 0 ∷ 1 ∷ []

-- How far the search goes on, and whether a start code is there.
abbrev pub code_at : Bytes → ℕ → ℕ × Bool
code_at carry i =
    if equal (slice i (i + 3) carry) code3
    then (3, true)
    else if leb (i + 4) (length carry) && equal (slice i (i + 4) carry) code4
    then (4, true)
    else (1, false)

-- The search loop. A round goes on by at least one byte, so the length of the stream is fuel enough.
unfoldable pub find_starts : ℕ → Bytes → ℕ → List ℕ
find_starts zero carry i = []
find_starts (suc fuel) carry i =
    let (step, found) = code_at carry i in
    let rest = find_starts fuel carry (i + step) in
    if leb (i + 3) (length carry) then (if found then i ∷ rest else rest) else []

-- `carry[begin + start_len : end]`
abbrev pub strip : Bytes → Bytes
strip segment = if equal (take 4 segment) code4 then drop 4 segment else drop 3 segment

abbrev pub strip_all : List Bytes → List Bytes
strip_all [] = []
strip_all (segment ∷ segments) =
    let nal = strip segment in if null nal then strip_all segments else nal ∷ strip_all segments

-- `carry[begin:end]` for `zip(starts, starts[1:])`
abbrev pub segments_of : Bytes → ℕ → List ℕ → List Bytes
segments_of carry begin [] = []
segments_of carry begin (end ∷ starts) = slice begin end carry ∷ segments_of carry end starts

abbrev pub last_of : ℕ → List ℕ → ℕ
last_of start [] = start
last_of start (next ∷ starts) = last_of next starts

-- The units, and what is left in `carry`.
abbrev pub split_at_starts : Bytes → List ℕ → List Bytes × Bytes
split_at_starts carry [] = ([], carry)
split_at_starts carry (start ∷ []) = ([], carry)
split_at_starts carry (start ∷ next ∷ starts) =
    (strip_all (segments_of carry start (next ∷ starts)), drop (last_of next starts) carry)

unfoldable pub nal_units : Bytes → Bytes → List Bytes × Bytes
unfolding find_starts
nal_units bytes carry =
    let extended = carry ++ bytes in
    split_at_starts extended (find_starts (length extended) extended 0)
