-- ===== src/Rtsp/StartCodes.antt =====
-- What `_nal_units` of src/okam_native/rtsp.py yields and keeps, by the places of the start codes.
use okam_ha_proxy.Prelude.{
  ℕ, zero, suc, ◌+◌, ◌-◌, ◌≤◌, ◌<◌, ◌≡◌, ◌≢◌, ◌⊎◌, refl, sym, ap, ◌∙◌, arith, true, false, ◌&&◌,
  List, [], ◌∷◌, ◌++◌, Bytes, length, length-take, length-drop, take, drop, slice, map, leb, equal,
  equal-eq, Bool-cases, inl, inr,
}
use okam_ha_proxy.Rtsp.NalUnits.{
  code3, code4, code_at, find_starts, strip, strip_all, segments_of, last_of, split_at_starts,
  nal_units,
}

-- A start code of `k` bytes.
abbrev pub CodeAt : Bytes → ℕ → ℕ → Type 0
CodeAt carry i k =
    ((k ≡ 3) × (take 3 (drop i carry) ≡ 0 ∷ 0 ∷ 1 ∷ []))
    ⊎ ((k ≡ 4) × (take 4 (drop i carry) ≡ 0 ∷ 0 ∷ 0 ∷ 1 ∷ []))

abbrev pub NoCode : Bytes → ℕ → Type 0
NoCode carry i =
    (take 3 (drop i carry) ≢ 0 ∷ 0 ∷ 1 ∷ []) × (take 4 (drop i carry) ≢ 0 ∷ 0 ∷ 0 ∷ 1 ∷ [])

-- From `low` on, these are all places with a start code, each with the length of the code, where the next
-- one is looked for behind the code before.
abbrev pub IsCut : Bytes → ℕ → List (ℕ × ℕ) → Type 0
IsCut carry low [] = (i : ℕ) → low ≤ i → NoCode carry i
IsCut carry low ((start, k) ∷ cuts) =
    (low ≤ start)
    × ((i : ℕ) → low ≤ i → i < start → NoCode carry i)
    × CodeAt carry start k
    × IsCut carry (start + k) cuts

-- What stands between one code and the next.
abbrev pub bodies : Bytes → List (ℕ × ℕ) → List Bytes
bodies carry [] = []
bodies carry (cut ∷ []) = []
bodies carry ((start, k) ∷ (next, k') ∷ cuts) =
    take (next - (start + k)) (drop (start + k) carry) ∷ bodies carry ((next, k') ∷ cuts)

abbrev pub non_empty : List Bytes → List Bytes
non_empty [] = []
non_empty ([] ∷ nals) = non_empty nals
non_empty ((b ∷ bytes) ∷ nals) = (b ∷ bytes) ∷ non_empty nals

-- The stream from the last of the codes on, where there are two at least.
abbrev pub last_cut : ℕ → List (ℕ × ℕ) → ℕ
last_cut start [] = start
last_cut start ((next, k) ∷ cuts) = last_cut next cuts

abbrev pub retained : Bytes → List (ℕ × ℕ) → Bytes
retained carry [] = carry
retained carry (cut ∷ []) = carry
retained carry (cut ∷ (next, k) ∷ cuts) = drop (last_cut next cuts) carry

drop-nil : (n : ℕ) → drop {A = ℕ} n [] ≡ []
drop-nil zero = refl
drop-nil (suc n) = refl

drop-drop :
    (begin end : ℕ) (carry : Bytes)
    → begin ≤ end
    → drop (end - begin) (drop begin carry) ≡ drop end carry
drop-drop zero end carry h = let e : end - 0 ≡ end = omega arith in rw e refl
drop-drop (suc begin) zero carry h = absurd (omega arith)
drop-drop (suc begin) (suc end) [] h = drop-nil (suc end - suc begin)
drop-drop (suc begin) (suc end) (b ∷ bytes) h =
    let e : suc end - suc begin ≡ end - begin = omega arith in
    rw e (drop-drop begin end bytes (omega arith))

take-take : (m n : ℕ) (bytes : Bytes) → m ≤ n → take m (take n bytes) ≡ take m bytes
take-take zero n bytes h = refl
take-take (suc m) zero bytes h = absurd (omega arith)
take-take (suc m) (suc n) [] h = refl
take-take (suc m) (suc n) (b ∷ bytes) h = ap (◌∷◌ b) (take-take m n bytes (omega arith))

drop-take : (m n : ℕ) (bytes : Bytes) → drop m (take n bytes) ≡ take (n - m) (drop m bytes)
drop-take zero n bytes = let e : n - 0 ≡ n = omega arith in rw e refl
drop-take (suc m) zero bytes = let e : 0 - suc m ≡ 0 = omega arith in rw e refl
drop-take (suc m) (suc n) [] = sym (take-nil (suc n - suc m))
  where
    take-nil : (k : ℕ) → take {A = ℕ} k [] ≡ []
    take-nil zero = refl
    take-nil (suc k) = refl
drop-take (suc m) (suc n) (b ∷ bytes) =
    let e : suc n - suc m ≡ n - m = omega arith in rw e (drop-take m n bytes)

slice-take : (i k : ℕ) (carry : Bytes) → slice i (i + k) carry ≡ take k (drop i carry)
slice-take i k carry = let e : i + k - i ≡ k = omega arith in rw e refl

-- There is room for a code that is there.
room : (i k : ℕ) (carry : Bytes) → k ≤ length (take k (drop i carry)) → 0 < k → i + k ≤ length carry
room i k carry h some_k = omega (arith, length-take k (drop i carry), length-drop i carry)

NoCode-end : (carry : Bytes) (i : ℕ) → length carry < i + 3 → NoCode carry i
NoCode-end carry i h = (
  (λ e. let fits = room i 3 carry (rw e (omega arith)) (omega arith) in absurd (omega arith)),
  (λ e. let fits = room i 4 carry (rw e (omega arith)) (omega arith) in absurd (omega arith)),
)

code_at-step : (carry : Bytes) (i : ℕ) → 1 ≤ (code_at carry i).0
code_at-step carry i = ground arith

code_at-found :
    (carry : Bytes) (i : ℕ) → (code_at carry i).1 ≡ true → CodeAt carry i (code_at carry i).0
code_at-found carry i found = elim (Bool-cases (equal (slice i (i + 3) carry) code3)) [
  | inl three ↦
      rw three
        (inl (refl, sym (slice-take i 3 carry) ∙ equal-eq (slice i (i + 3) carry) code3 three))
  | inr other ↦
      elim (Bool-cases (leb (i + 4) (length carry) && equal (slice i (i + 4) carry) code4)) [
        | inl four ↦
            let same : equal (slice i (i + 4) carry) code4 ≡ true = ground arith in
            rw (other, four)
              (inr (refl, sym (slice-take i 4 carry) ∙ equal-eq (slice i (i + 4) carry) code4 same))
        | inr neither ↦ absurd (ground arith)
      ]
]

code_at-absent :
    (carry : Bytes) (i : ℕ)
    → (code_at carry i).1 ≡ false
    → ((code_at carry i).0 ≡ 1) × NoCode carry i
code_at-absent carry i absent = (
  ground arith,
  (
    (λ e.
        let three : equal (slice i (i + 3) carry) code3 ≡ true =
          rw (slice-take i 3 carry, e) refl in
        absurd (ground arith)),
    (λ e.
        let fits = room i 4 carry (rw e (omega arith)) (omega arith) in
        let four : equal (slice i (i + 4) carry) code4 ≡ true = rw (slice-take i 4 carry, e) refl in
        absurd (ground arith)),
  ),
)

earlier :
    (carry : Bytes) (i j : ℕ)
    → NoCode carry i
    → i ≤ j
    → (i + 1 ≤ j → NoCode carry j)
    → NoCode carry j
earlier carry i j none_here low later = elim (Bool-cases (leb (i + 1) j)) [
  | inl above ↦ later (ground arith)
  | inr same ↦ let e : j ≡ i = ground arith in rw e none_here
]

IsCut-earlier :
    (carry : Bytes) (i next : ℕ) (cuts : List (ℕ × ℕ))
    → next ≡ i + 1
    → NoCode carry i
    → IsCut carry next cuts
    → IsCut carry i cuts
IsCut-earlier carry i next [] one none_here later =
    λ j low. earlier carry i j none_here low (λ h. later j (omega arith))
IsCut-earlier carry i next ((start, k) ∷ cuts) one none_here (low, clear, code, others) = (
  omega arith,
  (λ j above below. earlier carry i j none_here above (λ h. clear j (omega arith) below)),
  code,
  others,
)

-- The places that the loop finds, with the lengths of the codes there.
abbrev marks : Bytes → List ℕ → List (ℕ × ℕ)
marks carry starts = map (λ start. (start, (code_at carry start).0)) starts

find_starts-IsCut :
    (fuel : ℕ) (carry : Bytes) (i : ℕ)
    → length carry ≤ i + fuel
    → IsCut carry i (marks carry (find_starts fuel carry i))
unfolding find_starts
find_starts-IsCut zero carry i enough = λ j low. NoCode-end carry j (omega arith)
find_starts-IsCut (suc fuel) carry i enough = elim (Bool-cases (leb (i + 3) (length carry))) [
  | inr ended ↦ rw ended (λ j low. NoCode-end carry j (ground arith))
  | inl inside ↦
      let step = (code_at carry i).0 in
      let ih = find_starts-IsCut fuel carry (i + step) (omega (arith, code_at-step carry i)) in
      elim (Bool-cases (code_at carry i).1) [
        | inl found ↦
            rw (inside, found)
              (
                omega arith,
                (λ j above below. absurd (omega arith)),
                code_at-found carry i found,
                ih,
              )
        | inr absent ↦
            let (one, clear) = code_at-absent carry i absent in
            rw (inside, absent) (IsCut-earlier carry i (i + step) _ (omega arith) clear ih)
      ]
]

strip-slice :
    (carry : Bytes) (begin end k : ℕ)
    → CodeAt carry begin k
    → begin + k ≤ end
    → strip (slice begin end carry) ≡ take (end - (begin + k)) (drop (begin + k) carry)
strip-slice carry begin end k (inr (is, code)) far =
    let size : 4 ≤ end - begin = omega arith in
    let starts : take 4 (slice begin end carry) ≡ code4 =
      take-take 4 (end - begin) (drop begin carry) size ∙ code in
    let e : end - begin - 4 ≡ end - (begin + 4) = omega arith in
    let f : begin + 4 - begin ≡ 4 = omega arith in
    let rest : drop 4 (drop begin carry) ≡ drop (begin + 4) carry =
      rw f at (drop-drop begin (begin + 4) carry (omega arith)) in
    rw (is, starts) (drop-take 4 (end - begin) (drop begin carry) ∙ rw (e, rest) refl)
strip-slice carry begin end k (inl (is, code)) far =
    let size : 3 ≤ end - begin = omega arith in
    let segment = slice begin end carry in
    let starts : take 3 segment ≡ code3 =
      take-take 3 (end - begin) (drop begin carry) size ∙ code in
    let other : equal (take 4 segment) code4 ≡ false =
      elim (Bool-cases (equal (take 4 segment) code4)) [
        | inl four ↦
            let zeros : take 3 segment ≡ 0 ∷ 0 ∷ 0 ∷ [] =
              sym (take-take 3 4 segment (omega arith))
              ∙ ap (take 3) (equal-eq (take 4 segment) code4 four) in
            absurd (different (sym starts ∙ zeros))
        | inr differs ↦ differs
      ] in
    let e : end - begin - 3 ≡ end - (begin + 3) = omega arith in
    let f : begin + 3 - begin ≡ 3 = omega arith in
    let rest : drop 3 (drop begin carry) ≡ drop (begin + 3) carry =
      rw f at (drop-drop begin (begin + 3) carry (omega arith)) in
    rw (is, other) (drop-take 3 (end - begin) (drop begin carry) ∙ rw (e, rest) refl)
  where
    different : code3 ≡ 0 ∷ 0 ∷ 0 ∷ [] → ⊥
    different h = ground arith

strip_all-cons :
    (segment body : Bytes) (segments : List Bytes) (nals : List Bytes)
    → strip segment ≡ body
    → strip_all segments ≡ non_empty nals
    → strip_all (segment ∷ segments) ≡ non_empty (body ∷ nals)
strip_all-cons segment [] segments nals h k = rw (h, k) refl
strip_all-cons segment (b ∷ bytes) segments nals h k = rw (h, k) refl

strip_all-bodies :
    (carry : Bytes) (low begin : ℕ) (starts : List ℕ)
    → IsCut carry low (marks carry (begin ∷ starts))
    → strip_all (segments_of carry begin starts)
      ≡ non_empty (bodies carry (marks carry (begin ∷ starts)))
strip_all-bodies carry low begin [] cut = refl
strip_all-bodies carry low begin (end ∷ starts) (above, clear, code, others) =
    strip_all-cons (slice begin end carry) _ (segments_of carry end starts) _
      (strip-slice carry begin end (code_at carry begin).0 code others.0)
      (strip_all-bodies carry (begin + (code_at carry begin).0) end starts others)

last_cut-marks :
    (carry : Bytes) (start : ℕ) (starts : List ℕ)
    → last_of start starts ≡ last_cut start (marks carry starts)
last_cut-marks carry start [] = refl
last_cut-marks carry start (next ∷ starts) = last_cut-marks carry next starts

split_at_starts-marks :
    (carry : Bytes) (starts : List ℕ)
    → IsCut carry 0 (marks carry starts)
    → split_at_starts carry starts
      ≡ (non_empty (bodies carry (marks carry starts)), retained carry (marks carry starts))
split_at_starts-marks carry [] cut = refl
split_at_starts-marks carry (start ∷ []) cut = refl
split_at_starts-marks carry (start ∷ next ∷ starts) cut =
    rw (strip_all-bodies carry 0 start (next ∷ starts) cut, last_cut-marks carry next starts) refl

-- What `_nal_units` yields and what it keeps of the stream, which is what was kept before and the new
-- bytes: there are places that are all the places with a start code, of three bytes or of four, where each
-- is looked for behind the code before; the units are what stands between one code and the next, the
-- empty ones left out; and what is kept is the stream from the last code on, or all of it where there
-- are fewer than two codes.
pub nal_units-cuts :
    (bytes carry : Bytes)
    → (cuts : List (ℕ × ℕ)) × IsCut (carry ++ bytes) 0 cuts
      × (nal_units bytes carry
          ≡ (non_empty (bodies (carry ++ bytes) cuts), retained (carry ++ bytes) cuts))
unfolding nal_units
nal_units-cuts bytes carry =
    let extended = carry ++ bytes in
    let starts = find_starts (length extended) extended 0 in
    let cut = find_starts-IsCut (length extended) extended 0 (omega arith) in
    (marks extended starts, cut, split_at_starts-marks extended starts cut)
