-- ===== src/Rtsp/Sps.antt =====
-- The frame duration of a sequence parameter set: `_frame_ticks_from_sps` of
-- src/okam_native/rtsp.py.
use okam_ha_proxy.Prelude.{
  ℕ, zero, suc, ◌+◌, ◌*◌, ◌/◌, ◌%◌, ◌≤◌, ◌≡◌, ◌&&◌, ◌||◌, [], ◌∷◌, List, arith, Option, none, some,
  Bytes, any, leb, ltb, ◌==◌, if◌then◌else◌, Bool-cases, inl, inr,
}
use okam_ha_proxy.Prelude.Outcome.{Result, ok, err}
use okam_ha_proxy.Prelude.Exec.{pure, ◌>>=◌, ◌>>◌}
use okam_ha_proxy.Prelude.Exec.Returns.{Returns, any-Returns, bind-Returns}
use okam_ha_proxy.Rtsp.Bits.{Reader, Reading, reader_of, Signed, plus, minus, read, ue, se}
use okam_ha_proxy.Rtsp.Rbsp.{sps_rbsp}

abbrev pub rtp_clock : ℕ
rtp_clock = 90000

-- The profiles that carry chroma fields.
abbrev pub chroma_profiles : List ℕ
chroma_profiles = 44 ∷ 83 ∷ 86 ∷ 100 ∷ 110 ∷ 118 ∷ 122 ∷ 128 ∷ 134 ∷ 138 ∷ 139 ∷ 244 ∷ []

abbrev pub when : ℕ → Reading (Unit {0}) → Reading (Unit {0})
when flag m = if flag == 0 then pure tt else m

abbrev pub skip : Reading ℕ → Reading (Unit {0})
skip m = m >>= λ _. pure tt

-- `for _ in range(count): reader.ue()`
unfoldable pub skip_ues : ℕ → Reading (Unit {0})
skip_ues zero = pure tt
skip_ues (suc count) = ue >> skip_ues count

-- `for _ in range(count): reader.se()`
unfoldable pub skip_ses : ℕ → Reading (Unit {0})
skip_ses zero = pure tt
skip_ses (suc count) = se >> skip_ses count

-- `(last_scale + delta) % 256`; 255 and -1 are the same modulo 256
abbrev pub moved_scale : ℕ → Signed → ℕ
moved_scale last (plus n) = (last + n) % 256
moved_scale last (minus n) = (last + 255 * n) % 256

-- `next_scale`, unless it is 0 already
abbrev pub next_scale : ℕ → ℕ → Reading ℕ
next_scale last next = if next == 0 then pure 0 else (se >>= λ delta. pure (moved_scale last delta))

-- The loop over the entries of a scaling list.
unfoldable pub scaling_list : ℕ → ℕ → ℕ → Reading (Unit {0})
scaling_list zero last next = pure tt
scaling_list (suc count) last next =
    next_scale last next >>= λ next'. scaling_list count (if next' == 0 then last else next') next'

-- The loop over the scaling lists, `index` being the first that is left.
unfoldable pub scaling_lists : ℕ → ℕ → Reading (Unit {0})
scaling_lists zero index = pure tt
scaling_lists (suc count) index = do
  present ← read 1
  when present (scaling_list (if ltb index 6 then 16 else 64) 8 8)
  scaling_lists count (index + 1)

unfoldable pub chroma_fields : Reading (Unit {0})
unfolding scaling_lists
chroma_fields = do
  chroma_format ← ue
  when (if chroma_format == 3 then 1 else 0) (skip (read 1))
  skip ue
  skip ue
  skip (read 1)
  matrix ← read 1
  when matrix (scaling_lists (if chroma_format == 3 then 12 else 8) 0)

abbrev pub poc_cycle : Reading (Unit {0})
poc_cycle = do skip (read 1); skip_ses 2; count ← ue; skip_ses count

unfoldable pub poc_fields : Reading (Unit {0})
poc_fields = do
  poc_type ← ue
  if poc_type == 0 then skip ue else if poc_type == 1 then poc_cycle else pure tt

-- From the profile up to the cropping of the picture.
unfoldable pub picture_fields : Reading (Unit {0})
unfolding chroma_fields poc_fields
picture_fields = do
  profile_idc ← read 8
  skip (read 8)
  skip (read 8)
  skip ue
  if any (λ p. p == profile_idc) chroma_profiles then chroma_fields else pure tt
  skip ue
  poc_fields
  skip ue
  skip (read 1)
  skip_ues 2
  frame_mbs_only ← read 1
  if frame_mbs_only == 0 then skip (read 1) else pure tt
  skip (read 1)
  cropping ← read 1
  when cropping (skip_ues 4)

abbrev pub aspect_ratio : Reading (Unit {0})
aspect_ratio = do
  aspect_ratio_idc ← read 8
  if aspect_ratio_idc == 255 then skip (read 32) else pure tt

abbrev pub video_signal : Reading (Unit {0})
video_signal = do skip (read 3); colour ← read 1; when colour (skip (read 24))

-- The fields of the VUI in front of its timing.
unfoldable pub vui_fields : Reading (Unit {0})
vui_fields = do
  aspect ← read 1
  when aspect aspect_ratio
  overscan ← read 1
  when overscan (skip (read 1))
  signal ← read 1
  when signal video_signal
  location ← read 1
  when location (skip_ues 2)

-- One frame in ticks of the 90 kHz clock, rounded.
abbrev pub frame_ticks : ℕ → ℕ → ℕ → Option ℕ
frame_ticks units scale fixed =
    let ticks = (rtp_clock * 2 * units + scale / 2) / scale in
    if fixed == 0 || units == 0 || scale == 0
    then none
    else if leb 1 ticks && leb ticks (rtp_clock * 10)
    then some ticks
    else none

unfoldable pub timing_fields : Reading (Option ℕ)
timing_fields = do
  num_units_in_tick ← read 32
  time_scale ← read 32
  fixed_frame_rate ← read 1
  pure (frame_ticks num_units_in_tick time_scale fixed_frame_rate)

unfoldable pub sps_fields : Reading (Option ℕ)
unfolding picture_fields vui_fields timing_fields
sps_fields = do
  picture_fields
  vui_present ← read 1
  if vui_present == 0
      then pure none
      else (vui_fields
          >> (read 1 >>= λ timing_present.
              if timing_present == 0 then pure none else timing_fields))

abbrev pub or_none : Result (Option ℕ) → Option ℕ
or_none (ok ticks) = ticks
or_none (err e) = none

unfoldable pub frame_ticks_from_sps : Bytes → Option ℕ
unfolding sps_fields
frame_ticks_from_sps nal = or_none (sps_fields (reader_of (sps_rbsp nal))).0

-- A clock step that the RTP clock can take: at most ten seconds.
abbrev pub IsStep : Option ℕ → Type 0
IsStep none = Unit
IsStep (some ticks) = (1 ≤ ticks) × (ticks ≤ 900000)

frame_ticks-IsStep : (units scale fixed : ℕ) → IsStep (frame_ticks units scale fixed)
frame_ticks-IsStep units scale fixed = elim (Bool-cases (fixed == 0 || units == 0 || scale == 0)) [
  | inl unusable ↦ rw unusable tt
  | inr usable ↦
      let ticks = (rtp_clock * 2 * units + scale / 2) / scale in
      elim (Bool-cases (leb 1 ticks && leb ticks (rtp_clock * 10))) [
        | inl fits ↦ rw (usable, fits) (ground arith, ground arith)
        | inr unfit ↦ rw (usable, unfit) tt
      ]
]

timing_fields-IsStep : (r : Reader) → Returns (λ ticks _. IsStep ticks) (timing_fields r)
unfolding timing_fields pure
timing_fields-IsStep r =
    bind-Returns (λ _ _. Unit) _ (read 32) _ r (any-Returns _)
      λ units r1 _.
        bind-Returns (λ _ _. Unit) _ (read 32) _ r1 (any-Returns _)
          λ scale r2 _.
            bind-Returns (λ _ _. Unit) _ (read 1) _ r2 (any-Returns _)
              λ fixed r3 _. frame_ticks-IsStep units scale fixed

timing-IsStep :
    (timing : ℕ) (r : Reader)
    → Returns (λ ticks _. IsStep ticks) ((if timing == 0 then pure none else timing_fields) r)
unfolding pure
timing-IsStep timing r = elim (Bool-cases (timing == 0)) [
  | inl absent ↦ rw absent tt
  | inr present ↦ rw present (timing_fields-IsStep r)
]

sps_fields-IsStep : (r : Reader) → Returns (λ ticks _. IsStep ticks) (sps_fields r)
unfolding sps_fields pure
sps_fields-IsStep r =
    bind-Returns (λ _ _. Unit) _ picture_fields _ r (any-Returns _)
      λ _ r1 _.
        bind-Returns (λ _ _. Unit) _ (read 1) _ r1 (any-Returns _)
          λ vui r2 _. elim (Bool-cases (vui == 0)) [
            | inl absent ↦ rw absent tt
            | inr present ↦ rw present (
                bind-Returns (λ _ _. Unit) _ vui_fields _ r2 (any-Returns _)
                  λ _ r3 _.
                    bind-Returns (λ _ _. Unit) _ (read 1) _ r3 (any-Returns _)
                      λ timing r4 _. timing-IsStep timing r4)
          ]

or_none-IsStep :
    (outcome : Result (Option ℕ) × Reader)
    → Returns (λ ticks _. IsStep ticks) outcome
    → IsStep (or_none outcome.0)
or_none-IsStep (ok ticks, r) h = h
or_none-IsStep (err e, r) h = tt

-- A frame duration that a parameter set yields, whatever its bytes, is at least one tick of the
-- 90 kHz clock and at most ten seconds.
pub frame_ticks_from_sps-bounds :
    (nal : Bytes) (ticks : ℕ)
    → frame_ticks_from_sps nal ≡ some ticks
    → (1 ≤ ticks) × (ticks ≤ 900000)
unfolding frame_ticks_from_sps
frame_ticks_from_sps-bounds nal ticks h =
    rw h at (or_none-IsStep _ (sps_fields-IsStep (reader_of (sps_rbsp nal))))
