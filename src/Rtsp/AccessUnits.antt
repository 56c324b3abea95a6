-- ===== src/Rtsp/AccessUnits.antt =====
-- Access units: `_AccessUnitAssembler` of src/okam_native/rtsp.py.
use okam_ha_proxy.Prelude.{
  ◌≡◌, refl, sym, ap, ◌∙◌, append_assoc, append-nil, arith, Bool, true, false, not, ◌&&◌, ◌||◌,
  List, [], ◌∷◌, ◌++◌, Option, some, Bytes, All, All-append, any, concat, null, ◌==◌, if◌then◌else◌,
  Bool-cases, inl, inr,
}
use okam_ha_proxy.Rtsp.Rbsp.{kind_of, is_vcl, vcl_starts_new_picture}

pub record Assembler : Type 0 where
  pub units : List Bytes
  pub has_vcl : Bool

abbrev pub empty_assembler : Assembler
empty_assembler = record { units = []; has_vcl = false }

abbrev pub is_not_false : Option Bool → Bool
is_not_false (some false) = false
is_not_false _ = true

-- The three parts of `push`, each with what it makes ready: an access-unit delimiter, a coded slice,
-- any other unit.
abbrev pub push_delimiter : Bytes → Assembler → Assembler × List (List Bytes)
push_delimiter nal a =
    if not (null a.units) && a.has_vcl
    then (record { units = nal ∷ []; has_vcl = false }, a.units ∷ [])
    else (record { units = a.units ++ nal ∷ []; has_vcl = false }, [])

abbrev pub push_vcl : Bytes → Assembler → Assembler × List (List Bytes)
push_vcl nal a =
    if a.has_vcl && is_not_false (vcl_starts_new_picture nal)
    then (record { units = nal ∷ []; has_vcl = true }, a.units ∷ [])
    else (record { units = a.units ++ nal ∷ []; has_vcl = true }, [])

abbrev pub push_other : Bytes → Assembler → Assembler × List (List Bytes)
push_other nal a =
    if (kind_of nal == 7 || kind_of nal == 8) && a.has_vcl
    then (record { units = nal ∷ []; has_vcl = false }, a.units ∷ [])
    else (record a { units = a.units ++ nal ∷ [] }, [])

unfoldable pub push : Bytes → Assembler → Assembler × List (List Bytes)
push nal a =
    if kind_of nal == 9
    then push_delimiter nal a
    else if is_vcl nal
    then push_vcl nal a
    else push_other nal a

unfoldable pub flush : Assembler → Assembler × List (List Bytes)
flush a = if not (null a.units) && a.has_vcl then (empty_assembler, a.units ∷ []) else (a, [])

-- The calls of `push` in the loop of `_stream`, with all that became ready.
unfoldable pub push_all : List Bytes → Assembler → Assembler × List (List Bytes)
unfolding push
push_all [] a = (a, [])
push_all (nal ∷ nals) a =
    let (after, ready) = push nal a in
    let (last, others) = push_all nals after in (last, ready ++ others)

-- The units hold a coded slice, where the assembler says so.
abbrev pub IsConsistent : Assembler → Type 0
IsConsistent a = a.has_vcl ≡ true → any is_vcl a.units ≡ true

abbrev pub IsPicture : List Bytes → Type 0
IsPicture units = any is_vcl units ≡ true

-- What one step does: nothing is lost or put out of order, and what is ready has a slice.
abbrev HasPushed : Bytes → Assembler → Assembler × List (List Bytes) → Type 0
HasPushed nal a after =
    (concat after.1 ++ after.0.units ≡ a.units ++ nal ∷ [])
    × All IsPicture after.1
    × IsConsistent after.0

any-last :
    (nal : Bytes) (units : List Bytes)
    → any is_vcl units ≡ true
    → any is_vcl (units ++ nal ∷ []) ≡ true
any-last nal [] h = cc
any-last nal (unit ∷ units) h = elim (Bool-cases (is_vcl unit)) [
  | inl slice ↦ rw slice refl
  | inr other ↦ rw other (any-last nal units (rw other at h))
]

any-new :
    (nal : Bytes) (units : List Bytes) → is_vcl nal ≡ true → any is_vcl (units ++ nal ∷ []) ≡ true
any-new nal [] h = rw h refl
any-new nal (unit ∷ units) h = elim (Bool-cases (is_vcl unit)) [
  | inl slice ↦ rw slice refl
  | inr other ↦ rw other (any-new nal units h)
]

push_delimiter-HasPushed :
    (nal : Bytes) (a : Assembler) → IsConsistent a → HasPushed nal a (push_delimiter nal a)
push_delimiter-HasPushed nal a consistent = elim (Bool-cases (not (null a.units) && a.has_vcl)) [
  | inl ends ↦
      rw ends
        (ap (λ u. u ++ nal ∷ []) (append-nil a.units), (consistent (ground arith), tt), λ e. cc)
  | inr goes_on ↦ rw goes_on (refl, tt, λ e. cc)
]

push_vcl-HasPushed :
    (nal : Bytes) (a : Assembler)
    → is_vcl nal ≡ true
    → IsConsistent a
    → HasPushed nal a (push_vcl nal a)
push_vcl-HasPushed nal a slice consistent =
    elim (Bool-cases (a.has_vcl && is_not_false (vcl_starts_new_picture nal))) [
      | inl ends ↦ rw ends (
        ap (λ u. u ++ nal ∷ []) (append-nil a.units),
        (consistent (ground arith), tt),
        λ e. any-new nal [] slice,
      )
      | inr goes_on ↦ rw goes_on (refl, tt, λ e. any-new nal a.units slice)
    ]

push_other-HasPushed :
    (nal : Bytes) (a : Assembler) → IsConsistent a → HasPushed nal a (push_other nal a)
push_other-HasPushed nal a consistent =
    elim (Bool-cases ((kind_of nal == 7 || kind_of nal == 8) && a.has_vcl)) [
      | inl ends ↦
          rw ends
            (ap (λ u. u ++ nal ∷ []) (append-nil a.units), (consistent (ground arith), tt), λ e. cc)
      | inr goes_on ↦ rw goes_on (refl, tt, λ e. any-last nal a.units (consistent e))
    ]

push-HasPushed : (nal : Bytes) (a : Assembler) → IsConsistent a → HasPushed nal a (push nal a)
unfolding push
push-HasPushed nal a consistent = elim (Bool-cases (kind_of nal == 9)) [
  | inl delimiter ↦ rw delimiter (push_delimiter-HasPushed nal a consistent)
  | inr unit ↦ rw unit (elim (Bool-cases (is_vcl nal)) [
    | inl slice ↦ rw slice (push_vcl-HasPushed nal a slice consistent)
    | inr other ↦ rw other (push_other-HasPushed nal a consistent)
  ])
]

concat-append : (xs ys : List (List Bytes)) → concat (xs ++ ys) ≡ concat xs ++ concat ys
concat-append [] ys = refl
concat-append (x ∷ xs) ys =
    ap (λ r. x ++ r) (concat-append xs ys) ∙ sym (append_assoc x (concat xs) (concat ys))

-- Over any run of NAL units, from an assembler whose mark of a coded slice is true of what it holds:
-- the access units made ready, one after the other, and what is still held are together the units held
-- before and those pushed, in order, none lost and none twice; every access unit has a coded slice;
-- and the mark stays true of what is held.
pub push_all-units :
    (nals : List Bytes) (a : Assembler)
    → IsConsistent a
    → (concat (push_all nals a).1 ++ (push_all nals a).0.units ≡ a.units ++ nals)
      × All IsPicture (push_all nals a).1
      × IsConsistent (push_all nals a).0
unfolding push_all
push_all-units [] a consistent = (sym (append-nil a.units), tt, consistent)
push_all-units (nal ∷ nals) a consistent =
    let (kept, pictures, good) = push-HasPushed nal a consistent in
    let after = (push nal a).0 in
    let ready = (push nal a).1 in
    let (rest, others, last) = push_all-units nals after good in
    (
      ap (λ c. c ++ (push_all nals after).0.units) (concat-append ready (push_all nals after).1)
          ∙ append_assoc (concat ready) (concat (push_all nals after).1)
              (push_all nals after).0.units
          ∙ ap (λ r. concat ready ++ r) rest
          ∙ sym (append_assoc (concat ready) after.units nals)
          ∙ ap (λ r. r ++ nals) kept
          ∙ append_assoc a.units (nal ∷ []) nals,
      All-append IsPicture ready _ pictures others,
      last,
    )
