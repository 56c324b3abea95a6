-- ===== src/Account/Uids.antt =====
-- What the normalized identifiers and configurations are.
use okam_ha_proxy.Prelude.{◌≡◌, false, List, [], ◌∷◌, some, Text, All, null}
use okam_ha_proxy.Account.Configuration.{
  uid_empty, uids_duplicate, uids_empty, fine, Strings, Value, text, flag, null_value, other, Uids,
  uid_list, no_uids, not_a_list, contains, normalize_camera_uids, uids_loop, >>=-eq-fine,
  refuse-eq-fine,
}

-- No text twice, and none of `seen`.
abbrev pub IsFresh : List Text → List Text → Type 0
IsFresh seen [] = Unit
IsFresh seen (uid ∷ uids) = (contains seen uid ≡ false) × IsFresh (uid ∷ seen) uids

abbrev pub IsNonblank : Text → Type 0
IsNonblank uid = null uid ≡ false

pub fine-eq : {A : Type 0} {a b : A} → fine a ≡ fine b → a ≡ b
fine-eq h = cc

with_first :
    (seen : List Text) (uid : Text) (rest uids : List Text)
    → uid ∷ rest ≡ uids
    → null uid ≡ false
    → contains seen uid ≡ false
    → IsFresh (uid ∷ seen) rest
    → All IsNonblank rest
    → IsFresh seen uids × All IsNonblank uids
with_first seen uid rest uids is full new fresh nonblank = rw⁻¹ is ((new, fresh), (full, nonblank))

pub some-eq : {A : Type 0} {a b : A} → some a ≡ some b → a ≡ b
some-eq h = cc

accepted :
    (result uids : List Text)
    → result ≡ uids
    → null result ≡ false
    → IsFresh [] result × All IsNonblank result
    → (null uids ≡ false) × IsFresh [] uids × All IsNonblank uids
accepted result uids is full (fresh, nonblank) = rw⁻¹ is (full, fresh, nonblank)

module _ (strings : Strings) where
  uids_loop-IsFresh :
      (seen : List Text) (items : List Value) (uids : List Text)
      → uids_loop strings seen items ≡ fine uids
      → IsFresh seen uids × All IsNonblank uids
  unfolding uids_loop
  uids_loop-IsFresh seen [] uids h = let e : [] ≡ uids = cc in rw⁻¹ e (tt, tt)
  uids_loop-IsFresh seen (text item ∷ items) uids h =
      let uid = strings.strip item in
      let (full, h1) = refuse-eq-fine (null uid) uid_empty _ h in
      let (new, h2) = refuse-eq-fine (contains seen uid) uids_duplicate _ h1 in
      let (rest, read, h3) =
        >>=-eq-fine (uids_loop strings (uid ∷ seen) items) (λ r. fine (uid ∷ r)) h2 in
      let (fresh, nonblank) = uids_loop-IsFresh (uid ∷ seen) items rest read in
      with_first seen uid rest uids (fine-eq h3) full new fresh nonblank
  uids_loop-IsFresh seen (flag b ∷ items) uids h = cc
  uids_loop-IsFresh seen (null_value ∷ items) uids h = cc
  uids_loop-IsFresh seen (other ∷ items) uids h = cc

  -- Whatever the values of the options: the identifiers that are accepted are at least one, none of them
  -- blank and none twice.
  pub normalize_camera_uids-IsFresh :
      (given : Uids) (uids : List Text)
      → normalize_camera_uids strings given ≡ fine (some uids)
      → (null uids ≡ false) × IsFresh [] uids × All IsNonblank uids
  unfolding normalize_camera_uids
  normalize_camera_uids-IsFresh no_uids uids h = cc
  normalize_camera_uids-IsFresh not_a_list uids h = cc
  normalize_camera_uids-IsFresh (uid_list items) uids h =
      let (result, read, h1) = >>=-eq-fine (uids_loop strings [] items) _ h in
      let (some_uid, h2) = refuse-eq-fine (null result) uids_empty (fine (some result)) h1 in
      accepted result uids (some-eq (fine-eq h2)) some_uid (uids_loop-IsFresh [] items result read)
