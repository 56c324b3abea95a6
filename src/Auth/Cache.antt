-- ===== src/Auth/Cache.antt =====
-- The cache of the sources that worked: `CredentialSourceCache` of src/okam_native/auth.py. The
-- file that `_save_locked` writes is not modelled: what it fails to store is still in `_values`.
use okam_ha_proxy.Prelude.{
  false, List, [], ◌∷◌, Option, none, some, Text, equal, if◌then◌else◌, Bool-cases, inl, inr, ◌≡◌,
  refl, equal_self, equal-eq,
}
use okam_ha_proxy.Auth.Candidates.{Source}

-- `{"source": source, "source_uid": source_uid}`
pub record Entry : Type 0 where
  pub source : Source
  pub source_uid : Option Text

abbrev pub Cache : Type 0
Cache = List (Text × Entry)

-- `get` and `get_source_uid`
unfoldable pub get : Text → Cache → Option Entry
get uid [] = none
get uid (entry ∷ entries) = if equal uid entry.0 then some entry.1 else get uid entries

-- `invalidate`
unfoldable pub invalidate : Text → Cache → Cache
invalidate uid [] = []
invalidate uid (entry ∷ entries) =
    let rest = invalidate uid entries in if equal uid entry.0 then rest else entry ∷ rest

-- `set`
unfoldable pub set_source : Text → Entry → Cache → Cache
set_source uid entry [] = (uid, entry) ∷ []
set_source uid entry (old ∷ entries) =
    let rest = set_source uid entry entries in
    if equal uid old.0 then (uid, entry) ∷ entries else old ∷ rest

pub get-invalidate_self : (uid : Text) (cache : Cache) → get uid (invalidate uid cache) ≡ none
unfolding get invalidate
get-invalidate_self uid [] = refl
get-invalidate_self uid (entry ∷ entries) = elim (Bool-cases (equal uid entry.0)) [
  | inl same ↦ rw same (get-invalidate_self uid entries)
  | inr differs ↦ rw differs (rw differs (get-invalidate_self uid entries))
]

pub get-invalidate_other :
    (uid other : Text) (cache : Cache)
    → equal other uid ≡ false
    → get other (invalidate uid cache) ≡ get other cache
unfolding get invalidate
get-invalidate_other uid other [] h = refl
get-invalidate_other uid other (entry ∷ entries) h = elim (Bool-cases (equal uid entry.0)) [
  | inl same ↦
      let names = equal-eq uid entry.0 same in
      let away : equal other entry.0 ≡ false = rw names at h in
      rw (same, away) (get-invalidate_other uid other entries h)
  | inr differs ↦ rw (differs, get-invalidate_other uid other entries h) refl
]

pub get-set_source_self :
    (uid : Text) (entry : Entry) (cache : Cache) → get uid (set_source uid entry cache) ≡ some entry
unfolding get set_source
get-set_source_self uid entry [] = rw (equal_self uid) refl
get-set_source_self uid entry (old ∷ entries) = elim (Bool-cases (equal uid old.0)) [
  | inl same ↦ rw (same, equal_self uid) refl
  | inr differs ↦ rw differs (rw differs (get-set_source_self uid entry entries))
]

pub get-set_source_other :
    (uid other : Text) (entry : Entry) (cache : Cache)
    → equal other uid ≡ false
    → get other (set_source uid entry cache) ≡ get other cache
unfolding get set_source
get-set_source_other uid other entry [] h = rw h refl
get-set_source_other uid other entry (old ∷ entries) h = elim (Bool-cases (equal uid old.0)) [
  | inl same ↦
      let names = equal-eq uid old.0 same in
      let away : equal other old.0 ≡ false = rw names at h in rw (same, h, away) refl
  | inr differs ↦ rw (differs, get-set_source_other uid other entry entries h) refl
]
