-- ===== src/Cs2/Service/Parameter.antt =====
-- What a decoded directory parameter is, and the letters that decode to given bytes.
use mathlib.Core.List.{foldl}
use okam_ha_proxy.Prelude.{
  ℕ, zero, suc, ◌+◌, ◌-◌, ◌*◌, ◌/◌, ◌%◌, ◌≤◌, ◌<◌, bit_xor, Bool, true, false, not, ◌||◌, List, [],
  ◌∷◌, ◌++◌, append_assoc, append-nil, ◌≡◌, refl, ap, sym, ◌∙◌, arith, Option, none, some, Text,
  Bytes, IsBytes, All, All-append, length, get_or, null, any, ltb, ◌==◌, Bool-cases, inl, inr,
}
use okam_ha_proxy.Prelude.Bits.{xor_cancel, bit_xor-lt, bit_xor_comm}
use okam_ha_proxy.Prelude.Outcome.{
  Result, ok, service_parameter_invalid, directory_list_invalid, value_error, >>=-eq-ok,
  require-eq-ok,
}
use okam_ha_proxy.Inet.{Inet}
use okam_ha_proxy.Cs2.Cipher.{is_ascii}
use okam_ha_proxy.Cs2.Service.{
  decode_lookup, partition, decode_letters, is_letter, decode_pairs, rstrip, split_at, nonempty,
  split_servers, aton_result, check_servers, decode_service_parameter,
}

-- The byte that stands in the letters for `byte`, behind the bytes `before`.
abbrev masked : Bytes → ℕ → ℕ
masked before byte =
    bit_xor byte (bit_xor (foldl bit_xor 57 before) (get_or decode_lookup (length before % 54) 0))

-- The letters, two for each byte, the high half first.
abbrev pub letters_for : Bytes → Bytes → Text
letters_for before [] = []
letters_for before (byte ∷ rest) =
    let m = masked before byte in
    (65 + m / 16) ∷ (65 + m % 16) ∷ letters_for (before ++ byte ∷ []) rest

foldl-lt : (acc : ℕ) (bytes : Bytes) → acc < 256 → IsBytes bytes → foldl bit_xor acc bytes < 256
foldl-lt acc [] h bytes = h
foldl-lt acc (b ∷ rest) h (small, smalls) =
    foldl-lt (bit_xor acc b) rest (bit_xor-lt acc b h small) smalls

get_or-lt : (bs : Bytes) (i : ℕ) → IsBytes bs → get_or bs i 0 < 256
get_or-lt [] i h = omega arith
get_or-lt (b ∷ bs) zero (h, hs) = h
get_or-lt (b ∷ bs) (suc i) (h, hs) = get_or-lt bs i hs

decode_lookup-IsBytes : IsBytes decode_lookup
unfolding decode_lookup
decode_lookup-IsBytes = omega arith

masked-lt : (before : Bytes) (byte : ℕ) → IsBytes before → byte < 256 → masked before byte < 256
masked-lt before byte bytes small = bit_xor-lt byte _ small (
    bit_xor-lt _ _ (foldl-lt 57 before (omega arith) bytes)
      (get_or-lt decode_lookup _ decode_lookup-IsBytes))

decode_letters-masked :
    (before : Bytes) (byte : ℕ)
    → decode_letters before (65 + masked before byte / 16) (65 + masked before byte % 16) ≡ byte
decode_letters-masked before byte =
    let m = masked before byte in
    let joined : (65 + m / 16 - 65) * 16 + (65 + m % 16 - 65) ≡ m = omega arith in
    rw joined (bit_xor_comm _ m ∙ xor_cancel byte _)

-- Bytes written as letters are read back, behind whatever bytes were read before.
pub decode_pairs-letters_for :
    (before bytes : Bytes)
    → IsBytes before
    → IsBytes bytes
    → decode_pairs before (letters_for before bytes) ≡ ok (before ++ bytes)
unfolding decode_pairs
decode_pairs-letters_for before [] small smalls = ap ok (sym (append-nil before))
decode_pairs-letters_for before (byte ∷ rest) small (b_small, smalls) =
    let m = masked before byte in
    let below = masked-lt before byte small b_small in
    let high : is_letter (65 + m / 16) ≡ true = ground (arith, below) in
    let low : is_letter (65 + m % 16) ≡ true = ground (arith, below) in
    rw (high, low, decode_letters-masked before byte)
      (decode_pairs-letters_for (before ++ byte ∷ []) rest
          (All-append (λ b. b < 256) before (byte ∷ []) small (b_small, tt)) smalls
        ∙ ap ok (append_assoc before (byte ∷ []) rest))

abbrev pub IsNonempty : Text → Type 0
IsNonempty text = null text ≡ false

nonempty-IsNonempty : (items : List Text) → All IsNonempty (nonempty items)
nonempty-IsNonempty [] = tt
nonempty-IsNonempty (item ∷ items) = elim (Bool-cases (null item)) [
  | inl blank ↦ rw blank (nonempty-IsNonempty items)
  | inr full ↦ rw full (full, nonempty-IsNonempty items)
]

split_servers-IsNonempty : (text : Text) → All IsNonempty (split_servers text)
split_servers-IsNonempty text =
    let (item, items) = split_at 44 text in nonempty-IsNonempty (item ∷ items)

few_servers :
    (found : List Text)
    → not (null found || ltb 16 (length found)) ≡ true
    → (0 < length found) × (length found ≤ 16)
few_servers [] h = cc
few_servers (server ∷ rest) h = (omega arith, ground arith)

bounded_key :
    (separator : Bool) (encoded key : Text)
    → not (not separator || null key || ltb 128 (length key) || not (length encoded % 2 == 0))
      ≡ true
    → (0 < length key) × (length key ≤ 128)
bounded_key true encoded [] h = cc
bounded_key false encoded [] h = cc
bounded_key true encoded (k ∷ key) h = (omega arith, ground arith)
bounded_key false encoded (k ∷ key) h = cc

ok-pair :
    {a c : List Text} {b d : Text}
    → ◌≡◌ {A = Result (List Text × Text)} (ok (a, b)) (ok (c, d))
    → (c ≡ a) × (d ≡ b)
ok-pair h = (cc, cc)

module _ (inet : Inet) where
  -- The text of an address.
  abbrev pub IsAddress : Text → Type 0
  IsAddress text = (packed : Bytes) × (inet.aton text ≡ some packed)

  aton_result-eq-ok :
      (answer : Option Bytes) {u : Unit {0}}
      → aton_result answer ≡ ok u
      → (packed : Bytes) × (answer ≡ some packed)
  aton_result-eq-ok none h = cc
  aton_result-eq-ok (some packed) h = (packed, refl)

  check_servers-IsAddress :
      (servers : List Text) {u : Unit {0}}
      → check_servers inet servers ≡ ok u
      → All IsAddress servers
  unfolding check_servers
  check_servers-IsAddress [] h = tt
  check_servers-IsAddress (server ∷ rest) h =
      let (clean, h1) = require-eq-ok (not (any (λ c. c == 0) server)) value_error _ h in
      let (_, known, h2) = >>=-eq-ok (aton_result (inet.aton server)) _ h1 in
      (aton_result-eq-ok (inet.aton server) known, check_servers-IsAddress rest h2)

  abbrev pub IsDirectory : List Text → Text → Type 0
  IsDirectory servers key =
      (0 < length servers)
      × (length servers ≤ 16)
      × All IsNonempty servers
      × All IsAddress servers
      × (0 < length key)
      × (length key ≤ 128)
      × (is_ascii key ≡ true)

  moved :
      (found servers : List Text) (behind key : Text)
      → servers ≡ found
      → key ≡ behind
      → IsDirectory found behind
      → IsDirectory servers key
  moved found servers behind key e1 e2 good = rw (e1, e2) good

  -- A directory parameter that decodes gives 1 to 16 servers, each of them a nonempty text that
  -- `inet_aton` accepts, and an ASCII key of 1 to 128 characters, namely what stands behind the first
  -- colon.
  pub decode_service_parameter-servers :
      (value : Text) (servers : List Text) (key : Text)
      → decode_service_parameter inet value ≡ ok (servers, key)
      → IsDirectory servers key × (key ≡ (partition 58 value).2)
  unfolding decode_service_parameter
  decode_service_parameter-servers value servers key h =
      let encoded = (partition 58 value).0 in
      let separator = (partition 58 value).1 in
      let behind = (partition 58 value).2 in
      let (formed, h1) = require-eq-ok _ service_parameter_invalid _ h in
      let (sized, h2) = require-eq-ok _ service_parameter_invalid _ h1 in
      let (decoded, read, h3) = >>=-eq-ok (decode_pairs [] encoded) _ h2 in
      let (clear, h4) = require-eq-ok (is_ascii (rstrip decoded)) service_parameter_invalid _ h3 in
      let found = split_servers (rstrip decoded) in
      let (few, h5) =
        require-eq-ok (not (null found || ltb 16 (length found))) directory_list_invalid _ h4 in
      let (_, checked, h6) = >>=-eq-ok (check_servers inet found) _ h5 in
      let (ascii, h7) =
        require-eq-ok (is_ascii behind) service_parameter_invalid (ok (found, behind)) h6 in
      let (servers_are, key_is) = ok-pair {a = found} {c = servers} {b = behind} {d = key} h7 in
      let full : (0 < length found) × (length found ≤ 16) = few_servers found few in
      let short : (0 < length behind) × (length behind ≤ 128) =
        bounded_key separator encoded behind formed in
      (
        moved found servers behind key servers_are key_is (
          full.0,
          full.1,
          split_servers-IsNonempty (rstrip decoded),
          check_servers-IsAddress found checked,
          short.0,
          short.1,
          ascii,
        ),
        key_is,
      )
