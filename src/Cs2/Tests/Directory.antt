-- ===== src/Cs2/Tests/Directory.antt =====
-- Instances of the theorems on the directory parameter and the device identifier.
use okam_ha_proxy.Prelude.{
  ℕ, ◌-◌, ◌<◌, true, ◌||◌, [], ◌∷◌, ◌≡◌, refl, arith, Option, none, some, IsBytes, codes, length,
  slice, if◌then◌else◌, Bool-cases, inl, inr,
}
use okam_ha_proxy.Prelude.Outcome.{ok}
use okam_ha_proxy.Unicode.{Unicode, is_ascii_digit, is_ascii_alpha}
use okam_ha_proxy.Cs2.Service.{
  decode_lookup, decode_service_parameter, decode_pairs, partition, encode_uid, parse_int,
}
use okam_ha_proxy.Cs2.Service.Parameter.{
  letters_for, decode_pairs-letters_for, IsDirectory, decode_service_parameter-servers,
}
use okam_ha_proxy.Cs2.Service.Identifier.{layout, encode_uid-layout}
use okam_ha_proxy.Cs2.Examples.{device, plain_inet}

abbrev digit_value : ℕ → Option ℕ
digit_value c = if is_ascii_digit c then some (c - 48) else none

digit_value-lt : (c d : ℕ) → digit_value c ≡ some d → d < 10
digit_value-lt c d h = elim (Bool-cases (is_ascii_digit c)) [
  | inl digit ↦ ground arith
  | inr other ↦ ground arith
]

digit_value_lem : (c : ℕ) → is_ascii_digit c ≡ true → digit_value c ≡ some (c - 48)
digit_value_lem c h = rw h refl

-- A `str` with no letters or digits beyond ASCII.
abbrev ascii_only : Unicode
ascii_only = record {
  isalnum = λ c. is_ascii_digit c || is_ascii_alpha c;
  isdigit = is_ascii_digit;
  isalpha = is_ascii_alpha;
  decimal = digit_value;
  isalnum_ascii = λ c h. refl;
  isdigit_ascii = λ c h. refl;
  isalpha_ascii = λ c h. refl;
  decimal_ascii = digit_value_lem;
  decimal-lt = digit_value-lt;
}

decode_pairs-letters_for_instance :
    decode_pairs [] (letters_for [] (codes "abcd,efgh")) ≡ ok (codes "abcd,efgh")
decode_pairs-letters_for_instance = decode_pairs-letters_for [] (codes "abcd,efgh") tt (omega arith)

two_servers :
    decode_service_parameter plain_inet (codes "BBGDBKAAKEMLHPNGFK:k")
    ≡ ok (codes "abcd" ∷ codes "efgh" ∷ [], codes "k")
unfolding decode_service_parameter partition decode_pairs decode_lookup
two_servers = refl

decode_service_parameter-servers_example :
    IsDirectory plain_inet (codes "abcd" ∷ codes "efgh" ∷ []) (codes "k")
    × (codes "k" ≡ (partition 58 (codes "BBGDBKAAKEMLHPNGFK:k")).2)
decode_service_parameter-servers_example =
    decode_service_parameter-servers plain_inet (codes "BBGDBKAAKEMLHPNGFK:k")
      (codes "abcd" ∷ codes "efgh" ∷ []) (codes "k") two_servers

device_uid : encode_uid ascii_only (codes "ABCD123456VWXYZ") ≡ ok device
unfolding encode_uid
device_uid = refl

encode_uid-layout_example :
    (length (codes "ABCD123456VWXYZ") ≡ 15)
    × (length device ≡ 20)
    × IsBytes device
    × ((serial : ℕ) × (parse_int ascii_only 0 (slice 4 10 (codes "ABCD123456VWXYZ")) ≡ ok serial)
        × (serial < 1000000)
        × (device ≡ layout (codes "ABCD123456VWXYZ") serial))
encode_uid-layout_example = encode_uid-layout ascii_only (codes "ABCD123456VWXYZ") device device_uid
