-- ===== src/Cs2/Address/RoundTrip.antt =====
-- `decode_network_address` inverts `encode_network_address`, and the other way round.
use mathlib.Core.List.{reverse}
use okam_ha_proxy.Prelude.{
  ℕ, ◌<◌, true, false, ◌&&◌, ◌≡◌, ◌≢◌, refl, ◌∙◌, sym, [], ◌∷◌, ◌++◌, arith, Text, Bytes, IsBytes,
  codes, equal, equal_iff, length, take, replicate, from_bytes_little, to_bytes2_little,
  from_bytes_little-to_bytes2_little, ltb, leb, Bool-cases, inl, inr,
}
use okam_ha_proxy.Prelude.Outcome.{ok, ◌>>=◌}
use okam_ha_proxy.Inet.{Inet}
use okam_ha_proxy.Cs2.Address.{Endpoint, encode_network_address, decode_network_address}

module _ (inet : Inet) where
  -- Two packed addresses with one text are one address.
  ntoa-injective :
      (p q : Bytes)
      → length p ≡ 4
      → IsBytes p
      → length q ≡ 4
      → IsBytes q
      → inet.ntoa p ≡ inet.ntoa q
      → p ≡ q
  ntoa-injective p q lp bp lq bq e = cc (inet.aton-ntoa p lp bp, inet.aton-ntoa q lq bq)

  ntoa-ne-any :
      (p : Bytes)
      → length p ≡ 4
      → IsBytes p
      → p ≢ 0 ∷ 0 ∷ 0 ∷ 0 ∷ []
      → equal (inet.ntoa p) (codes "0.0.0.0") ≡ false
  ntoa-ne-any p lp bp ne = elim (Bool-cases (equal (inet.ntoa p) (codes "0.0.0.0"))) [
    | inl same ↦ absurd (
        ne (
          ntoa-injective p (0 ∷ 0 ∷ 0 ∷ 0 ∷ []) lp bp refl (omega arith)
            ((equal_iff _ _).0 same ∙ sym inet.ntoa_zero)))
    | inr other ↦ other
  ]

  -- The sixteen bytes of an address with the packed form and the port spelled out.
  decode_packed :
      (a b c d port : ℕ)
      → IsBytes (a ∷ b ∷ c ∷ d ∷ [])
      → (a ∷ b ∷ c ∷ d ∷ []) ≢ (0 ∷ 0 ∷ 0 ∷ 0 ∷ [])
      → 0 < port
      → port < 65536
      → decode_network_address inet (
          (0x00 ∷ 0x02 ∷ [])
          ++ (to_bytes2_little port ++ (reverse (a ∷ b ∷ c ∷ d ∷ []) ++ replicate 8 0)))
        ≡ ok (inet.ntoa (a ∷ b ∷ c ∷ d ∷ []), port)
  unfolding decode_network_address
  decode_packed a b c d port bytes ne lo hi =
      rw
        (from_bytes_little-to_bytes2_little port hi, ntoa-ne-any (a ∷ b ∷ c ∷ d ∷ []) refl bytes ne)
        (ground arith)

  -- A port of 1 to 65535 with the text of an address other than 0.0.0.0 is encoded to bytes from which
  -- the same text and port are decoded; neither step raises.
  pub decode_network_address-encode_network_address :
      (a b c d port : ℕ)
      → IsBytes (a ∷ b ∷ c ∷ d ∷ [])
      → (a ∷ b ∷ c ∷ d ∷ []) ≢ (0 ∷ 0 ∷ 0 ∷ 0 ∷ [])
      → 0 < port
      → port < 65536
      → (encode_network_address inet (inet.ntoa (a ∷ b ∷ c ∷ d ∷ [])) port
          >>= decode_network_address inet)
        ≡ ok (inet.ntoa (a ∷ b ∷ c ∷ d ∷ []), port)
  unfolding encode_network_address
  decode_network_address-encode_network_address a b c d port bytes ne lo hi =
      let in_range : (ltb 0 port && leb port 65535) ≡ true = ground arith in
      rw (in_range, inet.aton-ntoa (a ∷ b ∷ c ∷ d ∷ []) refl bytes)
        (decode_packed a b c d port bytes ne lo hi)

  -- What a decoded payload says of its first eight bytes.
  decoded_fields :
      (t u p q a b c d : ℕ) (rest : Bytes) (host : Text) (port : ℕ)
      → decode_network_address inet (t ∷ u ∷ p ∷ q ∷ a ∷ b ∷ c ∷ d ∷ rest) ≡ ok (host, port)
      → (t ≡ 0)
        × (u ≡ 2)
        × (host ≡ inet.ntoa (d ∷ c ∷ b ∷ a ∷ []))
        × (port ≡ from_bytes_little (p ∷ q ∷ []))
        × (port ≢ 0)
  unfolding decode_network_address
  decoded_fields t u p q a b c d rest host port h = ground arith

  encode_decoded :
      (p q a b c d port : ℕ)
      → IsBytes (p ∷ q ∷ a ∷ b ∷ c ∷ d ∷ [])
      → port ≡ from_bytes_little (p ∷ q ∷ [])
      → port ≢ 0
      → encode_network_address inet (inet.ntoa (d ∷ c ∷ b ∷ a ∷ [])) port
        ≡ ok (0 ∷ 2 ∷ p ∷ q ∷ a ∷ b ∷ c ∷ d ∷ replicate 8 0)
  unfolding encode_network_address
  encode_decoded p q a b c d port bytes e ne =
      let in_range : (ltb 0 port && leb port 65535) ≡ true = ground arith in
      rw (in_range, inet.aton-ntoa (d ∷ c ∷ b ∷ a ∷ []) refl (omega arith)) (ground arith)

  too_short :
      (payload : Bytes) (decoded : Endpoint)
      → length payload < 16
      → decode_network_address inet payload ≢ ok decoded
  unfolding decode_network_address
  too_short payload decoded h =
      let short : ltb (length payload) 16 ≡ true = ground arith in rw short (λ e. cc)

  -- If a payload of bytes decodes to a host and a port, then that host and port encode to its first
  -- eight bytes followed by eight zeros.
  pub encode_network_address-decode_network_address :
      (payload : Bytes) (host : Text) (port : ℕ)
      → IsBytes payload
      → decode_network_address inet payload ≡ ok (host, port)
      → encode_network_address inet host port ≡ ok (take 8 payload ++ replicate 8 0)
  encode_network_address-decode_network_address (t ∷ u ∷ p ∷ q ∷ a ∷ b ∷ c ∷ d ∷ rest) host port
        (bt, (bu, (bp, (bq, (ba, (bb, (bc, (bd, _)))))))) h =
      let (zero_t, two_u, e, port_is, ne) = decoded_fields t u p q a b c d rest host port h in
      rw (e, zero_t, two_u)
        (encode_decoded p q a b c d port (bp, (bq, (ba, (bb, (bc, (bd, tt)))))) port_is ne)
  encode_network_address-decode_network_address payload host port bytes h =
      absurd (too_short payload (host, port) (omega arith) h)
