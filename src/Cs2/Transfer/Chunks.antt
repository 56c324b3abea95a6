-- ===== src/Cs2/Transfer/Chunks.antt =====
-- The chunks of a payload, which `write` sends one by one.
use okam_ha_proxy.Prelude.{
  ℕ, zero, suc, ◌≤◌, ◌<◌, [], ◌∷◌, ◌++◌, ◌≡◌, refl, ap, ◌∙◌, arith, Bytes, All, concat, length,
  length-take, length-drop, take, drop, take-append-drop,
}
use okam_ha_proxy.Cs2.Transfer.{chunks_of, chunks}

abbrev pub IsChunk : Bytes → Type 0
IsChunk chunk = (0 < length chunk) × (length chunk ≤ 1024)

concat-chunks_of :
    (fuel : ℕ) (payload : Bytes)
    → length payload ≤ fuel
    → (concat (chunks_of fuel payload) ≡ payload) × All IsChunk (chunks_of fuel payload)
unfolding chunks_of
concat-chunks_of zero [] h = (refl, tt)
concat-chunks_of zero (b ∷ payload) h = absurd (omega arith)
concat-chunks_of (suc fuel) [] h = (refl, tt)
concat-chunks_of (suc fuel) (b ∷ payload) h =
    let bytes = b ∷ payload in
    let (joined, sizes) =
      concat-chunks_of fuel (drop 1024 bytes) (omega (arith, length-drop 1024 bytes)) in
    (
      ap (λ rest. take 1024 bytes ++ rest) joined ∙ take-append-drop 1024 bytes,
      (omega (arith, length-take 1024 bytes), sizes),
    )

-- The chunks of a payload, one after the other, are the payload, and each has 1 to 1024 bytes: the
-- rounds of the model are enough for the loop.
pub concat-chunks :
    (payload : Bytes) → (concat (chunks payload) ≡ payload) × All IsChunk (chunks payload)
unfolding chunks
concat-chunks payload = concat-chunks_of (length payload) payload (omega arith)
