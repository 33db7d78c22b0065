-- ===== src/Format/Extra.antt =====
-- The walks over extra fields of src/format.rs, on a buffer that is a list of fields.
use s_zip.Common.{
  ℕ, zero, suc, ◌+◌, ◌≤◌, ◌<◌, ◌≡◌, ◌≢◌, refl, sym, ap, ◌∙◌, List, [], ◌∷◌, ◌++◌, Option, none,
  some, arith, length, take, drop, slice, All, length-drop, length-append, drop-drop, drop-length,
  append_assoc, to_le_bytes, from_le_bytes, u16_mod, slice-append_le, Bool-cases, ◌==◌, leb, ◌&&◌,
  inl, inr, from_le_bytes_u16,
}
use s_zip.Format.{found, stuck, walk_fields, zip64_value, zip64_values}

-- A field of an extra field block, and the bytes that carry it.
pub record Field : Type 0 where
  pub id : ℕ
  pub payload : List ℕ

unfoldable pub encode_field : Field → List ℕ
encode_field f = to_le_bytes 2 f.id ++ (to_le_bytes 2 (length f.payload) ++ f.payload)

unfoldable pub encode_fields : List Field → List ℕ
encode_fields [] = []
encode_fields (f ∷ fs) = encode_field f ++ encode_fields fs

pub record Fits (f : Field) : Type 0 where
  pub id_fits : f.id < u16_mod
  pub payload_fits : length f.payload < u16_mod

module _ (buf : List ℕ) (i : ℕ) (f : Field) (rest : List ℕ) (fits : Fits f)
    (at : drop i buf ≡ encode_field f ++ rest) where
  unfolded :
      drop i buf ≡ to_le_bytes 2 f.id ++ (to_le_bytes 2 (length f.payload) ++ (f.payload ++ rest))
  unfolding encode_field
  unfolded = at

  id_at : from_le_bytes (slice buf i 2) ≡ f.id
  id_at =
      ap (λ (t : List ℕ). from_le_bytes (take 2 t)) unfolded ∙ from_le_bytes_u16 f.id fits.id_fits

  len_at : from_le_bytes (slice buf (i + 2) 2) ≡ length f.payload
  len_at =
      ap (λ (t : List ℕ). from_le_bytes (take 2 t)) (sym (drop-drop i 2 buf))
      ∙ ap (λ (t : List ℕ). from_le_bytes (take 2 (drop 2 t))) unfolded
      ∙ from_le_bytes_u16 (length f.payload) fits.payload_fits

  payload_at : drop (i + 4) buf ≡ f.payload ++ rest
  payload_at = sym (drop-drop i 4 buf) ∙ ap (λ (t : List ℕ). drop 4 t) unfolded

  rest_at : drop (i + 4 + length f.payload) buf ≡ rest
  rest_at =
      sym (drop-drop (i + 4) (length f.payload) buf)
      ∙ ap (drop (length f.payload)) payload_at
      ∙ drop-length f.payload rest

  room : i + 4 + length f.payload + length rest ≡ length buf
  room = omega (arith, ap length unfolded, length-append f.payload rest, length-drop i buf)

  walk_fields-field :
      {A : Type 0} (visit : ℕ → ℕ → ℕ → Option A) (fuel : ℕ)
      → walk_fields visit buf (suc fuel) i ≡ elim (visit f.id (i + 4) (length f.payload)) [
        | some a ↦ found a
        | none ↦ walk_fields visit buf fuel (i + 4 + length f.payload)
      ]
  unfolding walk_fields
  walk_fields-field visit fuel = ground (arith, id_at, len_at, room)

-- A field that the visitor passes over is skipped, and one that it takes ends the walk.
module _ {A : Type 0} (buf : List ℕ) (visit : ℕ → ℕ → ℕ → Option A) where
  pub walk_fields_skip :
      (before : List Field) (fuel i : ℕ) (rest : List ℕ)
      → All Fits before
      → All (λ f. (k n : ℕ) → visit f.id k n ≡ none) before
      → drop i buf ≡ encode_fields before ++ rest
      → length buf + 1 ≤ fuel + i
      → (fuel' i' : ℕ) × (walk_fields visit buf fuel i ≡ walk_fields visit buf fuel' i')
        × (drop i' buf ≡ rest)
        × (length buf + 1 ≤ fuel' + i')
  unfolding encode_fields
  walk_fields_skip [] fuel i rest fits pass at h = (fuel, i, refl, at, h)
  walk_fields_skip (f ∷ fs) zero i rest (fit, fits) pass at h =
      let at' = at ∙ append_assoc (encode_field f) (encode_fields fs) rest in
      absurd (omega (arith, room buf i f (encode_fields fs ++ rest) fit at'))
  walk_fields_skip (f ∷ fs) (suc fuel) i rest (fit, fits) (pass, passes) at h =
      let at' = at ∙ append_assoc (encode_field f) (encode_fields fs) rest in
      let tail = encode_fields fs ++ rest in
      let (fuel', i', same, there, enough) =
        walk_fields_skip fs fuel (i + 4 + length f.payload) rest fits passes
          (rest_at buf i f tail fit at') (omega arith) in
      (
        fuel',
        i',
        walk_fields-field buf i f tail fit at' visit fuel
            ∙ rw (pass (i + 4) (length f.payload)) same,
        there,
        enough,
      )

-- The walk over fields that the visitor passes over reaches what follows them, and a field that
-- it takes there ends the walk with its value.
module _ {A : Type 0} (visit : ℕ → ℕ → ℕ → Option A) (before : List Field) (f : Field)
    (rest : List ℕ) (fits : All Fits before) (fit : Fits f)
    (pass : All (λ g. (k n : ℕ) → visit g.id k n ≡ none) before) where
  abbrev pub whole : List ℕ
  whole = encode_fields before ++ (encode_field f ++ rest)

  pub walk_fields_found :
      (value : A)
      → ((k : ℕ) → drop k whole ≡ f.payload ++ rest → visit f.id k (length f.payload) ≡ some value)
      → walk_fields visit whole (suc (length whole)) 0 ≡ found value
  walk_fields_found value takes =
      let (fuel, i, same, there, enough) =
        walk_fields_skip whole visit before (suc (length whole)) 0 (encode_field f ++ rest) fits
          pass refl (omega arith) in
      same ∙ last_round fuel i there enough
    where
      last_round :
          (fuel i : ℕ)
          → drop i whole ≡ encode_field f ++ rest
          → length whole + 1 ≤ fuel + i
          → walk_fields visit whole fuel i ≡ found value
      last_round zero i there enough = absurd (omega (arith, room whole i f rest fit there))
      last_round (suc fuel) i there enough =
          walk_fields-field whole i f rest fit there visit fuel
          ∙ rw (takes (i + 4) (payload_at whole i f rest fit there))

-- The values that the ZIP64 field's payload stands for, whatever surrounds it.
zip64_value_payload :
    (buf : List ℕ) (k : ℕ) (payload rest : List ℕ) (value_32 cursor : ℕ)
    → drop k buf ≡ payload ++ rest
    → zip64_value buf k (length payload) value_32 cursor
      ≡ zip64_value payload 0 (length payload) value_32 cursor
unfolding zip64_value
zip64_value_payload buf k payload rest v cursor at =
    elim (Bool-cases (v == 0xFFFFFFFF && leb (cursor + 8) (length payload))) [
      | inl e ↦
          let zero_cursor : 0 + cursor ≡ cursor = omega arith in
          rw (
            e,
            ← drop-drop k cursor buf,
            at,
            zero_cursor,
            slice-append_le cursor 8 payload rest (ground arith),
          )
      | inr e ↦ rw e
    ]

pub zip64_values_payload :
    (buf : List ℕ) (k : ℕ) (payload rest : List ℕ) (c u o : ℕ)
    → drop k buf ≡ payload ++ rest
    → zip64_values buf k (length payload) c u o ≡ zip64_values payload 0 (length payload) c u o
unfolding zip64_values
zip64_values_payload buf k payload rest c u o at = simp (zip64_value_payload buf k payload rest, at)

-- The fuel of the walks is enough: on any buffer they end by their own tests.
module _ {A : Type 0} (visit : ℕ → ℕ → ℕ → Option A) (buf : List ℕ) where
  walk_fields_enough :
      (fuel i : ℕ) → length buf + 1 ≤ fuel + i → 0 < fuel → walk_fields visit buf fuel i ≢ stuck
  unfolding walk_fields
  walk_fields_enough zero i h pos = absurd (omega arith)
  walk_fields_enough (suc zero) i h pos = λ e. ground arith
  walk_fields_enough (suc (suc fuel)) i h pos = λ e.
      ground (arith, walk_fields_enough (suc fuel) (i + 4 + from_le_bytes (slice buf (i + 2) 2)))

  pub walk_fields-ne-stuck : walk_fields visit buf (suc (length buf)) 0 ≢ stuck
  walk_fields-ne-stuck = walk_fields_enough (suc (length buf)) 0 (omega arith) (omega arith)
