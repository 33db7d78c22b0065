-- ===== src/Format/Zip64.antt =====
-- The ZIP64 extra field of src/format.rs read back from the bytes that the writers store.
use s_zip.Common.{
  ℕ, suc, ◌<◌, ◌≡◌, ◌≢◌, refl, ap, ◌∙◌, Bool, true, false, List, [], ◌∷◌, ◌++◌, some, none, arith,
  length, drop, All, to_le_bytes, u16_mod, u32_max, u64_mod, from_le_bytes_u64, eq_false,
}
use s_zip.Format.{found, walk_fields, zip64_values, zip64_visit, parse_zip64_extra_field}
use s_zip.Format.Extra.{
  Field, encode_field, encode_fields, Fits, walk_fields_found, zip64_values_payload,
}

-- A size or an offset that is stored in eight bytes, or not at all.
abbrev pub wide : Bool → ℕ → List ℕ
wide true v = to_le_bytes 8 v
wide false v = []

-- What stands in its four bytes of the header.
abbrev pub narrow : Bool → ℕ → ℕ
narrow true v = u32_max
narrow false v = v

abbrev pub zip64_payload : Bool → Bool → Bool → ℕ → ℕ → ℕ → List ℕ
zip64_payload bu bc bo u c o = wide bu u ++ (wide bc c ++ wide bo o)

-- A value that fits its eight bytes, and is below the placeholder where it is stored in four.
pub record Stored (b : Bool) (v : ℕ) : Type 0 where
  pub fits : v < u64_mod
  pub plain : b ≡ false → v < u32_max

zip64_values_read :
    (bu bc bo : Bool) (u c o : ℕ)
    → Stored bu u
    → Stored bc c
    → Stored bo o
    → zip64_values
        (zip64_payload bu bc bo u c o)
        0
        (length (zip64_payload bu bc bo u c o))
        (narrow bc c)
        (narrow bu u)
        (narrow bo o)
      ≡ (u, c, o)
unfolding zip64_values
zip64_values_read true true true u c o su sc so =
    ground (arith, from_le_bytes_u64 u, from_le_bytes_u64 c, from_le_bytes_u64 o)
zip64_values_read true true false u c o su sc so =
    ground (arith, so.plain refl, from_le_bytes_u64 u, from_le_bytes_u64 c)
zip64_values_read true false true u c o su sc so =
    ground (arith, sc.plain refl, from_le_bytes_u64 u, from_le_bytes_u64 o)
zip64_values_read true false false u c o su sc so =
    ground (arith, sc.plain refl, so.plain refl, from_le_bytes_u64 u)
zip64_values_read false true true u c o su sc so =
    ground (arith, su.plain refl, from_le_bytes_u64 c, from_le_bytes_u64 o)
zip64_values_read false true false u c o su sc so =
    ground (arith, su.plain refl, so.plain refl, from_le_bytes_u64 c)
zip64_values_read false false true u c o su sc so =
    ground (arith, su.plain refl, sc.plain refl, from_le_bytes_u64 o)
zip64_values_read false false false u c o su sc so =
    ground (arith, su.plain refl, sc.plain refl, so.plain refl)

abbrev pub zip64_field : List ℕ → Field
zip64_field payload = record { id = 0x0001; payload = payload }

length-payload : (bu bc bo : Bool) (u c o : ℕ) → length (zip64_payload bu bc bo u c o) < u16_mod
length-payload true true true u c o = omega arith
length-payload true true false u c o = omega arith
length-payload true false true u c o = omega arith
length-payload true false false u c o = omega arith
length-payload false true true u c o = omega arith
length-payload false true false u c o = omega arith
length-payload false false true u c o = omega arith
length-payload false false false u c o = omega arith

passes_over :
    (buf : List ℕ) (c u o : ℕ) (before : List Field)
    → All (λ f. f.id ≢ 0x0001) before
    → All (λ f. (k n : ℕ) → zip64_visit buf c u o f.id k n ≡ none) before
unfolding zip64_visit
passes_over buf c u o [] h = tt
passes_over buf c u o (f ∷ fs) (h, hs) =
    ((λ k n. rw (eq_false f.id 1 h)), passes_over buf c u o fs hs)

module _ (before : List Field) (rest : List ℕ) (bu bc bo : Bool) (u c o : ℕ)
    (fits : All Fits before) (others : All (λ f. f.id ≢ 0x0001) before) (su : Stored bu u)
    (sc : Stored bc c) (so : Stored bo o) where
  abbrev buf : List ℕ
  buf = encode_fields before ++ (encode_field (zip64_field (zip64_payload bu bc bo u c o)) ++ rest)

  takes :
      (k : ℕ)
      → drop k buf ≡ zip64_payload bu bc bo u c o ++ rest
      → zip64_visit buf
          (narrow bc c)
          (narrow bu u)
          (narrow bo o)
          0x0001
          k
          (length (zip64_payload bu bc bo u c o))
        ≡ some (u, c, o)
  unfolding zip64_visit
  takes k at = ap some (
      zip64_values_payload buf k (zip64_payload bu bc bo u c o) rest (narrow bc c) (narrow bu u)
        (narrow bo o) at
      ∙ zip64_values_read bu bc bo u c o su sc so)

  walk_found :
      walk_fields
        (zip64_visit buf (narrow bc c) (narrow bu u) (narrow bo o))
        buf
        (suc (length buf))
        0
      ≡ found (u, c, o)
  walk_found =
      walk_fields_found (zip64_visit buf (narrow bc c) (narrow bu u) (narrow bo o)) before
        (zip64_field (zip64_payload bu bc bo u c o)) rest fits
        (record { id_fits = omega arith; payload_fits = length-payload bu bc bo u c o })
        (passes_over buf (narrow bc c) (narrow bu u) (narrow bo o) before others) (u, c, o) takes

-- The parser reads back the three values that are stored in eight bytes or in the header, behind
-- any fields of other kinds and before any bytes, where a value that is stored in the header is
-- below the placeholder.
pub parse_zip64_extra_field_round_trip :
    (before : List Field) (rest : List ℕ) (bu bc bo : Bool) (u c o : ℕ)
    → All Fits before
    → All (λ f. f.id ≢ 0x0001) before
    → Stored bu u
    → Stored bc c
    → Stored bo o
    → parse_zip64_extra_field
        (encode_fields before
          ++ (encode_field (zip64_field (zip64_payload bu bc bo u c o)) ++ rest))
        (narrow bc c)
        (narrow bu u)
        (narrow bo o)
      ≡ (u, c, o)
unfolding parse_zip64_extra_field
parse_zip64_extra_field_round_trip before rest bu bc bo u c o fits others su sc so =
    rw (walk_found before rest bu bc bo u c o fits others su sc so, parse_zip64_extra_field)

-- An empty extra field leaves the values as the header has them.
pub parse_zip64_extra_field-nil : (c u o : ℕ) → parse_zip64_extra_field [] c u o ≡ (u, c, o)
unfolding parse_zip64_extra_field walk_fields
parse_zip64_extra_field-nil c u o = refl
