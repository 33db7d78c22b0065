-- ===== src/Format/Aes.antt =====
-- The WinZip AES extra field of src/format.rs.
use s_zip.Common.{
  ℕ, zero, suc, ◌+◌, ◌≤◌, ◌<◌, ◌≡◌, ◌≢◌, refl, sym, ap, ◌∙◌, ◌^◌, leb-true, List, [], ◌∷◌, ◌++◌,
  some, none, arith, length, drop, get_or, All, get_or-drop, eq_false,
}
use s_zip.Format.{aes_visit, parse_aes_extra_field_buf}
use s_zip.Format.Extra.{Field, encode_field, encode_fields, Fits, walk_fields_found}

passes_over :
    (buf : List ℕ) (before : List Field)
    → All (λ f. f.id ≢ 0x9901) before
    → All (λ f. (k n : ℕ) → aes_visit buf f.id k n ≡ none) before
unfolding aes_visit
passes_over buf [] h = tt
passes_over buf (f ∷ fs) (h, hs) = ((λ k n. rw (eq_false f.id 0x9901 h)), passes_over buf fs hs)

get_or-append : (xs ys : List ℕ) (i : ℕ) → i < length xs → get_or (xs ++ ys) i 0 ≡ get_or xs i 0
get_or-append [] ys i h = absurd (omega arith)
get_or-append (x ∷ xs) ys zero h = refl
get_or-append (x ∷ xs) ys (suc i) h = get_or-append xs ys i (omega arith)

module _ (before : List Field) (payload rest : List ℕ) (fits : All Fits before)
    (others : All (λ f. f.id ≢ 0x9901) before) (long : 7 ≤ length payload)
    (short : length payload < 2 ^ 16) where
  abbrev aes : Field
  aes = record { id = 0x9901; payload = payload }

  abbrev buf : List ℕ
  buf = encode_fields before ++ (encode_field aes ++ rest)

  takes :
      (k : ℕ)
      → drop k buf ≡ payload ++ rest
      → aes_visit buf 0x9901 k (length payload) ≡ some (get_or payload 4 0)
  unfolding aes_visit
  takes k at =
      let strength : get_or buf (k + 4) 0 ≡ get_or payload 4 0 =
        sym (get_or-drop k 4 buf 0)
        ∙ ap (λ (t : List ℕ). get_or t 4 0) at
        ∙ get_or-append payload rest 4 (omega arith) in
      rw (leb-true 7 (length payload) long, strength)

  -- Behind fields of other kinds the strength code is the fifth byte of the AES field's payload.
  pub parse_aes_extra_field_buf_round_trip :
      parse_aes_extra_field_buf
        (encode_fields before ++ (encode_field (record { id = 0x9901; payload = payload }) ++ rest))
      ≡ some (get_or payload 4 0)
  unfolding parse_aes_extra_field_buf
  parse_aes_extra_field_buf_round_trip = rw (
    walk_fields_found (aes_visit buf) before aes rest fits
        (record { id_fits = omega arith; payload_fits = short }) (passes_over buf before others)
        (get_or payload 4 0) takes,
    parse_aes_extra_field_buf,
  )
