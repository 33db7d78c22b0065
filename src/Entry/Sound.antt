-- ===== src/Entry/Sound.antt =====
-- What is known of the bytes that `read_entry` of src/reader.rs gives, whatever the file.
use mathlib.Core.Path.{subst}
use native.Mathlib.Decide.{ℕ_discrete}
use s_zip.Common.{
  ℕ, ◌+◌, ◌≤◌, ◌≡◌, ◌⊎◌, refl, ap, ◌∙◌, inl, inr, Bool, true, false, not, List, [], Option, none,
  some, arith, length, ltb, ◌==◌, le_of_ltb, Bool-cases, if◌then◌else◌, eq_false,
}
use Prim.Native.Nat.{bit_and}
use s_zip.Outcome.{Result, ok, err, panic, ok_inj}
use s_zip.External.{External}
use s_zip.Format.{ZipEntry, max_entry_alloc, parse_aes_extra_field_buf, local_file_header_signature}
use s_zip.Encryption.{aes128, aes192, aes256, salt_size}
use s_zip.Cursor.{Cursor, Read, ◌>>=◌, pure, lift, seek_start, read_exact}
use s_zip.Cursor.Results.{
  bind-eq-ok, Keeps, Keeps-pure, Keeps-fail, Keeps-lift, Keeps-bind, Keeps-seek_start,
  Keeps-seek_current, Keeps-read_exact, read_exact-eq-ok, unless-eq-ok, lift-eq-ok,
}
use s_zip.Reader.{read_u16_le, read_u32_le}
use s_zip.Entry.{
  StreamingZipReader, AesInfo, read_auth_code, strength_of_code, parse_aes_extra_field,
  read_local_header, data_size, check_crc, read_payload, read_entry_data, read_entry,
}

Keeps-read_u16_le : Keeps read_u16_le
unfolding read_u16_le
Keeps-read_u16_le = Keeps-bind _ _ (Keeps-read_exact 2) (λ b. Keeps-pure _)

Keeps-read_u32_le : Keeps read_u32_le
unfolding read_u32_le
Keeps-read_u32_le = Keeps-bind _ _ (Keeps-read_exact 4) (λ b. Keeps-pure _)

Keeps-if : {A : Type 0} (b : Bool) (m k : Read A) → Keeps m → Keeps k → Keeps (if b then m else k)
Keeps-if true m k km kk = km
Keeps-if false m k km kk = kk

-- The salt and the verification bytes behind a field.
Keeps-strength :
    (code : Option ℕ)
    → Keeps (elim code as (λ _. Read AesInfo) [
      | none ↦ pure none
      | some code ↦ do
        strength ← lift (strength_of_code code)
        salt ← read_exact (salt_size strength)
        pw_verify ← read_exact 2
        pure (some (strength, salt, pw_verify))
    ])
Keeps-strength none = Keeps-pure none
Keeps-strength (some code) = Keeps-bind _ _ (Keeps-lift (strength_of_code code)) (λ strength.
    Keeps-bind _ _ (Keeps-read_exact (salt_size strength))
      (λ salt. Keeps-bind _ _ (Keeps-read_exact 2) (λ pw_verify. Keeps-pure _)))

Keeps-parse_aes_extra_field : (extra_len : ℕ) → Keeps (parse_aes_extra_field extra_len)
unfolding parse_aes_extra_field
Keeps-parse_aes_extra_field extra_len = Keeps-if (extra_len == 0) _ _ (Keeps-pure none) (
    Keeps-bind _ _ (Keeps-read_exact extra_len)
      (λ buffer. Keeps-strength (parse_aes_extra_field_buf buffer)))

Keeps-read_local_header : Keeps read_local_header
unfolding read_local_header
Keeps-read_local_header = Keeps-bind _ _ Keeps-read_u32_le (λ signature.
    Keeps-if (not (signature == local_file_header_signature)) _ _ (Keeps-fail _) (
      Keeps-bind _ _ (Keeps-seek_current 2) (λ u. Keeps-bind _ _ Keeps-read_u16_le (λ flags.
        Keeps-bind _ _ Keeps-read_u16_le (λ method. Keeps-bind _ _ (Keeps-seek_current 8) (λ u.
          Keeps-bind _ _ (Keeps-seek_current 8) (λ u.
            Keeps-bind _ _ Keeps-read_u16_le (λ filename_len.
              Keeps-bind _ _ Keeps-read_u16_le (λ extra_len.
                Keeps-bind _ _ (Keeps-seek_current filename_len) (λ u.
                  Keeps-if (not (bit_and flags 0x01 == 0)) _ _
                    (Keeps-parse_aes_extra_field extra_len)
                    (Keeps-bind _ _ (Keeps-seek_current extra_len) (λ u. Keeps-pure none))))))))))))

module _ (ext : External) (entry : ZipEntry) where
  -- The bytes have the checksum of the entry, where one is to be checked.
  abbrev pub IsIntact : List ℕ → Type 0
  IsIntact bytes =
      (entry.is_encrypted ≡ true) ⊎ ((entry.crc32 ≡ 0) ⊎ (ext.hasher.hash bytes ≡ entry.crc32))

  check_crc-IsIntact :
      (bytes : List ℕ) (u : Unit {0}) → check_crc ext entry bytes ≡ ok u → IsIntact bytes
  unfolding check_crc
  check_crc-IsIntact bytes u h = elim (ℕ_discrete entry.crc32 0) [
    | yes zero ↦ inr (inl zero)
    | no nonzero ↦ elim (Bool-cases entry.is_encrypted) [
      | inl encrypted ↦ inl encrypted
      | inr plain ↦ elim (ℕ_discrete (ext.hasher.hash bytes) entry.crc32) [
        | yes same ↦ inr (inr same)
        | no differs ↦
            let refused =
              rw
                (
                  eq_false entry.crc32 0 nonzero,
                  plain,
                  check_crc,
                  eq_false (ext.hasher.hash bytes) entry.crc32 differs,
                )
                at h in
            absurd (cc refused)
      ]
    ]
  ]

  overhead : (info : AesInfo) → entry.compressed_size ≤ data_size ext entry info + 28
  unfolding salt_size
  overhead none = omega arith
  overhead (some (aes128, salt, verify)) = omega arith
  overhead (some (aes192, salt, verify)) = omega arith
  overhead (some (aes256, salt, verify)) = omega arith

  payload-ok :
      (password : Option (List ℕ)) (info : AesInfo) (c c' : Cursor) (bytes : List ℕ)
      → read_payload ext password entry info c ≡ ok (bytes, c')
      → IsIntact bytes
        × (data_size ext entry info ≤ max_entry_alloc)
        × (data_size ext entry info ≤ length c.bytes)
  unfolding read_payload pure
  payload-ok password info c c' bytes h =
      let size = data_size ext entry info in
      let (small, h0) = unless-eq-ok (ltb max_entry_alloc size) _ _ c h in
      let (stored, c1, e1, h1) = bind-eq-ok (read_exact size) _ c h0 in
      let (code, c2, e2, h2) = bind-eq-ok _ _ c1 h1 in
      let (plain, c3, e3, h3) = bind-eq-ok _ _ c2 h2 in
      let (given, c4, e4, h4) = bind-eq-ok _ _ c3 h3 in
      let (u, c5, e5, h5) = bind-eq-ok _ _ c4 h4 in
      let (v, c6, e6, h6) = bind-eq-ok (lift (check_crc ext entry given)) _ c5 h5 in
      let same : given ≡ bytes = ap (λ (p : List ℕ × Cursor). p.0) (ok_inj h6) in
      (
        subst IsIntact same
            (check_crc-IsIntact given v (lift-eq-ok (check_crc ext entry given) c5 v c6 e6)),
        le_of_ltb max_entry_alloc size small,
        (read_exact-eq-ok size c stored c1 e1).1,
      )

  Keeps-read_auth_code : (info : AesInfo) → Keeps (read_auth_code ext info)
  Keeps-read_auth_code none = Keeps-pure []
  Keeps-read_auth_code (some info) = Keeps-read_exact 10

  Keeps-read_payload :
      (password : Option (List ℕ)) (info : AesInfo) → Keeps (read_payload ext password entry info)
  unfolding read_payload
  Keeps-read_payload password info =
      let size = data_size ext entry info in
      Keeps-if (ltb max_entry_alloc size) _ _ (Keeps-fail _) (
        Keeps-bind _ _ (Keeps-read_exact size) (λ stored.
          Keeps-bind _ _ (Keeps-read_auth_code info) (λ code.
            Keeps-bind _ _ (Keeps-lift _) (λ plain. Keeps-bind _ _ (Keeps-lift _) (λ given.
              Keeps-bind _ _ (Keeps-lift _)
                (λ u. Keeps-bind _ _ (Keeps-lift _) (λ v. Keeps-pure given)))))))

  -- What a successful reading has made sure of.
  pub record IsSound (r : StreamingZipReader) (bytes : List ℕ) (r' : StreamingZipReader)
      : Type 0 where
    pub intact : IsIntact bytes
    pub not_large : entry.compressed_size ≤ max_entry_alloc + 28
    pub in_file : entry.compressed_size ≤ length r.file.bytes + 28
    pub same_file : r'.file.bytes ≡ r.file.bytes
    pub same_entries : r'.entries ≡ r.entries
    pub same_password : r'.password ≡ r.password

  data_ok :
      (r : StreamingZipReader) (bytes : List ℕ) (file : Cursor)
      → read_entry_data ext r.password entry r.file ≡ ok (bytes, file)
      → IsSound r bytes (record r { file = file })
  unfolding read_entry_data
  data_ok r bytes file h =
      let (u, c1, e1, h1) = bind-eq-ok (seek_start entry.offset) _ r.file h in
      let (info, c2, e2, h2) = bind-eq-ok read_local_header _ c1 h1 in
      let (intact, not_large, in_file) = payload-ok r.password info c2 file bytes h2 in
      let same =
        Keeps-read_local_header c1 info c2 e2 ∙ Keeps-seek_start entry.offset r.file u c1 e1 in
      record {
        intact = intact;
        not_large = omega (arith, not_large, overhead info);
        in_file = omega (arith, in_file, overhead info, ap length same);
        same_file = Keeps-read_payload r.password info c2 bytes file h2 ∙ same;
        same_entries = refl;
        same_password = refl;
      }

  given_ok :
      (r : StreamingZipReader) (result : Result (List ℕ × Cursor)) (bytes : List ℕ)
      (r' : StreamingZipReader)
      → ◌≡◌ {A = Result (List ℕ × StreamingZipReader)}
          (elim result [
            | ok (bytes, file) ↦ ok (bytes, record r { file = file })
            | err e ↦ err e
            | panic ↦ panic
          ])
          (ok (bytes, r'))
      → (file : Cursor) × (result ≡ ok (bytes, file)) × (record r { file = file } ≡ r')
  given_ok r (ok (given, file)) bytes r' h = (
    file,
    ap (λ (p : List ℕ × StreamingZipReader). ok (p.0, file)) (ok_inj h),
    ap (λ (p : List ℕ × StreamingZipReader). p.1) (ok_inj h),
  )
  given_ok r (err e) bytes r' h = absurd (cc h)
  given_ok r panic bytes r' h = absurd (cc h)

  -- Whatever the file and the entry, maybe not one of the archive: where `read_entry` gives bytes, they
  -- have the checksum of the entry, if it is not encrypted and its checksum is not zero; the entry has
  -- no more data than two gibibytes and than the file has bytes, but for the 28 bytes around the
  -- data of an encrypted entry; and the reader still has its file, its entries and its password.
  pub read_entry-IsSound :
      (r : StreamingZipReader) (bytes : List ℕ) (r' : StreamingZipReader)
      → read_entry ext entry r ≡ ok (bytes, r')
      → IsSound r bytes r'
  unfolding read_entry
  read_entry-IsSound r bytes r' h =
      let (file, e, same) = given_ok r (read_entry_data ext r.password entry r.file) bytes r' h in
      subst (IsSound r bytes) same (data_ok r bytes file e)
