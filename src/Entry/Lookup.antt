-- ===== src/Entry/Lookup.antt =====
-- `find_entry` and `read_entry_by_name` of src/reader.rs: the first entry of a name.
use s_zip.Common.{
  ℕ, ◌≡◌, ◌≢◌, refl, ap, ◌∙◌, ◌⊎◌, inl, inr, false, List, [], ◌∷◌, ◌++◌, none, some, All, bytes_eq,
  bytes_eq→eq, bytes_eq_refl, Bool-cases,
}
use s_zip.Outcome.{err, entry_not_found}
use s_zip.External.{External}
use s_zip.Format.{ZipEntry}
use s_zip.Entry.{StreamingZipReader, first_named, find_entry, read_entry, read_entry_by_name}

abbrev pub Named : List ℕ → ZipEntry → Type 0
Named name e = e.name ≡ name

-- The entry of the name that has none of it before it.
pub record IsFirst (name : List ℕ) (es : List ZipEntry) (e : ZipEntry) : Type 0 where
  pub before : List ZipEntry
  pub after : List ZipEntry
  pub place : es ≡ before ++ (e ∷ after)
  pub named : e.name ≡ name
  pub none_before : All (λ f. f.name ≢ name) before

not_named : (name other : List ℕ) → bytes_eq other name ≡ false → other ≢ name
not_named name other e h = cc (e, ap (λ (t : List ℕ). bytes_eq t name) h ∙ bytes_eq_refl name)

first_named_cases :
    (name : List ℕ) (es : List ZipEntry)
    → ((e : ZipEntry) × (first_named name es ≡ some e) × IsFirst name es e)
      ⊎ (first_named name es ≡ none) × All (λ f. f.name ≢ name) es
unfolding first_named
first_named_cases name [] = inr (refl, tt)
first_named_cases name (e ∷ es) = elim (Bool-cases (bytes_eq e.name name)) [
  | inl b ↦ inl (
    e,
    rw b,
    record {
      before = [];
      after = es;
      place = refl;
      named = bytes_eq→eq e.name name b;
      none_before = tt;
    },
  )
  | inr b ↦ elim (first_named_cases name es) [
    | inl (f, same, first) ↦ inl (
      f,
      rw b same,
      record {
        before = e ∷ first.before;
        after = first.after;
        place = ap (λ (t : List ZipEntry). e ∷ t) first.place;
        named = first.named;
        none_before = (not_named name e.name b, first.none_before);
      },
    )
    | inr (same, others) ↦ inr (rw b same, (not_named name e.name b, others))
  ]
]

module _ (ext : External) (name : List ℕ) (r : StreamingZipReader) where
  -- Reading by name reads the first entry of the central directory that has the name, and fails
  -- with `EntryNotFound` where no entry has it.
  pub read_entry_by_name-IsFirst :
      ((e : ZipEntry) × IsFirst name r.entries e
        × (read_entry_by_name ext name r ≡ read_entry ext e r))
      ⊎ All (λ f. f.name ≢ name) r.entries
        × (read_entry_by_name ext name r ≡ err (entry_not_found name))
  unfolding read_entry_by_name find_entry
  read_entry_by_name-IsFirst = elim (first_named_cases name r.entries) [
    | inl (e, same, first) ↦ inl (e, first, rw (same, read_entry_by_name))
    | inr (same, others) ↦ inr (others, rw (same, read_entry_by_name))
  ]
