-- ===== src/Format/Scan.antt =====
-- The backward searches of src/format.rs against the signature as a slice of the buffer.
use mathlib.Core.Path.{subst}
use native.Mathlib.Decide.{dec_lt}
use s_zip.Common.{
  ℕ, zero, suc, ◌+◌, ◌-◌, ◌≤◌, ◌<◌, ◌≡◌, sym, ap, ◌∙◌, ◌⊎◌, inl, inr, true, false, List, [], ◌∷◌,
  ◌++◌, Option, none, some, arith, Bool-cases, Option-cases, length, take, drop, slice, length-take,
  length-drop, length-append, get_or-drop, drop-append_ge, drop_append, drop-drop, ltb-false, refl,
  to_le_bytes, from_le_bytes_u64, u64_mod,
}
use s_zip.Format.{signature_at, last_signature, find_eocd_in_buffer, find_zip64_eocd_offset}

-- The signature "PK" c d stands at index `i`.
abbrev pub HasSignature : List ℕ → ℕ → ℕ → ℕ → Type 0
HasSignature buffer c d i = slice buffer i 4 ≡ 0x50 ∷ 0x4b ∷ c ∷ d ∷ []

test_four :
    (xs : List ℕ) (c d : ℕ) → 4 ≤ length xs → signature_at xs c d 0 ≡ true → HasSignature xs c d 0
unfolding signature_at
test_four (w ∷ x ∷ y ∷ z ∷ xs) c d h e = ground arith
test_four [] c d h e = absurd (omega arith)
test_four (w ∷ []) c d h e = absurd (omega arith)
test_four (w ∷ x ∷ []) c d h e = absurd (omega arith)
test_four (w ∷ x ∷ y ∷ []) c d h e = absurd (omega arith)

four_test : (xs : List ℕ) (c d : ℕ) → HasSignature xs c d 0 → signature_at xs c d 0 ≡ true
unfolding signature_at
four_test [] c d e = cc
four_test (w ∷ []) c d e = cc
four_test (w ∷ x ∷ []) c d e = cc
four_test (w ∷ x ∷ y ∷ []) c d e = cc
four_test (w ∷ x ∷ y ∷ z ∷ xs) c d e = ground arith

signature_at-drop :
    (buffer : List ℕ) (c d i : ℕ) → signature_at buffer c d i ≡ signature_at (drop i buffer) c d 0
unfolding signature_at
signature_at-drop buffer c d i = ground (
  arith,
  get_or-drop i 0 buffer 0,
  get_or-drop i 1 buffer 0,
  get_or-drop i 2 buffer 0,
  get_or-drop i 3 buffer 0,
)

test→HasSignature :
    (buffer : List ℕ) (c d i : ℕ)
    → i + 3 < length buffer
    → signature_at buffer c d i ≡ true
    → HasSignature buffer c d i
test→HasSignature buffer c d i h e =
    test_four (drop i buffer) c d (omega (arith, length-drop i buffer))
      (sym (signature_at-drop buffer c d i) ∙ e)

HasSignature→test :
    (buffer : List ℕ) (c d i : ℕ) → HasSignature buffer c d i → signature_at buffer c d i ≡ true
HasSignature→test buffer c d i e = signature_at-drop buffer c d i ∙ four_test (drop i buffer) c d e

-- The signature stands at `i`, below `n`, and at no later index below `n`.
pub record IsLast (buffer : List ℕ) (c d n i : ℕ) : Type 0 where
  pub below : i < n
  pub here : HasSignature buffer c d i
  pub no_later : (j : ℕ) → i < j → j < n → ¬ HasSignature buffer c d j

-- The result of the search below `n`: the last index, or none and no index.
abbrev pub Finds : List ℕ → ℕ → ℕ → ℕ → Option ℕ → Type 0
Finds buffer c d n none = (j : ℕ) → j < n → ¬ HasSignature buffer c d j
Finds buffer c d n (some i) = IsLast buffer c d n i

not_at :
    (buffer : List ℕ) (c d i : ℕ) → signature_at buffer c d i ≡ false → ¬ HasSignature buffer c d i
not_at buffer c d i e h = cc (HasSignature→test buffer c d i h)

-- Below `n + 1` is below `n`, or `n` itself.
no_match :
    (buffer : List ℕ) (c d n j : ℕ)
    → signature_at buffer c d n ≡ false
    → HasSignature buffer c d j
    → (j < n → ¬ HasSignature buffer c d j)
    → j < suc n
    → ⊥
no_match buffer c d n j e s below h = elim (dec_lt j n) [
  | yes p ↦ below p s
  | no p ↦
      let same : j ≡ n = omega arith in
      not_at buffer c d n e (subst (λ (k : ℕ). HasSignature buffer c d k) same s)
]

widen :
    (buffer : List ℕ) (c d n : ℕ) (o : Option ℕ)
    → signature_at buffer c d n ≡ false
    → Finds buffer c d n o
    → Finds buffer c d (suc n) o
widen buffer c d n none e f = λ j h s. no_match buffer c d n j e s (f j) h
widen buffer c d n (some i) e f = record {
  below = omega (arith, f.below);
  here = f.here;
  no_later = λ j p q s. no_match buffer c d n j e s (f.no_later j p) q;
}

pub last_signature-Finds :
    (buffer : List ℕ) (c d n : ℕ)
    → n + 3 ≤ length buffer ⊎ n ≡ 0
    → Finds buffer c d n (last_signature buffer c d n)
unfolding last_signature
last_signature-Finds buffer c d zero h = λ j lt s. absurd (omega arith)
last_signature-Finds buffer c d (suc n) h = elim (Bool-cases (signature_at buffer c d n)) [
  | inl e ↦ rw e (record {
    below = omega arith;
    here = test→HasSignature buffer c d n (omega arith) e;
    no_later = λ j p q s. absurd (omega arith);
  })
  | inr e ↦ rw e (widen buffer c d n _ e (last_signature-Finds buffer c d n (omega arith)))
]

some_inj : {a b : ℕ} → some a ≡ some b → a ≡ b
some_inj h = ground arith

-- An offset that the search gives is `search_start` and the index of the last end-of-directory
-- signature in the buffer; it gives none exactly where the buffer holds no such signature.
pub find_eocd_in_buffer-IsLast :
    (buffer : List ℕ) (search_start : ℕ)
    → ((i : ℕ) × (find_eocd_in_buffer buffer search_start ≡ some (search_start + i))
        × IsLast buffer 0x05 0x06 (length buffer - 3) i)
      ⊎ (find_eocd_in_buffer buffer search_start ≡ none)
        × ((j : ℕ) → j + 3 < length buffer → ¬ HasSignature buffer 0x05 0x06 j)
unfolding find_eocd_in_buffer
find_eocd_in_buffer-IsLast buffer start =
    let f = last_signature-Finds buffer 0x05 0x06 (length buffer - 3) (ground arith) in
    elim (Option-cases (last_signature buffer 0x05 0x06 (length buffer - 3))) [
      | inl e ↦ inr (rw (e, find_eocd_in_buffer), λ j h. (rw e at f) j (omega arith))
      | inr (i, e) ↦ inl (i, rw (e, find_eocd_in_buffer), rw e at f)
    ]

slice-append :
    (front rec : List ℕ) (n j : ℕ) → n ≡ length front + j → slice (front ++ rec) n 4 ≡ slice rec j 4
slice-append front rec n j e =
    let k : n - length front ≡ j = omega arith in
    ap (take 4) (drop-append_ge front rec n (omega arith)) ∙ ap (λ (m : ℕ). slice rec m 4) k

signature_length : (rec : List ℕ) (c d i : ℕ) → HasSignature rec c d i → i + 3 < length rec
signature_length rec c d i h =
    omega (arith, ap length h, length-take 4 (drop i rec), length-drop i rec)

-- The last signature of a buffer that ends in `rec`, which starts with the signature and holds no
-- other from its second byte on.
last_signature-append :
    (front rec : List ℕ) (c d : ℕ)
    → HasSignature rec c d 0
    → ((j : ℕ) → 0 < j → j + 3 < length rec → ¬ HasSignature rec c d j)
    → last_signature (front ++ rec) c d (length (front ++ rec) - 3) ≡ some (length front)
last_signature-append front rec c d here no_more =
    let f = last_signature-Finds (front ++ rec) c d (length (front ++ rec) - 3) (ground arith) in
    elim (Option-cases (last_signature (front ++ rec) c d (length (front ++ rec) - 3))) [
      | inl e ↦ absurd (
          (rw e at f) (length front)
            (omega (arith, signature_length (front ++ rec) c d (length front) at_front)) at_front)
      | inr (i, e) ↦ e ∙ ap some (position i (rw e at f))
    ]
  where
    at_front : HasSignature (front ++ rec) c d (length front)
    at_front = slice-append front rec (length front) 0 (omega arith) ∙ here

    position : (i : ℕ) → IsLast (front ++ rec) c d (length (front ++ rec) - 3) i → i ≡ length front
    position i last =
        let before : ¬ (i < length front) = λ p.
          last.no_later (length front) p
            (omega (arith, signature_length (front ++ rec) c d (length front) at_front)) at_front in
        let after : ¬ (length front < i) = λ p.
          no_more (i - length front) (omega arith)
            (omega (arith, last.below, length-append front rec))
            (sym (slice-append front rec i (i - length front) (omega arith)) ∙ last.here) in
        omega arith

-- Where the end of the buffer is `rec`, which starts with the signature and holds no other from
-- its second byte on, the search gives the offset of `rec`.
pub find_eocd_in_buffer-append :
    (front rec : List ℕ) (search_start : ℕ)
    → HasSignature rec 0x05 0x06 0
    → ((j : ℕ) → 0 < j → j + 3 < length rec → ¬ HasSignature rec 0x05 0x06 j)
    → find_eocd_in_buffer (front ++ rec) search_start ≡ some (search_start + length front)
unfolding find_eocd_in_buffer
find_eocd_in_buffer-append front rec start here no_more =
    rw (last_signature-append front rec 5 6 here no_more, find_eocd_in_buffer)

-- The locator of the ZIP64 end record, with the number of disks that the writer gives.
abbrev pub locator_bytes : ℕ → ℕ → List ℕ
locator_bytes disks offset =
    (0x50 ∷ 0x4b ∷ 0x06 ∷ 0x07 ∷ [])
    ++ (to_le_bytes 4 0 ++ (to_le_bytes 8 offset ++ to_le_bytes 4 disks))

-- Where the end of the buffer is a locator and some bytes, none of which seems to start another
-- locator, the search gives the offset that stands in the locator.
pub find_zip64_eocd_offset-append :
    (front : List ℕ) (disks offset : ℕ) (rest : List ℕ)
    → offset < u64_mod
    → ((j : ℕ)
        → 0 < j
        → j + 3 < length (locator_bytes disks offset ++ rest)
        → ¬ HasSignature (locator_bytes disks offset ++ rest) 0x06 0x07 j)
    → find_zip64_eocd_offset (front ++ (locator_bytes disks offset ++ rest)) ≡ some offset
unfolding find_zip64_eocd_offset
find_zip64_eocd_offset-append front disks offset rest fits no_more =
    let buffer = front ++ (locator_bytes disks offset ++ rest) in
    let size = length-append front (locator_bytes disks offset ++ rest) in
    let there : drop (length front + 8) buffer ≡ drop 8 (locator_bytes disks offset ++ rest) =
      sym (drop-drop (length front) 8 buffer)
      ∙ ap (drop 8) (drop_append (length front) front (locator_bytes disks offset ++ rest) refl) in
    rw
      (
        last_signature-append front (locator_bytes disks offset ++ rest) 6 7 refl no_more,
        find_zip64_eocd_offset,
        ltb-false (length buffer) (length front + 16) (omega arith),
        there,
      )
      (ap some (from_le_bytes_u64 offset fits))
