-- ===== src/RoundTrip/Placeholder.antt =====
-- The values of src/writer.rs that a placeholder stands for.
use s_zip.Common.{
  ℕ, ◌%◌, ◌<◌, ◌≡◌, ◌≢◌, refl, ap, inl, inr, Bool, true, false, ◌||◌, arith, ltb, ◌==◌, Bool-cases,
  eq_false, u16_mod, u16_max, u32_mod, u64_mod, u32_max, to_le_bytes,
}
use s_zip.Format.Zip64.{wide, narrow, Stored}
use s_zip.Central.{size_or_placeholder, if_wide, count_or_placeholder}

abbrev pub big : ℕ → Bool
big v = ltb u32_max v

pub size_or_placeholder-narrow : (v : ℕ) → size_or_placeholder v ≡ to_le_bytes 4 (narrow (big v) v)
unfolding size_or_placeholder
size_or_placeholder-narrow v = elim (Bool-cases (big v)) [
  | inl e ↦ rw e
  | inr e ↦ let small : v % u32_mod ≡ v = ground arith in rw e (ap (to_le_bytes 4) small)
]

pub narrow-lt : (v : ℕ) → narrow (big v) v < u32_mod
narrow-lt v = elim (Bool-cases (big v)) [ inl e ↦ rw e (omega arith) | inr e ↦ rw e (ground arith) ]

pub if_wide_lem : (v : ℕ) → if_wide v ≡ wide (big v) v
if_wide_lem v = elim (Bool-cases (big v)) [ inl e ↦ rw e | inr e ↦ rw e ]

pub stored : (v : ℕ) → v < u64_mod → v ≢ u32_max → Stored (big v) v
stored v h p = record { fits = h; plain = λ e. ground arith }

-- A value whose four bytes are the placeholder is wide.
pub placeholder_wide : (v : ℕ) → v ≢ u32_max → (narrow (big v) v == 0xFFFFFFFF) ≡ big v
placeholder_wide v p = elim (Bool-cases (big v)) [
  | inl b ↦ rw b
  | inr b ↦ rw b (eq_false v u32_max p)
]

-- What a disjunction of three says where it is false, and in another order.
pub or_false : (a b c : Bool) → (a || b || c) ≡ false → (a ≡ false) × (b ≡ false) × (c ≡ false)
or_false true b c h = ground arith
or_false false true c h = ground arith
or_false false false true h = ground arith
or_false false false false h = (refl, refl, refl)

pub or_swap : (a b c : Bool) → (b || a || c) ≡ (a || b || c)
or_swap true true c = refl
or_swap true false c = refl
or_swap false true c = refl
or_swap false false c = refl

pub narrow_same : (v : ℕ) → big v ≡ false → narrow (big v) v ≡ v
narrow_same v b = rw b

-- The same for the two bytes of a number of entries.
abbrev pub big_count : ℕ → Bool
big_count n = ltb u16_max n

abbrev pub narrow_count : Bool → ℕ → ℕ
narrow_count true n = u16_max
narrow_count false n = n

pub count_or_placeholder_narrow :
    (n : ℕ) → count_or_placeholder n ≡ to_le_bytes 2 (narrow_count (big_count n) n)
count_or_placeholder_narrow n = elim (Bool-cases (big_count n)) [
  | inl e ↦ rw e
  | inr e ↦ let small : n % u16_mod ≡ n = ground arith in rw e (ap (to_le_bytes 2) small)
]

pub narrow_count-lt : (n : ℕ) → narrow_count (big_count n) n < u16_mod
narrow_count-lt n = elim (Bool-cases (big_count n)) [
  | inl e ↦ rw e (omega arith)
  | inr e ↦ rw e (ground arith)
]

pub placeholder_count :
    (n : ℕ) → n ≢ u16_max → (narrow_count (big_count n) n == 0xFFFF) ≡ big_count n
placeholder_count n p = elim (Bool-cases (big_count n)) [
  | inl b ↦ rw b
  | inr b ↦ rw b (eq_false n u16_max p)
]
