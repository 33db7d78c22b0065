-- ===== src/Tests/Absent.antt =====
-- A test that a buffer holds no signature of its kind behind its first byte.
use mathlib.Core.Path.{subst}
use native.Mathlib.Decide.{dec_lt}
use s_zip.Common.{
  ℕ, zero, suc, ◌<◌, ◌≡◌, refl, ap, ◌∙◌, Bool, true, false, ◌&&◌, not, List, [], ◌∷◌, arith, slice,
  bytes_eq, bytes_eq_refl,
}
use s_zip.Format.Scan.{HasSignature}

-- No signature at the indices below `n` but for the first.
unfoldable pub absent : List ℕ → ℕ → ℕ → ℕ → Bool
absent buffer c d zero = true
absent buffer c d (suc zero) = true
absent buffer c d (suc (suc n)) =
    not (bytes_eq (slice buffer (suc n) 4) (0x50 ∷ 0x4b ∷ c ∷ d ∷ [])) && absent buffer c d (suc n)

both : (a b : Bool) → (a && b) ≡ true → (a ≡ true) × (b ≡ true)
both true b h = (refl, h)
both false b h = absurd (cc h)

not-true : (a : Bool) → not a ≡ true → a ≡ true → ⊥
not-true true h e = cc h
not-true false h e = cc e

pub absent-not :
    (buffer : List ℕ) (c d n : ℕ)
    → absent buffer c d n ≡ true
    → (j : ℕ) → 0 < j
    → j < n
    → ¬ HasSignature buffer c d j
unfolding absent
absent-not buffer c d zero e j lo hi h = omega arith
absent-not buffer c d (suc zero) e j lo hi h = omega arith
absent-not buffer c d (suc (suc n)) e j lo hi h =
    let parts =
      both (not (bytes_eq (slice buffer (suc n) 4) (0x50 ∷ 0x4b ∷ c ∷ d ∷ [])))
        (absent buffer c d (suc n)) e in
    elim (dec_lt j (suc n)) [
      | yes lt ↦ absent-not buffer c d (suc n) parts.1 j lo lt h
      | no ge ↦
          let last : j ≡ suc n = omega arith in
          not-true _ parts.0 (
            ap (λ (t : List ℕ). bytes_eq t (0x50 ∷ 0x4b ∷ c ∷ d ∷ []))
              (subst (λ (k : ℕ). slice buffer k 4 ≡ 0x50 ∷ 0x4b ∷ c ∷ d ∷ []) last h)
            ∙ bytes_eq_refl (0x50 ∷ 0x4b ∷ c ∷ d ∷ []))
    ]
