-- ===== src/Utf8.antt =====
-- `String::from_utf8_lossy`, which the readers call on an entry's name: the sequences that are not
-- UTF-8 are replaced by U+FFFD.
use s_zip.Common.{
  ℕ, zero, suc, ◌≤◌, ◌<◌, ◌≡◌, refl, Bool, true, false, ◌&&◌, ◌||◌, List, [], ◌∷◌, arith, ltb, leb,
  ◌==◌, if◌then◌else◌, get_or, ltb-true, ltb-false, leb-true, leb-false,
}

unfoldable pub continuation : ℕ → Bool
continuation x = leb 0x80 x && leb x 0xBF

-- The second byte that may follow the first one of three, and the first one of four.
unfoldable pub second_of_three : ℕ → ℕ → Bool
second_of_three b c =
    (b == 0xE0 && leb 0xA0 c && leb c 0xBF)
    || (leb 0xE1 b && leb b 0xEC && continuation c)
    || (b == 0xED && leb 0x80 c && leb c 0x9F)
    || (leb 0xEE b && leb b 0xEF && continuation c)

unfoldable pub second_of_four : ℕ → ℕ → Bool
second_of_four b c =
    (b == 0xF0 && leb 0x90 c && leb c 0xBF)
    || (leb 0xF1 b && leb b 0xF3 && continuation c)
    || (b == 0xF4 && leb 0x80 c && leb c 0x8F)

-- The sequence that starts with `b`: whether it is a character, and how many bytes after `b` it
-- takes. A byte past the end reads as 0.
sequence : ℕ → List ℕ → Bool × ℕ
sequence b bs =
    let c = get_or bs 0 0 in
    if ltb b 0x80
    then (true, 0)
    else if leb 0xC2 b && leb b 0xDF
    then (if continuation c then (true, 1) else (false, 0))
    else if leb 0xE0 b && leb b 0xEF
    then (if second_of_three b c
        then (if continuation (get_or bs 1 0) then (true, 2) else (false, 1))
        else (false, 0))
    else if leb 0xF0 b && leb b 0xF4
    then (if second_of_four b c
        then (if continuation (get_or bs 1 0)
            then (if continuation (get_or bs 2 0) then (true, 3) else (false, 2))
            else (false, 1))
        else (false, 0))
    else (false, 0)

-- `n` bytes of the current sequence are still to come, and are kept or dropped.
lossy : ℕ → Bool → List ℕ → List ℕ
lossy n keep [] = []
lossy (suc n) true (b ∷ bs) = b ∷ lossy n true bs
lossy (suc n) false (b ∷ bs) = lossy n false bs
lossy zero keep (b ∷ bs) =
    let (valid, more) = sequence b bs in
    let rest = lossy more valid bs in if valid then b ∷ rest else 0xEF ∷ 0xBF ∷ 0xBD ∷ rest

pub from_utf8_lossy : List ℕ → List ℕ
unfolding lossy sequence continuation second_of_three second_of_four
from_utf8_lossy bytes = lossy 0 true bytes

-- The bytes of a `str`, by the grammar of UTF-8.
pub data IsUtf8 : List ℕ → Type 0 where
  empty : IsUtf8 []
  one : {b : ℕ} {bs : List ℕ} → b < 0x80 → IsUtf8 bs → IsUtf8 (b ∷ bs)
  two :
      {b c : ℕ} {bs : List ℕ}
      → 0xC2 ≤ b
      → b ≤ 0xDF
      → continuation c ≡ true
      → IsUtf8 bs
      → IsUtf8 (b ∷ c ∷ bs)
  three :
      {b c d : ℕ} {bs : List ℕ}
      → 0xE0 ≤ b
      → b ≤ 0xEF
      → second_of_three b c ≡ true
      → continuation d ≡ true
      → IsUtf8 bs
      → IsUtf8 (b ∷ c ∷ d ∷ bs)
  four :
      {b c d e : ℕ} {bs : List ℕ}
      → 0xF0 ≤ b
      → b ≤ 0xF4
      → second_of_four b c ≡ true
      → continuation d ≡ true
      → continuation e ≡ true
      → IsUtf8 bs
      → IsUtf8 (b ∷ c ∷ d ∷ e ∷ bs)

sequence_one : (b : ℕ) (bs : List ℕ) → b < 0x80 → sequence b bs ≡ (true, 0)
unfolding sequence
sequence_one b bs h = rw (ltb-true b 0x80 h)

sequence_two :
    (b c : ℕ) (bs : List ℕ)
    → 0xC2 ≤ b
    → b ≤ 0xDF
    → continuation c ≡ true
    → sequence b (c ∷ bs) ≡ (true, 1)
unfolding sequence
sequence_two b c bs lo hi h =
    rw (ltb-false b 0x80 (omega arith), leb-true 0xC2 b lo, leb-true b 0xDF hi, h)

sequence_three :
    (b c d : ℕ) (bs : List ℕ)
    → 0xE0 ≤ b
    → b ≤ 0xEF
    → second_of_three b c ≡ true
    → continuation d ≡ true
    → sequence b (c ∷ d ∷ bs) ≡ (true, 2)
unfolding sequence
sequence_three b c d bs lo hi h k = rw (
  ltb-false b 0x80 (omega arith),
  leb-true 0xC2 b (omega arith),
  leb-false b 0xDF (omega arith),
  leb-true 0xE0 b lo,
  leb-true b 0xEF hi,
  h,
  k,
)

sequence_four :
    (b c d e : ℕ) (bs : List ℕ)
    → 0xF0 ≤ b
    → b ≤ 0xF4
    → second_of_four b c ≡ true
    → continuation d ≡ true
    → continuation e ≡ true
    → sequence b (c ∷ d ∷ e ∷ bs) ≡ (true, 3)
unfolding sequence
sequence_four b c d e bs lo hi h k l = rw (
  ltb-false b 0x80 (omega arith),
  leb-true 0xC2 b (omega arith),
  leb-false b 0xDF (omega arith),
  leb-true 0xE0 b (omega arith),
  leb-false b 0xEF (omega arith),
  leb-true 0xF0 b lo,
  leb-true b 0xF4 hi,
  h,
  k,
  l,
)

lossy-IsUtf8 : {bytes : List ℕ} (keep : Bool) → IsUtf8 bytes → lossy 0 keep bytes ≡ bytes
unfolding lossy
lossy-IsUtf8 keep empty = refl
lossy-IsUtf8 keep (one {b} {bs} h rest) = rw (sequence_one b bs h, lossy-IsUtf8 true rest)
lossy-IsUtf8 keep (two {b} {c} {bs} lo hi h rest) =
    rw (sequence_two b c bs lo hi h, lossy-IsUtf8 true rest)
lossy-IsUtf8 keep (three {b} {c} {d} {bs} lo hi h k rest) =
    rw (sequence_three b c d bs lo hi h k, lossy-IsUtf8 true rest)
lossy-IsUtf8 keep (four {b} {c} {d} {e} {bs} lo hi h k l rest) =
    rw (sequence_four b c d e bs lo hi h k l, lossy-IsUtf8 true rest)

-- A valid name is left as it is.
pub from_utf8_lossy-IsUtf8 : {bytes : List ℕ} → IsUtf8 bytes → from_utf8_lossy bytes ≡ bytes
unfolding from_utf8_lossy
from_utf8_lossy-IsUtf8 h = lossy-IsUtf8 true h
