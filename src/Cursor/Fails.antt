-- ===== src/Cursor/Fails.antt =====
-- A chain of reads that fails behind the bytes that it takes.
use s_zip.Common.{ℕ, ◌+◌, ◌≡◌, ◌∙◌, List, ◌++◌, length, append_assoc}
use s_zip.Outcome.{Result, err, SZipError}
use s_zip.Cursor.{Cursor, Read, ◌>>=◌, lift}
use s_zip.Cursor.Runs.{Before, Runs, advance}

-- `m` takes the bytes `xs` at most and fails with the error, whatever follows them.
pub record Fails {A : Type 0} (m : Read A) (xs : List ℕ) (e : SZipError) : Type 0 where
  pub at : (c : Cursor) (rest : List ℕ) → Before c (xs ++ rest) → m c ≡ err e

module _ {A : Type 0} where
  pub Fails-lift : (r : Result A) (xs : List ℕ) {e : SZipError} → r ≡ err e → Fails (lift r) xs e
  unfolding lift
  Fails-lift r xs h = record { at = λ c rest b. rw (h, lift) }

module _ {A B : Type 0} where
  pub Fails-first :
      (m : Read A) (f : A → Read B) {xs : List ℕ} {e : SZipError}
      → Fails m xs e
      → Fails (m >>= f) xs e
  unfolding ◌>>=◌
  Fails-first m f h = record { at = λ c rest b. rw (h.at c rest b, ◌>>=◌) }

  pub Fails-bind :
      (m : Read A) (f : A → Read B) {xs ys : List ℕ} {a : A} {e : SZipError}
      → Runs m xs a
      → Fails (f a) ys e
      → Fails (m >>= f) (xs ++ ys) e
  unfolding ◌>>=◌
  Fails-bind m f {xs} {ys} {a} runs fails = record {
    at = λ c rest before.
        let there : Before c (xs ++ (ys ++ rest)) = record {
          here = before.here ∙ append_assoc xs ys rest;
          inside = before.inside;
          small = before.small;
        } in
        rw (runs.at c (ys ++ rest) there, ◌>>=◌)
          (fails.at (record c { pos = c.pos + length xs }) rest (advance c xs (ys ++ rest) there));
  }
