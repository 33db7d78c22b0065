-- ===== src/Cursor/Runs.antt =====
-- What a chain of reads does on a file that holds, from the position on, the bytes that it takes.
use s_zip.Common.{
  ℕ, ◌+◌, ◌-◌, ◌^◌, ◌≤◌, ◌<◌, ◌≡◌, refl, sym, ap, ◌∙◌, List, [], ◌++◌, arith, length, drop,
  append_assoc, length-append, length-drop, take_append, drop_append, drop-drop, leb-true, ltb-true,
}
use s_zip.Outcome.{Result, ok}
use s_zip.Cursor.{Cursor, Read, ◌>>=◌, pure, lift, seek_current, read_exact}

-- The cursor stands before `rest`, inside a file of a size that the system can seek in.
pub record Before (c : Cursor) (rest : List ℕ) : Type 0 where
  pub here : drop c.pos c.bytes ≡ rest
  pub inside : c.pos ≤ length c.bytes
  pub small : length c.bytes < 2 ^ 63

-- `m` takes exactly the bytes `xs` and gives `a`, whatever follows them.
pub record Runs {A : Type 0} (m : Read A) (xs : List ℕ) (a : A) : Type 0 where
  pub at :
      (c : Cursor) (rest : List ℕ)
      → Before c (xs ++ rest)
      → m c ≡ ok (a, record c { pos = c.pos + length xs })

pub advance :
    (c : Cursor) (xs rest : List ℕ)
    → Before c (xs ++ rest)
    → Before (record c { pos = c.pos + length xs }) rest
advance c xs rest b = record {
  here =
      sym (drop-drop c.pos (length xs) c.bytes)
      ∙ ap (drop (length xs)) b.here
      ∙ drop_append (length xs) xs rest refl;
  inside =
      omega (arith, b.inside, ap length b.here, length-drop c.pos c.bytes, length-append xs rest);
  small = b.small;
}

module _ {A : Type 0} where
  pub Runs-pure : (a : A) → Runs (pure a) [] a
  unfolding pure
  Runs-pure a = record {
    at = λ c rest b.
        let e : c.pos ≡ c.pos + 0 = omega arith in ap (λ (p : ℕ). ok (a, record c { pos = p })) e;
  }

  pub Runs-lift : (r : Result A) {a : A} → r ≡ ok a → Runs (lift r) [] a
  unfolding lift
  Runs-lift r {a} e = record {
    at = λ c rest b.
        let z : c.pos ≡ c.pos + 0 = omega arith in
        rw (e, lift) (ap (λ (p : ℕ). ok (a, record c { pos = p })) z);
  }

module _ {A B : Type 0} where
  pub Runs-bind :
      (m : Read A) (f : A → Read B) {xs ys : List ℕ} {a : A} {b : B}
      → Runs m xs a
      → Runs (f a) ys b
      → Runs (m >>= f) (xs ++ ys) b
  unfolding ◌>>=◌
  Runs-bind m f {xs} {ys} {a} {b} rm rf = record {
    at = λ c rest before.
        let there : Before c (xs ++ (ys ++ rest)) = record {
          here = before.here ∙ append_assoc xs ys rest;
          inside = before.inside;
          small = before.small;
        } in
        let e : c.pos + length xs + length ys ≡ c.pos + length (xs ++ ys) =
          omega (arith, length-append xs ys) in
        rw (rm.at c (ys ++ rest) there, ◌>>=◌)
          (rf.at (record c { pos = c.pos + length xs }) rest (advance c xs (ys ++ rest) there)
            ∙ ap (λ (p : ℕ). ok (b, record c { pos = p })) e);
  }

pub Runs-read_exact : (n : ℕ) (xs : List ℕ) → length xs ≡ n → Runs (read_exact n) xs xs
unfolding read_exact
Runs-read_exact n xs size = record {
  at = λ c rest b.
      let room : n ≤ length c.bytes - c.pos =
        omega (arith, ap length b.here, length-drop c.pos c.bytes, length-append xs rest) in
      rw (leb-true n (length c.bytes - c.pos) room, b.here, take_append n xs rest size, size);
}

pub Runs-seek_current : (n : ℕ) (xs : List ℕ) → length xs ≡ n → Runs (seek_current n) xs tt
unfolding seek_current
Runs-seek_current n xs size = record {
  at = λ c rest b.
      let room : c.pos + n < 2 ^ 63 = omega (
        arith,
        ap length b.here,
        length-drop c.pos c.bytes,
        length-append xs rest,
        b.small,
        b.inside,
      ) in
      rw (ltb-true (c.pos + n) (2 ^ 63) room, size);
}

module _ {A B : Type 0} where
  -- A chain goes on where its first action succeeds.
  pub bind_ok :
      (m : Read A) (f : A → Read B) {c c' : Cursor} {a : A}
      → m c ≡ ok (a, c')
      → (m >>= f) c ≡ f a c'
  unfolding ◌>>=◌
  bind_ok m f e = rw (e, ◌>>=◌)

  -- The same where the first action takes the next bytes, with what is left.
  pub bind-Runs :
      (m : Read A) (f : A → Read B) {xs : List ℕ} {a : A}
      → Runs m xs a
      → (c : Cursor) (rest : List ℕ) → Before c (xs ++ rest)
      → (m >>= f) c ≡ f a (record c { pos = c.pos + length xs })
  bind-Runs m f r c rest b = bind_ok m f (r.at c rest b)
