-- ===== src/Cursor/Results.antt =====
-- What is known of a chain of reads that has succeeded.
use s_zip.Common.{
  ℕ, ◌+◌, ◌-◌, ◌^◌, ◌≤◌, ◌≡◌, refl, sym, ap, ◌∙◌, Bool, true, false, List, arith, length, leb, ltb,
  if◌then◌else◌, le_of_leb,
}
use s_zip.Outcome.{Result, ok, err, panic, ok_inj, SZipError}
use s_zip.Cursor.{Cursor, Read, ◌>>=◌, pure, fail, lift, seek_start, seek_current, read_exact}

module _ {A B : Type 0} where
  given_ok :
      (r : Result (A × Cursor)) (f : A → Read B) {b : B} {c2 : Cursor}
      → elim r [ ok (a, c') ↦ f a c' | err e ↦ err e | panic ↦ panic ] ≡ ok (b, c2)
      → (a : A) × (c1 : Cursor) × (r ≡ ok (a, c1)) × (f a c1 ≡ ok (b, c2))
  given_ok (ok (a, c1)) f h = (a, c1, refl, h)
  given_ok (err e) f h = absurd (cc h)
  given_ok panic f h = absurd (cc h)

  -- A chain that has succeeded has succeeded in both of its parts.
  pub bind-eq-ok :
      (m : Read A) (f : A → Read B) (c : Cursor) {b : B} {c2 : Cursor}
      → (m >>= f) c ≡ ok (b, c2)
      → (a : A) × (c1 : Cursor) × (m c ≡ ok (a, c1)) × (f a c1 ≡ ok (b, c2))
  unfolding ◌>>=◌
  bind-eq-ok m f c h = given_ok (m c) f h

module _ {A : Type 0} where
  -- Where it succeeds, the file is as it was.
  abbrev pub Keeps : Read A → Type 0
  Keeps m = (c : Cursor) (a : A) (c' : Cursor) → m c ≡ ok (a, c') → c'.bytes ≡ c.bytes

  pub Keeps-pure : (a : A) → Keeps (pure a)
  unfolding pure
  Keeps-pure a c b c' h = ap (λ (p : A × Cursor). p.1.bytes) (sym (ok_inj h))

  pub Keeps-fail : (e : SZipError) → Keeps (fail e)
  unfolding fail
  Keeps-fail e c b c' h = absurd (cc h)

  lifted :
      (r : Result A) (c : Cursor) (a : A) (c' : Cursor)
      → lift r c ≡ ok (a, c')
      → (r ≡ ok a) × (c' ≡ c)
  unfolding lift
  lifted (ok x) c a c' h =
      (ap (λ (p : A × Cursor). ok p.0) (ok_inj h), ap (λ (p : A × Cursor). p.1) (sym (ok_inj h)))
  lifted (err e) c a c' h = absurd (cc h)
  lifted panic c a c' h = absurd (cc h)

  pub lift-eq-ok :
      (r : Result A) (c : Cursor) (a : A) (c' : Cursor) → lift r c ≡ ok (a, c') → r ≡ ok a
  lift-eq-ok r c a c' h = (lifted r c a c' h).0

  pub Keeps-lift : (r : Result A) → Keeps (lift r)
  Keeps-lift r c a c' h = ap (λ (d : Cursor). d.bytes) (lifted r c a c' h).1

module _ {A B : Type 0} where
  pub Keeps-bind :
      (m : Read A) (f : A → Read B) → Keeps m → ((a : A) → Keeps (f a)) → Keeps (m >>= f)
  Keeps-bind m f km kf c b c2 h =
      let (a, c1, e, e') = bind-eq-ok m f c h in kf a c1 b c2 e' ∙ km c a c1 e

module _ {A : Type 0} where
  -- A test that has succeeded has gone the way that does not fail.
  pub unless-eq-ok :
      (b : Bool) (e : SZipError) (m : Read A) (c : Cursor) {a : A} {c' : Cursor}
      → (if b then fail e else m) c ≡ ok (a, c')
      → (b ≡ false) × (m c ≡ ok (a, c'))
  unfolding fail
  unless-eq-ok true e m c h = absurd (cc h)
  unless-eq-ok false e m c h = (refl, h)

-- A call that succeeds where a test holds.
tested :
    {A : Type 0} (b : Bool) (x y : A) (e : SZipError)
    → (if b then ok x else err e) ≡ ok y
    → (b ≡ true) × (x ≡ y)
tested true x y e h = (refl, ok_inj h)
tested false x y e h = absurd (cc h)

pub Keeps-seek_start : (n : ℕ) → Keeps (seek_start n)
unfolding seek_start
Keeps-seek_start n c a c' h =
    ap (λ (p : Unit {0} × Cursor). p.1.bytes) (sym (tested (ltb n (2 ^ 63)) _ (a, c') _ h).1)

pub Keeps-seek_current : (n : ℕ) → Keeps (seek_current n)
unfolding seek_current
Keeps-seek_current n c a c' h = Keeps-seek_start (c.pos + n) c a c' h

-- Bytes that were read stand in the file.
pub read_exact-eq-ok :
    (n : ℕ) (c : Cursor) (xs : List ℕ) (c' : Cursor)
    → read_exact n c ≡ ok (xs, c')
    → (c'.bytes ≡ c.bytes) × (n ≤ length c.bytes)
unfolding read_exact
read_exact-eq-ok n c xs c' h =
    let (fits, same) = tested (leb n (length c.bytes - c.pos)) _ (xs, c') _ h in
    (
      ap (λ (p : List ℕ × Cursor). p.1.bytes) (sym same),
      omega (arith, le_of_leb n (length c.bytes - c.pos) fits),
    )

pub Keeps-read_exact : (n : ℕ) → Keeps (read_exact n)
Keeps-read_exact n c xs c' h = (read_exact-eq-ok n c xs c' h).0
