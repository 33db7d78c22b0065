-- ===== src/Sink/Appends.antt =====
-- Actions that only add to a sink, whether they succeed or fail.
use s_zip.Common.{
  ℕ, suc, zero, ◌-◌, ◌≤◌, ◌≡◌, refl, sym, ap, ◌∙◌, List, [], ◌∷◌, ◌++◌, arith, length, take,
  append-nil, append_assoc, length-take, leb, Bool-cases, true, inl, inr,
}
use s_zip.Outcome.{Result, ok, err, panic}
use s_zip.Sink.{Exec, Sink, write_all, write_chunks, pure, continue, ◌>>=◌}

-- The second sink holds what the first did and more, within the same room.
abbrev pub Extends : Sink → Sink → Type 0
Extends s s' =
    length s.written ≤ s.capacity
    → (more : List ℕ) × (s'.written ≡ s.written ++ more)
      × (s'.capacity ≡ s.capacity)
      × (length s'.written ≤ s'.capacity)

pub Extends-refl : (s : Sink) → Extends s s
Extends-refl s h = ([], sym (append-nil s.written), refl, h)

pub Extends-trans : (s t u : Sink) → Extends s t → Extends t u → Extends s u
Extends-trans s t u st tu h =
    let (a, ea, ca, ha) = st h in
    let (b, eb, cb, hb) = tu ha in
    (a ++ b, eb ∙ ap (λ (x : List ℕ). x ++ b) ea ∙ append_assoc s.written a b, cb ∙ ca, hb)

take-append_ge :
    (n : ℕ) (xs ys : List ℕ) → length xs ≤ n → take n (xs ++ ys) ≡ xs ++ take (n - length xs) ys
take-append_ge n [] ys h = ap (λ (k : ℕ). take k ys) (omega arith)
take-append_ge zero (x ∷ xs) ys h = absurd (omega arith)
take-append_ge (suc n) (x ∷ xs) ys h =
    ap (λ (t : List ℕ). x ∷ t)
      (take-append_ge n xs ys (omega arith) ∙ ap (λ (k : ℕ). xs ++ take k ys) (omega arith))

leb-holds : (a b : ℕ) → leb a b ≡ true → a ≤ b
leb-holds a b h = ground arith

-- Where the room runs out, what was there before stays, and some of the new bytes follow it.
pub write_all-Extends : (bytes : List ℕ) (s : Sink) → Extends s (write_all bytes s).1
unfolding write_all
write_all-Extends bytes s h = elim (Bool-cases (leb (length (s.written ++ bytes)) s.capacity)) [
  | inl e ↦ rw (write_all, e) (bytes, refl, refl, leb-holds _ _ e)
  | inr e ↦
      rw (write_all, e)
        (
          take (s.capacity - length s.written) bytes,
          take-append_ge s.capacity s.written bytes h,
          refl,
          omega (arith, length-take s.capacity (s.written ++ bytes)),
        )
]

-- An action on a state that holds a sink, which only adds to it.
module _ {S : Type 0} (sink : S → Sink) where
  abbrev pub Appends : {A : Type 0} → Exec S A → Type 0
  Appends m = (s : S) → Extends (sink s) (sink (m s).1)

  continue-Appends :
      {A B : Type 0} (r : Result A) (f : A → Exec S B) (s : S)
      → ((a : A) → Appends (f a))
      → Extends (sink s) (sink (continue r f s).1)
  continue-Appends (ok a) f s fs = fs a s
  continue-Appends (err e) f s fs = Extends-refl (sink s)
  continue-Appends panic f s fs = Extends-refl (sink s)

  pub bind-Appends :
      {A B : Type 0} (m : Exec S A) (f : A → Exec S B)
      → Appends m
      → ((a : A) → Appends (f a))
      → Appends (m >>= f)
  unfolding ◌>>=◌
  bind-Appends m f ms fs s =
      Extends-trans (sink s) (sink (m s).1) _ (ms s) (continue-Appends (m s).0 f (m s).1 fs)

pub write_chunks-Appends : (chunks : List (List ℕ)) → Appends (λ s. s) (write_chunks chunks)
unfolding write_chunks pure
write_chunks-Appends [] s = Extends-refl s
write_chunks-Appends (x ∷ xs) s =
    bind-Appends (λ s. s) (write_all x) (λ _. write_chunks xs) (write_all-Extends x)
      (λ _. write_chunks-Appends xs) s
