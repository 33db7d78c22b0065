-- ===== src/Sink/Simulates.antt =====
-- One program's actions against another's, on states that a function translates.
use s_zip.Common.{◌≡◌, refl, sym, ◌∙◌}
use s_zip.Outcome.{Result, ok, err, panic, SZipError}
use s_zip.Sink.{Exec, ◌>>=◌, continue, pure, fail, lift, gets}

module _ {A B : Type 0} where
  abbrev pub map_result : (A → B) → Result A → Result B
  map_result g (ok a) = ok (g a)
  map_result g (err e) = err e
  map_result g panic = panic

pub map_result-same : {A : Type 0} (r : Result A) → map_result (λ a. a) r ≡ r
map_result-same (ok a) = refl
map_result-same (err e) = refl
map_result-same panic = refl

-- What an action that gives nothing gives.
abbrev pub unit : Unit {0} → Unit {0}
unit u = u

module _ {S A B : Type 0} where
  pub lift_ok : (a : A) (f : A → Exec S B) (s : S) → (lift (ok a) >>= f) s ≡ f a s
  unfolding lift ◌>>=◌
  lift_ok a f s = refl

module _ {S T : Type 0} (translate : S → T) (Good : S → Type 0) where
  -- From a good state, both give the same result and end in the same state, which is good again.
  abbrev pub Simulates : {A B : Type 0} → (A → B) → Exec S A → Exec T B → Type 0
  Simulates g m n =
      (s : S)
      → Good s
      → (n (translate s) ≡ (map_result g (m s).0, translate (m s).1)) × Good (m s).1

  continue-Simulates :
      {A B C D : Type 0} (g : A → B) (h : C → D) (r : Result A) (s : S) (f : A → Exec S C)
      (f' : B → Exec T D)
      → Good s
      → ((a : A) → Simulates h (f a) (f' (g a)))
      → (continue (map_result g r) f' (translate s)
          ≡ (map_result h (continue r f s).0, translate (continue r f s).1))
        × Good (continue r f s).1
  continue-Simulates g h (ok a) s f f' good fs = fs a s good
  continue-Simulates g h (err e) s f f' good fs = (refl, good)
  continue-Simulates g h panic s f f' good fs = (refl, good)

  pub bind-Simulates :
      {A B C D : Type 0} (g : A → B) (h : C → D) (m : Exec S A) (n : Exec T B) (f : A → Exec S C)
      (f' : B → Exec T D)
      → Simulates g m n
      → ((a : A) → Simulates h (f a) (f' (g a)))
      → Simulates h (m >>= f) (n >>= f')
  unfolding ◌>>=◌
  bind-Simulates g h m n f f' ms fs s good =
      let (same, kept) = ms s good in
      let (next, last) = continue-Simulates g h (m s).0 (m s).1 f f' kept fs in
      ((λ i. continue (same i).0 f' (same i).1) ∙ next, last)

  pub pure-Simulates : {A B : Type 0} (g : A → B) (a : A) → Simulates g (pure a) (pure (g a))
  unfolding pure
  pure-Simulates g a s good = (refl, good)

  pub fail-Simulates : {A B : Type 0} (g : A → B) (e : SZipError) → Simulates g (fail e) (fail e)
  unfolding fail
  fail-Simulates g e s good = (refl, good)

  pub lift-Simulates : {A : Type 0} (r : Result A) → Simulates (λ a. a) (lift r) (lift r)
  unfolding lift
  lift-Simulates r s good = (λ i. (sym (map_result-same r) i, translate s), good)

  -- What is read from the state is good.
  pub gets-Simulates :
      {C D : Type 0} (h : C → D) (f : S → Exec S C) (f' : T → Exec T D)
      → ((a : S) → Good a → Simulates h (f a) (f' (translate a)))
      → Simulates h (gets (λ s. s) >>= f) (gets (λ s. s) >>= f')
  unfolding gets ◌>>=◌
  gets-Simulates h f f' fs s good = fs s good s good
