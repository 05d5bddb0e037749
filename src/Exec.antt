-- ===== src/Exec.antt =====
-- Code that uses a store and may raise: what was written before an exception stays written, so
-- the store comes back beside the exception too.
use night_ledger.Prelude.{◌≡◌, ap}
use night_ledger.Errors.{Result, ok, raise, Error}

abbrev pub Exec : Type 0 → Type 0 → Type 0
Exec S A = S → S × Result A

module _ {S : Type 0} {A : Type 0} where
  abbrev pub pure : A → Exec S A
  pure a s = (s, ok a)

  abbrev pub throw : Error → Exec S A
  throw e s = (s, raise e)

  abbrev pub lift : Result A → Exec S A
  lift r s = (s, r)

  abbrev pub gets : (S → A) → Exec S A
  gets f s = (s, ok (f s))

module _ {S : Type 0} {A B : Type 0} where
  abbrev pub proceed : (A → Exec S B) → S → Result A → S × Result B
  proceed f s (ok a) = f a s
  proceed f s (raise e) = (s, raise e)

  infixl 5 ◌>>=◌ ◌>>◌
  abbrev pub ◌>>=◌ : Exec S A → (A → Exec S B) → Exec S B
  ◌>>=◌ m f s = proceed f (m s).0 (m s).1

  abbrev pub ◌>>◌ : Exec S A → Exec S B → Exec S B
  m >> k = m >>= λ _. k

  pub >>=-ok :
      (m : Exec S A) (f : A → Exec S B) (s s1 : S) (a : A) → m s ≡ (s1, ok a) → (m >>= f) s ≡ f a s1
  >>=-ok m f s s1 a h = ap (λ (r : S × Result A). proceed f r.0 r.1) h
