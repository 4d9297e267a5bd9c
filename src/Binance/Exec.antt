-- ===== src/Binance/Exec.antt =====
-- Go functions that return an error beside their result and change a state on the way. The state
-- stays changed where an error is returned.
use joinanny.Base.{◌≡◌, refl, sym, ap, subst, ◌⊎◌, inl, inr}

pub data Result (E A : Type 0) : Type 0 where
  ok : A → Result E A
  err : E → Result E A

abbrev pub Exec : Type 0 → Type 0 → Type 0 → Type 0
Exec S E A = S → Result E A × S

module _ {S E A : Type 0} where
  abbrev pub pure : A → Exec S E A
  pure a s = (ok a, s)

  abbrev pub raise : E → Exec S E A
  raise e s = (err e, s)

  abbrev pub lift : Result E A → Exec S E A
  lift r s = (r, s)

  -- A call whose error is looked at, or dropped.
  abbrev pub attempt : Exec S E A → Exec S E (Result E A)
  attempt m s = let (r, s') = m s in (ok r, s')

infixl 5 ◌>>=◌ ◌>>◌
abbrev pub ◌>>=◌ : {S E A B : Type 0} → Exec S E A → (A → Exec S E B) → Exec S E B
◌>>=◌ m f s = let (r, s') = m s in elim r [ ok a ↦ f a s' | err e ↦ (err e, s') ]

abbrev pub ◌>>◌ : {S E A B : Type 0} → Exec S E A → Exec S E B → Exec S E B
m >> k = m >>= λ _. k

pub Result-cases :
    {E A : Type 0} (r : Result E A) → ((a : A) × (r ≡ ok a)) ⊎ ((e : E) × (r ≡ err e))
Result-cases (ok a) = inl (a, refl)
Result-cases (err e) = inr (e, refl)

abbrev or_else : {E A : Type 0} → A → Result E A → A
or_else d (ok a) = a
or_else d (err e) = d

pub ok_injective : {E A : Type 0} (a b : A) → ◌≡◌ {A = Result E A} (ok a) (ok b) → a ≡ b
ok_injective a b h = ap (or_else a) h

module _ {S E A B : Type 0} where
  pub >>=-ok :
      (m : Exec S E A) (f : A → Exec S E B) (s : S) {a : A}
      → (m s).0 ≡ ok a
      → (m >>= f) s ≡ f a (m s).1
  >>=-ok m f s h = rw (h, ◌>>=◌) refl

  pub >>=-err :
      (m : Exec S E A) (f : A → Exec S E B) (s : S) {e : E}
      → (m s).0 ≡ err e
      → (m >>= f) s ≡ (err e, (m s).1)
  >>=-err m f s h = rw (h, ◌>>=◌) refl

  -- A chain that ends well has gone through its first call.
  pub >>=-eq-ok :
      (m : Exec S E A) (f : A → Exec S E B) (s : S) {b : B}
      → ((m >>= f) s).0 ≡ ok b
      → (a : A) × ((m s).0 ≡ ok a) × ((m >>= f) s ≡ f a (m s).1)
  >>=-eq-ok m f s h = elim (Result-cases (m s).0) [
    | inl (a, e) ↦ (a, e, >>=-ok m f s e)
    | inr (e, k) ↦ absurd (let refusal : err e ≡ ok _ = rw (>>=-err m f s k) at h in cc)
  ]

  -- What holds of a chain: it holds where the first call fails, and of what follows where it does not.
  pub >>=-rule :
      (P : Result E B × S → Type 0) (m : Exec S E A) (f : A → Exec S E B) (s : S)
      → ((e : E) → (m s).0 ≡ err e → P (err e, (m s).1))
      → ((a : A) → (m s).0 ≡ ok a → P (f a (m s).1))
      → P ((m >>= f) s)
  >>=-rule P m f s fails goes = elim (Result-cases (m s).0) [
    | inl (a, e) ↦ subst P (sym (>>=-ok m f s e)) (goes a e)
    | inr (x, e) ↦ subst P (sym (>>=-err m f s e)) (fails x e)
  ]
