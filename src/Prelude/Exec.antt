-- ===== src/Prelude/Exec.antt =====
-- Methods that mutate an object and may raise: what was written before a raise stays written.
use validador_final.Prelude.Results.{Result, ok, err}
use mathlib.Core.Bool.{Bool, true, false}
use mathlib.Core.Path.{◌≡◌, refl}
use validador_final.Prelude.Tests.{if◌then◌else◌}

abbrev pub Exec {ℓ κ ν} : Type ℓ → Type κ → Type ν → Type (ℓ ⊔ κ ⊔ ν)
Exec S E A = S → Result E A × S

module _ {ℓ} {S E A : Type ℓ} where
  unfoldable pub pure : A → Exec S E A
  pure a s = (ok a, s)

  unfoldable pub raise : E → Exec S E A
  raise e s = (err e, s)

  unfoldable pub lift : Result E A → Exec S E A
  lift r s = (r, s)

  unfoldable pub gets : (S → A) → Exec S E A
  gets f s = (ok (f s), s)

module _ {ℓ} {S E : Type ℓ} where
  unfoldable pub modify : (S → S) → Exec S E (Unit {ℓ})
  modify f s = (ok tt, f s)

module _ {ℓ} {S E A B : Type ℓ} where
  abbrev pub continue : Result E A → (A → Exec S E B) → Exec S E B
  continue (ok a) f s = f a s
  continue (err e) f s = (err e, s)

  infixl 10 ◌>>=◌ ◌>>◌
  unfoldable pub ◌>>=◌ : Exec S E A → (A → Exec S E B) → Exec S E B
  unfolding pure raise lift gets modify
  ◌>>=◌ m f s = let (r, s') = m s in continue r f s'

  abbrev pub ◌>>◌ : Exec S E A → Exec S E B → Exec S E B
  m >> n = m >>= λ _. n

-- What a method returned satisfies `Q`; nothing is said where it raised.
abbrev pub Returned {ℓ} : {E A : Type ℓ} → (A → Type ℓ) → Result E A → Type ℓ
Returned Q (ok a) = Q a
Returned Q (err e) = Unit

-- From a state with `P` the method leads to a state with `P`, whether it returns or raises, and
-- what it returns satisfies `Q`.
pub record Keeps {ℓ} {S E A : Type ℓ} (P : S → Type ℓ) (Q : A → Type ℓ) (m : Exec S E A)
    : Type ℓ where
  pub at : (s : S) → P s → P (m s).1 × Returned Q (m s).0

module _ {ℓ} {S E A : Type ℓ} {P : S → Type ℓ} {Q : A → Type ℓ} where
  pub Keeps-pure : (a : A) → Q a → Keeps {E = E} P Q (pure a)
  unfolding pure
  Keeps-pure a q = record { at = λ s h. (h, q) }

  pub Keeps-raise : (e : E) → Keeps P Q (raise e)
  unfolding raise
  Keeps-raise e = record { at = λ s h. (h, tt) }

  pub Keeps-lift : (r : Result E A) → Returned Q r → Keeps P Q (lift r)
  unfolding lift
  Keeps-lift r q = record { at = λ s h. (h, q) }

  pub Keeps-gets : (f : S → A) → ((s : S) → P s → Q (f s)) → Keeps {E = E} P Q (gets f)
  unfolding gets
  Keeps-gets f q = record { at = λ s h. (h, q s h) }

  pub Keeps-if :
      (b : Bool) (m n : Exec S E A) → Keeps P Q m → Keeps P Q n → Keeps P Q (if b then m else n)
  Keeps-if true m n km kn = km
  Keeps-if false m n km kn = kn

abbrev pub Anything {ℓ κ} : {A : Type ℓ} → A → Type κ
Anything a = Unit

module _ {ℓ} {S E : Type ℓ} {P : S → Type ℓ} where
  pub Keeps-modify : (f : S → S) → ((s : S) → P s → P (f s)) → Keeps {E = E} P Anything (modify f)
  unfolding modify
  Keeps-modify f q = record { at = λ s h. (q s h, tt) }

module _ {ℓ} {S E A B : Type ℓ} {P : S → Type ℓ} {Q : A → Type ℓ} {R : B → Type ℓ} where
  Keeps-continue :
      (r : Result E A) (f : A → Exec S E B) (s : S)
      → P s
      → Returned Q r
      → ((a : A) → Q a → Keeps P R (f a))
      → P (continue r f s).1 × Returned R (continue r f s).0
  Keeps-continue (ok a) f s h q kf = (kf a q).at s h
  Keeps-continue (err e) f s h q kf = (h, tt)

  pub Keeps-bind :
      (m : Exec S E A) (f : A → Exec S E B)
      → Keeps P Q m
      → ((a : A) → Q a → Keeps P R (f a))
      → Keeps P R (m >>= f)
  unfolding ◌>>=◌
  Keeps-bind m f km kf = record {
    at = λ s h. let (r, s') = m s in let k = km.at s h in Keeps-continue r f s' k.0 k.1 kf;
  }

module _ {ℓ} {S E A B : Type ℓ} where
  -- A sequence that returned has run its first part, which returned, and then its second.
  pub bind_ok :
      (m : Exec S E A) (f : A → Exec S E B) (s : S) (b : B)
      → ((m >>= f) s).0 ≡ ok b
      → (a : A) × (s' : S) × ((m s).0 ≡ ok a) × ((f a s').0 ≡ ok b)
  unfolding ◌>>=◌
  bind_ok m f s b h = let (r, s') = m s in returned r s' h
    where
      returned :
          (r : Result E A) (s' : S)
          → (continue r f s').0 ≡ ok b
          → (a : A) × (s'' : S) × (r ≡ ok a) × ((f a s'').0 ≡ ok b)
      returned (ok a) s' h = (a, s', refl, h)
      returned (err e) s' h = cc

  -- A step that only reads, or raises, before a rest that leaves the state alone where it raises.
  pub lift-unchanged :
      (r : Result E A) (f : A → Exec S E B) (s : S) (e : E)
      → ((a : A) → r ≡ ok a → (f a s).0 ≡ err e → (f a s).1 ≡ s)
      → ((lift r >>= f) s).0 ≡ err e
      → ((lift r >>= f) s).1 ≡ s
  unfolding ◌>>=◌
  lift-unchanged (ok a) f s e k h = k a refl h
  lift-unchanged (err d) f s e k h = refl

  -- A step that only reads, or raises, before a rest that leads to a state with the property.
  pub lift_leads {κ} :
      (P : S → Type κ) (r : Result E A) (f : A → Exec S E B) (s : S)
      → P s
      → ((a : A) → r ≡ ok a → P (f a s).1)
      → P ((lift r >>= f) s).1
  unfolding ◌>>=◌
  lift_leads P (ok a) f s p k = k a refl
  lift_leads P (err d) f s p k = p

module _ {ℓ} {S E A : Type ℓ} where
  pub if_leads {κ} :
      (P : S → Type κ) (b : Bool) (m n : Exec S E A) (s : S)
      → P (m s).1
      → P (n s).1
      → P ((if b then m else n) s).1
  if_leads P true m n s h k = h
  if_leads P false m n s h k = k

module _ {ℓ} {S E A B : Type ℓ} where
  -- Where a step that only reads, or raises, comes before a rest and they return, the rest runs.
  pub lift_returns :
      (r : Result E A) (f : A → Exec S E B) (s : S) (b : B)
      → ((lift r >>= f) s).0 ≡ ok b
      → (a : A) × (r ≡ ok a) × ((lift r >>= f) s ≡ f a s)
  unfolding ◌>>=◌
  lift_returns (ok a) f s b h = (a, refl, refl)
  lift_returns (err e) f s b h = cc

  -- The same for any first part: it returned, and the rest runs in the state that it left.
  pub bind_returns :
      (m : Exec S E A) (f : A → Exec S E B) (s : S) (b : B)
      → ((m >>= f) s).0 ≡ ok b
      → (a : A) × (m s ≡ (ok a, (m s).1)) × ((m >>= f) s ≡ f a (m s).1)
  unfolding ◌>>=◌
  bind_returns m f s b h = let (r, s') = m s in returned r s' h
    where
      returned :
          (r : Result E A) (s' : S)
          → (continue r f s').0 ≡ ok b
          → (a : A) × (◌≡◌ {A = Result E A × S} (r, s') (ok a, s')) × (continue r f s' ≡ f a s')
      returned (ok a) s' h = (a, refl, refl)
      returned (err e) s' h = cc
