-- ===== src/Prelude/Lists.antt =====
-- Lists measured by native numbers, under the library's names.
use Prim.Native.Nat.{ℕ, zero, suc, ◌+◌, ◌<◌}
use mathlib.Core.Path.{◌≡◌, refl, ap}
use mathlib.Core.List.{List, [], ◌∷◌, ◌++◌, Memᴰ, map}
use mathlib.Core.Bool.{Bool, true, false, ◌||◌}
use validador_final.Prelude.Tests.{◌==◌, if◌then◌else◌, Bool-cases}
use mathlib.Core.Logic.{◌⊎◌, inl, inr}
use mathlib.Core.Option.{Option, none, some}
use native.Mathlib.Omega.{arith}

module _ {ℓ} {A : Type ℓ} where
  abbrev pub length : List A → ℕ
  length [] = 0
  length (x ∷ xs) = suc (length xs)

  abbrev pub get_elem? : List A → ℕ → Option A
  get_elem? [] i = none
  get_elem? (x ∷ xs) zero = some x
  get_elem? (x ∷ xs) (suc i) = get_elem? xs i

  pub length-append : (xs ys : List A) → length (xs ++ ys) ≡ length xs + length ys
  length-append [] ys = omega arith
  length-append (x ∷ xs) ys = omega (arith, length-append xs ys)

-- `P` holds of every element; at concrete lists it computes to a tuple.
abbrev pub All {ℓ κ} : {A : Type ℓ} → (A → Type κ) → List A → Type κ
All P [] = Unit
All P (x ∷ xs) = P x × All P xs

-- The elements that pass the test, in order.
abbrev pub filter {ℓ} : {A : Type ℓ} → (A → Bool) → List A → List A
filter p [] = []
filter p (x ∷ xs) = let rest = filter p xs in if p x then x ∷ rest else rest

abbrev pub any {ℓ} : {A : Type ℓ} → (A → Bool) → List A → Bool
any p [] = false
any p (x ∷ xs) = let rest = any p xs in if p x then true else rest

abbrev pub head? {ℓ} : {A : Type ℓ} → List A → Option A
head? [] = none
head? (x ∷ xs) = some x

pub All-filter {ℓ κ} :
    {A : Type ℓ} (P : A → Type κ) (p : A → Bool) (xs : List A) → All P xs → All P (filter p xs)
All-filter P p [] h = tt
All-filter P p (x ∷ xs) h = elim (Bool-cases (p x)) [
  | inl e ↦ rw e (h.0, All-filter P p xs h.1)
  | inr e ↦ rw e (All-filter P p xs h.1)
]

-- What passes the filter passes its test.
pub filter-All {ℓ} : {A : Type ℓ} (p : A → Bool) (xs : List A) → All (λ x. p x ≡ true) (filter p xs)
filter-All p [] = tt
filter-All p (x ∷ xs) = elim (Bool-cases (p x)) [
  | inl e ↦ rw e (e, filter-All p xs)
  | inr e ↦ rw e (filter-All p xs)
]

pub All-map {ℓ κ ν} :
    {A : Type ℓ} (P : A → Type κ) (Q : A → Type ν) (xs : List A)
    → ((x : A) → P x → Q x)
    → All P xs
    → All Q xs
All-map P Q [] f h = tt
All-map P Q (x ∷ xs) f h = (f x h.0, All-map P Q xs f h.1)

pub All-self {ℓ} : {A : Type ℓ} (xs : List A) → All (λ x. Memᴰ x xs) xs
All-self [] = tt
All-self (x ∷ xs) = (Memᴰ.head refl, All-map _ _ xs (λ y m. Memᴰ.tail m) (All-self xs))

-- A fact about what passes the filter, as a fact about every element.
pub All-of_filter {ℓ κ} :
    {A : Type ℓ} (P : A → Type κ) (p : A → Bool) (xs : List A)
    → All P (filter p xs)
    → All (λ x. p x ≡ true → P x) xs
All-of_filter P p [] h = tt
All-of_filter P p (x ∷ xs) h = elim (Bool-cases (p x)) [
  | inl e ↦ let h' = rw e at h in (λ _. h'.0, All-of_filter P p xs h'.1)
  | inr e ↦ let h' = rw e at h in (λ t. cc, All-of_filter P p xs h')
]

pub All-mem {ℓ κ} : {A : Type ℓ} (P : A → Type κ) {x : A} (xs : List A) → All P xs → Memᴰ x xs → P x
All-mem P [] h m = elim m [ ]
All-mem P (y ∷ xs) h (Memᴰ.head e) = rw e h.0
All-mem P (y ∷ xs) h (Memᴰ.tail m) = All-mem P xs h.1 m

abbrev pub take {ℓ} : {A : Type ℓ} → ℕ → List A → List A
take zero xs = []
take (suc n) [] = []
take (suc n) (x ∷ xs) = x ∷ take n xs

-- The indices, from the offset on, of the elements that pass the test.
unfoldable pub indices_from : {A : Type 0} → (A → Bool) → ℕ → List A → List ℕ
indices_from p offset [] = []
indices_from p offset (x ∷ xs) =
    let rest = indices_from p (offset + 1) xs in if p x then offset ∷ rest else rest

-- `i in xs`
abbrev pub elem : ℕ → List ℕ → Bool
elem i = any (λ j. i == j)

pub any-append {ℓ} :
    {A : Type ℓ} (p : A → Bool) (xs ys : List A) → any p (xs ++ ys) ≡ (any p xs || any p ys)
any-append p [] ys = refl
any-append p (x ∷ xs) ys = ground (arith, any-append p xs ys)

pub All-both {ℓ κ ν} :
    {A : Type ℓ} (P : A → Type κ) (Q : A → Type ν) (xs : List A)
    → All P xs
    → All Q xs
    → All (λ x. P x × Q x) xs
All-both P Q [] h k = tt
All-both P Q (x ∷ xs) h k = ((h.0, k.0), All-both P Q xs h.1 k.1)

-- What each element that passes the test implies follows where some element passes it.
pub any-elim {ℓ κ} :
    {A : Type ℓ} {Q : Type κ} (p : A → Bool) (xs : List A)
    → All (λ x. p x ≡ true → Q) xs
    → any p xs ≡ true
    → Q
any-elim p [] f h = cc
any-elim p (x ∷ xs) f h = elim (Bool-cases (p x)) [
  | inl e ↦ f.0 e
  | inr e ↦ any-elim p xs f.1 (rw e at h)
]

below_offset :
    {A : Type 0} (p : A → Bool) (i offset : ℕ) (xs : List A)
    → i < offset
    → elem i (indices_from p offset xs) ≡ false
unfolding indices_from
below_offset p i offset [] h = refl
below_offset p i offset (x ∷ xs) h = ground (arith, below_offset p i (offset + 1) xs)

abbrev pub passes_at {ℓ} : {A : Type ℓ} → (A → Bool) → Option A → Bool
passes_at p none = false
passes_at p (some a) = p a

-- An index is listed exactly if there is an element at it and that element passes the test.
pub elem-indices_from :
    {A : Type 0} (p : A → Bool) (k offset : ℕ) (xs : List A)
    → elem (k + offset) (indices_from p offset xs) ≡ passes_at p (get_elem? xs k)
unfolding indices_from
elem-indices_from p k offset [] = refl
elem-indices_from p zero offset (x ∷ xs) = ground (arith, below_offset p offset (offset + 1) xs)
elem-indices_from p (suc k) offset (x ∷ xs) = ground (arith, elem-indices_from p k (offset + 1) xs)

pub length-indices_from :
    {A : Type 0} (p : A → Bool) (offset : ℕ) (xs : List A)
    → length (indices_from p offset xs) ≡ length (filter p xs)
unfolding indices_from
length-indices_from p offset [] = refl
length-indices_from p offset (x ∷ xs) = ground (arith, length-indices_from p (offset + 1) xs)

pub All-append {ℓ κ} :
    {A : Type ℓ} (P : A → Type κ) (xs ys : List A) → All P xs → All P ys → All P (xs ++ ys)
All-append P [] ys h k = k
All-append P (x ∷ xs) ys h k = (h.0, All-append P xs ys h.1 k)

pub any-mem {ℓ} :
    {A : Type ℓ} (p : A → Bool) (x : A) (xs : List A) → Memᴰ x xs → p x ≡ true → any p xs ≡ true
any-mem p x [] m h = elim m [ ]
any-mem p x (y ∷ ys) (Memᴰ.head e) h = rw (← e, h) refl
any-mem p x (y ∷ ys) (Memᴰ.tail m) h = ground (arith, any-mem p x ys m h)

pub filter-append {ℓ} :
    {A : Type ℓ} (p : A → Bool) (xs ys : List A)
    → filter p (xs ++ ys) ≡ (filter p xs ++ filter p ys)
filter-append p [] ys = refl
filter-append p (x ∷ xs) ys = elim (Bool-cases (p x)) [
  | inl e ↦ rw (e, filter-append p xs ys) refl
  | inr e ↦ rw (e, filter-append p xs ys) refl
]

-- What the first filter removes, the second one would not have kept.
pub filter-filter {ℓ} :
    {A : Type ℓ} (p q : A → Bool) (xs : List A)
    → All (λ x. (p x ≡ false) ⊎ (q x ≡ true)) xs
    → filter p (filter q xs) ≡ filter p xs
filter-filter p q [] h = refl
filter-filter p q (x ∷ xs) h = elim (Bool-cases (q x)) [
  | inl e ↦ rw e (elim (Bool-cases (p x)) [
    | inl f ↦ rw (f, filter-filter p q xs h.1) refl
    | inr f ↦ rw (f, filter-filter p q xs h.1) refl
  ])
  | inr e ↦ elim h.0 [ inl f ↦ rw (e, f) (filter-filter p q xs h.1) | inr t ↦ cc ]
]

pub filter-none {ℓ} :
    {A : Type ℓ} (p : A → Bool) (xs : List A) → All (λ x. p x ≡ false) xs → filter p xs ≡ []
filter-none p [] h = refl
filter-none p (x ∷ xs) h = rw h.0 (filter-none p xs h.1)

pub All-always {ℓ κ} : {A : Type ℓ} (P : A → Type κ) (xs : List A) → ((x : A) → P x) → All P xs
All-always P [] f = tt
All-always P (x ∷ xs) f = (f x, All-always P xs f)

pub All-of_append {ℓ κ} :
    {A : Type ℓ} (P : A → Type κ) (xs ys : List A) → All P (xs ++ ys) → All P xs × All P ys
All-of_append P [] ys h = (tt, h)
All-of_append P (x ∷ xs) ys h = let (k, l) = All-of_append P xs ys h.1 in ((h.0, k), l)

pub All-of_map {ℓ κ ν} :
    {A : Type ℓ} {B : Type κ} (P : B → Type ν) (f : A → B) (xs : List A)
    → All P (map f xs)
    → All (λ x. P (f x)) xs
All-of_map P f [] h = tt
All-of_map P f (x ∷ xs) h = (h.0, All-of_map P f xs h.1)

pub map-same {ℓ κ} :
    {A : Type ℓ} {B : Type κ} (f g : A → B) (xs : List A)
    → All (λ x. f x ≡ g x) xs
    → map f xs ≡ map g xs
map-same f g [] h = refl
map-same f g (x ∷ xs) h = rw (h.0, map-same f g xs h.1) refl

pub map-append {ℓ κ} :
    {A : Type ℓ} {B : Type κ} (f : A → B) (xs ys : List A)
    → map f (xs ++ ys) ≡ (map f xs ++ map f ys)
map-append f [] ys = refl
map-append f (x ∷ xs) ys = ap (λ zs. f x ∷ zs) (map-append f xs ys)

pub All-to_map {ℓ κ ν} :
    {A : Type ℓ} {B : Type κ} (P : B → Type ν) (f : A → B) (xs : List A)
    → All (λ x. P (f x)) xs
    → All P (map f xs)
All-to_map P f [] h = tt
All-to_map P f (x ∷ xs) h = (h.0, All-to_map P f xs h.1)
