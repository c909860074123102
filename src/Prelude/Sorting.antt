-- ===== src/Prelude/Sorting.antt =====
-- Python's stable `sorted` and SQL's ORDER BY, as insertion from the right.
use validador_final.Prelude.Tests.{if◌then◌else◌, Bool-cases}
use validador_final.Prelude.Lists.{All, All-map, any}
use mathlib.Core.Path.{◌≡◌, refl}
use native.Mathlib.Omega.{arith}
use mathlib.Core.Logic.{inl, inr}
use mathlib.Core.Bool.{Bool, true, false, ◌||◌}
use mathlib.Core.List.{List, [], ◌∷◌}

module _ {ℓ} {A : Type ℓ} (before : A → A → Bool) where
  insert_by : A → List A → List A
  insert_by x [] = x ∷ []
  insert_by x (y ∷ ys) = let rest = insert_by x ys in if before x y then x ∷ y ∷ ys else y ∷ rest

  unfoldable pub sort_by : List A → List A
  unfolding insert_by
  sort_by [] = []
  sort_by (x ∷ xs) = insert_by x (sort_by xs)

  abbrev pub IsSorted : List A → Type 0
  IsSorted [] = Unit
  IsSorted (x ∷ xs) = All (λ y. before x y ≡ true) xs × IsSorted xs

  module _ {κ} (P : A → Type κ) where
    insert_by-All : (x : A) (ys : List A) → P x → All P ys → All P (insert_by x ys)
    unfolding insert_by
    insert_by-All x [] px h = (px, tt)
    insert_by-All x (y ∷ ys) px h = elim (Bool-cases (before x y)) [
      | inl e ↦ rw e (px, h)
      | inr e ↦ rw e (h.0, insert_by-All x ys px h.1)
    ]

    All-of_insert_by : (x : A) (ys : List A) → All P (insert_by x ys) → P x × All P ys
    unfolding insert_by
    All-of_insert_by x [] h = (h.0, tt)
    All-of_insert_by x (y ∷ ys) h = elim (Bool-cases (before x y)) [
      | inl e ↦ let h' = rw e at h in (h'.0, h'.1)
      | inr e ↦ let h' = rw e at h in let r = All-of_insert_by x ys h'.1 in (r.0, (h'.0, r.1))
    ]

    pub sort_by-All : (xs : List A) → All P xs → All P (sort_by xs)
    unfolding sort_by
    sort_by-All [] h = tt
    sort_by-All (x ∷ xs) h = insert_by-All x (sort_by xs) h.0 (sort_by-All xs h.1)

    pub All-of_sort_by : (xs : List A) → All P (sort_by xs) → All P xs
    unfolding sort_by
    All-of_sort_by [] h = tt
    All-of_sort_by (x ∷ xs) h =
        let r = All-of_insert_by x (sort_by xs) h in (r.0, All-of_sort_by xs r.1)

  module _ (trans : (x y z : A) → before x y ≡ true → before y z ≡ true → before x z ≡ true)
      (total : (x y : A) → before x y ≡ false → before y x ≡ true) where
    insert_by-IsSorted : (x : A) (ys : List A) → IsSorted ys → IsSorted (insert_by x ys)
    unfolding insert_by
    insert_by-IsSorted x [] s = (tt, tt)
    insert_by-IsSorted x (y ∷ ys) s = elim (Bool-cases (before x y)) [
      | inl e ↦ rw e ((e, All-map _ _ ys (λ z h. trans x y z e h) s.0), s)
      | inr e ↦ rw e (
        insert_by-All (λ z. before y z ≡ true) x ys (total x y e) s.0,
        insert_by-IsSorted x ys s.1,
      )
    ]

    pub sort_by-IsSorted : (xs : List A) → IsSorted (sort_by xs)
    unfolding sort_by
    sort_by-IsSorted [] = tt
    sort_by-IsSorted (x ∷ xs) = insert_by-IsSorted x (sort_by xs) (sort_by-IsSorted xs)

  module _ (p : A → Bool) where
    any-insert_by : (x : A) (ys : List A) → any p (insert_by x ys) ≡ (p x || any p ys)
    unfolding insert_by
    any-insert_by x [] = ground arith
    any-insert_by x (y ∷ ys) = ground (arith, any-insert_by x ys)

    -- Sorting keeps what is in the list.
    pub any-sort_by : (xs : List A) → any p (sort_by xs) ≡ any p xs
    unfolding sort_by
    any-sort_by [] = refl
    any-sort_by (x ∷ xs) = ground (arith, any-insert_by x (sort_by xs), any-sort_by xs)
