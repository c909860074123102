-- ===== src/Tenants/Changed.antt =====
-- What a changed record of one tenant does to the names of all the tenants.
use validador_final.Prelude.{
  ◌≤◌, String, ◌≡◌, refl, sym, ◌∙◌, ◌⊎◌, inl, inr, Bool, true, false, List, [], ◌∷◌, ◌++◌, map,
  Option, none, some, str_eq, arith, filter, length, Bool-cases,
}
use mathlib.Core.Path.{subst}
use validador_final.Prelude.Dict.{get, put}
use validador_final.Tenants.Config.{TenantConfig}
use validador_final.Tenants.{RuntimeTenantRecord, runtime_record_map}

-- The two lists are as long as each other, and their elements are related in order.
abbrev pub Pairwise : {A : Type 0} → (A → A → Type 0) → List A → List A → Type 0
Pairwise R [] [] = Unit
Pairwise R [] (y ∷ ys) = true ≡ false
Pairwise R (x ∷ xs) [] = true ≡ false
Pairwise R (x ∷ xs) (y ∷ ys) = R x y × Pairwise R xs ys

pub Pairwise-refl :
    {A : Type 0} (R : A → A → Type 0) (xs : List A) → ((x : A) → R x x) → Pairwise R xs xs
Pairwise-refl R [] f = tt
Pairwise-refl R (x ∷ xs) f = (f x, Pairwise-refl R xs f)

pub Pairwise-append :
    {A : Type 0} (R : A → A → Type 0) (xs ys us vs : List A)
    → Pairwise R xs ys
    → Pairwise R us vs
    → Pairwise R (xs ++ us) (ys ++ vs)
Pairwise-append R [] [] us vs h k = k
Pairwise-append R [] (y ∷ ys) us vs h k = cc
Pairwise-append R (x ∷ xs) [] us vs h k = cc
Pairwise-append R (x ∷ xs) (y ∷ ys) us vs h k = (h.0, Pairwise-append R xs ys us vs h.1 k)

pub Pairwise-map :
    {A B : Type 0} (R : A → A → Type 0) (Q : B → B → Type 0) (f : A → B) (xs ys : List A)
    → ((x y : A) → R x y → Q (f x) (f y))
    → Pairwise R xs ys
    → Pairwise Q (map f xs) (map f ys)
Pairwise-map R Q f [] [] g h = tt
Pairwise-map R Q f [] (y ∷ ys) g h = cc
Pairwise-map R Q f (x ∷ xs) [] g h = cc
Pairwise-map R Q f (x ∷ xs) (y ∷ ys) g h = (g x y h.0, Pairwise-map R Q f xs ys g h.1)

pub Pairwise-filter :
    {A : Type 0} (R : A → A → Type 0) (p : A → Bool) (xs ys : List A)
    → ((x y : A) → R x y → p x ≡ p y)
    → Pairwise R xs ys
    → Pairwise R (filter p xs) (filter p ys)
Pairwise-filter R p [] [] g h = tt
Pairwise-filter R p [] (y ∷ ys) g h = cc
Pairwise-filter R p (x ∷ xs) [] g h = cc
Pairwise-filter R p (x ∷ xs) (y ∷ ys) g h = elim (Bool-cases (p x)) [
  | inl e ↦
      let f : p y ≡ true = sym (g x y h.0) ∙ e in rw (e, f) (h.0, Pairwise-filter R p xs ys g h.1)
  | inr e ↦ let f : p y ≡ false = sym (g x y h.0) ∙ e in rw (e, f) (Pairwise-filter R p xs ys g h.1)
]

-- A list has no more elements with one property than a related list has with another, where the
-- relation leads from the one to the other.
pub length-Pairwise :
    {A : Type 0} (R : A → A → Type 0) (p q : A → Bool) (xs ys : List A)
    → ((x y : A) → R x y → q y ≡ true → p x ≡ true)
    → Pairwise R xs ys
    → length (filter q ys) ≤ length (filter p xs)
length-Pairwise R p q [] [] g h = omega arith
length-Pairwise R p q [] (y ∷ ys) g h = cc
length-Pairwise R p q (x ∷ xs) [] g h = cc
length-Pairwise R p q (x ∷ xs) (y ∷ ys) g h =
    let ih = length-Pairwise R p q xs ys g h.1 in
    elim (Bool-cases (q y)) [
      | inl e ↦ let f : p x ≡ true = g x y h.0 e in rw (e, f) (omega arith)
      | inr e ↦ elim (Bool-cases (p x)) [ inl f ↦ rw (e, f) (omega arith) | inr f ↦ rw (e, f) ih ]
    ]

module _ (current : String) (aliases : List String) where
  -- The same tenant, with its aliases or, if it is the current one, with the new ones.
  pub record IsChanged (c d : TenantConfig) : Type 0 where
    pub same_id : d.tenant_id ≡ c.tenant_id
    pub names : (d.aliases ≡ c.aliases) ⊎ ((c.tenant_id ≡ current) × (d.aliases ≡ aliases))

  pub record IsRewritten (q r : RuntimeTenantRecord) : Type 0 where
    pub same_id : r.tenant_id ≡ q.tenant_id
    pub names : (r.aliases ≡ q.aliases) ⊎ ((q.tenant_id ≡ current) × (r.aliases ≡ aliases))

  abbrev pub Rewrites : String × RuntimeTenantRecord → String × RuntimeTenantRecord → Type 0
  Rewrites d e = (d.0 ≡ e.0) × IsRewritten d.1 e.1

  pub IsRewritten-refl : (q : RuntimeTenantRecord) → IsRewritten q q
  IsRewritten-refl q = record { same_id = refl; names = inl refl }

  put-Rewrites :
      (k : String) (q r : RuntimeTenantRecord) (d e : List (String × RuntimeTenantRecord))
      → IsRewritten q r
      → Pairwise Rewrites d e
      → Pairwise Rewrites (put k q d) (put k r e)
  unfolding put
  put-Rewrites k q r [] [] w h = ((refl, w), tt)
  put-Rewrites k q r [] (y ∷ ys) w h = cc
  put-Rewrites k q r (x ∷ xs) [] w h = cc
  put-Rewrites k q r ((i, x) ∷ xs) ((j, y) ∷ ys) w ((same, old), h) =
      elim (Bool-cases (str_eq i k)) [
        | inl e ↦ let f : str_eq j k ≡ true = rw (← same) e in rw (e, f) ((same, w), h)
        | inr e ↦
            let f : str_eq j k ≡ false = rw (← same) e in
            rw (e, f) ((same, old), put-Rewrites k q r xs ys w h)
      ]

  pub record_map-Rewrites :
      (d e : List (String × RuntimeTenantRecord)) (qs rs : List RuntimeTenantRecord)
      → Pairwise Rewrites d e
      → Pairwise IsRewritten qs rs
      → Pairwise Rewrites (runtime_record_map d qs) (runtime_record_map e rs)
  unfolding runtime_record_map
  record_map-Rewrites d e [] [] h k = h
  record_map-Rewrites d e [] (r ∷ rs) h k = cc
  record_map-Rewrites d e (q ∷ qs) [] h k = cc
  record_map-Rewrites d e (q ∷ qs) (r ∷ rs) h (w, k) =
      record_map-Rewrites (put q.tenant_id q d) (put r.tenant_id r e) qs rs
        (subst (λ t. Pairwise Rewrites (put q.tenant_id q d) (put t r e)) (sym w.same_id)
          (put-Rewrites q.tenant_id q r d e w h))
        k

  -- What a key leads to, before and after.
  abbrev pub OptionRewrites : Option RuntimeTenantRecord → Option RuntimeTenantRecord → Type 0
  OptionRewrites none none = Unit
  OptionRewrites none (some r) = true ≡ false
  OptionRewrites (some q) none = true ≡ false
  OptionRewrites (some q) (some r) = IsRewritten q r

  pub get-Rewrites :
      (k : String) (d e : List (String × RuntimeTenantRecord))
      → Pairwise Rewrites d e
      → OptionRewrites (get k d) (get k e)
  unfolding get
  get-Rewrites k [] [] h = tt
  get-Rewrites k [] (y ∷ ys) h = cc
  get-Rewrites k (x ∷ xs) [] h = cc
  get-Rewrites k ((i, x) ∷ xs) ((j, y) ∷ ys) ((same, w), h) = elim (Bool-cases (str_eq i k)) [
    | inl e ↦ let f : str_eq j k ≡ true = rw (← same) e in rw (e, f) w
    | inr e ↦ let f : str_eq j k ≡ false = rw (← same) e in rw (e, f) (get-Rewrites k xs ys h)
  ]
