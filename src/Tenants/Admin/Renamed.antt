-- ===== src/Tenants/Admin/Renamed.antt =====
-- What a change of one tenant's aliases does to the names of the tenants
-- (app/services/tenant_admin_service.py).
use validador_final.Prelude.{
  ◌≡◌, sym, inl, inr, String, true, false, List, [], ◌∷◌, some, str_eq_iff, arith, Bool-cases, All,
}
use mathlib.Core.Path.{subst}
use validador_final.Prelude.Text.{strip, is_member}
use validador_final.Tenants.Config.{TenantConfig}
use validador_final.Tenants.{is_named}
use validador_final.Tenants.Unique.{IsUnique}
use validador_final.Tenants.Changed.{Pairwise, IsChanged, length-Pairwise}
use validador_final.Tenants.Admin.Collisions.{IsClear}

Pairwise-left :
    {A : Type 0} (R : A → A → Type 0) (P : A → Type 0) (xs ys : List A)
    → Pairwise R xs ys
    → All P xs
    → Pairwise (λ x y. R x y × P x) xs ys
Pairwise-left R P [] [] h k = tt
Pairwise-left R P [] (y ∷ ys) h k = cc
Pairwise-left R P (x ∷ xs) [] h k = cc
Pairwise-left R P (x ∷ xs) (y ∷ ys) h k = ((h.0, k.0), Pairwise-left R P xs ys h.1 k.1)

Pairwise-All :
    {A : Type 0} (R : A → A → Type 0) (P Q : A → Type 0) (xs ys : List A)
    → ((x y : A) → R x y → P x → Q y)
    → Pairwise R xs ys
    → All P xs
    → All Q ys
Pairwise-All R P Q [] [] g h k = tt
Pairwise-All R P Q [] (y ∷ ys) g h k = cc
Pairwise-All R P Q (x ∷ xs) [] g h k = cc
Pairwise-All R P Q (x ∷ xs) (y ∷ ys) g h k = (g x y h.0 k.0, Pairwise-All R P Q xs ys g h.1 k.1)

module _ (current : String) (aliases : List String) where
  -- What names a changed tenant by a claimed text is the current one.
  claimed_names :
      (text : String)
      → is_member text (current ∷ aliases) ≡ true
      → (c d : TenantConfig)
      → IsChanged current aliases c d × IsClear (some current) (current ∷ aliases) c
      → is_named text d ≡ true
      → is_named current c ≡ true
  unfolding is_named
  claimed_names text m c d (h, inl e) n =
      ground (arith, str_eq_iff c.tenant_id current, str_eq_iff current c.tenant_id)
  claimed_names text m c d (h, inr f) n = elim h.names [
    | inl same ↦ let free = f text m in let named = rw (h.same_id, same) at n in cc
    | inr (id, new) ↦ ground (arith, id, str_eq_iff current c.tenant_id)
  ]

  other_names :
      (text : String)
      → is_member text (current ∷ aliases) ≡ false
      → (c d : TenantConfig)
      → IsChanged current aliases c d × IsClear (some current) (current ∷ aliases) c
      → is_named text d ≡ true
      → is_named text c ≡ true
  unfolding is_named
  other_names text m c d (h, clear) n = elim h.names [
    | inl same ↦ rw (h.same_id, same) at n
    | inr (id, new) ↦ let named = rw (h.same_id, id, new) at n in ground (arith, named, m)
  ]

  -- Where no tenant but the current one is named by its new names, the change keeps the names apart.
  pub changed-IsUnique :
      (cs ds : List TenantConfig)
      → IsUnique cs
      → All (IsClear (some current) (current ∷ aliases)) cs
      → Pairwise (IsChanged current aliases) cs ds
      → IsUnique ds
  changed-IsUnique cs ds u clear h =
      let both = Pairwise-left (IsChanged current aliases) _ cs ds h clear in
      record {
        at_most_one = λ text. elim (Bool-cases (is_member text (current ∷ aliases))) [
          | inl m ↦ omega (
            arith,
            length-Pairwise _ (is_named current) (is_named text) cs ds (claimed_names text m) both,
            u.at_most_one current,
          )
          | inr m ↦ omega (
            arith,
            length-Pairwise _ (is_named text) (is_named text) cs ds (other_names text m) both,
            u.at_most_one text,
          )
        ];
        trimmed =
            Pairwise-All (IsChanged current aliases) _ _ cs ds
              (λ c d k t. subst (λ i. strip i ≡ i) (sym k.same_id) t) h u.trimmed;
      }
