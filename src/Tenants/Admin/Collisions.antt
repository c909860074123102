-- ===== src/Tenants/Admin/Collisions.antt =====
-- What `_validate_no_collisions` of app/services/tenant_admin_service.py makes sure of.
use validador_final.Prelude.{
  ◌≡◌, refl, sym, ap, ◌∙◌, ◌⊎◌, inl, inr, String, Bool, true, false, not, ◌||◌, List, [], ◌∷◌, map,
  Option, none, some, str_eq, str_eq_iff, str_eq_refl, arith, filter, head?, any, Result, ok, err,
  ok_injective, Bool-cases, Result-cases, All, All-map, All-self, All-mem,
}
use mathlib.Core.List.{Memᴰ}
use mathlib.Core.Path.{subst}
use validador_final.Prelude.Sorting.{sort_by, any-sort_by}
use validador_final.Prelude.Text.{is_member, is_member-sorted_set, text_leb}
use validador_final.Tenants.Config.{TenantConfig}
use validador_final.Tenants.{
  RuntimeTenantRecord, LoadError, is_named, iter_effective_tenant_configs, list_tenants,
}
use validador_final.Tenants.Unique.{IsUnique, SameNames, named_self, load_tenant_config-SameNames}
use validador_final.Tenants.Admin.Checks.{
  AdminError, TextFacts, is_existing, common, collide, collision_with,
}
use validador_final.Tenants.Admin.{AdminWorld, load, load_each, add_config, checked_against}

-- The tenant is the one that may keep its names, or none of the texts claimed names it.
abbrev pub IsClear : Option String → List String → TenantConfig → Type 0
IsClear existing claimed c =
    (is_existing existing c.tenant_id ≡ true)
    ⊎ ((text : String) → is_member text claimed ≡ true → is_named text c ≡ false)

is_member-filter :
    (p : String → Bool) (t : String) (texts : List String)
    → is_member t texts ≡ true
    → p t ≡ true
    → is_member t (filter p texts) ≡ true
is_member-filter p t [] h k = cc
is_member-filter p t (x ∷ texts) h k = elim (Bool-cases (str_eq t x)) [
  | inl e ↦ let px : p x ≡ true = ap p (sym ((str_eq_iff t x).0 e)) ∙ k in rw (px, e) refl
  | inr e ↦
      let rest = is_member-filter p t texts (rw e at h) k in
      elim (Bool-cases (p x)) [ inl f ↦ rw (f, e) rest | inr f ↦ rw f rest ]
]

nothing_common :
    (claimed : List String) (c : TenantConfig)
    → head? (common claimed c) ≡ none
    → (text : String) → is_member text claimed ≡ true
    → is_named text c ≡ false
unfolding common is_named
nothing_common claimed c h text m =
    let shared = λ (t : String). is_member t (c.tenant_id ∷ c.aliases) in
    elim (Bool-cases (shared text)) [
      | inr e ↦ ground arith
      | inl e ↦
          let found =
            any-sort_by text_leb (str_eq text) (filter shared claimed)
            ∙ is_member-filter shared text claimed m e in
          headless (sort_by text_leb (filter shared claimed)) h found
    ]
  where
    headless :
        (ts : List String) → head? ts ≡ none → any (str_eq text) ts ≡ true → is_named text c ≡ false
    headless [] n a = cc
    headless (t ∷ ts) n a = cc

collide_ok :
    (o : Option String) (b : Bool) (rest : Result AdminError (Unit {0})) (u : Unit {0})
    → collide o b rest ≡ ok u
    → (o ≡ none) × (rest ≡ ok u)
unfolding collide
collide_ok (some v) b rest u h = cc
collide_ok none true rest u h = cc
collide_ok none false rest u h = (refl, h)

collision_with-IsClear :
    (texts : TextFacts) (tenant_id display_name : String) (aliases : List String)
    (existing : Option String) (configs : List TenantConfig) (u : Unit {0})
    → collision_with texts tenant_id display_name aliases existing configs ≡ ok u
    → All (IsClear existing (tenant_id ∷ aliases)) configs
unfolding collision_with
collision_with-IsClear texts tenant_id display_name aliases existing [] u h = tt
collision_with-IsClear texts tenant_id display_name aliases existing (c ∷ configs) u h =
    elim (Bool-cases (is_existing existing c.tenant_id)) [
      | inl e ↦ (
        inl e,
        collision_with-IsClear texts tenant_id display_name aliases existing configs u (rw e at h),
      )
      | inr e ↦
          let (n, rest) = collide_ok _ _ _ u (rw e at h) in
          (
            inr (nothing_common (tenant_id ∷ aliases) c n),
            collision_with-IsClear texts tenant_id display_name aliases existing configs u rest,
          )
    ]

add_config_ok :
    (r : Result LoadError TenantConfig) (rest : Result LoadError (List TenantConfig))
    (configs : List TenantConfig)
    → add_config r rest ≡ ok configs
    → (c : TenantConfig) × (cs : List TenantConfig) × (r ≡ ok c)
      × (rest ≡ ok cs)
      × ((c ∷ cs) ≡ configs)
unfolding add_config
add_config_ok (err e) rest configs h = cc
add_config_ok (ok c) (err e) configs h = cc
add_config_ok (ok c) (ok cs) configs h = (c, cs, refl, refl, ok_injective h)

module _ (world : AdminWorld) (records : List RuntimeTenantRecord) where
  -- The tenant that the identifier loads has the property.
  abbrev Loads : (TenantConfig → Type 0) → String → Type 0
  Loads P tenant_id = (c : TenantConfig) × (load world records tenant_id ≡ ok c) × P c

  load_each-Loads :
      (P : TenantConfig → Type 0) (ids : List String) (configs : List TenantConfig)
      → load_each world records ids ≡ ok configs
      → All P configs
      → All (Loads P) ids
  unfolding load_each
  load_each-Loads P [] configs h all = tt
  load_each-Loads P (i ∷ ids) configs h all =
      let (c, cs, e, rest, same) =
        add_config_ok (load world records i) (load_each world records ids) configs h in
      let all' : All P (c ∷ cs) = subst (All P) (sym same) all in
      ((c, e, all'.0), load_each-Loads P ids cs rest all'.1)

  All-is_member :
      (P : String → Type 0) (t : String) (ids : List String)
      → All P ids
      → is_member t ids ≡ true
      → P t
  All-is_member P t [] h m = cc
  All-is_member P t (i ∷ ids) h m = elim (Bool-cases (str_eq t i)) [
    | inl e ↦ subst P (sym ((str_eq_iff t i).0 e)) h.0
    | inr e ↦ All-is_member P t ids h.1 (rw e at m)
  ]

  filter_everything : (cs : List TenantConfig) → filter (λ c. true || not c.disabled) cs ≡ cs
  filter_everything [] = refl
  filter_everything (c ∷ cs) = ap (λ ds. c ∷ ds) (filter_everything cs)

  is_member-ids :
      (c : TenantConfig) (cs : List TenantConfig)
      → Memᴰ c cs
      → is_member c.tenant_id (map (λ d. d.tenant_id) cs) ≡ true
  is_member-ids c [] m = elim m [ ]
  is_member-ids c (d ∷ cs) (Memᴰ.head e) = rw (← e, str_eq_refl c.tenant_id) refl
  is_member-ids c (d ∷ cs) (Memᴰ.tail m) = ground (arith, is_member-ids c cs m)

  abbrev pub effective : List TenantConfig
  effective = iter_effective_tenant_configs world.files records

  is_member-list_tenants :
      (c : TenantConfig)
      → Memᴰ c effective
      → is_member c.tenant_id (list_tenants world.files records true) ≡ true
  unfolding list_tenants
  is_member-list_tenants c m =
      is_member-sorted_set c.tenant_id _
      ∙ ap (λ cs. is_member c.tenant_id (map (λ (d : TenantConfig). d.tenant_id) cs))
          (filter_everything effective)
      ∙ is_member-ids c effective m

  names_transfer :
      (existing : Option String) (claimed : List String) (c d : TenantConfig)
      → SameNames d c
      → IsClear existing claimed d
      → IsClear existing claimed c
  unfolding is_named
  names_transfer existing claimed c d s (inl e) = inl (rw (← s.same_id) e)
  names_transfer existing claimed c d s (inr f) =
      inr (λ text m. rw (← s.same_id, ← s.same_aliases) (f text m))

  -- Where no text names two tenants, a check that passes leaves no tenant but the one that may keep
  -- its names that a text claimed names.
  pub checked_against-IsClear :
      (tenant_id display_name : String) (aliases : List String) (existing : Option String)
      (u : Unit {0})
      → IsUnique effective
      → checked_against world.texts tenant_id display_name aliases existing
          (load_each world records (list_tenants world.files records true))
        ≡ ok u
      → All (IsClear existing (tenant_id ∷ aliases)) effective
  unfolding checked_against load
  checked_against-IsClear tenant_id display_name aliases existing u unique h =
      elim (Result-cases (load_each world records (list_tenants world.files records true))) [
        | inr (e, l) ↦ let h' = rw (checked_against, l) at h in cc
        | inl (configs, l) ↦
            let clear =
              collision_with-IsClear world.texts tenant_id display_name aliases existing configs u
                (rw (checked_against, l) at h) in
            let P = IsClear existing (tenant_id ∷ aliases) in
            let loads = load_each-Loads P (list_tenants world.files records true) configs l clear in
            All-map _ P effective
              (λ c m.
                let (d, e, k) =
                  All-is_member (Loads P) c.tenant_id (list_tenants world.files records true) loads
                    (is_member-list_tenants c m) in
                let trim = All-mem _ effective unique.trimmed m in
                let (d', e', s) =
                  load_tenant_config-SameNames world.files world.published_profile records c
                    c.tenant_id unique m (rw trim (named_self c)) in
                names_transfer existing (tenant_id ∷ aliases) c d
                  (subst (λ x. SameNames x c) (ok_injective (sym e' ∙ e)) s) k)
              (All-self effective)
      ]
