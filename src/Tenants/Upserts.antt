-- ===== src/Tenants/Upserts.antt =====
-- The tenants after `_upsert_runtime_record` of app/services/tenant_admin_service.py.
use validador_final.Prelude.{
  String, ◌≡◌, refl, sym, ap, ◌∙◌, inl, inr, Bool, true, false, List, [], ◌∷◌, ◌++◌, map, Option,
  none, some, if◌then◌else◌, str_eq, str_eq_iff, arith, filter, filter-append, Bool-cases,
  Option-cases, any, All, All-map, All-mem, All-append, All-to_map, All-filter, map-append,
}
use mathlib.Core.Path.{subst}
use mathlib.Core.List.{Memᴰ, append-nil}
use validador_final.Prelude.Dict.{get, put, values, get-put}
use validador_final.Tenants.Config.{TenantConfig}
use validador_final.Tenants.{
  TenantFiles, RuntimeTenantRecord, runtime_record_map, apply_runtime_record,
  build_runtime_tenant_config, file_configs, is_none, is_runtime_only,
  iter_effective_tenant_configs,
}
use validador_final.Tenants.Records.{
  record_map-IsKeyed, config_map-IsKeyed, record_map-append, present, absent, put_fresh, by_id,
  applied, applied_id, built_id,
}
use validador_final.Tenants.Changed.{
  Pairwise, Pairwise-refl, Pairwise-append, Pairwise-map, Pairwise-filter, IsChanged, IsRewritten,
  IsRewritten-refl, Rewrites, record_map-Rewrites, get-Rewrites, OptionRewrites,
}
use validador_final.Tenants.Admin.{upserted}

Pairwise-two :
    {A B : Type 0} (Q : B → B → Type 0) (f g : A → B) (xs : List A)
    → ((x : A) → Q (f x) (g x))
    → Pairwise Q (map f xs) (map g xs)
Pairwise-two Q f g [] h = tt
Pairwise-two Q f g (x ∷ xs) h = (h x, Pairwise-two Q f g xs h)

-- Some record is the tenant's.
abbrev is_recorded : String → List RuntimeTenantRecord → Bool
is_recorded t qs = any (λ q. str_eq q.tenant_id t) qs

upserted_new :
    (r : RuntimeTenantRecord) (qs : List RuntimeTenantRecord)
    → is_recorded r.tenant_id qs ≡ false
    → upserted r qs ≡ (qs ++ r ∷ [])
unfolding upserted
upserted_new r [] h = refl
upserted_new r (q ∷ qs) h = elim (Bool-cases (str_eq q.tenant_id r.tenant_id)) [
  | inl e ↦ let h' = rw e at h in cc
  | inr e ↦ rw (e, upserted_new r qs (rw e at h)) refl
]

upserted-Pairwise :
    (r : RuntimeTenantRecord) (qs : List RuntimeTenantRecord)
    → is_recorded r.tenant_id qs ≡ true
    → Pairwise (IsRewritten r.tenant_id r.aliases) qs (upserted r qs)
unfolding upserted
upserted-Pairwise r [] h = cc
upserted-Pairwise r (q ∷ qs) h = elim (Bool-cases (str_eq q.tenant_id r.tenant_id)) [
  | inl e ↦
      let same = (str_eq_iff q.tenant_id r.tenant_id).0 e in
      rw (upserted, e)
        (
          record { same_id = sym same; names = inr (same, refl) },
          Pairwise-refl _ qs (IsRewritten-refl r.tenant_id r.aliases),
        )
  | inr e ↦
      rw (upserted, e)
        (IsRewritten-refl r.tenant_id r.aliases q, upserted-Pairwise r qs (rw e at h))
]

unrecorded :
    (k : String) (d : List (String × RuntimeTenantRecord)) (qs : List RuntimeTenantRecord)
    → get k d ≡ none
    → is_recorded k qs ≡ false
    → get k (runtime_record_map d qs) ≡ none
unfolding runtime_record_map
unrecorded k d [] n h = n
unrecorded k d (q ∷ qs) n h = elim (Bool-cases (str_eq q.tenant_id k)) [
  | inl e ↦ let h' = rw e at h in cc
  | inr e ↦
      unrecorded k (put q.tenant_id q d) qs (get-put q.tenant_id k q d ∙ rw (e, n) refl) (rw e at h)
]

module _ (files : TenantFiles) (current : String) (aliases : List String) where
  applied-IsChanged :
      (c : TenantConfig) (o p : Option RuntimeTenantRecord)
      → OptionRewrites current aliases o p
      → ((q : RuntimeTenantRecord) → o ≡ some q → q.tenant_id ≡ c.tenant_id)
      → IsChanged current aliases (apply_runtime_record c o) (apply_runtime_record c p)
  unfolding apply_runtime_record
  applied-IsChanged c none none h k = record { same_id = refl; names = inl refl }
  applied-IsChanged c none (some r) h k = cc
  applied-IsChanged c (some q) none h k = cc
  applied-IsChanged c (some q) (some r) h k = record {
    same_id = refl;
    names = elim h.names [ inl e ↦ inl e | inr (e, f) ↦ inr (sym (k q refl) ∙ e, f) ];
  }

  built-IsChanged :
      (q r : RuntimeTenantRecord)
      → IsRewritten current aliases q r
      → IsChanged current aliases
          (build_runtime_tenant_config files q)
          (build_runtime_tenant_config files r)
  unfolding build_runtime_tenant_config
  built-IsChanged q r w = elim (Option-cases files.default_config) [
    | inl e ↦ rw e (record { same_id = w.same_id; names = w.names })
    | inr (base, e) ↦ rw e (record { same_id = w.same_id; names = w.names })
  ]

  -- Where records are rewritten in place, so are the tenants.
  effective_rewritten :
      (qs rs : List RuntimeTenantRecord)
      → Pairwise (IsRewritten current aliases) qs rs
      → Pairwise
          (IsChanged current aliases)
          (iter_effective_tenant_configs files qs)
          (iter_effective_tenant_configs files rs)
  unfolding iter_effective_tenant_configs is_runtime_only
  effective_rewritten qs rs h =
      let maps = record_map-Rewrites current aliases [] [] qs rs tt h in
      let build = build_runtime_tenant_config files in
      Pairwise-append _ _ _ _ _
        (Pairwise-two (IsChanged current aliases) (applied files qs) (applied files rs)
          (values (file_configs files))
          (λ c.
            applied-IsChanged c _ _
              (get-Rewrites current aliases c.tenant_id (by_id files qs) (by_id files rs) maps)
              (λ q e.
                (present (λ (x : RuntimeTenantRecord). x.tenant_id) c.tenant_id q (by_id files qs)
                  (record_map-IsKeyed [] qs tt) e).1)))
        (Pairwise-map (IsRewritten current aliases) (IsChanged current aliases) build _ _
          built-IsChanged
          (Pairwise-filter (IsRewritten current aliases) (is_runtime_only files) _ _
            (λ q r w. ap (λ t. is_none (get t (file_configs files))) (sym w.same_id))
            (Pairwise-map (Rewrites current aliases) (IsRewritten current aliases) (λ e. e.1)
              (by_id files qs) (by_id files rs) (λ d e w. w.1) maps)))

  -- Where the tenant has no record, none of the tenants' lists but that of the files can hold it.
  without_current :
      (qs : List RuntimeTenantRecord)
      → get current (file_configs files) ≡ none
      → get current (by_id files qs) ≡ none
      → All (λ c. str_eq current c.tenant_id ≡ false) (iter_effective_tenant_configs files qs)
  unfolding iter_effective_tenant_configs
  without_current qs n m =
      let P = λ (c : TenantConfig). str_eq current c.tenant_id ≡ false in
      let F = values (file_configs files) in
      let build = build_runtime_tenant_config files in
      let rest = filter (is_runtime_only files) (values (by_id files qs)) in
      All-append P (map (applied files qs) F) (map build rest)
        (All-to_map P (applied files qs) F (
          All-map _ _ F
            (λ c h.
              subst (λ t. str_eq current t ≡ false)
                (sym (applied_id files c (get c.tenant_id (by_id files qs)))) h)
            (absent (λ (x : TenantConfig). x.tenant_id) current (file_configs files)
              (config_map-IsKeyed [] files.configs tt) n)))
        (All-to_map P build rest (
          All-map _ _ rest (λ r h. subst (λ t. str_eq current t ≡ false) (sym (built_id files r)) h)
            (All-filter _ (is_runtime_only files) (values (by_id files qs)) (
              absent (λ (x : RuntimeTenantRecord). x.tenant_id) current (by_id files qs)
                (record_map-IsKeyed [] qs tt) m))))

  module _ (qs : List RuntimeTenantRecord) (r : RuntimeTenantRecord) (id : r.tenant_id ≡ current)
      (al : r.aliases ≡ aliases) (n : get current (by_id files qs) ≡ none) where
    appended-IsChanged :
        (c : TenantConfig)
        → IsChanged current aliases (applied files qs c) (applied files (qs ++ r ∷ []) c)
    unfolding apply_runtime_record
    appended-IsChanged c =
        let grown = record_map-append [] qs r in
        let after : get c.tenant_id (by_id files (qs ++ r ∷ [])) ≡ (
            if str_eq r.tenant_id c.tenant_id then some r else get c.tenant_id (by_id files qs)) =
          ap (get c.tenant_id) grown ∙ get-put r.tenant_id c.tenant_id r (by_id files qs) in
        elim (Bool-cases (str_eq r.tenant_id c.tenant_id)) [
          | inr e ↦
              subst (λ o. IsChanged current aliases (applied files qs c) (apply_runtime_record c o))
                (sym (after ∙ ap (λ b. if b then some r else get c.tenant_id (by_id files qs)) e))
                (record { same_id = refl; names = inl refl })
          | inl e ↦
              let c_id = sym id ∙ (str_eq_iff r.tenant_id c.tenant_id).0 e in
              let before : get c.tenant_id (by_id files qs) ≡ none =
                subst (λ t. get t (by_id files qs) ≡ none) c_id n in
              subst
                (λ o.
                  IsChanged current aliases (apply_runtime_record c o)
                    (applied files (qs ++ r ∷ []) c))
                (sym before)
                (subst (λ o. IsChanged current aliases c (apply_runtime_record c o))
                  (sym (after ∙ ap (λ b. if b then some r else get c.tenant_id (by_id files qs)) e))
                  (record { same_id = refl; names = inr (sym c_id, al) }))
        ]

    -- A first record for a tenant of the files changes that tenant only.
    effective_appended :
        is_none (get current (file_configs files)) ≡ false
        → Pairwise
            (IsChanged current aliases)
            (iter_effective_tenant_configs files qs)
            (iter_effective_tenant_configs files (qs ++ r ∷ []))
    unfolding iter_effective_tenant_configs is_runtime_only
    effective_appended of_file =
        let build = build_runtime_tenant_config files in
        let only = is_runtime_only files in
        let grown =
          record_map-append [] qs r
          ∙ put_fresh (λ (x : RuntimeTenantRecord). x.tenant_id) r (by_id files qs)
              (ap (λ t. get t (by_id files qs)) id ∙ n) in
        let same : filter only (values (by_id files qs))
            ≡ filter only (values (by_id files (qs ++ r ∷ []))) =
          sym (
            ap (λ d. filter only (values d)) grown
            ∙ ap (filter only) (map-append (λ e. e.1) (by_id files qs) ((r.tenant_id, r) ∷ []))
            ∙ filter-append only (values (by_id files qs)) (r ∷ [])
            ∙ ap (λ b. filter only (values (by_id files qs)) ++ (if b then r ∷ [] else []))
                (ap (λ t. is_none (get t (file_configs files))) id ∙ of_file)
            ∙ append-nil (filter only (values (by_id files qs)))) in
        Pairwise-append _ _ _ _ _
          (Pairwise-two (IsChanged current aliases) (applied files qs)
            (applied files (qs ++ r ∷ [])) (values (file_configs files)) appended-IsChanged)
          (subst
            (λ rs.
              Pairwise (IsChanged current aliases)
                (map build (filter only (values (by_id files qs)))) (map build rs))
            same
            (Pairwise-refl (IsChanged current aliases)
              (map build (filter only (values (by_id files qs))))
              (λ c. record { same_id = refl; names = inl refl })))

-- A record written for one of the tenants changes that tenant only: its aliases are then the
-- record's.
pub effective-upserted :
    (files : TenantFiles) (qs : List RuntimeTenantRecord) (r : RuntimeTenantRecord)
    (c : TenantConfig)
    → Memᴰ c (iter_effective_tenant_configs files qs)
    → c.tenant_id ≡ r.tenant_id
    → Pairwise
        (IsChanged r.tenant_id r.aliases)
        (iter_effective_tenant_configs files qs)
        (iter_effective_tenant_configs files (upserted r qs))
unfolding get
effective-upserted files qs r c m id = elim (Bool-cases (is_recorded r.tenant_id qs)) [
  | inl e ↦
      effective_rewritten files r.tenant_id r.aliases qs (upserted r qs) (upserted-Pairwise r qs e)
  | inr e ↦
      let n = unrecorded r.tenant_id [] qs refl e in
      subst
        (λ rs.
          Pairwise (IsChanged r.tenant_id r.aliases) (iter_effective_tenant_configs files qs)
            (iter_effective_tenant_configs files rs))
        (sym (upserted_new r qs e))
        (effective_appended files r.tenant_id r.aliases qs r refl refl n
          (elim (Option-cases (get r.tenant_id (file_configs files))) [
            | inr (f, g) ↦ ap is_none g
            | inl g ↦
                let h =
                  All-mem _ (iter_effective_tenant_configs files qs)
                    (without_current files r.tenant_id r.aliases qs g n) m in
                ground (arith, str_eq_iff r.tenant_id c.tenant_id, sym id)
          ]))
]
