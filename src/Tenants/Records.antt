-- ===== src/Tenants/Records.antt =====
-- How the records of the administration enter the list of tenants of app/core/tenant_loader.py.
use validador_final.Prelude.{
  String, ◌≡◌, refl, sym, ap, ◌∙◌, inl, inr, Bool, true, false, List, [], ◌∷◌, ◌++◌, map, Option,
  none, some, if◌then◌else◌, ◌||◌, str_eq, str_eq_iff, arith, filter, Bool-cases, Option-cases, All,
  All-map, All-mem, All-of_append, All-of_map, All-of_filter, map-same, map-append, filter-append,
}
use mathlib.Core.List.{Memᴰ, append_assoc}
use mathlib.Core.Path.{subst}
use validador_final.Prelude.Dict.{get, put, values, get-put}
use validador_final.Prelude.Text.{is_member}
use validador_final.Tenants.Config.{TenantConfig}
use validador_final.Tenants.{
  TenantFiles, RuntimeTenantRecord, runtime_record_map, config_map, apply_runtime_record,
  build_runtime_tenant_config, file_configs, is_none, is_runtime_only,
  iter_effective_tenant_configs, is_named,
}
use validador_final.Tenants.Unique.{named_self}

-- A dict whose values carry their keys.
module _ {V : Type 0} (id_of : V → String) where
  abbrev pub IsKeyed : List (String × V) → Type 0
  IsKeyed d = All (λ e. e.0 ≡ id_of e.1) d

  put-IsKeyed : (v : V) (d : List (String × V)) → IsKeyed d → IsKeyed (put (id_of v) v d)
  unfolding put
  put-IsKeyed v [] h = (refl, tt)
  put-IsKeyed v ((k, w) ∷ d) h = elim (Bool-cases (str_eq k (id_of v))) [
    | inl e ↦ rw e ((str_eq_iff k (id_of v)).0 e, h.1)
    | inr e ↦ rw e (h.0, put-IsKeyed v d h.1)
  ]

  pub put_fresh :
      (v : V) (d : List (String × V))
      → get (id_of v) d ≡ none
      → put (id_of v) v d ≡ (d ++ (id_of v, v) ∷ [])
  unfolding put get
  put_fresh v [] h = refl
  put_fresh v ((k, w) ∷ d) h = elim (Bool-cases (str_eq k (id_of v))) [
    | inl e ↦ let h' = rw e at h in cc
    | inr e ↦ rw (e, put_fresh v d (rw e at h)) refl
  ]

  pub absent :
      (k : String) (d : List (String × V))
      → IsKeyed d
      → get k d ≡ none
      → All (λ v. str_eq k (id_of v) ≡ false) (values d)
  unfolding get
  absent k [] h n = tt
  absent k ((j, v) ∷ d) h n = elim (Bool-cases (str_eq j k)) [
    | inl e ↦ let n' = rw e at n in cc
    | inr e ↦
        (ground (arith, str_eq_iff j k, str_eq_iff k (id_of v), h.0), absent k d h.1 (rw e at n))
  ]

  pub present :
      (k : String) (v : V) (d : List (String × V))
      → IsKeyed d
      → get k d ≡ some v
      → Memᴰ v (values d) × (id_of v ≡ k)
  unfolding get
  present k v [] h e = cc
  present k v ((j, w) ∷ d) h e = elim (Bool-cases (str_eq j k)) [
    | inl same ↦
        let w_is_v : w ≡ v = some_injective (rw same at e) in
        (Memᴰ.head (sym w_is_v), ap id_of (sym w_is_v) ∙ sym h.0 ∙ (str_eq_iff j k).0 same)
    | inr other ↦ let (m, same) = present k v d h.1 (rw other at e) in (Memᴰ.tail m, same)
  ]
    where
      some_injective : {x y : V} → some x ≡ some y → x ≡ y
      some_injective p = cc

pub record_map-IsKeyed :
    (found : List (String × RuntimeTenantRecord)) (records : List RuntimeTenantRecord)
    → IsKeyed (λ r. r.tenant_id) found
    → IsKeyed (λ r. r.tenant_id) (runtime_record_map found records)
unfolding runtime_record_map
record_map-IsKeyed found [] h = h
record_map-IsKeyed found (r ∷ records) h =
    record_map-IsKeyed (put r.tenant_id r found) records
      (put-IsKeyed (λ (x : RuntimeTenantRecord). x.tenant_id) r found h)

pub config_map-IsKeyed :
    (found : List (String × TenantConfig)) (configs : List TenantConfig)
    → IsKeyed (λ c. c.tenant_id) found
    → IsKeyed (λ c. c.tenant_id) (config_map found configs)
unfolding config_map
config_map-IsKeyed found [] h = h
config_map-IsKeyed found (c ∷ configs) h =
    config_map-IsKeyed (put c.tenant_id c found) configs
      (put-IsKeyed (λ (x : TenantConfig). x.tenant_id) c found h)

pub record_map-append :
    (found : List (String × RuntimeTenantRecord)) (records : List RuntimeTenantRecord)
    (r : RuntimeTenantRecord)
    → runtime_record_map found (records ++ r ∷ [])
      ≡ put r.tenant_id r (runtime_record_map found records)
unfolding runtime_record_map
record_map-append found [] r = refl
record_map-append found (q ∷ records) r = record_map-append (put q.tenant_id q found) records r

module _ (files : TenantFiles) where
  abbrev pub by_id : List RuntimeTenantRecord → List (String × RuntimeTenantRecord)
  by_id records = runtime_record_map [] records

  abbrev pub applied : List RuntimeTenantRecord → TenantConfig → TenantConfig
  applied records c = apply_runtime_record c (get c.tenant_id (by_id records))

  pub applied_id :
      (c : TenantConfig) (o : Option RuntimeTenantRecord)
      → (apply_runtime_record c o).tenant_id ≡ c.tenant_id
  unfolding apply_runtime_record
  applied_id c none = refl
  applied_id c (some r) = refl

  pub built_id :
      (r : RuntimeTenantRecord) → (build_runtime_tenant_config files r).tenant_id ≡ r.tenant_id
  unfolding build_runtime_tenant_config
  built_id r = elim (Option-cases files.default_config) [
    | inl e ↦ rw e refl
    | inr (base, e) ↦ rw e refl
  ]

  -- A tenant made of a record has the record's names.
  pub built_names :
      (text : String) (r : RuntimeTenantRecord)
      → is_named text (build_runtime_tenant_config files r)
        ≡ (str_eq text r.tenant_id || is_member text r.aliases)
  unfolding build_runtime_tenant_config is_named
  built_names text r = elim (Option-cases files.default_config) [
    | inl e ↦ rw e refl
    | inr (base, e) ↦ rw e refl
  ]

  named_id : (text : String) (c : TenantConfig) → c.tenant_id ≡ text → is_named text c ≡ true
  named_id text c e = subst (λ t. is_named t c ≡ true) e (named_self c)

  no_file :
      (records : List RuntimeTenantRecord) (text : String)
      → All (λ c. is_named text (applied records c) ≡ false) (values (file_configs files))
      → get text (file_configs files) ≡ none
  no_file records text h = elim (Option-cases (get text (file_configs files))) [
    | inl e ↦ e
    | inr (c, e) ↦
        let (m, same) =
          present (λ (x : TenantConfig). x.tenant_id) text c (file_configs files)
            (config_map-IsKeyed [] files.configs tt) e in
        let t =
          named_id text (applied records c)
            (applied_id c (get c.tenant_id (by_id records)) ∙ same) in
        let f = All-mem _ (values (file_configs files)) h m in cc
  ]

  no_runtime :
      (records : List RuntimeTenantRecord) (text : String)
      → get text (file_configs files) ≡ none
      → All
          (λ r. is_named text (build_runtime_tenant_config files r) ≡ false)
          (filter (is_runtime_only files) (values (by_id records)))
      → get text (by_id records) ≡ none
  unfolding is_runtime_only
  no_runtime records text n h = elim (Option-cases (get text (by_id records))) [
    | inl e ↦ e
    | inr (r, e) ↦
        let (m, same) =
          present (λ (x : RuntimeTenantRecord). x.tenant_id) text r (by_id records)
            (record_map-IsKeyed [] records tt) e in
        let t = named_id text (build_runtime_tenant_config files r) (built_id r ∙ same) in
        let only : is_runtime_only files r ≡ true =
          ap (λ t. is_none (get t (file_configs files))) same ∙ ap is_none n in
        let f =
          All-mem _ (values (by_id records)) (All-of_filter _ (is_runtime_only files) _ h) m only in
        cc
  ]

  -- A text that names no tenant is the key of no file and of no record.
  pub no_record :
      (records : List RuntimeTenantRecord) (text : String)
      → All (λ c. is_named text c ≡ false) (iter_effective_tenant_configs files records)
      → (get text (file_configs files) ≡ none) × (get text (by_id records) ≡ none)
  unfolding iter_effective_tenant_configs
  no_record records text h =
      let (of_files, of_records) =
        All-of_append (λ c. is_named text c ≡ false)
          (map (applied records) (values (file_configs files)))
          (map (build_runtime_tenant_config files)
            (filter (is_runtime_only files) (values (by_id records))))
          h in
      let n =
        no_file records text
          (All-of_map _ (applied records) (values (file_configs files)) of_files) in
      (
        n,
        no_runtime records text n (
            All-of_map _ (build_runtime_tenant_config files)
              (filter (is_runtime_only files) (values (by_id records))) of_records),
      )

  applied_other :
      (records : List RuntimeTenantRecord) (r : RuntimeTenantRecord) (c : TenantConfig)
      → str_eq r.tenant_id c.tenant_id ≡ false
      → applied (records ++ r ∷ []) c ≡ applied records c
  applied_other records r c h =
      ap (λ d. apply_runtime_record c (get c.tenant_id d)) (record_map-append [] records r)
      ∙ ap (apply_runtime_record c) (
          get-put r.tenant_id c.tenant_id r (by_id records)
          ∙ ap (λ b. if b then some r else get c.tenant_id (by_id records)) h)

  -- A record of a new tenant adds that tenant to the others.
  pub iter_effective-append :
      (records : List RuntimeTenantRecord) (r : RuntimeTenantRecord)
      → All (λ c. is_named r.tenant_id c ≡ false) (iter_effective_tenant_configs files records)
      → iter_effective_tenant_configs files (records ++ r ∷ [])
        ≡ (iter_effective_tenant_configs files records ++ build_runtime_tenant_config files r ∷ [])
  unfolding iter_effective_tenant_configs is_runtime_only
  iter_effective-append records r h =
      let (n, m) = no_record records r.tenant_id h in
      let grown : by_id (records ++ r ∷ []) ≡ (by_id records ++ (r.tenant_id, r) ∷ []) =
        record_map-append [] records r
        ∙ put_fresh (λ (x : RuntimeTenantRecord). x.tenant_id) r (by_id records) m in
      let F = values (file_configs files) in
      let same = map-same (applied (records ++ r ∷ [])) (applied records) F (
        All-map _ _ F (applied_other records r) (
          absent (λ (x : TenantConfig). x.tenant_id) r.tenant_id (file_configs files)
            (config_map-IsKeyed [] files.configs tt) n)) in
      let last : filter (is_runtime_only files) (values (by_id (records ++ r ∷ [])))
          ≡ (filter (is_runtime_only files) (values (by_id records)) ++ r ∷ []) =
        ap (λ d. filter (is_runtime_only files) (values d)) grown
        ∙ ap (filter (is_runtime_only files))
            (map-append (λ e. e.1) (by_id records) ((r.tenant_id, r) ∷ []))
        ∙ filter-append (is_runtime_only files) (values (by_id records)) (r ∷ [])
        ∙ ap (λ o. filter (is_runtime_only files) (values (by_id records)) ++ kept_if (is_none o))
            n in
      let old = map (applied records) F in
      let built = build_runtime_tenant_config files in
      ap
        (λ cs.
          cs ++ map built (filter (is_runtime_only files) (values (by_id (records ++ r ∷ [])))))
        same
      ∙ ap (λ rs. old ++ map built rs) last
      ∙ ap (λ cs. old ++ cs)
          (map-append built (filter (is_runtime_only files) (values (by_id records))) (r ∷ []))
      ∙ sym (
          append_assoc old (map built (filter (is_runtime_only files) (values (by_id records))))
            (built r ∷ []))
    where
      kept_if : Bool → List RuntimeTenantRecord
      kept_if b = if b then r ∷ [] else []
