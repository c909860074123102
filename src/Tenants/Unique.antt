-- ===== src/Tenants/Unique.antt =====
-- Tenants that no text names two of, and how app/core/tenant_loader.py then finds each of them.
use validador_final.Prelude.{
  suc, ◌≤◌, String, ◌≡◌, refl, sym, ap, ◌∙◌, inl, inr, Bool, true, false, not, ◌&&◌, List, [], ◌∷◌,
  Option, none, if◌then◌else◌, str_eq_refl, arith, filter, length, Result, ok, err, Bool-cases,
  Option-cases, All, All-mem, All-filter, All-self, filter-All, ok_injective,
}
use mathlib.Core.List.{Memᴰ}
use mathlib.Core.Path.{subst}
use validador_final.Prelude.Text.{strip}
use validador_final.Tenants.Config.{
  TenantConfig, ValidationProfileData, apply_validation_profile_to_tenant_config,
}
use validador_final.Tenants.{
  TenantFiles, RuntimeTenantRecord, LoadError, tenant_disabled, is_named, the_match, with_profile,
  iter_effective_tenant_configs, load_tenant_config,
}

-- No text names two of the tenants, and their identifiers have no white space at the ends.
pub record IsUnique (configs : List TenantConfig) : Type 0 where
  pub at_most_one : (text : String) → length (filter (is_named text) configs) ≤ 1
  pub trimmed : All (λ c. strip c.tenant_id ≡ c.tenant_id) configs

pub named_self : (c : TenantConfig) → is_named c.tenant_id c ≡ true
unfolding is_named
named_self c = rw (str_eq_refl c.tenant_id) refl

length-filter_mem :
    (p : TenantConfig → Bool) (c : TenantConfig) (cs : List TenantConfig)
    → Memᴰ c cs
    → p c ≡ true
    → 1 ≤ length (filter p cs)
length-filter_mem p c [] m h = elim m [ ]
length-filter_mem p c (d ∷ cs) (Memᴰ.head e) h = rw (← e, h) (omega arith)
length-filter_mem p c (d ∷ cs) (Memᴰ.tail m) h = elim (Bool-cases (p d)) [
  | inl e ↦ rw e (omega arith)
  | inr e ↦ rw e (length-filter_mem p c cs m h)
]

empty_of_length : (cs : List TenantConfig) → length cs ≤ 0 → cs ≡ []
empty_of_length [] h = refl
empty_of_length (c ∷ cs) h = ground arith

-- A tenant that passes a test that at most one tenant passes is all that the filter finds.
pub filter-only :
    (p : TenantConfig → Bool) (c : TenantConfig) (cs : List TenantConfig)
    → Memᴰ c cs
    → p c ≡ true
    → length (filter p cs) ≤ 1
    → filter p cs ≡ (c ∷ [])
filter-only p c [] m h l = elim m [ ]
filter-only p c (d ∷ cs) (Memᴰ.head e) h l =
    let h' : p d ≡ true = rw (← e) h in
    let l' : suc (length (filter p cs)) ≤ 1 = rw h' at l in
    rw (h', empty_of_length (filter p cs) (omega arith), e) refl
filter-only p c (d ∷ cs) (Memᴰ.tail m) h l = elim (Bool-cases (p d)) [
  | inl e ↦
      let l' : suc (length (filter p cs)) ≤ 1 = rw e at l in
      ground (arith, length-filter_mem p c cs m h)
  | inr e ↦ rw e (filter-only p c cs m h (rw e at l))
]

-- The two configurations are named by the same texts.
pub record SameNames (c d : TenantConfig) : Type 0 where
  pub same_id : c.tenant_id ≡ d.tenant_id
  pub same_aliases : c.aliases ≡ d.aliases

enabled :
    (c : TenantConfig) (b : Bool)
    → ◌≡◌ {A = Result LoadError TenantConfig}
        (if b && not true then err tenant_disabled else ok c)
        (ok c)
enabled c true = refl
enabled c false = refl

with_profile-SameNames :
    (published : String → Option ValidationProfileData) (c : TenantConfig)
    → (d : TenantConfig) × (with_profile published (ok c) ≡ ok d) × SameNames d c
unfolding with_profile apply_validation_profile_to_tenant_config
with_profile-SameNames published c = elim (Option-cases (published c.tenant_id)) [
  | inl e ↦ (c, rw (with_profile, e) refl, record { same_id = refl; same_aliases = refl })
  | inr (profile, e) ↦ (
    record c { profile = profile },
    rw (with_profile, e) refl,
    record { same_id = refl; same_aliases = refl },
  )
]

with_profile-found :
    (published : String → Option ValidationProfileData) (r : Result LoadError TenantConfig)
    (d : TenantConfig)
    → with_profile published r ≡ ok d
    → (c : TenantConfig) × (r ≡ ok c) × SameNames d c
unfolding with_profile
with_profile-found published (err e) d h = cc
with_profile-found published (ok c) d h =
    let (d', e, s) = with_profile-SameNames published c in
    (c, refl, subst (λ x. SameNames x c) (ok_injective (sym e ∙ h)) s)

match_found :
    (include_disabled : Bool) (cs : List TenantConfig) (c : TenantConfig)
    → the_match include_disabled cs ≡ ok c
    → Memᴰ c cs
unfolding the_match
match_found include_disabled [] c h = cc
match_found include_disabled (d ∷ []) c h = elim (Bool-cases (d.disabled && not include_disabled)) [
  | inl e ↦ let h' = rw e at h in cc
  | inr e ↦ Memᴰ.head (sym (ok_injective (rw e at h)))
]
match_found include_disabled (d ∷ e ∷ cs) c h = cc

mem-filter :
    (p : TenantConfig → Bool) (c : TenantConfig) (cs : List TenantConfig)
    → Memᴰ c (filter p cs)
    → Memᴰ c cs × (p c ≡ true)
mem-filter p c cs m = (
  All-mem (λ x. Memᴰ x cs) (filter p cs) (All-filter (λ x. Memᴰ x cs) p cs (All-self cs)) m,
  All-mem (λ x. p x ≡ true) (filter p cs) (filter-All p cs) m,
)

module _ (files : TenantFiles) (published : String → Option ValidationProfileData)
    (records : List RuntimeTenantRecord) where
  abbrev pub tenants : List TenantConfig
  tenants = iter_effective_tenant_configs files records

  load_tenant_config-only :
      (c : TenantConfig) (text : String)
      → IsUnique tenants
      → Memᴰ c tenants
      → is_named (strip text) c ≡ true
      → load_tenant_config files published records true text ≡ with_profile published (ok c)
  unfolding load_tenant_config the_match
  load_tenant_config-only c text u m n =
      rw (filter-only (is_named (strip text)) c tenants m n (u.at_most_one (strip text)))
        (ap (with_profile published) (enabled c c.disabled))

  -- Where no text names two tenants and no identifier has white space at its ends: a search that
  -- includes disabled tenants, with a text that is, without the white space at its ends, the
  -- identifier or an alias of a tenant, finds that tenant, under its own identifier and aliases.
  pub load_tenant_config-SameNames :
      (c : TenantConfig) (text : String)
      → IsUnique tenants
      → Memᴰ c tenants
      → is_named (strip text) c ≡ true
      → (d : TenantConfig) × (load_tenant_config files published records true text ≡ ok d)
        × SameNames d c
  load_tenant_config-SameNames c text u m n =
      let (d, e, s) = with_profile-SameNames published c in
      (d, load_tenant_config-only c text u m n ∙ e, s)

  -- What is found is a tenant that the text names.
  pub load_tenant_config-found :
      (include_disabled : Bool) (text : String) (d : TenantConfig)
      → load_tenant_config files published records include_disabled text ≡ ok d
      → (c : TenantConfig) × Memᴰ c tenants × (is_named (strip text) c ≡ true) × SameNames d c
  unfolding load_tenant_config
  load_tenant_config-found include_disabled text d h =
      let (c, e, s) = with_profile-found published _ d h in
      let (m, n) =
        mem-filter (is_named (strip text)) c tenants (match_found include_disabled _ c e) in
      (c, m, n, s)

-- Where no text names two tenants, what is found without its profile is found again by its own
-- identifier.
pub load_tenant_config-again :
    (files : TenantFiles) (records : List RuntimeTenantRecord) (text : String) (c : TenantConfig)
    → IsUnique (tenants files (λ t. none) records)
    → load_tenant_config files (λ t. none) records true text ≡ ok c
    → load_tenant_config files (λ t. none) records true c.tenant_id ≡ ok c
unfolding load_tenant_config the_match with_profile
load_tenant_config-again files records text c u h =
    let (d, e, s) = with_profile-found (λ t. none) _ c h in
    let cs = tenants files (λ t. none) records in
    let same : d ≡ c = ok_injective (sym (ap (with_profile (λ t. none)) e) ∙ h) in
    let (m, n) = mem-filter (is_named (strip text)) c cs (match_found true _ c (e ∙ ap ok same)) in
    load_tenant_config-only files (λ t. none) records c c.tenant_id u m
      (rw (All-mem _ cs u.trimmed m) (named_self c))
