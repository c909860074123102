-- ===== src/Engine/Plan.antt =====
-- The rules of a tenant and their split into serial and parallel ones (app/core/engine.py).
use validador_final.Prelude.{
  ℕ, ◌+◌, ◌≤◌, max, String, Bool, true, false, not, ◌&&◌, ◌||◌, List, [], ◌∷◌, Option, none, some,
  length, str_eq, filter, map, ◌≡◌, refl, arith, All, Bool-cases, inl, inr, str_eq_iff, sym, ap,
  Option-cases,
}
use validador_final.Prelude.Dict.{get, put}
use validador_final.Engine.{
  TenantConfig, contains, parallel_safe_rule_names, Rule, selected, get_enabled_rules,
  parallel_names, build_execution_plan, register_rule, register_all,
}

filter-contains :
    (p : String → Bool) (n : String) (ns : List String)
    → contains n (filter p ns) ≡ (p n && contains n ns)
filter-contains p n [] = ground arith
filter-contains p n (m ∷ ns) = ground (arith, str_eq_iff n m, filter-contains p n ns)

filter-length :
    (p : String → Bool) (ns : List String)
    → length (filter p ns) + length (filter (λ n. not (p n)) ns) ≡ length ns
filter-length p [] = refl
filter-length p (n ∷ ns) = ground (arith, filter-length p ns)

abbrev pub is_some : {A : Type 0} → Option A → Bool
is_some none = false
is_some (some a) = true

module _ {W E Issue Row Raw Shared : Type 0}
    (registry : List (String × Rule W E Issue Row Raw Shared)) (tenant : TenantConfig) where
  abbrev enabled_names : List String
  enabled_names = map (λ r. r.name) (get_enabled_rules registry tenant none)

  -- Every enabled rule runs either serially or in parallel, never both, and no other rule runs; a
  -- rule that runs in parallel is one of the parallel-safe rules.
  pub build_execution_plan-split :
      (scoped_row_count : ℕ) (name : String)
      → let plan = build_execution_plan registry tenant scoped_row_count in
        (contains name enabled_names
          ≡ (contains name plan.serial_rule_names || contains name plan.parallel_rule_names))
        × ((contains name plan.serial_rule_names && contains name plan.parallel_rule_names) ≡ false)
        × ((contains name plan.parallel_rule_names && not (contains name parallel_safe_rule_names))
            ≡ false)
  unfolding build_execution_plan parallel_names
  build_execution_plan-split scoped_row_count name =
      let parallel = parallel_names registry tenant scoped_row_count enabled_names in
      let serial = filter-contains (λ n. not (contains n parallel)) name enabled_names in
      let safe = filter-contains (λ n. contains n parallel_safe_rule_names) name enabled_names in
      (ground (arith, serial, safe), ground (arith, serial, safe), ground (arith, serial, safe))

  -- With at least one request allowed to the tenant, the number of workers is at least one, at most
  -- that of the requests allowed, and at most that of the rows where there are any.
  pub build_execution_plan-workers :
      (scoped_row_count : ℕ)
      → 1 ≤ tenant.llm_parallel_requests
      → let workers = (build_execution_plan registry tenant scoped_row_count).parallel_workers in
        (1 ≤ workers)
        × (workers ≤ tenant.llm_parallel_requests)
        × (workers ≤ max 1 scoped_row_count)
  unfolding build_execution_plan parallel_names
  build_execution_plan-workers scoped_row_count h = ground arith

module _ {W E Issue Row Raw Shared : Type 0} where
  IsNamed : List (String × Rule W E Issue Row Raw Shared) → Type 0
  IsNamed = All (λ e. e.1.name ≡ e.0)

  put-IsNamed :
      (rule : Rule W E Issue Row Raw Shared) (d : List (String × Rule W E Issue Row Raw Shared))
      → IsNamed d
      → IsNamed (put rule.name rule d)
  unfolding IsNamed put
  put-IsNamed rule [] h = (refl, tt)
  put-IsNamed rule ((k, r) ∷ d) h = elim (Bool-cases (str_eq k rule.name)) [
    | inl e ↦ rw e (sym ((str_eq_iff k rule.name).0 e), h.1)
    | inr e ↦ rw e (h.0, put-IsNamed rule d h.1)
  ]

  register_all-IsNamed :
      (rules : List (Rule W E Issue Row Raw Shared)) → IsNamed (register_all rules)
  unfolding IsNamed register_all register_rule
  register_all-IsNamed [] = tt
  register_all-IsNamed (r ∷ rules) = put-IsNamed r (register_all rules) (register_all-IsNamed rules)

  get-name :
      (n : String) (d : List (String × Rule W E Issue Row Raw Shared))
      → IsNamed d
      → (r : Rule W E Issue Row Raw Shared) → get n d ≡ some r
      → r.name ≡ n
  unfolding IsNamed get
  get-name n [] h r e = cc
  get-name n ((k, r') ∷ d) h r e = elim (Bool-cases (str_eq k n)) [
    | inl t ↦ let e' = rw t at e in let here = h.0 in cc ((str_eq_iff k n).0 t)
    | inr t ↦ let e' = rw t at e in get-name n d h.1 r e'
  ]

  -- Whatever rules are registered, those that run for a choice of names are, in its order, those
  -- that the tenant does not disable and that are registered.
  pub get_enabled_rules-names :
      (rules : List (Rule W E Issue Row Raw Shared)) (tenant : TenantConfig) (names : List String)
      → map (λ r. r.name) (get_enabled_rules (register_all rules) tenant (some names))
        ≡ filter
            (λ n. not (contains n tenant.disabled_rules) && is_some (get n (register_all rules)))
            names
  unfolding get_enabled_rules selected
  get_enabled_rules-names rules tenant [] = refl
  get_enabled_rules-names rules tenant (n ∷ names) =
      elim (Bool-cases (contains n tenant.disabled_rules)) [
        | inl e ↦ rw e (get_enabled_rules-names rules tenant names)
        | inr e ↦ elim (Option-cases (get n (register_all rules))) [
          | inl g ↦ rw (e, g) (get_enabled_rules-names rules tenant names)
          | inr (r, g) ↦
              let named = get-name n (register_all rules) (register_all-IsNamed rules) r g in
              rw (e, g, named) (ap (λ ns. n ∷ ns) (get_enabled_rules-names rules tenant names))
        ]
      ]
