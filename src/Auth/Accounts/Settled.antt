-- ===== src/Auth/Accounts/Settled.antt =====
-- Records of app/services/auth_service.py of which none is live, in the dict and in the storage.
use validador_final.Prelude.{
  String, ◌≡◌, refl, sym, ◌∙◌, inl, inr, Bool, true, false, List, [], ◌∷◌, Option, none, some,
  str_eq, str_eq_iff, arith, Bool-cases, Option-cases, All, ◌≢◌, any,
}
use mathlib.Core.Path.{subst}
use validador_final.Prelude.Dict.{put, values}
use validador_final.Prelude.Sorting.{sort_by-All, any-sort_by}
use validador_final.Auth.Shelves.{
  Shelf, Kind, persist, keep, load, load_all, with_hash, find_by_hash,
}

pub put-All :
    {V : Type 0} (P : V → Type 0) (k : String) (v : V) (d : List (String × V))
    → P v
    → All (λ e. P e.1) d
    → All (λ e. P e.1) (put k v d)
unfolding put
put-All P k v [] p h = (p, tt)
put-All P k v ((j, w) ∷ d) p h = elim (Bool-cases (str_eq j k)) [
  | inl e ↦ rw e (p, h.1)
  | inr e ↦ rw e (h.0, put-All P k v d p h.1)
]

put_keys-All :
    {V : Type 0} (P : String → Type 0) (k : String) (v : V) (d : List (String × V))
    → P k
    → All (λ e. P e.0) d
    → All (λ e. P e.0) (put k v d)
unfolding put
put_keys-All P k v [] p h = (p, tt)
put_keys-All P k v ((j, w) ∷ d) p h = elim (Bool-cases (str_eq j k)) [
  | inl e ↦ rw e h
  | inr e ↦ rw e (h.0, put_keys-All P k v d p h.1)
]

values-All :
    {V : Type 0} (P : V → Type 0) (d : List (String × V)) → All (λ e. P e.1) d → All P (values d)
values-All P [] h = tt
values-All P ((k, v) ∷ d) h = (h.0, values-All P d h.1)

module _ {V : Type 0} (kind : Kind V) where
  pub persist-records : (s : Shelf V) → (persist kind s).records ≡ s.records
  unfolding persist
  persist-records s = elim (Option-cases s.stored) [ inl e ↦ rw e refl | inr (old, e) ↦ rw e refl ]

  -- The dict has every record under its key, and every key once.
  abbrev pub IsFiled : List (String × V) → Type 0
  IsFiled [] = Unit
  IsFiled ((k, v) ∷ d) = (k ≡ kind.key_of v) × All (λ e. str_eq e.0 k ≡ false) d × IsFiled d

  put-IsFiled : (v : V) (d : List (String × V)) → IsFiled d → IsFiled (put (kind.key_of v) v d)
  unfolding put
  put-IsFiled v [] h = (refl, tt, tt)
  put-IsFiled v ((k, w) ∷ d) (same, others, h) = elim (Bool-cases (str_eq k (kind.key_of v))) [
    | inl e ↦ rw e ((str_eq_iff k (kind.key_of v)).0 e, others, h)
    | inr e ↦ rw e (
      same,
      put_keys-All (λ j. str_eq j k ≡ false) (kind.key_of v) v d
          (ground (arith, str_eq_iff k (kind.key_of v), str_eq_iff (kind.key_of v) k)) others,
      put-IsFiled v d h,
    )
  ]

  module _ (P : V → Type 0) where
    abbrev pub InStorage : Option (List V) → Type 0
    InStorage none = Unit
    InStorage (some payload) = All P payload

    -- Of all records, in the dict and in the storage.
    abbrev pub Throughout : Shelf V → Type 0
    Throughout s = All (λ e. P e.1) s.records × InStorage s.stored

    pub persist-Throughout :
        (s : Shelf V) → All (λ e. P e.1) s.records → Throughout (persist kind s)
    unfolding persist
    persist-Throughout s h = elim (Option-cases s.stored) [
      | inl e ↦ rw (persist, e) (h, subst InStorage (sym e) tt)
      | inr (old, e) ↦
          rw (persist, e)
            (h, sort_by-All kind.before P (values s.records) (values-All P s.records h))
    ]

    pub keep-Throughout :
        (v : V) (s : Shelf V) → P v → Throughout s → Throughout (persist kind (keep kind v s))
    unfolding keep
    keep-Throughout v s p h =
        persist-Throughout (keep kind v s) (put-All P (kind.key_of v) v s.records p h.0)

    pub with_hash-Throughout :
        (hash : String) (v : V) (d : List (String × V))
        → All (λ e. P e.1) d
        → with_hash kind hash d ≡ some v
        → P v
    unfolding with_hash
    with_hash-Throughout hash v [] h f = cc
    with_hash-Throughout hash v ((k, x) ∷ d) h f =
        elim (Bool-cases (str_eq (kind.hash_of x) hash)) [
          | inl g ↦ subst P (some_same (rw g at f)) h.0
          | inr g ↦ with_hash-Throughout hash v d h.1 (rw g at f)
        ]
      where
        some_same : {x y : V} → some x ≡ some y → x ≡ y
        some_same p = cc

    module _ (canonicalize : String → String)
        (kept : (t : String) (v : V) → P v → P (kind.with_tenant t v)) where
      load_all-Throughout :
          (vs : List V) (loaded : List (String × V) × Bool)
          → All P vs
          → All (λ e. P e.1) loaded.0
          → All (λ e. P e.1) (load_all kind canonicalize vs loaded).0
      unfolding load_all
      load_all-Throughout [] loaded p h = h
      load_all-Throughout (v ∷ vs) loaded p h =
          let w = kind.with_tenant (canonicalize (kind.tenant_of v)) v in
          load_all-Throughout vs _ p.1
            (put-All P (kind.key_of w) w loaded.0 (kept (canonicalize (kind.tenant_of v)) v p.0) h)

      pub load-Throughout : (s : Shelf V) → Throughout s → Throughout (load kind canonicalize s)
      unfolding load
      load-Throughout s h = elim (Option-cases s.stored) [
        | inl e ↦ rw (load, e) h
        | inr (payload, e) ↦
            let stored = subst InStorage e h.1 in
            let loaded = load_all kind canonicalize payload ([], false) in
            let all = load_all-Throughout payload ([], false) stored tt in
            elim (Bool-cases loaded.1) [
              | inl u ↦ rw (load, e, u) (persist-Throughout (record s { records = loaded.0 }) all)
              | inr u ↦ rw (load, e, u) (all, subst InStorage (sym e) stored)
            ]
      ]

      pub find_by_hash-Throughout :
          (hash : String) (s : Shelf V)
          → Throughout s
          → Throughout (find_by_hash kind canonicalize hash s).1
      unfolding find_by_hash
      find_by_hash-Throughout hash s h = elim (Option-cases (with_hash kind hash s.records)) [
        | inl e ↦ rw (find_by_hash, e) (load-Throughout s h)
        | inr (v, e) ↦ rw (find_by_hash, e) h
      ]

  module _ (canonicalize : String → String) where
    load_all-IsFiled :
        (vs : List V) (loaded : List (String × V) × Bool)
        → IsFiled loaded.0
        → IsFiled (load_all kind canonicalize vs loaded).0
    unfolding load_all
    load_all-IsFiled [] loaded h = h
    load_all-IsFiled (v ∷ vs) loaded h =
        load_all-IsFiled vs _
          (put-IsFiled (kind.with_tenant (canonicalize (kind.tenant_of v)) v) loaded.0 h)

    pub load-IsFiled :
        (s : Shelf V) → IsFiled s.records → IsFiled (load kind canonicalize s).records
    unfolding load
    load-IsFiled s h = elim (Option-cases s.stored) [
      | inl e ↦ rw (load, e) h
      | inr (payload, e) ↦
          let loaded = load_all kind canonicalize payload ([], false) in
          let filed = load_all-IsFiled payload ([], false) tt in
          elim (Bool-cases loaded.1) [
            | inl u ↦
                rw (load, e, u)
                  (subst IsFiled (sym (persist-records (record s { records = loaded.0 }))) filed)
            | inr u ↦ rw (load, e, u) filed
          ]
    ]

    pub find_by_hash-IsFiled :
        (hash : String) (s : Shelf V)
        → IsFiled s.records
        → IsFiled (find_by_hash kind canonicalize hash s).1.records
    unfolding find_by_hash
    find_by_hash-IsFiled hash s h = elim (Option-cases (with_hash kind hash s.records)) [
      | inl e ↦ rw (find_by_hash, e) (load-IsFiled s h)
      | inr (v, e) ↦ rw (find_by_hash, e) h
    ]

    -- Where a search finds a record, that is the first with the hash in the dict that it leaves.
    pub find_by_hash_first :
        (hash : String) (s : Shelf V)
        → with_hash kind hash (find_by_hash kind canonicalize hash s).1.records
          ≡ (find_by_hash kind canonicalize hash s).0
    unfolding find_by_hash
    find_by_hash_first hash s = elim (Option-cases (with_hash kind hash s.records)) [
      | inl e ↦ rw (find_by_hash, e) refl
      | inr (v, e) ↦ rw (find_by_hash, e) e
    ]

  -- The hash is that of a token of the record with the key, and of no other one.
  abbrev pub IsTokenOf : String → String → V → Type 0
  IsTokenOf hash key v = str_eq (kind.hash_of v) hash ≡ true → kind.key_of v ≡ key

  module _ (hash key : String) (live : V → Bool)
      (with_token : (v : V) → live v ≡ true → str_eq (kind.hash_of v) hash ≡ true) where
    not_live : (v : V) → IsTokenOf hash key v → (kind.key_of v ≢ key) → live v ≡ false
    not_live v token other = elim (Bool-cases (live v)) [
      | inl e ↦ absurd (other (token (with_token v e)))
      | inr e ↦ e
    ]

    others_dead :
        (d : List (String × V))
        → IsFiled d
        → All (λ e. str_eq e.0 key ≡ false) d
        → All (λ e. IsTokenOf hash key e.1) d
        → All (λ e. live e.1 ≡ false) d
    others_dead [] f k t = tt
    others_dead ((j, v) ∷ d) f k t = (
      not_live v t.0 (λ p. ground (arith, str_eq_iff j key, f.0, k.0, p)),
      others_dead d f.2 k.1 t.1,
    )

    -- Where the record of the token has been replaced by one that is not live, none is.
    pub put_settles :
        (w : V) (d : List (String × V))
        → IsFiled d
        → All (λ e. IsTokenOf hash key e.1) d
        → live w ≡ false
        → All (λ e. live e.1 ≡ false) (put key w d)
    unfolding put
    put_settles w [] f t p = (p, tt)
    put_settles w ((j, v) ∷ d) f t p = elim (Bool-cases (str_eq j key)) [
      | inl e ↦ rw e (
        p,
        others_dead d f.2
            (subst (λ x. All (λ e'. str_eq e'.0 x ≡ false) d) ((str_eq_iff j key).0 e) f.1) t.1,
      )
      | inr e ↦ rw e (
        not_live v t.0 (λ q. ground (arith, str_eq_iff j key, f.0, e, q)),
        put_settles w d f.2 t.1 p,
      )
    ]

  pub with_hash-hash :
      (hash : String) (v : V) (d : List (String × V))
      → with_hash kind hash d ≡ some v
      → str_eq (kind.hash_of v) hash ≡ true
  unfolding with_hash
  with_hash-hash hash v [] f = cc
  with_hash-hash hash v ((k, x) ∷ d) f = elim (Bool-cases (str_eq (kind.hash_of x) hash)) [
    | inl g ↦ subst (λ y. str_eq (kind.hash_of y) hash ≡ true) (some_same (rw g at f)) g
    | inr g ↦ with_hash-hash hash v d (rw g at f)
  ]
    where
      some_same : {x y : V} → some x ≡ some y → x ≡ y
      some_same p = cc

  other_records :
      (key : String) (w : V) (d : List (String × V))
      → IsFiled d
      → All (λ e. str_eq e.0 key ≡ false) d
      → All (λ e. kind.key_of e.1 ≡ key → e.1 ≡ w) d
  other_records key w [] f k = tt
  other_records key w ((j, v) ∷ d) f k =
      ((λ p. absurd (ground (arith, str_eq_iff j key, f.0, k.0, p))), other_records key w d f.2 k.1)

  -- A record that is put is the only one under its key.
  pub put_only :
      (w : V) (d : List (String × V))
      → IsFiled d
      → All (λ e. kind.key_of e.1 ≡ kind.key_of w → e.1 ≡ w) (put (kind.key_of w) w d)
  unfolding put
  put_only w [] f = ((λ p. refl), tt)
  put_only w ((j, v) ∷ d) f = elim (Bool-cases (str_eq j (kind.key_of w))) [
    | inl e ↦ rw e (
      (λ p. refl),
      other_records (kind.key_of w) w d f.2 (
          subst (λ x. All (λ e'. str_eq e'.0 x ≡ false) d) ((str_eq_iff j (kind.key_of w)).0 e)
            f.1),
    )
    | inr e ↦
        rw e (
          (λ p. absurd (ground (arith, str_eq_iff j (kind.key_of w), f.0, e, p))),
          put_only w d f.2,
        )
  ]

  any-put :
      (p : V → Bool) (k : String) (w : V) (d : List (String × V))
      → p w ≡ true
      → any p (values (put k w d)) ≡ true
  unfolding put
  any-put p k w [] h = rw h refl
  any-put p k w ((j, v) ∷ d) h = elim (Bool-cases (str_eq j k)) [
    | inl e ↦ rw (e, h) refl
    | inr e ↦ rw e (let rest = any-put p k w d h in ground arith)
  ]

  -- A record that is kept is in the storage, where there is one.
  pub keep_stored :
      (p : V → Bool) (w : V) (s : Shelf V) (payload : List V)
      → p w ≡ true
      → (persist kind (keep kind w s)).stored ≡ some payload
      → any p payload ≡ true
  unfolding persist keep
  keep_stored p w s payload h e = elim (Option-cases s.stored) [
    | inl n ↦ let e' = rw (persist, keep, n) at e in cc
    | inr (old, n) ↦
        let written = put (kind.key_of w) w s.records in
        let same = some_same (rw (persist, keep, n) at e) in
        subst (λ x. any p x ≡ true) same
          (any-sort_by kind.before p (values written) ∙ any-put p (kind.key_of w) w s.records h)
  ]
    where
      some_same : {x y : List V} → some x ≡ some y → x ≡ y
      some_same q = cc
