-- ===== src/Retention/Expired.antt =====
-- What `_collect_protected_artifact_paths` and `_collect_expired_artifacts` of
-- app/services/retention_service.py collect.
use validador_final.Prelude.{
  String, ◌≡◌, refl, sym, ap, ◌∙◌, inl, inr, Bool, true, false, ◌&&◌, ◌||◌, List, [], ◌∷◌, Option,
  none, some, str_eq, str_eq_iff, str_eq_refl, arith, All, All-append, Bool-cases, any, any-append,
  All-self, All-map, any-elim, any-mem, not,
}
use mathlib.Core.List.{Memᴰ}
use validador_final.Job.{JobRecord, Time}
use validador_final.Retention.Kinds.{
  ArtifactKind, kind_eq, RetentionPolicy, Disk, upload, result, report, review_flags,
}
use validador_final.Retention.{
  RetentionArtifact, RetentionWorld, Candidate, Slot, Keys, is_key, add_key, slots, candidate_of,
  is_needed, protect, collect_protected_artifact_paths, Collected, collect,
  collect_expired_artifacts, protected_in, expired_in, reference_time, is_recent,
}

pub kind_eq_refl : (k : ArtifactKind) → kind_eq k k ≡ true
kind_eq_refl upload = refl
kind_eq_refl result = refl
kind_eq_refl report = refl
kind_eq_refl review_flags = refl

kind_eq→same : (k l : ArtifactKind) → kind_eq k l ≡ true → k ≡ l
kind_eq→same upload upload h = refl
kind_eq→same upload result h = cc
kind_eq→same upload report h = cc
kind_eq→same upload review_flags h = cc
kind_eq→same result upload h = cc
kind_eq→same result result h = refl
kind_eq→same result report h = cc
kind_eq→same result review_flags h = cc
kind_eq→same report upload h = cc
kind_eq→same report result h = cc
kind_eq→same report report h = refl
kind_eq→same report review_flags h = cc
kind_eq→same review_flags upload h = cc
kind_eq→same review_flags result h = cc
kind_eq→same review_flags report h = cc
kind_eq→same review_flags review_flags h = refl

is_key-add_key :
    (kind k : ArtifactKind) (key p : String) (keys : Keys)
    → is_key k p (add_key kind key keys) ≡ (is_key k p keys || (kind_eq kind k && str_eq key p))
unfolding is_key add_key
is_key-add_key kind k key p keys = elim (Bool-cases (is_key kind key keys)) [
  | inl e ↦ elim (Bool-cases (kind_eq kind k && str_eq key p)) [
    | inl same ↦
        let kinds = kind_eq→same kind k (ground arith) in
        let keys_same = (str_eq_iff key p).0 (ground arith) in
        rw (e, same) (ground (arith, rw (kinds, keys_same) at e))
    | inr other ↦ rw (e, other) (ground arith)
  ]
  | inr e ↦ rw e (ground arith)
]

module _ (world : RetentionWorld) (policy : RetentionPolicy) (now : Time) (disk : Disk) where
  -- The job of the turn needs the file with the key, as an artifact of the kind.
  abbrev needs_candidate : ArtifactKind → String → Slot → Option Candidate → Bool
  needs_candidate kind key slot none = false
  needs_candidate kind key slot (some c) =
      is_needed world policy now disk slot.0 c
      && (kind_eq slot.1 kind && str_eq (world.resolve c.path) key)

  abbrev pub needs : ArtifactKind → String → Slot → Bool
  needs kind key slot = needs_candidate kind key slot (candidate_of world policy now disk slot)

  is_key-protect :
      (slot : Slot) (c : Option Candidate) (keys : Keys) (k : ArtifactKind) (p : String)
      → is_key k p (protect world policy now disk slot c keys)
        ≡ (is_key k p keys || needs_candidate k p slot c)
  unfolding protect
  is_key-protect (job, kind) none keys k p = ground arith
  is_key-protect (job, kind) (some c) keys k p =
      elim (Bool-cases (is_needed world policy now disk job c)) [
        | inl e ↦ rw e (is_key-add_key kind k (world.resolve c.path) p keys)
        | inr e ↦ rw e (ground arith)
      ]

  is_key-collect_protected :
      (turns : List Slot) (keys : Keys) (k : ArtifactKind) (p : String)
      → is_key k p (collect_protected_artifact_paths world policy now disk turns keys)
        ≡ (is_key k p keys || any (needs k p) turns)
  unfolding collect_protected_artifact_paths
  is_key-collect_protected [] keys k p = ground arith
  is_key-collect_protected (slot ∷ rest) keys k p =
      let c = candidate_of world policy now disk slot in
      is_key-collect_protected rest _ k p
      ∙ ap (λ b. b || any (needs k p) rest) (is_key-protect slot c keys k p)
      ∙ ground arith

  -- A path is protected for a kind exactly if a job of the list needs it.
  is_key-protected_in :
      (jobs : List JobRecord) (k : ArtifactKind) (p : String)
      → is_key k p (protected_in world policy now disk jobs) ≡ any (needs k p) (slots jobs)
  unfolding protected_in is_key
  is_key-protected_in jobs k p = is_key-collect_protected (slots jobs) [] k p ∙ ground arith

  -- The artifact belongs to a job of the list, its file is on the disk, was last touched before the
  -- policy's days, and no job needs its path.
  pub record IsExpired (jobs : List JobRecord) (protected_paths : Keys) (a : RetentionArtifact)
      : Type 0 where
    pub job : JobRecord
    pub c : Candidate
    pub is_listed : Memᴰ (job, a.kind) (slots jobs)
    pub is_candidate : candidate_of world policy now disk (job, a.kind) ≡ some c
    pub same_path : a.path ≡ c.path
    pub not_protected : is_key a.kind (world.resolve a.path) protected_paths ≡ false
    pub not_recent : is_recent now c.days (reference_time job c.facts) ≡ false

  module _ (jobs : List JobRecord) (protected_paths : Keys) where
    collect-IsExpired :
        (job : JobRecord) (kind : ArtifactKind) (c : Option Candidate) (so_far : Collected)
        → Memᴰ (job, kind) (slots jobs)
        → candidate_of world policy now disk (job, kind) ≡ c
        → All (IsExpired jobs protected_paths) so_far.artifacts
        → All
            (IsExpired jobs protected_paths)
            (collect world policy now disk protected_paths (job, kind) c so_far).artifacts
    unfolding collect
    collect-IsExpired job kind none so_far m e h = h
    collect-IsExpired job kind (some c) so_far m e h =
        let key = world.resolve c.path in
        elim (Bool-cases (is_key kind key protected_paths)) [
          | inl p ↦ rw p h
          | inr p ↦ elim (Bool-cases (is_recent now c.days (reference_time job c.facts))) [
            | inl r ↦ rw (p, r) h
            | inr r ↦ elim (Bool-cases (is_key kind key so_far.candidate_path_keys)) [
              | inl q ↦ rw (p, r, q) h
              | inr q ↦
                  rw (p, r, q)
                    (All-append _ so_far.artifacts _ h (
                      record {
                        job = job;
                        c = c;
                        is_listed = m;
                        is_candidate = e;
                        same_path = refl;
                        not_protected = p;
                        not_recent = r;
                      },
                      tt,
                    ))
            ]
          ]
        ]

    collect_expired_artifacts-IsExpired :
        (turns : List Slot) (so_far : Collected)
        → All (λ slot. Memᴰ slot (slots jobs)) turns
        → All (IsExpired jobs protected_paths) so_far.artifacts
        → All
            (IsExpired jobs protected_paths)
            (collect_expired_artifacts world policy now disk protected_paths turns so_far).artifacts
    unfolding collect_expired_artifacts
    collect_expired_artifacts-IsExpired [] so_far m h = h
    collect_expired_artifacts-IsExpired ((job, kind) ∷ rest) so_far m h =
        collect_expired_artifacts-IsExpired rest _ m.1 (
          collect-IsExpired job kind (candidate_of world policy now disk (job, kind)) so_far m.0
            refl h)

  -- The artifact has the kind, and its path leads to the file with the key.
  abbrev pub has_key : ArtifactKind → String → RetentionArtifact → Bool
  has_key kind key a = kind_eq a.kind kind && str_eq (world.resolve a.path) key

  -- The keys seen are those of the artifacts.
  abbrev KeysMatch : Collected → Type 0
  KeysMatch so_far =
      (kind : ArtifactKind) (key : String)
      → any (has_key kind key) so_far.artifacts ≡ is_key kind key so_far.candidate_path_keys

  module _ (protected_paths : Keys) where
    collect-KeysMatch :
        (slot : Slot) (c : Option Candidate) (so_far : Collected)
        → KeysMatch so_far
        → KeysMatch (collect world policy now disk protected_paths slot c so_far)
    unfolding collect is_key
    collect-KeysMatch (job, kind) none so_far h k p = h k p
    collect-KeysMatch (job, kind) (some c) so_far h k p =
        let key = world.resolve c.path in
        elim (Bool-cases
          (is_key kind key protected_paths || is_recent now c.days (reference_time job c.facts))) [
            | inl e ↦ rw e (h k p)
            | inr e ↦ elim (Bool-cases (is_key kind key so_far.candidate_path_keys)) [
              | inl q ↦ rw (e, q) (h k p)
              | inr q ↦
                  rw (e, q) (rw (any-append (has_key k p) so_far.artifacts) (ground (arith, h k p)))
            ]
          ]

    collect_keeps :
        (slot : Slot) (c : Option Candidate) (so_far : Collected) (k : ArtifactKind) (p : String)
        → is_key k p so_far.candidate_path_keys ≡ true
        → is_key k p
            (collect world policy now disk protected_paths slot c so_far).candidate_path_keys
          ≡ true
    unfolding collect is_key
    collect_keeps (job, kind) none so_far k p h = h
    collect_keeps (job, kind) (some c) so_far k p h = ground arith

    expired_keeps :
        (turns : List Slot) (so_far : Collected) (k : ArtifactKind) (p : String)
        → is_key k p so_far.candidate_path_keys ≡ true
        → is_key k p
            (collect_expired_artifacts world policy now disk protected_paths turns
              so_far).candidate_path_keys
          ≡ true
    unfolding collect_expired_artifacts
    expired_keeps [] so_far k p h = h
    expired_keeps (slot ∷ rest) so_far k p h =
        expired_keeps rest _ k p
          (collect_keeps slot (candidate_of world policy now disk slot) so_far k p h)

    collect_adds :
        (job : JobRecord) (kind : ArtifactKind) (c : Candidate) (so_far : Collected)
        → is_recent now c.days (reference_time job c.facts) ≡ false
        → is_key kind (world.resolve c.path) protected_paths ≡ false
        → is_key kind
            (world.resolve c.path)
            (collect world policy now disk protected_paths
              (job, kind)
              (some c)
              so_far).candidate_path_keys
          ≡ true
    unfolding collect is_key
    collect_adds job kind c so_far r p =
        let key = world.resolve c.path in
        elim (Bool-cases (is_key kind key so_far.candidate_path_keys)) [
          | inl q ↦ rw (r, p, q) q
          | inr q ↦ rw (r, p, q) (ground (arith, kind_eq_refl kind, str_eq_refl key))
        ]

    expired_finds :
        (turns : List Slot) (so_far : Collected) (job : JobRecord) (kind : ArtifactKind)
        (c : Candidate)
        → Memᴰ (job, kind) turns
        → candidate_of world policy now disk (job, kind) ≡ some c
        → is_recent now c.days (reference_time job c.facts) ≡ false
        → is_key kind (world.resolve c.path) protected_paths ≡ false
        → is_key kind
            (world.resolve c.path)
            (collect_expired_artifacts world policy now disk protected_paths turns
              so_far).candidate_path_keys
          ≡ true
    unfolding collect_expired_artifacts
    expired_finds [] so_far job kind c m e r p = elim m [ ]
    expired_finds (slot ∷ rest) so_far job kind c (Memᴰ.head same) e r p =
        expired_keeps rest _ kind (world.resolve c.path)
          (rw (← same, e) (collect_adds job kind c so_far r p))
    expired_finds (slot ∷ rest) so_far job kind c (Memᴰ.tail m) e r p =
        expired_finds rest _ job kind c m e r p

    collect_expired_artifacts-KeysMatch :
        (turns : List Slot) (so_far : Collected)
        → KeysMatch so_far
        → KeysMatch (collect_expired_artifacts world policy now disk protected_paths turns so_far)
    unfolding collect_expired_artifacts
    collect_expired_artifacts-KeysMatch [] so_far h = h
    collect_expired_artifacts-KeysMatch (slot ∷ rest) so_far h =
        collect_expired_artifacts-KeysMatch rest _
          (collect-KeysMatch slot (candidate_of world policy now disk slot) so_far h)

  -- Every turn of the loops is about a job of the list.
  pub expired_in-IsExpired :
      (jobs : List JobRecord)
      → All
          (IsExpired jobs (protected_in world policy now disk jobs))
          (expired_in world policy now disk jobs).artifacts
  unfolding expired_in
  expired_in-IsExpired jobs =
      collect_expired_artifacts-IsExpired jobs (protected_in world policy now disk jobs)
        (slots jobs) _ (All-self (slots jobs)) tt

  needed_of_recent :
      (job : JobRecord) (kind : ArtifactKind) (c : Candidate)
      → candidate_of world policy now disk (job, kind) ≡ some c
      → is_recent now c.days (reference_time job c.facts) ≡ true
      → needs kind (world.resolve c.path) (job, kind) ≡ true
  unfolding is_needed
  needed_of_recent job kind c e r =
      rw (e, r) (ground (arith, kind_eq_refl kind, str_eq_refl (world.resolve c.path)))

  -- No artifact is selected whose path a job needs.
  pub none_selected :
      (jobs : List JobRecord) (kind : ArtifactKind) (key : String)
      → any (needs kind key) (slots jobs) ≡ true
      → All
          (λ a. has_key kind key a ≡ true → false ≡ true)
          (expired_in world policy now disk jobs).artifacts
  none_selected jobs kind key h =
      All-map _ _ (expired_in world policy now disk jobs).artifacts
        (λ a expired t.
          let same_kind = kind_eq→same a.kind kind (ground arith) in
          let same_key = (str_eq_iff (world.resolve a.path) key).0 (ground arith) in
          let p = rw (same_kind, same_key) at expired.not_protected in
          sym p ∙ is_key-protected_in jobs kind key ∙ h)
        (expired_in-IsExpired jobs)

  some_selected :
      (jobs : List JobRecord) (job : JobRecord) (kind : ArtifactKind) (c : Candidate)
      → Memᴰ (job, kind) (slots jobs)
      → candidate_of world policy now disk (job, kind) ≡ some c
      → any (needs kind (world.resolve c.path)) (slots jobs) ≡ false
      → any (has_key kind (world.resolve c.path)) (expired_in world policy now disk jobs).artifacts
        ≡ true
  unfolding expired_in is_key
  some_selected jobs job kind c m e h =
      let key = world.resolve c.path in
      let protected_paths = protected_in world policy now disk jobs in
      let start : Collected = record {
        artifacts = [];
        retained_artifacts = 0;
        candidate_path_keys = [];
      } in
      elim (Bool-cases (is_recent now c.days (reference_time job c.facts))) [
        | inl r ↦
            let needed =
              any-mem (needs kind key) (job, kind) (slots jobs) m
                (needed_of_recent job kind c e r) in
            cc
        | inr r ↦
            collect_expired_artifacts-KeysMatch protected_paths (slots jobs) start (λ k p. refl)
              kind key
            ∙ expired_finds protected_paths (slots jobs) start job kind c m e r
                (is_key-protected_in jobs kind key ∙ h)
      ]

  -- The file of a job, of a kind whose retention is not off, is selected for deletion, under this
  -- path or another one of the same file, exactly if no job of the list needs the file as an
  -- artifact of the kind.
  pub expired_in_iff :
      (jobs : List JobRecord) (job : JobRecord) (kind : ArtifactKind) (c : Candidate)
      → Memᴰ (job, kind) (slots jobs)
      → candidate_of world policy now disk (job, kind) ≡ some c
      → any (has_key kind (world.resolve c.path)) (expired_in world policy now disk jobs).artifacts
        ≡ not (any (needs kind (world.resolve c.path)) (slots jobs))
  expired_in_iff jobs job kind c m e =
      let key = world.resolve c.path in
      let selected = any (has_key kind key) (expired_in world policy now disk jobs).artifacts in
      elim (Bool-cases (any (needs kind key) (slots jobs))) [
        | inl n ↦ elim (Bool-cases selected) [
          | inl s ↦ let h = any-elim _ _ (none_selected jobs kind key n) s in cc
          | inr s ↦ rw n s
        ]
        | inr n ↦ rw n (some_selected jobs job kind c m e n)
      ]
