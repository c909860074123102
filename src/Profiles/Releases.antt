-- ===== src/Profiles/Releases.antt =====
-- A new version in the store of profiles (app/core/tenant_profile.py).
use validador_final.Prelude.{
  ◌<◌, String, ◌≡◌, refl, ap, ◌∙◌, ◌⊎◌, inl, inr, true, false, not, List, [], ◌∷◌, ◌++◌, none, some,
  str_eq, str_eq_iff, str_eq_refl, arith, head?, Bool-cases, ltb, All-always, filter-append,
  filter-filter, filter-none, filter-All, All-map,
}
use mathlib.Core.List.{append-nil}
use validador_final.Profiles.{
  ProfileStore, ValidationProfileVersionRecord, get_draft, released, versions_of, max_number,
  latest, latest_of, get_latest_published_validation_profile_version, other_drafts,
}

latest_last :
    (best : ValidationProfileVersionRecord) (vs : List ValidationProfileVersionRecord)
    (v : ValidationProfileVersionRecord)
    → best.version_number < v.version_number
    → max_number vs < v.version_number
    → latest best (vs ++ v ∷ []) ≡ v
unfolding latest max_number
latest_last best [] v h k =
    let later : ltb best.version_number v.version_number ≡ true = ground arith in
    rw (latest, later) refl
latest_last best (w ∷ vs) v h k = elim (Bool-cases (ltb best.version_number w.version_number)) [
  | inl e ↦ rw (latest, e) (latest_last w vs v (omega arith) (omega arith))
  | inr e ↦ rw (latest, e) (latest_last best vs v h (omega arith))
]

module _ (v : ValidationProfileVersionRecord) (store : ProfileStore) where
  latest_of_last :
      (vs : List ValidationProfileVersionRecord)
      → max_number vs < v.version_number
      → latest_of (vs ++ v ∷ []) ≡ some v
  unfolding latest_of latest max_number
  latest_of_last [] h = refl
  latest_of_last (w ∷ vs) h = ap some (latest_last w vs v (omega arith) (omega arith))

  -- A version whose number is above the others of the tenant is the tenant's latest one.
  pub get_latest-released :
      max_number (versions_of v.tenant_id store.versions) < v.version_number
      → get_latest_published_validation_profile_version (released v store) v.tenant_id ≡ some v
  unfolding get_latest_published_validation_profile_version released versions_of
  get_latest-released h =
      ap latest_of (
        filter-append (λ w. str_eq w.tenant_id v.tenant_id) store.versions (v ∷ [])
        ∙ rw (str_eq_refl v.tenant_id) refl)
      ∙ latest_of_last (versions_of v.tenant_id store.versions) h

  pub get_draft-released : get_draft (released v store) v.tenant_id ≡ none
  unfolding get_draft released other_drafts
  get_draft-released = ap head? (
      filter-none (λ d. str_eq d.tenant_id v.tenant_id) (other_drafts v.tenant_id store.drafts)
        (All-map _ _ (other_drafts v.tenant_id store.drafts) (λ d h. ground arith)
          (filter-All (λ d. not (str_eq d.tenant_id v.tenant_id)) store.drafts)))

  module _ (t : String) (other : str_eq v.tenant_id t ≡ false) where
    pub versions_of-released :
        versions_of t (released v store).versions ≡ versions_of t store.versions
    unfolding released versions_of
    versions_of-released =
        filter-append (λ w. str_eq w.tenant_id t) store.versions (v ∷ [])
        ∙ rw other (append-nil (versions_of t store.versions))

    pub get_draft-released_other : get_draft (released v store) t ≡ get_draft store t
    unfolding get_draft released other_drafts
    get_draft-released_other = ap head? (
        filter-filter (λ d. str_eq d.tenant_id t) (λ d. not (str_eq d.tenant_id v.tenant_id))
          store.drafts (All-always _ store.drafts (λ d. keeps d.tenant_id)))
      where
        keeps : (d : String) → (str_eq d t ≡ false) ⊎ (not (str_eq d v.tenant_id) ≡ true)
        keeps d = elim (Bool-cases (str_eq d t)) [
          | inr e ↦ inl e
          | inl e ↦
              inr
                (ground (arith, str_eq_iff d t, str_eq_iff d v.tenant_id, str_eq_iff v.tenant_id t))
        ]
