-- ===== src/Auth/Shelves.antt =====
-- The dicts of records in app/services/auth_service.py (operators, invitations, password resets),
-- each with what its storage holds, `none` without a path. Reading the storage never fails here, and
-- it holds records of the present form from the start.
use validador_final.Prelude.{
  String, Bool, false, not, ◌||◌, List, [], ◌∷◌, Option, none, some, if◌then◌else◌, str_eq,
}
use validador_final.Prelude.Dict.{put, values}
use validador_final.Prelude.Sorting.{sort_by}

pub record Shelf (V : Type 0) : Type 0 where
  pub records : List (String × V)
  pub stored : Option (List V)

-- A kind of records: its key, its tenant, the order in which it is stored, and the hash of its token.
pub record Kind (V : Type 0) : Type 0 where
  pub key_of : V → String
  pub tenant_of : V → String
  pub with_tenant : String → V → V
  pub before : V → V → Bool
  pub hash_of : V → String

module _ {V : Type 0} (kind : Kind V) where
  unfoldable pub persist : Shelf V → Shelf V
  persist s = elim s.stored [
    | none ↦ s
    | some old ↦ record s { stored = some (sort_by kind.before (values s.records)) }
  ]

  -- `records[key] = record`
  unfoldable pub keep : V → Shelf V → Shelf V
  keep v s = record s { records = put (kind.key_of v) v s.records }

  -- The loop over the payload: the records so far, and whether a tenant was renamed.
  unfoldable pub load_all :
      (String → String) → List V → List (String × V) × Bool → List (String × V) × Bool
  load_all canonicalize [] loaded = loaded
  load_all canonicalize (v ∷ vs) loaded =
      let tenant_id = canonicalize (kind.tenant_of v) in
      let w = kind.with_tenant tenant_id v in
      load_all canonicalize vs
        (put (kind.key_of w) w loaded.0, loaded.1 || not (str_eq (kind.tenant_of v) tenant_id))

  unfoldable pub load : (String → String) → Shelf V → Shelf V
  load canonicalize s = elim s.stored [
    | none ↦ s
    | some payload ↦
        let (records, updated) = load_all canonicalize payload ([], false) in
        if updated then persist (record s { records = records }) else record s { records = records }
  ]

  unfoldable pub with_hash : String → List (String × V) → Option V
  with_hash hash [] = none
  with_hash hash ((k, v) ∷ records) =
      let rest = with_hash hash records in if str_eq (kind.hash_of v) hash then some v else rest

  -- The record with the hash: one that is not cached is looked for in the storage.
  unfoldable pub find_by_hash : (String → String) → String → Shelf V → Option V × Shelf V
  find_by_hash canonicalize hash s = elim (with_hash hash s.records) [
    | some v ↦ (some v, s)
    | none ↦ let loaded = load canonicalize s in (with_hash hash loaded.records, loaded)
  ]
