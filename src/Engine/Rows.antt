-- ===== src/Engine/Rows.antt =====
-- app/core/engine.py: the rows in scope, and the run of the rules on them.
use validador_final.Prelude.{
  indices_from, ℕ, ◌+◌, String, Bool, true, false, List, [], ◌∷◌, ◌++◌, Option, none, some,
  if◌then◌else◌, ◌≡◌, refl, Result, ok, ◌≢◌, Bool-cases, inl, inr,
}
use mathlib.Core.List.{append-nil, append_assoc}
use validador_final.Prelude.Exec.{Exec, pure, ◌>>=◌, ◌>>◌}
use validador_final.Duplicates.{
  Checkpoint, run_checkpoint, maybe_run_checkpoint, cell_of, get_duplicate_item_row_indices,
}
use validador_final.Duplicates.Checkpoints.{maybe_run_checkpoint-none}
use validador_final.Engine.{TenantConfig, ValidationContext, Rule, get_enabled_rules}

pub data ValidationScope : Type 0 where
  zero_items all_items duplicate_items : ValidationScope

module _ {Cell : Type 0} (same : Cell → Cell → Bool) (one : Cell) where
  -- `normalized_row.get("flag_item_cadastrado_do_zero") == 1`
  unfoldable pub is_zero_item : List (String × Option Cell) → Bool
  is_zero_item row = elim (cell_of "flag_item_cadastrado_do_zero" row) [
    | none ↦ false
    | some cell ↦ same cell one
  ]

  unfoldable pub is_row_in_scope : List (String × Option Cell) → ValidationScope → Bool
  unfolding is_zero_item
  is_row_in_scope row all_items = true
  is_row_in_scope row zero_items = is_zero_item row
  is_row_in_scope row duplicate_items = is_zero_item row

  module _ {W E : Type 0} (checkpoint : Checkpoint W E) where
    unfoldable pub scope_loop :
        ValidationScope → ℕ → List (List (String × Option Cell)) → List ℕ → Exec W E (List ℕ)
    scope_loop scope offset [] indices = pure indices
    scope_loop scope offset (row ∷ rows) indices = do
      maybe_run_checkpoint checkpoint offset
      scope_loop scope (offset + 1) rows
          (if is_row_in_scope row scope then indices ++ (offset ∷ []) else indices)

    unfoldable pub get_scoped_row_indices :
        List (List (String × Option Cell)) → ValidationScope → Exec W E (List ℕ)
    get_scoped_row_indices rows duplicate_items =
        get_duplicate_item_row_indices same checkpoint rows
    get_scoped_row_indices rows scope = do
      indices ← scope_loop scope 0 rows []
      run_checkpoint checkpoint
      pure indices

module _ {W E Issue Row Raw Shared : Type 0} (checkpoint : Checkpoint W E) where
  -- The loop of `validate_row`; the time that a rule takes is recorded elsewhere.
  unfoldable pub run_rules :
      ValidationContext Row Raw
      → List (Rule W E Issue Row Raw Shared)
      → Shared
      → List Issue
      → Exec W E (List Issue × Shared)
  run_rules context [] shared issues = pure (issues, shared)
  run_rules context (rule ∷ rules) shared issues = do
    run_checkpoint checkpoint
    if rule.applies context shared
        then (do
          (found, shared') ← rule.validate context shared
          run_checkpoint checkpoint
          run_rules context rules shared' (issues ++ found))
        else run_rules context rules shared issues

  -- `validate_row` with a shared context of the caller's: its copy is written back at the end.
  unfoldable pub validate_row :
      List (String × Rule W E Issue Row Raw Shared)
      → TenantConfig
      → ValidationContext Row Raw
      → Option (List String)
      → Shared
      → Exec W E (List Issue × Shared)
  unfolding run_rules
  validate_row registry tenant context rule_names shared =
      run_rules context (get_enabled_rules registry tenant rule_names) shared []

module _ {Cell W E : Type 0} (same : Cell → Cell → Bool) (one : Cell) where
  scope_loop_lem :
      (scope : ValidationScope) (offset : ℕ) (rows : List (List (String × Option Cell)))
      (indices : List ℕ) (w : W)
      → ◌≡◌ {A = Result E (List ℕ) × W}
          (scope_loop same one none scope offset rows indices w)
          (ok (indices ++ indices_from (λ row. is_row_in_scope same one row scope) offset rows), w)
  unfolding scope_loop indices_from ◌>>=◌ pure
  scope_loop_lem scope offset [] indices w = rw append-nil refl
  scope_loop_lem scope offset (row ∷ rows) indices w =
      let step = maybe_run_checkpoint-none {W = W} {E = E} offset w in
      elim (Bool-cases (is_row_in_scope same one row scope)) [
        | inl e ↦
            rw (step, e)
              (rw
                (scope_loop_lem scope (offset + 1) rows (indices ++ (offset ∷ [])) w, append_assoc)
                refl)
        | inr e ↦ rw (step, e) (scope_loop_lem scope (offset + 1) rows indices w)
      ]

  -- Where no checkpoint is given and the scope is not that of the duplicates, the rows in scope
  -- are those that pass the scope's test, all of them and in order, and the world is left as it
  -- was.
  pub get_scoped_row_indices-filters :
      (rows : List (List (String × Option Cell))) (scope : ValidationScope) (w : W)
      → scope ≢ duplicate_items
      → ◌≡◌ {A = Result E (List ℕ) × W}
          (get_scoped_row_indices same one none rows scope w)
          (ok (indices_from (λ row. is_row_in_scope same one row scope) 0 rows), w)
  unfolding get_scoped_row_indices ◌>>=◌ pure run_checkpoint
  get_scoped_row_indices-filters rows zero_items w h = rw scope_loop_lem refl
  get_scoped_row_indices-filters rows all_items w h = rw scope_loop_lem refl
  get_scoped_row_indices-filters rows duplicate_items w h = elim (h refl) [ ]
