-- ===== src/Rules/Integrity.antt =====
-- app/rules/integrity.py: `FlagConsistencyRule` and `DuplicateItemRule`.
use Prim.Native.String
use validador_final.Prelude.{
  ℕ, String, Bool, true, false, not, ◌&&◌, List, [], ◌∷◌, ◌++◌, Option, none, some, if◌then◌else◌,
  ltb,
}
use validador_final.Prelude.Exec.{Exec, pure, ◌>>=◌}
use validador_final.Duplicates.{cell_of, count_item_occurrences}
use validador_final.CanonicalFields.{Cells, Row, has_content}
use validador_final.Rules.{ValidationIssue}

unfoldable pub error : String → String → String → ValidationIssue
error code message field = record {
  code = code;
  severity = "error";
  message = message;
  field = some field;
}

-- `if test: issues.append(issue)`
abbrev pub when : Bool → ValidationIssue → List ValidationIssue
when true issue = issue ∷ []
when false issue = []

module _ {Cell : Type 0} (cells : Cells Cell) where
  -- `value == 1`
  unfoldable pub is_one : Option Cell → Bool
  is_one none = false
  is_one (some c) = cells.same c (cells.number 1)

  -- The four tests of `FlagConsistencyRule.validate`.
  unfoldable pub flag_issues : Bool → Bool → Bool → List ValidationIssue
  flag_issues has_placa coletado zero =
      when (has_placa && not coletado) (
        error "FLAG_CONSISTENCY_COLETADO" "Placa Anterior presente mas flag_item_coletado não é 1"
          "flag_item_coletado")
      ++ when (not has_placa && not zero) (
          error "FLAG_CONSISTENCY_ZERO"
            "Placa Anterior ausente mas flag_item_cadastrado_do_zero não é 1"
            "flag_item_cadastrado_do_zero")
      ++ when (has_placa && zero) (
          error "FLAG_CONSISTENCY_CONFLICT"
            "Placa Anterior presente mas flag_item_cadastrado_do_zero é 1"
            "flag_item_cadastrado_do_zero")
      ++ when (not has_placa && coletado) (
          error "FLAG_CONSISTENCY_CONFLICT" "Placa Anterior ausente mas flag_item_coletado é 1"
            "flag_item_coletado")

  unfoldable pub check_flags : Row Cell → List ValidationIssue
  check_flags row =
      flag_issues (has_content cells (cell_of "placa_anterior" row))
        (is_one (cell_of "flag_item_coletado" row))
        (is_one (cell_of "flag_item_cadastrado_do_zero" row))

  -- The second test of the rule on the occurrences of an item.
  unfoldable pub duplicate_issue : Cell → ℕ → List ValidationIssue
  duplicate_issue item count = when (ltb 1 count) (
      error "DUPLICATE_ITEM"
        (String.◌++◌ "Item '" (
          String.◌++◌ (cells.shown item)
            (String.◌++◌ "' aparece " (String.◌++◌ (cells.shown (cells.number count)) " vezes"))))
        "item")

  -- `counts[item]` of a `Counter`
  unfoldable pub count_of : Cell → List (Cell × ℕ) → ℕ
  count_of item [] = 0
  count_of item ((c, n) ∷ counts) = if cells.same c item then n else count_of item counts

  -- The counts of the shared context, or those of all rows, which are noted there.
  unfoldable pub shared_counts :
      {W E : Type 0} → List (Row Cell) → Option (List (Cell × ℕ)) → Exec W E (List (Cell × ℕ))
  shared_counts all_rows none = count_item_occurrences cells.same none all_rows
  shared_counts all_rows (some counts) = pure counts

  -- `DuplicateItemRule.validate` with the row's item: the issues, and the counts of the context.
  unfoldable pub check_item :
      {W E : Type 0}
      → List (Row Cell)
      → Option (List (Cell × ℕ))
      → Option Cell
      → Exec W E (List ValidationIssue × Option (List (Cell × ℕ)))
  check_item all_rows shared none = pure ([], shared)
  check_item all_rows shared (some item) = do
    counts ← shared_counts all_rows shared
    pure (duplicate_issue item (count_of item counts), some counts)

  unfoldable pub check_duplicates :
      {W E : Type 0}
      → Row Cell
      → List (Row Cell)
      → Option (List (Cell × ℕ))
      → Exec W E (List ValidationIssue × Option (List (Cell × ℕ)))
  check_duplicates row all_rows shared = check_item all_rows shared (cell_of "item" row)
