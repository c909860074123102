-- ===== src/Rules/Flags.antt =====
-- The flags that `normalize_row` derives are those that `FlagConsistencyRule` wants.
use validador_final.Prelude.{
  String, Bool, true, false, not, List, [], Option, none, some, if◌then◌else◌, ◌≡◌, ◌↔◌, refl,
  str_eq, arith, sym, ◌∙◌, ap,
}
use validador_final.Prelude.Dict.{get, put, get-put}
use validador_final.Duplicates.{cell_of}
use validador_final.CanonicalFields.{
  Cells, Row, Folding, has_content, derive_flags, with_flags, normalize_row,
}
use validador_final.Rules.Integrity.{is_one, flag_issues, check_flags}

flag_issues_iff :
    {Cell : Type 0} (cells : Cells Cell) (has_placa coletado zero : Bool)
    → (flag_issues cells has_placa coletado zero ≡ [])
      ↔ ((coletado ≡ has_placa) × (zero ≡ not has_placa))
unfolding flag_issues
flag_issues_iff cells true true true = ground arith
flag_issues_iff cells true true false = ground arith
flag_issues_iff cells true false true = ground arith
flag_issues_iff cells true false false = ground arith
flag_issues_iff cells false true true = ground arith
flag_issues_iff cells false true false = ground arith
flag_issues_iff cells false false true = ground arith
flag_issues_iff cells false false false = ground arith

-- The rule on the flags finds nothing in a row exactly if the flag of a collected item is 1 just where
-- there is a previous tag, and the flag of an item made from scratch is 1 just where there is none.
check_flags_iff :
    {Cell : Type 0} (cells : Cells Cell) (row : Row Cell)
    → (check_flags cells row ≡ []) ↔ (
        (is_one cells (cell_of "flag_item_coletado" row)
          ≡ has_content cells (cell_of "placa_anterior" row))
        × (is_one cells (cell_of "flag_item_cadastrado_do_zero" row)
            ≡ not (has_content cells (cell_of "placa_anterior" row))))
unfolding check_flags
check_flags_iff cells row = flag_issues_iff cells _ _ _

module _ {Cell : Type 0} (cells : Cells Cell) where
  abbrev Counts : Type 0
  Counts =
      (cells.same (cells.number 1) (cells.number 1) ≡ true)
      × (cells.same (cells.number 0) (cells.number 1) ≡ false)

  abbrev present : Option (Option Cell) → Option Cell
  present found = elim found [ none ↦ none | some cell ↦ cell ]

  present_if :
      (b : Bool) (v : Option Cell) (found : Option (Option Cell))
      → present (if b then some v else found) ≡ (if b then v else present found)
  present_if true v found = refl
  present_if false v found = refl

  cell_of-put :
      (k j : String) (v : Option Cell) (row : Row Cell)
      → cell_of j (put k v row) ≡ (if str_eq k j then v else cell_of j row)
  unfolding cell_of
  cell_of-put k j v row = ap present (get-put k j v row) ∙ present_if (str_eq k j) v (get j row)

  with_flags-cells :
      (row : Row Cell)
      → (cell_of "placa_anterior" (with_flags cells row) ≡ cell_of "placa_anterior" row)
        × (cell_of "flag_item_coletado" (with_flags cells row)
            ≡ some (derive_flags cells (cell_of "placa_anterior" row)).0)
        × (cell_of "flag_item_cadastrado_do_zero" (with_flags cells row)
            ≡ some (derive_flags cells (cell_of "placa_anterior" row)).1)
  unfolding with_flags
  with_flags-cells row =
      let flags = derive_flags cells (cell_of "placa_anterior" row) in
      let first = put "flag_item_coletado" (some flags.0) row in
      let second = cell_of-put "flag_item_cadastrado_do_zero" in
      (
        second "placa_anterior" (some flags.1) first
            ∙ cell_of-put "flag_item_coletado" "placa_anterior" (some flags.0) row,
        second "flag_item_coletado" (some flags.1) first
            ∙ cell_of-put "flag_item_coletado" "flag_item_coletado" (some flags.0) row,
        second "flag_item_cadastrado_do_zero" (some flags.1) first,
      )

  is_one-number : Counts → (b : Bool) → is_one cells (some (cells.number (if b then 1 else 0))) ≡ b
  unfolding is_one
  is_one-number counts true = counts.0
  is_one-number counts false = counts.1

  is_one-number_not :
      Counts → (b : Bool) → is_one cells (some (cells.number (if b then 0 else 1))) ≡ not b
  unfolding is_one
  is_one-number_not counts true = counts.1
  is_one-number_not counts false = counts.0

  check_flags-with_flags : Counts → (row : Row Cell) → check_flags cells (with_flags cells row) ≡ []
  unfolding derive_flags
  check_flags-with_flags counts row =
      let (placa, coletado, zero) = with_flags-cells row in
      let has_placa = has_content cells (cell_of "placa_anterior" row) in
      (check_flags_iff cells (with_flags cells row)).1 (
        ap (is_one cells) coletado
            ∙ is_one-number counts has_placa
            ∙ sym (ap (has_content cells) placa),
        ap (is_one cells) zero
            ∙ is_one-number_not counts has_placa
            ∙ sym (ap (λ c. not (has_content cells c)) placa),
      )

  -- Where 1 equals 1 and 0 does not: the rule on the flags finds nothing in a row that `normalize_row`
  -- has made, whatever the raw row, the mapping of the columns and the normalizer of brands.
  pub check_flags-normalize_row :
      (folding : Folding) (raw_row : Row Cell) (mapping : Option (List (String × String)))
      (normalizer : Option (Row Cell → Row Cell))
      → cells.same (cells.number 1) (cells.number 1) ≡ true
      → cells.same (cells.number 0) (cells.number 1) ≡ false
      → check_flags cells (normalize_row cells folding raw_row mapping normalizer) ≡ []
  unfolding normalize_row
  check_flags-normalize_row folding raw_row mapping normalizer one zero =
      check_flags-with_flags (one, zero) _
