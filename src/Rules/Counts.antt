-- ===== src/Rules/Counts.antt =====
-- `DuplicateItemRule` and the rows in scope (app/rules/integrity.py, app/core/duplicate_items.py).
use validador_final.Prelude.{
  ℕ, suc, ◌+◌, ◌≡◌, refl, sym, ap, ◌∙◌, true, List, [], ◌∷◌, Option, none, some, if◌then◌else◌, ltb,
  length, filter, get_elem?, arith, Bool-cases, Option-cases, inl, inr, Result, ok, passes_at, elem,
}
use validador_final.Prelude.Exec.{pure, ◌>>=◌}
use validador_final.Json.{is_nonempty}
use validador_final.CanonicalFields.{Cells, Row}
use validador_final.Duplicates.{
  cell_of, count_one, count_loop, count_item_occurrences, run_checkpoint,
  get_duplicate_item_row_indices,
}
use validador_final.Duplicates.Checkpoints.{maybe_run_checkpoint-none}
use validador_final.Duplicates.Groups.{IsEquality, has_item}
use validador_final.Duplicates.Indices.{
  occurs_twice, is_shared, get_duplicate_item_row_indices-shared,
}
use validador_final.Rules.{ValidationIssue}
use validador_final.Rules.Integrity.{
  duplicate_issue, count_of, shared_counts, check_item, check_duplicates,
}

module _ {Cell : Type 0} (cells : Cells Cell) where
  abbrev count_row : Option Cell → List (Cell × ℕ) → List (Cell × ℕ)
  count_row none counts = counts
  count_row (some item) counts = count_one cells.same item counts

  -- The loop without checkpoints.
  count_rows : List (Row Cell) → List (Cell × ℕ) → List (Cell × ℕ)
  count_rows [] counts = counts
  count_rows (row ∷ rows) counts = count_rows rows (count_row (cell_of "item" row) counts)

  count_loop_lem :
      {W E : Type 0} (offset : ℕ) (rows : List (Row Cell)) (counts : List (Cell × ℕ)) (w : W)
      → ◌≡◌ {A = Result E (List (Cell × ℕ)) × W}
          (count_loop cells.same none offset rows counts w)
          (ok (count_rows rows counts), w)
  unfolding count_loop count_rows ◌>>=◌ pure
  count_loop_lem offset [] counts w = refl
  count_loop_lem {W = W} {E = E} offset (row ∷ rows) counts w =
      let step = maybe_run_checkpoint-none {W = W} {E = E} offset w in
      elim (Option-cases (cell_of "item" row)) [
        | inl e ↦ rw (step, e) (count_loop_lem (offset + 1) rows counts w)
        | inr (item, e) ↦ rw (step, e) (count_loop_lem (offset + 1) rows _ w)
      ]

  module _ (eq : IsEquality cells.same) where
    same_comm : (c d : Cell) → cells.same c d ≡ true → cells.same d c ≡ true
    same_comm c d h = sym (eq.congruent c d c h) ∙ eq.reflexive c

    count_of-count_one :
        (v item : Cell) (counts : List (Cell × ℕ))
        → count_of cells v (count_one cells.same item counts)
          ≡ (if cells.same item v then suc (count_of cells v counts) else count_of cells v counts)
    unfolding count_of count_one
    count_of-count_one v item [] = ground arith
    count_of-count_one v item ((c, n) ∷ counts) = ground (
      arith,
      count_of-count_one v item counts,
      eq.congruent c item v,
      eq.congruent c v item,
      eq.congruent item v item,
      eq.congruent item v c,
      eq.reflexive item,
      same_comm v c,
      same_comm c v,
      same_comm c item,
      same_comm item c,
      same_comm v item,
      same_comm item v,
    )

    count_of-count_rows :
        (v : Cell) (rows : List (Row Cell)) (counts : List (Cell × ℕ))
        → count_of cells v (count_rows rows counts)
          ≡ count_of cells v counts + length (filter (has_item cells.same v) rows)
    unfolding count_rows has_item
    count_of-count_rows v [] counts = omega arith
    count_of-count_rows v (row ∷ rows) counts = elim (Option-cases (cell_of "item" row)) [
      | inl e ↦ rw e (count_of-count_rows v rows counts)
      | inr (item, e) ↦
          let old = count_of cells v counts in
          let rest = count_of-count_rows v rows (count_one cells.same item counts) in
          let one = count_of-count_one v item counts in
          elim (Bool-cases (cells.same item v)) [
            | inl s ↦
                let one' = one ∙ ap (λ b. if b then suc old else old) s in rw (e, s) (omega arith)
            | inr s ↦
                let one' = one ∙ ap (λ b. if b then suc old else old) s in rw (e, s) (omega arith)
          ]
    ]

    is_nonempty-duplicate_issue :
        (v : Cell) (n : ℕ) → is_nonempty (duplicate_issue cells v n) ≡ ltb 1 n
    unfolding duplicate_issue
    is_nonempty-duplicate_issue v n = elim (Bool-cases (ltb 1 n)) [
      | inl e ↦ rw e refl
      | inr e ↦ rw e refl
    ]

    -- What the rule finds with no counts in the shared context.
    found_issues : List (Row Cell) → Option Cell → List ValidationIssue
    found_issues all_rows none = []
    found_issues all_rows (some v) =
        duplicate_issue cells v (count_of cells v (count_rows all_rows []))

    noted_counts : List (Row Cell) → Option Cell → Option (List (Cell × ℕ))
    noted_counts all_rows none = none
    noted_counts all_rows (some v) = some (count_rows all_rows [])

    check_item_lem :
        {W E : Type 0} (item : Option Cell) (all_rows : List (Row Cell)) (w : W)
        → ◌≡◌ {A = Result E (List ValidationIssue × Option (List (Cell × ℕ))) × W}
            (check_item cells all_rows none item w)
            (ok (found_issues all_rows item, noted_counts all_rows item), w)
    unfolding check_item found_issues noted_counts shared_counts count_item_occurrences
        run_checkpoint ◌>>=◌ pure
    check_item_lem none all_rows w = refl
    check_item_lem {W = W} {E = E} (some v) all_rows w =
        rw (count_loop_lem {W = W} {E = E} 0 all_rows [] w) refl

    count_of-count_rows_all :
        (v : Cell) (rows : List (Row Cell))
        → count_of cells v (count_rows rows []) ≡ length (filter (has_item cells.same v) rows)
    unfolding count_of
    count_of-count_rows_all v rows = let h = count_of-count_rows v rows [] in omega arith

    is_nonempty-found_issues :
        (all_rows : List (Row Cell)) (item : Option Cell)
        → is_nonempty (found_issues all_rows item)
          ≡ passes_at (occurs_twice cells.same all_rows) item
    unfolding found_issues
    is_nonempty-found_issues all_rows none = refl
    is_nonempty-found_issues all_rows (some v) =
        is_nonempty-duplicate_issue v (count_of cells v (count_rows all_rows []))
        ∙ ap (ltb 1) (count_of-count_rows_all v all_rows)

    -- Where the search is given no checkpoint and the equality of cells is an equivalence: the
    -- rule on duplicates, run on a row before the items have been counted, and the search for the
    -- rows in scope both return, and the rule finds an issue exactly if the index of the row is
    -- in scope.
    pub check_duplicates-scope :
        {W E : Type 0} (row : Row Cell) (all_rows : List (Row Cell)) (i : ℕ) (w : W)
        → get_elem? all_rows i ≡ some row
        → (issues : List ValidationIssue) × (counts : Option (List (Cell × ℕ))) × (is : List ℕ)
          × (◌≡◌ {A = Result E (List ValidationIssue × Option (List (Cell × ℕ))) × W}
              (check_duplicates cells row all_rows none w)
              (ok (issues, counts), w))
          × (◌≡◌ {A = Result E (List ℕ) × W}
              (get_duplicate_item_row_indices cells.same none all_rows w)
              (ok is, w))
          × (is_nonempty issues ≡ elem i is)
    unfolding is_shared check_duplicates
    check_duplicates-scope row all_rows i w at =
        let (is, search, sorted, shared) =
          get_duplicate_item_row_indices-shared cells.same eq all_rows w in
        (
          _,
          _,
          is,
          check_item_lem (cell_of "item" row) all_rows w,
          search,
          is_nonempty-found_issues all_rows (cell_of "item" row)
              ∙ sym (
                  shared i
                  ∙ ap
                      (passes_at
                        (λ r. passes_at (occurs_twice cells.same all_rows) (cell_of "item" r)))
                      at),
        )
