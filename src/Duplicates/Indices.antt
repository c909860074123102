-- ===== src/Duplicates/Indices.antt =====
-- The indices that `get_duplicate_item_row_indices` finds (app/core/duplicate_items.py).
use validador_final.Prelude.{
  ℕ, ◌+◌, String, ◌≡◌, refl, sym, ap, ◌∙◌, Bool, true, false, List, [], ◌∷◌, Option, none, ltb, leb,
  length, arith, All-map, inl, inr, any, any-elim, elem, indices_from, elem-indices_from,
  length-indices_from, get_elem?, Result, ok, ◌==◌, passes_at, filter, Option-cases,
}
use validador_final.Prelude.Sorting.{sort_by, IsSorted, sort_by-IsSorted, any-sort_by}
use validador_final.Prelude.Exec.{pure, ◌>>=◌}
use validador_final.Duplicates.{
  cell_of, large_groups, index_set, concat, group_loop, run_checkpoint,
  group_duplicate_item_row_indices, get_duplicate_item_row_indices,
}
use validador_final.Duplicates.Checkpoints.{maybe_run_checkpoint-none}
use validador_final.Duplicates.Groups.{
  IsEquality, in_large, elem-concat-large_groups, elem-index_set, has_item, group_rows, lookup,
  lookup-group_rows, group_rows-IsDistinct, lookup_self, lookup_same, in_large_of_lookup, add_item,
}

module _ {Cell : Type 0} (same : Cell → Cell → Bool) where
  -- More than one row has an item equal to the cell.
  abbrev pub occurs_twice : List (List (String × Option Cell)) → Cell → Bool
  occurs_twice rows v = ltb 1 (length (filter (has_item same v) rows))

  -- There is a row at the index, it has an item, and another row has an equal one.
  unfoldable pub is_shared : List (List (String × Option Cell)) → ℕ → Bool
  is_shared rows i =
      passes_at (λ row. passes_at (occurs_twice rows) (cell_of "item" row)) (get_elem? rows i)

  group_loop_lem :
      {W E : Type 0} (offset : ℕ) (rows : List (List (String × Option Cell)))
      (groups : List (Cell × List ℕ)) (w : W)
      → ◌≡◌ {A = Result E (List (Cell × List ℕ)) × W}
          (group_loop same none offset rows groups w)
          (ok (group_rows same offset rows groups), w)
  unfolding group_loop group_rows add_item ◌>>=◌ pure
  group_loop_lem offset [] groups w = refl
  group_loop_lem {W = W} {E = E} offset (row ∷ rows) groups w =
      let step = maybe_run_checkpoint-none {W = W} {E = E} offset w in
      elim (Option-cases (cell_of "item" row)) [
        | inl e ↦ rw (step, e) (group_loop_lem (offset + 1) rows groups w)
        | inr (item, e) ↦ rw (step, e) (group_loop_lem (offset + 1) rows _ w)
      ]

  module _ (eq : IsEquality same) (rows : List (List (String × Option Cell))) where
    abbrev groups : List (Cell × List ℕ)
    groups = group_rows same 0 rows []

    lookup-groups : (v : Cell) → lookup same v groups ≡ indices_from (has_item same v) 0 rows
    unfolding lookup
    lookup-groups v = lookup-group_rows same eq v 0 rows []

    length-groups :
        (v : Cell) → length (lookup same v groups) ≡ length (filter (has_item same v) rows)
    length-groups v = ap length (lookup-groups v) ∙ length-indices_from (has_item same v) 0 rows

    elem-lookup :
        (i : ℕ) (v : Cell)
        → elem i (lookup same v groups) ≡ passes_at (has_item same v) (get_elem? rows i)
    elem-lookup i v =
        ap (elem i) (lookup-groups v)
        ∙ ap (λ j. elem j (indices_from (has_item same v) 0 rows)) (omega arith)
        ∙ elem-indices_from (has_item same v) i 0 rows

    large_of_shared : (i : ℕ) → is_shared rows i ≡ true → any (in_large i) groups ≡ true
    unfolding is_shared has_item
    large_of_shared i h = elim (Option-cases (get_elem? rows i)) [
      | inl e ↦ let h' = rw e at h in cc
      | inr (row, e) ↦ elim (Option-cases (cell_of "item" row)) [
        | inl f ↦ let h' = rw (e, f) at h in cc
        | inr (v, f) ↦
            let twice = rw (e, f) at h in
            let found : elem i (lookup same v groups) ≡ true =
              elem-lookup i v ∙ rw (e, f) (eq.reflexive v) in
            in_large_of_lookup same eq i v groups (rw (length-groups v) twice) found
      ]
    ]

    shared_of_group :
        (i : ℕ) (e : Cell × List ℕ)
        → lookup same e.0 groups ≡ e.1
        → in_large i e ≡ true
        → is_shared rows i ≡ true
    unfolding is_shared has_item
    shared_of_group i (c, is) same_group h =
        let found : passes_at (has_item same c) (get_elem? rows i) ≡ true =
          sym (elem-lookup i c) ∙ rw same_group (ground arith) in
        let long : ltb 1 (length is) ≡ true = ground arith in
        elim (Option-cases (get_elem? rows i)) [
          | inl e ↦ let f' = rw e at found in cc
          | inr (row, e) ↦ elim (Option-cases (cell_of "item" row)) [
            | inl f ↦ let f' = rw (e, f) at found in cc
            | inr (v, f) ↦
                let s = rw (e, f) at found in
                rw (e, f)
                  (rw (← length-groups v, lookup_same same eq v c groups s, same_group) long)
          ]
        ]

    shared_of_large : (i : ℕ) → any (in_large i) groups ≡ true → is_shared rows i ≡ true
    shared_of_large i h =
        any-elim (in_large i) groups
          (All-map _ _ groups (λ e. shared_of_group i e)
            (lookup_self same eq groups (group_rows-IsDistinct same eq 0 rows [] tt)))
          h

    abbrev found_indices : List ℕ
    found_indices = sort_by leb (index_set (concat (large_groups groups)))

    elem-found_indices : (i : ℕ) → elem i found_indices ≡ is_shared rows i
    elem-found_indices i =
        any-sort_by leb (λ j. i == j) (index_set (concat (large_groups groups)))
        ∙ elem-index_set i (concat (large_groups groups))
        ∙ elem-concat-large_groups i groups
        ∙ both (any (in_large i) groups) (is_shared rows i) (shared_of_large i) (large_of_shared i)
      where
        both : (a b : Bool) → (a ≡ true → b ≡ true) → (b ≡ true → a ≡ true) → a ≡ b
        both true b f g = sym (f refl)
        both false true f g = g refl
        both false false f g = refl

    -- Where no checkpoint is given and the equality of cells is an equivalence, the search
    -- returns, leaves the world as it was, and gives in ascending order exactly the indices of
    -- the rows whose item another row has too.
    pub get_duplicate_item_row_indices-shared :
        {W E : Type 0} (w : W)
        → (is : List ℕ) × (◌≡◌ {A = Result E (List ℕ) × W}
            (get_duplicate_item_row_indices same none rows w)
            (ok is, w))
          × IsSorted leb is
          × ((i : ℕ) → elem i is ≡ is_shared rows i)
    unfolding get_duplicate_item_row_indices group_duplicate_item_row_indices ◌>>=◌ pure
        run_checkpoint
    get_duplicate_item_row_indices-shared w = (
      found_indices,
      rw (group_loop_lem 0 rows [] w) refl,
      sort_by-IsSorted leb (λ x y z h k. ground arith) (λ x y h. ground arith)
          (index_set (concat (large_groups groups))),
      elem-found_indices,
    )
