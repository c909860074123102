-- ===== src/Duplicates.antt =====
-- app/core/duplicate_items.py, with `row_indices` left at its default: the rows that share an item.
-- A cell is a value of the row; `same` is Python's equality of two cells.
pub mod Checkpoints
pub mod Groups
pub mod Indices
use validador_final.Prelude.{
  ℕ, suc, ◌+◌, String, Bool, List, [], ◌∷◌, ◌++◌, Option, none, some, if◌then◌else◌, ltb, leb, ◌==◌,
  ◌%◌, length, any,
}
use validador_final.Prelude.Dict.{get}
use validador_final.Prelude.Sorting.{sort_by}
use validador_final.Prelude.Exec.{Exec, pure, ◌>>=◌, ◌>>◌}

abbrev pub Checkpoint : Type 0 → Type 0 → Type 0
Checkpoint W E = Option (Exec W E (Unit {0}))

-- `if checkpoint is not None: checkpoint()`
unfoldable pub run_checkpoint : {W E : Type 0} → Checkpoint W E → Exec W E (Unit {0})
run_checkpoint none = pure tt
run_checkpoint (some checkpoint) = checkpoint

unfoldable pub maybe_run_checkpoint : {W E : Type 0} → Checkpoint W E → ℕ → Exec W E (Unit {0})
unfolding run_checkpoint
maybe_run_checkpoint checkpoint offset =
    if offset % 1000 == 0 then run_checkpoint checkpoint else pure tt

-- `row.get(field)`, where the dict may hold a `None`.
unfoldable pub cell_of : {Cell : Type 0} → String → List (String × Option Cell) → Option Cell
cell_of field row = elim (get field row) [ none ↦ none | some cell ↦ cell ]

-- The groups of more than one index.
unfoldable pub large_groups : {Cell : Type 0} → List (Cell × List ℕ) → List (List ℕ)
large_groups [] = []
large_groups ((c, is) ∷ groups) =
    let rest = large_groups groups in if ltb 1 (length is) then is ∷ rest else rest

module _ {Cell : Type 0} (same : Cell → Cell → Bool) where
  -- `counts[item] += 1` of a `Counter`
  unfoldable pub count_one : Cell → List (Cell × ℕ) → List (Cell × ℕ)
  count_one item [] = (item, 1) ∷ []
  count_one item ((c, n) ∷ counts) =
      let rest = count_one item counts in if same c item then (c, suc n) ∷ counts else (c, n) ∷ rest

  -- `item_rows[item].append(idx)` of a `defaultdict(list)`
  unfoldable pub append_index : Cell → ℕ → List (Cell × List ℕ) → List (Cell × List ℕ)
  append_index item idx [] = (item, idx ∷ []) ∷ []
  append_index item idx ((c, is) ∷ groups) =
      let rest = append_index item idx groups in
      if same c item then (c, is ++ (idx ∷ [])) ∷ groups else (c, is) ∷ rest

  module _ {W E : Type 0} (checkpoint : Checkpoint W E) where
    -- The loop over the rows from the offset, which is also the index.
    unfoldable pub count_loop :
        ℕ → List (List (String × Option Cell)) → List (Cell × ℕ) → Exec W E (List (Cell × ℕ))
    count_loop offset [] counts = pure counts
    count_loop offset (row ∷ rows) counts = do
      maybe_run_checkpoint checkpoint offset
      elim (cell_of "item" row) [
        | none ↦ count_loop (offset + 1) rows counts
        | some item ↦ count_loop (offset + 1) rows (count_one item counts)
      ]

    unfoldable pub count_item_occurrences :
        List (List (String × Option Cell)) → Exec W E (List (Cell × ℕ))
    count_item_occurrences rows = do
      counts ← count_loop 0 rows []
      run_checkpoint checkpoint
      pure counts

    unfoldable pub group_loop :
        ℕ
        → List (List (String × Option Cell))
        → List (Cell × List ℕ)
        → Exec W E (List (Cell × List ℕ))
    group_loop offset [] groups = pure groups
    group_loop offset (row ∷ rows) groups = do
      maybe_run_checkpoint checkpoint offset
      elim (cell_of "item" row) [
        | none ↦ group_loop (offset + 1) rows groups
        | some item ↦ group_loop (offset + 1) rows (append_index item offset groups)
      ]

  module _ {W E : Type 0} (checkpoint : Checkpoint W E) where
    unfoldable pub group_duplicate_item_row_indices :
        List (List (String × Option Cell)) → Exec W E (List (List ℕ))
    group_duplicate_item_row_indices rows = do
      item_rows ← group_loop checkpoint 0 rows []
      run_checkpoint checkpoint
      pure (large_groups item_rows)

-- The indices of the groups as a set: each of them once.
unfoldable pub index_set : List ℕ → List ℕ
index_set [] = []
index_set (i ∷ is) = let rest = index_set is in if any (λ j. i == j) rest then rest else i ∷ rest

unfoldable pub concat : List (List ℕ) → List ℕ
concat [] = []
concat (xs ∷ xss) = xs ++ concat xss

module _ {Cell : Type 0} (same : Cell → Cell → Bool) {W E : Type 0}
    (checkpoint : Checkpoint W E) where
  unfoldable pub get_duplicate_item_row_indices :
      List (List (String × Option Cell)) → Exec W E (List ℕ)
  unfolding sort_by
  get_duplicate_item_row_indices rows = do
    groups ← group_duplicate_item_row_indices same checkpoint rows
    run_checkpoint checkpoint
    pure (sort_by leb (index_set (concat groups)))
