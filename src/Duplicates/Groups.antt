-- ===== src/Duplicates/Groups.antt =====
-- The groups that the loop of app/core/duplicate_items.py builds.
use validador_final.Prelude.{
  ℕ, ◌+◌, String, ◌≡◌, refl, sym, ap, ◌∙◌, Bool, true, false, ◌&&◌, List, [], ◌∷◌, ◌++◌, Option,
  none, some, if◌then◌else◌, ltb, length, arith, All, All-map, All-both, Bool-cases, inl, inr, any,
  any-append, elem, indices_from, ◌==◌, passes_at,
}
use mathlib.Core.List.{append-nil, append_assoc}
use validador_final.Duplicates.{cell_of, append_index, large_groups, index_set, concat}

-- Python's equality of cells, as the dict relies on it.
pub record IsEquality {Cell : Type 0} (same : Cell → Cell → Bool) : Type 0 where
  pub reflexive : (c : Cell) → same c c ≡ true
  pub congruent : (c d x : Cell) → same c d ≡ true → same c x ≡ same d x

-- The index is in a group of more than one.
abbrev pub in_large : {Cell : Type 0} → ℕ → Cell × List ℕ → Bool
in_large i e = ltb 1 (length e.1) && elem i e.1

pub elem-concat-large_groups :
    {Cell : Type 0} (i : ℕ) (groups : List (Cell × List ℕ))
    → elem i (concat (large_groups groups)) ≡ any (in_large i) groups
unfolding large_groups concat
elem-concat-large_groups i [] = refl
elem-concat-large_groups i ((c, is) ∷ groups) =
    let rest = concat (large_groups groups) in
    ground (arith, elem-concat-large_groups i groups, any-append (λ j. i == j) is rest)

pub elem-index_set : (i : ℕ) (is : List ℕ) → elem i (index_set is) ≡ elem i is
unfolding index_set
elem-index_set i [] = refl
elem-index_set i (j ∷ is) = ground (arith, elem-index_set i is, elem-index_set j is)

module _ {Cell : Type 0} (same : Cell → Cell → Bool) where
  -- The row has an item that equals the cell.
  unfoldable pub has_item : Cell → List (String × Option Cell) → Bool
  has_item v row = passes_at (λ c. same c v) (cell_of "item" row)

  unfoldable pub add_item : ℕ → List (Cell × List ℕ) → Option Cell → List (Cell × List ℕ)
  add_item offset groups none = groups
  add_item offset groups (some item) = append_index same item offset groups

  -- The loop without checkpoints.
  unfoldable pub group_rows :
      ℕ → List (List (String × Option Cell)) → List (Cell × List ℕ) → List (Cell × List ℕ)
  group_rows offset [] groups = groups
  group_rows offset (row ∷ rows) groups =
      group_rows (offset + 1) rows (add_item offset groups (cell_of "item" row))

  -- The indices of the first group whose cell equals the given one.
  unfoldable pub lookup : Cell → List (Cell × List ℕ) → List ℕ
  lookup v [] = []
  lookup v ((c, is) ∷ groups) = if same c v then is else lookup v groups

  abbrev pub IsDistinct : List (Cell × List ℕ) → Type 0
  IsDistinct [] = Unit
  IsDistinct ((c, is) ∷ groups) = All (λ e. same c e.0 ≡ false) groups × IsDistinct groups

  module _ (eq : IsEquality same) where
    same_comm : (c d : Cell) → same c d ≡ true → same d c ≡ true
    same_comm c d h = sym (eq.congruent c d c h) ∙ eq.reflexive c

    pub lookup-append_index :
        (v item : Cell) (idx : ℕ) (groups : List (Cell × List ℕ))
        → lookup v (append_index same item idx groups)
          ≡ (if same item v then lookup v groups ++ (idx ∷ []) else lookup v groups)
    unfolding lookup append_index
    lookup-append_index v item idx [] = refl
    lookup-append_index v item idx ((c, is) ∷ groups) = ground (
      arith,
      lookup-append_index v item idx groups,
      eq.congruent c item v,
      eq.congruent c v item,
      eq.congruent item v item,
      eq.congruent item v c,
      eq.reflexive item,
      same_comm v c,
      same_comm c v,
      same_comm c item,
      same_comm item c,
      same_comm v item,
      same_comm item v,
    )

    lookup-add_item :
        (v : Cell) (offset : ℕ) (groups : List (Cell × List ℕ)) (o : Option Cell)
        → lookup v (add_item offset groups o)
          ≡ lookup v groups ++ (if passes_at (λ c. same c v) o then offset ∷ [] else [])
    unfolding add_item
    lookup-add_item v offset groups none = sym (append-nil (lookup v groups))
    lookup-add_item v offset groups (some item) = elim (Bool-cases (same item v)) [
      | inl s ↦ rw (lookup-append_index v item offset groups, s) refl
      | inr s ↦
          rw (lookup-append_index v item offset groups, s) (sym (append-nil (lookup v groups)))
    ]

    -- After the loop, the group of a cell holds the indices of the rows with an equal item.
    pub lookup-group_rows :
        (v : Cell) (offset : ℕ) (rows : List (List (String × Option Cell)))
        (groups : List (Cell × List ℕ))
        → lookup v (group_rows offset rows groups)
          ≡ lookup v groups ++ indices_from (has_item v) offset rows
    unfolding group_rows indices_from has_item
    lookup-group_rows v offset [] groups = sym (append-nil (lookup v groups))
    lookup-group_rows v offset (row ∷ rows) groups =
        let item = cell_of "item" row in
        let here = if passes_at (λ c. same c v) item then offset ∷ [] else [] in
        let rest = indices_from (has_item v) (offset + 1) rows in
        lookup-group_rows v (offset + 1) rows (add_item offset groups item)
        ∙ ap (λ xs. xs ++ rest) (lookup-add_item v offset groups item)
        ∙ append_assoc (lookup v groups) here rest
        ∙ elim (Bool-cases (passes_at (λ c. same c v) item)) [
          | inl s ↦ rw s refl
          | inr s ↦ rw s refl
        ]

    append_index-All :
        (P : Cell → Type 0) (item : Cell) (idx : ℕ) (groups : List (Cell × List ℕ))
        → P item
        → All (λ e. P e.0) groups
        → All (λ e. P e.0) (append_index same item idx groups)
    unfolding append_index
    append_index-All P item idx [] p h = (p, tt)
    append_index-All P item idx ((c, is) ∷ groups) p h = elim (Bool-cases (same c item)) [
      | inl s ↦ rw s h
      | inr s ↦ rw s (h.0, append_index-All P item idx groups p h.1)
    ]

    append_index-IsDistinct :
        (item : Cell) (idx : ℕ) (groups : List (Cell × List ℕ))
        → IsDistinct groups
        → IsDistinct (append_index same item idx groups)
    unfolding append_index
    append_index-IsDistinct item idx [] d = (tt, tt)
    append_index-IsDistinct item idx ((c, is) ∷ groups) d = elim (Bool-cases (same c item)) [
      | inl s ↦ rw s d
      | inr s ↦ rw s (
        append_index-All (λ x. same c x ≡ false) item idx groups s d.0,
        append_index-IsDistinct item idx groups d.1,
      )
    ]

    add_item-IsDistinct :
        (offset : ℕ) (groups : List (Cell × List ℕ)) (o : Option Cell)
        → IsDistinct groups
        → IsDistinct (add_item offset groups o)
    unfolding add_item
    add_item-IsDistinct offset groups none d = d
    add_item-IsDistinct offset groups (some item) d = append_index-IsDistinct item offset groups d

    -- No two groups of the loop have equal cells.
    pub group_rows-IsDistinct :
        (offset : ℕ) (rows : List (List (String × Option Cell))) (groups : List (Cell × List ℕ))
        → IsDistinct groups
        → IsDistinct (group_rows offset rows groups)
    unfolding group_rows
    group_rows-IsDistinct offset [] groups d = d
    group_rows-IsDistinct offset (row ∷ rows) groups d =
        group_rows-IsDistinct (offset + 1) rows _
          (add_item-IsDistinct offset groups (cell_of "item" row) d)

    -- Each group is the one that its cell finds.
    pub lookup_self :
        (groups : List (Cell × List ℕ))
        → IsDistinct groups
        → All (λ e. lookup e.0 groups ≡ e.1) groups
    unfolding lookup
    lookup_self [] d = tt
    lookup_self ((c, is) ∷ groups) d = (
      rw (eq.reflexive c) refl,
      All-map _ _ groups (λ e h. rw h.0 h.1)
          (All-both (λ e. same c e.0 ≡ false) (λ e. lookup e.0 groups ≡ e.1) groups d.0
            (lookup_self groups d.1)),
    )

    pub lookup_same :
        (c d : Cell) (groups : List (Cell × List ℕ))
        → same c d ≡ true
        → lookup c groups ≡ lookup d groups
    unfolding lookup
    lookup_same c d [] h = refl
    lookup_same c d ((x, is) ∷ groups) h =
        let agree : same x c ≡ same x d = ground (
          arith,
          eq.congruent x c d,
          eq.congruent x d c,
          eq.congruent c d x,
          eq.congruent c x d,
          eq.congruent d x c,
          same_comm c d h,
          same_comm x c,
          same_comm x d,
          same_comm c x,
          same_comm d x,
        ) in
        rw (agree, lookup_same c d groups h) refl

    -- A group of more than one index that the cell finds is among the large groups.
    pub in_large_of_lookup :
        (i : ℕ) (v : Cell) (groups : List (Cell × List ℕ))
        → ltb 1 (length (lookup v groups)) ≡ true
        → elem i (lookup v groups) ≡ true
        → any (in_large i) groups ≡ true
    unfolding lookup
    in_large_of_lookup i v [] h m = cc
    in_large_of_lookup i v ((c, is) ∷ groups) h m = elim (Bool-cases (same c v)) [
      | inl s ↦ let h' = rw s at h in let m' = rw s at m in rw (h', m') refl
      | inr s ↦
          let rest = in_large_of_lookup i v groups (rw s at h) (rw s at m) in ground (arith, rest)
    ]
