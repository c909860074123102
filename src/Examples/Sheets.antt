-- ===== src/Examples/Sheets.antt =====
-- Rows of a sheet, made canonical and checked.
use validador_final.Prelude.{
  ℕ, String, ◌≡◌, refl, ap, Bool, true, false, List, [], ◌∷◌, Option, none, some, Result, ok, ◌==◌,
  elem, str_eq, str_eq_iff, str_eq_refl, arith, not, if◌then◌else◌,
}
use validador_final.Prelude.Text.{truthy}
use validador_final.Json.{is_nonempty}
use validador_final.Duplicates.{get_duplicate_item_row_indices}
use validador_final.Duplicates.Groups.{IsEquality}
use validador_final.CanonicalFields.{Cells, Row, Folding, normalize_row}
use validador_final.Rules.{ValidationIssue}
use validador_final.Rules.Integrity.{check_flags, check_duplicates}
use validador_final.Rules.Flags.{check_flags-normalize_row}
use validador_final.Rules.Counts.{check_duplicates-scope}

data Cell : Type 0 where
  number : ℕ → Cell
  text : String → Cell

abbrev same_cell : Cell → Cell → Bool
same_cell (number a) (number b) = a == b
same_cell (text s) (text t) = str_eq s t
same_cell (number a) (text t) = false
same_cell (text s) (number b) = false

same_cell-IsEquality : IsEquality same_cell
same_cell-IsEquality = record { reflexive = reflexive; congruent = congruent }
  where
    reflexive : (c : Cell) → same_cell c c ≡ true
    reflexive (number n) = ground arith
    reflexive (text s) = str_eq_refl s

    congruent : (c d x : Cell) → same_cell c d ≡ true → same_cell c x ≡ same_cell d x
    congruent (number a) (number b) (number c) h = ground arith
    congruent (number a) (number b) (text t) h = refl
    congruent (text s) (text t) (text u) h = ap (λ y. str_eq y u) ((str_eq_iff s t).0 h)
    congruent (text s) (text t) (number c) h = refl
    congruent (number a) (text t) x h = cc
    congruent (text s) (number b) x h = cc

abbrev text_of_cell : Cell → Option String
text_of_cell (number n) = none
text_of_cell (text s) = some s

abbrev is_true_cell : Cell → Bool
is_true_cell (number n) = not (n == 0)
is_true_cell (text s) = truthy s

abbrev shown_cell : Cell → String
shown_cell (number n) = if n == 0 then "0" else "1"
shown_cell (text s) = s

abbrev sheet : Cells Cell
sheet = record {
  same = same_cell;
  number = number;
  text_of = text_of_cell;
  is_true = is_true_cell;
  shown = shown_cell;
}

abbrev raw_row : Row Cell
raw_row = ("Item", some (text "17")) ∷ ("Placa Anterior", some (text " ")) ∷ []

abbrev plain : Folding
plain = record { remove_bom = λ s. s; fold = λ s. s }

check_flags-normalize_row_example :
    check_flags sheet (normalize_row sheet plain raw_row (some (("item", "Item") ∷ [])) none) ≡ []
check_flags-normalize_row_example =
    check_flags-normalize_row sheet plain raw_row (some (("item", "Item") ∷ [])) none refl refl

abbrev tagged : String → Row Cell
tagged tag = ("item", some (text tag)) ∷ []

abbrev sheet_rows : List (Row Cell)
sheet_rows = tagged "17" ∷ tagged "18" ∷ tagged "17" ∷ []

check_duplicates-scope_example :
    (issues : List ValidationIssue) × (counts : Option (List (Cell × ℕ))) × (is : List ℕ) × (◌≡◌
      {A = Result Bool (List ValidationIssue × Option (List (Cell × ℕ))) × Bool}
      (check_duplicates sheet (tagged "17") sheet_rows none true)
      (ok (issues, counts), true))
    × (◌≡◌ {A = Result Bool (List ℕ) × Bool}
        (get_duplicate_item_row_indices same_cell none sheet_rows true)
        (ok is, true))
    × (is_nonempty issues ≡ elem 2 is)
check_duplicates-scope_example =
    check_duplicates-scope sheet same_cell-IsEquality (tagged "17") sheet_rows 2 true refl
