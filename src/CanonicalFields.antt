-- ===== src/CanonicalFields.antt =====
-- app/core/canonical_fields.py: the columns of an uploaded row, found under their names in any case
-- and accents, become the canonical fields, with the two flags that are derived.
use validador_final.Prelude.{
  ℕ, String, Bool, false, not, ◌&&◌, List, [], ◌∷◌, Option, none, some, if◌then◌else◌,
}
use validador_final.Prelude.Dict.{get, put}
use validador_final.Prelude.Text.{truthy, strip, collapse, is_member}
use validador_final.Duplicates.{cell_of}

-- Python's values in a row: equality, integers, `isinstance(value, str)` with the text, `bool`, `str`.
pub record Cells (Cell : Type 0) : Type 0 where
  pub same : Cell → Cell → Bool
  pub number : ℕ → Cell
  pub text_of : Cell → Option String
  pub is_true : Cell → Bool
  pub shown : Cell → String

abbrev pub Row : Type 0 → Type 0
Row Cell = List (String × Option Cell)

abbrev pub default_tenant_columns : List (String × String)
default_tenant_columns =
    ("item", "Item")
    ∷ ("placa_anterior", "Placa Anterior")
    ∷ ("descricao", "Descrição")
    ∷ ("marca", "Marca")
    ∷ ("modelo", "Modelo")
    ∷ ("ns", "NS")
    ∷ ("local", "Local")
    ∷ ("cc", "CC")
    ∷ ("complemento", "Complemento")
    ∷ ("observacao", "Observação")
    ∷ []

abbrev pub keys : {V : Type 0} → List (String × V) → List String
keys [] = []
keys ((k, v) ∷ d) = k ∷ keys d

-- `fold` removes the accents and folds the case, by unicodedata; `remove_bom` is
-- `removeprefix` with the byte order mark.
pub record Folding : Type 0 where
  pub remove_bom : String → String
  pub fold : String → String

module _ (folding : Folding) where
  unfoldable pub normalize_source_column_key : String → String
  normalize_source_column_key value =
      let text = collapse (folding.remove_bom value) in
      if not (truthy text) then "" else folding.fold text

  -- `setdefault`: the first column of a key stays.
  unfoldable pub column_lookup_from : List String → List (String × String) → List (String × String)
  column_lookup_from [] lookup = lookup
  column_lookup_from (column ∷ columns) lookup =
      let key = normalize_source_column_key column in
      column_lookup_from columns
        (elim (get key lookup) [ none ↦ put key column lookup | some old ↦ lookup ])

  unfoldable pub build_source_column_lookup : List String → List (String × String)
  build_source_column_lookup columns = column_lookup_from columns []

  -- With a lookup that is given.
  unfoldable pub resolve_source_column_name :
      String → List String → List (String × String) → Option String
  resolve_source_column_name source_column available_columns lookup =
      if is_member source_column available_columns
      then some source_column
      else get (normalize_source_column_key source_column) lookup

module _ {Cell : Type 0} (cells : Cells Cell) where
  -- `value and str(value).strip()`, as a truth value
  unfoldable pub has_content : Option Cell → Bool
  has_content none = false
  has_content (some c) = cells.is_true c && truthy (strip (cells.shown c))

  unfoldable pub derive_flags : Option Cell → Cell × Cell
  derive_flags placa_anterior =
      let has_placa = has_content placa_anterior in
      (cells.number (if has_placa then 1 else 0), cells.number (if has_placa then 0 else 1))

  -- `None` for a text of white space only.
  unfoldable pub blank_to_none : Option Cell → Option Cell
  blank_to_none none = none
  blank_to_none (some c) = elim (cells.text_of c) [
    | none ↦ some c
    | some text ↦ if truthy (strip text) then some c else none
  ]

  -- `raw_row.get(name) if name else None`
  unfoldable pub value_at : Row Cell → Option String → Option Cell
  value_at raw_row none = none
  value_at raw_row (some name) = if truthy name then cell_of name raw_row else none

  -- `column_mapping.get(attr_name, default)`, or the default without a mapping
  unfoldable pub source_column_of : Option (List (String × String)) → String → String → String
  source_column_of none attr_name default_source_column = default_source_column
  source_column_of (some mapping) attr_name default_source_column = elim (get attr_name mapping) [
    | none ↦ default_source_column
    | some column ↦ column
  ]

  -- The end of `normalize_row`.
  unfoldable pub with_flags : Row Cell → Row Cell
  with_flags normalized =
      let flags = derive_flags (cell_of "placa_anterior" normalized) in
      put "flag_item_cadastrado_do_zero" (some flags.1)
        (put "flag_item_coletado" (some flags.0) normalized)

  module _ (folding : Folding) where
    -- The loop over `DEFAULT_TENANT_COLUMNS`.
    unfoldable pub normalize_fields :
        Row Cell → Option (List (String × String)) → List (String × String) → Row Cell → Row Cell
    normalize_fields raw_row mapping [] normalized = normalized
    normalize_fields raw_row mapping ((attr_name, default_source_column) ∷ columns) normalized =
        let resolved =
          resolve_source_column_name folding
            (source_column_of mapping attr_name default_source_column) (keys raw_row)
            (build_source_column_lookup folding (keys raw_row)) in
        normalize_fields raw_row mapping columns
          (put attr_name (blank_to_none (value_at raw_row resolved)) normalized)

    -- `brand_model_normalizer.normalize_row` is a parameter, or none is given.
    unfoldable pub normalize_row :
        Row Cell → Option (List (String × String)) → Option (Row Cell → Row Cell) → Row Cell
    normalize_row raw_row mapping brand_model_normalizer =
        let normalized = normalize_fields raw_row mapping default_tenant_columns [] in
        with_flags (elim brand_model_normalizer [
          | none ↦ normalized
          | some normalizer ↦ normalizer normalized
        ])
