-- ===== src/Tenants/Admin/Checks.antt =====
-- The checks of app/services/tenant_admin_service.py on identifiers, aliases and display names.
use validador_final.Prelude.{
  ℕ, String, Bool, true, false, not, ◌&&◌, ◌||◌, List, [], ◌∷◌, ◌++◌, Option, none, some,
  if◌then◌else◌, str_eq, ltb, leb, ◌==◌, filter, head?, Result, ok, err, ◌>>=◌,
}
use validador_final.Prelude.Sorting.{sort_by}
use validador_final.Prelude.Text.{strip, collapse, truthy, text_length, is_member, text_leb}
use Prim.Native.Char.{code}
use Prim.Native.String
use validador_final.Tenants.Config.{TenantConfig}
use validador_final.Tenants.{LoadError, multiple_match}

-- `TenantAdminServiceError`, or an error of the loader that no method catches.
pub data AdminError : Type 0 where
  admin_error : ℕ → String → AdminError
  load_error : LoadError → AdminError

-- `ValueError` of the loader
abbrev pub value_error : AdminError
value_error = load_error multiple_match

-- Python's tables of characters: `str.casefold`, and whether all characters are printable.
pub record TextFacts : Type 0 where
  pub casefold : String → String
  pub isprintable : String → Bool

abbrev pub of_load {ℓ} : {A : Type ℓ} → Result LoadError A → Result AdminError A
of_load (ok a) = ok a
of_load (err e) = err (load_error e)

-- `[a-z0-9]`
unfoldable pub is_edge : ℕ → Bool
is_edge c = (leb 97 c && leb c 122) || (leb 48 c && leb c 57)

-- `[a-z0-9._-]`
unfoldable pub is_inner : ℕ → Bool
unfolding is_edge
is_inner c = is_edge c || c == 46 || c == 95 || c == 45

-- `[a-z0-9._-]*[a-z0-9]`
unfoldable pub ends_well : String → Bool
unfolding is_inner is_edge
ends_well String.[] = false
ends_well (String.◌∷◌ c String.[]) = is_edge (code c)
ends_well (String.◌∷◌ c (String.◌∷◌ d s)) = is_inner (code c) && ends_well (String.◌∷◌ d s)

unfoldable pub starts_well : String → Bool
unfolding is_edge ends_well
starts_well String.[] = false
starts_well (String.◌∷◌ c s) = is_edge (code c) && ends_well s

-- `TENANT_IDENTIFIER_PATTERN.fullmatch(value)`
unfoldable pub is_identifier : String → Bool
unfolding starts_well text_length
is_identifier s = starts_well s && leb 3 (text_length s) && leb (text_length s) 64

unfoldable pub validate_identifier : String → String → Result AdminError String
validate_identifier field_name value =
    if not (is_identifier (strip value))
    then err (
        admin_error 422 (
          String.◌++◌ field_name
            " must use lowercase letters, numbers, dot, underscore, or hyphen"))
    else ok (strip value)

-- The loop over the aliases, with those seen, in order.
unfoldable pub validate_aliases :
    String → List String → List String → Result AdminError (List String)
unfolding validate_identifier
validate_aliases tenant_id seen [] = ok seen
validate_aliases tenant_id seen (alias ∷ aliases) =
    let rest =
      λ (normalized : String). validate_aliases tenant_id (seen ++ normalized ∷ []) aliases in
    do
      normalized ← validate_identifier "alias" alias
      if str_eq normalized tenant_id
          then err (admin_error 422 "Tenant alias cannot equal tenant_id")
          else if is_member normalized seen
          then err (admin_error 422 "Tenant aliases must be unique")
          else rest normalized

unfoldable pub validate_display_name : TextFacts → String → Result AdminError String
unfolding collapse text_length
validate_display_name texts value =
    let normalized = collapse value in
    if not (truthy normalized)
    then err (admin_error 422 "display_name is required")
    else if ltb 120 (text_length normalized)
    then err (admin_error 422 "display_name is too long")
    else if not (texts.isprintable normalized)
    then err (admin_error 422 "display_name contains invalid characters")
    else ok normalized

-- `config.tenant_id == existing_tenant_id`
abbrev pub is_existing : Option String → String → Bool
is_existing none tenant_id = false
is_existing (some existing) tenant_id = str_eq tenant_id existing

-- The identifiers claimed that the tenant has, in ascending order.
unfoldable pub common : List String → TenantConfig → List String
unfolding sort_by text_leb
common claimed config =
    sort_by text_leb (filter (λ t. is_member t (config.tenant_id ∷ config.aliases)) claimed)

-- The turn of the loop for one tenant, with the first identifier that collides, and the rest.
unfoldable pub collide :
    Option String → Bool → Result AdminError (Unit {0}) → Result AdminError (Unit {0})
collide (some value) same_name rest =
    err (admin_error 409 (String.◌++◌ "Tenant identifier or alias already exists: " value))
collide none true rest = err (admin_error 409 "Tenant display name already exists")
collide none false rest = rest

-- The loop of `_validate_no_collisions` over the tenants.
unfoldable pub collision_with :
    TextFacts
    → String
    → String
    → List String
    → Option String
    → List TenantConfig
    → Result AdminError (Unit {0})
unfolding common collide
collision_with texts tenant_id display_name aliases existing [] = ok tt
collision_with texts tenant_id display_name aliases existing (config ∷ configs) =
    let rest = collision_with texts tenant_id display_name aliases existing configs in
    if is_existing existing config.tenant_id
    then rest
    else collide (head? (common (tenant_id ∷ aliases) config))
        (str_eq (texts.casefold config.display_name) (texts.casefold display_name)) rest
