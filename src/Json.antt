-- ===== src/Json.antt =====
-- The values of Python's `dict[str, Any]` payloads (app/core/job.py), with `bool(value)`.
use validador_final.Prelude.{
  ℕ, zero, suc, String, Bool, true, false, List, [], ◌∷◌, Option, none, some, if◌then◌else◌, str_eq,
}
use validador_final.Prelude.Text.{truthy}

mutual
  pub data Value : Type 0 where
    null : Value
    bool : Bool → Value
    number : ℕ → Value
    negative : ℕ → Value
    text : String → Value
    array : Items → Value
    object : Fields → Value

  pub data Items : Type 0 where
    nil : Items
    cons : Value → Items → Items

  pub data Fields : Type 0 where
    end : Fields
    field : String → Value → Fields → Fields

-- `bool(value)`; `negative n` is the integer -(n + 1).
unfoldable pub is_true : Value → Bool
is_true null = false
is_true (bool b) = b
is_true (number zero) = false
is_true (number (suc n)) = true
is_true (negative n) = true
is_true (text s) = truthy s
is_true (array nil) = false
is_true (array (cons v vs)) = true
is_true (object end) = false
is_true (object (field k v fs)) = true

-- `payload.get(key)` of a payload in insertion order.
unfoldable pub get {ℓ} : {V : Type ℓ} → String → List (String × V) → Option V
get k [] = none
get k ((j, v) ∷ m) = if str_eq j k then some v else get k m

-- `bool(items)` of a list or a dict
abbrev pub is_nonempty {ℓ} : {A : Type ℓ} → List A → Bool
is_nonempty [] = false
is_nonempty (x ∷ xs) = true
