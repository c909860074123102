-- ===== src/Prelude/Text.antt =====
-- Python's `str.strip`, `str.split` and truthiness of a text, over its code points.
use Prim.Native.Nat.{ℕ, suc}
use Prim.Native.Char.{Char, code}
use Prim.Native.String
use Prim.Native.String.{String}
use mathlib.Core.Bool.{Bool, true, false, not, ◌&&◌, ◌||◌}
use mathlib.Core.List.{List, [], ◌∷◌}
use text.Mathlib.Text.{◌==◌ as str_eq}
use validador_final.Prelude.Lists.{any}
use validador_final.Prelude.Sorting.{sort_by, any-sort_by}
use text.Mathlib.TextEquality.{eq_iff as str_eq_iff}
use mathlib.Core.Path.{◌≡◌, refl, ap, ◌∙◌}
use mathlib.Core.Logic.{◌⊎◌, inl, inr}
use native.Mathlib.Omega.{arith}
use validador_final.Prelude.Tests.{Bool-cases, leb, ltb, ◌==◌, if◌then◌else◌}

-- The code points that `str.isspace` accepts.
unfoldable pub is_space : ℕ → Bool
is_space c =
    (leb 9 c && leb c 13)
    || (leb 28 c && leb c 32)
    || c == 133
    || c == 160
    || c == 5760
    || (leb 8192 c && leb c 8202)
    || c == 8232
    || c == 8233
    || c == 8239
    || c == 8287
    || c == 12288

-- `bool(text)`
abbrev pub truthy : String → Bool
truthy String.[] = false
truthy (String.◌∷◌ c s) = true

-- `bool(text.strip())`: some character is no white space.
unfoldable pub has_text : String → Bool
unfolding is_space
has_text String.[] = false
has_text (String.◌∷◌ c s) = not (is_space (code c)) || has_text s

-- Inside `words`, the flag says that the character before was part of a word.
words_from : Bool → String → ℕ
unfolding is_space
words_from inside String.[] = 0
words_from inside (String.◌∷◌ c s) =
    let rest = words_from (not (is_space (code c))) s in
    if not inside && not (is_space (code c)) then suc rest else rest

-- `len(text.split())`
unfoldable pub word_count : String → ℕ
unfolding words_from
word_count s = words_from false s

-- `text.lstrip()`
unfoldable pub strip_start : String → String
unfolding is_space
strip_start String.[] = String.[]
strip_start (String.◌∷◌ c s) =
    let rest = strip_start s in if is_space (code c) then rest else String.◌∷◌ c s

-- `text.rstrip()`
unfoldable pub strip_end : String → String
unfolding is_space
strip_end String.[] = String.[]
strip_end (String.◌∷◌ c s) =
    let rest = strip_end s in
    if is_space (code c) && not (truthy rest) then String.[] else String.◌∷◌ c rest

-- `text.strip()`
unfoldable pub strip : String → String
unfolding strip_start strip_end
strip s = strip_end (strip_start s)

-- `s <= t`, by code points
unfoldable pub text_leb : String → String → Bool
text_leb String.[] t = true
text_leb (String.◌∷◌ c s) String.[] = false
text_leb (String.◌∷◌ c s) (String.◌∷◌ d t) =
    let rest = text_leb s t in ltb (code c) (code d) || (code c == code d && rest)

-- A run of white space before a character becomes one blank; the flag says that one is open.
squeeze : Bool → String → String
unfolding is_space
squeeze gap String.[] = String.[]
squeeze gap (String.◌∷◌ c s) =
    let rest = squeeze (is_space (code c)) s in
    if is_space (code c)
    then rest
    else if gap
    then String.◌++◌ " " (String.◌∷◌ c rest)
    else String.◌∷◌ c rest

-- `" ".join(text.strip().split())`
unfoldable pub collapse : String → String
unfolding squeeze strip
collapse s = squeeze false (strip s)

-- `len(text)`
unfoldable pub text_length : String → ℕ
text_length String.[] = 0
text_length (String.◌∷◌ c s) = suc (text_length s)

-- `text in texts`
abbrev pub is_member : String → List String → Bool
is_member t texts = any (str_eq t) texts

-- `set(texts)`, in order of first appearance after the ones seen.
unfoldable pub distinct : List String → List String → List String
distinct seen [] = []
distinct seen (t ∷ texts) =
    let rest = distinct (t ∷ seen) texts in if is_member t seen then rest else t ∷ rest

-- `sorted(set(texts))`
unfoldable pub sorted_set : List String → List String
unfolding distinct text_leb sort_by
sorted_set texts = sort_by text_leb (distinct [] texts)

strip_start_clean :
    (s : String)
    → (strip_start s ≡ "")
      ⊎ ((c : Char) × (t : String) × (strip_start s ≡ String.◌∷◌ c t) × (is_space (code c) ≡ false))
unfolding strip_start
strip_start_clean String.[] = inl refl
strip_start_clean (String.◌∷◌ c s) = elim (Bool-cases (is_space (code c))) [
  | inl e ↦ rw e (strip_start_clean s)
  | inr e ↦ inr (c, s, rw e refl, e)
]

strip_end_clean :
    (c : Char) (t : String)
    → is_space (code c) ≡ false
    → strip_start (strip_end (String.◌∷◌ c t)) ≡ strip_end (String.◌∷◌ c t)
unfolding strip_start strip_end
strip_end_clean c t h = rw (h, h) refl

strip_end_twice : (s : String) → strip_end (strip_end s) ≡ strip_end s
unfolding strip_end
strip_end_twice String.[] = refl
strip_end_twice (String.◌∷◌ c s) =
    elim (Bool-cases (is_space (code c) && not (truthy (strip_end s)))) [
      | inl e ↦ rw e refl
      | inr e ↦ rw (e, strip_end_twice s, e) refl
    ]

-- Stripping twice is stripping once.
pub strip-strip : (s : String) → strip (strip s) ≡ strip s
unfolding strip
strip-strip s = elim (strip_start_clean s) [
  | inl e ↦ rw (e, strip_end) refl
  | inr (c, t, e, h) ↦
      let clean : strip_start (strip_end (strip_start s)) ≡ strip_end (strip_start s) =
        rw e (strip_end_clean c t h) in
      ap strip_end clean ∙ strip_end_twice (strip_start s)
]

-- The set of the texts has the texts.
is_member-distinct :
    (t : String) (seen texts : List String)
    → (is_member t seen || is_member t (distinct seen texts))
      ≡ (is_member t seen || is_member t texts)
unfolding distinct
is_member-distinct t seen [] = refl
is_member-distinct t seen (x ∷ texts) =
    ground (arith, is_member-distinct t (x ∷ seen) texts, str_eq_iff t x)

pub is_member-sorted_set :
    (t : String) (texts : List String) → is_member t (sorted_set texts) ≡ is_member t texts
unfolding sorted_set
is_member-sorted_set t texts =
    any-sort_by text_leb (str_eq t) (distinct [] texts) ∙ is_member-distinct t [] texts
