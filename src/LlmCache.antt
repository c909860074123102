-- ===== src/LlmCache.antt =====
-- app/core/llm_cache.py: `FileLLMResponseCache`. The state is what `_read_entries` makes of the
-- file: its entries by key. A lock keeps each method apart from the others, so a method is one
-- step. The order of the keys, which the file sorts, is never looked at.
pub mod Expiry
use validador_final.Prelude.{
  ℕ, ◌+◌, ◌-◌, ◌*◌, String, Bool, true, false, not, ◌&&◌, List, [], ◌∷◌, Option, none, some,
  if◌then◌else◌, ltb, leb, length, str_eq,
}
use validador_final.Prelude.Dict.{get, put}

-- An entry whose fields are `none` where the file holds no value of the type that is asked for.
-- Times are counted in ticks of the clock.
pub record Entry : Type 0 where
  pub created_at : Option ℕ
  pub response_text : Option String

pub record LlmCachePruneResult : Type 0 where
  pub removed_entries : ℕ
  pub remaining_entries : ℕ

abbrev pub Entries : Type 0
Entries = List (String × Entry)

-- `current_time - created_at > ttl_seconds`
unfoldable pub is_expired : ℕ → ℕ → ℕ → Bool
is_expired now ttl created_at = ltb (created_at + ttl) now

module _ (ticks_per_second : ℕ) where
  -- `get` at the time `now`; the negative lifetimes behave as 0.
  unfoldable pub get_response : Entries → ℕ → String → ℕ → Option String
  get_response entries now cache_key ttl_seconds =
      if leb ttl_seconds 0 then none else elim (get cache_key entries) [
        | none ↦ none
        | some entry ↦ elim entry.created_at [
          | none ↦ none
          | some created_at ↦ elim entry.response_text [
            | none ↦ none
            | some response_text ↦
                if is_expired now (ttl_seconds * ticks_per_second) created_at
                then none
                else some response_text
          ]
        ]
      ]

  -- `set` at the time `now`
  unfoldable pub set_response : Entries → ℕ → String → String → Entries
  set_response entries now cache_key response_text =
      put cache_key (record { created_at = some now; response_text = some response_text }) entries

  -- The test of the loop of `prune_expired`: the entry is removed.
  unfoldable pub is_removed : ℕ → ℕ → Entry → Bool
  unfolding is_expired
  is_removed now ttl_seconds entry = elim entry.created_at [
    | none ↦ true
    | some created_at ↦ is_expired now (ttl_seconds * ticks_per_second) created_at
  ]

  -- The loop: what is retained, and how many entries are removed.
  unfoldable pub prune_loop : ℕ → ℕ → Entries → Entries × ℕ
  prune_loop now ttl_seconds [] = ([], 0)
  prune_loop now ttl_seconds ((key, entry) ∷ entries) =
      let (retained, removed) = prune_loop now ttl_seconds entries in
      if is_removed now ttl_seconds entry
      then (retained, removed + 1)
      else ((key, entry) ∷ retained, removed)

  -- `prune_expired`: the result and the new entries.
  unfoldable pub prune_expired : Entries → ℕ → ℕ → Bool → LlmCachePruneResult × Entries
  prune_expired entries now ttl_seconds dry_run =
      let (retained, removed) = prune_loop now ttl_seconds entries in
      if leb ttl_seconds 0
      then (record { removed_entries = 0; remaining_entries = 0 }, entries)
      else (
        record { removed_entries = removed; remaining_entries = length entries - removed },
        (if not dry_run && ltb 0 removed then retained else entries),
      )
