-- ===== src/LlmCache/Expiry.antt =====
-- What the cache answers after a write and after a prune (app/core/llm_cache.py).
use validador_final.Prelude.{
  ℕ, ◌+◌, ◌*◌, ◌≤◌, ◌<◌, String, Bool, [], ◌∷◌, none, some, if◌then◌else◌, leb, length, str_eq, ◌≡◌,
  refl, arith, str_eq_iff, Bool-cases, inl, inr,
}
use validador_final.Prelude.Dict.{get, get-put}
use validador_final.LlmCache.{
  Entries, is_expired, get_response, set_response, is_removed, prune_loop, prune_expired,
}

-- No key stands twice, as in every dict.
abbrev pub IsUnique : Entries → Type 0
IsUnique [] = Unit
IsUnique ((k, e) ∷ d) = (get k d ≡ none) × IsUnique d

module _ (ticks_per_second : ℕ) where
  -- With a positive lifetime, a key answers the text written last for it until its lifetime is
  -- over, and nothing after; the write changes the answer of no other key.
  pub get_response-set_response :
      (entries : Entries) (written now : ℕ) (key other text : String) (ttl : ℕ)
      → 0 < ttl
      → get_response ticks_per_second
          (set_response ticks_per_second entries written key text)
          now
          other
          ttl
        ≡ (if str_eq key other
            then if leb now (written + ttl * ticks_per_second) then some text else none
            else get_response ticks_per_second entries now other ttl)
  unfolding get_response set_response is_expired
  get_response-set_response entries written now key other text ttl h =
      rw
        (get-put key other (record { created_at = some written; response_text = some text })
          entries)
        (elim (Bool-cases (str_eq key other)) [ inl e ↦ rw e (ground arith) | inr e ↦ rw e refl ])

  get-prune_loop :
      (entries : Entries) (now ttl : ℕ) (key : String)
      → IsUnique entries
      → get key (prune_loop ticks_per_second now ttl entries).0 ≡ elim (get key entries) [
        | none ↦ none
        | some e ↦ if is_removed ticks_per_second now ttl e then none else some e
      ]
  unfolding get prune_loop
  get-prune_loop [] now ttl key u = refl
  get-prune_loop ((k, e) ∷ entries) now ttl key u =
      let here = u.0 in
      ground (arith, str_eq_iff k key, here, get-prune_loop entries now ttl key u.1)

  prune_loop-length :
      (entries : Entries) (now ttl : ℕ)
      → length (prune_loop ticks_per_second now ttl entries).0
          + (prune_loop ticks_per_second now ttl entries).1
        ≡ length entries
  unfolding prune_loop
  prune_loop-length [] now ttl = refl
  prune_loop-length ((k, e) ∷ entries) now ttl = ground (arith, prune_loop-length entries now ttl)

  -- A prune changes no answer that is asked for later with the same lifetime, where no key stands
  -- twice among the entries.
  pub get_response-prune_expired :
      (entries : Entries) (now later ttl : ℕ) (dry_run : Bool) (key : String)
      → IsUnique entries
      → now ≤ later
      → get_response ticks_per_second
          (prune_expired ticks_per_second entries now ttl dry_run).1
          later
          key
          ttl
        ≡ get_response ticks_per_second entries later key ttl
  unfolding get_response prune_expired is_removed is_expired
  get_response-prune_expired entries now later ttl dry_run key u h =
      let retained = get-prune_loop entries now ttl key u in ground (arith, retained)

  -- With a positive lifetime, a prune that is no dry run leaves as many entries as it reports to
  -- remain; a dry run leaves as many as there were.
  pub prune_expired-length :
      (entries : Entries) (now ttl : ℕ) (dry_run : Bool)
      → 0 < ttl
      → length (prune_expired ticks_per_second entries now ttl dry_run).1 ≡ (
          if dry_run
          then length entries
          else (prune_expired ticks_per_second entries now ttl dry_run).0.remaining_entries)
  unfolding prune_expired
  prune_expired-length entries now ttl dry_run h = ground (arith, prune_loop-length entries now ttl)
