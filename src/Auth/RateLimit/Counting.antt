-- ===== src/Auth/RateLimit/Counting.antt =====
-- What one more failed sign-in makes of the counter of a key (app/services/auth_service.py).
use validador_final.Prelude.{
  ℕ, ◌+◌, ◌-◌, ◌≤◌, ◌<◌, ◌≡◌, refl, ◌⊎◌, inl, inr, true, List, [], ◌∷◌, ◌++◌, Option, none, some,
  arith, Bool-cases, filter, length, leb,
}
use validador_final.Job.{Time}
use validador_final.Auth.RateLimit.{
  PublicAuthAction, PublicAuthAttemptState, public_auth_window, public_auth_lockout,
  prune_public_auth_state, is_recent, still_locked, with_failure, state_or_new, register_state,
  max_public_auth_failures, locked_at,
}
use validador_final.Auth.RateLimit.Lockout.{state_locked}

-- How many of the failures happened at `t` or later.
abbrev pub since : Time → List Time → List Time
since t = filter (leb t)

-- Pruning keeps what happened at `t` or later, within the window from `t`.
since-filter :
    (t now : Time) (fs : List Time)
    → now < t + public_auth_window
    → length (since t (filter (is_recent now) fs)) ≡ length (since t fs)
since-filter t now [] h = refl
since-filter t now (f ∷ fs) h = ground (arith, since-filter t now fs h)

since-append :
    (t now : Time) (fs : List Time)
    → t ≤ now
    → length (since t (fs ++ now ∷ [])) ≡ length (since t fs) + 1
since-append t now [] h = ground arith
since-append t now (f ∷ fs) h = ground (arith, since-append t now fs h)

pub since-le : (t : Time) (fs : List Time) → length (since t fs) ≤ length fs
since-le t [] = omega arith
since-le t (f ∷ fs) = ground (arith, since-le t fs)

-- A lockout of at least the full length from `t`, or `n` failures since `t`.
abbrev pub Struck : Time → ℕ → PublicAuthAttemptState → Type 0
Struck t n state =
    (locked_at (t + public_auth_lockout - 1) state.locked_until ≡ true)
    ⊎ (n ≤ length (since t state.failures))

limit_is_5 : (action : PublicAuthAction) → max_public_auth_failures action ≡ 5
limit_is_5 PublicAuthAction.login = refl
limit_is_5 PublicAuthAction.setup = refl

-- What a further failure makes of pruned failures and of a lockout.
with_failure_strikes :
    (t now : Time) (action : PublicAuthAction) (n : ℕ) (fs : List Time) (lock : Option Time)
    → t ≤ now
    → (locked_at (t + public_auth_lockout - 1) lock ≡ true) ⊎ (n ≤ length (since t fs))
    → (locked_at
          (t + public_auth_lockout - 1)
          (with_failure now action (record { failures = fs; locked_until = lock })).locked_until
        ≡ true)
      ⊎ ((n + 1
            ≤ length (
                since t
                  (with_failure now action
                    (record { failures = fs; locked_until = lock })).failures))
          × (length
                (with_failure now action (record { failures = fs; locked_until = lock })).failures
              < 5))
with_failure_strikes t now action n fs lock a s =
    elim (Bool-cases (leb (max_public_auth_failures action) (length (fs ++ now ∷ [])))) [
      | inl full ↦ rw full (inl (ground arith))
      | inr more ↦ rw more (elim s [
        | inl locked ↦ inl locked
        | inr struck ↦
            inr (omega (arith, since-append t now fs a), ground (arith, limit_is_5 action))
      ])
    ]

prune_strikes :
    (t now : Time) (n : ℕ) (state : PublicAuthAttemptState)
    → now < t + public_auth_window
    → Struck t n state
    → Struck t n (prune_public_auth_state now state)
unfolding prune_public_auth_state
prune_strikes t now n state b s = elim s [
  | inl locked ↦ inl (ground arith)
  | inr struck ↦ inr (omega (arith, since-filter t now state.failures b))
]

-- The next failure within the window from `t` counts one more, or locks.
pub register_strikes :
    (t now : Time) (action : PublicAuthAction) (n : ℕ) (found : Option PublicAuthAttemptState)
    → t ≤ now
    → now < t + public_auth_window
    → Struck t n (state_or_new found)
    → (locked_at (t + public_auth_lockout - 1) (register_state now action found).locked_until
        ≡ true)
      ⊎ ((n + 1 ≤ length (since t (register_state now action found).failures))
          × (length (register_state now action found).failures < 5))
unfolding register_state
register_strikes t now action n found a b s =
    let state = state_or_new found in
    with_failure_strikes t now action n (filter (is_recent now) state.failures)
      (still_locked now state.locked_until) a
      (unfold prune_public_auth_state in prune_strikes t now n state b s)

-- The outcome of one failure, as a bound on what the key holds afterwards.
abbrev pub Locked : Time → PublicAuthAttemptState → Type 0
Locked t state = locked_at (t + public_auth_lockout - 1) state.locked_until ≡ true

abbrev pub Counted : Time → ℕ → PublicAuthAttemptState → Type 0
Counted t n state = (n ≤ length (since t state.failures)) × (length state.failures < 5)

-- A lockout of the full length from `t` holds at every moment before its end.
pub Locked-until_then :
    (t now : Time) (found : Option PublicAuthAttemptState)
    → now < t + public_auth_lockout
    → Locked t (state_or_new found)
    → state_locked now found ≡ true
Locked-until_then t now none h l = cc
Locked-until_then t now (some state) h l = ground arith
