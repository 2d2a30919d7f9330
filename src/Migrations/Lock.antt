-- ===== src/Migrations/Lock.antt =====
-- `_take_lock` of app/infrastructure/migrations/runner.py: the lock is tried until it is free or the
-- deadline has passed. `free k` is what PostgreSQL answers to try k, `now k` the clock after it.
use aethergrid.Base.{
  raise, migration_error, String, Bool-cases, inl, inr, subst, ℕ, zero, suc, ◌+◌, ◌≤◌, ◌<◌, ◌≡◌,
  refl, Bool, true, false, Option, none, some, leb, if◌then◌else◌, arith, List, Action,
}
use aethergrid.Domain.Resources.{Time, Duration}
use aethergrid.Migrations.{Migration}
use aethergrid.Migrations.Apply.{Connection, apply_locked}

module _ (free : ℕ → Bool) (now : ℕ → Time) (deadline : Time) where
  -- The loop from try k on: `none` where the fuel is used up.
  unfoldable pub take_lock_from : (fuel k : ℕ) → Option Bool
  take_lock_from zero k = none
  take_lock_from (suc fuel) k =
      let rest = take_lock_from fuel (k + 1) in
      if free k then some true else if leb deadline (now k) then some false else rest

  -- A clock that moves on at each try reaches the deadline.
  take_lock_from_ends :
      (fuel k : ℕ)
      → ((j : ℕ) → now j < now (j + 1))
      → deadline ≤ now k + fuel
      → (taken : Bool) × (take_lock_from (suc fuel) k ≡ some taken)
  unfolding take_lock_from
  take_lock_from_ends zero k moves h = elim (Bool-cases (free k)) [
    | inl e ↦ (true, rw (take_lock_from, e) refl)
    | inr e ↦
        let late : leb deadline (now k) ≡ true = ground arith in
        (false, rw (take_lock_from, e, late) refl)
  ]
  take_lock_from_ends (suc fuel) k moves h = elim (Bool-cases (free k)) [
    | inl e ↦ (true, rw (take_lock_from, e) refl)
    | inr e ↦ elim (Bool-cases (leb deadline (now k))) [
      | inl late ↦ (false, rw (take_lock_from, e, late) refl)
      | inr early ↦
          let (taken, rest) = take_lock_from_ends fuel (k + 1) moves (omega (arith, moves k)) in
          (taken, rw (take_lock_from, e, early) rest)
    ]
  ]

-- `_take_lock` for a run that starts at `start`.
unfoldable pub take_lock :
    (ℕ → Bool) → (ℕ → Time) → (start : Time) → (timeout : Duration) → Option Bool
unfolding take_lock_from
take_lock free now start timeout = take_lock_from free now (start + timeout) (timeout + 1) 0

-- The loop ends within the fuel, which is one try for each unit of the timeout and one more: with the
-- lock where a try gets it, and otherwise once the deadline has passed.
pub take_lock_ends :
    (free : ℕ → Bool) (now : ℕ → Time) (start : Time) (timeout : Duration)
    → ((j : ℕ) → now j < now (j + 1))
    → start ≤ now 0
    → (taken : Bool) × (take_lock free now start timeout ≡ some taken)
unfolding take_lock
take_lock_ends free now start timeout moves h =
    let fuel : suc timeout ≡ timeout + 1 = omega arith in
    subst (λ f. (taken : Bool) × (take_lock_from free now (start + timeout) f 0 ≡ some taken)) fuel
      (take_lock_from_ends free now (start + timeout) timeout 0 moves (omega arith))

-- `apply_migrations`, on a connection of its own.
unfoldable pub apply_migrations :
    {S : Type 0}
    → (execute : String → S → Bool × S) → (ℕ → Bool)
    → (ℕ → Time)
    → (start : Time) (timeout : Duration) → List Migration
    → Action (Connection S) (List ℕ)
unfolding take_lock apply_locked
apply_migrations execute free now start timeout migrations c =
    elim (take_lock free now start timeout) [
      | none ↦ (raise migration_error, c)
      | some taken ↦ apply_locked execute taken migrations c
    ]
