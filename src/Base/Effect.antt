-- ===== src/Base/Effect.antt =====
-- Python statements that mutate a state and may raise. The state reached so far outlives an
-- exception: an attribute that was assigned and a row that was committed stay as they are.
use mathlib.Core.Path.{◌≡◌, refl, ap}
use mathlib.Core.Bool.{Bool, true, false}
use mathlib.Core.Option.{Option, none, some}

-- The exception classes of app/domain/exceptions, Python's own, and the violations that the
-- database reports and no repository translates.
pub data Error : Type 0 where
  value_error runtime_error type_error zero_division : Error
  invalid_job_transition insufficient_node_capacity : Error
  no_available_node worker_not_found worker_job_mismatch : Error
  no_active_lease lease_not_found lease_tenant_mismatch : Error
  job_not_found node_not_found node_still_alive : Error
  job_tenant_conflict node_tenant_conflict : Error
  tenant_not_found tenant_already_exists : Error
  api_key_not_found api_key_already_revoked api_key_tenant_conflict : Error
  invalid_api_key scope_denied unknown_api_key_scope rate_limit_exceeded : Error
  migration_error : Error
  foreign_key_violation unique_violation os_error : Error

pub data Result {ℓ} (A : Type ℓ) : Type ℓ where
  ok : A → Result A
  raise : Error → Result A

abbrev pub and_then {ℓ κ} : {A : Type ℓ} {B : Type κ} → Result A → (A → Result B) → Result B
and_then (ok a) f = f a
and_then (raise e) f = raise e

-- The parts of a computation that returned.
pub and_then-ok {ℓ κ} :
    {A : Type ℓ} {B : Type κ} (r : Result A) (f : A → Result B) (b : B)
    → and_then r f ≡ ok b
    → (a : A) × (r ≡ ok a) × (f a ≡ ok b)
and_then-ok (ok a) f b h = (a, refl, h)
and_then-ok (raise e) f b h = cc

abbrev pub Action : Type 0 → Type 0 → Type 0
Action S A = S → Result A × S

module _ {S A : Type 0} where
  abbrev pub pure : A → Action S A
  pure a s = (ok a, s)

  abbrev pub throw : Error → Action S A
  throw e s = (raise e, s)

  abbrev pub gets : (S → A) → Action S A
  gets f s = (ok (f s), s)

  -- The value of a lookup that must not fail.
  abbrev pub or_throw : Error → Option A → Action S A
  or_throw e none = throw e
  or_throw e (some a) = pure a

infixl 5 ◌>>=◌ ◌>>◌
abbrev pub ◌>>=◌ : {S A B : Type 0} → Action S A → (A → Action S B) → Action S B
◌>>=◌ m f s = let (r, s') = m s in elim r [ ok a ↦ f a s' | raise e ↦ (raise e, s') ]

abbrev pub ◌>>◌ : {S A B : Type 0} → Action S A → Action S B → Action S B
m >> k = m >>= λ _. k

-- The value of a first statement, and its exception.
module _ {S A B : Type 0} (m : Action S A) (s s' : S) where
  pub bind_ok : (a : A) (k : A → Action S B) → m s ≡ (ok a, s') → (m >>= k) s ≡ k a s'
  bind_ok a k e =
      ap
        (λ (p : Result A × S). elim p.0 as (λ _. Result B × S) [
          | ok a ↦ k a p.1
          | raise e ↦ (raise e, p.1)
        ])
        e

  pub bind_raise :
      (x : Error) (k : A → Action S B) → m s ≡ (raise x, s') → (m >>= k) s ≡ (raise x, s')
  bind_raise x k e =
      ap
        (λ (p : Result A × S). elim p.0 as (λ _. Result B × S) [
          | ok a ↦ k a p.1
          | raise e ↦ (raise e, p.1)
        ])
        e

module _ {S : Type 0} where
  abbrev pub modify : (S → S) → Action S (Unit {0})
  modify f s = (ok tt, f s)

  abbrev pub throw_if : Bool → Error → Action S (Unit {0})
  throw_if true e = throw e
  throw_if false e = pure tt

  abbrev pub when : Bool → Action S (Unit {0}) → Action S (Unit {0})
  when true m = m
  when false m = pure tt

  -- `raise` of a result that was computed without the state.
  abbrev pub of_result : {A : Type 0} → Result A → Action S A
  of_result r s = (r, s)

-- A method call on a local object: the object as it is afterwards and what the call returned. Where
-- the call raises, the object goes out of scope with the exception.
abbrev pub call : {S T A : Type 0} → Action T A → T → Action S (T × A)
call m t s = let (r, t') = m t in elim r [ ok a ↦ (ok (t', a), s) | raise e ↦ (raise e, s) ]

-- The same, for a method that returns nothing.
abbrev pub mutate : {S T : Type 0} → Action T (Unit {0}) → T → Action S T
mutate m t s = let (r, t') = m t in elim r [ ok _ ↦ (ok t', s) | raise e ↦ (raise e, s) ]
