-- ===== src/Base/Invariant.antt =====
-- What every statement of a program keeps true, the whole program does, also where it raises.
use mathlib.Core.Path.{◌≡◌, refl, sym, subst, ap}
use mathlib.Core.Logic.{◌⊎◌, inl, inr}
use mathlib.Core.Bool.{Bool, true, false}
use mathlib.Core.Option.{Option, none, some}
use aethergrid.Base.Effect.{
  Action, Result, Error, ok, raise, ◌>>=◌, bind_ok, bind_raise, call, mutate, or_throw, throw_if,
  when, gets, pure,
}

pub Result-cases :
    {A : Type 0} (r : Result A) → ((a : A) × (r ≡ ok a)) ⊎ ((e : Error) × (r ≡ raise e))
Result-cases (ok a) = inl (a, refl)
Result-cases (raise e) = inr (e, refl)

module _ {S : Type 0} (P : S → Type 0) where
  pub record Keeps {A : Type 0} (m : Action S A) : Type 0 where
    pub keeps : (s : S) → P s → P (m s).1

  pub bind-Keeps :
      {A B : Type 0} (m : Action S A) (k : A → Action S B)
      → Keeps m
      → ((a : A) → Keeps (k a))
      → Keeps (m >>= k)
  bind-Keeps m k h hk = record {
    keeps = λ s p. elim (Result-cases (m s).0) [
      | inl (a, e) ↦
          subst (λ (r : _ × S). P r.1) (sym (bind_ok m s (m s).1 a k (ap (λ r. (r, (m s).1)) e)))
            ((hk a).keeps (m s).1 (h.keeps s p))
      | inr (x, e) ↦
          subst (λ (r : _ × S). P r.1) (sym (bind_raise m s (m s).1 x k (ap (λ r. (r, (m s).1)) e)))
            (h.keeps s p)
    ];
  }

  pub call-Keeps : {T A : Type 0} (m : Action T A) (t : T) → Keeps (call {S = S} m t)
  call-Keeps m t = record {
    keeps = λ s p. elim (Result-cases (m t).0) [
      | inl (a, e) ↦ rw (call, e) p
      | inr (x, e) ↦ rw (call, e) p
    ];
  }

  pub mutate-Keeps : {T : Type 0} (m : Action T (Unit {0})) (t : T) → Keeps (mutate {S = S} m t)
  mutate-Keeps m t = record {
    keeps = λ s p. elim (Result-cases (m t).0) [
      | inl (a, e) ↦ rw (mutate, e) p
      | inr (x, e) ↦ rw (mutate, e) p
    ];
  }

  pub or_throw-Keeps : {A : Type 0} (x : Error) (o : Option A) → Keeps (or_throw {S = S} x o)
  or_throw-Keeps x none = record { keeps = λ s p. p }
  or_throw-Keeps x (some a) = record { keeps = λ s p. p }

  pub throw_if-Keeps : (b : Bool) (x : Error) → Keeps (throw_if {S = S} b x)
  throw_if-Keeps true x = record { keeps = λ s p. p }
  throw_if-Keeps false x = record { keeps = λ s p. p }

  pub when-Keeps : (b : Bool) (m : Action S (Unit {0})) → Keeps m → Keeps (when b m)
  when-Keeps true m h = h
  when-Keeps false m h = record { keeps = λ s p. p }

  pub pure-Keeps : {A : Type 0} (a : A) → Keeps (pure {S = S} a)
  pure-Keeps a = record { keeps = λ s p. p }

  pub gets-Keeps : {A : Type 0} (f : S → A) → Keeps (gets f)
  gets-Keeps f = record { keeps = λ s p. p }
