-- ===== src/Routes/Attempts.antt =====
-- Service calls in a handler: where they return, and where they raise.
use aethergrid.Base.{ℕ, ◌≡◌, ap, Option, none, some, Result, Error, ok, raise, Action}
use aethergrid.Store.{Db}
use aethergrid.Routes.{Response, answered, refused, crashed, Route, handle, attempt}

abbrev pub IsError : {A : Type 0} → Response A → Type 0
IsError (answered _ _) = ⊥
IsError (refused _) = Unit
IsError (crashed _) = Unit

-- The answer is an error and the database is as it was.
abbrev pub IsRefusal : {A : Type 0} → Route A → Db → Type 0
IsRefusal route db = IsError (route db).0 × ((route db).1 ≡ db)

pub handle-IsError :
    (A : Type 0) (status_of : Error → Option ℕ) (x : Error) → IsError (handle {A = A} status_of x)
handle-IsError A status_of x = decided (status_of x)
  where
    decided :
        (o : Option ℕ)
        → IsError {A = A}
            (elim o as (λ _. Response A) [ some status ↦ refused status | none ↦ crashed x ])
    decided none = tt
    decided (some n) = tt

-- A service call that returned, and one that raised.
pub attempt_ok :
    {A B : Type 0} (m : Action Db A) (status_of : Error → Option ℕ) (k : A → Route B) (db db' : Db)
    (a : A)
    → m db ≡ (ok a, db')
    → attempt m status_of k db ≡ k a db'
unfolding attempt
attempt_ok {B = B} m status_of k db db' a e =
    ap
      (λ (p : Result _ × Db). elim p.0 as (λ _. Response B × Db) [
        | ok a ↦ k a p.1
        | raise x ↦ (handle status_of x, p.1)
      ])
      e

pub attempt_raise :
    {A B : Type 0} (m : Action Db A) (status_of : Error → Option ℕ) (k : A → Route B) (db db' : Db)
    (x : Error)
    → m db ≡ (raise x, db')
    → attempt m status_of k db ≡ (handle status_of x, db')
unfolding attempt
attempt_raise {B = B} m status_of k db db' x e =
    ap
      (λ (p : Result _ × Db). elim p.0 as (λ _. Response B × Db) [
        | ok a ↦ k a p.1
        | raise x ↦ (handle status_of x, p.1)
      ])
      e
