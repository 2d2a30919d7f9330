-- ===== src/Routes.antt =====
-- app/presentation/routers and app/presentation/auth.py: what a request to the API does and answers.
-- Parsing of bodies and headers is FastAPI's; a handler gets what it declares.
pub mod Attempts
pub mod Auth
pub mod Workers
pub mod Jobs
pub mod Nodes
pub mod Keys
pub mod Cluster
use aethergrid.Base.{ℕ, Option, none, some, Action, Result, Error, ok, raise}
use aethergrid.Store.{Db}

-- An answer: with a body, or the status of an HTTPException. An exception that no one handles is
-- answered 500.
pub data Response (A : Type 0) : Type 0 where
  answered : (status : ℕ) → A → Response A
  refused : (status : ℕ) → Response A
  crashed : Error → Response A

abbrev pub Route : Type 0 → Type 0
Route A = Db → Response A × Db

-- `raise HTTPException(status_code=status)`
abbrev pub refuse : {A : Type 0} (status : ℕ) → Route A
refuse status db = (refused status, db)

-- The `except` clauses of a handler: the status for an exception that they name.
abbrev pub handle : {A : Type 0} → (Error → Option ℕ) → Error → Response A
handle status_of x = elim (status_of x) [ some status ↦ refused status | none ↦ crashed x ]

-- A service call in a `try`, and what follows where it returns.
unfoldable pub attempt : {A B : Type 0} → Action Db A → (Error → Option ℕ) → (A → Route B) → Route B
attempt m status_of k db =
    let (r, db') = m db in elim r [ ok a ↦ k a db' | raise x ↦ (handle status_of x, db') ]

-- No `except` clause.
abbrev pub no_handler : Error → Option ℕ
no_handler _ = none

-- An identifier in the path, with `except ValueError`.
unfoldable pub parsed : {A : Type 0} → Option ℕ → (ℕ → Route A) → Route A
parsed none k = refuse 422
parsed (some id) k = k id

-- The same without a handler, so that ValueError goes through.
unfoldable pub unguarded : {A : Type 0} → Option ℕ → (ℕ → Route A) → Route A
unguarded none k db = (crashed Error.value_error, db)
unguarded (some id) k db = k id db
