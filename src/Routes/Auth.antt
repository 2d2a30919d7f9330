-- ===== src/Routes/Auth.antt =====
-- app/presentation/auth.py: the two dependencies that every router declares, before a handler runs.
pub mod Guarded
use aethergrid.Base.{ℕ, Option, none, some, String, Result, Error, ok, raise}
use aethergrid.Domain.Resources.{Time}
use aethergrid.Store.{Db}
use aethergrid.Access.ApiKey.{ApiKey}
use aethergrid.Access.Keys.{Credentials}
use aethergrid.Access.Calls.{authenticate}
use aethergrid.Access.RateLimiter.{Float, RateLimiter, check}
use aethergrid.Routes.{Response, refused, crashed, Route, handle}

module _ (F : Float) where
  open F use {Num}

  -- What the API keeps: the limiter is in the memory of the process.
  pub record Api : Type 0 where
    pub credentials : Credentials
    pub limiter : RateLimiter F
    pub db : Db

  -- A request, as the two dependencies see it. `bearer` takes the prefix `Bearer ` off a header that has
  -- it, and strips the rest.
  pub record Request : Type 0 where
    pub authorization : Option String
    pub bearer : String → Option String
    pub hash_secret : String → String
    pub now : Time
    pub clock : Num

  -- The header with `authorization.removeprefix("Bearer ").strip()`, where it starts with `Bearer `.
  abbrev pub credential : (String → Option String) → Option String → Option String
  credential bearer none = none
  credential bearer (some header) = bearer header

  abbrev pub no_key : Error → Option ℕ
  no_key Error.invalid_api_key = some 401
  no_key _ = none

module _ (F : Float) {A : Type 0} (handler : ApiKey → Route A) where
  open F use {Num}

  -- The handler, where `require_rate_limit` lets the caller through.
  unfoldable pub after_limit : Option Num × RateLimiter F → ApiKey → Api F → Response A × Api F
  after_limit (some _, l) caller api = (refused 429, record api { limiter = l })
  after_limit (none, l) caller api =
      let (answer, db) = handler caller api.db in (answer, record api { limiter = l; db = db })

  -- `require_rate_limit` and the handler, where `require_api_key` returned.
  unfoldable pub after_key :
      (clock : Num) → Result ApiKey × Credentials → Api F → Response A × Api F
  unfolding after_limit
  after_key clock (raise x, c) api = (handle (no_key F) x, record api { credentials = c })
  after_key clock (ok caller, c) api =
      after_limit (check F clock caller.id api.limiter) caller (record api { credentials = c })

  -- `require_api_key`, `require_rate_limit` and the handler.
  unfoldable pub serve : Request F → Api F → Response A × Api F
  unfolding after_key
  serve request api = elim (credential F request.bearer request.authorization) [
    | none ↦ (refused 401, api)
    | some raw_key ↦
        after_key request.clock
          (authenticate request.hash_secret request.now raw_key api.credentials) api
  ]
