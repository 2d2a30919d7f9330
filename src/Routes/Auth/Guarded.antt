-- ===== src/Routes/Auth/Guarded.antt =====
-- No handler runs for a caller without a valid key.
use aethergrid.Base.{◌≡◌, ◌⊎◌, true, none, some, String, map}
use aethergrid.Domain.Resources.{Time}
use aethergrid.Access.ApiKey.{ApiKey, is_active}
use aethergrid.Access.Keys
use aethergrid.Access.Keys.{Credentials, used}
use aethergrid.Access.RateLimiter.{Float, RateLimiter, check}
use aethergrid.Routes.{Response, Route, refused}
use aethergrid.Routes.Attempts.{IsError}
use aethergrid.Routes.Auth.{Api, Request, credential}

module _ (F : Float) {A : Type 0} (handler : ApiKey → Route A) where
  -- The request carries the credential of an active key.
  pub record Presents (request : Request F) (api : Api F) (caller : ApiKey) : Type 0 where
    pub raw_key : String
    pub presented : credential F request.bearer request.authorization ≡ some raw_key
    pub stored :
        Keys.get_by_hash_across_tenants (request.hash_secret raw_key) api.credentials ≡ some caller
    pub active : is_active caller ≡ true

  -- The credentials with the time of the last use of one key.
  abbrev pub marked_used : Time → ApiKey → Credentials → Credentials
  marked_used now caller c = record c { keys = map (used caller.id caller.tenant_id now) c.keys }

  -- The limiter refused an active key: the tables that handlers work on are as they were, and of the keys
  -- only the time of its last use was written.
  pub record Limited (request : Request F) (api : Api F) (answer : Response A) (api' : Api F)
      : Type 0 where
    pub caller : ApiKey
    pub presents : Presents request api caller
    pub wait : F.Num
    pub limited : (check F request.clock caller.id api.limiter).0 ≡ some wait
    pub status : answer ≡ refused 429
    pub kept : api'.db ≡ api.db
    pub marked : api'.credentials ≡ marked_used request.now caller api.credentials

  -- The handler ran for an active key whose hash is that of the credential of the request, and that the
  -- limiter let through.
  pub record Ran (request : Request F) (api : Api F) (answer : Response A) (api' : Api F)
      : Type 0 where
    pub caller : ApiKey
    pub presents : Presents request api caller
    pub allowed : (check F request.clock caller.id api.limiter).0 ≡ none
    pub result : handler caller api.db ≡ (answer, api'.db)
    pub marked : api'.credentials ≡ marked_used request.now caller api.credentials

  abbrev pub Served : Request F → Api F → Response A × Api F → Type 0
  Served request api (answer, api') =
      (IsError answer × (api'.db ≡ api.db) × (api'.credentials ≡ api.credentials))
      ⊎ Limited request api answer api'
      ⊎ Ran request api answer api'
