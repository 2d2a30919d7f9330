-- ===== src/Routes/Keys.antt =====
-- app/presentation/routers/api_keys.py. `sort_texts` is Python's `sorted` on texts.
pub mod Answers
use aethergrid.Base.{
  ℕ, Option, none, some, List, [], map, String, Action, Result, Error, ok, raise, value_error,
  api_key_not_found, scope_denied,
}
use aethergrid.Domain.Resources.{Time}
use aethergrid.Access.ApiKey.{ApiKey, Secrets, authorize_key_management}
use aethergrid.Access.Keys.{Credentials}
use aethergrid.Access.Calls.{create_api_key, revoke_api_key, list_issued_api_keys}
use aethergrid.Routes.{Response, answered, crashed, handle, no_handler}

-- A handler over the tables of tenants and keys.
abbrev pub KeyRoute : Type 0 → Type 0
KeyRoute A = Credentials → Response A × Credentials

-- A service call in a `try`, and what follows where it returns.
unfoldable pub key_attempt :
    {A B : Type 0} → Action Credentials A → (Error → Option ℕ) → (A → Response B) → KeyRoute B
key_attempt m status_of k c =
    let (r, c') = m c in elim r [ ok a ↦ (k a, c') | raise x ↦ (handle status_of x, c') ]

-- `UUID(api_key_id)`, whose ValueError the `except` clauses do not name.
unfoldable pub with_key_id : {A : Type 0} → Option ℕ → (ℕ → KeyRoute A) → KeyRoute A
with_key_id none k c = (crashed value_error, c)
with_key_id (some id) k c = k id c

abbrev pub no_access : Error → Option ℕ
no_access Error.api_key_not_found = some 404
no_access Error.scope_denied = some 403
no_access _ = none

abbrev pub no_scope : Error → Option ℕ
no_scope Error.scope_denied = some 403
no_scope _ = none

pub record CreateApiKeyResponse : Type 0 where
  pub id : ℕ
  pub label : String
  pub key : String

-- `POST /api-keys`
unfoldable pub create_api_key_route :
    Secrets → (id : ℕ) → Time → (label : String) → (caller : ApiKey) → KeyRoute CreateApiKeyResponse
unfolding key_attempt
create_api_key_route sec id now label caller c = elim (authorize_key_management caller.scopes) [
  | raise x ↦ (handle no_scope x, c)
  | ok _ ↦
      key_attempt (create_api_key sec id now label [] (some caller) none) no_handler
        (λ issued.
          answered 201 (record { id = issued.id; label = issued.label; key = sec.raw_key }))
        c
]

-- `POST /api-keys/{api_key_id}/revoke`
unfoldable pub revoke_api_key_route :
    Time → (api_key_id : Option ℕ) → (caller : ApiKey) → KeyRoute (Unit {0})
unfolding key_attempt with_key_id
revoke_api_key_route now api_key_id caller =
    with_key_id api_key_id
      λ id. key_attempt (revoke_api_key now id caller) no_access λ _. answered 204 tt

pub record IssuedApiKeySummaryResponse : Type 0 where
  pub id : ℕ
  pub label : String
  pub scopes : List String
  pub created_at : Time
  pub revoked_at : Option Time

-- `IssuedApiKeySummaryResponse(…)`
abbrev pub summary : (sort_texts : List String → List String) → ApiKey → IssuedApiKeySummaryResponse
summary sort_texts key = record {
  id = key.id;
  label = key.label;
  scopes = sort_texts key.scopes;
  created_at = key.created_at;
  revoked_at = key.revoked_at;
}

-- `GET /api-keys/{api_key_id}/issued`
unfoldable pub list_issued_api_keys_route :
    (sort_texts : List String → List String)
    → (api_key_id : Option ℕ) → (caller : ApiKey) → KeyRoute (List IssuedApiKeySummaryResponse)
unfolding key_attempt with_key_id
list_issued_api_keys_route sort_texts api_key_id caller = with_key_id api_key_id λ id.
    key_attempt (list_issued_api_keys id caller) no_access
      λ issued. answered 200 (map (summary sort_texts) issued)
