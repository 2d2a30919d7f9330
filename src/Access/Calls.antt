-- ===== src/Access/Calls.antt =====
-- create_api_key_service.py, authenticate_api_key_service.py, revoke_api_key_service.py and
-- list_issued_api_keys_service.py in app/application/services.
pub mod Revocation
pub mod Histories
pub mod Authentication
pub mod Issuance
pub mod Acceptance
use text.Mathlib.Text.{◌==◌ as str_eq}
use aethergrid.Base.{
  ℕ, Bool, not, Option, none, some, List, [], ◌∷◌, String, zero, suc, if◌then◌else◌, is_some,
  Action, Result, ok, raise, pure, throw, gets, or_throw, throw_if, of_result, ◌>>=◌, ◌>>◌,
  value_error, tenant_not_found, invalid_api_key, api_key_not_found,
}
use aethergrid.Domain.Resources.{Time}
use aethergrid.Access.ApiKey
use aethergrid.Access.ApiKey.{ApiKey, Secrets, is_active}
use aethergrid.Access.Tenant
use aethergrid.Access.Keys
use aethergrid.Access.Keys.{Credentials}

-- The issuer or the tenant of a new key: who decides on its tenant.
unfoldable pub new_key :
    Secrets
    → (id : ℕ) → Time
    → (label : String) → List String
    → Option ApiKey
    → (tenant_id : Option ℕ) → Action Credentials ApiKey
new_key sec id now label scopes (some issuer) none =
    of_result (ApiKey.issue_child sec id now issuer label scopes)
new_key sec id now label scopes none (some tenant_id) = do
  throw_if (not (is_some (← gets (λ c. Tenant.get_by_id tenant_id c.tenants)))) tenant_not_found
  of_result (ApiKey.issue sec id now label tenant_id scopes none)
new_key sec id now label scopes _ _ = throw value_error

-- `CreateApiKeyService.execute`: the key, returned with its plaintext `sec.raw_key`.
unfoldable pub create_api_key :
    Secrets
    → (id : ℕ) → Time
    → (label : String) → List String
    → Option ApiKey
    → (tenant_id : Option ℕ) → Action Credentials ApiKey
unfolding new_key
create_api_key sec id now label scopes issuer tenant_id = do
  api_key ← new_key sec id now label scopes issuer tenant_id
  Keys.save api_key
  pure api_key

-- `AuthenticateApiKeyService.execute`: the key as it was read.
unfoldable pub authenticate :
    (hash_secret : String → String) → Time → (raw_key : String) → Action Credentials ApiKey
authenticate hash_secret now raw_key = do
  throw_if (str_eq raw_key "") invalid_api_key
  api_key ←
      or_throw invalid_api_key (← gets (Keys.get_by_hash_across_tenants (hash_secret raw_key)))
  throw_if (not (is_active api_key)) invalid_api_key
  Keys.mark_used api_key.id api_key.tenant_id now
  pure api_key

-- The `try` with `api_key.revoke()`, and the save where it returned.
abbrev pub save_revoked : Result ApiKey → Action Credentials (Unit {0})
save_revoked (ok api_key) = Keys.save api_key
save_revoked (raise _) = pure tt

-- `RevokeApiKeyService.execute`
unfoldable pub revoke_api_key :
    Time → (api_key_id : ℕ) → (caller : ApiKey) → Action Credentials (Unit {0})
revoke_api_key now api_key_id caller = do
  api_key ← or_throw api_key_not_found (← gets (Keys.get_by_id api_key_id caller.tenant_id))
  of_result (ApiKey.authorize_key_revocation caller.scopes caller.id api_key.issued_by)
  save_revoked (ApiKey.revoke now api_key)

abbrev pub take : ℕ → List ApiKey → List ApiKey
take zero _ = []
take (suc n) [] = []
take (suc n) (k ∷ ks) = k ∷ take n ks

-- `ListIssuedApiKeysService.execute`
unfoldable pub list_issued_api_keys :
    (issuer_id : ℕ) → (caller : ApiKey) → Action Credentials (List ApiKey)
list_issued_api_keys issuer_id caller = do
  issuer ← or_throw api_key_not_found (← gets (Keys.get_by_id issuer_id caller.tenant_id))
  of_result (ApiKey.authorize_key_view caller.scopes caller.id issuer.id)
  issued ← gets (Keys.list_issued_by issuer_id caller.tenant_id)
  pure (take 100 issued)
