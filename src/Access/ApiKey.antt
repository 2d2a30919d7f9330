-- ===== src/Access/ApiKey.antt =====
-- app/domain/entities/api_key.py, app/domain/value_objects/api_key_scope.py and
-- app/domain/services/key_authorization.py.
use text.Mathlib.Text.{◌==◌ as str_eq}
use aethergrid.Base.{
  ℕ, Bool, true, false, not, ◌||◌, Option, none, some, List, String, any, if◌then◌else◌, ◌==◌,
  holds, Result, ok, raise, and_then, value_error, unknown_api_key_scope, scope_denied,
  api_key_already_revoked,
}
use aethergrid.Domain.Resources.{Time}

pub record ApiKey : Type 0 where
  pub id : ℕ
  pub key_hash : String
  pub label : String
  pub created_at : Time
  pub tenant_id : ℕ
  pub revoked_at : Option Time
  pub last_used_at : Option Time
  pub scopes : List String
  pub issued_by : Option ℕ

abbrev pub jobs_execute : String
jobs_execute = "jobs:execute"

abbrev pub keys_manage : String
keys_manage = "keys:manage"

-- `scope in scopes`
abbrev pub contains : String → List String → Bool
contains scope scopes = any (λ s. str_eq s scope) scopes

-- `scope in KNOWN_SCOPES`
abbrev pub is_known : String → Bool
is_known scope = str_eq scope jobs_execute || str_eq scope keys_manage

-- `validate_scopes`
unfoldable pub validate_scopes : List String → Result (List String)
validate_scopes scopes =
    if any (λ s. not (is_known s)) scopes then raise unknown_api_key_scope else ok scopes

-- What the entity calls outside, with the secret that `secrets.token_urlsafe(32)` draws.
pub record Secrets : Type 0 where
  pub strip : String → String
  pub hash_secret : String → String
  pub raw_key : String

-- `ApiKey.issue`: the key, whose plaintext is `raw_key`.
unfoldable pub issue :
    Secrets
    → (id : ℕ) → Time
    → (label : String) (tenant_id : ℕ) → List String
    → Option ℕ
    → Result ApiKey
unfolding validate_scopes
issue sec id now label tenant_id scopes issued_by =
    if str_eq label "" || str_eq (sec.strip label) ""
    then raise value_error
    else and_then (validate_scopes scopes) λ validated. ok (record {
      id = id;
      key_hash = sec.hash_secret sec.raw_key;
      label = sec.strip label;
      created_at = now;
      tenant_id = tenant_id;
      revoked_at = none;
      last_used_at = none;
      scopes = validated;
      issued_by = issued_by;
    })

unfoldable pub issue_child :
    Secrets → (id : ℕ) → Time → ApiKey → (label : String) → List String → Result ApiKey
unfolding issue
issue_child sec id now self label scopes =
    issue sec id now label self.tenant_id scopes (some self.id)

abbrev pub is_active : ApiKey → Bool
is_active key = elim key.revoked_at [ none ↦ true | some _ ↦ false ]

abbrev pub has_scope : ApiKey → String → Bool
has_scope key scope = contains scope key.scopes

unfoldable pub revoke : Time → ApiKey → Result ApiKey
revoke now key =
    if is_active key
    then ok (record key { revoked_at = some now })
    else raise api_key_already_revoked

-- `authorize_key_management`
unfoldable pub authorize_key_management : List String → Result (Unit {0})
authorize_key_management scopes = if contains keys_manage scopes then ok tt else raise scope_denied

-- `authorize_key_revocation`
unfoldable pub authorize_key_revocation :
    (caller_scopes : List String) (caller_id : ℕ) (target_issued_by : Option ℕ) → Result (Unit {0})
authorize_key_revocation caller_scopes caller_id target_issued_by =
    if contains keys_manage caller_scopes
    then ok tt
    else if holds target_issued_by caller_id
    then ok tt
    else raise scope_denied

-- `authorize_key_view`
unfoldable pub authorize_key_view :
    (caller_scopes : List String) (caller_id requested_issuer_id : ℕ) → Result (Unit {0})
authorize_key_view caller_scopes caller_id requested_issuer_id =
    if contains keys_manage caller_scopes
    then ok tt
    else if caller_id == requested_issuer_id
    then ok tt
    else raise scope_denied

-- `authorize_job_creation` of app/domain/services/job_authorization.py.
unfoldable pub authorize_job_creation : List String → Option (List String) → Result (Unit {0})
authorize_job_creation scopes none = ok tt
authorize_job_creation scopes (some command) =
    if contains jobs_execute scopes then ok tt else raise scope_denied
