-- ===== src/Access/Keys.antt =====
-- app/infrastructure/repositories/postgres_api_key_repository.py, over the keys of the schema: the
-- identifier and the hash of a key are unique, and its tenant and its issuer are there, the issuer in
-- the tenant of the key.
pub mod Writes
use text.Mathlib.Text.{◌==◌ as str_eq}
use aethergrid.Base.{
  ℕ, Bool, true, not, ◌&&◌, ◌||◌, Option, none, some, List, [], ◌∷◌, ◌++◌, String, any, find,
  filter, map, if◌then◌else◌, ◌==◌, holds, Action, ok, raise, api_key_tenant_conflict,
  api_key_not_found, unique_violation, foreign_key_violation,
}
use aethergrid.Domain.Resources.{Time}
use aethergrid.Access.ApiKey.{ApiKey}
use aethergrid.Access.Tenant.{Tenant, has_id}

pub record Credentials : Type 0 where
  pub tenants : List Tenant
  pub keys : List ApiKey

-- `WHERE id = … AND tenant_id = …`
abbrev pub is_key : (id tenant_id : ℕ) → ApiKey → Bool
is_key id tenant_id row = row.id == id && row.tenant_id == tenant_id

-- The reference to the issuer, which the row itself may satisfy.
abbrev pub issuer_is_there : ApiKey → List ApiKey → Bool
issuer_is_there key rows = elim key.issued_by [
  | none ↦ true
  | some issuer ↦ issuer == key.id || any (is_key issuer key.tenant_id) rows
]

-- `DO UPDATE SET`: the columns that a save of a stored key writes.
abbrev pub overwrite : ApiKey → ApiKey → ApiKey
overwrite key row =
    if row.id == key.id
    then record row {
      revoked_at = key.revoked_at;
      last_used_at = key.last_used_at;
      scopes = key.scopes;
    }
    else row

-- The insertion of a key whose identifier is new.
unfoldable pub insert : ApiKey → Action Credentials (Unit {0})
insert key c =
    if any (λ (row : ApiKey). str_eq row.key_hash key.key_hash) c.keys
    then (raise unique_violation, c)
    else if any (has_id key.tenant_id) c.tenants && issuer_is_there key c.keys
    then (ok tt, record c { keys = c.keys ++ (key ∷ []) })
    else (raise foreign_key_violation, c)

unfoldable pub save : ApiKey → Action Credentials (Unit {0})
unfolding insert
save key c = elim (find (λ (row : ApiKey). row.id == key.id) c.keys) [
  | none ↦ insert key c
  | some row ↦
      if row.tenant_id == key.tenant_id
      then (ok tt, record c { keys = map (overwrite key) c.keys })
      else (raise api_key_tenant_conflict, c)
]

-- `SET last_used_at`
abbrev pub used : (id tenant_id : ℕ) → Time → ApiKey → ApiKey
used id tenant_id now row =
    if is_key id tenant_id row then record row { last_used_at = some now } else row

unfoldable pub mark_used : (id tenant_id : ℕ) → Time → Action Credentials (Unit {0})
mark_used id tenant_id now c =
    if any (is_key id tenant_id) c.keys
    then (ok tt, record c { keys = map (used id tenant_id now) c.keys })
    else (raise api_key_not_found, c)

unfoldable pub get_by_id : (id tenant_id : ℕ) → Credentials → Option ApiKey
get_by_id id tenant_id c = find (is_key id tenant_id) c.keys

unfoldable pub get_by_hash_across_tenants : String → Credentials → Option ApiKey
get_by_hash_across_tenants key_hash c = find (λ (row : ApiKey). str_eq row.key_hash key_hash) c.keys

unfoldable pub list_issued_by : (issuer_id tenant_id : ℕ) → Credentials → List ApiKey
list_issued_by issuer_id tenant_id c =
    filter (λ (row : ApiKey). holds row.issued_by issuer_id && row.tenant_id == tenant_id) c.keys
