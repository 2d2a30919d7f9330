-- ===== src/Access/Tenant.antt =====
-- app/domain/entities/tenant.py and app/infrastructure/repositories/postgres_tenant_repository.py.
-- Reading a row also runs `__post_init__`, which is left out: the tenants that are saved passed it.
pub mod Lookup
use text.Mathlib.Text.{◌==◌ as str_eq}
use aethergrid.Base.{
  ℕ, Bool, not, Option, none, some, List, [], ◌∷◌, ◌++◌, String, any, find, ◌==◌, ◌||◌,
  if◌then◌else◌, Result, ok, raise, Action, value_error, tenant_already_exists,
}
use aethergrid.Domain.Resources.{Time}

pub record Tenant : Type 0 where
  pub id : ℕ
  pub name : String
  pub created_at : Time

-- `__post_init__`, with the test for the empty name. `strip` is `str.strip`.
unfoldable pub post_init : (strip : String → String) → Tenant → Result Tenant
post_init strip tenant =
    if str_eq tenant.name "" || str_eq (strip tenant.name) "" then raise value_error else ok tenant

-- `Tenant.create`. A name that is `None` counts as the empty one.
unfoldable pub create : (strip : String → String) → (id : ℕ) → Time → String → Result Tenant
unfolding post_init
create strip id now name = post_init strip (record { id = id; name = strip name; created_at = now })

abbrev pub has_name : String → Tenant → Bool
has_name name row = str_eq row.name name

abbrev pub has_id : ℕ → Tenant → Bool
has_id id row = row.id == id

-- `save`: the insertion, and where the id is taken the test of the name. An id that is taken is looked
-- at before the name.
unfoldable pub save : Tenant → Action (List Tenant) (Unit {0})
save tenant rows = elim (find (has_id tenant.id) rows) [
  | some row ↦
      if str_eq row.name tenant.name then (ok tt, rows) else (raise tenant_already_exists, rows)
  | none ↦
      if any (has_name tenant.name) rows
      then (raise tenant_already_exists, rows)
      else (ok tt, rows ++ (tenant ∷ []))
]

unfoldable pub get_by_id : ℕ → List Tenant → Option Tenant
get_by_id id rows = find (has_id id) rows

unfoldable pub get_by_name : String → List Tenant → Option Tenant
get_by_name name rows = find (has_name name) rows
