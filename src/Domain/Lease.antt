-- ===== src/Domain/Lease.antt =====
-- app/domain/entities/lease.py: exclusive ownership of a job for a limited time.
use aethergrid.Base.{ℕ, ◌+◌, Bool, leb}
use aethergrid.Domain.Resources.{Time, Duration, seconds}

abbrev pub default_lease_duration : Duration
default_lease_duration = seconds 30

pub record Lease : Type 0 where
  pub id : ℕ
  pub worker_id : ℕ
  pub job_id : ℕ
  pub tenant_id : ℕ
  pub acquired_at : Time
  pub expires_at : Time

-- `Lease.create`, with the default duration that its one caller leaves.
unfoldable pub create : (id worker_id job_id tenant_id : ℕ) → Time → Lease
create id worker_id job_id tenant_id now = record {
  id = id;
  worker_id = worker_id;
  job_id = job_id;
  tenant_id = tenant_id;
  acquired_at = now;
  expires_at = now + default_lease_duration;
}

unfoldable pub is_expired : Time → Lease → Bool
is_expired now lease = leb lease.expires_at now
