-- ===== src/Access.antt =====
-- Who may call the API: the tables `api_keys` and `tenants`, the keys that callers present, and the
-- limit on how often one key calls.
pub mod ApiKey
pub mod Tenant
pub mod Keys
pub mod Calls
pub mod RateLimiter
