-- ===== src/Client.antt =====
-- integrations/resilient_client/resilient_api_client.py: calls of an HTTP API that may be slow, limit
-- its callers or fail. httpx, the clock, the files and the random numbers come as parameters.
pub mod Breaker
pub mod Config
pub mod Token
pub mod Request
