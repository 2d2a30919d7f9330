-- ===== src/Service/Env.antt =====
-- What one call of a use case takes from outside.
use aethergrid.Base.{ℕ, String}
use aethergrid.Domain.Resources.{Time}

pub record Env : Type 0 where
  -- what `utc_now()` returns; the readings of one call are taken as one instant
  pub now : Time
  -- what the calls of `uuid4()` return, one for each place in the source that makes one
  pub fresh : ℕ → ℕ
  -- what `generate_node_name()` returns when the node with this id is read with its worker
  pub names : ℕ → String
