-- ===== src/Client/Request/Replay.antt =====
-- What a call may repeat, and what its caller learns.
use aethergrid.Base.{◌≡◌, Bool, true, false, not, [], ltb, ◌==◌, ◌&&◌, ◌⊎◌}
use aethergrid.Client.Config.{RetryConfig}
use aethergrid.Client.Request.{Reply, Outcome, raised, Failure, World, Run, Client, is_retryable}
use aethergrid.Client.Request.Attempts.{Decided, Ends}

-- A reply after which the server cannot have acted on the request.
abbrev pub IsUnprocessed : {A : Type 0} → Reply A → Type 0
IsUnprocessed Reply.never_sent = Unit
IsUnprocessed (Reply.answered status _ _) = status ≡ 429
IsUnprocessed _ = ⊥

-- The failures after which the client says that the outcome is unknown.
abbrev pub is_ambiguous : {A : Type 0} → RetryConfig → Reply A → Bool
is_ambiguous cfg Reply.broken = true
is_ambiguous cfg (Reply.answered status _ _) =
    not (ltb status 400) && (is_retryable cfg status && not (status == 429))
is_ambiguous cfg _ = false

-- The attribute `outcome_unknown` of what the call raised.
abbrev pub outcome_unknown : {A : Type 0} → Outcome A → Bool
outcome_unknown (raised (Failure.server_error _ unknown)) = unknown
outcome_unknown (raised (Failure.retry_exhausted unknown)) = unknown
outcome_unknown _ = false

module _ {A : Type 0} (w : World A) (cfg : RetryConfig) (safe : Bool) where
  abbrev Retried : Reply A → Type 0
  Retried r = safe ≡ false → IsUnprocessed r

  abbrev Stopped : Reply A → Outcome A → Type 0
  Stopped r o = outcome_unknown o ≡ (is_ambiguous cfg r && not safe)

-- A call that never went out, or one whose replies were each retried but the last.
abbrev pub Behaves : {A : Type 0} → World A → RetryConfig → (safe : Bool) → Run A → Type 0
Behaves w cfg safe run =
    ((run.replies ≡ [])
      × ((run.outcome ≡ raised Failure.circuit_open) ⊎ (run.outcome ≡ raised Failure.auth_error)))
    ⊎ (Decided (Retried w cfg safe) (Stopped w cfg safe) run.replies run.outcome
        × Ends w cfg safe cfg.max_attempts run)
