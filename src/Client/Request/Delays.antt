-- ===== src/Client/Request/Delays.antt =====
-- How long a call sleeps between two attempts.
use aethergrid.Base.{
  ℕ, zero, suc, ◌+◌, ◌≤◌, ◌≡◌, Bool, Option, none, some, String, ℤ, arith, All, ◌==◌, ◌⊎◌, inl, inr,
}
use aethergrid.Domain.Resources.{Duration}
use aethergrid.Client.Breaker.{CircuitBreaker}
use aethergrid.Client.Config.{RetryConfig}
use aethergrid.Client.Request.{
  Reply, World, retries, decide, parse_retry_after, delay_before_retry, attempts_from,
}
use aethergrid.Client.Request.Attempts.{Decision-cases}

-- The longest sleep that the configuration allows: its own back-off, or what a server asks for.
abbrev pub IsAllowed : RetryConfig → Duration → Type 0
IsAllowed cfg d = (d ≤ cfg.max_delay + cfg.jitter) ⊎ (d ≤ cfg.max_retry_after)

abbrev Capped : RetryConfig → Option Duration → Type 0
Capped cfg none = Unit
Capped cfg (some d) = d ≤ cfg.max_retry_after

parse_retry_after-Capped :
    (delay_of : String → Option ℤ) (cfg : RetryConfig) (header : Option String)
    → Capped cfg (parse_retry_after delay_of cfg.max_retry_after header)
unfolding parse_retry_after
parse_retry_after-Capped delay_of cfg header = ground arith

decide-Capped :
    {A : Type 0} (delay_of : String → Option ℤ) (cfg : RetryConfig) (safe is_last : Bool)
    (r : Reply A) (d : Option Duration)
    → decide delay_of cfg safe is_last r ≡ retries d
    → Capped cfg d
unfolding decide
decide-Capped delay_of cfg safe is_last Reply.never_sent d e = ground arith
decide-Capped delay_of cfg safe is_last Reply.broken d e = ground arith
decide-Capped delay_of cfg safe is_last Reply.other_error d e = ground arith
decide-Capped delay_of cfg safe is_last (Reply.answered status header content) d e =
    ground (arith, parse_retry_after-Capped delay_of cfg header)

delay-IsAllowed :
    (cfg : RetryConfig) (attempt : ℕ) (jitter : Duration) (d : Option Duration)
    → jitter ≤ cfg.jitter
    → Capped cfg d
    → IsAllowed cfg (delay_before_retry cfg attempt jitter d)
unfolding delay_before_retry
delay-IsAllowed cfg attempt jitter none h c = inl (omega arith)
delay-IsAllowed cfg attempt jitter (some d) h c = inr c

-- Where the random jitter keeps within its bound, no sleep is longer than the largest back-off with its
-- jitter or than the largest Retry-After that is honored, whatever the server sends.
pub attempts_from-IsAllowed :
    {A : Type 0} (w : World A) (cfg : RetryConfig) (safe : Bool) (left attempt : ℕ)
    (b : CircuitBreaker)
    → ((k : ℕ) → w.jitter k ≤ cfg.jitter)
    → All (IsAllowed cfg) (attempts_from w cfg safe left attempt b).delays
unfolding attempts_from
attempts_from-IsAllowed w cfg safe zero attempt b h = tt
attempts_from-IsAllowed w cfg safe (suc left) attempt b h =
    elim (Decision-cases (decide w.delay_of cfg safe (left == 0) (w.reply attempt))) [
      | inl (o, v, e) ↦ rw (attempts_from, e) tt
      | inr (d, e) ↦
          rw (attempts_from, e)
            (
              delay-IsAllowed cfg attempt (w.jitter attempt) d (h attempt)
                  (decide-Capped w.delay_of cfg safe (left == 0) (w.reply attempt) d e),
              attempts_from-IsAllowed w cfg safe left (attempt + 1) b h,
            )
    ]
