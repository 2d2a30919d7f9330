-- ===== src/Client/Breaker.antt =====
-- `CircuitBreaker` of integrations/resilient_client/resilient_api_client.py. The clock is read once for
-- a method.
pub mod Trips
use aethergrid.Base.{ℕ, ◌+◌, Bool, true, false, Option, none, some, leb, ◌&&◌, if◌then◌else◌}
use aethergrid.Domain.Resources.{Time, Duration}

pub data CircuitState : Type 0 where
  closed opened half_open : CircuitState

pub record CircuitBreaker : Type 0 where
  pub failure_threshold : ℕ
  pub reset_timeout : Duration
  pub state : CircuitState
  pub consecutive_failures : ℕ
  pub opened_at : Option Time

-- A breaker as it is constructed.
abbrev pub create : (failure_threshold : ℕ) (reset_timeout : Duration) → CircuitBreaker
create failure_threshold reset_timeout = record {
  failure_threshold = failure_threshold;
  reset_timeout = reset_timeout;
  state = closed;
  consecutive_failures = 0;
  opened_at = none;
}

-- `time.monotonic() - self._opened_at >= self.reset_timeout_s`, moved to the other side.
abbrev pub has_reset : Time → CircuitBreaker → Bool
has_reset now b = elim b.opened_at [ none ↦ false | some at ↦ leb (at + b.reset_timeout) now ]

abbrev pub is_opened : CircuitState → Bool
is_opened opened = true
is_opened _ = false

abbrev pub is_half_open : CircuitState → Bool
is_half_open half_open = true
is_half_open _ = false

-- The property `state`, which moves an open circuit on when its time is up.
unfoldable pub read_state : Time → CircuitBreaker → CircuitBreaker
read_state now b =
    if is_opened b.state && has_reset now b then record b { state = half_open } else b

-- `before_call`: whether the call is let through, and the breaker as it then is.
unfoldable pub before_call : Time → CircuitBreaker → Bool × CircuitBreaker
unfolding read_state
before_call now b = let b' = read_state now b in (if is_opened b'.state then false else true, b')

unfoldable pub on_success : CircuitBreaker → CircuitBreaker
on_success b = record b { state = closed; consecutive_failures = 0; opened_at = none }

-- `_trip`
unfoldable pub trip : Time → CircuitBreaker → CircuitBreaker
trip now b = record b { state = opened; opened_at = some now }

unfoldable pub on_failure : Time → CircuitBreaker → CircuitBreaker
unfolding read_state trip
on_failure now b =
    let b' = read_state now (record b { consecutive_failures = b.consecutive_failures + 1 }) in
    if is_half_open b'.state
    then trip now b'
    else if leb b'.failure_threshold b'.consecutive_failures
    then trip now b'
    else b'
