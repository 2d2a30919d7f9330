-- ===== src/Client/Breaker/Trips.antt =====
-- When the circuit breaker lets a call through.
use aethergrid.Base.{
  ℕ, ◌+◌, ◌≤◌, ◌<◌, ◌≡◌, refl, Bool, Option, none, some, List, [], ◌∷◌, map, length, ◌⊎◌, arith,
  ltb, if◌then◌else◌, Bool-cases, inl, inr,
}
use aethergrid.Domain.Resources.{Time, Duration}
use aethergrid.Client.Breaker.{
  CircuitState, closed, opened, CircuitBreaker, create, before_call, on_success, on_failure,
}

-- What is done with a breaker: a call asks to be let through, or one that was let through has ended.
pub data Event : Type 0 where
  asks succeeds fails : (now : Time) → Event

unfoldable pub apply : Event → CircuitBreaker → CircuitBreaker
unfolding before_call on_success on_failure
apply (asks now) b = (before_call now b).1
apply (succeeds now) b = on_success b
apply (fails now) b = on_failure now b

unfoldable pub run : List Event → CircuitBreaker → CircuitBreaker
unfolding apply
run [] b = b
run (e ∷ es) b = run es (apply e b)

-- A closed circuit is below its threshold and has no time of opening; any other has reached the
-- threshold and has one.
abbrev Sound : CircuitState → Option Time → (failures threshold : ℕ) → Type 0
Sound closed none failures threshold = failures < threshold
Sound closed (some _) _ _ = ⊥
Sound _ none _ _ = ⊥
Sound _ (some _) failures threshold = threshold ≤ failures

pub record IsSound (b : CircuitBreaker) : Type 0 where
  pub counted : Sound b.state b.opened_at b.consecutive_failures b.failure_threshold
  pub positive : 0 < b.failure_threshold

apply-IsSound : (e : Event) (b : CircuitBreaker) → IsSound b → IsSound (apply e b)
unfolding apply
apply-IsSound (asks now) b h = ground arith
apply-IsSound (succeeds now) b h = ground arith
apply-IsSound (fails now) b h = ground arith

-- Whatever calls ask, succeed or fail, and whenever, a breaker with a positive threshold that is sound
-- stays so: it is closed exactly where fewer consecutive failures than its threshold are counted, and
-- has a time of opening exactly where it is not closed.
pub run-IsSound : (es : List Event) (b : CircuitBreaker) → IsSound b → IsSound (run es b)
unfolding run
run-IsSound [] b h = h
run-IsSound (e ∷ es) b h = run-IsSound es (apply e b) (apply-IsSound e b h)

-- Calls that ask to be let through one after the other: the answers, and the breaker in the end.
unfoldable pub ask_all : List Time → CircuitBreaker → List Bool × CircuitBreaker
unfolding before_call
ask_all [] b = ([], b)
ask_all (now ∷ nows) b =
    let (answer, b') = before_call now b in
    let (answers, b'') = ask_all nows b' in (answer ∷ answers, b'')

fail_opened :
    (now : Time) (b : CircuitBreaker)
    → b.state ≡ opened
    → b.failure_threshold ≤ b.consecutive_failures
    → ((on_failure now b).state ≡ opened)
      × ((on_failure now b).failure_threshold ≤ (on_failure now b).consecutive_failures)
unfolding on_failure
fail_opened now b s c = ground arith

stays_opened :
    (nows : List Time) (b : CircuitBreaker)
    → b.state ≡ opened
    → b.failure_threshold ≤ b.consecutive_failures
    → (run (map fails nows) b).state ≡ opened
unfolding run
stays_opened [] b s c = s
stays_opened (now ∷ nows) b s c =
    let (s', c') = fail_opened now b s c in stays_opened nows (on_failure now b) s' c'

fail_below :
    (now : Time) (b : CircuitBreaker)
    → b.state ≡ closed
    → b.consecutive_failures + 1 < b.failure_threshold
    → ((on_failure now b).state ≡ closed)
      × ((on_failure now b).consecutive_failures ≡ b.consecutive_failures + 1)
      × ((on_failure now b).failure_threshold ≡ b.failure_threshold)
unfolding on_failure
fail_below now b s c = ground arith

fail_reaches :
    (now : Time) (b : CircuitBreaker)
    → b.state ≡ closed
    → b.failure_threshold ≤ b.consecutive_failures + 1
    → ((on_failure now b).state ≡ opened)
      × ((on_failure now b).failure_threshold ≤ (on_failure now b).consecutive_failures)
unfolding on_failure
fail_reaches now b s c = ground arith

-- The failures that end one after the other, on a closed circuit.
fail_all :
    (nows : List Time) (b : CircuitBreaker)
    → b.state ≡ closed
    → b.consecutive_failures < b.failure_threshold
    → (run (map fails nows) b).state
      ≡ (if ltb (b.consecutive_failures + length nows) b.failure_threshold then closed else opened)
unfolding run
fail_all [] b s c = ground arith
fail_all (now ∷ nows) b s c =
    elim (Bool-cases (ltb (b.consecutive_failures + 1) b.failure_threshold)) [
      | inl below ↦
          let (s', n, t) = fail_below now b s (ground arith) in
          ground (arith, fail_all nows (on_failure now b) s' (ground (arith, n, t)), n, t)
      | inr reached ↦
          let (s', c') = fail_reaches now b s (ground arith) in
          ground (arith, stays_opened nows (on_failure now b) s' c')
    ]

-- Calls that fail one after the other open a new breaker as soon as there are `failure_threshold` of
-- them, and not before.
pub create-fail_all :
    (threshold : ℕ) (timeout : Duration) (nows : List Time)
    → 0 < threshold
    → (run (map fails nows) (create threshold timeout)).state
      ≡ (if ltb (length nows) threshold then closed else opened)
create-fail_all threshold timeout nows pos =
    ground (arith, fail_all nows (create threshold timeout) refl pos)

-- A circuit that tripped at an instant.
pub record IsTripped (at threshold : ℕ) (timeout : Duration) (b : CircuitBreaker) : Type 0 where
  pub state : b.state ≡ opened
  pub since : b.opened_at ≡ some at
  pub counted : threshold ≤ b.consecutive_failures
  pub limit : b.failure_threshold ≡ threshold
  pub lasts : b.reset_timeout ≡ timeout

-- A circuit that has counted failures, and is not half open.
record HasCounted (n threshold : ℕ) (timeout : Duration) (b : CircuitBreaker) : Type 0 where
  state : (b.state ≡ closed) ⊎ (b.state ≡ opened)
  counted : b.consecutive_failures ≡ n
  limit : b.failure_threshold ≡ threshold
  lasts : b.reset_timeout ≡ timeout

-- What the calls that ask are told, in a sequence of calls that ask and that end.
unfoldable pub answers : List Event → CircuitBreaker → List Bool
unfolding apply
answers [] b = []
answers (asks now ∷ es) b = (before_call now b).0 ∷ answers es (apply (asks now) b)
answers (e ∷ es) b = answers es (apply e b)

-- A call that asks, or that fails, from one instant on and before another one.
abbrev pub IsDuring : (from end : Time) → Event → Type 0
IsDuring from end (asks now) = now < end
IsDuring from end (fails now) = (from ≤ now) × (now < end)
IsDuring from end (succeeds now) = ⊥
