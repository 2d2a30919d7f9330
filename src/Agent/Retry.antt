-- ===== src/Agent/Retry.antt =====
-- scripts/run_agent.py: which failures are retried, and how long the agent waits between two attempts.
-- Python's `float` of a header and what `random` draws are parameters.
pub mod Delays
use Prim.Native.Nat.{max}
use aethergrid.Base.{
  ℕ, suc, ◌+◌, ◌*◌, ◌^◌, min, Bool, true, false, not, ◌&&◌, ◌||◌, Option, none, some, List, [], ◌∷◌,
  String, ℤ, pos, negsuc, leb, ltb, ◌==◌, if◌then◌else◌, ◌≡◌, ◌⊎◌, inl, inr, refl,
}
use aethergrid.Domain.Resources.{Duration, seconds}

-- The exceptions of httpx: HTTPStatusError with the status and the Retry-After header of its response,
-- TransportError, and the other ones below HTTPError.
pub data HttpError : Type 0 where
  status_error : (status : ℕ) (retry_after : Option String) → HttpError
  transport_error other_error : HttpError

-- A back-off in seconds: a float, which may be infinite.
pub data Delay : Type 0 where
  lasting : Duration → Delay
  endless : Delay

-- What a call returns or raises; `unreadable` is an exception outside httpx, ValueError or KeyError, on a body that
-- is no JSON or lacks a field.
pub data Answer (A : Type 0) : Type 0 where
  returned : A → Answer A
  raised : HttpError → Answer A
  unreadable : Answer A

pub Answer-cases :
    {A : Type 0} (r : Answer A)
    → ((e : HttpError) × (r ≡ raised e)) ⊎ ((a : A) × (r ≡ returned a)) ⊎ (r ≡ unreadable)
Answer-cases (raised e) = inl (e, refl)
Answer-cases (returned a) = inr (inl (a, refl))
Answer-cases unreadable = inr (inr refl)

-- What `client.get` and `client.post` do: no response, or one with its status, header and body.
pub data Reply (A : Type 0) : Type 0 where
  failed : HttpError → Reply A
  answered : (status : ℕ) (retry_after : Option String) (body : A) → Reply A

-- `Response.raise_for_status`
abbrev pub is_success : ℕ → Bool
is_success status = leb 200 status && ltb status 300

-- `post` or `get`, `raise_for_status`, and what is read of the body.
unfoldable pub read_reply : {A : Type 0} → Reply A → Answer A
read_reply (failed e) = raised e
read_reply (answered status retry_after body) =
    if is_success status then returned body else raised (status_error status retry_after)

-- What the reading of a body gives: `none` where it raises.
abbrev pub read_body : {A : Type 0} → Answer (Option A) → Answer A
read_body (returned none) = unreadable
read_body (returned (some a)) = returned a
read_body (raised e) = raised e
read_body unreadable = unreadable

unfoldable pub is_transient : HttpError → Bool
is_transient (status_error status _) = status == 429 || leb 500 status
is_transient transport_error = true
is_transient other_error = false

unfoldable pub is_stale_view : HttpError → Bool
is_stale_view (status_error status _) = status == 404 || status == 409
is_stale_view _ = false

abbrev pub backoff_base : Duration
backoff_base = seconds 1

abbrev pub backoff_cap : Duration
backoff_cap = seconds 30

abbrev pub max_backoff_exponent : ℕ
max_backoff_exponent = 10

-- A float, where it is finite as a number of microseconds.
pub data Number : Type 0 where
  finite : ℤ → Number
  infinity minus_infinity not_a_number : Number

-- `value if value >= 0.0 else None`
abbrev pub not_negative : Option Number → Option Delay
not_negative (some (finite (pos n))) = some (lasting n)
not_negative (some infinity) = some endless
not_negative _ = none

-- `float` reads a header, and `none` where it raises ValueError.
module _ (float : String → Option Number) where
  unfoldable pub retry_after_seconds : HttpError → Option Delay
  retry_after_seconds (status_error _ (some raw)) = not_negative (float raw)
  retry_after_seconds _ = none

-- `max(jittered, retry_after or 0.0)`
abbrev pub longer : Duration → Option Delay → Delay
longer d none = lasting d
longer d (some (lasting r)) = lasting (max d r)
longer d (some endless) = endless

-- The bound of the random delay before retry number `attempt`.
unfoldable pub ceiling_of : (attempt : ℕ) → Duration
ceiling_of attempt = min backoff_cap (backoff_base * 2 ^ min attempt max_backoff_exponent)

-- `draw` is `rng.uniform` from 0.
unfoldable pub backoff_delay_seconds :
    (draw : Duration → Duration) → (attempt : ℕ) → Option Delay → Delay
unfolding ceiling_of
backoff_delay_seconds draw attempt retry_after = longer (draw (ceiling_of attempt)) retry_after

-- `time.sleep`, which refuses a delay past `longest`.
unfoldable pub sleep : (longest : Duration) → Delay → Option Duration
sleep longest (lasting d) = if leb d longest then some d else none
sleep longest endless = none

-- The end of a retried call: the last answer, or the OverflowError of `time.sleep` on a delay.
pub data End (A : Type 0) : Type 0 where
  ended : Answer A → End A
  overflow : Delay → End A

-- What a retried call slept, and how it ended: `none` where it is still trying
-- at the end of the list of what its attempts meet.
pub record Calls (A : Type 0) : Type 0 where
  pub slept : List Duration
  pub answer : Option (End A)

module _ (float : String → Option Number) (longest : Duration) (draws : ℕ → Duration → Duration)
    {A : Type 0} where
  -- A transient failure: the sleep, and the rest of the loop behind it.
  abbrev pub after_sleep : Delay → Option Duration → Calls A → Calls A
  after_sleep delay none rest = record { slept = []; answer = some (overflow delay) }
  after_sleep delay (some d) rest = record rest { slept = d ∷ rest.slept }

  -- The loop of `call_with_retry` from an attempt on.
  unfoldable pub attempts_from : (attempt : ℕ) → List (Answer A) → Calls A
  attempts_from attempt [] = record { slept = []; answer = none }
  attempts_from attempt (returned a ∷ _) = record { slept = []; answer = some (ended (returned a)) }
  attempts_from attempt (unreadable ∷ _) = record { slept = []; answer = some (ended unreadable) }
  attempts_from attempt (raised e ∷ answers) =
      let rest : Calls A = attempts_from (suc attempt) answers in
      let delay : Delay =
        backoff_delay_seconds (draws attempt) attempt (retry_after_seconds float e) in
      if not (is_transient e)
      then record { slept = []; answer = some (ended (raised e)) }
      else after_sleep delay (sleep longest delay) rest

  unfoldable pub call_with_retry : List (Answer A) → Calls A
  unfolding attempts_from
  call_with_retry answers = attempts_from 0 answers
