-- ===== src/Client/Request.antt =====
-- `_request` of integrations/resilient_client/resilient_api_client.py: one call with its retries. The
-- log and the texts of the messages are left out.
pub mod Attempts
pub mod Replay
pub mod Delays
use text.Mathlib.Text.{◌==◌ as str_eq}
use aethergrid.Base.{
  ℕ, zero, suc, ◌+◌, ◌-◌, ◌*◌, ◌^◌, min, Bool, true, false, not, Option, none, some, is_some, List,
  [], ◌∷◌, String, ℤ, pos, negsuc, ltb, ◌==◌, ◌&&◌, ◌||◌, any, if◌then◌else◌,
}
use aethergrid.Domain.Resources.{Time, Duration}
use aethergrid.Client.Breaker.{CircuitBreaker, before_call, on_success, on_failure}
use aethergrid.Client.Config.{RetryConfig, OAuth2Config, ClientConfig}
use aethergrid.Client.Token.{Token, TokenReply, get_access_token}

module _ (A : Type 0) where
  -- The body of a response: `resp.json()`, where there is one.
  pub data Content : Type 0 where
    empty not_json : Content
    json : A → Content

  -- What `self._http.request` does: an error of _REQUEST_NEVER_SENT, any other TransportError, an
  -- exception outside TransportError, or a response with its status and its Retry-After header.
  pub data Reply : Type 0 where
    never_sent broken other_error : Reply
    answered : (status : ℕ) (retry_after : Option String) (content : Content) → Reply

-- The exceptions of the client, and those of httpx and of `json` that go through it.
pub data Failure : Type 0 where
  circuit_open auth_error http_error invalid_json : Failure
  client_error : (status : ℕ) → Failure
  rate_limit_error : (retry_after : Option Duration) → Failure
  server_error : (status : ℕ) (outcome_unknown : Bool) → Failure
  retry_exhausted : (outcome_unknown : Bool) → Failure

pub data Outcome (A : Type 0) : Type 0 where
  returned : Option A → Outcome A
  raised : Failure → Outcome A

-- `max(0.0, min(seconds, max_retry_after_s))`
abbrev pub clamp : Duration → ℤ → Duration
clamp most (pos n) = min n most
clamp most (negsuc n) = 0

-- `_parse_retry_after`. `delay_of` is the number of the header, or the time to its date from now, and
-- `none` where it is neither.
unfoldable pub parse_retry_after :
    (delay_of : String → Option ℤ) → Duration → Option String → Option Duration
parse_retry_after delay_of most none = none
parse_retry_after delay_of most (some raw) =
    if str_eq raw ""
    then none
    else elim (delay_of raw) [ none ↦ none | some d ↦ some (clamp most d) ]

-- The time that `_sleep_before_retry` sleeps. `jitter` is what `random.uniform` returns.
unfoldable pub delay_before_retry :
    RetryConfig → ℕ → (jitter : Duration) → Option Duration → Duration
delay_before_retry cfg attempt jitter (some retry_after) = retry_after
delay_before_retry cfg attempt jitter none =
    min (cfg.base_delay * 2 ^ (attempt - 1)) cfg.max_delay + jitter

-- Whether the status is in `retryable_statuses`.
abbrev pub is_retryable : RetryConfig → ℕ → Bool
is_retryable cfg status = any (λ s. s == status) cfg.retryable_statuses

-- What the loop does with a reply: leave with an outcome, and what the breaker is told, or sleep.
pub data Verdict : Type 0 where
  succeeded failed untouched : Verdict

pub data Decision (A : Type 0) : Type 0 where
  stops : Outcome A → Verdict → Decision A
  retries : (retry_after : Option Duration) → Decision A

-- `resp.json() if resp.content else None`
abbrev pub decode : {A : Type 0} → Content A → Outcome A
decode empty = returned none
decode not_json = raised invalid_json
decode (json a) = returned (some a)

-- The test `is_last_attempt or outcome_unknown` with its two branches.
abbrev pub give_up_or_retry : {A : Type 0} (stop : Bool) → Failure → Option Duration → Decision A
give_up_or_retry stop failure retry_after =
    if stop then stops (raised failure) failed else retries retry_after

module _ {A : Type 0} (delay_of : String → Option ℤ) (cfg : RetryConfig) (replay_safe : Bool) where
  -- A status of 400 or more.
  unfoldable pub decide_refusal : (is_last : Bool) → (status : ℕ) → Option String → Decision A
  unfolding parse_retry_after
  decide_refusal is_last status header =
      if not (is_retryable cfg status)
      then stops (raised (client_error status)) untouched
      else let retry_after = parse_retry_after delay_of cfg.max_retry_after header in
        let outcome_unknown = not (status == 429) && not replay_safe in
        give_up_or_retry (is_last || outcome_unknown)
          (if status == 429
            then rate_limit_error retry_after
            else server_error status outcome_unknown)
          retry_after

  -- The body of the loop.
  unfoldable pub decide : (is_last : Bool) → Reply A → Decision A
  unfolding decide_refusal
  decide is_last never_sent = give_up_or_retry is_last (retry_exhausted false) none
  decide is_last broken =
      give_up_or_retry (is_last || not replay_safe) (retry_exhausted (not replay_safe)) none
  decide is_last other_error = stops (raised http_error) untouched
  decide is_last (answered status header content) =
      if ltb status 400
      then stops (decode content) succeeded
      else decide_refusal is_last status header

-- What one call takes from outside: the reply to each attempt, the instant after it, the jitter.
pub record World (A : Type 0) : Type 0 where
  pub reply : (attempt : ℕ) → Reply A
  pub now : (attempt : ℕ) → Time
  pub jitter : (attempt : ℕ) → Duration
  pub delay_of : String → Option ℤ

-- How a call ended: its outcome, the breaker, the replies it saw and the times it slept, in order.
pub record Run (A : Type 0) : Type 0 where
  pub outcome : Outcome A
  pub breaker : CircuitBreaker
  pub replies : List (Reply A)
  pub delays : List Duration

unfoldable pub tell : Verdict → Time → CircuitBreaker → CircuitBreaker
unfolding on_success on_failure
tell succeeded now b = on_success b
tell failed now b = on_failure now b
tell untouched now b = b

module _ {A : Type 0} (w : World A) (cfg : RetryConfig) (replay_safe : Bool) where
  -- The loop from `attempt` on, with `left` attempts left. The last line of `_request` stands for the
  -- loop that is used up.
  unfoldable pub attempts_from : (left attempt : ℕ) → CircuitBreaker → Run A
  unfolding decide tell delay_before_retry
  attempts_from zero attempt b = record {
    outcome = raised (retry_exhausted false);
    breaker = b;
    replies = [];
    delays = [];
  }
  attempts_from (suc left) attempt b =
      let reply = w.reply attempt in
      elim (decide w.delay_of cfg replay_safe (left == 0) reply) [
        | stops outcome verdict ↦ record {
          outcome = outcome;
          breaker = tell verdict (w.now attempt) b;
          replies = reply ∷ [];
          delays = [];
        }
        | retries retry_after ↦
            let rest = attempts_from left (attempt + 1) b in
            record rest {
              replies = reply ∷ rest.replies;
              delays = delay_before_retry cfg attempt (w.jitter attempt) retry_after ∷ rest.delays;
            }
      ]

-- `idempotency_key is not None or method.upper() in {…}`. `upper` is `str.upper`.
unfoldable pub is_replay_safe :
    (upper : String → String) → RetryConfig → String → Option String → Bool
is_replay_safe upper cfg method key =
    is_some key || any (λ m. str_eq (upper m) (upper method)) cfg.retryable_methods

-- The client between two calls.
pub record Client : Type 0 where
  pub config : ClientConfig
  pub breaker : CircuitBreaker
  pub token : Token

-- The token that the Authorization header needs, where OAuth2 is configured.
unfoldable pub authorize : Option OAuth2Config → Time → TokenReply → Token → Option Token
unfolding get_access_token
authorize none now reply token = some token
authorize (some oauth) now reply token = get_access_token oauth now reply token

-- A call that ends before its first attempt.
abbrev pub stopped : {A : Type 0} → Failure → CircuitBreaker → Client → Run A × Client
stopped f b client = (
  record { outcome = raised f; breaker = b; replies = []; delays = [] },
  record client { breaker = b },
)

-- `_request`: the breaker is asked, then the token is fetched, then the attempts are made.
unfoldable pub request :
    {A : Type 0}
    → World A
    → (upper : String → String) → (started : Time) → TokenReply
    → (method : String) (idempotency_key : Option String) → Client
    → Run A × Client
unfolding before_call authorize attempts_from is_replay_safe
request w upper started reply method key client =
    let (let_through, b) = before_call started client.breaker in
    if not let_through
    then stopped circuit_open b client
    else elim (authorize client.config.oauth2 started reply client.token) [
      | none ↦ stopped auth_error b client
      | some token ↦
          let cfg = client.config.retry in
          let run =
            attempts_from w cfg (is_replay_safe upper cfg method key) cfg.max_attempts 1 b in
          (run, record client { breaker = run.breaker; token = token })
    ]
