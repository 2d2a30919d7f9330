-- ===== src/Client/Config.antt =====
-- The configuration of the client and `_validate_config`. Amounts of time and numbers of attempts are
-- naturals; the texts of the messages are left out.
use text.Mathlib.Text.{◌==◌ as str_eq, starts_with, find?}
use aethergrid.Base.{
  ℕ, Bool, true, false, not, Option, none, some, List, [], ◌∷◌, ◌++◌, String, ◌≡◌, ◌≤◌, refl, arith,
  ◌==◌, is_some, ltb, ◌&&◌, ◌||◌, if◌then◌else◌,
}
use aethergrid.Domain.Resources.{Duration, seconds}
use aethergrid.Client.Breaker.{CircuitBreaker}

-- `RetryConfig`
pub record RetryConfig : Type 0 where
  pub max_attempts : ℕ
  pub base_delay : Duration
  pub max_delay : Duration
  pub jitter : Duration
  pub retryable_statuses : List ℕ
  pub retryable_methods : List String
  pub max_retry_after : Duration

-- The defaults of `RetryConfig`.
abbrev pub default_retry : RetryConfig
default_retry = record {
  max_attempts = 4;
  base_delay = 500000;
  max_delay = seconds 8;
  jitter = 250000;
  retryable_statuses = 429 ∷ 500 ∷ 502 ∷ 503 ∷ 504 ∷ [];
  retryable_methods = "GET" ∷ "HEAD" ∷ "OPTIONS" ∷ "PUT" ∷ "DELETE" ∷ [];
  max_retry_after = seconds 60;
}

-- `MTLSConfig`
pub record MtlsConfig : Type 0 where
  pub cert_path : String
  pub key_path : String
  pub ca_bundle_path : Option String

-- `OAuth2Config`
pub record OAuth2Config : Type 0 where
  pub token_url : String
  pub client_id : String
  pub client_secret : String
  pub scope : Option String
  pub expiry_skew : Duration

-- `ResilientClientConfig`
pub record ClientConfig : Type 0 where
  pub base_url : String
  pub timeout : Duration
  pub mtls : Option MtlsConfig
  pub oauth2 : Option OAuth2Config
  pub retry : RetryConfig
  pub circuit_breaker : CircuitBreaker
  pub idempotency_header : String

-- One constructor for each message of `_validate_config`.
pub data Problem : Type 0 where
  base_url_required base_url_insecure timeout_not_positive : Problem
  cert_path_not_found key_path_not_found ca_bundle_path_not_found : Problem
  token_url_required client_id_required client_secret_required : Problem
  idempotency_header_empty : Problem
  too_few_attempts base_delay_not_positive max_delay_too_small : Problem
  threshold_too_small reset_timeout_not_positive : Problem

-- What the validation asks of its surroundings: `Path(path).is_file()` and `str.strip()`.
pub record Outside : Type 0 where
  pub is_file : String → Bool
  pub strip : String → String

abbrev pub is_empty : String → Bool
is_empty text = str_eq text ""

-- `part in text`
abbrev pub contains : (text part : String) → Bool
contains text part = is_some (find? text part)

-- `errors.append(problem)` under an `if`.
abbrev pub problem_if : Bool → Problem → List Problem
problem_if true p = p ∷ []
problem_if false p = []

unfoldable pub base_url_problems : String → List Problem
base_url_problems url =
    if is_empty url
    then base_url_required ∷ []
    else problem_if
        (not (starts_with url "https://" || (contains url "localhost" || contains url "127.0.0.1")))
        base_url_insecure

-- `config.mtls.ca_bundle_path and not Path(…).is_file()`
abbrev pub ca_bundle_missing : Outside → Option String → Bool
ca_bundle_missing out none = false
ca_bundle_missing out (some path) = not (is_empty path) && not (out.is_file path)

unfoldable pub mtls_problems : Outside → Option MtlsConfig → List Problem
mtls_problems out none = []
mtls_problems out (some m) =
    problem_if (not (out.is_file m.cert_path)) cert_path_not_found
    ++ (problem_if (not (out.is_file m.key_path)) key_path_not_found
        ++ problem_if (ca_bundle_missing out m.ca_bundle_path) ca_bundle_path_not_found)

unfoldable pub oauth2_problems : Option OAuth2Config → List Problem
oauth2_problems none = []
oauth2_problems (some o) =
    problem_if (is_empty o.token_url) token_url_required
    ++ (problem_if (is_empty o.client_id) client_id_required
        ++ problem_if (is_empty o.client_secret) client_secret_required)

unfoldable pub retry_problems : RetryConfig → List Problem
retry_problems r =
    problem_if (ltb r.max_attempts 1) too_few_attempts
    ++ (problem_if (r.base_delay == 0) base_delay_not_positive
        ++ problem_if (ltb r.max_delay r.base_delay) max_delay_too_small)

unfoldable pub breaker_problems : CircuitBreaker → List Problem
breaker_problems b =
    problem_if (ltb b.failure_threshold 1) threshold_too_small
    ++ problem_if (b.reset_timeout == 0) reset_timeout_not_positive

-- `_validate_config`: the problems in the order of the messages. The constructor raises where there is
-- one.
unfoldable pub validate_config : Outside → ClientConfig → List Problem
unfolding base_url_problems mtls_problems oauth2_problems retry_problems breaker_problems
validate_config out c =
    base_url_problems c.base_url
    ++ (problem_if (c.timeout == 0) timeout_not_positive
        ++ (mtls_problems out c.mtls
            ++ (oauth2_problems c.oauth2
                ++ (problem_if (is_empty (out.strip c.idempotency_header)) idempotency_header_empty
                    ++ (retry_problems c.retry ++ breaker_problems c.circuit_breaker)))))

-- What the request loop relies on.
pub record IsUsable (c : ClientConfig) : Type 0 where
  pub attempts : 1 ≤ c.retry.max_attempts
  pub delay : 1 ≤ c.retry.base_delay
  pub delays : c.retry.base_delay ≤ c.retry.max_delay
  pub threshold : 1 ≤ c.circuit_breaker.failure_threshold
  pub timeout : 1 ≤ c.timeout

append_empty : (xs ys : List Problem) → xs ++ ys ≡ [] → (xs ≡ []) × (ys ≡ [])
append_empty [] ys h = (refl, h)
append_empty (x ∷ xs) ys h = cc

-- A configuration in which `validate_config` finds no problem has at least one attempt, a positive
-- first delay that the largest delay is not below, and a positive threshold and timeout.
pub validate_config-IsUsable :
    (out : Outside) (c : ClientConfig) → validate_config out c ≡ [] → IsUsable c
unfolding validate_config
validate_config-IsUsable out c h =
    let (_, h1) = append_empty (base_url_problems c.base_url) _ h in
    let (t, h2) = append_empty (problem_if (c.timeout == 0) timeout_not_positive) _ h1 in
    let (_, h3) = append_empty (mtls_problems out c.mtls) _ h2 in
    let (_, h4) = append_empty (oauth2_problems c.oauth2) _ h3 in
    let (_, h5) = append_empty (problem_if (is_empty (out.strip c.idempotency_header)) _) _ h4 in
    let (r, b) = append_empty (retry_problems c.retry) _ h5 in ground arith
