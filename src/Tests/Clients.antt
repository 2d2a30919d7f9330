-- ===== src/Tests/Clients.antt =====
-- Calls of the resilient client.
use aethergrid.Base.{
  ℕ, ◌+◌, ◌≡◌, refl, true, none, some, [], ◌∷◌, length, All, ltb, if◌then◌else◌, arith, pos,
}
use aethergrid.Domain.Resources.{seconds}
use aethergrid.Client.Breaker.{CircuitBreaker, opened, create}
use aethergrid.Client.Breaker.Trips.{ask_all}
use aethergrid.Client.Config.{default_retry, ClientConfig, Outside}
use aethergrid.Client.Token.{TokenReply}
use aethergrid.Client.Request.{
  Reply, Content, Failure, raised, World, Client, attempts_from, request,
}
use aethergrid.Client.Request.Delays.{IsAllowed, attempts_from-IsAllowed}

abbrev breaker : CircuitBreaker
breaker = create 2 100

abbrev tripped : CircuitBreaker
tripped = record breaker { state = opened; consecutive_failures = 2; opened_at = some 20 }

-- Once the timeout has passed, calls are let through, and more than one.
let_through_twice : (ask_all (120 ∷ 121 ∷ []) tripped).0 ≡ true ∷ true ∷ []
unfolding ask_all
let_through_twice = refl

abbrev config : ClientConfig
config = record {
  base_url = "https://api.example-partner.com";
  timeout = seconds 10;
  mtls = none;
  oauth2 = none;
  retry = default_retry;
  circuit_breaker = breaker;
  idempotency_header = "Idempotency-Key";
}

abbrev outside : Outside
outside = record { is_file = λ path. true; strip = λ text. text }

-- A connection that is refused, then a server error.
abbrev failing : World ℕ
failing = record {
  reply = λ k. if ltb k 2 then Reply.never_sent else Reply.answered 503 (some "3") Content.empty;
  now = λ k. 1000 + k;
  jitter = λ k. 0;
  delay_of = λ text. some (pos 3000000);
}

abbrev client : Client
client = record { config = config; breaker = breaker; token = record { value = none; expiry = 0 } }

-- The POST is sent again after the refused connection, and not after the 503.
post_run :
    (request failing (λ m. m) 0 TokenReply.unavailable "POST" none client).0.outcome
    ≡ raised (Failure.server_error 503 true)
unfolding request
post_run = refl

-- The GET is sent four times.
get_run : length (request failing (λ m. m) 0 TokenReply.unavailable "GET" none client).0.replies ≡ 4
unfolding request
get_run = refl

attempts_from-IsAllowed_example :
    All (IsAllowed default_retry) (attempts_from failing default_retry true 4 1 breaker).delays
attempts_from-IsAllowed_example =
    attempts_from-IsAllowed failing default_retry true 4 1 breaker (λ k. omega arith)
