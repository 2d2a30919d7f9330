-- ===== src/Tests/Callers.antt =====
-- Keys, tenants and the limiter at work: two tenants, a key that manages keys, and a key that it issues.
use aethergrid.Base.{
  ℕ, ◌+◌, ◌-◌, ◌*◌, ◌/◌, ◌≡◌, ◌≢◌, refl, ltb, none, some, List, [], ◌∷◌, arith, ok,
}
use aethergrid.Access.ApiKey
use aethergrid.Access.ApiKey.{ApiKey, Secrets, keys_manage}
use aethergrid.Access.Tenant.{Tenant}
use aethergrid.Access.Keys
use aethergrid.Access.Keys.{Credentials}
use aethergrid.Access.Calls.{create_api_key, authenticate, revoke_api_key}
use aethergrid.Access.Calls.Issuance.{IssueOutcome, create_api_key-Outcome}
use aethergrid.Access.Calls.Acceptance.{authenticate-create_api_key}
use aethergrid.Access.Calls.Histories.{Call, creates, authenticates, run, revoke_api_key-final}
use aethergrid.Access.RateLimiter.{Float, RateLimiter, create}
use aethergrid.Access.RateLimiter.Burst.{burst, first_pass, create-burst}
use aethergrid.Routes.Keys.{revoke_api_key_route}
use aethergrid.Routes.Keys.Answers.{RevokeAnswer, revoke_api_key_route-Answer}

abbrev secrets : Secrets
secrets = record { strip = λ s. s; hash_secret = λ s. s; raw_key = "drawn" }

abbrev manager : ApiKey
manager = record {
  id = 1;
  key_hash = "manager";
  label = "manager";
  created_at = 10;
  tenant_id = 7;
  revoked_at = none;
  last_used_at = none;
  scopes = keys_manage ∷ [];
  issued_by = none;
}

abbrev child : ApiKey
child = record {
  id = 2;
  key_hash = "drawn";
  label = "child";
  created_at = 20;
  tenant_id = 7;
  revoked_at = none;
  last_used_at = none;
  scopes = [];
  issued_by = some 1;
}

abbrev tenants : List Tenant
tenants =
    record { id = 7; name = "seven"; created_at = 1 }
    ∷ record { id = 8; name = "eight"; created_at = 2 }
    ∷ []

abbrev start : Credentials
start = record { tenants = tenants; keys = manager ∷ [] }

abbrev pub issued : Credentials
issued = record { tenants = tenants; keys = manager ∷ child ∷ [] }

abbrev revoked : Credentials
revoked = record { tenants = tenants; keys = manager ∷ record child { revoked_at = some 30 } ∷ [] }

create_api_key-Outcome_example :
    IssueOutcome secrets 2 []
      (some manager)
      none
      start
      (create_api_key secrets 2 20 "child" [] (some manager) none start)
create_api_key-Outcome_example =
    create_api_key-Outcome secrets 2 20 "child" [] (some manager) none start refl

create_run : create_api_key secrets 2 20 "child" [] (some manager) none start ≡ (ok child, issued)
unfolding create_api_key ApiKey.issue_child Keys.save
create_run = refl

authenticate-create_api_key_example :
    (authenticate secrets.hash_secret 40 secrets.raw_key issued).0 ≡ ok child
authenticate-create_api_key_example =
    authenticate-create_api_key secrets 2 20 40 "child" [] (some manager) none start issued child
      refl refl create_run

revoke_api_key_route-Answer_example :
    RevokeAnswer 30 (some 2) manager issued (revoke_api_key_route 30 (some 2) manager issued)
revoke_api_key_route-Answer_example = revoke_api_key_route-Answer 30 (some 2) manager issued

abbrev later_calls : List Call
later_calls =
    authenticates (λ s. s) 35 "manager" ∷ creates secrets 3 36 "next" [] (some manager) none ∷ []

revoke_api_key-final_example : manager.id ≢ 2
unfolding revoke_api_key run authenticate ApiKey.authorize_key_revocation ApiKey.revoke Keys.save
    Keys.mark_used create_api_key ApiKey.issue_child Keys.get_by_id Keys.get_by_hash_across_tenants
revoke_api_key-final_example =
    revoke_api_key-final 30 50 2 manager issued revoked later_calls (λ s. s) "manager"
      (record manager { last_used_at = some 35 }) (((λ e. ground arith), tt), (tt, tt)) refl
      (tt, ((λ e. ground arith), tt)) refl

-- Numbers that are exact.
abbrev pub exact : Float
exact = record {
  Num = ℕ;
  of_nat = λ n. n;
  add = λ a b. a + b;
  sub = λ a b. a - b;
  mul = λ a b. a * b;
  div = λ a b. a / b;
  lt = ltb;
}

abbrev pub limiter : RateLimiter exact
limiter = record { capacity = 3; refill_rate_per_second = 2; buckets = [] }

create-burst_example : burst exact 5 1 5 limiter ≡ first_pass exact 3 5
unfolding create
create-burst_example =
    create-burst exact 3 2 5 limiter 1 5
      (record {
        no_time = refl;
        add_zero = λ n h. omega arith;
        sub_one = λ n h. omega arith;
        lt_nat = λ m n h k. refl;
      })
      refl

-- The key of an agent, in the tenant of the test clusters.
abbrev pub agent_key : ApiKey
agent_key = record child { tenant_id = 1 }
