-- ===== src/Access/RateLimiter.antt =====
-- app/application/services/rate_limiter_service.py. The lock makes each check one step.
pub mod Limits
pub mod Burst
use aethergrid.Base.{
  ℕ, Bool, Option, none, some, List, [], ◌∷◌, ◌==◌, if◌then◌else◌, Result, ok, raise, value_error,
}

-- Python's floats, with the operations that the limiter calls.
pub record Float : Type 1 where
  pub Num : Type 0
  pub of_nat : ℕ → Num
  pub add : Num → Num → Num
  pub sub : Num → Num → Num
  pub mul : Num → Num → Num
  pub div : Num → Num → Num
  pub lt : Num → Num → Bool

module _ (F : Float) where
  open F use {Num, of_nat, add, sub, mul, div, lt}

  pub record Bucket : Type 0 where
    pub tokens : Num
    pub last_refilled_at : Num

  -- The limiter, with its buckets by the identifier of the key.
  pub record RateLimiter : Type 0 where
    pub capacity : ℕ
    pub refill_rate_per_second : Num
    pub buckets : List (ℕ × Bucket)

  -- `RateLimiterService.__init__`
  unfoldable pub create : (capacity : ℕ) → (refill_rate_per_second : Num) → Result RateLimiter
  create capacity rate =
      if capacity == 0
      then raise value_error
      else if lt (of_nat 0) rate
      then ok (record { capacity = capacity; refill_rate_per_second = rate; buckets = [] })
      else raise value_error

  -- `self._buckets.get(api_key_id)`
  unfoldable pub get : ℕ → List (ℕ × Bucket) → Option Bucket
  get id [] = none
  get id ((k, b) ∷ bs) = if k == id then some b else get id bs

  -- The bucket of a key as it is from now on.
  unfoldable pub put : ℕ → Bucket → List (ℕ × Bucket) → List (ℕ × Bucket)
  put id b [] = (id, b) ∷ []
  put id b ((k, c) ∷ bs) = if k == id then (k, b) ∷ bs else (k, c) ∷ put id b bs

  -- `min(a, b)`
  abbrev pub min_of : Num → Num → Num
  min_of a b = if lt b a then b else a

  -- The bucket that a check starts from: a full one where the key has none.
  abbrev pub bucket_or_full : (capacity : ℕ) → (now : Num) → Option Bucket → Bucket
  bucket_or_full capacity now (some b) = b
  bucket_or_full capacity now none = record { tokens = of_nat capacity; last_refilled_at = now }

  unfoldable pub refill : (capacity : ℕ) → (rate now : Num) → Bucket → Bucket
  refill capacity rate now b = record {
    tokens = min_of (of_nat capacity) (add b.tokens (mul (sub now b.last_refilled_at) rate));
    last_refilled_at = now;
  }

  -- The bucket after a check: `none` where it passes, and otherwise the seconds to wait.
  unfoldable pub take_token : (rate : Num) → Bucket → Option Num × Bucket
  take_token rate b =
      if lt b.tokens (of_nat 1)
      then (some (div (sub (of_nat 1) b.tokens) rate), b)
      else (none, record b { tokens = sub b.tokens (of_nat 1) })

  -- `check`, at the instant `now`. `some` stands for RateLimitExceededError with its seconds.
  unfoldable pub check : (now : Num) → (api_key_id : ℕ) → RateLimiter → Option Num × RateLimiter
  unfolding refill take_token get put
  check now id l =
      let (answer, b) = take_token l.refill_rate_per_second (
        refill l.capacity l.refill_rate_per_second now
          (bucket_or_full l.capacity now (get id l.buckets))) in
      (answer, record l { buckets = put id b l.buckets })
