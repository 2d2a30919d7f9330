-- ===== src/Access/RateLimiter/Burst.antt =====
-- How many calls at one instant the limiter lets through.
use aethergrid.Base.{
  ℕ, zero, suc, ◌≤◌, ◌<◌, ◌≡◌, refl, sym, ap, subst, ◌∙◌, Bool, true, false, not, ltb, is_some,
  List, [], ◌∷◌, ◌==◌, arith, ok, inl, inr, Bool-cases,
}
use aethergrid.Access.RateLimiter.{
  Float, Bucket, RateLimiter, create, get, put, bucket_or_full, refill, take_token, check,
}
use aethergrid.Access.RateLimiter.Limits.{get-put}

module _ (F : Float) where
  open F use {Num, of_nat, add, sub, mul, div, lt}

  -- What the limiter relies on for the numbers up to a capacity, which floats represent exactly.
  pub record IsExact (capacity : ℕ) (rate now : Num) : Type 0 where
    pub no_time : mul (sub now now) rate ≡ of_nat 0
    pub add_zero : (n : ℕ) → n ≤ capacity → add (of_nat n) (of_nat 0) ≡ of_nat n
    pub sub_one : (n : ℕ) → n < capacity → sub (of_nat (suc n)) (of_nat 1) ≡ of_nat n
    pub lt_nat : (m n : ℕ) → m ≤ capacity → n ≤ capacity → lt (of_nat m) (of_nat n) ≡ ltb m n

  -- Checks of one key at one instant, one after the other: which of them pass.
  unfoldable pub burst : (now : Num) → ℕ → (calls : ℕ) → RateLimiter F → List Bool
  burst now id zero l = []
  burst now id (suc n) l = not (is_some (check F now id l).0) ∷ burst now id n (check F now id l).1

  -- The first calls up to a number pass and the others do not.
  unfoldable pub first_pass : (allowed calls : ℕ) → List Bool
  first_pass allowed zero = []
  first_pass zero (suc n) = false ∷ first_pass zero n
  first_pass (suc m) (suc n) = true ∷ first_pass m n

  record HasTokens (now : Num) (id n : ℕ) (l : RateLimiter F) : Type 0 where
    tokens :
        bucket_or_full F l.capacity now (get F id l.buckets)
        ≡ record { tokens = of_nat n; last_refilled_at = now }
    room : n ≤ l.capacity
    positive : 0 < l.capacity

  abbrev holding : (now : Num) (n : ℕ) → Bucket F
  holding now n = record { tokens = of_nat n; last_refilled_at = now }

  refill-exact :
      (capacity : ℕ) (rate now : Num) (n : ℕ)
      → IsExact capacity rate now
      → n ≤ capacity
      → refill F capacity rate now (holding now n) ≡ holding now n
  unfolding refill
  refill-exact capacity rate now n x le = elim (Bool-cases (ltb n capacity)) [
    | inl e ↦
        let under : lt (of_nat n) (of_nat capacity) ≡ true =
          x.lt_nat n capacity le (omega arith) ∙ e in
        rw (x.no_time, x.add_zero n le, under) refl
    | inr e ↦
        let over : lt (of_nat n) (of_nat capacity) ≡ false =
          x.lt_nat n capacity le (omega arith) ∙ e in
        let full : capacity ≡ n = ground arith in
        rw (x.no_time, x.add_zero n le, over) (ap (holding now) full)
  ]

  check-cases :
      (now : Num) (id n : ℕ) (l : RateLimiter F)
      → IsExact l.capacity l.refill_rate_per_second now
      → HasTokens now id n l
      → check F now id l ≡ (
        (take_token F l.refill_rate_per_second (holding now n)).0,
        record l {
          buckets = put F id (take_token F l.refill_rate_per_second (holding now n)).1 l.buckets;
        },
      )
  unfolding check
  check-cases now id n l x h =
      ap
        (λ (b : Bucket F). (
          (take_token F l.refill_rate_per_second b).0,
          record l { buckets = put F id (take_token F l.refill_rate_per_second b).1 l.buckets },
        ))
        (ap (refill F l.capacity l.refill_rate_per_second now) h.tokens
          ∙ refill-exact l.capacity l.refill_rate_per_second now n x h.room)

  check-refuses :
      (now : Num) (id : ℕ) (l : RateLimiter F)
      → IsExact l.capacity l.refill_rate_per_second now
      → HasTokens now id 0 l
      → (is_some (check F now id l).0 ≡ true) × HasTokens now id 0 (check F now id l).1
  unfolding take_token
  check-refuses now id l x h =
      let low : lt (of_nat 0) (of_nat 1) ≡ true =
        x.lt_nat 0 1 (omega arith) (omega (arith, h.positive)) in
      rw (check-cases now id 0 l x h, low)
        (
          refl,
          record {
            tokens = rw (get-put F id (holding now 0) l.buckets) refl;
            room = h.room;
            positive = h.positive;
          },
        )

  check-passes :
      (now : Num) (id n : ℕ) (l : RateLimiter F)
      → IsExact l.capacity l.refill_rate_per_second now
      → HasTokens now id (suc n) l
      → (is_some (check F now id l).0 ≡ false) × HasTokens now id n (check F now id l).1
  unfolding take_token
  check-passes now id n l x h =
      let high : lt (of_nat (suc n)) (of_nat 1) ≡ false =
        x.lt_nat (suc n) 1 h.room (omega (arith, h.positive)) ∙ ground arith in
      let less : sub (of_nat (suc n)) (of_nat 1) ≡ of_nat n = x.sub_one n (omega (arith, h.room)) in
      rw (check-cases now id (suc n) l x h, high, less)
        (
          refl,
          record {
            tokens = rw (get-put F id (holding now n) l.buckets) refl;
            room = omega (arith, h.room);
            positive = h.positive;
          },
        )

  burst-first_pass :
      (now : Num) (id n calls : ℕ) (l : RateLimiter F)
      → IsExact l.capacity l.refill_rate_per_second now
      → HasTokens now id n l
      → burst now id calls l ≡ first_pass n calls
  unfolding burst first_pass check
  burst-first_pass now id n zero l x h = refl
  burst-first_pass now id zero (suc calls) l x h =
      let (refused, h') = check-refuses now id l x h in
      rw (refused, burst-first_pass now id zero calls (check F now id l).1 x h') refl
  burst-first_pass now id (suc n) (suc calls) l x h =
      let (passed, h') = check-passes now id n l x h in
      rw (passed, burst-first_pass now id n calls (check F now id l).1 x h') refl

  created :
      (capacity : ℕ) (rate : Num) (l : RateLimiter F)
      → create F capacity rate ≡ ok l
      → (0 < capacity)
        × (l ≡ record { capacity = capacity; refill_rate_per_second = rate; buckets = [] })
  unfolding create
  created capacity rate l e = elim (Bool-cases (capacity == 0)) [
    | inl z ↦ cc
    | inr z ↦ elim (Bool-cases (lt (of_nat 0) rate)) [ inl p ↦ (ground arith, cc) | inr p ↦ cc ]
  ]

  -- Of the checks of one key at one instant, on a new limiter and with a clock and numbers up to its
  -- capacity that are exact, the first `capacity` pass and every later one is refused.
  pub create-burst :
      (capacity : ℕ) (rate now : Num) (l : RateLimiter F) (id calls : ℕ)
      → IsExact capacity rate now
      → create F capacity rate ≡ ok l
      → burst now id calls l ≡ first_pass capacity calls
  unfolding get
  create-burst capacity rate now l id calls x e =
      let (pos, same) = created capacity rate l e in
      subst (λ l. burst now id calls l ≡ first_pass capacity calls) (sym same)
        (burst-first_pass now id capacity calls
          (record { capacity = capacity; refill_rate_per_second = rate; buckets = [] }) x
          (record { tokens = refl; room = omega arith; positive = pos }))
