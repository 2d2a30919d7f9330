-- ===== src/Access/RateLimiter/Limits.antt =====
-- What the limiter lets through, and what it keeps.
use aethergrid.Base.{
  ℕ, ◌≡◌, ◌≢◌, refl, sym, ◌∙◌, true, false, some, List, [], ◌∷◌, ◌==◌, arith, All, inl, inr,
  Bool-cases,
}
use aethergrid.Access.RateLimiter.{
  Float, Bucket, RateLimiter, get, put, min_of, refill, take_token, check,
}

true≢false : true ≢ false
true≢false e = cc

module _ (F : Float) where
  open F use {Num, of_nat, add, sub, mul, div, lt}

  pub get-put :
      (id : ℕ) (b : Bucket F) (bs : List (ℕ × Bucket F)) → get F id (put F id b bs) ≡ some b
  unfolding get put
  get-put id b [] = ground arith
  get-put id b ((k, c) ∷ bs) = ground (arith, get-put id b bs)

  get-put_other :
      (id other : ℕ) (b : Bucket F) (bs : List (ℕ × Bucket F))
      → other ≢ id
      → get F other (put F id b bs) ≡ get F other bs
  unfolding get put
  get-put_other id other b [] n = ground arith
  get-put_other id other b ((k, c) ∷ bs) n = ground (arith, get-put_other id other b bs n)

  -- A check of one key leaves the bucket of every other key, and the capacity and the rate.
  pub check-others :
      (now : Num) (id other : ℕ) (l : RateLimiter F)
      → other ≢ id
      → (get F other (check F now id l).1.buckets ≡ get F other l.buckets)
        × ((check F now id l).1.capacity ≡ l.capacity)
        × ((check F now id l).1.refill_rate_per_second ≡ l.refill_rate_per_second)
  unfolding check
  check-others now id other l n = (get-put_other id other _ l.buckets n, refl, refl)

  -- Comparison of floats, and the subtraction of 1, which leads to no larger number.
  pub record IsOrdered : Type 0 where
    pub lt_irrefl : (a : Num) → lt a a ≡ false
    pub lt_trans : (a b c : Num) → lt a b ≡ true → lt b c ≡ true → lt a c ≡ true
    pub sub_le : (a b : Num) → lt a b ≡ false → lt a (sub b (of_nat 1)) ≡ false

  -- No bucket has more tokens than a bound.
  abbrev pub IsWithin : Num → List (ℕ × Bucket F) → Type 0
  IsWithin most = All (λ (entry : ℕ × Bucket F). lt most entry.1.tokens ≡ false)

  put-IsWithin :
      (most : Num) (id : ℕ) (b : Bucket F) (bs : List (ℕ × Bucket F))
      → lt most b.tokens ≡ false
      → IsWithin most bs
      → IsWithin most (put F id b bs)
  unfolding put
  put-IsWithin most id b [] h hs = (h, tt)
  put-IsWithin most id b ((k, c) ∷ bs) h hs = elim (Bool-cases (k == id)) [
    | inl e ↦ rw (put, e) (h, hs.1)
    | inr e ↦ rw (put, e) (hs.0, put-IsWithin most id b bs h hs.1)
  ]

  min_of_le : IsOrdered → (a b : Num) → lt a (min_of F a b) ≡ false
  min_of_le o a b = elim (Bool-cases (lt b a)) [
    | inr e ↦ rw e (o.lt_irrefl a)
    | inl e ↦ elim (Bool-cases (lt a b)) [
      | inr e' ↦ rw e e'
      | inl e' ↦ absurd (true≢false (sym (o.lt_trans a b a e' e) ∙ o.lt_irrefl a))
    ]
  ]

  take_token-IsWithin :
      (most rate : Num) (b : Bucket F)
      → IsOrdered
      → lt most b.tokens ≡ false
      → lt most (take_token F rate b).1.tokens ≡ false
  unfolding take_token
  take_token-IsWithin most rate b o h = elim (Bool-cases (lt b.tokens (of_nat 1))) [
    | inl e ↦ rw (take_token, e) h
    | inr e ↦ rw (take_token, e) (o.sub_le most b.tokens h)
  ]

  -- Whatever the clock says, a check leaves no bucket with more tokens than the capacity.
  pub check-IsWithin :
      (now : Num) (id : ℕ) (l : RateLimiter F)
      → IsOrdered
      → IsWithin (of_nat l.capacity) l.buckets
      → IsWithin (of_nat l.capacity) (check F now id l).1.buckets
  unfolding check refill
  check-IsWithin now id l o h =
      put-IsWithin (of_nat l.capacity) id _ l.buckets
        (take_token-IsWithin (of_nat l.capacity) l.refill_rate_per_second _ o
          (min_of_le o (of_nat l.capacity) _))
        h
