-- ===== src/Agent/Retry/Delays.antt =====
-- What the retries of the agent sleep, and which failures go through them.
use Prim.Native.Nat.{max}
use aethergrid.Base.{
  ℕ, suc, ◌≤◌, ◌⊎◌, inl, inr, ◌≡◌, refl, min, ◌*◌, ◌^◌, true, false, Option, some, none, List, [],
  ◌∷◌, String, arith, leb, ◌<◌, Bool-cases,
}
use aethergrid.Domain.Resources.{Duration}
use aethergrid.Agent.Retry.{
  Answer, returned, raised, attempts_from, call_with_retry, is_transient, backoff_delay_seconds,
  backoff_cap, ceiling_of, retry_after_seconds, backoff_base, End, ended, unreadable, overflow,
  Delay, lasting, endless, Number, longer, sleep, max_backoff_exponent,
}

-- A back-off where the server asked for no delay or for one: at least as long as that, and no longer than that
-- or the largest back-off.
abbrev pub IsBackoff : Option Delay → Duration → Type 0
IsBackoff none d = d ≤ backoff_cap
IsBackoff (some (lasting r)) d = (r ≤ d) × ((d ≤ r) ⊎ (d ≤ backoff_cap))
IsBackoff (some endless) d = ⊥

module _ (float : String → Option Number) (longest : Duration)
    (draws : ℕ → Duration → Duration) where
  -- One sleep for each failure that was retried, all transient, in their order.
  abbrev pub Sleeps : {A : Type 0} → List (Answer A) → List Duration → Type 0
  Sleeps _ [] = Unit
  Sleeps (raised e ∷ answers) (d ∷ ds) =
      (is_transient e ≡ true)
      × IsBackoff (retry_after_seconds float e) d
      × (d ≤ longest)
      × Sleeps answers ds
  Sleeps _ (d ∷ ds) = ⊥

  -- The server asked for a delay that `time.sleep` refuses.
  abbrev pub IsTooLong : Option Delay → Type 0
  IsTooLong none = ⊥
  IsTooLong (some (lasting r)) = longest < r
  IsTooLong (some endless) = Unit

  -- What the call ends with: the answer of the attempt behind the last sleep, where it is no transient failure;
  -- OverflowError, where it is one whose delay `time.sleep` refuses; or nothing yet, all answers being transient
  -- failures.
  abbrev pub EndsWith : {A : Type 0} → List (Answer A) → List Duration → Option (End A) → Type 0
  EndsWith [] [] none = Unit
  EndsWith (returned a ∷ answers) [] (some b) = ended (returned a) ≡ b
  EndsWith (unreadable ∷ answers) [] (some b) = ended unreadable ≡ b
  EndsWith (raised e ∷ answers) [] (some (ended (raised f))) = (e ≡ f) × (is_transient e ≡ false)
  EndsWith (raised e ∷ answers) [] (some (overflow _)) =
      (is_transient e ≡ true) × IsTooLong (retry_after_seconds float e)
  EndsWith (_ ∷ answers) (_ ∷ ds) b = EndsWith answers ds b
  EndsWith _ _ _ = ⊥

  ceiling-le : (attempt : ℕ) → ceiling_of attempt ≤ backoff_cap
  unfolding ceiling_of
  ceiling-le attempt = min_le backoff_cap (backoff_base * 2 ^ min attempt max_backoff_exponent)
    where
      min_le : (a b : ℕ) → min a b ≤ a
      min_le a b = omega arith

  module _ (bounded : (attempt : ℕ) (c : Duration) → draws attempt c ≤ c)
      (sleeps_cap : backoff_cap ≤ longest) where
    -- A back-off is slept, or the server asked for too much.
    sleep-longer :
        (d : Duration) (hint : Option Delay)
        → d ≤ backoff_cap
        → ((slept : Duration) × (sleep longest (longer d hint) ≡ some slept)
            × IsBackoff hint slept
            × (slept ≤ longest))
          ⊎ ((sleep longest (longer d hint) ≡ none) × IsTooLong hint)
    unfolding sleep
    sleep-longer d none h = inl (d, ground (arith, h, sleeps_cap), h, omega (arith, h, sleeps_cap))
    sleep-longer d (some endless) h = inr (refl, tt)
    sleep-longer d (some (lasting r)) h = elim (Bool-cases (leb (max d r) longest)) [
      | inl e ↦ inl (max d r, rw e refl, ground (arith, h), ground (arith, e))
      | inr e ↦ inr (rw e refl, ground (arith, h, sleeps_cap, e))
    ]

    attempts_from-Retried :
        {A : Type 0} (attempt : ℕ) (answers : List (Answer A))
        → Sleeps answers (attempts_from float longest draws attempt answers).slept
          × EndsWith answers
              (attempts_from float longest draws attempt answers).slept
              (attempts_from float longest draws attempt answers).answer
    unfolding attempts_from backoff_delay_seconds
    attempts_from-Retried attempt [] = (tt, tt)
    attempts_from-Retried attempt (returned a ∷ answers) = (tt, refl)
    attempts_from-Retried attempt (unreadable ∷ answers) = (tt, refl)
    attempts_from-Retried attempt (raised e ∷ answers) = elim (Bool-cases (is_transient e)) [
      | inr f ↦ rw (attempts_from, f) (tt, (refl, f))
      | inl t ↦
          elim (sleep-longer (draws attempt (ceiling_of attempt)) (retry_after_seconds float e)
            (omega (arith, bounded attempt (ceiling_of attempt), ceiling-le attempt))) [
              | inl (slept, s, b, le) ↦
                  let (sleeps, ends) = attempts_from-Retried (suc attempt) answers in
                  rw (attempts_from, t, s) ((t, b, le, sleeps), ends)
              | inr (s, long) ↦ rw (attempts_from, t, s) (tt, (t, long))
            ]
    ]

    -- Where a draw is not above its bound, and `time.sleep` takes the largest back-off: a retried call sleeps once
    -- for each failure that it retries, all transient, at least as long as the server asked for and no longer than
    -- that or the largest back-off. It ends with the first answer that is no transient failure; or, before that,
    -- with OverflowError at the first transient failure whose Retry-After is more than `time.sleep` takes; and
    -- not before there is one or the other.
    pub call_with_retry-Retried :
        {A : Type 0} (answers : List (Answer A))
        → Sleeps answers (call_with_retry float longest draws answers).slept
          × EndsWith answers
              (call_with_retry float longest draws answers).slept
              (call_with_retry float longest draws answers).answer
    unfolding call_with_retry
    call_with_retry-Retried answers = attempts_from-Retried 0 answers
