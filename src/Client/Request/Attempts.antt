-- ===== src/Client/Request/Attempts.antt =====
-- The number of attempts of a call and the times between them.
use aethergrid.Base.{
  true, ℕ, zero, suc, ◌+◌, ◌≤◌, ◌≡◌, refl, Bool, Option, List, [], ◌∷◌, String, ℤ, arith, length,
  ◌==◌, inl, inr, ◌⊎◌,
}
use aethergrid.Domain.Resources.{Duration}
use aethergrid.Client.Breaker.{CircuitBreaker}
use aethergrid.Client.Config.{RetryConfig}
use aethergrid.Client.Request.{
  Reply, Outcome, Verdict, Decision, stops, retries, World, Run, decide, attempts_from,
}

pub Decision-cases :
    {A : Type 0} (d : Decision A)
    → ((o : Outcome A) × (v : Verdict) × (d ≡ stops o v))
      ⊎ ((r : Option Duration) × (d ≡ retries r))
Decision-cases (stops o v) = inl (o, v, refl)
Decision-cases (retries r) = inr (r, refl)

-- The last attempt always leaves the loop.
decide_last :
    {A : Type 0} (delay_of : String → Option ℤ) (cfg : RetryConfig) (safe : Bool) (reply : Reply A)
    → (o : Outcome A) × (v : Verdict) × (decide delay_of cfg safe true reply ≡ stops o v)
unfolding decide
decide_last delay_of cfg safe reply = elim (Decision-cases (decide delay_of cfg safe true reply)) [
  | inl stop ↦ stop
  | inr (r, e) ↦ absurd (never delay_of cfg safe reply r e)
]
  where
    never :
        {A : Type 0} (delay_of : String → Option ℤ) (cfg : RetryConfig) (safe : Bool)
        (reply : Reply A) (r : Option Duration)
        → ¬ (decide delay_of cfg safe true reply ≡ retries r)
    never delay_of cfg safe Reply.never_sent r e = ground arith
    never delay_of cfg safe reply r e = ground arith

module _ {A : Type 0} (w : World A) (cfg : RetryConfig) (replay_safe : Bool) where
  -- The replies and the times slept of a call that the loop has ended.
  pub record Ends (most : ℕ) (run : Run A) : Type 0 where
    pub some_reply : 1 ≤ length run.replies
    pub few_replies : length run.replies ≤ most
    pub one_delay_less : length run.delays + 1 ≡ length run.replies

  pub attempts_from-Ends :
      (left attempt : ℕ) (b : CircuitBreaker)
      → Ends (suc left) (attempts_from w cfg replay_safe (suc left) attempt b)
  unfolding attempts_from
  attempts_from-Ends zero attempt b =
      let (o, v, e) = decide_last w.delay_of cfg replay_safe (w.reply attempt) in
      rw (attempts_from, e) (ground arith)
  attempts_from-Ends (suc left) attempt b =
      elim (Decision-cases (decide w.delay_of cfg replay_safe (suc left == 0) (w.reply attempt))) [
        | inl (o, v, e) ↦ rw (attempts_from, e) (ground arith)
        | inr (r, e) ↦
            let rest : Ends (suc left)
                (attempts_from w cfg replay_safe (suc left) (attempt + 1) b) =
              attempts_from-Ends left (attempt + 1) b in
            rw (attempts_from, e)
              (record {
                some_reply = omega arith;
                few_replies = omega (arith, rest.few_replies);
                one_delay_less = omega (arith, rest.one_delay_less);
              })
      ]

-- The replies of a call: each but the last was retried, and the last one ended it.
module _ {A : Type 0} (Retried : Reply A → Type 0) (Stopped : Reply A → Outcome A → Type 0) where
  abbrev pub Decided : List (Reply A) → Outcome A → Type 0
  Decided [] o = ⊥
  Decided (r ∷ []) o = Stopped r o
  Decided (r ∷ r' ∷ rs) o = Retried r × Decided (r' ∷ rs) o

  cons-Decided :
      (r : Reply A) (rs : List (Reply A)) (o : Outcome A)
      → Retried r
      → Decided rs o
      → Decided (r ∷ rs) o
  cons-Decided r [] o h d = absurd d
  cons-Decided r (r' ∷ rs) o h d = (h, d)

  module _ (w : World A) (cfg : RetryConfig) (replay_safe : Bool) where
    -- What holds of every reply that the loop retries and of every reply that it stops at.
    pub attempts_from-Decided :
        ((is_last : Bool) (r : Reply A) (d : Option Duration)
          → decide w.delay_of cfg replay_safe is_last r ≡ retries d
          → Retried r)
        → ((is_last : Bool) (r : Reply A) (o : Outcome A) (v : Verdict)
            → decide w.delay_of cfg replay_safe is_last r ≡ stops o v
            → Stopped r o)
        → (left attempt : ℕ) (b : CircuitBreaker)
        → Decided
            (attempts_from w cfg replay_safe (suc left) attempt b).replies
            (attempts_from w cfg replay_safe (suc left) attempt b).outcome
    unfolding attempts_from
    attempts_from-Decided again stop zero attempt b =
        let (o, v, e) = decide_last w.delay_of cfg replay_safe (w.reply attempt) in
        rw (attempts_from, e) (stop true (w.reply attempt) o v e)
    attempts_from-Decided again stop (suc left) attempt b =
        elim (Decision-cases
          (decide w.delay_of cfg replay_safe (suc left == 0) (w.reply attempt))) [
            | inl (o, v, e) ↦ rw (attempts_from, e) (stop (suc left == 0) (w.reply attempt) o v e)
            | inr (r, e) ↦
                rw (attempts_from, e)
                  (cons-Decided (w.reply attempt) _ _ (again (suc left == 0) (w.reply attempt) r e)
                    (attempts_from-Decided again stop left (attempt + 1) b))
          ]
