-- ===== src/Agent/Renewal/Trust.antt =====
-- How long the renewal thread of the agent trusts a lease.
use aethergrid.Base.{
  ℕ, ◌+◌, ◌-◌, ◌≤◌, ◌<◌, ◌≡◌, ◌⊎◌, inl, inr, refl, sym, subst, ◌∙◌, Bool, true, false, not, ◌||◌,
  Option, some, none, List, [], ◌∷◌, String, leb, All, length, arith, Bool-cases,
}
use aethergrid.Domain.Resources.{Time}
use aethergrid.Domain.Lease.{default_lease_duration}
use aethergrid.Agent.Retry.{
  HttpError, Answer-cases, raised, unreadable, Delay, lasting, endless, Number, Reply, failed,
  answered, is_success, read_reply, is_transient, backoff_delay_seconds, retry_after_seconds,
}
use aethergrid.Agent.Renewal.{
  Round, Keeper, Thread, waits, lost, died, JobStatus, cut, renew_lease, after_failure,
  after_renewal, do_round, keep_lease_alive, trust_deadline, answered_at, lease_age_margin,
}

-- The wake-up and the request of a round take no longer than the margin.
abbrev pub IsPrompt : Round → Type 0
IsPrompt round = round.late + round.took ≤ lease_age_margin

-- The next attempt is due within the window.
abbrev pub IsFresh : Keeper → Type 0
IsFresh k = k.now + k.wait ≤ trust_deadline k

-- A thread that waits tries again within the window; one that gave the lease up did so within the duration of
-- a lease from the last renewal that was confirmed.
abbrev pub IsTimely : Thread → Type 0
IsTimely (waits k) = IsFresh k
IsTimely (lost before at) = at ≤ before.last_confirmed_at + default_lease_duration
IsTimely (died _) = ⊥

-- A success that the thread can read: its body is JSON with the fields that `renew_lease` takes from it.
abbrev pub IsReadable : Reply (Option JobStatus) → Type 0
IsReadable (failed _) = Unit
IsReadable (answered _ _ (some _)) = Unit
IsReadable (answered status _ none) = is_success status ≡ false

renew_lease-IsReadable :
    (reply : Reply (Option JobStatus)) → IsReadable reply → ¬ (renew_lease reply ≡ unreadable)
unfolding renew_lease read_reply
renew_lease-IsReadable (failed e) h c = cc
renew_lease-IsReadable (answered status ra (some b)) h c = ground arith
renew_lease-IsReadable (answered status ra none) h c = ground arith

-- A round whose renewal fails, and takes time.
abbrev pub IsFailing : Round → Type 0
IsFailing round = ((e : HttpError) × (renew_lease round.reply ≡ raised e)) × (1 ≤ round.took)

abbrev pub IsLost : Thread → Type 0
IsLost (waits _) = ⊥
IsLost (lost _ _) = Unit
IsLost (died _) = ⊥

-- What is left of a failing round.
abbrev GoesOn : Round → Keeper → Keeper → Type 0
GoesOn round k k' =
    (k'.now ≡ answered_at round k)
    × (k'.last_confirmed_at ≡ k.last_confirmed_at)
    × (k'.now < trust_deadline k')

Thread-cases :
    (t : Thread)
    → ((k : Keeper) × (t ≡ waits k))
      ⊎ ((k : Keeper) × (at : Time) × (t ≡ lost k at))
      ⊎ ((k : Keeper) × (t ≡ died k))
Thread-cases (waits k) = inl (k, refl)
Thread-cases (lost k at) = inr (inl (k, at, refl))
Thread-cases (died k) = inr (inr (k, refl))

cut-le : (d : Delay) (left : ℕ) → cut d left ≤ left
cut-le (lasting d) left = omega arith
cut-le endless left = omega arith

module _ (float : String → Option Number) where
  after_failure-IsTimely :
      (round : Round) (k : Keeper) (e : HttpError)
      → IsPrompt round
      → IsFresh k
      → IsTimely (after_failure float round k e)
  unfolding after_failure
  after_failure-IsTimely round k e p f =
      elim (Bool-cases (not (is_transient e) || leb (trust_deadline k) (answered_at round k))) [
        | inl gives_up ↦ rw (after_failure, gives_up) (omega (arith, p, f))
        | inr on ↦
            let early : answered_at round k < trust_deadline k = ground arith in
            rw (after_failure, on)
              (omega (
                arith,
                early,
                cut-le (backoff_delay_seconds round.draw k.attempt (retry_after_seconds float e))
                    (trust_deadline k - answered_at round k),
              ))
      ]

  after_renewal-IsTimely :
      (round : Round) (k : Keeper) (answer : Bool × Option String)
      → IsPrompt round
      → IsFresh k
      → IsTimely (after_renewal float round k answer)
  unfolding after_renewal
  after_renewal-IsTimely round k (false, status) p f = omega (arith, p, f)
  after_renewal-IsTimely round k (true, status) p f = omega (arith, p, f)

  do_round-IsTimely :
      (round : Round) (k : Keeper)
      → IsPrompt round
      → IsReadable round.reply
      → IsFresh k
      → IsTimely (do_round float round k)
  unfolding do_round
  do_round-IsTimely round k p b f = elim (Answer-cases (renew_lease round.reply)) [
    | inl (e, r) ↦ rw (do_round, r) (after_failure-IsTimely round k e p f)
    | inr (inl (a, r)) ↦ rw (do_round, r) (after_renewal-IsTimely round k a p f)
    | inr (inr r) ↦ absurd (renew_lease-IsReadable round.reply b r)
  ]

  -- Where each round wakes up and has its answer within the margin of five seconds, and each success has a body
  -- that the thread can read: a renewal thread whose next attempt is due within the trust window either goes on
  -- like that, or has given the lease up no later than the duration of a lease after its last confirmed renewal,
  -- whatever errors and refusals the server answers.
  pub keep_lease_alive-IsTimely :
      (rounds : List Round) (k : Keeper)
      → All IsPrompt rounds
      → All (λ round. IsReadable round.reply) rounds
      → IsFresh k
      → IsTimely (keep_lease_alive float rounds k)
  unfolding keep_lease_alive
  keep_lease_alive-IsTimely [] k p b f = f
  keep_lease_alive-IsTimely (round ∷ rounds) k p b f =
      let timely : IsTimely (do_round float round k) = do_round-IsTimely round k p.0 b.0 f in
      elim (Thread-cases (do_round float round k)) [
        | inl (k', e) ↦
            rw (keep_lease_alive, e)
              (keep_lease_alive-IsTimely rounds k' p.1 b.1 (subst IsTimely e timely))
        | inr (inl (before, at, e)) ↦ rw (keep_lease_alive, e) (subst IsTimely e timely)
        | inr (inr (before, e)) ↦ absurd (subst IsTimely e timely)
      ]

  after_failure-GoesOn :
      (round : Round) (k k' : Keeper) (e : HttpError)
      → after_failure float round k e ≡ waits k'
      → GoesOn round k k'
  unfolding after_failure
  after_failure-GoesOn round k k' e h = ground arith

  after_failure_lives :
      (round : Round) (k before : Keeper) (e : HttpError)
      → ¬ (after_failure float round k e ≡ died before)
  unfolding after_failure
  after_failure_lives round k before e h = ground arith

  do_round-GoesOn :
      (round : Round) (k k' : Keeper)
      → IsFailing round
      → do_round float round k ≡ waits k'
      → GoesOn round k k'
  unfolding do_round
  do_round-GoesOn round k k' ((e, r), took) h =
      let step : do_round float round k ≡ after_failure float round k e = rw (do_round, r) refl in
      after_failure-GoesOn round k k' e (sym step ∙ h)

  -- A thread within the trust window none of whose renewals succeeds any more, each of which takes at least a
  -- microsecond, gives the lease up within as many rounds as the window still has.
  pub keep_lease_alive-IsLost :
      (rounds : List Round) (k : Keeper)
      → All IsFailing rounds
      → k.now < trust_deadline k
      → trust_deadline k ≤ k.now + length rounds
      → IsLost (keep_lease_alive float rounds k)
  unfolding keep_lease_alive do_round
  keep_lease_alive-IsLost [] k p h m = absurd (omega (arith, h, m))
  keep_lease_alive-IsLost (round ∷ rounds) k p h m = elim (Thread-cases (do_round float round k)) [
    | inr (inl (before, at, e)) ↦ rw (keep_lease_alive, e) tt
    | inr (inr (before, e)) ↦
        let ((x, r), _) : IsFailing round = p.0 in
        let step : do_round float round k ≡ after_failure float round k x = rw (do_round, r) refl in
        absurd (after_failure_lives round k before x (sym step ∙ e))
    | inl (k', e) ↦
        let (now, last, early) : GoesOn round k k' = do_round-GoesOn round k k' p.0 e in
        let took : 1 ≤ round.took = p.0.1 in
        rw (keep_lease_alive, e)
          (keep_lease_alive-IsLost rounds k' p.1 early (omega (arith, now, last, m, took)))
  ]
