-- ===== src/Execution/Process/Stops.antt =====
-- When the loop that waits for a command ends, and what its result says.
use aethergrid.Base.{
  ℕ, zero, suc, ◌+◌, ◌≤◌, ◌<◌, ◌≡◌, ◌⊎◌, inl, inr, refl, sym, subst, ◌∙◌, Bool, true, false, some,
  List, ◌∷◌, [], ◌++◌, String, leb, ltb, arith, Bool-cases,
}
use aethergrid.Domain.Resources.{Time, Duration}
use aethergrid.Execution.Process.{
  World, Run, Outcome, returned, raised, Signal, sigkill, Launch, pending, started, failed,
  Communicate, finished, expired, Verdict, stops, goes_on, decide, run_from, execute,
  terminate_early, await_launch, await_end, collect_after_supervisor_ended, could_not_start,
  read_launch_failure, is_launch_fault,
}

-- The three flags of a result.
abbrev pub HasFlags : (timed_out cancelled lease_lost : Bool) → Outcome → Type 0
HasFlags t c l (returned r) = (r.timed_out ≡ t) × (r.cancelled ≡ c) × (r.lease_lost ≡ l)
HasFlags t c l (raised _) = ⊥

-- No flag, or an exception of the host.
abbrev pub IsPlain : Outcome → Type 0
IsPlain (returned r) = (r.timed_out ≡ false) × (r.cancelled ≡ false) × (r.lease_lost ≡ false)
IsPlain (raised _) = Unit

-- The last signal is SIGKILL.
abbrev pub EndsWithKill : List Signal → Type 0
EndsWithKill signals = (before : List Signal) × (signals ≡ before ++ sigkill ∷ [])

some_inj : {a b : Run} → some a ≡ some b → a ≡ b
some_inj e = cc

module _ (w : World) (deadline : Time) where
  -- A pass that finds no reason to stop the command.
  abbrev pub IsQuiet : ℕ → Type 0
  IsQuiet k =
      ((w.pass k).now < deadline) × ((w.pass k).lease_lost ≡ false) × ((w.pass k).cancelled ≡ false)

  -- Why a pass ends the execution: the deadline, else the lost lease, else the cancellation, else the
  -- command itself.
  abbrev pub Reason : ℕ → Outcome → Type 0
  Reason k o =
      ((deadline ≤ (w.pass k).now) × HasFlags true false false o)
      ⊎ (((w.pass k).now < deadline) × ((w.pass k).lease_lost ≡ true) × HasFlags false false true o)
      ⊎ (((w.pass k).now < deadline)
          × ((w.pass k).lease_lost ≡ false)
          × ((w.pass k).cancelled ≡ true)
          × HasFlags false true false o)
      ⊎ (IsQuiet k × IsPlain o)

  pub record Ended (from : ℕ) (run : Run) : Type 0 where
    pub after : from ≤ run.last_pass
    pub quiet : (j : ℕ) → from ≤ j → j < run.last_pass → IsQuiet j
    pub reason : Reason run.last_pass run.outcome
    pub killed : EndsWithKill run.signals

  -- What a pass decides.
  abbrev Decided : ℕ → Verdict w → Type 0
  Decided k (goes_on _) = IsQuiet k
  Decided k (stops run) = (run.last_pass ≡ k) × Reason k run.outcome × EndsWithKill run.signals

  terminate_early-Decided :
      (k : ℕ) (t c l : Bool)
      → Reason k (terminate_early w k t c l).outcome
      → Decided k (stops (terminate_early w k t c l))
  unfolding terminate_early
  terminate_early-Decided k t c l h = (refl, h, (_, refl))

  await_launch-Decided : (k : ℕ) (l : Launch) → IsQuiet k → Decided k (await_launch w k l)
  unfolding await_launch could_not_start
  await_launch-Decided k pending q = q
  await_launch-Decided k started q = q
  await_launch-Decided k (failed e) q = elim (Bool-cases (is_launch_fault e.kind)) [
    | inl f ↦ rw f (refl, inr (inr (inr (q, (refl, refl, refl)))), ([], refl))
    | inr f ↦ rw f (refl, inr (inr (inr (q, tt))), ([], refl))
  ]

  await_end-Decided : (k : ℕ) (c : Communicate) → IsQuiet k → Decided k (await_end w k c)
  unfolding await_end collect_after_supervisor_ended
  await_end-Decided k (finished out err) q =
      (refl, inr (inr (inr (q, (refl, refl, refl)))), ([], refl))
  await_end-Decided k (expired true) q =
      (refl, inr (inr (inr (q, (refl, refl, refl)))), (sigkill ∷ [], refl))
  await_end-Decided k (expired false) q = q

  decide-Decided : (launch_pending : Bool) (k : ℕ) → Decided k (decide w deadline launch_pending k)
  unfolding decide terminate_early
  decide-Decided launch_pending k = elim (Bool-cases (leb deadline (w.pass k).now)) [
    | inl late ↦
        let due : deadline ≤ (w.pass k).now = ground arith in
        rw (decide, late)
          (terminate_early-Decided k true false false (inl (due, (refl, refl, refl))))
    | inr e ↦
        let early : (w.pass k).now < deadline = ground arith in
        elim (Bool-cases (w.pass k).lease_lost) [
          | inl lost ↦
              rw (decide, e, lost)
                (terminate_early-Decided k false false true
                  (inr (inl (early, lost, (refl, refl, refl)))))
          | inr held ↦ elim (Bool-cases (w.pass k).cancelled) [
            | inl asked ↦
                rw (decide, e, held, asked)
                  (terminate_early-Decided k false true false
                    (inr (inr (inl (early, held, asked, (refl, refl, refl))))))
            | inr calm ↦
                let quiet : IsQuiet k = (early, held, calm) in
                elim (Bool-cases launch_pending) [
                  | inl p ↦
                      rw (decide, e, held, calm, p)
                        (await_launch-Decided k (read_launch_failure w.report (w.pass k).status)
                          quiet)
                  | inr p ↦
                      rw (decide, e, held, calm, p)
                        (await_end-Decided k (w.pass k).communicate quiet)
                ]
          ]
        ]
  ]

  Verdict-cases : (v : Verdict w) → ((run : Run) × (v ≡ stops run)) ⊎ ((p : Bool) × (v ≡ goes_on p))
  Verdict-cases (stops run) = inl (run, refl)
  Verdict-cases (goes_on p) = inr (p, refl)

  run_from-stops :
      (fuel k : ℕ) (launch_pending : Bool) (run : Run)
      → decide w deadline launch_pending k ≡ stops run
      → run_from w deadline (suc fuel) k launch_pending ≡ some run
  unfolding run_from
  run_from-stops fuel k launch_pending run v = rw (run_from, v) refl

  run_from-goes_on :
      (fuel k : ℕ) (launch_pending p : Bool)
      → decide w deadline launch_pending k ≡ goes_on p
      → run_from w deadline (suc fuel) k launch_pending ≡ run_from w deadline fuel (k + 1) p
  unfolding run_from
  run_from-goes_on fuel k launch_pending p v = rw (run_from, v) refl

  run_from-Ended :
      (fuel k : ℕ) (launch_pending : Bool) (run : Run)
      → run_from w deadline fuel k launch_pending ≡ some run
      → Ended k run
  unfolding run_from
  run_from-Ended zero k launch_pending run e = cc
  run_from-Ended (suc fuel) k launch_pending run e =
      elim (Verdict-cases (decide w deadline launch_pending k)) [
        | inl (last, v) ↦
            let (at, reason, killed) : Decided k (stops last) =
              subst (Decided k) v (decide-Decided launch_pending k) in
            let same : last ≡ run =
              some_inj (sym (run_from-stops fuel k launch_pending last v) ∙ e) in
            subst (Ended k) same (record {
              after = omega (arith, at);
              quiet = λ j le lt. absurd (omega (arith, at));
              reason = subst (λ n. Reason n last.outcome) (sym at) reason;
              killed = killed;
            })
        | inr (p, v) ↦
            let quiet : IsQuiet k = subst (Decided k) v (decide-Decided launch_pending k) in
            let later : Ended (k + 1) run =
              run_from-Ended fuel (k + 1) p run
                (sym (run_from-goes_on fuel k launch_pending p v) ∙ e) in
            record {
              after = omega (arith, later.after);
              quiet = λ j le lt. elim (Bool-cases (ltb k j)) [
                | inl next ↦ later.quiet j (ground arith) lt
                | inr at ↦ subst IsQuiet (ground arith) quiet
              ];
              reason = later.reason;
              killed = later.killed;
            }
      ]

  run_from_ends :
      (fuel k : ℕ) (launch_pending : Bool)
      → ((j : ℕ) → (w.pass j).now < (w.pass (j + 1)).now)
      → deadline ≤ (w.pass k).now + fuel
      → (run : Run) × (run_from w deadline (suc fuel) k launch_pending ≡ some run)
  run_from_ends zero k launch_pending moves h =
      elim (Verdict-cases (decide w deadline launch_pending k)) [
        | inl (last, v) ↦ (last, run_from-stops zero k launch_pending last v)
        | inr (p, v) ↦
            let quiet : IsQuiet k = subst (Decided k) v (decide-Decided launch_pending k) in
            absurd (omega (arith, quiet.0))
      ]
  run_from_ends (suc fuel) k launch_pending moves h =
      elim (Verdict-cases (decide w deadline launch_pending k)) [
        | inl (last, v) ↦ (last, run_from-stops (suc fuel) k launch_pending last v)
        | inr (p, v) ↦
            let (run, e) = run_from_ends fuel (k + 1) p moves (omega (arith, moves k)) in
            (run, run_from-goes_on (suc fuel) k launch_pending p v ∙ e)
      ]

module _ (w : World) (command : List String) (timeout : Duration) where
  pub execute-Ended :
      (run : Run) → execute w (some command) timeout ≡ some run → Ended w (w.start + timeout) 0 run
  unfolding execute
  execute-Ended run e = run_from-Ended w (w.start + timeout) (timeout + 1) 0 true run e

  module _ (moves : (j : ℕ) → (w.pass j).now < (w.pass (j + 1)).now)
      (begins : w.start ≤ (w.pass 0).now) where
    -- On a clock that moves from pass to pass, an execution ends: the fuel, one pass for each unit of
    -- the timeout and one more, is enough.
    pub execute_ends : (run : Run) × (execute w (some command) timeout ≡ some run)
    unfolding execute
    execute_ends =
        let fuel : suc timeout ≡ timeout + 1 = omega arith in
        subst (λ f. (run : Run) × (run_from w (w.start + timeout) f 0 true ≡ some run)) fuel
          (run_from_ends w (w.start + timeout) timeout 0 true moves (omega (arith, begins)))

    -- On such a clock, where a pass finds the lease lost or the cancellation asked for, the execution
    -- has ended by that pass, whatever the command does.
    pub execute_stops :
        (n : ℕ)
        → ((w.pass n).lease_lost ≡ true) ⊎ ((w.pass n).cancelled ≡ true)
        → (run : Run) × (execute w (some command) timeout ≡ some run) × (run.last_pass ≤ n)
    execute_stops n due =
        let (run, e) = execute_ends in
        let ended : Ended w (w.start + timeout) 0 run = execute-Ended run e in
        (
          run,
          e,
          elim (Bool-cases (ltb n run.last_pass)) [
            | inr not_after ↦ ground arith
            | inl after ↦
                let (_, held, calm) = ended.quiet n (omega arith) (ground arith) in
                elim due [ inl lost ↦ cc | inr asked ↦ cc ]
          ],
        )
