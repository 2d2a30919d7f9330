-- ===== src/Tests/Executions.antt =====
-- The execution of a command, and iterations of the worker loop.
use aethergrid.Base.{
  ℕ, ◌+◌, ◌==◌, ◌<◌, ◌≤◌, ◌≡◌, inl, inr, refl, true, false, none, some, [], ◌∷◌, pos, arith,
}
use aethergrid.Domain.Lease.{Lease}
use aethergrid.Service.Leases.Fencing.{Holds}
use aethergrid.Execution.Process.{World, Run, returned, closed, expired, sigterm, sigkill, execute}
use aethergrid.Execution.Process.Stops.{execute_ends, execute_stops}
use aethergrid.Execution.Loop.{Iteration, Renewal, Tick, keep_lease_alive, conclude}
use aethergrid.Execution.Loop.Stale.{IsDropped, conclude-IsDropped}
use aethergrid.Tests.Data.{env, busy, idle_worker, running_job}

-- The command starts at the first pass; the cancellation is asked for at the third one.
abbrev pub cancelled_at_2 : World
cancelled_at_2 = record {
  start = 0;
  pass = λ k. record {
    now = k;
    lease_lost = false;
    cancelled = k == 2;
    status = closed "";
    communicate = expired false;
  };
  ending = λ k. record { first = some ("out", ""); second = none; exit_code = none; now = k + 1 };
  report = λ _. none;
  describe = λ _. "";
}

abbrev cancelled_run : Run
cancelled_run = record {
  outcome = returned (record {
    exit_code = none;
    timed_out = false;
    cancelled = true;
    duration = 3;
    stdout = "out";
    stderr = "";
    lease_lost = false;
  });
  signals = sigterm ∷ sigkill ∷ [];
  last_pass = 2;
}

passes_move : (j : ℕ) → (cancelled_at_2.pass j).now < (cancelled_at_2.pass (j + 1)).now
passes_move j = omega arith

execute_ends_example : (run : Run) × (execute cancelled_at_2 (some ("sleep" ∷ [])) 10 ≡ some run)
execute_ends_example = execute_ends cancelled_at_2 ("sleep" ∷ []) 10 passes_move (omega arith)

execute_stops_example :
    (run : Run) × (execute cancelled_at_2 (some ("sleep" ∷ [])) 10 ≡ some run) × (run.last_pass ≤ 2)
execute_stops_example =
    execute_stops cancelled_at_2 ("sleep" ∷ []) 10 passes_move (omega arith) 2 (inr refl)

-- A command that ended well, after a renewal that found another lease.
abbrev finished_job : Iteration
finished_job = record {
  ticks = [];
  settle = λ db. db;
  outcome = returned (record {
    exit_code = some (pos 0);
    timed_out = false;
    cancelled = false;
    duration = 3;
    stdout = "";
    stderr = "";
    lease_lost = false;
  });
  env = env;
}

abbrev kept : Renewal
kept = record { job = running_job; cancel_event = false; lost_lease = false }

-- Another process takes the lease away before the renewal, and puts none in its place.
abbrev reclaimed : Tick
reclaimed = record { before = λ db. record db { leases = [] }; env = env; between = λ db. db }

-- The renewal thread ends, and the loop learns nothing of it.
keep_lease_alive-reclaimed : (keep_lease_alive 30 40 1 (reclaimed ∷ []) kept busy).0 ≡ kept
unfolding keep_lease_alive aethergrid.Service.Leases.renew_lease
    aethergrid.Store.Leases.get_by_worker_id
keep_lease_alive-reclaimed = refl

not_held : (lease : Lease) → ¬ Holds busy 30 39 1 lease
not_held lease h = elim h.stored [ inl e ↦ ground arith | inr m ↦ m ]

conclude-IsDropped_example : IsDropped busy (conclude finished_job idle_worker kept 39 1 busy)
conclude-IsDropped_example =
    conclude-IsDropped finished_job idle_worker kept 39 1 busy (inr not_held)
