-- ===== src/Examples/Scheduling.antt =====
-- Tests and witnesses for Scheduler: two jobs, of which one fails, two workers, and a certificate that
-- runs towards its end.
use chancery.Prelude.{
  ℕ, suc, ◌≤◌, ◌≡◌, refl, String, none, some, Bool, true, false, List, [], ◌∷◌, any_of, count_where,
  arith, days,
}
use chancery.Scheduler.Expiry.{
  certificate, Item, expiring, expired, Run, history, job_expiry_events,
}
use chancery.Scheduler.OnceEach.{is_expired, is_expiring, reaches_end, one_if, history_once}
use chancery.Scheduler.Tick.{JobRow, Job, Scheduler, run_jobs, tick}
use chancery.Scheduler.Isolated.{AllHandled, run_jobs-AllHandled}
use chancery.Scheduler.Exclusive.{other_ticks, tick-exclusive}

abbrev leaf : Item
leaf = record {
  id = 4;
  is_revoked = false;
  has_renewals = false;
  not_after = days 100;
  expiry_notified_at = none;
}

abbrev run_at : ℕ → Bool → Run
run_at n fails = record { now = days n; warning_days = 30; fails = λ t i. fails }

abbrev runs_of_leaf : List Run
runs_of_leaf =
    run_at 10 false
    ∷ run_at 71 true
    ∷ run_at 72 false
    ∷ run_at 73 false
    ∷ run_at 100 true
    ∷ run_at 101 false
    ∷ run_at 102 false
    ∷ []

program : Unit {0}
unfolding history run_jobs tick job_expiry_events
program = tt

leaf-history : history certificate runs_of_leaf leaf ≡ expiring ∷ expired ∷ []
unfolding program
leaf-history = refl

leaf-reports :
    (job_expiry_events (run_at 101 false) (leaf ∷ []) []).1
    ≡ record { target = certificate; id = 4; stage = expired; sent = true } ∷ []
unfolding program
leaf-reports = refl

history_once_example :
    (count_where is_expired (history certificate runs_of_leaf leaf)
      ≡ one_if (any_of (reaches_end certificate leaf) runs_of_leaf))
    × (count_where is_expiring (history certificate runs_of_leaf leaf) ≤ 1)
history_once_example = history_once certificate runs_of_leaf leaf (refl, refl) refl

-- The rest of the database is the number of jobs that have run.
abbrev failing : Job ℕ
failing = record { name = "a"; interval = 0; run = λ now n. (suc n, some "a: failed") }

abbrev daily : Job ℕ
daily = record { name = "b"; interval = 86400; run = λ now n. (suc n, none) }

abbrev new_job : Job ℕ → Job ℕ × JobRow
new_job j = (j, record { last_run_at = none; last_error = none })

abbrev jobs : List (Job ℕ × JobRow)
jobs = new_job failing ∷ new_job daily ∷ []

both_ran : (run_jobs false 5 jobs 0).rest ≡ 2
unfolding program
both_ran = refl

run_jobs-AllHandled_example :
    AllHandled false 5
      (run_jobs false 5 jobs 0).errors
      0
      (run_jobs false 5 jobs 0).rest
      jobs
      (run_jobs false 5 jobs 0).jobs
run_jobs-AllHandled_example = run_jobs-AllHandled false 5 jobs 0

abbrev scheduler : Scheduler ℕ
scheduler = record {
  lease = record { holder = none; expires_at = none; last_tick_at = none };
  last_error = none;
  jobs = jobs;
  rest = 0;
  audited = [];
}

one_audit :
    (tick false 180 6 "w1" (tick false 180 5 "w1" scheduler).1).1.audited ≡ ("a: failed" ∷ []) ∷ []
unfolding program
one_audit = refl

first_ran : (tick false 180 5 "w1" scheduler).0 ≡ true
unfolding program
first_ran = refl

abbrev others : List (String × ℕ)
others = ("w2", 6) ∷ ("w3", 7) ∷ []

tick-exclusive_example :
    other_ticks 180 others (tick false 180 5 "w1" scheduler).1 ≡ (tick false 180 5 "w1" scheduler).1
tick-exclusive_example =
    tick-exclusive 180 5 "w1" scheduler others first_ran
      (refl, omega arith, (refl, omega arith, tt))
