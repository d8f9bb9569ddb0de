-- ===== src/Scheduler/Isolated.antt =====
-- A job that fails stops no other, and is run again (`tick` of app/services/scheduler_service.py).
use chancery.Prelude.{
  ℕ, ◌+◌, ◌≤◌, ◌≡◌, refl, sym, ap, ◌∙◌, String, Option, none, some, Bool, true, false, ◌||◌, List,
  [], ◌∷◌, ◌++◌, Elem, here, there, Option-cases, inl, inr, arith, leb, ◌==◌, Bool-cases, seconds,
}
use chancery.Scheduler.Tick.{JobRow, Job, job_is_due, settle, message_of, runs, run_jobs}

-- What a pass does to a job when the rest of the database is `s`, and `mid` is it afterwards: a job
-- that is not due does nothing and keeps its row; one that is due has run on `s`, and its row says so;
-- or it raised, its row says why, in words that the pass has among its errors, and it is due again.
pub data Handled {S : Type 0} (force : Bool) (now : ℕ) (errors : List String) (s mid : S)
    (before after : Job S × JobRow) : Type 0 where
  waited :
      runs force now before ≡ false
      → mid ≡ s
      → after ≡ before
      → Handled force now errors s mid before after
  succeeded :
      runs force now before ≡ true
      → before.0.run now s ≡ (mid, none)
      → after ≡ (before.0, record { last_run_at = some now; last_error = none })
      → Handled force now errors s mid before after
  failed :
      (message : String)
      → runs force now before ≡ true
      → before.0.run now s ≡ (mid, some message)
      → after ≡ (before.0, record { last_run_at = before.1.last_run_at; last_error = some message })
      → Elem message errors
      → ((later : ℕ) → now ≤ later → runs force later after ≡ true)
      → Handled force now errors s mid before after

-- The jobs one after the other, each on what the one before left, from `s` to `end_`.
abbrev pub AllHandled :
    {S : Type 0}
    → Bool
    → ℕ
    → List String
    → S
    → S
    → List (Job S × JobRow)
    → List (Job S × JobRow)
    → Type 0
AllHandled force now errors s end_ [] [] = s ≡ end_
AllHandled force now errors s end_ [] (k ∷ ks) = ⊥
AllHandled force now errors s end_ (j ∷ js) [] = ⊥
AllHandled {S} force now errors s end_ (j ∷ js) (k ∷ ks) =
    (mid : S) × Handled force now errors s mid j k × AllHandled force now errors mid end_ js ks

more_errors : (ms es : List String) (m : String) → Elem m es → Elem m (ms ++ es)
more_errors [] es m h = h
more_errors (x ∷ ms) es m h = there (more_errors ms es m h)

widen :
    {S : Type 0} (force : Bool) (now : ℕ) (ms es : List String) (s mid : S) (j k : Job S × JobRow)
    → Handled force now es s mid j k
    → Handled force now (ms ++ es) s mid j k
widen force now ms es s mid j k (waited n d e) = waited n d e
widen force now ms es s mid j k (succeeded y d e) = succeeded y d e
widen force now ms es s mid j k (failed m y d e h again) =
    failed m y d e (more_errors ms es m h) again

widen_all :
    {S : Type 0} (force : Bool) (now : ℕ) (ms es : List String) (s end_ : S)
    (js ks : List (Job S × JobRow))
    → AllHandled force now es s end_ js ks
    → AllHandled force now (ms ++ es) s end_ js ks
widen_all force now ms es s end_ [] [] h = h
widen_all force now ms es s end_ [] (k ∷ ks) h = elim h [ ]
widen_all force now ms es s end_ (j ∷ js) [] h = elim h [ ]
widen_all force now ms es s end_ (j ∷ js) (k ∷ ks) h =
    (h.0, widen force now ms es s h.0 j k h.1, widen_all force now ms es h.0 end_ js ks h.2)

-- A job whose row has kept the time of its last run is due later too.
still_due :
    {S : Type 0} (force : Bool) (now later : ℕ) (job : Job S) (row : JobRow) (m : String)
    → runs force now (job, row) ≡ true
    → now ≤ later
    → runs force later (job, record { last_run_at = row.last_run_at; last_error = some m }) ≡ true
unfolding runs job_is_due
still_due force now later job row m y l = elim (Option-cases row.last_run_at) [
  | inl e ↦ rw e (ground (arith, y))
  | inr (t, e) ↦ rw e (
      ground (
        arith,
        sym (
              ap
                (λ o.
                  force
                  || (job.interval == 0
                      || elim o [ none ↦ true | some t ↦ leb (t + seconds job.interval) now ]))
                e)
            ∙ y,
        l,
      ))
]

Handled-one :
    {S : Type 0} (force : Bool) (now : ℕ) (es : List String) (job : Job S) (row : JobRow)
    (s mid : S) (outcome : Option String)
    → runs force now (job, row) ≡ true
    → job.run now s ≡ (mid, outcome)
    → Handled force now (message_of outcome ++ es) s mid (job, row) (job, settle now outcome row)
unfolding settle
Handled-one force now es job row s mid none y e = succeeded y e refl
Handled-one force now es job row s mid (some m) y e =
    failed m y e refl here (λ later l. still_due force now later job row m y l)

-- In a pass over the jobs each job that is due runs once, on what the jobs before it left, whatever
-- came of them, and every other is left as it is. The row of a job that returns has the time of the
-- pass and no error. The row of one that raises keeps the time of its last success, so that the job
-- is due again at every later moment; its message is in the row and among the errors of the pass.
pub run_jobs-AllHandled :
    {S : Type 0} (force : Bool) (now : ℕ) (js : List (Job S × JobRow)) (s : S)
    → AllHandled force now
        (run_jobs force now js s).errors
        s
        (run_jobs force now js s).rest
        js
        (run_jobs force now js s).jobs
unfolding run_jobs
run_jobs-AllHandled force now [] s = refl
run_jobs-AllHandled force now (j ∷ js) s = elim (Bool-cases (runs force now j)) [
  | inl y ↦
      let result = j.0.run now s in
      let rest = run_jobs-AllHandled force now js result.0 in
      rw y (
        result.0,
        Handled-one force now (run_jobs force now js result.0).errors j.0 j.1 s result.0 result.1 y
            refl,
        widen_all force now (message_of result.1) (run_jobs force now js result.0).errors result.0
            (run_jobs force now js result.0).rest js (run_jobs force now js result.0).jobs rest,
      )
  | inr n ↦ rw n (s, waited n refl refl, run_jobs-AllHandled force now js s)
]
