-- ===== src/Scheduler/Tick.antt =====
-- `job_is_due` and `tick` of app/services/scheduler_service.py, with the rows of
-- app/models/scheduler_lease.py. A job is a function on the rest of the database; it gives what it
-- committed and, where it raises, the message as the tick writes it, which is never empty. The
-- audit row of an error is written.
use chancery.Prelude.{
  ℕ, ◌+◌, String, Option, none, some, Bool, true, false, not, ◌||◌, List, [], ◌∷◌, ◌++◌, is_text,
  leb, ◌==◌, if◌then◌else◌, seconds,
}
use Prim.Native.String as Str
use chancery.Tokens.Lease.{Lease, acquire_lease}

pub record JobRow : Type 0 where
  pub last_run_at : Option ℕ
  pub last_error : Option String

pub record Job (S : Type 0) : Type 0 where
  pub name : String
  pub interval : ℕ
  pub run : ℕ → S → S × Option String

unfoldable pub job_is_due : ℕ → JobRow → ℕ → Bool
job_is_due interval row now =
    interval == 0 || elim row.last_run_at [ none ↦ true | some t ↦ leb (t + seconds interval) now ]

-- The row after a run that returned, or that raised.
unfoldable pub settle : ℕ → Option String → JobRow → JobRow
settle now none row = record { last_run_at = some now; last_error = none }
settle now (some message) row = record row { last_error = some message }

abbrev pub message_of : Option String → List String
message_of none = []
message_of (some m) = m ∷ []

pub record Pass (S : Type 0) : Type 0 where
  pub jobs : List (Job S × JobRow)
  pub errors : List String
  pub skipped : List String
  pub rest : S

unfoldable pub runs : {S : Type 0} → Bool → ℕ → Job S × JobRow → Bool
unfolding job_is_due
runs force now j = force || job_is_due j.0.interval j.1 now

abbrev skip : {S : Type 0} → Job S × JobRow → Pass S → Pass S
skip j p = record p { jobs = j ∷ p.jobs; skipped = j.0.name ∷ p.skipped }

abbrev settled : {S : Type 0} → ℕ → Job S × JobRow → Option String → Pass S → Pass S
settled now j outcome p = record p {
  jobs = (j.0, settle now outcome j.1) ∷ p.jobs;
  errors = message_of outcome ++ p.errors;
}

-- The loop over the jobs.
unfoldable pub run_jobs : {S : Type 0} → Bool → ℕ → List (Job S × JobRow) → S → Pass S
unfolding runs settle
run_jobs force now [] s = record { jobs = []; errors = []; skipped = []; rest = s }
run_jobs force now (j ∷ js) s =
    let skipping = run_jobs force now js s in
    let result = j.0.run now s in
    let running = run_jobs force now js result.0 in
    if runs force now j then settled now j result.1 running else skip j skipping

-- `"; ".join(errors)`
abbrev pub join : List String → String
join [] = ""
join (e ∷ []) = e
join (e ∷ f ∷ es) = Str.◌++◌ e (Str.◌++◌ "; " (join (f ∷ es)))

-- What the tick reads and writes; `audited` are the `scheduler_error` rows.
pub record Scheduler (S : Type 0) : Type 0 where
  pub lease : Lease
  pub last_error : Option String
  pub jobs : List (Job S × JobRow)
  pub rest : S
  pub audited : List (List String)

abbrev pub joined : List String → Option String
joined [] = none
joined (e ∷ es) = some (join (e ∷ es))

-- `joined and joined != lease.last_error`
abbrev pub is_news : Option String → Option String → Bool
is_news none last = false
is_news (some e) last = not (is_text last e)

-- What the tick records of a pass.
unfoldable pub record_pass : {S : Type 0} → Pass S → Scheduler S → Scheduler S
record_pass p s =
    let errors = joined p.errors in
    record s {
      last_error = errors;
      jobs = p.jobs;
      rest = p.rest;
      audited = if is_news errors s.last_error then p.errors ∷ s.audited else s.audited;
    }

-- Whether the tick ran, and the state after it.
unfoldable pub tick : {S : Type 0} → Bool → ℕ → ℕ → String → Scheduler S → Bool × Scheduler S
unfolding acquire_lease run_jobs record_pass
tick force ttl_seconds now holder s =
    let lease = if force then (true, s.lease) else acquire_lease ttl_seconds now holder s.lease in
    if lease.0
    then (true, record_pass (run_jobs force now s.jobs s.rest) (record s { lease = lease.1 }))
    else (false, record s { lease = lease.1 })
