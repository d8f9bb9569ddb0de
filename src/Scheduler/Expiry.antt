-- ===== src/Scheduler/Expiry.antt =====
-- `_due_for_expiry_event` and `job_expiry_events` of app/services/scheduler_service.py. A row is a
-- certificate or an authority; an authority has no renewals. Whether the audit row or the commit of a
-- row fails is an argument.
use chancery.Prelude.{
  ℕ, ◌+◌, Option, none, some, Bool, true, not, ◌&&◌, ◌||◌, List, [], ◌∷◌, ◌++◌, map, filter_by,
  is_none, ltb, leb, if◌then◌else◌, days,
}

pub data Target : Type 0 where
  certificate ca : Target

pub record Item : Type 0 where
  pub id : ℕ
  pub is_revoked : Bool
  pub has_renewals : Bool
  pub not_after : ℕ
  pub expiry_notified_at : Option ℕ

abbrev pub never_or_before : Option ℕ → ℕ → Bool
never_or_before none t = true
never_or_before (some n) t = ltb n t

-- The filter of the query.
unfoldable pub is_due : ℕ → ℕ → Item → Bool
is_due now warning_days i =
    (not i.is_revoked && not i.has_renewals)
    && ((leb i.not_after now && never_or_before i.expiry_notified_at i.not_after)
        || ((ltb now i.not_after && leb i.not_after (now + days warning_days))
            && is_none i.expiry_notified_at))

-- `.order_by(not_after)`
unfoldable pub insert_by_end : Item → List Item → List Item
insert_by_end i [] = i ∷ []
insert_by_end i (j ∷ js) =
    let rest = insert_by_end i js in if leb i.not_after j.not_after then i ∷ j ∷ js else j ∷ rest

unfoldable pub sort_by_end : List Item → List Item
unfolding insert_by_end
sort_by_end [] = []
sort_by_end (i ∷ is) = insert_by_end i (sort_by_end is)

unfoldable pub due_for_expiry_event : ℕ → ℕ → List Item → List Item
unfolding is_due sort_by_end
due_for_expiry_event now warning_days items =
    sort_by_end (filter_by (is_due now warning_days) items)

pub data Stage : Type 0 where
  expiring expired : Stage

-- `{prefix}_expired` or `{prefix}_expiring`
abbrev pub stage_of : ℕ → Item → Stage
stage_of now i = if leb i.not_after now then expired else expiring

-- An audit row, or an entry of `failed`.
pub record Report : Type 0 where
  pub target : Target
  pub id : ℕ
  pub stage : Stage
  pub sent : Bool

pub record Run : Type 0 where
  pub now : ℕ
  pub warning_days : ℕ
  pub fails : Target → ℕ → Bool

-- The row after the run: a due row is marked, unless its event or its commit fails.
unfoldable pub mark : Run → Target → Item → Item
unfolding is_due
mark r t i =
    if is_due r.now r.warning_days i && not (r.fails t i.id)
    then record i { expiry_notified_at = some r.now }
    else i

unfoldable pub reports : Run → Target → List Item → List Report
unfolding due_for_expiry_event
reports r t items =
    map
      (λ i. record { target = t; id = i.id; stage = stage_of r.now i; sent = not (r.fails t i.id) })
      (due_for_expiry_event r.now r.warning_days items)

-- The two tables after the run, and what was reported, the certificates first.
unfoldable pub job_expiry_events :
    Run → List Item → List Item → (List Item × List Item) × List Report
unfolding mark reports
job_expiry_events r certificates cas = (
  (map (mark r certificate) certificates, map (mark r ca) cas),
  reports r certificate certificates ++ reports r ca cas,
)

-- The events of one row over a number of runs.
unfoldable pub sent_stage : Run → Target → Item → List Stage
unfolding is_due
sent_stage r t i =
    if is_due r.now r.warning_days i && not (r.fails t i.id) then stage_of r.now i ∷ [] else []

unfoldable pub history : Target → List Run → Item → List Stage
unfolding mark sent_stage
history t [] i = []
history t (r ∷ rs) i = sent_stage r t i ++ history t rs (mark r t i)
