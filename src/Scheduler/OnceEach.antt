-- ===== src/Scheduler/OnceEach.antt =====
-- Each row is reported as expiring at most once and as expired exactly once
-- (`job_expiry_events` of app/services/scheduler_service.py).
use chancery.Prelude.{
  ℕ, ◌≤◌, ◌<◌, ◌≡◌, refl, ap, ◌∙◌, none, some, Bool, true, false, not, ◌&&◌, List, [], ◌∷◌, any_of,
  count_where, inl, inr, arith, leb, if◌then◌else◌, Bool-cases, if_true, if_false,
}
use chancery.Scheduler.Expiry.{
  Target, Item, Stage, expiring, expired, Run, is_due, mark, sent_stage, history, stage_of,
}

abbrev pub is_expired : Stage → Bool
is_expired expiring = false
is_expired expired = true

abbrev pub is_expiring : Stage → Bool
is_expiring expiring = true
is_expiring expired = false

-- A run after the end that does not fail for the row.
abbrev pub reaches_end : Target → Item → Run → Bool
reaches_end t i r = leb i.not_after r.now && not (r.fails t i.id)

abbrev pub one_if : Bool → ℕ
one_if b = if b then 1 else 0

idle :
    (r : Run) (t : Target) (i : Item)
    → (is_due r.now r.warning_days i && not (r.fails t i.id)) ≡ false
    → (sent_stage r t i ≡ []) × (mark r t i ≡ i)
unfolding sent_stage mark
idle r t i n = (if_false _ _ _ n, if_false _ _ _ n)

active :
    (r : Run) (t : Target) (i : Item)
    → (is_due r.now r.warning_days i && not (r.fails t i.id)) ≡ true
    → (sent_stage r t i ≡ stage_of r.now i ∷ [])
      × (mark r t i ≡ record i { expiry_notified_at = some r.now })
unfolding sent_stage mark
active r t i y = (if_true _ _ _ y, if_true _ _ _ y)

-- Nothing is sent once the end was reported.
quiet :
    (t : Target) (rs : List Run) (i : Item) (n : ℕ)
    → i.expiry_notified_at ≡ some n
    → i.not_after ≤ n
    → history t rs i ≡ []
unfolding history
quiet t [] i n e l = refl
quiet t (r ∷ rs) i n e l =
    let k = idle r t i (not_due r t i n e l) in rw (k.0, k.1) (quiet t rs i n e l)
  where
    not_due :
        (r : Run) (t : Target) (i : Item) (n : ℕ)
        → i.expiry_notified_at ≡ some n
        → i.not_after ≤ n
        → (is_due r.now r.warning_days i && not (r.fails t i.id)) ≡ false
    not_due r t i n e l = rw (is_due, e) (ground (arith, l))

history_idle :
    (r : Run) (rs : List Run) (t : Target) (i : Item)
    → (is_due r.now r.warning_days i && not (r.fails t i.id)) ≡ false
    → history t (r ∷ rs) i ≡ history t rs i
unfolding history
history_idle r rs t i n = let k = idle r t i n in rw (k.0, k.1) refl

history_active :
    (r : Run) (rs : List Run) (t : Target) (i : Item)
    → (is_due r.now r.warning_days i && not (r.fails t i.id)) ≡ true
    → history t (r ∷ rs) i
      ≡ stage_of r.now i ∷ history t rs (record i { expiry_notified_at = some r.now })
unfolding history
history_active r rs t i y = let k = active r t i y in rw (k.0, k.1) refl

history_nil : (t : Target) (i : Item) → history t [] i ≡ []
unfolding history
history_nil t i = refl

-- The row is neither revoked nor renewed.
abbrev pub Live : Item → Type 0
Live i = (i.is_revoked ≡ false) × (i.has_renewals ≡ false)

ended :
    (r : Run) (rs : List Run) (t : Target) (i : Item)
    → (is_due r.now r.warning_days i && not (r.fails t i.id)) ≡ true
    → leb i.not_after r.now ≡ true
    → history t (r ∷ rs) i ≡ expired ∷ []
ended r rs t i y late =
    history_active r rs t i y
    ∙ ap
        (λ b.
          (if b then expired else expiring)
          ∷ history t rs (record i { expiry_notified_at = some r.now }))
        late
    ∙ ap (λ h. expired ∷ h)
        (quiet t rs (record i { expiry_notified_at = some r.now }) r.now refl
          (ground (arith, late)))

-- When the row is due, in terms of `reaches_end`.
due_half :
    (r : Run) (t : Target) (i : Item) (n : ℕ)
    → Live i
    → i.expiry_notified_at ≡ some n
    → n < i.not_after
    → reaches_end t i r ≡ true
    → (is_due r.now r.warning_days i && not (r.fails t i.id)) ≡ true
unfolding is_due
due_half r t i n live e l y = rw (e, live.0, live.1) (ground (arith, l, y))

idle_half :
    (r : Run) (t : Target) (i : Item) (n : ℕ)
    → i.expiry_notified_at ≡ some n
    → reaches_end t i r ≡ false
    → (is_due r.now r.warning_days i && not (r.fails t i.id)) ≡ false
unfolding is_due
idle_half r t i n e no_ = rw e (ground (arith, no_))

due_late :
    (r : Run) (t : Target) (i : Item)
    → Live i
    → i.expiry_notified_at ≡ none
    → reaches_end t i r ≡ true
    → (is_due r.now r.warning_days i && not (r.fails t i.id)) ≡ true
unfolding is_due
due_late r t i live e y = rw (e, live.0, live.1) (ground (arith, y))

window :
    (r : Run) (t : Target) (i : Item)
    → reaches_end t i r ≡ false
    → (is_due r.now r.warning_days i && not (r.fails t i.id)) ≡ true
    → r.now < i.not_after
unfolding is_due
window r t i no_ y = ground (arith, no_, y)

-- The counts once the row was reported as expiring.
half :
    (t : Target) (rs : List Run) (i : Item) (n : ℕ)
    → Live i
    → i.expiry_notified_at ≡ some n
    → n < i.not_after
    → (count_where is_expired (history t rs i) ≡ one_if (any_of (reaches_end t i) rs))
      × (count_where is_expiring (history t rs i) ≡ 0)
half t [] i n live e l =
    (ap (count_where is_expired) (history_nil t i), ap (count_where is_expiring) (history_nil t i))
half t (r ∷ rs) i n live e l = elim (Bool-cases (reaches_end t i r)) [
  | inl y ↦
      let late : leb i.not_after r.now ≡ true = ground (arith, y) in
      let due = due_half r t i n live e l y in rw (ended r rs t i due late, y) (refl, refl)
  | inr no_ ↦
      let rest = half t rs i n live e l in
      rw (history_idle r rs t i (idle_half r t i n e no_), no_) rest
]

-- A row that is not revoked and not renewed, and was not reported before, is reported as expired
-- exactly once if some run after its end does not fail for it, and never else; and as expiring at most
-- once. The runs may come in any order of time and with any failures.
pub history_once :
    (t : Target) (rs : List Run) (i : Item)
    → Live i
    → i.expiry_notified_at ≡ none
    → (count_where is_expired (history t rs i) ≡ one_if (any_of (reaches_end t i) rs))
      × (count_where is_expiring (history t rs i) ≤ 1)
history_once t [] i live e =
    (ap (count_where is_expired) (history_nil t i), rw (history_nil t i) (omega arith))
history_once t (r ∷ rs) i live e = elim (Bool-cases (reaches_end t i r)) [
  | inl y ↦
      let late : leb i.not_after r.now ≡ true = ground (arith, y) in
      rw (ended r rs t i (due_late r t i live e y) late, y) (refl, omega arith)
  | inr no_ ↦ elim (Bool-cases (is_due r.now r.warning_days i && not (r.fails t i.id))) [
    | inl y ↦
        let early = window r t i no_ y in
        let before : leb i.not_after r.now ≡ false = ground (arith, early) in
        let rest = half t rs (record i { expiry_notified_at = some r.now }) r.now live refl early in
        let step =
          history_active r rs t i y
          ∙ ap
              (λ b.
                (if b then expired else expiring)
                ∷ history t rs (record i { expiry_notified_at = some r.now }))
              before in
        rw (step, no_) (rest.0, omega (arith, rest.1))
    | inr idle_ ↦
        let rest = history_once t rs i live e in rw (history_idle r rs t i idle_, no_) rest
  ]
]
