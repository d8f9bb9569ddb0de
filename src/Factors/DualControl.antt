-- ===== src/Factors/DualControl.antt =====
-- `is_exempt`, `is_active`, `can_approve` and `refuse_reason` of app/services/dual_control_service.py.
use chancery.Prelude.{
  ℕ, ◌+◌, ◌≤◌, ◌≡◌, ◌≢◌, refl, sym, ap, ◌∙◌, String, Option, none, some, Bool, true, false, not,
  ◌&&◌, ◌||◌, List, any_of, is_num, ◌⊎◌, inl, inr, ◌↔◌, arith, leb, ◌==◌, if◌then◌else◌, leb→le,
  le→leb, ==_iff, Bool-cases, str_eq, hours,
}

-- The row of an account as far as an approval reads it.
pub record Account : Type 0 where
  pub id : ℕ
  pub username : String
  pub is_active_user : Bool
  pub created_by : Option ℕ
  pub created_at : Option ℕ
  pub password_reset_by : Option ℕ
  pub password_reset_at : Option ℕ

pub record Settings : Type 0 where
  pub enabled : Bool
  pub admin_username : String
  pub cooldown_hours : ℕ
  pub ldap_enabled : Bool

unfoldable pub is_exempt : Settings → Account → Bool
is_exempt s a = str_eq a.username s.admin_username

-- `is_active`
unfoldable pub is_active : Settings → List Account → Bool
unfolding is_exempt
is_active s accounts =
    s.enabled && (any_of (λ a. a.is_active_user && not (is_exempt s a)) accounts || s.ldap_enabled)

-- Within the cooldown before now.
abbrev pub is_recent : Settings → ℕ → Option ℕ → Bool
is_recent s now none = false
is_recent s now (some t) = leb now (t + hours s.cooldown_hours)

-- `can_approve`, of an account that is there and a creator that is known.
unfoldable pub may_approve : Settings → ℕ → Account → ℕ → Bool
may_approve s now a creator =
    if a.id == creator
    then false
    else if s.cooldown_hours == 0
    then true
    else if is_num a.created_by creator && is_recent s now a.created_at
    then false
    else if is_num a.password_reset_by creator && is_recent s now a.password_reset_at
    then false
    else true

unfoldable pub can_approve : Settings → ℕ → Option Account → Option ℕ → Bool
unfolding is_exempt may_approve
can_approve s now none creator = false
can_approve s now (some a) creator =
    if is_exempt s a then true else elim creator [ none ↦ true | some c ↦ may_approve s now a c ]

-- `refuse_reason`: none where it is allowed; for no account at all the code fails on `approver.id`.
pub data Refusal : Type 0 where
  same_person too_recent : Refusal

pub data Answer : Type 0 where
  allowed : Answer
  refused : Refusal → Answer
  attribute_error : Answer

unfoldable pub refuse_reason : Settings → ℕ → Option Account → Option ℕ → Answer
unfolding can_approve
refuse_reason s now approver creator =
    if can_approve s now approver creator then allowed else elim approver [
      | none ↦ attribute_error
      | some a ↦ if is_num creator a.id then refused same_person else refused too_recent
    ]

-- Two accounts stand in each other's way: one is the other, or was created or reset by it in the
-- cooldown.
abbrev pub Involved : Settings → ℕ → Account → ℕ → Type 0
Involved s now a c =
    (a.id ≡ c)
    ⊎ ((s.cooldown_hours ≢ 0)
        × (((a.created_by ≡ some c)
              × ((t : ℕ) × (a.created_at ≡ some t) × (now ≤ t + hours s.cooldown_hours)))
            ⊎ ((a.password_reset_by ≡ some c)
                × ((t : ℕ) × (a.password_reset_at ≡ some t) × (now ≤ t + hours s.cooldown_hours)))))

is_num-eq : (o : Option ℕ) (n : ℕ) → is_num o n ≡ true → o ≡ some n
is_num-eq none n h = cc
is_num-eq (some m) n h = ap some ((==_iff m n).0 h)

eq-is_num : (o : Option ℕ) (n : ℕ) → o ≡ some n → is_num o n ≡ true
eq-is_num none n h = cc
eq-is_num (some m) n h = let same : m ≡ n = cc in ground (arith, same)

recent-moment :
    (s : Settings) (now : ℕ) (o : Option ℕ)
    → is_recent s now o ≡ true
    → (t : ℕ) × (o ≡ some t) × (now ≤ t + hours s.cooldown_hours)
recent-moment s now none h = absurd_false h
  where
    absurd_false : {C : Type 0} → false ≡ true → C
    absurd_false e = cc
recent-moment s now (some t) h = (t, refl, leb→le _ _ h)

moment-recent :
    (s : Settings) (now : ℕ) (o : Option ℕ) (t : ℕ)
    → o ≡ some t
    → now ≤ t + hours s.cooldown_hours
    → is_recent s now o ≡ true
moment-recent s now o t e h = rw e (le→leb _ _ h)

refused-Involved :
    (s : Settings) (now : ℕ) (a : Account) (c : ℕ)
    → may_approve s now a c ≡ false
    → Involved s now a c
unfolding may_approve
refused-Involved s now a c h = elim (Bool-cases (a.id == c)) [
  | inl same ↦ inl ((==_iff a.id c).0 same)
  | inr other ↦
      let waits : (s.cooldown_hours == 0) ≡ false = ground (arith, h, other) in
      elim (Bool-cases (is_num a.created_by c && is_recent s now a.created_at)) [
        | inl made ↦ inr (
          ground (arith, waits),
          inl (
            is_num-eq a.created_by c (ground arith),
            recent-moment s now a.created_at (ground arith),
          ),
        )
        | inr not_made ↦
            let reset : (is_num a.password_reset_by c && is_recent s now a.password_reset_at)
                ≡ true =
              ground (arith, h, other, waits, not_made) in
            inr (
              ground (arith, waits),
              inr (
                is_num-eq a.password_reset_by c (ground arith),
                recent-moment s now a.password_reset_at (ground arith),
              ),
            )
      ]
]

Involved-refused :
    (s : Settings) (now : ℕ) (a : Account) (c : ℕ)
    → Involved s now a c
    → may_approve s now a c ≡ false
unfolding may_approve
Involved-refused s now a c (inl same) = ground (arith, same)
Involved-refused s now a c (inr (waits, inl (by, (t, at, soon)))) =
    let b = eq-is_num a.created_by c by in
    let r = moment-recent s now a.created_at t at soon in ground (arith, waits, b, r)
Involved-refused s now a c (inr (waits, inr (by, (t, at, soon)))) =
    let b = eq-is_num a.password_reset_by c by in
    let r = moment-recent s now a.password_reset_at t at soon in ground (arith, waits, b, r)

-- An account other than the bootstrap account may not approve what a known creator set up exactly
-- when it is the creator, or when a cooldown is set and the creator made the account or reset its
-- password within it.
pub can_approve-iff-Involved :
    (s : Settings) (now : ℕ) (a : Account) (c : ℕ)
    → is_exempt s a ≡ false
    → (can_approve s now (some a) (some c) ≡ false) ↔ Involved s now a c
unfolding can_approve
can_approve-iff-Involved s now a c e =
    (λ h. refused-Involved s now a c (plain ∙ h), λ i. sym plain ∙ Involved-refused s now a c i)
  where
    plain : may_approve s now a c ≡ can_approve s now (some a) (some c)
    plain = rw e refl
