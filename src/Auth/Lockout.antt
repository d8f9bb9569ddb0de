-- ===== src/Auth/Lockout.antt =====
-- The brute-force lockout of app/services/auth_service.py. LOGIN_LOCKOUT_THRESHOLD is a number that
-- is 0 where the setting is 0 or negative.
use chancery.Prelude.{
  ℕ, ◌+◌, ◌<◌, ◌≡◌, none, some, Bool, false, not, ◌&&◌, List, count_where, arith, ltb, leb, ◌==◌,
  if◌then◌else◌, minutes,
}
use chancery.Auth.Users.{User, is_admin, save_user}

pub record Policy : Type 0 where
  pub threshold : ℕ
  pub lockout_minutes : ℕ

-- `_is_locked`
unfoldable pub is_locked : ℕ → User → Bool
is_locked now u = elim u.locked_until [ none ↦ false | some t ↦ ltb now t ]

-- `_is_last_active_admin`
unfoldable pub is_last_active_admin : List User → User → Bool
is_last_active_admin users u =
    if not (is_admin u.role)
    then false
    else leb (count_where (λ v. is_admin v.role && v.is_active_user) users) 1

-- `_register_failed_attempt`, on the row.
unfoldable pub failed_attempt : Policy → ℕ → Bool → User → User
failed_attempt p now last_admin u =
    if p.threshold == 0
    then u
    else if leb p.threshold (u.failed_login_count + 1)
    then if last_admin then record u { failed_login_count = 0 } else record u {
      locked_until = some (now + minutes p.lockout_minutes);
      failed_login_count = 0;
    }
    else record u { failed_login_count = u.failed_login_count + 1 }

unfoldable pub register_failed_attempt : Policy → ℕ → User → List User → List User
unfolding is_last_active_admin failed_attempt save_user
register_failed_attempt p now u users =
    save_user (failed_attempt p now (is_last_active_admin users u) u) users

-- `_reset_lockout` and `clear_lockout`, on the row.
unfoldable pub cleared : User → User
cleared u = record u { failed_login_count = 0; locked_until = none }

pub counted :
    (p : Policy) (now : ℕ) (l : Bool) (u : User)
    → u.failed_login_count + 1 < p.threshold
    → failed_attempt p now l u ≡ record u { failed_login_count = u.failed_login_count + 1 }
unfolding failed_attempt
counted p now l u h = ground arith

pub locks :
    (p : Policy) (now : ℕ) (u : User)
    → u.failed_login_count + 1 ≡ p.threshold
    → failed_attempt p now false u
      ≡ record u { locked_until = some (now + minutes p.lockout_minutes); failed_login_count = 0 }
unfolding failed_attempt
locks p now u h = ground arith
