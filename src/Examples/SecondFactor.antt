-- ===== src/Examples/SecondFactor.antt =====
-- A one-time code, and an account that another one created.
use chancery.Prelude.{
  ℕ, ◌+◌, ◌%◌, ◌≤◌, ◌<◌, ◌≡◌, refl, none, some, true, false, [], ◌∷◌, ◌↔◌, ◌==◌, if◌then◌else◌,
}
use chancery.Factors.Totp.{Codes, Factor, totp, current_step, check_second_factor}
use chancery.Factors.Replay.{present_all, totp-once}
use chancery.Factors.DualControl.{
  Account, Settings, Involved, is_exempt, can_approve, can_approve-iff-Involved,
}

-- A code is even or odd, as its step is.
codes : Codes
codes = record {
  hotp = λ secret n. if n % 2 == 0 then "even" else "odd";
  tidy = λ typed. typed;
  is_code = λ code. true;
  normalise_recovery = λ typed. none;
  check_hash = λ hash code. false;
}

factor : Factor
factor = record { secret = "s"; totp_last_step = some 3; recovery_codes = [] }

program : Unit {0}
unfolding codes factor check_second_factor
program = tt

first_accepted : (check_second_factor codes 300 "even" factor).0 ≡ some totp
unfolding program
first_accepted = refl

second_accepted :
    (check_second_factor codes 300 "odd"
      (present_all codes ((300, "even") ∷ []) (check_second_factor codes 300 "even" factor).1)).0
    ≡ some totp
unfolding program
second_accepted = refl

totp-once_example :
    (n : ℕ) × (m : ℕ) × (n < m)
    × (codes.hotp factor.secret n ≡ codes.tidy "even")
    × (codes.hotp factor.secret m ≡ codes.tidy "odd")
    × (n ≤ current_step 300 + 1)
    × (m ≤ current_step 300 + 1)
totp-once_example =
    totp-once codes factor 300 "even" ((300, "even") ∷ []) 300 "odd" first_accepted second_accepted

settings : Settings
settings = record {
  enabled = true;
  admin_username = "admin";
  cooldown_hours = 24;
  ldap_enabled = false;
}

carol : Account
carol = record {
  id = 5;
  username = "carol";
  is_active_user = true;
  created_by = some 2;
  created_at = some 100;
  password_reset_by = none;
  password_reset_at = none;
}

carol-not_exempt : is_exempt settings carol ≡ false
unfolding settings carol is_exempt
carol-not_exempt = refl

can_approve-iff-Involved_example :
    (can_approve settings 200 (some carol) (some 2) ≡ false) ↔ Involved settings 200 carol 2
can_approve-iff-Involved_example = can_approve-iff-Involved settings 200 carol 2 carol-not_exempt
