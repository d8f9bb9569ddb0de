-- ===== src/Examples/SigningIn.antt =====
-- Two local accounts, wrong passwords and the credential cache.
use chancery.Prelude.{
  ◌⊎◌, ℕ, ◌+◌, ◌≤◌, ◌<◌, ◌≡◌, refl, String, none, some, Bool, true, false, List, [], ◌∷◌, length,
  arith, str_eq,
}
use chancery.Auth.Users.{User, Role, local, check_password}
use chancery.Auth.Lockout.{is_locked, is_last_active_admin}
use chancery.Auth.Login.{LdapAnswer, Settings, authenticate, account_locked}
use chancery.Auth.Guessing.{Account, sign_in_all, guesses_lock_out}
use chancery.Auth.Cache.{Entries, Limits, cache_get, cache_put}
use chancery.Auth.CacheLaws.{put-get}
use chancery.Auth.Login.{is_ok}
use chancery.Auth.Basic.{World, CurrentHit, FullLogin, authenticate_basic, authenticate_basic-ok}
use chancery.Auth.Sessions.{Owner, Session}
use chancery.Auth.Admission.{LetIn, authenticate-LetIn}

same_text : String → String → Bool
same_text hash password = str_eq hash password

settings : Settings
settings = record {
  policy = record { threshold = 3; lockout_minutes = 15 };
  ldap_enabled = false;
  admin_group = "";
  requester_group = "";
}

ann : User
ann = record {
  id = 1;
  username = "ann";
  password_hash = "secret";
  role = Role.admin;
  is_active_user = true;
  auth_source = local;
  failed_login_count = 1;
  locked_until = none;
  is_pending = false;
}

bob : User
bob = record {
  id = 2;
  username = "bob";
  password_hash = "hidden";
  role = Role.admin;
  is_active_user = true;
  auth_source = local;
  failed_login_count = 0;
  locked_until = none;
  is_pending = false;
}

users : List User
users = ann ∷ bob ∷ []

program : Unit {0}
unfolding settings ann bob users same_text authenticate is_last_active_admin sign_in_all
    check_password cache_get cache_put
program = tt

-- ann with a lock that is over.
stale : User
stale = record ann { locked_until = some 50 }

stale_users : List User
stale_users = stale ∷ bob ∷ []

stale_Account : Account "ann" stale_users stale
unfolding program stale stale_users
stale_Account = record {
  unique = (refl, (refl, tt));
  found = refl;
  local_account = refl;
  not_last_admin = refl;
  has_name = refl;
}

after_guesses : List User
after_guesses =
    sign_in_all same_text settings LdapAnswer.unavailable 9 "ann" ((100, "a") ∷ (200, "b") ∷ [])
      stale_users

guesses_lock_out_example :
    ((authenticate same_text settings LdapAnswer.unavailable 9 300 "ann" "secret"
        after_guesses).0.reason
      ≡ some account_locked)
    × ((authenticate same_text settings LdapAnswer.unavailable 9 300 "ann" "secret" after_guesses).1
        ≡ after_guesses)
unfolding program after_guesses stale stale_users is_locked
guesses_lock_out_example =
    guesses_lock_out same_text settings LdapAnswer.unavailable 9 "ann" ((200, "b") ∷ []) 100 "a"
      stale_users stale stale_Account (refl, refl, refl, (refl, refl, refl, tt)) refl 300 "secret"
      (omega arith) refl

authenticate-LetIn_example :
    LetIn same_text settings LdapAnswer.unavailable 50 "ann" "secret" users
      (authenticate same_text settings LdapAnswer.unavailable 9 50 "ann" "secret" users)
unfolding program
authenticate-LetIn_example =
    authenticate-LetIn same_text settings LdapAnswer.unavailable 50 "ann" "secret" users 9 refl

joined : String → String → String
joined name password = password

full_cache : Entries
full_cache =
    ("bob", record { mac = "hidden"; user_id = 2; auth_method = local; expires_at = 900 }) ∷ []

limits : Limits
limits = record { ttl = 60; max_entries = 1 }

put-get_example :
    (fs : Entries) × (cache_put joined limits 100 "ann" "secret" 1 local full_cache ≡ some fs)
    × (length fs ≤ 1)
    × ((t : ℕ) → t < 100 + 60 → cache_get joined limits t "ann" "secret" fs ≡ (some (1, local), fs))
    × ((t : ℕ) (other : String)
        → str_eq (joined "ann" "secret") (joined "ann" other) ≡ false
        → (cache_get joined limits t "ann" other fs).0 ≡ none)
unfolding program full_cache limits
put-get_example =
    put-get joined limits 100 "ann" "secret" 1 local full_cache (omega arith) (omega arith)
      (omega arith)

world : World
world = record {
  check_hash = same_text;
  mac = joined;
  settings = settings;
  limits = limits;
  directory = LdapAnswer.unavailable;
  new_id = 9;
  now = 50;
  clock = 100;
}

warm_cache : Entries
warm_cache =
    ("bob", record { mac = "hidden"; user_id = 2; auth_method = local; expires_at = 900 }) ∷ []

bob-accepted : is_ok (authenticate_basic world "bob" "hidden" users warm_cache).0 ≡ true
unfolding program limits world warm_cache joined authenticate_basic
bob-accepted = refl

authenticate_basic-ok_example :
    CurrentHit world "bob" "hidden" users warm_cache
      (authenticate_basic world "bob" "hidden" users warm_cache).0
    ⊎ FullLogin world "bob" "hidden" users
        (authenticate_basic world "bob" "hidden" users warm_cache).0
authenticate_basic-ok_example =
    authenticate_basic-ok world "bob" "hidden" users warm_cache bob-accepted

owners : List Owner
owners =
    record { id = 1; username = "ann"; session_version = 1 }
    ∷ record { id = 2; username = "bob"; session_version = 4 }
    ∷ []

bob_row : Owner
bob_row = record { id = 2; username = "bob"; session_version = 4 }

here_session : Session
here_session = record { user_id = 2; stamp = some 4 }
