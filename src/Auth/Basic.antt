-- ===== src/Auth/Basic.antt =====
-- `authenticate_basic` of app/services/auth_service.py: the credential cache before `authenticate`.
-- The cache counts on a clock of its own.
use chancery.Prelude.{
  ℕ, ◌≡◌, refl, sym, ap, ◌∙◌, String, Option, none, some, Bool, true, false, ◌&&◌, ◌||◌, List,
  first_where, get_or, ◌⊎◌, inl, inr, ◌==◌, if◌then◌else◌, Bool-cases, str_eq,
}
use chancery.Auth.Users.{AuthSource, User, local}
use chancery.Auth.Login.{AuthResult, LdapAnswer, Settings, authenticate, is_ok, invalid_credentials}
use chancery.Auth.Cache.{Entries, Limits, cache_get, cache_put}
use chancery.Auth.Admission.{LetIn, authenticate-LetIn}

-- The surroundings of a request.
pub record World : Type 0 where
  pub check_hash : String → String → Bool
  pub mac : String → String → String
  pub settings : Settings
  pub limits : Limits
  pub directory : LdapAnswer
  pub new_id : ℕ
  pub now : ℕ
  pub clock : ℕ

abbrev pub find_id : ℕ → List User → Option User
find_id n = first_where (λ u. u.id == n)

-- `user is not None and user.username == username and user.is_active`
abbrev pub is_current : String → Option User → Bool
is_current name none = false
is_current name (some u) = str_eq u.username name && u.is_active_user

-- `cache.put` after a result that is ok; the case of a limit of no entries, where it raises, leaves
-- the cache as it was.
unfoldable pub remember : World → String → String → AuthResult → Entries → Entries
unfolding cache_put
remember w name password r es = elim r.user [
  | none ↦ es
  | some u ↦
      if is_ok r
      then get_or (cache_put w.mac w.limits w.clock name password u.id r.auth_method es) es
      else es
]

unfoldable pub full_login :
    World → String → String → List User → Entries → AuthResult × List User × Entries
unfolding authenticate remember
full_login w name password users es =
    let r = authenticate w.check_hash w.settings w.directory w.new_id w.now name password users in
    (r.0, r.1, remember w name password r.0 es)

unfoldable pub from_hit :
    World
    → String
    → String
    → List User
    → ℕ × AuthSource
    → Entries
    → AuthResult × List User × Entries
unfolding full_login
from_hit w name password users hit es =
    if is_current name (find_id hit.0 users)
    then (record { user = find_id hit.0 users; reason = none; auth_method = hit.1 }, users, es)
    else full_login w name password users es

unfoldable pub with_cache :
    World
    → String
    → String
    → List User
    → Option (ℕ × AuthSource) × Entries
    → AuthResult × List User × Entries
unfolding from_hit full_login
with_cache w name password users (none, es) = full_login w name password users es
with_cache w name password users (some hit, es) = from_hit w name password users hit es

abbrev pub nobody : AuthResult
nobody = record { user = none; reason = some invalid_credentials; auth_method = local }

unfoldable pub authenticate_basic :
    World → String → String → List User → Entries → AuthResult × List User × Entries
unfolding cache_get with_cache
authenticate_basic w name password users es =
    if str_eq name "" || str_eq password ""
    then (nobody, users, es)
    else with_cache w name password users (cache_get w.mac w.limits w.clock name password es)

-- A hit of the cache whose row is there now, active and of that name.
pub record CurrentHit (w : World) (name password : String) (users : List User) (es : Entries)
    (r : AuthResult) : Type 0 where
  pub user_id : ℕ
  pub method : AuthSource
  pub cached : (cache_get w.mac w.limits w.clock name password es).0 ≡ some (user_id, method)
  pub row : r.user ≡ find_id user_id users
  pub current : is_current name (find_id user_id users) ≡ true

abbrev pub FullLogin : World → String → String → List User → AuthResult → Type 0
FullLogin w name password users r =
    (r ≡ (authenticate w.check_hash w.settings w.directory w.new_id w.now name password users).0)
    × LetIn w.check_hash w.settings w.directory w.now name password users
        (authenticate w.check_hash w.settings w.directory w.new_id w.now name password users)

full-LetIn :
    (w : World) (name password : String) (users : List User) (es : Entries)
    → is_ok (full_login w name password users es).0 ≡ true
    → FullLogin w name password users (full_login w name password users es).0
unfolding full_login
full-LetIn w name password users es h = (
  refl,
  authenticate-LetIn w.check_hash w.settings w.directory w.now name password users w.new_id h,
)

hit-cases :
    (w : World) (name password : String) (users : List User) (hit : ℕ × AuthSource) (es : Entries)
    → ((is_current name (find_id hit.0 users) ≡ true)
        × ((from_hit w name password users hit es).0.user ≡ find_id hit.0 users))
      ⊎ (from_hit w name password users hit es ≡ full_login w name password users es)
unfolding from_hit
hit-cases w name password users hit es = elim (Bool-cases (is_current name (find_id hit.0 users))) [
  | inl y ↦ inl (y, rw y refl)
  | inr n ↦ inr (rw n refl)
]

no_hit :
    (w : World) (name password : String) (users : List User) (es : Entries)
    → with_cache w name password users (none, es) ≡ full_login w name password users es
unfolding with_cache
no_hit w name password users es = refl

a_hit :
    (w : World) (name password : String) (users : List User) (hit : ℕ × AuthSource) (es : Entries)
    → with_cache w name password users (some hit, es) ≡ from_hit w name password users hit es
unfolding with_cache
a_hit w name password users hit es = refl

pair-cases :
    (c : Option (ℕ × AuthSource) × Entries)
    → ((fs : Entries) × (c ≡ (none, fs)))
      ⊎ ((hit : ℕ × AuthSource) × (fs : Entries) × (c ≡ (some hit, fs)))
pair-cases (none, fs) = inl (fs, refl)
pair-cases (some hit, fs) = inr (hit, fs, refl)

asks_cache :
    (w : World) (name password : String) (users : List User) (es : Entries) (b : Bool)
    → (str_eq name "" || str_eq password "") ≡ b
    → authenticate_basic w name password users es ≡ (
        if b
        then (nobody, users, es)
        else with_cache w name password users (cache_get w.mac w.limits w.clock name password es))
unfolding authenticate_basic
asks_cache w name password users es b e =
    ap
      (λ z.
        if z
        then (nobody, users, es)
        else with_cache w name password users (cache_get w.mac w.limits w.clock name password es))
      e

basic-cases :
    (w : World) (name password : String) (users : List User) (es : Entries)
    → (is_ok (authenticate_basic w name password users es).0 ≡ false)
      ⊎ (((fs : Entries) × (authenticate_basic w name password users es
              ≡ full_login w name password users fs))
          ⊎ ((hit : ℕ × AuthSource) × (fs : Entries) × ((cache_get w.mac w.limits w.clock name
                  password es).0
                ≡ some hit)
              × (authenticate_basic w name password users es
                  ≡ from_hit w name password users hit fs)))
basic-cases w name password users es = elim (Bool-cases (str_eq name "" || str_eq password "")) [
  | inl empty ↦ inl (ap (λ z. is_ok z.0) (asks_cache w name password users es true empty))
  | inr given ↦
      let asked = asks_cache w name password users es false given in
      elim (pair-cases (cache_get w.mac w.limits w.clock name password es)) [
        | inl (fs, miss) ↦ inr (
            inl (
              fs,
              asked
                  ∙ (ap (λ c. with_cache w name password users c) miss
                      ∙ no_hit w name password users fs),
            ))
        | inr (hit, fs, f) ↦ inr (
            inr (
              hit,
              fs,
              ap (λ c. c.0) f,
              asked
                  ∙ (ap (λ c. with_cache w name password users c) f
                      ∙ a_hit w name password users hit fs),
            ))
      ]
]

-- Basic credentials that are accepted were either accepted by `authenticate` itself, now, or stand
-- in the cache for a row that is there now with that name and active: the cache never brings back an
-- account that was deleted, renamed or deactivated.
pub authenticate_basic-ok :
    (w : World) (name password : String) (users : List User) (es : Entries)
    → is_ok (authenticate_basic w name password users es).0 ≡ true
    → CurrentHit w name password users es (authenticate_basic w name password users es).0
      ⊎ FullLogin w name password users (authenticate_basic w name password users es).0
authenticate_basic-ok w name password users es h = elim (basic-cases w name password users es) [
  | inl bad ↦ never (sym bad ∙ h)
  | inr (inl (fs, e)) ↦
      let k : is_ok (full_login w name password users fs).0 ≡ true = rw⁻¹ e h in
      inr (rw e (full-LetIn w name password users fs k))
  | inr (inr (hit, fs, cached, e)) ↦ elim (hit-cases w name password users hit fs) [
    | inl (current, row) ↦ inl (record {
      user_id = hit.0;
      method = hit.1;
      cached = cached;
      row = ap (λ z. z.0.user) e ∙ row;
      current = current;
    })
    | inr full ↦
        let k : is_ok (full_login w name password users fs).0 ≡ true = rw⁻¹ (e ∙ full) h in
        inr (rw (e ∙ full) (full-LetIn w name password users fs k))
  ]
]
  where
    never : {C : Type 0} → false ≡ true → C
    never e = cc
