-- ===== src/Auth/Login.antt =====
-- `authenticate`, `_map_role`, `_provision_user` and `_sync_role` of app/services/auth_service.py.
-- What the directory answers, the settings and the id of a new row are arguments.
use chancery.Prelude.{
  ℕ, String, Option, none, some, Bool, true, false, not, ◌&&◌, ◌||◌, List, [], ◌∷◌, ◌++◌, any_of,
  is_some, is_none, ltb, if◌then◌else◌, str_eq,
}
use chancery.Auth.Users.{
  Role, AuthSource, User, admin, csr_requester, local, ldap, is_local, same_role, find_user,
  save_user, check_password,
}
use chancery.Auth.Lockout.{Policy, is_locked, register_failed_attempt, cleared}

pub data Reason : Type 0 where
  invalid_credentials account_deactivated account_pending ldap_unreachable ldap_no_role
        account_locked :
      Reason

pub record AuthResult : Type 0 where
  pub user : Option User
  pub reason : Option Reason
  pub auth_method : AuthSource

-- `AuthResult.ok`
abbrev pub is_ok : AuthResult → Bool
is_ok r = is_some r.user && is_none r.reason

-- `ldap_service.authenticate_ldap`: it raises, refuses, or gives the groups.
pub data LdapAnswer : Type 0 where
  unavailable refused : LdapAnswer
  bound : List String → LdapAnswer

-- The group names stripped and in lower case; no group is the empty text.
pub record Settings : Type 0 where
  pub policy : Policy
  pub ldap_enabled : Bool
  pub admin_group : String
  pub requester_group : String

abbrev pub configured : String → Bool
configured s = not (str_eq s "")

abbrev pub in_group : String → List String → Bool
in_group g groups = any_of (λ h. str_eq g h) groups

unfoldable pub map_role : Settings → List String → Option Role
map_role s groups =
    if configured s.admin_group && in_group s.admin_group groups
    then some admin
    else if configured s.requester_group && in_group s.requester_group groups
    then some csr_requester
    else if configured s.admin_group || configured s.requester_group
    then none
    else some csr_requester

unfoldable pub provision_user : ℕ → String → Role → User
provision_user n name role = record {
  id = n;
  username = name;
  password_hash = "!";
  role = role;
  is_active_user = true;
  auth_source = ldap;
  failed_login_count = 0;
  locked_until = none;
  is_pending = false;
}

unfoldable pub sync_role : User → Role → User
sync_role u role = if same_role u.role role then u else record u { role = role }

unfoldable pub answer :
    Option User → Option Reason → AuthSource → List User → AuthResult × List User
answer u r m users = (record { user = u; reason = r; auth_method = m }, users)

-- `_reset_lockout`
unfoldable pub reset_lockout : User → User
unfolding cleared
reset_lockout u = if ltb 0 u.failed_login_count || is_some u.locked_until then cleared u else u

unfoldable pub authenticate_local :
    (String → String → Bool) → Settings → ℕ → String → User → List User → AuthResult × List User
unfolding is_locked check_password register_failed_attempt reset_lockout save_user answer
authenticate_local check_hash s now password u users =
    if is_locked now u
    then answer (some u) (some account_locked) local users
    else if not (check_password check_hash u password)
    then answer none (some invalid_credentials) local (register_failed_attempt s.policy now u users)
    else if not u.is_active_user
    then answer (some u) (some (if u.is_pending then account_pending else account_deactivated))
        local users
    else answer (some (reset_lockout u)) none local (save_user (reset_lockout u) users)

unfoldable pub enter_ldap : ℕ → String → Role → Option User → List User → AuthResult × List User
unfolding provision_user sync_role save_user answer
enter_ldap new_id name role none users =
    let u = provision_user new_id name role in answer (some u) none ldap (users ++ u ∷ [])
enter_ldap new_id name role (some v) users =
    let u = sync_role v role in
    answer (some u) (if not u.is_active_user then some account_deactivated else none) ldap
      (save_user u users)

unfoldable pub authenticate_directory :
    Settings → LdapAnswer → ℕ → String → Option User → List User → AuthResult × List User
unfolding map_role enter_ldap answer
authenticate_directory s unavailable new_id name u users =
    answer none (some ldap_unreachable) ldap users
authenticate_directory s refused new_id name u users =
    answer none (some invalid_credentials) ldap users
authenticate_directory s (bound groups) new_id name u users = elim (map_role s groups) [
  | none ↦ answer none (some ldap_no_role) ldap users
  | some role ↦ enter_ldap new_id name role u users
]

-- `authenticate`; `directory` is what LDAP would answer to the pair.
unfoldable pub authenticate :
    (String → String → Bool)
    → Settings
    → LdapAnswer
    → ℕ
    → ℕ
    → String
    → String
    → List User
    → AuthResult × List User
unfolding authenticate_local authenticate_directory answer
authenticate check_hash s directory new_id now name password users =
    if str_eq name "" || str_eq password ""
    then answer none (some invalid_credentials) local users
    else elim (find_user name users) [
      | none ↦
          if not s.ldap_enabled
          then answer none (some invalid_credentials) local users
          else authenticate_directory s directory new_id name none users
      | some u ↦
          if is_local u.auth_source
          then authenticate_local check_hash s now password u users
          else if not s.ldap_enabled
          then answer none (some invalid_credentials) local users
          else authenticate_directory s directory new_id name (some u) users
    ]
