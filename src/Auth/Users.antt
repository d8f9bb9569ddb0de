-- ===== src/Auth/Users.antt =====
-- The users table (app/models/user.py), as far as signing in reads and changes it.
use chancery.Prelude.{
  ℕ, String, Option, Bool, true, false, List, [], ◌∷◌, first_where, ◌==◌, if◌then◌else◌, str_eq,
}

pub data Role : Type 0 where
  admin csr_requester : Role

pub data AuthSource : Type 0 where
  local ldap : AuthSource

pub record User : Type 0 where
  pub id : ℕ
  pub username : String
  pub password_hash : String
  pub role : Role
  pub is_active_user : Bool
  pub auth_source : AuthSource
  pub failed_login_count : ℕ
  pub locked_until : Option ℕ
  pub is_pending : Bool

abbrev pub is_admin : Role → Bool
is_admin admin = true
is_admin csr_requester = false

abbrev pub is_local : AuthSource → Bool
is_local local = true
is_local ldap = false

abbrev pub same_role : Role → Role → Bool
same_role admin admin = true
same_role csr_requester csr_requester = true
same_role _ _ = false

abbrev pub find_user : String → List User → Option User
find_user name = first_where (λ u. str_eq u.username name)

-- `db.session.add(user)`: the row of the user is written back.
unfoldable pub save_user : User → List User → List User
save_user u [] = []
save_user u (v ∷ vs) = if v.id == u.id then u ∷ vs else v ∷ save_user u vs

-- `check_password`; `check_hash` is werkzeug's `check_password_hash`.
unfoldable pub check_password : (String → String → Bool) → User → String → Bool
check_password check_hash u password =
    if str_eq u.password_hash "!" then false else check_hash u.password_hash password
