-- ===== src/Auth/Admission.antt =====
-- Whom `authenticate` of app/services/auth_service.py lets in.
use chancery.Prelude.{
  ℕ, ◌≡◌, refl, sym, ap, ◌∙◌, String, Option, none, some, Bool, true, false, ◌||◌, List, [], ◌∷◌,
  ◌++◌, Option-cases, inl, inr, arith, if◌then◌else◌, Bool-cases, str_eq,
}
use chancery.Auth.Users.{
  Role, AuthSource, User, local, ldap, is_local, same_role, find_user, check_password, save_user,
}
use chancery.Auth.Lockout.{is_locked, register_failed_attempt}
use chancery.Auth.Login.{
  Reason, AuthResult, LdapAnswer, Settings, authenticate, authenticate_local,
  authenticate_directory, enter_ldap, answer, map_role, is_ok, reset_lockout, sync_role,
  provision_user, unavailable, refused, bound, account_deactivated, account_pending, account_locked,
  invalid_credentials, ldap_unreachable, ldap_no_role,
}

-- What lets a user in: a password of a local account that is not locked, or the directory with
-- groups that map to the user's role.
pub data Admitted (check_hash : String → String → Bool) (s : Settings) (directory : LdapAnswer)
    (now : ℕ) (name password : String) (users : List User) (u : User) : Type 0 where
  by_password :
      (row : User)
      → find_user name users ≡ some row
      → is_local row.auth_source ≡ true
      → is_locked now row ≡ false
      → check_password check_hash row password ≡ true
      → u.id ≡ row.id
      → Admitted check_hash s directory now name password users u
  by_directory :
      (groups : List String)
      → s.ldap_enabled ≡ true
      → directory ≡ bound groups
      → map_role s groups ≡ some u.role
      → Admitted check_hash s directory now name password users u

abbrev pub Signed : Type 0
Signed = AuthResult × List User

-- The result of an admitted user.
pub record LetIn (check_hash : String → String → Bool) (s : Settings) (directory : LdapAnswer)
    (now : ℕ) (name password : String) (users : List User) (r : Signed) : Type 0 where
  pub user : User
  pub is_user : r.0.user ≡ some user
  pub active : user.is_active_user ≡ true
  pub admitted : Admitted check_hash s directory now name password users user

refused_ok {ℓ} :
    {C : Type ℓ} (r : Signed) (u : Option User) (e : Reason) (m : AuthSource) (users : List User)
    → r ≡ answer u (some e) m users
    → is_ok r.0 ≡ true
    → C
unfolding answer
refused_ok r none e m users q h =
    let k : is_ok (answer none (some e) m users).0 ≡ true = sym (ap (λ x. is_ok x.0) q) ∙ h in
    never k
  where
    never : {C : Type ℓ} → false ≡ true → C
    never k = cc
refused_ok r (some u) e m users q h =
    let k : is_ok (answer (some u) (some e) m users).0 ≡ true = sym (ap (λ x. is_ok x.0) q) ∙ h in
    never k
  where
    never : {C : Type ℓ} → false ≡ true → C
    never k = cc

reset-kept :
    (u : User)
    → ((reset_lockout u).id ≡ u.id) × ((reset_lockout u).is_active_user ≡ u.is_active_user)
unfolding reset_lockout
reset-kept u = (ground arith, ground arith)

synced_role : (u : User) (role : Role) → (sync_role u role).role ≡ role
unfolding sync_role
synced_role u role = elim (Bool-cases (same_role u.role role)) [
  | inl y ↦ rw y (same u.role role y)
  | inr n ↦ rw n refl
]
  where
    same : (a b : Role) → same_role a b ≡ true → a ≡ b
    same Role.admin Role.admin h = refl
    same Role.csr_requester Role.csr_requester h = refl
    same Role.admin Role.csr_requester h = cc
    same Role.csr_requester Role.admin h = cc

module _ (check_hash : String → String → Bool) (s : Settings) (directory : LdapAnswer) (now : ℕ)
    (name password : String) (users : List User) where
  let_in :
      (r : Signed) (u : User) (m : AuthSource) (after : List User)
      → r ≡ answer (some u) none m after
      → u.is_active_user ≡ true
      → Admitted check_hash s directory now name password users u
      → LetIn check_hash s directory now name password users r
  unfolding answer
  let_in r u m after e on a = record {
    user = u;
    is_user = ap (λ x. x.0.user) e;
    active = on;
    admitted = a;
  }

  local-LetIn :
      (u : User)
      → find_user name users ≡ some u
      → is_local u.auth_source ≡ true
      → is_ok (authenticate_local check_hash s now password u users).0 ≡ true
      → LetIn check_hash s directory now name password users
          (authenticate_local check_hash s now password u users)
  unfolding authenticate_local
  local-LetIn u f l h = elim (Bool-cases (is_locked now u)) [
    | inl locked ↦
        refused_ok (authenticate_local check_hash s now password u users) (some u) (account_locked)
          local (users) (rw locked refl) h
    | inr free ↦ elim (Bool-cases (check_password check_hash u password)) [
      | inr wrong ↦
          refused_ok (authenticate_local check_hash s now password u users) (none)
            (invalid_credentials) local (register_failed_attempt s.policy now u users)
            (rw (free, wrong) refl) h
      | inl right ↦ elim (Bool-cases u.is_active_user) [
        | inr off ↦
            refused_ok (authenticate_local check_hash s now password u users) (some u)
              (if u.is_pending then account_pending else account_deactivated) local (users)
              (rw (free, right, off) refl) h
        | inl on ↦
            let_in (authenticate_local check_hash s now password u users) (reset_lockout u) local
              (save_user (reset_lockout u) users) (rw (free, right, on) refl)
              ((reset-kept u).1 ∙ on) (by_password u f l free right (reset-kept u).0)
      ]
    ]
  ]

  enter-LetIn :
      (groups : List String) (new_id : ℕ) (role : Role) (v : Option User)
      → s.ldap_enabled ≡ true
      → directory ≡ bound groups
      → map_role s groups ≡ some role
      → is_ok (enter_ldap new_id name role v users).0 ≡ true
      → LetIn check_hash s directory now name password users (enter_ldap new_id name role v users)
  unfolding enter_ldap provision_user
  enter-LetIn groups new_id role none on b m h =
      let_in (enter_ldap new_id name role none users) (provision_user new_id name role) ldap
        (users ++ provision_user new_id name role ∷ []) refl refl (by_directory groups on b m)
  enter-LetIn groups new_id role (some v) on b m h =
      elim (Bool-cases (sync_role v role).is_active_user) [
        | inr off ↦
            refused_ok (enter_ldap new_id name role (some v) users) (some (sync_role v role))
              (account_deactivated) ldap (save_user (sync_role v role) users) (rw off refl) h
        | inl active ↦
            let_in (enter_ldap new_id name role (some v) users) (sync_role v role) ldap
              (save_user (sync_role v role) users) (rw active refl) active
              (by_directory groups on b (m ∙ ap some (sym (synced_role v role))))
      ]

  directory-LetIn :
      (new_id : ℕ) (v : Option User) (d : LdapAnswer)
      → directory ≡ d
      → s.ldap_enabled ≡ true
      → is_ok (authenticate_directory s d new_id name v users).0 ≡ true
      → LetIn check_hash s directory now name password users
          (authenticate_directory s d new_id name v users)
  unfolding authenticate_directory
  directory-LetIn new_id v unavailable e on h =
      refused_ok (authenticate_directory s unavailable new_id name v users) (none)
        (ldap_unreachable) ldap (users) refl h
  directory-LetIn new_id v refused e on h =
      refused_ok (authenticate_directory s refused new_id name v users) (none) (invalid_credentials)
        ldap (users) refl h
  directory-LetIn new_id v (bound groups) e on h = elim (Option-cases (map_role s groups)) [
    | inl no_role ↦
        refused_ok (authenticate_directory s (bound groups) new_id name v users) (none)
          (ldap_no_role) ldap (users) (rw (no_role, authenticate_directory) refl) h
    | inr (role, m) ↦
        let same : authenticate_directory s (bound groups) new_id name v users
            ≡ enter_ldap new_id name role v users =
          rw (m, authenticate_directory) refl in
        let k : is_ok (enter_ldap new_id name role v users).0 ≡ true = rw⁻¹ same h in
        rw same (enter-LetIn groups new_id role v on e m k)
  ]

  -- A result of `authenticate` that is ok has an active user, and either the name is a local account
  -- that was not locked and whose password fits, or LDAP is enabled, accepted the pair and gave
  -- groups that map to the user's role.
  pub authenticate-LetIn :
      (new_id : ℕ)
      → is_ok (authenticate check_hash s directory new_id now name password users).0 ≡ true
      → LetIn check_hash s directory now name password users
          (authenticate check_hash s directory new_id now name password users)
  unfolding authenticate
  authenticate-LetIn new_id h = elim (Bool-cases (str_eq name "" || str_eq password "")) [
    | inl empty ↦
        refused_ok (authenticate check_hash s directory new_id now name password users) (none)
          (invalid_credentials) local (users) (rw empty refl) h
    | inr given ↦ elim (Option-cases (find_user name users)) [
      | inl unknown ↦ elim (Bool-cases s.ldap_enabled) [
        | inr off ↦
            refused_ok (authenticate check_hash s directory new_id now name password users) (none)
              (invalid_credentials) local (users) (rw (given, unknown, authenticate, off) refl) h
        | inl on ↦ moved new_id none on (rw (given, unknown, authenticate, on) refl) h
      ]
      | inr (u, f) ↦ elim (Bool-cases (is_local u.auth_source)) [
        | inl l ↦
            let same : authenticate check_hash s directory new_id now name password users
                ≡ authenticate_local check_hash s now password u users =
              rw (given, f, authenticate, l) refl in
            let k : is_ok (authenticate_local check_hash s now password u users).0 ≡ true =
              rw⁻¹ same h in
            rw same (local-LetIn u f l k)
        | inr remote ↦ elim (Bool-cases s.ldap_enabled) [
          | inr off ↦
              refused_ok (authenticate check_hash s directory new_id now name password users) (none)
                (invalid_credentials) local (users) (rw (given, f, authenticate, remote, off) refl)
                h
          | inl on ↦ moved new_id (some u) on (rw (given, f, authenticate, remote, on) refl) h
        ]
      ]
    ]
  ]
    where
      moved :
          (new_id : ℕ) (v : Option User)
          → s.ldap_enabled ≡ true
          → authenticate check_hash s directory new_id now name password users
            ≡ authenticate_directory s directory new_id name v users
          → is_ok (authenticate check_hash s directory new_id now name password users).0 ≡ true
          → LetIn check_hash s directory now name password users
              (authenticate check_hash s directory new_id now name password users)
      moved new_id v on same h =
          let k : is_ok (authenticate_directory s directory new_id name v users).0 ≡ true =
            rw⁻¹ same h in
          rw same (directory-LetIn new_id v directory refl on k)
