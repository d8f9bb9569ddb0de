-- ===== src/Auth/Guessing.antt =====
-- A series of wrong passwords against one local account (app/services/auth_service.py).
use chancery.Prelude.{
  ℕ, suc, ◌+◌, ◌<◌, ◌≡◌, refl, ap, ◌∙◌, String, some, Bool, true, false, ◌&&◌, List, [], ◌∷◌,
  length, count_where, arith, lt→ltb, str_eq, minutes,
}
use chancery.Auth.Users.{User, local, is_admin, is_local, find_user, save_user, check_password}
use chancery.Auth.Lockout.{
  Policy, is_locked, is_last_active_admin, failed_attempt, register_failed_attempt, counted, locks,
}
use chancery.Auth.Rows.{UniqueIds, SameRow, find_user-save_user, count-save_user, ids-save_user}
use chancery.Auth.Login.{
  LdapAnswer, Settings, authenticate, authenticate_local, answer, account_locked,
}

-- Sign-ins with one name, each at a moment with a password.
unfoldable pub sign_in_all :
    (String → String → Bool)
    → Settings
    → LdapAnswer
    → ℕ
    → String
    → List (ℕ × String)
    → List User
    → List User
unfolding authenticate
sign_in_all check_hash s directory new_id name [] users = users
sign_in_all check_hash s directory new_id name (g ∷ gs) users =
    sign_in_all check_hash s directory new_id name gs
      (authenticate check_hash s directory new_id g.0 name g.1 users).1

-- The moment of the last attempt of a series.
abbrev pub last_moment : ℕ → List (ℕ × String) → ℕ
last_moment t [] = t
last_moment t (g ∷ gs) = last_moment g.0 gs

-- No password is empty, none fits, and at no attempt an earlier lock holds.
abbrev pub Wrong : (String → String → Bool) → User → List (ℕ × String) → Type 0
Wrong check_hash u [] = Unit
Wrong check_hash u (g ∷ gs) =
    (check_password check_hash u g.1 ≡ false)
    × (str_eq g.1 "" ≡ false)
    × (is_locked g.0 u ≡ false)
    × Wrong check_hash u gs

-- The local account that the name finds, not the last administrator.
pub record Account (name : String) (users : List User) (u : User) : Type 0 where
  pub unique : UniqueIds users
  pub found : find_user name users ≡ some u
  pub local_account : is_local u.auth_source ≡ true
  pub not_last_admin : is_last_active_admin users u ≡ false
  pub has_name : str_eq name "" ≡ false

module _ (check_hash : String → String → Bool) (s : Settings) (directory : LdapAnswer) (new_id : ℕ)
    (name : String) where
  to_local :
      (now : ℕ) (password : String) (users : List User) (u : User)
      → Account name users u
      → str_eq password "" ≡ false
      → authenticate check_hash s directory new_id now name password users
        ≡ authenticate_local check_hash s now password u users
  unfolding authenticate
  to_local now password users u a e =
      rw (a.has_name, e, a.found, authenticate, a.local_account) refl

  refuses_locked :
      (now : ℕ) (password : String) (users : List User) (u : User)
      → is_locked now u ≡ true
      → authenticate_local check_hash s now password u users
        ≡ answer (some u) (some account_locked) local users
  unfolding authenticate_local
  refuses_locked now password users u l = rw l refl

  counts_wrong :
      (now : ℕ) (password : String) (users : List User) (u : User)
      → is_locked now u ≡ false
      → check_password check_hash u password ≡ false
      → is_last_active_admin users u ≡ false
      → (authenticate_local check_hash s now password u users).1
        ≡ save_user (failed_attempt s.policy now false u) users
  unfolding authenticate_local register_failed_attempt answer
  counts_wrong now password users u l w n = rw (l, w, n) refl

  pub locked_out :
      (now : ℕ) (password : String) (users : List User) (u : User)
      → Account name users u
      → str_eq password "" ≡ false
      → is_locked now u ≡ true
      → authenticate check_hash s directory new_id now name password users
        ≡ answer (some u) (some account_locked) local users
  locked_out now password users u a e l =
      to_local now password users u a e ∙ refuses_locked now password users u l

  guessed :
      (now : ℕ) (password : String) (users : List User) (u : User)
      → Account name users u
      → is_locked now u ≡ false
      → check_password check_hash u password ≡ false
      → str_eq password "" ≡ false
      → (authenticate check_hash s directory new_id now name password users).1
        ≡ save_user (failed_attempt s.policy now false u) users
  guessed now password users u a o w e =
      ap (λ r. r.1) (to_local now password users u a e)
      ∙ counts_wrong now password users u o w a.not_last_admin

kept_row : (p : Policy) (now : ℕ) (u : User) → SameRow u (failed_attempt p now false u)
unfolding failed_attempt
kept_row p now u = record {
  same_id = ground arith;
  same_username = ground arith;
  same_standing = ground arith;
}

kept_source :
    (p : Policy) (now : ℕ) (u : User)
    → is_local (failed_attempt p now false u).auth_source ≡ is_local u.auth_source
unfolding failed_attempt
kept_source p now u = ground arith

kept_role : (p : Policy) (now : ℕ) (u : User) → (failed_attempt p now false u).role ≡ u.role
unfolding failed_attempt
kept_role p now u = ground arith

kept_admin :
    (users : List User) (u w : User)
    → w.role ≡ u.role
    → is_last_active_admin users u ≡ false
    → (vs : List User)
    → count_where (λ v. is_admin v.role && v.is_active_user) vs
      ≡ count_where (λ v. is_admin v.role && v.is_active_user) users
    → is_last_active_admin vs w ≡ false
unfolding is_last_active_admin
kept_admin users u w r h vs c = rw (r, c) h

kept-Account :
    (p : Policy) (now : ℕ) (name : String) (users : List User) (u : User)
    → Account name users u
    → Account name (save_user (failed_attempt p now false u) users) (failed_attempt p now false u)
kept-Account p now name users u a =
    let w = failed_attempt p now false u in
    let r = kept_row p now u in
    record {
      unique = rw (ids-save_user w users) a.unique;
      found = find_user-save_user name u w r users a.unique a.found;
      local_account = kept_source p now u ∙ a.local_account;
      not_last_admin =
          kept_admin users u w (kept_role p now u) a.not_last_admin _
            (count-save_user name u w r users a.unique a.found);
      has_name = a.has_name;
    }

abbrev pub locks_at : Settings → ℕ → ℕ
locks_at s t = t + minutes s.policy.lockout_minutes

counted-Wrong :
    (check_hash : String → String → Bool) (u : User) (n : ℕ) (gs : List (ℕ × String))
    → Wrong check_hash u gs
    → Wrong check_hash (record u { failed_login_count = n }) gs
unfolding check_password is_locked
counted-Wrong check_hash u n [] w = tt
counted-Wrong check_hash u n (g ∷ gs) w = (w.0, w.1, w.2, counted-Wrong check_hash u n gs w.3)

still_locked :
    (now until : ℕ) (u : User) → u.locked_until ≡ some until → now < until → is_locked now u ≡ true
unfolding is_locked
still_locked now until u e h = rw e (lt→ltb now until h)

module _ (check_hash : String → String → Bool) (s : Settings) (directory : LdapAnswer) (new_id : ℕ)
    (name : String) where
  first_of :
      (gs : List (ℕ × String)) (t : ℕ) (g : String) (users : List User)
      → sign_in_all check_hash s directory new_id name ((t, g) ∷ gs) users
        ≡ sign_in_all check_hash s directory new_id name gs
            (authenticate check_hash s directory new_id t name g users).1
  unfolding sign_in_all
  first_of gs t g users = refl

  no_more : (users : List User) → sign_in_all check_hash s directory new_id name [] users ≡ users
  unfolding sign_in_all
  no_more users = refl

  one_wrong :
      (gs : List (ℕ × String)) (t : ℕ) (g : String) (users : List User) (u : User)
      → Account name users u
      → is_locked t u ≡ false
      → check_password check_hash u g ≡ false
      → str_eq g "" ≡ false
      → sign_in_all check_hash s directory new_id name ((t, g) ∷ gs) users
        ≡ sign_in_all check_hash s directory new_id name gs
            (save_user (failed_attempt s.policy t false u) users)
  one_wrong gs t g users u a o w e =
      first_of gs t g users
      ∙ ap (λ us. sign_in_all check_hash s directory new_id name gs us)
          (guessed check_hash s directory new_id name t g users u a o w e)

  guesses_lock :
      (gs : List (ℕ × String)) (t : ℕ) (g : String) (users : List User) (u : User)
      → Account name users u
      → Wrong check_hash u ((t, g) ∷ gs)
      → u.failed_login_count + suc (length gs) ≡ s.policy.threshold
      → (w : User) × Account name
          (sign_in_all check_hash s directory new_id name ((t, g) ∷ gs) users)
          w
        × (w.locked_until ≡ some (locks_at s (last_moment t gs)))
  guesses_lock [] t g users u a w n =
      rw
        (
          one_wrong [] t g users u a w.2 w.0 w.1,
          no_more (save_user (failed_attempt s.policy t false u) users),
        )
        (
          failed_attempt s.policy t false u,
          kept-Account s.policy t name users u a,
          rw (locks s.policy t u (omega (arith, n))) refl,
        )
  guesses_lock (h ∷ gs) t g users u a w n =
      let c = counted s.policy t false u (omega (arith, n)) in
      let v = record u { failed_login_count = u.failed_login_count + 1 } in
      let a' : Account name (save_user v users) v =
        rw⁻¹ c (kept-Account s.policy t name users u a) in
      rw (one_wrong (h ∷ gs) t g users u a w.2 w.0 w.1, c)
        (guesses_lock gs h.0 h.1 (save_user v users) v a'
          (counted-Wrong check_hash u (u.failed_login_count + 1) (h ∷ gs) w.3) (omega (arith, n)))

  -- As many wrong passwords as the threshold allows, none of them empty and none while an earlier lock
  -- holds, lock a local account that is not the last administrator's, whether or not it has an earlier
  -- lock that is over: until the lockout from the last of them is over every sign-in with a password
  -- is refused as locked, the right one included, and changes nothing.
  pub guesses_lock_out :
      (gs : List (ℕ × String)) (t : ℕ) (g : String) (users : List User) (u : User)
      → Account name users u
      → Wrong check_hash u ((t, g) ∷ gs)
      → u.failed_login_count + suc (length gs) ≡ s.policy.threshold
      → (now : ℕ) (password : String) → now < locks_at s (last_moment t gs)
      → str_eq password "" ≡ false
      → let after = sign_in_all check_hash s directory new_id name ((t, g) ∷ gs) users in
        ((authenticate check_hash s directory new_id now name password after).0.reason
          ≡ some account_locked)
        × ((authenticate check_hash s directory new_id now name password after).1 ≡ after)
  guesses_lock_out gs t g users u a w n now password early e =
      let (v, b, until) = guesses_lock gs t g users u a w n in
      let r =
        locked_out check_hash s directory new_id name now password _ v b e
          (still_locked now _ v until early) in
      rw r (unfold answer in (refl, refl))
