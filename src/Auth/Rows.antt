-- ===== src/Auth/Rows.antt =====
-- The row that signing in finds, after it was written back (app/services/auth_service.py).
use chancery.Prelude.{
  ℕ, ◌≡◌, refl, sym, ap, ◌∙◌, String, some, true, false, ◌&&◌, List, [], ◌∷◌, map, any_of,
  count_where, inl, inr, arith, ◌==◌, ==_iff, Bool-cases, str_eq,
}
use chancery.Auth.Users.{User, is_admin, find_user, save_user}

abbrev pub user_ids : List User → List ℕ
user_ids users = map (λ u. u.id) users

-- The id is the primary key.
abbrev pub UniqueNumbers : List ℕ → Type 0
UniqueNumbers [] = Unit
UniqueNumbers (n ∷ ns) = (any_of (λ m. m == n) ns ≡ false) × UniqueNumbers ns

abbrev pub UniqueIds : List User → Type 0
UniqueIds users = UniqueNumbers (user_ids users)

pub found_first :
    (name : String) (v : User) (users : List User) (u : User)
    → str_eq v.username name ≡ true
    → find_user name (v ∷ users) ≡ some u
    → v ≡ u
found_first name v users u y f = cc

pub found_later :
    (name : String) (v : User) (users : List User) (u : User)
    → str_eq v.username name ≡ false
    → find_user name (v ∷ users) ≡ some u
    → find_user name users ≡ some u
found_later name v users u other f = cc

other_id :
    (n : ℕ) (name : String) (users : List User) (u : User)
    → any_of (λ m. m == n) (user_ids users) ≡ false
    → find_user name users ≡ some u
    → (n == u.id) ≡ false
other_id n name [] u d f = cc
other_id n name (v ∷ users) u d f = elim (Bool-cases (str_eq v.username name)) [
  | inl y ↦
      let same : v.id ≡ u.id = ap (λ z. z.id) (found_first name v users u y f) in
      ground (arith, d, same)
  | inr other ↦ other_id n name users u (ground arith) (found_later name v users u other f)
]

pub found_name :
    (name : String) (users : List User) (u : User)
    → find_user name users ≡ some u
    → str_eq u.username name ≡ true
found_name name [] u f = cc
found_name name (v ∷ users) u f = elim (Bool-cases (str_eq v.username name)) [
  | inl y ↦ let e = found_first name v users u y f in cc
  | inr other ↦ found_name name users u (found_later name v users u other f)
]

-- The row with another content, but the same id, name and standing as an administrator.
pub record SameRow (u w : User) : Type 0 where
  pub same_id : w.id ≡ u.id
  pub same_username : w.username ≡ u.username
  pub same_standing : (is_admin w.role && w.is_active_user) ≡ (is_admin u.role && u.is_active_user)

module _ (name : String) (u w : User) (r : SameRow u w) where
  hit : (v : User) → v ≡ u → (v.id == w.id) ≡ true
  hit v e = let same : v.id ≡ w.id = ap (λ z. z.id) e ∙ sym r.same_id in ground (arith, same)

  miss : (v : User) → (v.id == u.id) ≡ false → (v.id == w.id) ≡ false
  miss v h = let same = r.same_id in ground (arith, h, same)

  named : (v : User) → v ≡ u → str_eq v.username name ≡ true → str_eq w.username name ≡ true
  named v e y = let same = r.same_username in cc

  pub find_user-save_user :
      (users : List User)
      → UniqueIds users
      → find_user name users ≡ some u
      → find_user name (save_user w users) ≡ some w
  unfolding save_user
  find_user-save_user [] d f = cc
  find_user-save_user (v ∷ users) d f = elim (Bool-cases (str_eq v.username name)) [
    | inl y ↦ let e = found_first name v users u y f in rw (hit v e, save_user, named v e y) refl
    | inr other ↦
        let later = found_later name v users u other f in
        rw (miss v (other_id v.id name users u d.0 later), save_user, other)
          (find_user-save_user users d.1 later)
  ]

  pub count-save_user :
      (users : List User)
      → UniqueIds users
      → find_user name users ≡ some u
      → count_where (λ x. is_admin x.role && x.is_active_user) (save_user w users)
        ≡ count_where (λ x. is_admin x.role && x.is_active_user) users
  unfolding save_user
  count-save_user [] d f = refl
  count-save_user (v ∷ users) d f = elim (Bool-cases (str_eq v.username name)) [
    | inl y ↦
        let e = found_first name v users u y f in rw (hit v e, save_user, e, r.same_standing) refl
    | inr other ↦
        let later = found_later name v users u other f in
        rw
          (
            miss v (other_id v.id name users u d.0 later),
            save_user,
            count-save_user users d.1 later,
          )
          refl
  ]

pub ids-save_user : (w : User) (users : List User) → user_ids (save_user w users) ≡ user_ids users
unfolding save_user
ids-save_user w [] = refl
ids-save_user w (v ∷ users) = elim (Bool-cases (v.id == w.id)) [
  | inl y ↦ rw (y, save_user) (ap (λ n. n ∷ user_ids users) (sym ((==_iff v.id w.id).0 y)))
  | inr other ↦ rw (other, save_user) (ap (λ ns. v.id ∷ ns) (ids-save_user w users))
]
