-- ===== src/Auth/Sessions.antt =====
-- `load_user` of app/models/user.py and `bump_session_version` of app/services/auth_service.py: the
-- sessions of one user, each with the version that it was stamped with.
use chancery.Prelude.{
  String, ℕ, ◌+◌, ◌≡◌, Option, none, some, Bool, List, [], ◌∷◌, first_where, ◌==◌, if◌then◌else◌,
}
use chancery.Auth.Cache.{Entries, lookup, drop_user}

-- A row as far as a session reads it.
pub record Owner : Type 0 where
  pub id : ℕ
  pub username : String
  pub session_version : ℕ

-- A login session: the user's id, and its stamp where it has one.
pub record Session : Type 0 where
  pub user_id : ℕ
  pub stamp : Option ℕ

abbrev pub find_owner : ℕ → List Owner → Option Owner
find_owner n = first_where (λ u. u.id == n)

-- `load_user`
unfoldable pub load_user : Session → List Owner → Option Owner
load_user s users = elim (find_owner s.user_id users) [
  | none ↦ none
  | some u ↦ elim s.stamp [
    | none ↦ some u
    | some v ↦ if v == u.session_version then some u else none
  ]
]

-- `(user.session_version or 1) + 1`
abbrev pub next_version : ℕ → ℕ
next_version v = (if v == 0 then 1 else v) + 1

abbrev pub bumped : Owner → Owner
bumped u = record u { session_version = next_version u.session_version }

unfoldable pub bump_row : Owner → List Owner → List Owner
bump_row u [] = []
bump_row u (v ∷ vs) = if v.id == u.id then bumped u ∷ vs else v ∷ bump_row u vs

-- `bump_session_version` of a user's row, called in a request of `current`: the session after it, the
-- rows, and the credential cache, which is empty where there is none.
unfoldable pub bump_session_version :
    Bool → Session → Owner → List Owner → Entries → Session × List Owner × Entries
unfolding bump_row drop_user
bump_session_version keep_current current u users cache = (
  if keep_current
      then record current { stamp = some (next_version u.session_version) }
      else current,
  bump_row u users,
  drop_user u.username cache,
)

-- What a bump leaves, whether the session that it was called in is kept or not: a session with the
-- old version, that one's own as it was included, is refused, and no password of the user is cached.
pub record SignedOut (u : Owner) (other : Session) (r : Session × List Owner × Entries)
    : Type 0 where
  pub refused : load_user other r.1 ≡ none
  pub uncached : lookup u.username r.2 ≡ none
