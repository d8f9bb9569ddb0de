-- ===== src/Tokens/Api.antt =====
-- `create`, `revoke`, `verify` and the scopes of app/services/api_token_service.py over the row of
-- app/models/api_token.py. A presented token is given as its two parts, as `ApiToken.split` cuts it;
-- SHA-256 is a parameter, the random parts of a new token and the owners' activity are arguments.
use chancery.Prelude.{
  none-not_some, ℕ, ◌+◌, ◌<◌, ◌≡◌, refl, sym, ◌∙◌, String, Option, none, some, Bool, true, false,
  not, ◌&&◌, ◌||◌, List, [], ◌∷◌, any_of, first_where, get_or, Option-cases, none-not_some, inl,
  inr, ◌↔◌, arith, ltb, leb, ◌==◌, if◌then◌else◌, Bool-cases, str_eq, eq_iff, days, Result, ok,
  raise, ◌>>=◌, ◌>>◌, refuse_if, max,
}

pub data Scope : Type 0 where
  read issue revoke admin : Scope

abbrev pub same_scope : Scope → Scope → Bool
same_scope read read = true
same_scope issue issue = true
same_scope revoke revoke = true
same_scope admin admin = true
same_scope _ _ = false

pub record ApiToken : Type 0 where
  pub id : ℕ
  pub user_id : ℕ
  pub name : String
  pub token_id : String
  pub token_hash : String
  pub scopes : List Scope
  pub expires_at : ℕ
  pub revoked : Bool

pub data TokenError : Type 0 where
  name_missing name_too_long unknown_scope no_scope bad_expiry owner_inactive name_taken :
      TokenError

-- `normalise_scopes`, of names read as scopes: a name that is none is none. The list stays as given,
-- where the code sorts it and drops what stands twice.
unfoldable pub normalise_scopes : List (Option Scope) → Result TokenError (List Scope)
normalise_scopes [] = raise no_scope
normalise_scopes (none ∷ ss) = raise unknown_scope
normalise_scopes (some s ∷ []) = ok (s ∷ [])
normalise_scopes (some s ∷ t ∷ ss) = normalise_scopes (t ∷ ss) >>= λ rest. ok (s ∷ rest)

-- What a new token is made of: the caller's name, stripped, with its length, and the random parts.
pub record NewToken : Type 0 where
  pub id : ℕ
  pub name : String
  pub name_length : ℕ
  pub token_id : String
  pub secret : String
  pub scopes : List (Option Scope)
  pub expires_in_days : Option ℕ

abbrev pub has_name : ℕ → String → ApiToken → Bool
has_name user name t = (t.user_id == user) && str_eq t.name name

abbrev pub in_days : ℕ → Option ℕ → Bool
in_days max none = false
in_days max (some d) = leb 1 d && leb d max

unfoldable pub create :
    (String → String)
    → ℕ
    → ℕ
    → ℕ
    → Bool
    → NewToken
    → List ApiToken
    → Result TokenError (List ApiToken)
unfolding normalise_scopes
create hash max now user active new table = do
  refuse_if (str_eq new.name "") name_missing
  refuse_if (ltb 100 new.name_length) name_too_long
  scopes ← normalise_scopes new.scopes
  refuse_if (not (in_days max new.expires_in_days)) bad_expiry
  refuse_if (not active) owner_inactive
  refuse_if (any_of (has_name user new.name) table) name_taken
  ok (
      record {
        id = new.id;
        user_id = user;
        name = new.name;
        token_id = new.token_id;
        token_hash = hash new.secret;
        scopes = scopes;
        expires_at = now + days (get_or new.expires_in_days 0);
        revoked = false;
      }
      ∷ table)

unfoldable pub revoke_token : ℕ → List ApiToken → List ApiToken
revoke_token n [] = []
revoke_token n (t ∷ ts) =
    if t.id == n then record t { revoked = true } ∷ ts else t ∷ revoke_token n ts

-- `ApiToken.is_valid`
unfoldable pub is_live : ℕ → ApiToken → Bool
is_live now t = not t.revoked && ltb now t.expires_at

abbrev pub find_token : String → List ApiToken → Option ApiToken
find_token token_id = first_where (λ t. str_eq t.token_id token_id)

-- `verify`, of a token cut in its parts; `active` tells whether the owner is there and active.
unfoldable pub verify_token :
    (String → String) → (ℕ → Bool) → ℕ → Option (String × String) → List ApiToken → Option ApiToken
unfolding is_live
verify_token hash active now none table = none
verify_token hash active now (some (token_id, secret)) table = elim (find_token token_id table) [
  | none ↦ none
  | some t ↦
      if not (is_live now t) || not (str_eq t.token_hash (hash secret))
      then none
      else if not (active t.user_id)
      then none
      else some t
]

-- `has_scope`
unfoldable pub has_scope : Scope → ApiToken → Bool
has_scope s t = any_of (same_scope s) t.scopes || any_of (same_scope admin) t.scopes

-- A token that is accepted: it stands in the table, with the secret's hash, live, of an active owner.
pub record Genuine (hash : String → String) (active : ℕ → Bool) (now : ℕ) (token_id secret : String)
    (table : List ApiToken) (t : ApiToken) : Type 0 where
  pub stands : find_token token_id table ≡ some t
  pub not_revoked : t.revoked ≡ false
  pub not_over : now < t.expires_at
  pub right_secret : t.token_hash ≡ hash secret
  pub owner_active : active t.user_id ≡ true

live_revoked : (now : ℕ) (t : ApiToken) → is_live now t ≡ true → t.revoked ≡ false
unfolding is_live
live_revoked now t h = ground arith

live_over : (now : ℕ) (t : ApiToken) → is_live now t ≡ true → now < t.expires_at
unfolding is_live
live_over now t h = ground arith

genuine_live :
    (now : ℕ) (t : ApiToken) → t.revoked ≡ false → now < t.expires_at → is_live now t ≡ true
unfolding is_live
genuine_live now t r h = ground (arith, r, h)

module _ (hash : String → String) (active : ℕ → Bool) (now : ℕ) (token_id secret : String)
    (table : List ApiToken) where
  verified :
      (t : ApiToken)
      → find_token token_id table ≡ some t
      → verify_token hash active now (some (token_id, secret)) table ≡ (
          if not (is_live now t) || not (str_eq t.token_hash (hash secret))
          then none
          else if not (active t.user_id)
          then none
          else some t)
  unfolding verify_token
  verified t f = rw (f, verify_token) refl

  refuses_unknown :
      find_token token_id table ≡ none
      → verify_token hash active now (some (token_id, secret)) table ≡ none
  unfolding verify_token
  refuses_unknown f = rw (f, verify_token) refl

  genuine :
      (t : ApiToken)
      → verify_token hash active now (some (token_id, secret)) table ≡ some t
      → Genuine hash active now token_id secret table t
  genuine t h = elim (Option-cases (find_token token_id table)) [
    | inl f ↦ none-not_some _ (refuses_unknown f) h
    | inr (r, f) ↦ judged r f (sym (verified r f) ∙ h)
  ]
    where
      same_row :
          (r : ApiToken)
          → find_token token_id table ≡ some r
          → some r ≡ some t
          → is_live now r ≡ true
          → str_eq r.token_hash (hash secret) ≡ true
          → active r.user_id ≡ true
          → Genuine hash active now token_id secret table t
      same_row r f e live right owner =
          let same : r ≡ t = cc in
          rw⁻¹ same (record {
            stands = f;
            not_revoked = live_revoked now r live;
            not_over = live_over now r live;
            right_secret = (eq_iff _ _).0 right;
            owner_active = owner;
          })

      judged :
          (r : ApiToken)
          → find_token token_id table ≡ some r
          → (if not (is_live now r) || not (str_eq r.token_hash (hash secret))
              then none
              else if not (active r.user_id)
              then none
              else some r)
            ≡ some t
          → Genuine hash active now token_id secret table t
      judged r f e =
          elim (Bool-cases
            (is_live now r && (str_eq r.token_hash (hash secret) && active r.user_id))) [
              | inl all ↦ same_row r f (ground arith) (ground arith) (ground arith) (ground arith)
              | inr bad ↦
                  none-not_some
                    (if not (is_live now r) || not (str_eq r.token_hash (hash secret))
                      then none
                      else if not (active r.user_id)
                      then none
                      else some r)
                    (ground arith) e
            ]

  accepts :
      (t : ApiToken)
      → Genuine hash active now token_id secret table t
      → verify_token hash active now (some (token_id, secret)) table ≡ some t
  accepts t g =
      verified t g.stands
      ∙ rw
          (
            genuine_live now t g.not_revoked g.not_over,
            (eq_iff _ _).1 g.right_secret,
            g.owner_active,
          )
          refl

  -- `verify` accepts exactly the genuine tokens: the row that the id finds, not revoked, not over,
  -- with the secret's hash and with an active owner.
  pub verify-iff-Genuine :
      (t : ApiToken)
      → (verify_token hash active now (some (token_id, secret)) table ≡ some t)
        ↔ Genuine hash active now token_id secret table t
  verify-iff-Genuine t = (λ h. genuine t h, λ g. accepts t g)
