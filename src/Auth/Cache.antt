-- ===== src/Auth/Cache.antt =====
-- `CredentialCache` of app/services/auth_service.py: an association list in the order of the dict.
-- The HMAC over the pair is a parameter.
use chancery.Prelude.{
  ℕ, ◌+◌, String, Option, none, some, not, ◌&&◌, List, [], ◌∷◌, length, filter_by, is_none, ltb,
  leb, ◌==◌, if◌then◌else◌, str_eq,
}
use mathlib.Core.Option as Option
use chancery.Auth.Users.{AuthSource}

pub record Entry : Type 0 where
  pub mac : String
  pub user_id : ℕ
  pub auth_method : AuthSource
  pub expires_at : ℕ

pub record Limits : Type 0 where
  pub ttl : ℕ
  pub max_entries : ℕ

abbrev pub Entries : Type 0
Entries = List (String × Entry)

unfoldable pub lookup : String → Entries → Option Entry
lookup name [] = none
lookup name (e ∷ es) = if str_eq e.0 name then some e.1 else lookup name es

-- `pop(username, None)` and `del`
unfoldable pub drop_user : String → Entries → Entries
drop_user name es = filter_by (λ e. not (str_eq e.0 name)) es

-- `self._entries[username] = …`: an old key keeps its place.
unfoldable pub store : String → Entry → Entries → Entries
store name x [] = (name, x) ∷ []
store name x (e ∷ es) = if str_eq e.0 name then (name, x) ∷ es else e ∷ store name x es

unfoldable pub cache_get :
    (String → String → String)
    → Limits
    → ℕ
    → String
    → String
    → Entries
    → Option (ℕ × AuthSource) × Entries
unfolding lookup drop_user
cache_get mac l now name password es = if l.ttl == 0 then (none, es) else elim (lookup name es) [
  | none ↦ (none, es)
  | some e ↦
      if leb e.expires_at now
      then (none, drop_user name es)
      else if not (str_eq e.mac (mac name password))
      then (none, es)
      else (some (e.user_id, e.auth_method), es)
]

-- `min(self._entries, key=…)`, the first of the smallest; an empty dict raises.
unfoldable pub oldest : Entries → Option (String × ℕ)
oldest [] = none
oldest (e ∷ es) =
    let rest = oldest es in
    elim rest [
      | none ↦ some (e.0, e.1.expires_at)
      | some r ↦ if ltb r.1 e.1.expires_at then some r else some (e.0, e.1.expires_at)
    ]

unfoldable pub evict_oldest : Entries → Option Entries
unfolding oldest drop_user
evict_oldest es = elim (oldest es) [ none ↦ none | some o ↦ some (drop_user o.0 es) ]

-- Room for one more entry: the expired ones go, then the oldest if need be.
unfoldable pub make_room : Limits → ℕ → Entries → Option Entries
unfolding evict_oldest
make_room l now es =
    let live = filter_by (λ e. not (leb e.1.expires_at now)) es in
    if leb l.max_entries (length live) then evict_oldest live else some live

-- none where `min` raises, which takes a limit of no entries.
unfoldable pub cache_put :
    (String → String → String)
    → Limits
    → ℕ
    → String
    → String
    → ℕ
    → AuthSource
    → Entries
    → Option Entries
unfolding lookup store make_room
cache_put mac l now name password id method es =
    if l.ttl == 0
    then some es
    else let x : Entry = record {
      mac = mac name password;
      user_id = id;
      auth_method = method;
      expires_at = now + l.ttl;
    } in
      if is_none (lookup name es) && leb l.max_entries (length es)
      then Option.map (store name x) (make_room l now es)
      else some (store name x es)
