-- ===== src/Auth/CacheLaws.antt =====
-- The size of the credential cache and what it answers (app/services/auth_service.py).
use chancery.Prelude.{
  ℕ, ◌+◌, ◌≤◌, ◌<◌, ◌≡◌, refl, sym, ◌∙◌, String, none, some, Bool, true, false, not, ◌&&◌, ◌||◌, [],
  ◌∷◌, length, filter_by, any_of, length-filter_by-le, is_none, Option-cases, inl, inr, arith, ltb,
  leb, ◌==◌, if◌then◌else◌, Bool-cases, str_eq, eq_refl,
}
use chancery.Auth.Users.{AuthSource}
use chancery.Auth.Cache.{
  Entry, Entries, Limits, lookup, drop_user, store, oldest, evict_oldest, make_room, cache_get,
  cache_put,
}

store-length :
    (name : String) (x : Entry) (es : Entries)
    → length (store name x es) ≤ length es + (if is_none (lookup name es) then 1 else 0)
unfolding store lookup
store-length name x [] = omega arith
store-length name x (e ∷ es) = ground (arith, store-length name x es)

oldest-nil :
    (e : String × Entry) (es : Entries)
    → oldest es ≡ none
    → some (e.0, e.1.expires_at) ≡ oldest (e ∷ es)
unfolding oldest
oldest-nil e es h = rw (h, oldest) refl

oldest-tail :
    (e : String × Entry) (es : Entries) (r : String × ℕ)
    → oldest es ≡ some r
    → ltb r.1 e.1.expires_at ≡ true
    → some r ≡ oldest (e ∷ es)
unfolding oldest
oldest-tail e es r h l = rw (h, oldest, l) refl

oldest-head :
    (e : String × Entry) (es : Entries) (r : String × ℕ)
    → oldest es ≡ some r
    → ltb r.1 e.1.expires_at ≡ false
    → some (e.0, e.1.expires_at) ≡ oldest (e ∷ es)
unfolding oldest
oldest-head e es r h l = rw (h, oldest, l) refl

head_name :
    (e : String × Entry) (es : Entries) (o : String × ℕ)
    → some (e.0, e.1.expires_at) ≡ some o
    → any_of (λ z. str_eq z.0 o.0) (e ∷ es) ≡ true
head_name e es o h = let same : e.0 ≡ o.0 = cc in rw (same, eq_refl o.0) refl

tail_name :
    (e : String × Entry) (es : Entries) (o r : String × ℕ)
    → some r ≡ some o
    → any_of (λ z. str_eq z.0 r.0) es ≡ true
    → any_of (λ z. str_eq z.0 o.0) (e ∷ es) ≡ true
tail_name e es o r h k =
    let same : r.0 ≡ o.0 = cc in
    let k' : any_of (λ z. str_eq z.0 o.0) es ≡ true = rw⁻¹ same k in or_true (str_eq e.0 o.0) k'
  where
    or_true : (b : Bool) {c : Bool} → c ≡ true → (b || c) ≡ true
    or_true true k = refl
    or_true false k = k

oldest-Elem :
    (es : Entries) (o : String × ℕ) → oldest es ≡ some o → any_of (λ e. str_eq e.0 o.0) es ≡ true
unfolding oldest
oldest-Elem [] o h = cc
oldest-Elem (e ∷ es) o h = elim (Option-cases (oldest es)) [
  | inl empty ↦ head_name e es o (oldest-nil e es empty ∙ h)
  | inr (r, known) ↦ elim (Bool-cases (ltb r.1 e.1.expires_at)) [
    | inl older ↦ tail_name e es o r (oldest-tail e es r known older ∙ h) (oldest-Elem es r known)
    | inr younger ↦ head_name e es o (oldest-head e es r known younger ∙ h)
  ]
]

drop-shorter :
    (name : String) (es : Entries)
    → any_of (λ e. str_eq e.0 name) es ≡ true
    → length (drop_user name es) < length es
unfolding drop_user
drop-shorter name [] h = cc
drop-shorter name (e ∷ es) h =
    ground (arith, drop-shorter name es, length-filter_by-le (λ z. not (str_eq z.0 name)) es)

oldest-some : (e : String × Entry) (es : Entries) → (o : String × ℕ) × (oldest (e ∷ es) ≡ some o)
oldest-some e es = elim (Option-cases (oldest es)) [
  | inl empty ↦ ((e.0, e.1.expires_at), sym (oldest-nil e es empty))
  | inr (r, known) ↦ elim (Bool-cases (ltb r.1 e.1.expires_at)) [
    | inl older ↦ (r, sym (oldest-tail e es r known older))
    | inr younger ↦ ((e.0, e.1.expires_at), sym (oldest-head e es r known younger))
  ]
]

evicted :
    (es : Entries)
    → 0 < length es
    → (fs : Entries) × (evict_oldest es ≡ some fs) × (length fs < length es)
unfolding evict_oldest
evicted [] h = absurd (omega (arith, h))
evicted (e ∷ es) h =
    let (o, first) = oldest-some e es in
    (
      drop_user o.0 (e ∷ es),
      rw (first, evict_oldest) refl,
      drop-shorter o.0 (e ∷ es) (oldest-Elem (e ∷ es) o first),
    )

room :
    (l : Limits) (now : ℕ) (es : Entries)
    → 0 < l.max_entries
    → length es ≤ l.max_entries
    → (fs : Entries) × (make_room l now es ≡ some fs) × (length fs < l.max_entries)
unfolding make_room
room l now es p h =
    let live = filter_by (λ e. not (leb e.1.expires_at now)) es in
    let fewer = length-filter_by-le (λ e. not (leb e.1.expires_at now)) es in
    elim (Bool-cases (leb l.max_entries (length live))) [
      | inr space ↦ (live, rw (space, make_room) refl, ground arith)
      | inl full ↦
          let (fs, gone, less) = evicted live (ground arith) in
          (fs, rw (full, make_room) gone, omega (arith, less, fewer, h))
    ]

store-lookup : (name : String) (x : Entry) (es : Entries) → lookup name (store name x es) ≡ some x
unfolding store lookup
store-lookup name x [] = rw (eq_refl name) refl
store-lookup name x (e ∷ es) = elim (Bool-cases (str_eq e.0 name)) [
  | inl y ↦ rw (y, store, eq_refl name) refl
  | inr other ↦ rw (other, store, other) (store-lookup name x es)
]

module _ (mac : String → String → String) (l : Limits) (now : ℕ) (name password : String) (id : ℕ)
    (m : AuthSource) where
  abbrev pub made : Entry
  made = record { mac = mac name password; user_id = id; auth_method = m; expires_at = now + l.ttl }

  put-stores :
      (es : Entries)
      → (l.ttl == 0) ≡ false
      → (is_none (lookup name es) && leb l.max_entries (length es)) ≡ false
      → cache_put mac l now name password id m es ≡ some (store name made es)
  unfolding cache_put
  put-stores es on space = rw (on, space) refl

  put-evicts :
      (es fs : Entries)
      → (l.ttl == 0) ≡ false
      → (is_none (lookup name es) && leb l.max_entries (length es)) ≡ true
      → make_room l now es ≡ some fs
      → cache_put mac l now name password id m es ≡ some (store name made fs)
  unfolding cache_put
  put-evicts es fs on full r = rw (on, full, r) refl

  get-stored :
      (fs : Entries) (t : ℕ)
      → (l.ttl == 0) ≡ false
      → lookup name fs ≡ some made
      → t < now + l.ttl
      → cache_get mac l t name password fs ≡ (some (id, m), fs)
  unfolding cache_get
  get-stored fs t on f early =
      let fresh : leb (now + l.ttl) t ≡ false = ground (arith, early) in
      rw (on, f, cache_get, fresh, eq_refl (mac name password)) refl

  get-refuses :
      (fs : Entries) (t : ℕ) (other : String)
      → lookup name fs ≡ some made
      → str_eq (mac name password) (mac name other) ≡ false
      → (cache_get mac l t name other fs).0 ≡ none
  unfolding cache_get
  get-refuses fs t other f d = elim (Bool-cases (l.ttl == 0)) [
    | inl off ↦ rw off refl
    | inr on ↦ elim (Bool-cases (leb (now + l.ttl) t)) [
      | inl late ↦ rw (on, f, cache_get, late) refl
      | inr fresh ↦ rw (on, f, cache_get, fresh, d) refl
    ]
  ]

  -- With caching on and room for an entry, `put` does not raise and keeps the cache within its
  -- limit; until the time to live is over `get` gives the user id and the backend for the same
  -- credentials, and it gives nothing for a password whose HMAC differs.
  pub put-get :
      (es : Entries)
      → 0 < l.ttl
      → 0 < l.max_entries
      → length es ≤ l.max_entries
      → (fs : Entries) × (cache_put mac l now name password id m es ≡ some fs)
        × (length fs ≤ l.max_entries)
        × ((t : ℕ) → t < now + l.ttl → cache_get mac l t name password fs ≡ (some (id, m), fs))
        × ((t : ℕ) (other : String)
            → str_eq (mac name password) (mac name other) ≡ false
            → (cache_get mac l t name other fs).0 ≡ none)
  put-get es on p h =
      let enabled : (l.ttl == 0) ≡ false = ground (arith, on) in
      elim (Bool-cases (is_none (lookup name es) && leb l.max_entries (length es))) [
        | inr space ↦ (
          store name made es,
          put-stores es enabled space,
          fits es space h,
          λ t. get-stored _ t enabled (store-lookup name made es),
          λ t other. get-refuses _ t other (store-lookup name made es),
        )
        | inl full ↦
            let (fs, made_room, less) = room l now es p h in
            (
              store name made fs,
              put-evicts es fs enabled full made_room,
              grows fs less,
              λ t. get-stored _ t enabled (store-lookup name made fs),
              λ t other. get-refuses _ t other (store-lookup name made fs),
            )
      ]
    where
      grows :
          (fs : Entries) → length fs < l.max_entries → length (store name made fs) ≤ l.max_entries
      grows fs less = let n = store-length name made fs in ground (arith, n, less)

      fits :
          (es : Entries)
          → (is_none (lookup name es) && leb l.max_entries (length es)) ≡ false
          → length es ≤ l.max_entries
          → length (store name made es) ≤ l.max_entries
      fits es space h = let n = store-length name made es in ground (arith, n, space, h)
