-- ===== src/Acme/Granted.antt =====
-- What an order's status says of its authorizations (app/services/acme/service.py).
use chancery.Prelude.{
  ℕ, ◌≡◌, refl, some, Bool, true, false, List, [], ◌∷◌, map, length, any_of, all_of, first_where,
  Option-cases, ◌⊎◌, inl, inr, arith, ltb, leb, ◌==◌, Bool-cases,
}
use mathlib.Core.Path.{ap₂}
use chancery.Acme.Types.{Order, Authz, OrderStatus, is_pending, is_valid, has_failed, is_final}
use chancery.Acme.Refresh.{
  refresh_authz, refresh_order, derive_status, find_authz, deactivate_authz,
}

-- The statuses that lead to a certificate.
abbrev pub grants : OrderStatus → Bool
grants OrderStatus.ready = true
grants OrderStatus.processing = true
grants OrderStatus.valid = true
grants _ = false

-- There is an authorization, and every one is valid.
pub record AllValid (as' : List Authz) : Type 0 where
  pub some_authz : ltb 0 (length as') ≡ true
  pub every_valid : all_of (λ a. is_valid a.status) as' ≡ true

abbrev pub Granted : Order → Type 0
Granted o = grants o.status ≡ true → AllValid o.authorizations

pub refresh_authz-valid : (now : ℕ) (a : Authz) → is_valid a.status ≡ true → refresh_authz now a ≡ a
unfolding refresh_authz
refresh_authz-valid now a v = ground arith

pub refreshed_pending :
    (now : ℕ) (a : Authz)
    → is_pending (refresh_authz now a).status ≡ true
    → is_pending a.status ≡ true
unfolding refresh_authz
refreshed_pending now a p = ground arith

pub map-refresh_authz :
    (now : ℕ) (as' : List Authz)
    → all_of (λ a. is_valid a.status) as' ≡ true
    → map (refresh_authz now) as' ≡ as'
map-refresh_authz now [] v = refl
map-refresh_authz now (a ∷ as') v =
    ap₂ ◌∷◌ (refresh_authz-valid now a (ground arith)) (map-refresh_authz now as' (ground arith))

none_failed :
    (as' : List Authz)
    → all_of (λ a. is_valid a.status) as' ≡ true
    → any_of (λ a. has_failed a.status) as' ≡ false
none_failed [] v = refl
none_failed (a ∷ as') v = ground (arith, none_failed as')

pub derive_status-authz : (o : Order) → (derive_status o).authorizations ≡ o.authorizations
unfolding derive_status
derive_status-authz o = ground arith

derive_status-grants :
    (o : Order)
    → grants (derive_status o).status ≡ true
    → (grants o.status ≡ true) ⊎ AllValid o.authorizations
unfolding derive_status
derive_status-grants o k = elim (Bool-cases (grants o.status)) [
  | inl y ↦ inl y
  | inr n ↦ inr (record { some_authz = ground arith; every_valid = ground arith })
]

derive_status-Granted : (o : Order) → Granted o → Granted (derive_status o)
derive_status-Granted o g k =
    rw (derive_status-authz o) (elim (derive_status-grants o k) [ inl y ↦ g y | inr all ↦ all ])

abbrev refreshed : ℕ → Order → Order
refreshed now o = record o { authorizations = map (refresh_authz now) o.authorizations }

-- The three ways through `refresh_order`.
pub refresh_order-cases :
    (now : ℕ) (o : Order)
    → (refresh_order now o ≡ o)
      ⊎ (((refresh_order now o).status ≡ OrderStatus.invalid)
          ⊎ ((is_final o.status ≡ false) × (refresh_order now o ≡ derive_status (refreshed now o))))
unfolding refresh_order
refresh_order-cases now o = elim (Bool-cases (is_final o.status)) [
  | inl final ↦ inl (rw final)
  | inr open_order ↦ elim (Bool-cases (leb o.expires now)) [
    | inl late ↦ inr (inl (rw (open_order, late)))
    | inr early ↦ inr (inr (open_order, rw (open_order, early)))
  ]
]

refreshed-Granted : (now : ℕ) (o : Order) → Granted o → Granted (refreshed now o)
refreshed-Granted now o g k =
    let v = g k in rw (map-refresh_authz now o.authorizations v.every_valid) v

pub refresh_order-Granted : (now : ℕ) (o : Order) → Granted o → Granted (refresh_order now o)
refresh_order-Granted now o g = elim (refresh_order-cases now o) [
  | inl same ↦ rw same g
  | inr (inl bad) ↦ λ k. cc (bad, k)
  | inr (inr (_, e)) ↦ rw e (derive_status-Granted (refreshed now o) (refreshed-Granted now o g))
]

-- A granted order has no pending authorization.
pub first_where-all_of {ℓ} :
    {A : Type ℓ} (p q : A → Bool) (xs : List A) (x : A)
    → all_of p xs ≡ true
    → first_where q xs ≡ some x
    → p x ≡ true
first_where-all_of p q [] x h e = cc
first_where-all_of p q (y ∷ xs) x h e = ground (arith, first_where-all_of p q xs x)

pub find_authz-grants :
    (o : Order) (n : ℕ) (a : Authz)
    → Granted o
    → find_authz n o.authorizations ≡ some a
    → is_pending a.status ≡ true
    → grants o.status ≡ false
find_authz-grants o n a g f p = elim (Bool-cases (grants o.status)) [
  | inr no_grant ↦ no_grant
  | inl y ↦
      let v =
        first_where-all_of (λ x. is_valid x.status) (λ x. x.id == n) o.authorizations a
          (g y).every_valid f in
      ground arith
]

-- A change of the authorizations of an order that grants nothing.
pub ungranted :
    (o : Order) (as' : List Authz)
    → grants o.status ≡ false
    → Granted (record o { authorizations = as' })
ungranted o as' n k = cc

pub deactivate_authz-Granted :
    (now n : ℕ) (o : Order) → Granted o → Granted (deactivate_authz now n o)
unfolding deactivate_authz
deactivate_authz-Granted now n o g = elim (Option-cases (find_authz n o.authorizations)) [
  | inl f ↦ rw (f, deactivate_authz) g
  | inr (a, f) ↦ elim (Bool-cases (is_pending a.status)) [
    | inr settled ↦ rw (f, settled, deactivate_authz) g
    | inl p ↦
        rw (f, p, deactivate_authz)
          (refresh_order-Granted now _ (ungranted o _ (find_authz-grants o n a g f p)))
  ]
]
