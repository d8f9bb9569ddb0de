-- ===== src/Acme/Refresh.antt =====
-- `refresh_order`, `_refresh_authz` without an attempt, and `deactivate_authz` of
-- app/services/acme/service.py.
use chancery.Prelude.{
  ℕ, Option, none, some, Bool, true, false, ◌&&◌, List, [], ◌∷◌, map, length, any_of, all_of,
  first_where, ltb, leb, ◌==◌, if◌then◌else◌,
}
use chancery.Acme.Types.{
  Order, Authz, OrderStatus, AuthzStatus, malformed, unauthorized, is_pending, is_valid, has_failed,
  is_final, or_error,
}

-- `_refresh_authz(authz, now)`
unfoldable pub refresh_authz : ℕ → Authz → Authz
refresh_authz now a =
    if is_pending a.status && leb a.expires now
    then record a { status = AuthzStatus.expired }
    else a

-- `order.status == "pending"`
abbrev pub awaits_authz : OrderStatus → Bool
awaits_authz OrderStatus.pending = true
awaits_authz _ = false

unfoldable pub derive_status : Order → Order
derive_status o =
    if any_of (λ a. has_failed a.status) o.authorizations
    then record o { status = OrderStatus.invalid; error = or_error o.error unauthorized }
    else if (ltb 0 (length o.authorizations) && all_of (λ a. is_valid a.status) o.authorizations)
        && awaits_authz o.status
    then record o { status = OrderStatus.ready }
    else o

unfoldable pub refresh_order : ℕ → Order → Order
unfolding refresh_authz derive_status
refresh_order now o =
    if is_final o.status
    then o
    else if leb o.expires now
    then record o { status = OrderStatus.invalid; error = or_error o.error malformed }
    else derive_status (record o { authorizations = map (refresh_authz now) o.authorizations })

-- An update of the authorization with the given id.
unfoldable pub update_authz : ℕ → (Authz → Authz) → List Authz → List Authz
update_authz n f [] = []
update_authz n f (a ∷ as') = if a.id == n then f a ∷ as' else a ∷ update_authz n f as'

unfoldable pub deactivate : Authz → Authz
deactivate a = if is_pending a.status then record a { status = AuthzStatus.deactivated } else a

abbrev pub find_authz : ℕ → List Authz → Option Authz
find_authz n = first_where (λ a. a.id == n)

-- `deactivate_authz`: the order is refreshed only where the authorization was pending.
unfoldable pub deactivate_authz : ℕ → ℕ → Order → Order
unfolding deactivate update_authz refresh_order
deactivate_authz now n o = elim (find_authz n o.authorizations) [
  | none ↦ o
  | some a ↦
      if is_pending a.status
      then refresh_order now
          (record o { authorizations = update_authz n deactivate o.authorizations })
      else o
]
