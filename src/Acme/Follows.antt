-- ===== src/Acme/Follows.antt =====
-- Orders whose identifiers stay and whose authorizations keep their names and proofs
-- (app/services/acme/service.py).
use chancery.Prelude.{
  ℕ, ◌≡◌, refl, ◌∙◌, some, List, [], ◌∷◌, map, All, inl, inr, arith, leb, ◌==◌, Bool-cases,
}
use mathlib.Core.Path.{ap₂}
use chancery.Acme.Types.{Order, Authz, is_final}
use chancery.Acme.Refresh.{refresh_authz, refresh_order, derive_status, update_authz, find_authz}
use chancery.Acme.Orders.{display_identifier}
use chancery.Acme.Granted.{derive_status-authz}
use chancery.Acme.GrantedOps.{found_id, first_here, first_there, ==_refl_at, differs_at}
use chancery.Acme.Names.{DnsOnly}
use chancery.Acme.Proofs.{Proved, Keeps, refresh_authz-Keeps}

-- A list of authorizations made from another, one by one.
pub data KeepsAll : List Authz → List Authz → Type 0 where
  no_authz : KeepsAll [] []
  and_authz :
      {a b : Authz} {as' bs : List Authz}
      → Keeps a b
      → KeepsAll as' bs
      → KeepsAll (a ∷ as') (b ∷ bs)

Keeps-refl : (a : Authz) → Keeps a a
Keeps-refl a = record { name_kept = refl; proved = λ p. p; dns_only = λ d. d }

pub KeepsAll-refl : (as' : List Authz) → KeepsAll as' as'
KeepsAll-refl [] = no_authz
KeepsAll-refl (a ∷ as') = and_authz (Keeps-refl a) (KeepsAll-refl as')

pub map-KeepsAll :
    (f : Authz → Authz)
    → ((a : Authz) → Keeps a (f a))
    → (as' : List Authz) → KeepsAll as' (map f as')
map-KeepsAll f k [] = no_authz
map-KeepsAll f k (a ∷ as') = and_authz (k a) (map-KeepsAll f k as')

pub update-KeepsAll :
    (n : ℕ) (f : Authz → Authz)
    → ((a : Authz) → Keeps a (f a))
    → (as' : List Authz) → KeepsAll as' (update_authz n f as')
unfolding update_authz
update-KeepsAll n f k [] = no_authz
update-KeepsAll n f k (a ∷ as') = elim (Bool-cases (a.id == n)) [
  | inl y ↦ rw (y, update_authz) (and_authz (k a) (KeepsAll-refl as'))
  | inr d ↦ rw (d, update_authz) (and_authz (Keeps-refl a) (update-KeepsAll n f k as'))
]

-- The authorization that the id finds, replaced.
pub replace-KeepsAll :
    (n : ℕ) (x a : Authz)
    → Keeps a x
    → (as' : List Authz) → find_authz n as' ≡ some a
    → KeepsAll as' (update_authz a.id (λ _. x) as')
unfolding update_authz
replace-KeepsAll n x a k [] f = no_authz
replace-KeepsAll n x a k (b ∷ as') f = elim (Bool-cases (b.id == n)) [
  | inl y ↦
      let e = first_here n b as' a y f in
      rw (==_refl_at b a e, update_authz) (and_authz (rw e k) (KeepsAll-refl as'))
  | inr d ↦
      rw (differs_at n b a (found_id n (b ∷ as') a f) d, update_authz)
        (and_authz (Keeps-refl b) (replace-KeepsAll n x a k as' (first_there n b as' a d f)))
]

pub KeepsAll-trans : {as' bs cs : List Authz} → KeepsAll as' bs → KeepsAll bs cs → KeepsAll as' cs
KeepsAll-trans no_authz no_authz = no_authz
KeepsAll-trans (and_authz k ks) (and_authz l ls) =
    and_authz
      (record {
        name_kept = l.name_kept ∙ k.name_kept;
        proved = λ p. l.proved (k.proved p);
        dns_only = λ d. l.dns_only (k.dns_only d);
      })
      (KeepsAll-trans ks ls)

pub KeepsAll-names :
    {as' bs : List Authz} → KeepsAll as' bs → map display_identifier bs ≡ map display_identifier as'
KeepsAll-names no_authz = refl
KeepsAll-names (and_authz k ks) = ap₂ ◌∷◌ k.name_kept (KeepsAll-names ks)

pub KeepsAll-Proved : {as' bs : List Authz} → KeepsAll as' bs → All Proved as' → All Proved bs
KeepsAll-Proved no_authz h = tt
KeepsAll-Proved (and_authz k ks) h = (k.proved h.0, KeepsAll-Proved ks h.1)

pub KeepsAll-DnsOnly : {as' bs : List Authz} → KeepsAll as' bs → All DnsOnly as' → All DnsOnly bs
KeepsAll-DnsOnly no_authz h = tt
KeepsAll-DnsOnly (and_authz k ks) h = (k.dns_only h.0, KeepsAll-DnsOnly ks h.1)

-- The identifiers stay, the authorizations keep what they must.
pub record Follows (o p : Order) : Type 0 where
  pub same_identifiers : p.identifiers ≡ o.identifiers
  pub authz_kept : KeepsAll o.authorizations p.authorizations

pub Follows-refl : (o : Order) → Follows o o
Follows-refl o = record { same_identifiers = refl; authz_kept = KeepsAll-refl o.authorizations }

derive_status-identifiers : (o : Order) → (derive_status o).identifiers ≡ o.identifiers
unfolding derive_status
derive_status-identifiers o = ground arith

refresh_order-identifiers :
    (now : ℕ) (o : Order) → (refresh_order now o).identifiers ≡ o.identifiers
unfolding refresh_order derive_status
refresh_order-identifiers now o = ground arith

refresh_order-KeepsAll :
    (now : ℕ) (o : Order) → KeepsAll o.authorizations (refresh_order now o).authorizations
unfolding refresh_order
refresh_order-KeepsAll now o = elim (Bool-cases (is_final o.status)) [
  | inl final ↦ rw (final, refresh_order) (KeepsAll-refl o.authorizations)
  | inr n ↦ elim (Bool-cases (leb o.expires now)) [
    | inl late ↦ rw (n, late, refresh_order) (KeepsAll-refl o.authorizations)
    | inr early ↦
        rw
          (
            n,
            early,
            refresh_order,
            derive_status-authz
                (record o { authorizations = map (refresh_authz now) o.authorizations }),
          )
          (map-KeepsAll (refresh_authz now) (refresh_authz-Keeps now) o.authorizations)
  ]
]

pub refresh_order-Follows : (now : ℕ) (o p : Order) → Follows o p → Follows o (refresh_order now p)
refresh_order-Follows now o p f = record {
  same_identifiers = refresh_order-identifiers now p ∙ f.same_identifiers;
  authz_kept = KeepsAll-trans f.authz_kept (refresh_order-KeepsAll now p);
}

-- The order with its authorizations replaced by kept ones.
pub with_authz-Follows :
    (o : Order) (as' : List Authz)
    → KeepsAll o.authorizations as'
    → Follows o (record o { authorizations = as' })
with_authz-Follows o as' k = record { same_identifiers = refl; authz_kept = k }

pub same_authz-Follows :
    (o p : Order)
    → p.identifiers ≡ o.identifiers
    → p.authorizations ≡ o.authorizations
    → Follows o p
same_authz-Follows o p i a = record {
  same_identifiers = i;
  authz_kept = rw a (KeepsAll-refl o.authorizations);
}
