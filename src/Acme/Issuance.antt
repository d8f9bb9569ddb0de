-- ===== src/Acme/Issuance.antt =====
-- What stands behind a certificate that `finalize` issues (app/services/acme/service.py).
use chancery.Prelude.{
  ℕ, ◌≤◌, ◌≡◌, ◌≢◌, String, Option, none, some, Bool, true, false, not, List, [], ◌∷◌, map, All, ok,
}
use chancery.Acme.Types.{Order}
use chancery.Acme.Orders.{
  Site, Item, NewIds, new_order, order_for, display_identifier, parse_identifiers, new_authzs,
  is_in,
}
use chancery.Acme.Finalize.{Csr, Profile, same_names, requested_names, named}
use chancery.Acme.Granted.{Granted, AllValid}
use chancery.Acme.Names.{DnsOnly, new_order-WellNamed, names_of}
use chancery.Acme.Proofs.{Proved}
use chancery.Acme.Lifecycle.{Sound}

order_for-Proved :
    (s : Site) (expires : ℕ) (vs : List String) (n m : ℕ) → All Proved (new_authzs s expires n m vs)
unfolding new_authzs
order_for-Proved s expires [] n m = tt
order_for-Proved s expires (v ∷ vs) n m = ((λ k. cc), order_for-Proved s expires vs _ _)

order_for-Granted :
    (s : Site) (ca_id account_id : ℕ) (ids : NewIds) (now : ℕ) (names : List String)
    → Granted (order_for s ca_id account_id ids now names)
unfolding order_for
order_for-Granted s ca_id account_id ids now names k = cc

pub new_order-Sound :
    (s : Site) (ca_id account_id : ℕ) (ids : NewIds) (now : ℕ) (items : List Item) (o : Order)
    → new_order s ca_id account_id ids now items ≡ ok o
    → Sound o
unfolding new_order order_for
new_order-Sound s ca_id account_id ids now items o e =
    let (names, accepted, same) = names_of (parse_identifiers s items) _ o e in
    record {
      named = new_order-WellNamed s ca_id account_id ids now items o e;
      proved = rw same (order_for-Proved s _ names _ _);
      granted = rw same (order_for-Granted s ca_id account_id ids now names);
    }

-- What a certificate's request must match: it asks for the names and no others, in its alternative
-- names or, where it has none, by its common name, and a common name is one of the names.
pub record Matches (names : List String) (csr : Csr) : Type 0 where
  pub signature : csr.signature_valid ≡ true
  pub dns_alone : csr.other_names ≡ false
  pub cn_agrees : (cn : String) → named csr.common_name ≡ some cn → is_in names cn ≡ true
  pub names_agree : same_names (requested_names csr) names ≡ true

cn_refused : List String → Option String → Bool
cn_refused names o = elim o [ none ↦ false | some cn ↦ not (is_in names cn) ]

-- A validity within the default and the profile's limit.
abbrev pub Bounded : ℕ → Profile → ℕ → Type 0
Bounded default_days p n = (n ≤ default_days) × (p.max_validity_days ≢ 0 → n ≤ p.max_validity_days)

-- An accepted request: its CSR matches the order, its profile is enabled and bounds the days.
pub record Accepted (d : ℕ) (csr : Option Csr) (profile : Option Profile) (names : List String)
    (n : ℕ) : Type 0 where
  pub given : Csr
  pub is_given : csr ≡ some given
  pub matches : Matches names given
  pub in_force : Profile
  pub is_in_force : profile ≡ some in_force
  pub enabled : in_force.enabled ≡ true
  pub bounded : Bounded d in_force n

-- Everything that stands behind an issued certificate.
pub record Entitled (d : ℕ) (csr : Option Csr) (profile : Option Profile) (n : ℕ) (o : Order)
    : Type 0 where
  pub every_authz_valid : AllValid o.authorizations
  pub every_authz_proved : All Proved o.authorizations
  pub one_authz_each : map display_identifier o.authorizations ≡ o.identifiers
  pub wildcards_by_dns : All DnsOnly o.authorizations
  pub accepted : Accepted d csr profile o.identifiers n
