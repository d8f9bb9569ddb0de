-- ===== src/Profiles/Complies.antt =====
-- What `enforce` of app/services/profile_service.py lets through.
use chancery.Prelude.{
  Result, raise, if◌then◌else◌, ℕ, Option, none, String, Bool, raise_not_ok, ◌≤◌, ◌≡◌, refl, sym,
  ◌∙◌, some, true, false, not, ◌&&◌, List, [], ◌∷◌, Elem, here, ◌⊎◌, arith, ltb, ok, ok_unique,
  if_false, guard_ok, then_ok,
}
use chancery.Issuance.Policy.{rsa, ec}
use chancery.Authorities.Types.{Text, dns, Entry}
use chancery.Authorities.Text.{same_text, is_empty, lower, strip}
use mathlib.Core.Path.{subst}
use chancery.Profiles.Enforce.{
  ProfileError, disabled, not_allowed_for_ca, unknown_profile, usable, allowed_for_ca, resolve,
  Profile, validity_too_long, san_required, is_custom, is_nonempty, Asked, Usage, check_key,
  check_sans, check_cn, filled, stamped, enforce_rules, enforce_profile,
}
use chancery.Profiles.Permits.{
  Permits, AtMost, Parses, at_most, check_key-Permits, check_cn-Listed, check_sans-Permits,
}

pub record Complies (p : Profile) (a : Asked) : Type 0 where
  pub key_type : Permits p.allowed_key_types a.key_type
  pub rsa_size : a.key_type ≡ rsa → (p.min_rsa_bits ≤ a.key_size) × AtMost p.max_rsa_bits a.key_size
  pub ec_size : a.key_type ≡ ec → Permits p.allowed_ec_sizes a.key_size
  pub validity : AtMost p.max_validity_days a.validity_days
  pub san_present : p.require_san ≡ true → (t : Text) × Elem t (filled a.san_list)
  pub san_kinds :
      (t : Text)
      → Elem t (filled a.san_list)
      → (p.allowed_san_types ≡ []) ⊎ ((e : Entry) × Parses t e × Elem e.kind p.allowed_san_types)
  pub cn_listed :
      (cn : Text)
      → a.common_name ≡ some cn
      → is_empty cn ≡ false
      → p.cn_in_san ≡ true
      → (t : Text) × (e : Entry) × Elem t (filled a.san_list)
        × Parses t e
        × (e.kind ≡ dns)
        × (same_text (lower (strip cn)) (lower e.value) ≡ true)

filled_any : (ts : List Text) → is_nonempty ts ≡ true → (t : Text) × Elem t ts
filled_any [] h = cc
filled_any (t ∷ ts) h = (t, here)

enforce_rules-Complies :
    (p : Profile) (a : Asked) {u : Usage}
    → enforce_rules p a ≡ ok u
    → Complies p a × (u ≡ stamped p a)
unfolding enforce_rules
enforce_rules-Complies p a h =
    let sans = filled a.san_list in
    let k = then_ok (check_key p a) _ h in
    let v =
      guard_ok
        ((ltb 0 p.max_validity_days && ltb 0 a.validity_days)
          && ltb p.max_validity_days a.validity_days)
        validity_too_long _ k.1 in
    let r = guard_ok (p.require_san && not (is_nonempty sans)) san_required _ v.1 in
    let s = then_ok (check_sans p.allowed_san_types sans) _ r.1 in
    let c = then_ok (check_cn p a.common_name sans) _ s.1 in
    let keys = check_key-Permits p a k.0 in
    (
      record {
        key_type = keys.0;
        rsa_size = keys.1;
        ec_size = keys.2;
        validity = at_most p.max_validity_days a.validity_days (ground (arith, v.0));
        san_present = λ q. filled_any sans (ground (arith, q, r.0));
        san_kinds = check_sans-Permits p.allowed_san_types sans s.0;
        cn_listed = check_cn-Listed p a sans c.0;
      },
      sym (ok_unique _ refl c.1),
    )

enforce_profile-Complies :
    (p : Profile) (a : Asked) {u : Usage}
    → is_custom p ≡ false
    → enforce_profile (some p) a ≡ ok u
    → Complies p a × (u ≡ stamped p a)
unfolding enforce_profile
enforce_profile-Complies p a n h =
    enforce_rules-Complies p a (sym (if_false (is_custom p) _ _ n) ∙ h)

chosen : Bool → Bool → Profile → Result ProfileError Profile
chosen is_on is_listed q =
    if not is_on then raise disabled else if not is_listed then raise not_allowed_for_ca else ok q

chosen-ok :
    (is_on is_listed : Bool) (q : Profile) {p : Profile}
    → chosen is_on is_listed q ≡ ok p
    → (is_on ≡ true) × (is_listed ≡ true) × (q ≡ p)
unfolding chosen
chosen-ok false is_listed q h = raise_not_ok _ refl h
chosen-ok true false q h = raise_not_ok _ refl h
chosen-ok true true q h = (refl, refl, ok_unique _ refl h)

usable-ok :
    (ids : Option (List ℕ)) (q : Profile) {p : Profile}
    → usable ids q ≡ ok p
    → (p.enabled ≡ true) × (allowed_for_ca ids p ≡ true)
unfolding chosen
usable-ok ids q h =
    let c = chosen-ok q.enabled (allowed_for_ca ids q) q h in
    subst (λ r. (r.enabled ≡ true) × (allowed_for_ca ids r ≡ true)) c.2 (c.0, c.1)

named : Option (List ℕ) → Option Profile → Result ProfileError Profile
named ids none = raise unknown_profile
named ids (some p) = usable ids p

named-usable :
    (ids : Option (List ℕ)) (o : Option Profile) {p : Profile}
    → named ids o ≡ ok p
    → (p.enabled ≡ true) × (allowed_for_ca ids p ≡ true)
unfolding named
named-usable ids none h = raise_not_ok _ refl h
named-usable ids (some q) h = usable-ok ids q h

resolve-usable :
    (needed : Bool) (custom : Profile) (lookup : String → Option Profile) (ids : Option (List ℕ))
    (value : Option String) {p : Profile}
    → resolve needed custom lookup ids value ≡ ok p
    → (p.enabled ≡ true) × (allowed_for_ca ids p ≡ true)
unfolding resolve named
resolve-usable true custom lookup ids none h = raise_not_ok _ refl h
resolve-usable false custom lookup ids none h = usable-ok ids custom h
resolve-usable needed custom lookup ids (some v) h = named-usable ids (lookup v) h

-- A request that names a profile is let through only under a profile that is enabled and on the
-- authority's list; and where that is not custom, the request has a key of an allowed type and size, a
-- validity within the maximum, a SAN where one is required, only SANs that parse to allowed kinds,
-- and, where the profile wants it, its common name among the DNS SANs, and the usage that comes back is
-- the profile's, with the request's own only where the profile has none.
pub resolve-Complies :
    (needed : Bool) (custom : Profile) (lookup : String → Option Profile) (ids : Option (List ℕ))
    (value : Option String) (a : Asked) {p : Profile} {u : Usage}
    → resolve needed custom lookup ids value ≡ ok p
    → enforce_profile (some p) a ≡ ok u
    → (p.enabled ≡ true)
      × (allowed_for_ca ids p ≡ true)
      × (is_custom p ≡ false → Complies p a × (u ≡ stamped p a))
resolve-Complies needed custom lookup ids value a {p} r h =
    let s = resolve-usable needed custom lookup ids value r in
    (s.0, s.1, λ n. enforce_profile-Complies p a n h)
