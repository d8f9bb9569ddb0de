-- ===== src/Profiles/Enforce.antt =====
-- `allowed_for_ca`, `resolve` and `enforce` of app/services/profile_service.py. A bound that is None or
-- 0 is 0, and a restriction that is None or empty is an empty list, as the code's truth tests take
-- them; the lookup by id, key or name is an argument.
use chancery.Prelude.{
  ℕ, String, Option, none, some, Bool, true, false, not, ◌&&◌, List, [], ◌∷◌, ◌++◌, filter_by,
  any_of, ltb, ◌==◌, if◌then◌else◌, str_eq, Result, ok, raise, ◌>>=◌, ◌>>◌, refuse_if, for_each,
}
use chancery.Issuance.Policy.{KeyType, rsa, ec, ed25519, ed448, other}
use chancery.Authorities.Types.{Text, Kind, kind_number, dns, Entry, CaError}
use chancery.Authorities.Text.{same_text, is_empty, lower, strip}
use chancery.Authorities.Names.{parse_entry}

pub record Profile : Type 0 where
  pub id : ℕ
  pub key : String
  pub name : Text
  pub is_builtin : Bool
  pub enabled : Bool
  pub key_usage : Option (List String)
  pub extended_key_usage : Option (List String)
  pub include_ocsp_aia : Bool
  pub default_validity_days : ℕ
  pub max_validity_days : ℕ
  pub allowed_key_types : List KeyType
  pub min_rsa_bits : ℕ
  pub max_rsa_bits : ℕ
  pub allowed_ec_sizes : List ℕ
  pub allowed_san_types : List Kind
  pub require_san : Bool
  pub cn_in_san : Bool

pub data FieldError : Type 0 where
  name_required name_too_long name_taken key_usage_unknown key_usage_empty extended_usage_unknown
        not_a_number too_small default_exceeds min_exceeds key_types_unknown key_types_empty
        ec_sizes_unknown san_types_unknown policies_refused :
      FieldError

pub data ProfileError : Type 0 where
  selection_required unknown_profile disabled not_allowed_for_ca key_type_refused rsa_too_small
        rsa_too_large ec_size_refused validity_too_long san_required san_type_refused cn_not_in_san
        builtin_kept in_use unknown_row :
      ProfileError
  san_error : CaError → ProfileError
  invalid : List FieldError → ProfileError

abbrev pub is_custom : Profile → Bool
is_custom p = str_eq p.key "custom"

abbrev pub type_number : KeyType → ℕ
type_number rsa = 0
type_number ec = 1
type_number ed25519 = 2
type_number ed448 = 3
type_number other = 4

abbrev pub is_nonempty {ℓ} : {A : Type ℓ} → List A → Bool
is_nonempty [] = false
is_nonempty (x ∷ xs) = true

-- `if allowed and value not in allowed`
abbrev pub excluded_by {ℓ} : {A : Type ℓ} → (A → Bool) → List A → Bool
excluded_by is_value allowed = is_nonempty allowed && not (any_of is_value allowed)

-- The allow-list of an authority; none is every profile.
abbrev pub allowed_for_ca : Option (List ℕ) → Profile → Bool
allowed_for_ca none p = true
allowed_for_ca (some ids) p = any_of (λ i. i == p.id) ids

abbrev pub usable : Option (List ℕ) → Profile → Result ProfileError Profile
usable ids p =
    if not p.enabled
    then raise disabled
    else if not (allowed_for_ca ids p)
    then raise not_allowed_for_ca
    else ok p

-- `resolve`: the value is none where it is absent or blank, `custom` is the built-in one.
unfoldable pub resolve :
    Bool
    → Profile
    → (String → Option Profile)
    → Option (List ℕ)
    → Option String
    → Result ProfileError Profile
resolve selection_needed custom lookup ids none =
    if selection_needed then raise selection_required else usable ids custom
resolve selection_needed custom lookup ids (some value) = elim (lookup value) [
  | none ↦ raise unknown_profile
  | some p ↦ usable ids p
]

pub record Asked : Type 0 where
  pub key_type : KeyType
  pub key_size : ℕ
  pub validity_days : ℕ
  pub san_list : List Text
  pub common_name : Option Text
  pub key_usage : Option (List String)
  pub extended_key_usage : Option (List String)

pub record Usage : Type 0 where
  pub key_usage : Option (List String)
  pub extended_key_usage : Option (List String)
  pub include_ocsp_aia : Bool

abbrev pub lift_san {ℓ} : {A : Type ℓ} → Result CaError A → Result ProfileError A
lift_san (ok a) = ok a
lift_san (raise e) = raise (san_error e)

abbrev pub check_size : Profile → ℕ → KeyType → Result ProfileError (Unit {0})
check_size p size rsa =
    refuse_if (ltb 0 p.min_rsa_bits && ltb size p.min_rsa_bits) rsa_too_small
    >> refuse_if (ltb 0 p.max_rsa_bits && ltb p.max_rsa_bits size) rsa_too_large
check_size p size ec = refuse_if (excluded_by (λ n. n == size) p.allowed_ec_sizes) ec_size_refused
check_size p size ed25519 = ok tt
check_size p size ed448 = ok tt
check_size p size other = ok tt

unfoldable pub check_key : Profile → Asked → Result ProfileError (Unit {0})
check_key p a =
    refuse_if (excluded_by (λ t. type_number t == type_number a.key_type) p.allowed_key_types)
      key_type_refused
    >> check_size p a.key_size a.key_type

abbrev pub kind_allowed : List Kind → Option Entry → Result ProfileError (Unit {0})
kind_allowed allowed none = raise san_type_refused
kind_allowed allowed (some e) =
    refuse_if (not (any_of (λ k. kind_number k == kind_number e.kind) allowed)) san_type_refused

unfoldable pub check_san : List Kind → Text → Result ProfileError (Unit {0})
unfolding parse_entry
check_san allowed t = lift_san (parse_entry t) >>= λ e. kind_allowed allowed e

unfoldable pub check_sans : List Kind → List Text → Result ProfileError (Unit {0})
unfolding check_san
check_sans allowed sans = if is_nonempty allowed then for_each (check_san allowed) sans else ok tt

abbrev pub dns_value : Option Entry → List Text
dns_value none = []
dns_value (some e) = if kind_number e.kind == kind_number dns then lower e.value ∷ [] else []

-- `dns_values`
unfoldable pub dns_values : List Text → Result ProfileError (List Text)
unfolding parse_entry
dns_values [] = ok []
dns_values (t ∷ ts) =
    let rest = dns_values ts in
    lift_san (parse_entry t) >>= λ e. rest >>= λ vs. ok (dns_value e ++ vs)

unfoldable pub check_cn : Profile → Option Text → List Text → Result ProfileError (Unit {0})
unfolding dns_values
check_cn p none sans = ok tt
check_cn p (some cn) sans =
    if p.cn_in_san && not (is_empty cn)
    then (dns_values sans >>= λ vs.
        refuse_if (not (any_of (same_text (lower (strip cn))) vs)) cn_not_in_san)
    else ok tt

abbrev pub filled : List Text → List Text
filled = filter_by (λ t. not (is_empty (strip t)))

abbrev pub or_else {ℓ} : {A : Type ℓ} → Option A → Option A → Option A
or_else none d = d
or_else (some a) d = some a

abbrev pub stamped : Profile → Asked → Usage
stamped p a = record {
  key_usage = or_else p.key_usage a.key_usage;
  extended_key_usage = or_else p.extended_key_usage a.extended_key_usage;
  include_ocsp_aia = p.include_ocsp_aia;
}

unfoldable pub enforce_rules : Profile → Asked → Result ProfileError Usage
unfolding check_key check_sans check_cn
enforce_rules p a = do
  check_key p a
  refuse_if
      ((ltb 0 p.max_validity_days && ltb 0 a.validity_days)
        && ltb p.max_validity_days a.validity_days)
      validity_too_long
  refuse_if (p.require_san && not (is_nonempty (filled a.san_list))) san_required
  check_sans p.allowed_san_types (filled a.san_list)
  check_cn p a.common_name (filled a.san_list)
  ok (stamped p a)

unfoldable pub enforce_profile : Option Profile → Asked → Result ProfileError Usage
unfolding enforce_rules
enforce_profile none a = ok (record {
  key_usage = a.key_usage;
  extended_key_usage = a.extended_key_usage;
  include_ocsp_aia = true;
})
enforce_profile (some p) a =
    if is_custom p
    then ok (record {
      key_usage = a.key_usage;
      extended_key_usage = a.extended_key_usage;
      include_ocsp_aia = true;
    })
    else enforce_rules p a
