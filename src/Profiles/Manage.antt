-- ===== src/Profiles/Manage.antt =====
-- `validate`, `_apply`, `create`, `update` and `delete` of app/services/profile_service.py on the table
-- of app/models/certificate_profile.py. A field is absent, of a wrong type or with unknown members, or
-- given; the key that `unique_key` finds, the rows that certificates or CSRs refer to, and whether the
-- policies parse are arguments. A number that `validate` refuses is never stored, so a row has naturals.
use chancery.Prelude.{
  ℕ, String, Option, none, some, Bool, true, false, not, ◌&&◌, List, [], ◌∷◌, ◌++◌, map, length,
  first_where, get_or, is_num, ltb, ◌==◌, if◌then◌else◌, Result, ok, raise, ◌>>=◌, ◌>>◌, refuse_if,
}
use chancery.Issuance.Policy.{KeyType}
use chancery.Authorities.Types.{Text, Kind}
use chancery.Authorities.Text.{same_text, is_empty, strip}
use chancery.Profiles.Enforce.{
  Profile, FieldError, name_required, name_too_long, name_taken, key_usage_unknown, key_usage_empty,
  extended_usage_unknown, not_a_number, too_small, default_exceeds, min_exceeds, key_types_unknown,
  key_types_empty, ec_sizes_unknown, san_types_unknown, policies_refused, ProfileError,
  builtin_kept, in_use, unknown_row, invalid, is_custom, is_nonempty,
}

-- What `int(raw)` sees: `minus n` is the number -1 - n.
pub data Raw : Type 0 where
  missing junk : Raw
  minus whole : ℕ → Raw

pub data Given {ℓ} (A : Type ℓ) : Type ℓ where
  absent : Given A
  malformed : Bool → Given A
  given : A → Given A

pub record Fields : Type 0 where
  pub name : Text
  pub key_usage : Given (List String)
  pub extended_key_usage : Given (List String)
  pub include_ocsp_aia : Bool
  pub default_validity_days : Raw
  pub max_validity_days : Raw
  pub allowed_key_types : Given (List KeyType)
  pub min_rsa_bits : Raw
  pub max_rsa_bits : Raw
  pub allowed_ec_sizes : Given (List ℕ)
  pub allowed_san_types : Given (List Kind)
  pub require_san : Bool
  pub cn_in_san : Bool
  pub policies_fail : Bool
  pub enabled : Option Bool

abbrev pub error_if : Bool → FieldError → List FieldError
error_if b e = if b then e ∷ [] else []

abbrev pub is_malformed {ℓ} : {A : Type ℓ} → Given A → Bool
is_malformed absent = false
is_malformed (malformed truthy) = true
is_malformed (given a) = false

-- `is not None and not types`
abbrev pub is_given_empty {ℓ} : {A : Type ℓ} → Given (List A) → Bool
is_given_empty absent = false
is_given_empty (malformed truthy) = not truthy
is_given_empty (given xs) = not (is_nonempty xs)

abbrev pub is_name_taken : List Profile → Option ℕ → Text → Bool
is_name_taken rows existing name = elim (first_where (λ p. same_text p.name name) rows) [
  | none ↦ false
  | some clash ↦ not (is_num existing clash.id)
]

abbrev pub name_errors : List Profile → Option ℕ → Text → List FieldError
name_errors rows existing name =
    if is_empty name
    then name_required ∷ []
    else if ltb 100 (length name)
    then name_too_long ∷ []
    else error_if (is_name_taken rows existing name) name_taken

abbrev pub key_usage_errors : Given (List String) → List FieldError
key_usage_errors absent = []
key_usage_errors (malformed truthy) = key_usage_unknown ∷ []
key_usage_errors (given bits) = error_if (not (is_nonempty bits)) key_usage_empty

-- `_int`
abbrev pub int_errors : ℕ → Raw → List FieldError
int_errors minimum missing = []
int_errors minimum junk = not_a_number ∷ []
int_errors minimum (minus n) = too_small ∷ []
int_errors minimum (whole n) = error_if (ltb n minimum) too_small

-- `a and b and a > b`
abbrev pub exceeds : Raw → Raw → Bool
exceeds (whole a) (whole b) = (ltb 0 a && ltb 0 b) && ltb b a
exceeds (whole a) (minus b) = ltb 0 a
exceeds (minus a) (minus b) = ltb a b
exceeds _ _ = false

unfoldable pub validate : List Profile → Fields → Option ℕ → List FieldError
validate rows f existing =
    name_errors rows existing (strip f.name)
    ++ (key_usage_errors f.key_usage
        ++ (error_if (is_malformed f.extended_key_usage) extended_usage_unknown
            ++ (int_errors 1 f.default_validity_days
                ++ (int_errors 1 f.max_validity_days
                    ++ (error_if (exceeds f.default_validity_days f.max_validity_days)
                          default_exceeds
                        ++ (int_errors 1024 f.min_rsa_bits
                            ++ (int_errors 1024 f.max_rsa_bits
                                ++ (error_if (exceeds f.min_rsa_bits f.max_rsa_bits) min_exceeds
                                    ++ (error_if (is_malformed f.allowed_key_types)
                                          key_types_unknown
                                        ++ (error_if (is_given_empty f.allowed_key_types)
                                              key_types_empty
                                            ++ (error_if (is_malformed f.allowed_ec_sizes)
                                                  ec_sizes_unknown
                                                ++ (error_if (is_malformed f.allowed_san_types)
                                                      san_types_unknown
                                                    ++ error_if f.policies_fail
                                                        policies_refused))))))))))))

abbrev pub stored {ℓ} : {A : Type ℓ} → Given (List A) → Option (List A)
stored absent = none
stored (malformed truthy) = none
stored (given xs) = some xs

abbrev pub list_of {ℓ} : {A : Type ℓ} → Given (List A) → List A
list_of g = get_or (stored g) []

abbrev pub bound_of : Raw → ℕ
bound_of (whole n) = n
bound_of _ = 0

-- `int(fields.get("default_validity_days") or 365)`
abbrev pub or_year : ℕ → ℕ
or_year n = if ltb 0 n then n else 365

abbrev pub capped : ℕ → ℕ → ℕ
capped cap n = if ltb 0 cap && ltb cap n then cap else n

-- `_apply`
unfoldable pub apply_fields : Profile → Fields → Profile
apply_fields row f = record {
  id = row.id;
  key = row.key;
  name = strip f.name;
  is_builtin = row.is_builtin;
  enabled = get_or f.enabled row.enabled;
  key_usage = if is_custom row then row.key_usage else stored f.key_usage;
  extended_key_usage =
      if is_custom row then row.extended_key_usage else stored f.extended_key_usage;
  include_ocsp_aia = f.include_ocsp_aia;
  default_validity_days =
      capped (bound_of f.max_validity_days) (or_year (bound_of f.default_validity_days));
  max_validity_days = bound_of f.max_validity_days;
  allowed_key_types = list_of f.allowed_key_types;
  min_rsa_bits = bound_of f.min_rsa_bits;
  max_rsa_bits = bound_of f.max_rsa_bits;
  allowed_ec_sizes = list_of f.allowed_ec_sizes;
  allowed_san_types = list_of f.allowed_san_types;
  require_san = f.require_san;
  cn_in_san = f.cn_in_san;
}

abbrev pub checked : {A : Type 0} → List FieldError → A → Result ProfileError A
checked [] a = ok a
checked (e ∷ es) a = raise (invalid (e ∷ es))

-- A row with the defaults of its columns.
abbrev pub fresh : ℕ → String → Profile
fresh id key = record {
  id = id;
  key = key;
  name = [];
  is_builtin = false;
  enabled = true;
  key_usage = none;
  extended_key_usage = none;
  include_ocsp_aia = true;
  default_validity_days = 365;
  max_validity_days = 0;
  allowed_key_types = [];
  min_rsa_bits = 0;
  max_rsa_bits = 0;
  allowed_ec_sizes = [];
  allowed_san_types = [];
  require_san = false;
  cn_in_san = false;
}

unfoldable pub create_profile :
    ℕ → String → Fields → List Profile → Result ProfileError (List Profile)
unfolding validate apply_fields
create_profile id key f rows =
    checked (validate rows f none) (rows ++ (apply_fields (fresh id key) f ∷ []))

-- The row with this id, changed in place.
abbrev pub put_row : ℕ → Fields → List Profile → List Profile
put_row id f = map (λ p. if p.id == id then apply_fields p f else p)

unfoldable pub update_profile : ℕ → Fields → List Profile → Result ProfileError (List Profile)
unfolding validate
update_profile id f rows = checked (validate rows f (some id)) (put_row id f rows)

abbrev pub may_delete : (ℕ → Bool) → Profile → Result ProfileError (Unit {0})
may_delete is_used p = refuse_if p.is_builtin builtin_kept >> refuse_if (is_used p.id) in_use

unfoldable pub delete_profile : (ℕ → Bool) → ℕ → List Profile → Result ProfileError (List Profile)
delete_profile is_used id [] = raise unknown_row
delete_profile is_used id (p ∷ ps) =
    let rest = delete_profile is_used id ps in
    if p.id == id then may_delete is_used p >> ok ps else (rest >>= λ qs. ok (p ∷ qs))
