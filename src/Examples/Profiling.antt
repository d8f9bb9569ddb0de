-- ===== src/Examples/Profiling.antt =====
-- Tests and witnesses for Profiles: a profile for web servers, a request that it lets through, and
-- changes of a table of two profiles.
use chancery.Prelude.{
  String, Option, ℕ, ◌≡◌, refl, none, some, Bool, true, false, List, [], ◌∷◌, ◌++◌, here, arith,
  inr, ok, raise,
}
use chancery.Issuance.Policy.{rsa, ec}
use chancery.Authorities.Types.{Text, dns, ip}
use chancery.Profiles.Enforce.{
  resolve, is_custom, allowed_for_ca, not_allowed_for_ca, Profile, default_exceeds, builtin_kept,
  rsa_too_small, cn_not_in_san, invalid, Asked, stamped, enforce_profile,
}
use chancery.Profiles.Complies.{Complies, resolve-Complies}
use chancery.Profiles.Manage.{
  apply_fields, put_row, missing, whole, absent, given, Fields, fresh, create_profile,
  update_profile, delete_profile,
}
use chancery.Profiles.Sound.{
  created, updated, deleted, Changes, unchanged, then_change, AllCoherent, Changes-AllCoherent,
}
use chancery.Profiles.Survive.{Kept, Changes-Kept}

-- "a.b"
abbrev host : Text
host = 97 ∷ 46 ∷ 98 ∷ []

-- "A.B"
abbrev host_upper : Text
host_upper = 65 ∷ 46 ∷ 66 ∷ []

abbrev web : Profile
web = record {
  id = 1;
  key = "web_server";
  name = 119 ∷ [];
  is_builtin = true;
  enabled = true;
  key_usage = some ("digital_signature" ∷ []);
  extended_key_usage = some ("serverAuth" ∷ []);
  include_ocsp_aia = true;
  default_validity_days = 90;
  max_validity_days = 365;
  allowed_key_types = rsa ∷ ec ∷ [];
  min_rsa_bits = 2048;
  max_rsa_bits = 4096;
  allowed_ec_sizes = 256 ∷ [];
  allowed_san_types = dns ∷ ip ∷ [];
  require_san = true;
  cn_in_san = true;
}

abbrev asked : ℕ → Text → Asked
asked size cn = record {
  key_type = rsa;
  key_size = size;
  validity_days = 200;
  san_list = host ∷ [] ∷ [];
  common_name = some cn;
  key_usage = none;
  extended_key_usage = none;
}

program : Unit {0}
unfolding resolve enforce_profile create_profile update_profile delete_profile apply_fields
program = tt

web-small : enforce_profile (some web) (asked 1024 host) ≡ raise rsa_too_small
unfolding program
web-small = refl

web-cn : enforce_profile (some web) (asked 2048 (host ++ host)) ≡ raise cn_not_in_san
unfolding program
web-cn = refl

web-asked :
    enforce_profile (some web) (asked 2048 host_upper) ≡ ok (stamped web (asked 2048 host_upper))
unfolding program
web-asked = refl

abbrev lookup : String → Option Profile
lookup v = some web

web-resolved : resolve true web lookup (some (1 ∷ [])) (some "1") ≡ ok web
unfolding program
web-resolved = refl

web-disallowed : resolve true web lookup (some (2 ∷ [])) (some "1") ≡ raise not_allowed_for_ca
unfolding program
web-disallowed = refl

resolve-Complies_example :
    (web.enabled ≡ true)
    × (allowed_for_ca (some (1 ∷ [])) web ≡ true)
    × (is_custom web ≡ false
        → Complies web (asked 2048 host_upper)
          × (stamped web (asked 2048 host_upper) ≡ stamped web (asked 2048 host_upper)))
resolve-Complies_example =
    resolve-Complies true web lookup (some (1 ∷ [])) (some "1") (asked 2048 host_upper) web-resolved
      web-asked

abbrev fields : Text → ℕ → Fields
fields name default_days = record {
  name = name;
  key_usage = given ("digital_signature" ∷ []);
  extended_key_usage = absent;
  include_ocsp_aia = true;
  default_validity_days = whole default_days;
  max_validity_days = whole 100;
  allowed_key_types = given (rsa ∷ []);
  min_rsa_bits = whole 2048;
  max_rsa_bits = missing;
  allowed_ec_sizes = absent;
  allowed_san_types = absent;
  require_san = false;
  cn_in_san = false;
  policies_fail = false;
  enabled = none;
}

abbrev start : List Profile
start = web ∷ []

abbrev is_used : ℕ → Bool
is_used n = false

fields-default :
    create_profile 2 "p" (fields (112 ∷ []) 200) start ≡ raise (invalid (default_exceeds ∷ []))
unfolding program
fields-default = refl

delete-web : delete_profile is_used 1 start ≡ raise builtin_kept
unfolding program
delete-web = refl

abbrev extended : Fields → Profile
extended f = apply_fields (fresh 2 "p") f

abbrev two : List Profile
two = web ∷ extended (fields (112 ∷ []) 30) ∷ []

abbrev renamed : List Profile
renamed = put_row 2 (fields (113 ∷ []) 60) two

create-two : create_profile 2 "p" (fields (112 ∷ []) 30) start ≡ ok two
unfolding program
create-two = refl

update-two : update_profile 2 (fields (113 ∷ []) 60) two ≡ ok renamed
unfolding program
update-two = refl

delete-two : delete_profile is_used 2 renamed ≡ ok start
unfolding program
delete-two = refl

abbrev there_and_back : Changes is_used start start
there_and_back =
    then_change
      (then_change (then_change unchanged (created 2 "p" (fields (112 ∷ []) 30) create-two))
        (updated 2 (fields (113 ∷ []) 60) update-two))
      (deleted 2 delete-two)

start-AllCoherent : AllCoherent start
start-AllCoherent = (
  record {
    default_positive = omega arith;
    default_within = inr (omega arith);
    rsa_ordered = inr (omega arith);
    min_rsa = inr (omega arith);
    max_rsa = inr (omega arith);
  },
  tt,
)

Changes-AllCoherent_example : AllCoherent start
Changes-AllCoherent_example = Changes-AllCoherent there_and_back start-AllCoherent

Changes-Kept_example : Kept web start
Changes-Kept_example = Changes-Kept web there_and_back refl here
