-- ===== src/Examples/Authorities.antt =====
-- Tests and witnesses for Authorities: a root with a path length of 1, an intermediate below it that
-- is kept to a domain, and their certificates.
use chancery.Prelude.{
  ℕ, ◌≡◌, refl, String, Option, none, some, true, false, [], ◌∷◌, if◌then◌else◌, str_eq, Result, ok,
  raise,
}
use chancery.Issuance.Policy.{
  Limits, enforce_key_strength, bounded_not_after, ec, ec_key, secp256r1,
}
use chancery.Authorities.Types.{
  dns, Entry, Constraints, Key, Certificate, software, approved, Ca, Store, Crypto, CaError,
  excluded_name, outside_permitted, no_path_length, name_taken,
}
use chancery.Authorities.Text.{codes}
use chancery.Authorities.Names.{NameLib, dns_within, looks_like_hostname}
use chancery.Authorities.Constraints.{enforce}
use chancery.Authorities.Chain.{chain_pems}
use chancery.Authorities.Alternates.{reissue_ca_certificate, keep_reissue}
use chancery.Authorities.CrossSign.{descends}
use chancery.Authorities.Bundle.{order_chain}
use chancery.Authorities.Create.{
  Env, Draw, Request, create_root_ca, create_intermediate_ca, clamp_path, issued_tbs,
}

abbrev pub limits : Limits
limits = record {
  min_rsa = 2048;
  max_rsa = 8192;
  max_cert_days = 825;
  max_intermediate_days = 1825;
  max_ca_days = 3650;
}

abbrev pub key_one : Key
key_one = record { number = 1; material = ec_key secp256r1; key_type = ec; key_size = 256 }

abbrev pub crypto : Crypto
crypto = record {
  default_backend = software;
  generate_key = λ b t n label. some key_one;
  sign = λ c passphrase t. if str_eq passphrase "secret" then some c.name else none;
  issued_by = λ c p. str_eq c.tbs.issuer p.tbs.subject;
  key_identifier = λ k. "key";
}

abbrev pub names : NameLib
names = record { ip_in_network = λ a n. false; url_host = λ u. [] }

abbrev pub env : Env
env = record { limits = limits; crypto = crypto; names = names }

abbrev pub draw : ℕ → ℕ → Draw
draw now serial = record { now = now; serial = serial; label = "ca-1"; crl_ok = true }

abbrev pub entry : String → Entry
entry s = record { kind = dns; value = codes s }

abbrev pub request : String → Option ℕ → Option Constraints → Request
request name path_length constraints = record {
  name = name;
  subject = name;
  common_name = some name;
  hostname = none;
  key_type = ec;
  key_size = 256;
  validity_days = 100;
  path_length = path_length;
  backend = none;
  created_by = some 1;
  approval_status = approved;
  constraints = constraints;
  policies = [];
  passphrase = "secret";
}

abbrev pub empty_store : Store
empty_store = record { cas = []; alternates = []; next_ca = 1; next_alternate = 1 }

abbrev pub blank_cert : Certificate
blank_cert = record {
  tbs = record {
    subject = "";
    issuer = "";
    public_key = key_one;
    serial = 0;
    not_before = 0;
    not_after = 0;
    basic_ca = none;
    path_length = none;
    subject_key = none;
    authority_key = none;
    constraints = none;
    policies = [];
  };
  signature = "";
}

abbrev pub blank : Ca
blank = record {
  id = 0;
  name = "";
  common_name = "";
  serial_number = 0;
  certificate = blank_cert;
  private_key_enc = false;
  key_backend = software;
  key_label = none;
  parent_id = none;
  is_root = false;
  key_type = ec;
  key_size = 256;
  not_before = 0;
  not_after = 0;
  path_length = none;
  crl_number = 0;
  is_revoked = false;
  created_by = none;
  signoff = record { status = approved; approved_by = none; approved_at = none };
  expiry_notified_at = none;
  name_constraints = none;
  certificate_policies = [];
}

abbrev pub result_of {ℓ} : {A : Type ℓ} → A → Result CaError A → A
result_of d (ok r) = r
result_of d (raise e) = d

abbrev pub made_root : Ca × Store
made_root =
    result_of (blank, empty_store)
      (create_root_ca env (draw 1000 7) (request "Root" (some 1) none) empty_store)

abbrev pub domain : Constraints
domain = record { permitted = entry "example.com" ∷ []; excluded = entry "bad.example.com" ∷ [] }

abbrev pub issuing_request : Request
issuing_request = request "Issuing" none (some domain)

abbrev pub made_issuing : Ca × Store
made_issuing =
    result_of (blank, empty_store)
      (create_intermediate_ca env (draw 2000 8) issuing_request made_root.0 made_root.1)

abbrev pub issuing : Ca
issuing = made_issuing.0

abbrev pub store : Store
store = made_issuing.1

unfoldable pub program : Unit {0}
unfolding create_root_ca enforce_key_strength bounded_not_after create_intermediate_ca enforce
    chain_pems reissue_ca_certificate keep_reissue order_chain descends dns_within
    looks_like_hostname clamp_path issued_tbs
program = tt

pub root_made :
    create_root_ca env (draw 1000 7) (request "Root" (some 1) none) empty_store ≡ ok made_root
unfolding program
root_made = refl

pub issuing_made :
    create_intermediate_ca env (draw 2000 8) issuing_request made_root.0 made_root.1
    ≡ ok made_issuing
unfolding program
issuing_made = refl

-- The path length that is left, and the first CRL.
issuing_path : issuing.path_length ≡ some 0
unfolding program
issuing_path = refl

issuing_crl : issuing.crl_number ≡ 1
unfolding program
issuing_crl = refl

-- Nothing can be created below it.
below_refused :
    create_intermediate_ca env (draw 3000 9) (request "Below" none none) issuing store
    ≡ raise no_path_length
unfolding program
below_refused = refl

-- A name that is taken is refused.
taken : create_root_ca env (draw 3000 9) (request "Root" none none) store ≡ raise name_taken
unfolding program
taken = refl

pub permitted_name :
    enforce names store.cas issuing none (codes "DNS:www.example.com" ∷ []) ≡ some (ok tt)
unfolding program
permitted_name = refl

excluded :
    enforce names store.cas issuing none (codes "x.bad.example.com" ∷ [])
    ≡ some (raise excluded_name)
unfolding program
excluded = refl

outside :
    enforce names store.cas issuing (some (codes " WWW.Example.ORG ")) []
    ≡ some (raise outside_permitted)
unfolding program
outside = refl
