-- ===== src/Authorities/Create.antt =====
-- `create_root_ca` and `create_intermediate_ca` of app/services/ca_service.py. What `build_subject`
-- makes, the random serial and the label are arguments; the unique column of the serial number is
-- checked when the row is written. `parent_ca` is a row of the store.
use chancery.Prelude.{
  ℕ, zero, suc, String, Option, none, some, Bool, true, false, not, ◌&&◌, List, [], ◌∷◌, any_of,
  get_or, ◌/◌, seconds, ltb, leb, ◌==◌, if◌then◌else◌, str_eq, Result, ok, raise, ◌>>=◌, ◌>>◌,
  refuse_if,
}
use chancery.Issuance.Policy.{KeyType, Limits, enforce_key_strength, bounded_not_after}
use chancery.Authorities.Types.{
  Text, Constraints, Policy, Key, Tbs, Certificate, Backend, Approval, approved, pending,
  is_pending, Signoff, Ca, is_softhsm, has_signing_key, Store, CaError, name_taken, serial_taken,
  parent_without_key, parent_pending, parent_revoked, parent_expired, no_path_length,
  no_subject_key, key_failed, sign_failed, no_key, pending_ca, looping, lift_policy, need, Crypto,
}
use chancery.Authorities.Names.{NameLib}
use chancery.Authorities.Constraints.{enforce}

pub record Request : Type 0 where
  pub name : String
  pub subject : String
  pub common_name : Option String
  pub hostname : Option Text
  pub key_type : KeyType
  pub key_size : ℕ
  pub validity_days : ℕ
  pub path_length : Option ℕ
  pub backend : Option Backend
  pub created_by : Option ℕ
  pub approval_status : Approval
  pub constraints : Option Constraints
  pub policies : List Policy
  pub passphrase : String

-- The moment, the random serial, `_key_label()`, and whether the first CRL can be made.
pub record Draw : Type 0 where
  pub now : ℕ
  pub serial : ℕ
  pub label : String
  pub crl_ok : Bool

pub record Env : Type 0 where
  pub limits : Limits
  pub crypto : Crypto
  pub names : NameLib

-- `ensure_name_available`
unfoldable pub ensure_name_available : List Ca → String → Result CaError (Unit {0})
ensure_name_available cas name =
    refuse_if (any_of (λ c. str_eq c.name name && not c.is_revoked) cas) name_taken

-- An instant in a certificate: it has no fraction of a second.
abbrev pub to_second : ℕ → ℕ
to_second n = seconds (n / seconds 1)

-- What is signed of a builder's contents.
abbrev pub encoded : Tbs → Tbs
encoded t = record t { not_before = to_second t.not_before; not_after = to_second t.not_after }

-- `backend_for_ca(ca).sign_certificate(builder, ca, secret=passphrase)`
unfoldable pub sign_with : Crypto → Ca → String → Tbs → Result CaError Certificate
unfolding has_signing_key
sign_with x c passphrase tbs = do
  refuse_if (not (has_signing_key c)) no_key
  refuse_if (is_pending c.signoff.status) pending_ca
  signature ← need sign_failed (x.sign c passphrase (encoded tbs))
  ok (record { tbs = encoded tbs; signature = signature })

-- `approved_by` and `approved_at` of a new row.
unfoldable pub signoff_of : Approval → Option ℕ → ℕ → Signoff
signoff_of approved created_by now = record {
  status = approved;
  approved_by = created_by;
  approved_at = some now;
}
signoff_of pending created_by now = record {
  status = pending;
  approved_by = none;
  approved_at = none;
}

-- `publish_initial_crl`: the number of the CRL, where one is made.
unfoldable pub publish_initial_crl : Bool → Ca → Ca
unfolding has_signing_key
publish_initial_crl crl_ok c =
    if (has_signing_key c && not (is_pending c.signoff.status)) && crl_ok
    then record c { crl_number = suc c.crl_number }
    else c

-- `db.session.add(ca)` and the commit, with the unique serial number.
unfoldable pub add_ca : Ca → Store → Result CaError Store
add_ca c s = do
  refuse_if (any_of (λ d. d.serial_number == c.serial_number) s.cas) serial_taken
  ok (record s { cas = c ∷ s.cas; next_ca = suc s.next_ca })

-- The row of a new authority, whose certificate is `cert`; its two instants are not cut to seconds.
unfoldable pub new_row :
    Store → Request → Draw → Backend → Key → Option ℕ → Bool → ℕ → Option ℕ → Certificate → Ca
unfolding signoff_of
new_row s r d backend key parent_id is_root not_after path_length cert = record {
  id = s.next_ca;
  name = r.name;
  common_name = get_or r.common_name r.name;
  serial_number = d.serial;
  certificate = cert;
  private_key_enc = not (is_softhsm backend);
  key_backend = backend;
  key_label = if is_softhsm backend then some d.label else none;
  parent_id = parent_id;
  is_root = is_root;
  key_type = key.key_type;
  key_size = key.key_size;
  not_before = d.now;
  not_after = not_after;
  path_length = path_length;
  crl_number = 0;
  is_revoked = false;
  created_by = r.created_by;
  signoff = signoff_of r.approval_status r.created_by d.now;
  expiry_notified_at = none;
  name_constraints = r.constraints;
  certificate_policies = r.policies;
}

unfoldable pub root_tbs : Crypto → Request → Draw → Key → ℕ → Tbs
root_tbs x r d key not_after = record {
  subject = r.subject;
  issuer = r.subject;
  public_key = key;
  serial = d.serial;
  not_before = d.now;
  not_after = not_after;
  basic_ca = some true;
  path_length = r.path_length;
  subject_key = some (x.key_identifier key);
  authority_key = some (x.key_identifier key);
  constraints = r.constraints;
  policies = r.policies;
}

-- The row as it is when the root signs with it: it has no certificate yet.
abbrev unsigned : Tbs → Certificate
unsigned tbs = record { tbs = tbs; signature = "" }

unfoldable pub create_root_ca : Env → Draw → Request → Store → Result CaError (Ca × Store)
unfolding ensure_name_available publish_initial_crl add_ca new_row root_tbs
create_root_ca e d r s = do
  ensure_name_available s.cas r.name
  lift_policy (enforce_key_strength e.limits r.key_type r.key_size)
  let backend = get_or r.backend e.crypto.default_backend
  key ← need key_failed (e.crypto.generate_key backend r.key_type r.key_size d.label)
  not_after ← lift_policy (bounded_not_after e.limits d.now r.validity_days none true false)
  let tbs = encoded (root_tbs e.crypto r d key not_after)
  let row = λ (cert : Certificate). new_row s r d backend key none true not_after r.path_length cert
  signature ← need sign_failed (e.crypto.sign (row (unsigned tbs)) r.passphrase tbs)
  let c = row (record { tbs = tbs; signature = signature })
  after ← add_ca (publish_initial_crl d.crl_ok c) s
  ok (publish_initial_crl d.crl_ok c, after)

-- The path length that the parent's allows.
unfoldable pub clamp_path : Option ℕ → Option ℕ → Result CaError (Option ℕ)
clamp_path none asked = ok asked
clamp_path (some zero) asked = raise no_path_length
clamp_path (some (suc allowed)) none = ok (some allowed)
clamp_path (some (suc allowed)) (some asked) =
    ok (some (if ltb allowed asked then allowed else asked))

-- The contents of a certificate for a subject and a key under an issuer, before they are encoded: what `create_intermediate_ca` and
-- `_ca_cert_builder` both build.
unfoldable pub issued_tbs :
    Crypto
    → Ca
    → Draw
    → String
    → Key
    → ℕ
    → Option ℕ
    → Option Constraints
    → List Policy
    → Result CaError Tbs
issued_tbs x issuer d subject key not_after path_length constraints policies = do
  issuer_key ← need no_subject_key issuer.certificate.tbs.subject_key
  ok (record {
    subject = subject;
    issuer = issuer.certificate.tbs.subject;
    public_key = key;
    serial = d.serial;
    not_before = d.now;
    not_after = not_after;
    basic_ca = some true;
    path_length = path_length;
    subject_key = some (x.key_identifier key);
    authority_key = some issuer_key;
    constraints = constraints;
    policies = policies;
  })

-- The guards of `create_intermediate_ca` before a key is made.
unfoldable pub may_create_under : Env → Draw → Request → Ca → Store → Result CaError (Unit {0})
unfolding ensure_name_available has_signing_key enforce
may_create_under e d r parent s = do
  ensure_name_available s.cas r.name
  refuse_if (not (has_signing_key parent)) parent_without_key
  refuse_if (is_pending parent.signoff.status) parent_pending
  refuse_if parent.is_revoked parent_revoked
  refuse_if (leb parent.not_after d.now) parent_expired
  lift_policy (enforce_key_strength e.limits r.key_type r.key_size)
  get_or (enforce e.names s.cas parent r.hostname []) (raise looping)

unfoldable pub create_intermediate_ca :
    Env → Draw → Request → Ca → Store → Result CaError (Ca × Store)
unfolding may_create_under clamp_path issued_tbs sign_with publish_initial_crl add_ca new_row
create_intermediate_ca e d r parent s = do
  may_create_under e d r parent s
  let backend = get_or r.backend e.crypto.default_backend
  key ← need key_failed (e.crypto.generate_key backend r.key_type r.key_size d.label)
  path_length ← clamp_path parent.path_length r.path_length
  not_after ←
      lift_policy
        (bounded_not_after e.limits d.now r.validity_days (some parent.not_after) true true)
  tbs ← issued_tbs e.crypto parent d r.subject key not_after path_length r.constraints r.policies
  cert ← sign_with e.crypto parent r.passphrase tbs
  let row = new_row s r d backend key (some parent.id) false not_after path_length cert
  let c = publish_initial_crl d.crl_ok row
  after ← add_ca c s
  ok (c, after)
