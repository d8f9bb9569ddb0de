-- ===== src/Authorities/Types.antt =====
-- The rows of app/models/ca.py and app/models/ca_certificate.py, and the contents of a CA
-- certificate. A PEM text stands for the certificate that it encodes; key bytes are whether there are
-- any; a path length below 0 is in no certificate.
use chancery.Prelude.{
  ℕ, String, Option, none, some, Bool, true, false, not, ◌&&◌, ◌||◌, List, filter_by, first_where,
  ◌==◌, if◌then◌else◌, Result, ok, raise,
}
use chancery.Issuance.Policy.{KeyType, PublicKey, PolicyError}

pub data Kind : Type 0 where
  dns ip email uri upn other : Kind

abbrev pub kind_number : Kind → ℕ
kind_number dns = 0
kind_number ip = 1
kind_number email = 2
kind_number uri = 3
kind_number upn = 4
kind_number other = 5

abbrev pub same_kind : Kind → Kind → Bool
same_kind k l = kind_number k == kind_number l

-- A Python text that is taken apart is the list of its code points.
abbrev pub Text : Type 0
Text = List ℕ

-- `KIND:value`
pub record Entry : Type 0 where
  pub kind : Kind
  pub value : Text

pub record Constraints : Type 0 where
  pub permitted : List Entry
  pub excluded : List Entry

pub record Policy : Type 0 where
  pub oid : String
  pub cps_uri : Option String

-- A public key, with what `key_info` reads of it.
pub record Key : Type 0 where
  pub number : ℕ
  pub material : PublicKey
  pub key_type : KeyType
  pub key_size : ℕ

-- What is signed. `basic_ca` is none where there is no BasicConstraints extension, `subject_key` the
-- subject key identifier and `authority_key` the authority's.
pub record Tbs : Type 0 where
  pub subject : String
  pub issuer : String
  pub public_key : Key
  pub serial : ℕ
  pub not_before : ℕ
  pub not_after : ℕ
  pub basic_ca : Option Bool
  pub path_length : Option ℕ
  pub subject_key : Option String
  pub authority_key : Option String
  pub constraints : Option Constraints
  pub policies : List Policy

pub record Certificate : Type 0 where
  pub tbs : Tbs
  pub signature : String

pub data Backend : Type 0 where
  software softhsm : Backend

pub data Approval : Type 0 where
  approved pending : Approval

abbrev pub is_pending : Approval → Bool
is_pending approved = false
is_pending pending = true

-- `approval_status`, `approved_by` and `approved_at`.
pub record Signoff : Type 0 where
  pub status : Approval
  pub approved_by : Option ℕ
  pub approved_at : Option ℕ

pub record Ca : Type 0 where
  pub id : ℕ
  pub name : String
  pub common_name : String
  pub serial_number : ℕ
  pub certificate : Certificate
  pub private_key_enc : Bool
  pub key_backend : Backend
  pub key_label : Option String
  pub parent_id : Option ℕ
  pub is_root : Bool
  pub key_type : KeyType
  pub key_size : ℕ
  pub not_before : ℕ
  pub not_after : ℕ
  pub path_length : Option ℕ
  pub crl_number : ℕ
  pub is_revoked : Bool
  pub created_by : Option ℕ
  pub signoff : Signoff
  pub expiry_notified_at : Option ℕ
  pub name_constraints : Option Constraints
  pub certificate_policies : List Policy

abbrev pub is_softhsm : Backend → Bool
is_softhsm software = false
is_softhsm softhsm = true

unfoldable pub has_signing_key : Ca → Bool
has_signing_key c = is_softhsm c.key_backend || c.private_key_enc

unfoldable pub is_exportable : Ca → Bool
is_exportable c = not (is_softhsm c.key_backend) && c.private_key_enc

pub data AlternateKind : Type 0 where
  previous cross reissue : AlternateKind

abbrev pub is_cross : AlternateKind → Bool
is_cross previous = false
is_cross cross = true
is_cross reissue = false

pub record Alternate : Type 0 where
  pub id : ℕ
  pub ca_id : ℕ
  pub kind : AlternateKind
  pub certificate : Certificate
  pub issuer_ca_id : Option ℕ
  pub serial_number : ℕ
  pub not_before : ℕ
  pub not_after : ℕ
  pub created_by : Option ℕ
  pub signoff : Signoff

-- The rows, the newest first, and the next ids.
pub record Store : Type 0 where
  pub cas : List Ca
  pub alternates : List Alternate
  pub next_ca : ℕ
  pub next_alternate : ℕ

abbrev pub find_ca : List Ca → Option ℕ → Option Ca
find_ca cas none = none
find_ca cas (some n) = first_where (λ c. c.id == n) cas

-- `ca.parent`
abbrev pub parent_of : List Ca → Ca → Option Ca
parent_of cas c = find_ca cas c.parent_id

-- `is_usable`
unfoldable pub is_usable : List Ca → Alternate → Bool
is_usable cas a =
    if is_pending a.signoff.status
    then false
    else if is_cross a.kind
        && elim (find_ca cas a.issuer_ca_id) [ none ↦ false | some i ↦ i.is_revoked ]
    then false
    else true

-- `signing_capable`
unfoldable pub signing_capable : List Ca → List Ca
unfolding has_signing_key
signing_capable cas =
    filter_by (λ c. (not c.is_revoked && not (is_pending c.signoff.status)) && has_signing_key c)
      cas

-- The ValueErrors of the service, and the failures of what it calls; `looping` stands for a walk up
-- the parents that does not end.
pub data CaError : Type 0 where
  name_taken serial_taken parent_without_key parent_pending parent_revoked parent_expired
        no_path_length revoked_ca pending_ca root_without_key no_issuer itself issuer_cannot_sign
        issuer_expired descendant not_pending key_mismatch not_a_ca already_stored
        unusable_alternate no_subject_key key_failed sign_failed not_single_chain bundle_loop
        not_verified not_one_chain no_parent parent_not_issuer root_with_parent hsm_key no_key
        excluded_name outside_permitted san_prefix san_value looping :
      CaError
  policy : PolicyError → CaError

abbrev pub lift_policy {ℓ} : {A : Type ℓ} → Result PolicyError A → Result CaError A
lift_policy (ok a) = ok a
lift_policy (raise e) = raise (policy e)

abbrev pub need {ℓ} : {A : Type ℓ} → CaError → Option A → Result CaError A
need e none = raise e
need e (some a) = ok a

-- The key backends and the `cryptography` library: a key pair, the signature under a CA's key (none
-- where it cannot be used with that passphrase), whether the second certificate issued the first,
-- and a key's identifier.
pub record Crypto : Type 0 where
  pub default_backend : Backend
  pub generate_key : Backend → KeyType → ℕ → String → Option Key
  pub sign : Ca → String → Tbs → Option String
  pub issued_by : Certificate → Certificate → Bool
  pub key_identifier : Key → String
