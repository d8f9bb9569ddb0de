-- ===== src/Authorities/Import.antt =====
-- The import of authorities by app/services/ca_service.py. A certificate and the public part of the
-- private key are what the parsers of `cryptography` give; the passphrases and the size limits come
-- before them.
use chancery.Prelude.{
  ℕ, zero, suc, String, Option, none, some, false, not, ◌&&◌, List, [], ◌∷◌, length, any_of,
  first_where, get_or, is_some, is_none, ◌==◌, if◌then◌else◌, str_eq, Result, ok, raise, ◌>>=◌,
  ◌>>◌, refuse_if,
}
use chancery.Issuance.Policy.{enforce_public_key_strength}
use chancery.Authorities.Types.{
  Key, Certificate, software, Approval, approved, pending, is_pending, Ca, has_signing_key,
  is_exportable, is_softhsm, Store, find_ca, CaError, serial_taken, parent_revoked, key_mismatch,
  not_a_ca, no_parent, parent_not_issuer, hsm_key, no_key, looping, lift_policy, need, Crypto,
}
use chancery.Authorities.Create.{Env, ensure_name_available, add_ca}
use chancery.Authorities.CrossSign.{find_parent_by_issuer}
use chancery.Authorities.Bundle.{self_issued}

-- The Common Name of a subject, and `f"{base} ({suffix})"`.
pub record Texts : Type 0 where
  pub common_name : Certificate → Option String
  pub numbered : String → ℕ → String

unfoldable pub matches_key : Certificate → Option Key → Result CaError (Unit {0})
matches_key cert none = ok tt
matches_key cert (some k) = refuse_if (not (cert.tbs.public_key.number == k.number)) key_mismatch

-- The parent of an imported certificate: the one that was chosen, which must have issued it, or the
-- one that is found.
unfoldable pub resolve_parent :
    Crypto → List Ca → Certificate → Option ℕ → Result CaError (Option ℕ)
unfolding find_parent_by_issuer
resolve_parent x cas cert (some n) = do
  p ← need no_parent (find_ca cas (some n))
  refuse_if p.is_revoked parent_revoked
  refuse_if (not (x.issued_by cert p.certificate)) parent_not_issuer
  ok (some p.id)
resolve_parent x cas cert none = ok (
    if self_issued cert
    then none
    else elim (find_parent_by_issuer x cas cert) [ none ↦ none | some p ↦ some p.id ])

-- The key that the row describes: the private key's, where there is one.
abbrev row_key : Certificate → Option Key → Key
row_key cert none = cert.tbs.public_key
row_key cert (some k) = k

unfoldable pub imported_row : Texts → Store → String → Certificate → Option Key → Option ℕ → Ca
imported_row t s name cert key parent = record {
  id = s.next_ca;
  name = name;
  common_name = get_or (t.common_name cert) name;
  serial_number = cert.tbs.serial;
  certificate = cert;
  private_key_enc = is_some key;
  key_backend = software;
  key_label = none;
  parent_id = parent;
  is_root = self_issued cert && is_none parent;
  key_type = (row_key cert key).key_type;
  key_size = (row_key cert key).key_size;
  not_before = cert.tbs.not_before;
  not_after = cert.tbs.not_after;
  path_length = cert.tbs.path_length;
  crl_number = 0;
  is_revoked = false;
  created_by = none;
  signoff = record { status = approved; approved_by = none; approved_at = none };
  expiry_notified_at = none;
  name_constraints = cert.tbs.constraints;
  certificate_policies = cert.tbs.policies;
}

-- `_import_ca_object`
unfoldable pub import_ca_object :
    Env → Texts → String → Certificate → Option Key → Option ℕ → Store → Result CaError (Ca × Store)
unfolding matches_key ensure_name_available resolve_parent imported_row add_ca
import_ca_object e t name cert key parent_id s = do
  refuse_if (not (get_or cert.tbs.basic_ca false)) not_a_ca
  lift_policy (enforce_public_key_strength e.limits cert.tbs.public_key.material)
  matches_key cert key
  ensure_name_available s.cas name
  refuse_if (any_of (λ d. d.serial_number == cert.tbs.serial) s.cas) serial_taken
  parent ← resolve_parent e.crypto s.cas cert parent_id
  let row = imported_row t s name cert key parent
  after ← add_ca row s
  ok (row, after)

-- `_unique_ca_name`: the loop takes fuel.
unfoldable pub unique_ca_name : ℕ → Texts → List Ca → String → String → ℕ → Option String
unique_ca_name zero t cas base name suffix =
    if any_of (λ c. str_eq c.name name) cas then none else some name
unique_ca_name (suc fuel) t cas base name suffix =
    let next = unique_ca_name fuel t cas base (t.numbered base suffix) (suc suffix) in
    if any_of (λ c. str_eq c.name name) cas then next else some name

-- The parents of a chain, the highest first, each under the one before: the id of the last, and the
-- names that were imported.
unfoldable pub import_parents :
    Env
    → Texts
    → String
    → List Certificate
    → Option ℕ
    → Store
    → Result CaError (Option ℕ × List String × Store)
unfolding unique_ca_name import_ca_object
import_parents e t fallback [] parent s = ok (parent, [], s)
import_parents e t fallback (c ∷ cs) parent s =
    elim (first_where (λ (d : Ca). d.serial_number == c.tbs.serial) s.cas) [
      | some d ↦ import_parents e t fallback cs (some d.id) s
      | none ↦
          let base = get_or (t.common_name c) fallback in
          need looping (unique_ca_name (suc (length s.cas)) t s.cas base base 2) >>= λ name.
          import_ca_object e t name c none parent s >>= λ r.
          import_parents e t fallback cs (some r.0.id) r.1 >>= λ q. ok (q.0, r.0.name ∷ q.1, q.2)
    ]

-- `_apply_import_approval`
unfoldable pub apply_import_approval : Option ℕ → Approval → ℕ → Ca → Ca
unfolding has_signing_key
apply_import_approval created_by status now c =
    if is_pending status && has_signing_key c
    then record c {
      created_by = created_by;
      signoff = record { status = pending; approved_by = none; approved_at = none };
    }
    else record c {
      created_by = created_by;
      signoff = record { status = approved; approved_by = created_by; approved_at = some now };
    }

-- `_refuse_if_not_exportable`
unfoldable pub refuse_if_not_exportable : Ca → Result CaError (Unit {0})
unfolding is_exportable
refuse_if_not_exportable c =
    if is_exportable c
    then ok tt
    else if is_softhsm c.key_backend
    then raise hsm_key
    else raise no_key
