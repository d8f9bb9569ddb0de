-- ===== src/Authorities/CrossSign.antt =====
-- `cross_sign_ca`, `_find_parent_by_issuer` and `import_alternate_certificate` of
-- app/services/ca_service.py.
use chancery.Prelude.{
  ℕ, zero, suc, ◌-◌, String, Option, none, some, Bool, true, false, not, ◌&&◌, ◌||◌, List, [],
  length, any_of, first_where, get_or, leb, ◌==◌, if◌then◌else◌, str_eq, Result, ok, raise, ◌>>=◌,
  ◌>>◌, refuse_if, min, max,
}
use chancery.Authorities.Types.{
  Text, Certificate, Approval, approved, is_pending, Ca, has_signing_key, cross, Alternate, Store,
  parent_of, CaError, revoked_ca, itself, issuer_cannot_sign, issuer_expired, descendant,
  key_mismatch, not_a_ca, already_stored, looping, need, Crypto,
}
use chancery.Authorities.Constraints.{enforce}
use chancery.Authorities.Create.{Draw, Env, sign_with, clamp_path}
use chancery.Authorities.Alternates.{whole_days, ca_cert_builder, alternate_from_der, add_alternate}

-- The loop of `cross_sign_ca` over the issuer's parents: whether it meets the authority. It has no
-- record of the rows that it has seen; none where the fuel is used up.
unfoldable pub descends : ℕ → List Ca → ℕ → Option Ca → Option Bool
descends fuel cas target none = some false
descends zero cas target (some c) = if c.id == target then some true else none
descends (suc fuel) cas target (some c) =
    let rest = descends fuel cas target (parent_of cas c) in
    if c.id == target then some true else rest

unfoldable pub cross_days : ℕ → Option ℕ → Ca → Ca → ℕ
cross_days now validity_days c issuer =
    min (get_or validity_days (max 1 (whole_days (c.not_after - now))))
      (max 1 (whole_days (issuer.not_after - now)))

-- The guards and the certificate of `cross_sign_ca`; the text is the Common Name of the authority's
-- row, as a list of code points.
unfoldable pub cross_certificate :
    Env → Draw → Ca → Ca → String → Option ℕ → Option Text → List Ca → Result CaError Certificate
unfolding has_signing_key descends cross_days clamp_path ca_cert_builder sign_with enforce
cross_certificate e d c issuer passphrase validity_days common_name cas = do
  refuse_if (issuer.id == c.id) itself
  refuse_if c.is_revoked revoked_ca
  refuse_if
      ((not (has_signing_key issuer) || is_pending issuer.signoff.status) || issuer.is_revoked)
      issuer_cannot_sign
  refuse_if (leb issuer.not_after d.now) issuer_expired
  below ← need looping (descends (suc (length cas)) cas c.id (some issuer))
  refuse_if below descendant
  get_or (enforce e.names cas issuer common_name []) (raise looping)
  path_length ← clamp_path issuer.path_length c.path_length
  tbs ← ca_cert_builder e d c issuer (cross_days d.now validity_days c issuer) path_length
  sign_with e.crypto issuer passphrase tbs

unfoldable pub cross_sign_ca :
    Env
    → Draw
    → Ca
    → Ca
    → String
    → Option ℕ
    → Option ℕ
    → Option Text
    → Approval
    → Store
    → Result CaError (Alternate × Store)
unfolding cross_certificate alternate_from_der add_alternate
cross_sign_ca e d c issuer passphrase validity_days created_by common_name status s = do
  cert ← cross_certificate e d c issuer passphrase validity_days common_name s.cas
  let row =
      alternate_from_der s.next_alternate c cross cert (some issuer.id) created_by status d.now
  ok (row, add_alternate row s)

-- `_find_parent_by_issuer`
unfoldable pub find_parent_by_issuer : Crypto → List Ca → Certificate → Option Ca
find_parent_by_issuer x cas cert =
    first_where
      (λ c.
        (not c.is_revoked && str_eq c.certificate.tbs.subject cert.tbs.issuer)
        && x.issued_by cert c.certificate)
      cas

unfoldable pub linked_issuer : Crypto → List Ca → Certificate → Option ℕ
unfolding find_parent_by_issuer
linked_issuer x cas cert =
    if str_eq cert.tbs.issuer cert.tbs.subject
    then none
    else elim (find_parent_by_issuer x cas cert) [ none ↦ none | some c ↦ some c.id ]

-- `import_alternate_certificate`, after the size check and the parser.
unfoldable pub import_alternate_certificate :
    Crypto → ℕ → Ca → Certificate → Option ℕ → Store → Result CaError (Alternate × Store)
unfolding linked_issuer alternate_from_der add_alternate
import_alternate_certificate x now c cert created_by s = do
  refuse_if (not (cert.tbs.public_key.number == c.certificate.tbs.public_key.number)) key_mismatch
  refuse_if (not (get_or cert.tbs.basic_ca false)) not_a_ca
  refuse_if
      (cert.tbs.serial == c.serial_number
        || any_of (λ a. a.ca_id == c.id && (a.serial_number == cert.tbs.serial)) s.alternates)
      already_stored
  let issuer_id = linked_issuer x s.cas cert
  let row = alternate_from_der s.next_alternate c cross cert issuer_id created_by approved now
  ok (row, add_alternate row s)
