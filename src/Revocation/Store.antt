-- ===== src/Revocation/Store.antt =====
-- The certificates and the authorities (app/models/certificate.py, app/models/ca.py), and
-- `revoke_certificate` and `revoke_ca` of app/services/crl_service.py. An authority is a tree: its
-- row, the certificates that it issued, and the authorities below it (`ca.children`).
use chancery.Prelude.{
  ℕ, suc, ◌+◌, Option, none, some, Bool, true, not, List, [], ◌∷◌, map, first_where, count_where,
  ◌==◌, if◌then◌else◌, Result, ok, raise,
}

-- The names of REVOCATION_REASONS.
pub data ReasonName : Type 0 where
  unspecified key_compromise ca_compromise affiliation_changed superseded cessation_of_operation
        certificate_hold privilege_withdrawn aa_compromise :
      ReasonName

pub record Revocation : Type 0 where
  pub is_revoked : Bool
  pub revoked_at : Option ℕ
  pub reason : Option ReasonName

pub record Cert : Type 0 where
  pub id : ℕ
  pub serial_number : ℕ
  pub revocation : Revocation

mutual
  pub data Ca : Type 0 where
    ca : (id serial_number : ℕ) → Revocation → List Cert → Cas → Ca

  pub data Cas : Type 0 where
    no_cas : Cas
    and_ca : Ca → Cas → Cas

abbrev pub ca_revocation : Ca → Revocation
ca_revocation (ca id serial r certs children) = r

abbrev pub ca_serial : Ca → ℕ
ca_serial (ca id serial r certs children) = serial

abbrev pub ca_certs : Ca → List Cert
ca_certs (ca id serial r certs children) = certs

abbrev pub ca_children : Ca → Cas
ca_children (ca id serial r certs children) = children

abbrev pub revoked_now : ℕ → ReasonName → Revocation
revoked_now now reason = record { is_revoked = true; revoked_at = some now; reason = some reason }

-- `revoke_certificate`: what it raises, or the certificate with its new state.
pub data Refusal : Type 0 where
  invalid_reason not_found already_revoked : Refusal

abbrev pub find_cert : ℕ → List Cert → Option Cert
find_cert n = first_where (λ c. c.id == n)

unfoldable pub save_cert : Cert → List Cert → List Cert
save_cert c [] = []
save_cert c (d ∷ ds) = if d.id == c.id then c ∷ ds else d ∷ save_cert c ds

-- The reason is none where the text is no name of a reason.
unfoldable pub revoke_certificate :
    ℕ → Option ReasonName → ℕ → List Cert → Result Refusal (List Cert)
unfolding save_cert
revoke_certificate now none n certs = raise invalid_reason
revoke_certificate now (some reason) n certs = elim (find_cert n certs) [
  | none ↦ raise not_found
  | some c ↦
      if c.revocation.is_revoked
      then raise already_revoked
      else ok (save_cert (record c { revocation = revoked_now now reason }) certs)
]

-- One certificate of `active_certs`.
unfoldable pub revoke_active : ℕ → ReasonName → Cert → Cert
revoke_active now reason c =
    if c.revocation.is_revoked then c else record c { revocation = revoked_now now reason }

-- `_revoke_ca_recursive`: an authority below that is revoked already is not entered.
unfoldable mutual
  unfolding revoke_active

  pub revoke_tree : ℕ → ReasonName → Ca → Ca
  revoke_tree now reason (ca id serial r certs children) =
      ca id serial (revoked_now now reason) (map (revoke_active now reason) certs)
        (revoke_children now reason children)

  pub revoke_children : ℕ → ReasonName → Cas → Cas
  revoke_children now reason no_cas = no_cas
  revoke_children now reason (and_ca c cs) =
      let below = revoke_tree now reason c in
      let rest = revoke_children now reason cs in
      if (ca_revocation c).is_revoked then and_ca c rest else and_ca below rest

-- `certs_revoked` and `sub_cas_revoked`.
unfoldable mutual
  pub certs_revoked : Ca → ℕ
  certs_revoked (ca id serial r certs children) =
      count_where (λ c. not c.revocation.is_revoked) certs + certs_revoked_below children

  pub certs_revoked_below : Cas → ℕ
  certs_revoked_below no_cas = 0
  certs_revoked_below (and_ca c cs) =
      let below = certs_revoked c in
      let rest = certs_revoked_below cs in
      if (ca_revocation c).is_revoked then rest else below + rest

unfoldable mutual
  pub sub_cas_revoked : Ca → ℕ
  sub_cas_revoked (ca id serial r certs children) = sub_cas_below children

  pub sub_cas_below : Cas → ℕ
  sub_cas_below no_cas = 0
  sub_cas_below (and_ca c cs) =
      let below = sub_cas_revoked c in
      let rest = sub_cas_below cs in if (ca_revocation c).is_revoked then rest else suc below + rest

-- `revoke_ca`, on the tree that the id finds: the tree and the two counts.
unfoldable pub revoke_ca : ℕ → Option ReasonName → Option Ca → Result Refusal (Ca × ℕ × ℕ)
unfolding revoke_tree certs_revoked sub_cas_revoked
revoke_ca now none found = raise invalid_reason
revoke_ca now (some reason) none = raise not_found
revoke_ca now (some reason) (some c) =
    if (ca_revocation c).is_revoked
    then raise already_revoked
    else ok (revoke_tree now reason c, certs_revoked c, sub_cas_revoked c)
