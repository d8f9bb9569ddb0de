-- ===== src/Revocation/Crl.antt =====
-- The entries and the number of a CRL (`generate_crl`, `refresh_crl` and `publish_final_crl` of
-- app/services/crl_service.py). The signing is a parameter.
use chancery.Prelude.{
  ℕ, ◌+◌, String, Option, none, some, Bool, not, ◌||◌, List, [], ◌∷◌, ◌++◌, get_or, leb,
  if◌then◌else◌, days, Result, ok, raise,
}
use chancery.Revocation.Store.{
  Revocation, ReasonName, Cert, Ca, Cas, ca, no_cas, and_ca, unspecified, ca_revocation, ca_serial,
}

pub record CrlEntry : Type 0 where
  pub serial : ℕ
  pub date : ℕ
  pub reason : ReasonName

unfoldable pub entry_of : ℕ → ℕ → Revocation → CrlEntry
entry_of now serial r = record {
  serial = serial;
  date = get_or r.revoked_at now;
  reason = get_or r.reason unspecified;
}

unfoldable pub cert_entries : ℕ → List Cert → List CrlEntry
unfolding entry_of
cert_entries now [] = []
cert_entries now (c ∷ cs) =
    let rest = cert_entries now cs in
    if c.revocation.is_revoked then entry_of now c.serial_number c.revocation ∷ rest else rest

unfoldable pub child_entries : ℕ → Cas → List CrlEntry
unfolding entry_of
child_entries now no_cas = []
child_entries now (and_ca c cs) =
    let rest = child_entries now cs in
    if (ca_revocation c).is_revoked
    then entry_of now (ca_serial c) (ca_revocation c) ∷ rest
    else rest

-- `revoked_entries`
unfoldable pub crl_entries : ℕ → Ca → List CrlEntry
unfolding cert_entries child_entries
crl_entries now (ca id serial r certs children) =
    cert_entries now certs ++ child_entries now children

-- The rest of an authority's row that a CRL needs.
pub record CrlState : Type 0 where
  pub has_signing_key : Bool
  pub is_pending : Bool
  pub crl_number : ℕ
  pub crl_pem : Option String
  pub not_after : ℕ

-- What is signed: the number, the two dates and the entries.
pub record Crl : Type 0 where
  pub number : ℕ
  pub last_update : ℕ
  pub next_update : ℕ
  pub entries : List CrlEntry

pub data CrlRefusal : Type 0 where
  no_key awaits_approval : CrlRefusal

-- `generate_crl`: the CRL and the row after it; `sign` gives the PEM text.
unfoldable pub generate_crl :
    (Crl → String) → ℕ → ℕ → Option ℕ → Ca → CrlState → Result CrlRefusal (Crl × CrlState)
unfolding crl_entries
generate_crl sign validity_days now next_update c st =
    if not st.has_signing_key
    then raise no_key
    else if st.is_pending
    then raise awaits_approval
    else let crl : Crl = record {
      number = st.crl_number + 1;
      last_update = now;
      next_update = get_or next_update (now + days validity_days);
      entries = crl_entries now c;
    } in
      ok (crl, record st { crl_number = st.crl_number + 1; crl_pem = some (sign crl) })

-- `refresh_crl`: none where it does nothing.
unfoldable pub refresh_crl :
    (Crl → String) → ℕ → ℕ → Ca → CrlState → Option (Result CrlRefusal (Crl × CrlState))
unfolding generate_crl
refresh_crl sign validity_days now c st =
    if not st.has_signing_key || st.is_pending
    then none
    else some (generate_crl sign validity_days now none c st)

-- `publish_final_crl`: the last CRL is good until the authority's own end.
unfoldable pub publish_final_crl :
    (Crl → String) → ℕ → ℕ → Ca → CrlState → Option (Result CrlRefusal (Crl × CrlState))
unfolding generate_crl
publish_final_crl sign validity_days now c st =
    if not st.has_signing_key || st.is_pending
    then none
    else if leb st.not_after now
    then none
    else some (generate_crl sign validity_days now (some st.not_after) c st)
