-- ===== src/Authorities/Chain.antt =====
-- `chain_pems` of app/services/ca_service.py, where a PEM text is the certificate.
use chancery.Prelude.{
  suc, Option, none, some, Bool, false, not, ◌&&◌, List, [], map, length, ◌==◌, if◌then◌else◌,
  Result, ok, raise,
}
use chancery.Authorities.Types.{
  Certificate, Ca, Alternate, is_cross, find_ca, parent_of, is_usable, CaError, unusable_alternate,
}
use chancery.Authorities.Walk.{lineage}

-- Where the walk goes from a row, and the certificate that it adds there.
unfoldable pub next_via : List Ca → Option Alternate → Ca → Option Ca
next_via cas none c = parent_of cas c
next_via cas (some a) c =
    if a.ca_id == c.id && is_cross a.kind then find_ca cas a.issuer_ca_id else parent_of cas c

unfoldable pub pem_via : Option Alternate → Ca → Certificate
pem_via none c = c.certificate
pem_via (some a) c = if a.ca_id == c.id then a.certificate else c.certificate

abbrev pub refused_via : List Ca → Option Alternate → Bool
refused_via cas none = false
refused_via cas (some a) = not (is_usable cas a)

-- none where the loop does not end.
unfoldable pub chain_pems :
    List Ca → Ca → Option Alternate → Option (Result CaError (List Certificate))
unfolding next_via pem_via is_usable lineage
chain_pems cas c via =
    if refused_via cas via
    then some (raise unusable_alternate)
    else elim (lineage (suc (length cas)) (next_via cas via) [] (some c)) [
      | none ↦ none
      | some cs ↦ some (ok (map (pem_via via) cs))
    ]
