-- ===== src/Authorities/Alternates.antt =====
-- The alternate certificates of app/services/ca_service.py: `reissue_ca_certificate`,
-- `approve_alternate` and `delete_alternate`. A difference of two moments in days is rounded down and never below 0, which the code's
-- `max(1, ...)` does not tell apart.
use chancery.Prelude.{
  ℕ, suc, ◌-◌, ◌/◌, String, Option, none, some, Bool, true, false, not, ◌&&◌, ◌||◌, List, [], ◌∷◌,
  ◌++◌, map, filter_by, get_or, leb, ◌==◌, if◌then◌else◌, days, Result, ok, ◌>>=◌, ◌>>◌, refuse_if,
  min, max,
}
use chancery.Issuance.Policy.{bounded_not_after}
use chancery.Authorities.Types.{
  Tbs, Certificate, Approval, approved, pending, is_pending, Ca, has_signing_key, AlternateKind,
  previous, cross, reissue, Alternate, Store, parent_of, CaError, parent_revoked, parent_expired,
  revoked_ca, pending_ca, root_without_key, no_issuer, issuer_cannot_sign, not_pending, lift_policy,
  need,
}
use chancery.Authorities.Create.{Draw, Env, sign_with, issued_tbs, signoff_of}

abbrev pub whole_days : ℕ → ℕ
whole_days t = t / days 1

-- The rows with the changed one in its place.
unfoldable pub save_ca : Ca → List Ca → List Ca
save_ca c [] = []
save_ca c (d ∷ ds) = let rest = save_ca c ds in if d.id == c.id then c ∷ rest else d ∷ rest

-- `_ca_cert_builder`: the contents for the authority's key and subject under the issuer.
unfoldable pub ca_cert_builder : Env → Draw → Ca → Ca → ℕ → Option ℕ → Result CaError Tbs
unfolding issued_tbs
ca_cert_builder e d c issuer validity_days path_length = do
  not_after ← lift_policy (bounded_not_after e.limits d.now validity_days none true (not c.is_root))
  let tbs = c.certificate.tbs
  issued_tbs e.crypto issuer d tbs.subject tbs.public_key not_after path_length c.name_constraints
      c.certificate_policies

-- `_alternate_from_der`
unfoldable pub alternate_from_der :
    ℕ → Ca → AlternateKind → Certificate → Option ℕ → Option ℕ → Approval → ℕ → Alternate
unfolding signoff_of
alternate_from_der id c kind cert issuer_ca_id created_by status now = record {
  id = id;
  ca_id = c.id;
  kind = kind;
  certificate = cert;
  issuer_ca_id = issuer_ca_id;
  serial_number = cert.tbs.serial;
  not_before = cert.tbs.not_before;
  not_after = cert.tbs.not_after;
  created_by = created_by;
  signoff = signoff_of status created_by now;
}

unfoldable pub add_alternate : Alternate → Store → Store
add_alternate a s = record s {
  alternates = s.alternates ++ a ∷ [];
  next_alternate = suc s.next_alternate;
}

unfoldable pub remove_alternate : ℕ → List Alternate → List Alternate
remove_alternate n = filter_by (λ a. not (a.id == n))

-- The row that keeps the old primary.
unfoldable pub previous_of : ℕ → Ca → Alternate → Alternate
previous_of id c row = record {
  id = id;
  ca_id = c.id;
  kind = previous;
  certificate = c.certificate;
  issuer_ca_id = c.parent_id;
  serial_number = c.serial_number;
  not_before = c.certificate.tbs.not_before;
  not_after = c.certificate.tbs.not_after;
  created_by = row.created_by;
  signoff = record row.signoff { status = approved };
}

unfoldable pub with_certificate : Ca → Alternate → Ca
with_certificate c row = record c {
  certificate = row.certificate;
  serial_number = row.serial_number;
  not_before = row.certificate.tbs.not_before;
  not_after = row.certificate.tbs.not_after;
  expiry_notified_at = none;
}

-- `_promote_reissue`, for a row that is in the store: the `previous` row and the store.
unfoldable pub promote_reissue : Ca → Alternate → Store → Alternate × Store
unfolding previous_of with_certificate save_ca remove_alternate add_alternate
promote_reissue c row s =
    let old = previous_of s.next_alternate c row in
    let added = add_alternate old s in
    (
      old,
      record added {
        cas = save_ca (with_certificate c row) added.cas;
        alternates = remove_alternate row.id added.alternates;
      },
    )

-- The authority that signs a re-issue: itself for a root, its parent else.
abbrev pub reissuer : List Ca → Ca → Option Ca
reissuer cas c = if c.is_root then some c else parent_of cas c

unfoldable pub parent_may_reissue : ℕ → Ca → Ca → Result CaError (Unit {0})
unfolding has_signing_key
parent_may_reissue now c issuer =
    if issuer.id == c.id
    then ok tt
    else refuse_if (not (has_signing_key issuer) || is_pending issuer.signoff.status)
        issuer_cannot_sign
      >> (refuse_if issuer.is_revoked parent_revoked
          >> refuse_if (leb issuer.not_after now) parent_expired)

unfoldable pub reissue_days : ℕ → Option ℕ → Ca → Ca → ℕ
reissue_days now validity_days c issuer =
    let asked = get_or validity_days (max 1 (whole_days (c.not_after - c.not_before))) in
    if issuer.id == c.id then asked else min asked (max 1 (whole_days (issuer.not_after - now)))

-- The certificate of `reissue_ca_certificate` and its issuer, where that is another authority.
unfoldable pub reissue_certificate :
    Env → Draw → Ca → String → Option ℕ → List Ca → Result CaError (Certificate × Option ℕ)
unfolding has_signing_key parent_may_reissue reissue_days ca_cert_builder sign_with
reissue_certificate e d c passphrase validity_days cas = do
  refuse_if (not (has_signing_key c) && c.is_root) root_without_key
  refuse_if c.is_revoked revoked_ca
  refuse_if (is_pending c.signoff.status) pending_ca
  issuer ← need no_issuer (reissuer cas c)
  parent_may_reissue d.now c issuer
  tbs ← ca_cert_builder e d c issuer (reissue_days d.now validity_days c issuer) c.path_length
  cert ← sign_with e.crypto issuer passphrase tbs
  ok (cert, if issuer.id == c.id then none else some issuer.id)

-- What it stores: the alternate that awaits its approval, or the new primary.
unfoldable pub keep_reissue : Approval → Ca → Alternate → Store → Alternate × Store
unfolding add_alternate promote_reissue
keep_reissue pending c row s = (row, add_alternate row s)
keep_reissue approved c row s = promote_reissue c row (add_alternate row s)

unfoldable pub reissue_ca_certificate :
    Env
    → Draw
    → Ca
    → String
    → Option ℕ
    → Option ℕ
    → Approval
    → Store
    → Result CaError (Alternate × Store)
unfolding reissue_certificate keep_reissue alternate_from_der
reissue_ca_certificate e d c passphrase validity_days created_by status s = do
  r ← reissue_certificate e d c passphrase validity_days s.cas
  let row = alternate_from_der s.next_alternate c reissue r.0 r.1 created_by status d.now
  ok (keep_reissue status c row s)

abbrev pub is_reissue : AlternateKind → Bool
is_reissue previous = false
is_reissue cross = false
is_reissue reissue = true

unfoldable pub approved_row : Alternate → ℕ → ℕ → Alternate
approved_row a approver now = record a {
  signoff = record { status = approved; approved_by = some approver; approved_at = some now };
}

unfoldable pub save_alternate : Alternate → List Alternate → List Alternate
save_alternate a = map (λ b. if b.id == a.id then a else b)

-- `approve_alternate`, on the row and its authority.
unfoldable pub approve_alternate :
    ℕ → Ca → Alternate → ℕ → Store → Result CaError (Alternate × Store)
unfolding approved_row save_alternate promote_reissue
approve_alternate now c a approver s = do
  refuse_if (not (is_pending a.signoff.status)) not_pending
  let row = approved_row a approver now
  let stored = record s { alternates = save_alternate row s.alternates }
  ok (if is_reissue a.kind then promote_reissue c row stored else (row, stored))

unfoldable pub delete_alternate : Alternate → Store → Store
unfolding remove_alternate
delete_alternate a s = record s { alternates = remove_alternate a.id s.alternates }
