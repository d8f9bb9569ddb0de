-- ===== src/Issuance/Claims.antt =====
-- `sign_csr`, `_claim_csr` and `_release_csr` of app/services/cert_service.py: a CSR's row and the
-- workers that sign it. The profile's and the name constraints' answers, and the building and
-- signing of the certificate, are arguments.
use chancery.Prelude.{
  ℕ, Option, none, some, Bool, true, false, not, List, [], ◌∷◌, filter_by, any_of, ◌==◌,
  if◌then◌else◌, Result, ok, raise, ◌>>=◌, ◌>>◌, refuse_if,
}
use chancery.Issuance.Policy.{Limits, PolicyError, PublicKey, enforce_public_key_strength}

pub data CsrStatus : Type 0 where
  pending signing approved rejected : CsrStatus

abbrev pub is_pending : CsrStatus → Bool
is_pending CsrStatus.pending = true
is_pending _ = false

abbrev pub is_signing : CsrStatus → Bool
is_signing CsrStatus.signing = true
is_signing _ = false

-- What the checks before the claim see.
pub record Request : Type 0 where
  pub has_signing_key : Bool
  pub ca_pending : Bool
  pub signature_valid : Bool
  pub public_key : PublicKey
  pub profile_allows : Bool
  pub names_allowed : Bool

pub data SignError : Type 0 where
  no_signing_key ca_awaits_approval bad_signature profile_refuses names_refused already_processed
        failed :
      SignError
  weak_key : PolicyError → SignError

abbrev pub strong : Result PolicyError (Unit {0}) → Result SignError (Unit {0})
strong (ok u) = ok u
strong (raise e) = raise (weak_key e)

unfoldable pub check_request : Limits → Request → Result SignError (Unit {0})
unfolding enforce_public_key_strength
check_request l r = do
  refuse_if (not r.has_signing_key) no_signing_key
  refuse_if r.ca_pending ca_awaits_approval
  refuse_if (not r.signature_valid) bad_signature
  strong (enforce_public_key_strength l r.public_key)
  refuse_if (not r.profile_allows) profile_refuses
  refuse_if (not r.names_allowed) names_refused

-- The row, the workers that hold a claim on it, and the certificates issued from it.
pub record Desk : Type 0 where
  pub status : CsrStatus
  pub certificate_id : Option ℕ
  pub holders : List ℕ
  pub certificates : List ℕ

-- A CSR as it is submitted.
unfoldable pub submitted : Desk
submitted = record {
  status = CsrStatus.pending;
  certificate_id = none;
  holders = [];
  certificates = [];
}

-- `_claim_csr`: one conditional update, then a commit.
unfoldable pub claim : ℕ → Desk → Result SignError Desk
claim worker d =
    if is_pending d.status
    then ok (record d { status = CsrStatus.signing; holders = worker ∷ d.holders })
    else raise already_processed

-- `_release_csr`: one conditional update, then a commit.
unfoldable pub release : ℕ → Desk → Desk
release worker d = record d {
  status = if is_signing d.status then CsrStatus.pending else d.status;
  holders = filter_by (λ w. not (w == worker)) d.holders;
}

-- The part of `sign_csr` up to the claim.
unfoldable pub begin_signing : Limits → Request → ℕ → Desk → Result SignError Desk
unfolding check_request claim
begin_signing l r worker d = check_request l r >>= λ _. claim worker d

-- `_sign_claimed_csr`, in the worker that holds the claim: a certificate, or an exception.
unfoldable pub end_signing : ℕ → Option ℕ → Desk → Desk
unfolding release
end_signing worker none d = release worker d
end_signing worker (some cert) d = record d {
  status = CsrStatus.approved;
  certificate_id = some cert;
  holders = filter_by (λ w. not (w == worker)) d.holders;
  certificates = cert ∷ d.certificates;
}

-- Two steps of the workers: one asks to sign, or one that holds a claim comes to its end.
pub data Step : Type 0 where
  asked : Request → ℕ → Step
  ended : ℕ → Option ℕ → Step

abbrev pub or_same : Result SignError Desk → Desk → Desk
or_same (ok e) d = e
or_same (raise e) d = d

unfoldable pub step : Limits → Step → Desk → Desk
unfolding begin_signing end_signing
step l (asked r worker) d = or_same (begin_signing l r worker d) d
step l (ended worker cert) d =
    if any_of (λ w. w == worker) d.holders then end_signing worker cert d else d

unfoldable pub steps : Limits → List Step → Desk → Desk
unfolding step
steps l [] d = d
steps l (s ∷ ss) d = steps l ss (step l s d)
