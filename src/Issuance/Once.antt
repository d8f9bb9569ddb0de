-- ===== src/Issuance/Once.antt =====
-- No two workers issue from one CSR (app/services/cert_service.py).
use chancery.Prelude.{
  ℕ, ◌≤◌, ◌≡◌, refl, Option, none, some, List, [], ◌∷◌, length, ◌⊎◌, inl, inr, arith, ◌==◌,
  Bool-cases, Result-cases,
}
use chancery.Issuance.Policy.{Limits}
use chancery.Issuance.Claims.{
  CsrStatus, Request, Desk, Step, asked, ended, claim, release, begin_signing, end_signing,
  check_request, step, steps, submitted, or_same,
}

-- The only states of a CSR's desk: open, held by one worker, issued once, or rejected.
pub data Orderly : Desk → Type 0 where
  open_desk : Orderly (record {
    status = CsrStatus.pending;
    certificate_id = none;
    holders = [];
    certificates = [];
  })
  held :
      (w : ℕ)
      → Orderly (record {
        status = CsrStatus.signing;
        certificate_id = none;
        holders = w ∷ [];
        certificates = [];
      })
  issued :
      (c : ℕ)
      → Orderly (record {
        status = CsrStatus.approved;
        certificate_id = some c;
        holders = [];
        certificates = c ∷ [];
      })
  turned_down : Orderly (record {
    status = CsrStatus.rejected;
    certificate_id = none;
    holders = [];
    certificates = [];
  })

begin-cases :
    (l : Limits) (r : Request) (w : ℕ) (d : Desk)
    → (or_same (begin_signing l r w d) d ≡ d)
      ⊎ (or_same (begin_signing l r w d) d ≡ or_same (claim w d) d)
unfolding begin_signing
begin-cases l r w d = elim (Result-cases (check_request l r)) [
  | inl (u, e) ↦ inr (rw e refl)
  | inr (p, e) ↦ inl (rw e refl)
]

claim-Orderly : (w : ℕ) (d : Desk) → Orderly d → Orderly (or_same (claim w d) d)
unfolding claim
claim-Orderly w _ open_desk = held w
claim-Orderly w _ (held v) = held v
claim-Orderly w _ (issued c) = issued c
claim-Orderly w _ turned_down = turned_down

ended-Orderly :
    (l : Limits) (w : ℕ) (cert : Option ℕ) (d : Desk)
    → Orderly d
    → Orderly (step l (ended w cert) d)
unfolding step end_signing release
ended-Orderly l w cert _ open_desk = open_desk
ended-Orderly l w none _ (held v) = elim (Bool-cases (v == w)) [
  | inr other ↦ rw other (held v)
  | inl mine ↦ rw mine open_desk
]
ended-Orderly l w (some c) _ (held v) = elim (Bool-cases (v == w)) [
  | inr other ↦ rw other (held v)
  | inl mine ↦ rw mine (issued c)
]
ended-Orderly l w cert _ (issued c) = issued c
ended-Orderly l w cert _ turned_down = turned_down

asked-Orderly :
    (l : Limits) (r : Request) (w : ℕ) (d : Desk) → Orderly d → Orderly (step l (asked r w) d)
unfolding step
asked-Orderly l r w d o = elim (begin-cases l r w d) [
  | inl same ↦ rw same o
  | inr claimed ↦ rw claimed (claim-Orderly w d o)
]

step-Orderly : (l : Limits) (s : Step) (d : Desk) → Orderly d → Orderly (step l s d)
step-Orderly l (asked r w) d o = asked-Orderly l r w d o
step-Orderly l (ended w cert) d o = ended-Orderly l w cert d o

steps-Orderly : (l : Limits) (ss : List Step) (d : Desk) → Orderly d → Orderly (steps l ss d)
unfolding steps
steps-Orderly l [] d o = o
steps-Orderly l (s ∷ ss) d o = steps-Orderly l ss (step l s d) (step-Orderly l s d o)

-- What the order of the states says of the row.
pub record IssuedOnce (d : Desk) : Type 0 where
  pub one_holder : length d.holders ≤ 1
  pub one_certificate : length d.certificates ≤ 1
  pub recorded :
      (c : ℕ) (cs : List ℕ)
      → d.certificates ≡ c ∷ cs
      → (d.status ≡ CsrStatus.approved) × (d.certificate_id ≡ some c) × (d.holders ≡ [])

Orderly-IssuedOnce : (d : Desk) → Orderly d → IssuedOnce d
Orderly-IssuedOnce _ open_desk = record {
  one_holder = omega arith;
  one_certificate = omega arith;
  recorded = λ c cs e. (cc, cc, cc);
}
Orderly-IssuedOnce _ (held w) = record {
  one_holder = omega arith;
  one_certificate = omega arith;
  recorded = λ c cs e. (cc, cc, cc);
}
Orderly-IssuedOnce _ (issued c) = record {
  one_holder = omega arith;
  one_certificate = omega arith;
  recorded = λ k cs e. (cc, cc, cc);
}
Orderly-IssuedOnce _ turned_down = record {
  one_holder = omega arith;
  one_certificate = omega arith;
  recorded = λ c cs e. (cc, cc, cc);
}

submitted-Orderly : Orderly submitted
unfolding submitted
submitted-Orderly = open_desk

-- Whatever workers ask to sign one submitted CSR and in whatever order their signings succeed or
-- fail, at most one worker holds it and at most one certificate comes of it; once one has, the CSR
-- is approved, names that certificate and is held by no worker.
pub steps-IssuedOnce : (l : Limits) (ss : List Step) → IssuedOnce (steps l ss submitted)
steps-IssuedOnce l ss = Orderly-IssuedOnce _ (steps-Orderly l ss submitted submitted-Orderly)
