-- ===== src/Examples/Signing.antt =====
-- Two workers and one CSR, and the validity of a certificate.
use chancery.Prelude.{◌≡◌, refl, none, some, true, false, List, [], ◌∷◌, ok}
use chancery.Issuance.Policy.{
  Limits, PublicKey, Bounded, tier_of, bounded_not_after, bounded_not_after-Bounded,
}
use chancery.Issuance.Claims.{Request, Step, asked, ended, steps, submitted}
use chancery.Issuance.Once.{IssuedOnce, steps-IssuedOnce}

limits : Limits
limits = record {
  min_rsa = 2048;
  max_rsa = 8192;
  max_cert_days = 1825;
  max_intermediate_days = 3650;
  max_ca_days = 7300;
}

request : Request
request = record {
  has_signing_key = true;
  ca_pending = false;
  signature_valid = true;
  public_key = PublicKey.rsa_key 2048;
  profile_allows = true;
  names_allowed = true;
}

race : List Step
race =
    asked request 1
    ∷ asked request 2
    ∷ ended 1 none
    ∷ asked request 2
    ∷ ended 1 (some 70)
    ∷ ended 2 (some 71)
    ∷ []

program : Unit {0}
unfolding limits request race steps submitted bounded_not_after tier_of
program = tt

-- The second worker gets the certificate, since the first one fails.
race-result : (steps limits race submitted).certificates ≡ 71 ∷ []
unfolding program
race-result = refl

steps-IssuedOnce_example : IssuedOnce (steps limits race submitted)
steps-IssuedOnce_example = steps-IssuedOnce limits race

clamped : bounded_not_after limits 1000 90 (some 2000) false false ≡ ok 2000
unfolding program
clamped = refl

bounded_not_after-Bounded_example : Bounded limits 1000 90 (some 2000) (tier_of false false) 2000
bounded_not_after-Bounded_example =
    bounded_not_after-Bounded limits 1000 90 (some 2000) false false 2000 clamped
