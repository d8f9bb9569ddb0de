-- ===== src/Examples/Revoking.antt =====
-- A root with one certificate and two authorities below it, one of them revoked before.
use chancery.Prelude.{suc, ◌+◌, ◌≡◌, refl, String, none, some, true, false, [], ◌∷◌, arith, ok}
use chancery.Revocation.Store.{
  Revocation, ReasonName, Cert, Ca, ca, no_cas, and_ca, revoked_now, revoke_tree, revoke_ca,
}
use chancery.Revocation.Crl.{Crl, CrlState, publish_final_crl}
use chancery.Revocation.Cascade.{
  AllRevoked, Closed, revoked_certs, revoked_cas, revoke_ca-AllRevoked,
}
use chancery.Revocation.Listed.{FinalCrl, revoked-FinalCrl}

good : Revocation
good = record { is_revoked = false; revoked_at = none; reason = none }

leaf : Cert
leaf = record { id = 1; serial_number = 500; revocation = good }

old_ca : Ca
old_ca = ca 3 300 (revoked_now 40 ReasonName.superseded) [] no_cas

sub_ca : Ca
sub_ca =
    ca 2 200 good
      (record { id = 2; serial_number = 501; revocation = revoked_now 50 ReasonName.key_compromise }
        ∷ [])
      no_cas

root : Ca
root = ca 1 100 good (leaf ∷ []) (and_ca sub_ca (and_ca old_ca no_cas))

after : Ca
after = revoke_tree 60 ReasonName.ca_compromise root

state : CrlState
state = record {
  has_signing_key = true;
  is_pending = false;
  crl_number = 4;
  crl_pem = none;
  not_after = 9000;
}

program : Unit {0}
unfolding good leaf old_ca sub_ca root after state revoke_ca Closed AllRevoked
program = tt

root-revoked : revoke_ca 60 (some ReasonName.ca_compromise) (some root) ≡ ok (after, 1, 1)
unfolding program
root-revoked = refl

never {ℓ} : {C : Type ℓ} → false ≡ true → C
never e = cc

root-Closed : Closed root
unfolding program
root-Closed = ((λ e. never e), (((λ e. never e), tt), (((λ e. (refl, tt)), tt), tt)))

revoke_ca-AllRevoked_example :
    AllRevoked after
    × (revoked_certs after ≡ revoked_certs root + 1)
    × (revoked_cas after ≡ suc (revoked_cas root + 1))
revoke_ca-AllRevoked_example =
    revoke_ca-AllRevoked 60 (some ReasonName.ca_compromise) root after 1 1 root-Closed root-revoked

sign : Crl → String
sign crl = "crl"

revoked-FinalCrl_example :
    (crl : Crl) × (later : CrlState) × (publish_final_crl sign 7 70 after state
      ≡ some (ok (crl, later)))
    × FinalCrl root state crl later
unfolding state
revoked-FinalCrl_example =
    revoked-FinalCrl 60 (some ReasonName.ca_compromise) root after 1 1 sign 7 70 state root-revoked
      refl refl (omega arith)
