-- ===== src/Authorities/Reissue.antt =====
-- What a re-issue and a cross-signature of app/services/ca_service.py keep of the authority.
use chancery.Prelude.{
  ℕ, ◌+◌, ◌-◌, ◌≤◌, ◌≡◌, refl, sym, ap, ◌∙◌, String, Option, none, some, true, false, not, ◌&&◌,
  ◌||◌, List, get_or, none-not_some, arith, ◌==◌, days, ok, ok_unique, if_false, bind_ok, guard_ok,
  then_ok, min, max,
}
use chancery.Issuance.Policy.{bounded_not_after, bounded_not_after-Bounded}
use chancery.Authorities.Types.{
  Tbs, Certificate, is_pending, Ca, has_signing_key, lift_policy, need, root_without_key,
  revoked_ca, pending_ca, no_issuer, issuer_cannot_sign, parent_revoked,
}
use chancery.Authorities.Create.{Draw, Env, to_second, encoded, sign_with}
use chancery.Authorities.Created.{need_ok, lift_ok, issued_tbs-ok, sign_with-ok}
use chancery.Authorities.Alternates.{
  whole_days, ca_cert_builder, reissuer, parent_may_reissue, reissue_days, reissue_certificate,
}

-- A certificate for the authority's own key and subject, with its path length and its constraints.
pub record SameAuthority (c : Ca) (path_length : Option ℕ) (t : Tbs) : Type 0 where
  pub same_key : t.public_key ≡ c.certificate.tbs.public_key
  pub same_subject : t.subject ≡ c.certificate.tbs.subject
  pub same_constraints : t.constraints ≡ c.name_constraints
  pub path : t.path_length ≡ path_length

ca_cert_builder-SameAuthority :
    (e : Env) (d : Draw) (c issuer : Ca) (validity_days : ℕ) (path_length : Option ℕ) (t : Tbs)
    → ca_cert_builder e d c issuer validity_days path_length ≡ ok t
    → SameAuthority c path_length t × (t.not_after ≡ d.now + days validity_days)
unfolding ca_cert_builder
ca_cert_builder-SameAuthority e d c issuer validity_days path_length t h =
    let n =
      bind_ok
        (lift_policy (bounded_not_after e.limits d.now validity_days none true (not c.is_root))) _
        h in
    let tbs = c.certificate.tbs in
    let b =
      issued_tbs-ok e.crypto issuer d tbs.subject tbs.public_key n.0 path_length c.name_constraints
        c.certificate_policies t n.2 in
    let bounds =
      bounded_not_after-Bounded e.limits d.now validity_days none true (not c.is_root) n.0
        (lift_ok _ n.1) in
    let end_ : n.0 ≡ d.now + days validity_days =
      bounds.as_asked (λ e h. none-not_some none refl h) in
    (record { same_key = b.4; same_subject = b.5; same_constraints = b.2; path = b.1 }, b.0 ∙ end_)

to_second-le : (n : ℕ) → to_second n ≤ n
to_second-le n = omega arith

-- The re-issue is by the authority itself or by its parent, which can sign; its end is no later
-- than the parent's, or than a day from now where the parent has less than that left.
pub record Reissued (e : Env) (d : Draw) (c issuer : Ca) (cas : List Ca) (t : Tbs) : Type 0 where
  pub signer : reissuer cas c ≡ some issuer
  pub same : SameAuthority c c.path_length t
  pub within_issuer :
      (issuer.id == c.id) ≡ false → t.not_after ≤ max issuer.not_after (d.now + days 1)
  pub may_sign :
      (issuer.id == c.id) ≡ false → (has_signing_key issuer ≡ true) × (issuer.is_revoked ≡ false)
  pub active : c.is_revoked ≡ false

clamped_end :
    (now asked end_ : ℕ)
    → now + days (min asked (max 1 (whole_days (end_ - now)))) ≤ max end_ (now + days 1)
clamped_end now asked end_ = omega arith

reissue_days-within :
    (now : ℕ) (validity_days : Option ℕ) (c issuer : Ca)
    → (issuer.id == c.id) ≡ false
    → now + days (reissue_days now validity_days c issuer) ≤ max issuer.not_after (now + days 1)
unfolding reissue_days
reissue_days-within now validity_days c issuer n = rw n (
    clamped_end now (get_or validity_days (max 1 (whole_days (c.not_after - c.not_before))))
      issuer.not_after)

parent_may_reissue-signs :
    (now : ℕ) (c issuer : Ca)
    → (issuer.id == c.id) ≡ false
    → parent_may_reissue now c issuer ≡ ok tt
    → (has_signing_key issuer ≡ true) × (issuer.is_revoked ≡ false)
unfolding parent_may_reissue
parent_may_reissue-signs now c issuer n h =
    let a =
      guard_ok (not (has_signing_key issuer) || is_pending issuer.signoff.status) issuer_cannot_sign
        _ (sym (if_false _ _ _ n) ∙ h) in
    let b = guard_ok issuer.is_revoked parent_revoked _ a.1 in (ground (arith, a.0), b.0)

-- A re-issue is for the same key, subject, path length and constraints, of an authority that is not
-- revoked, by itself or by a parent that can sign; under a parent its end is no later than the
-- parent's, or than a day from now where the parent has less than that left.
pub reissue_certificate-Reissued :
    (e : Env) (d : Draw) (c : Ca) (passphrase : String) (validity_days : Option ℕ) (cas : List Ca)
    (cert : Certificate) (by : Option ℕ)
    → reissue_certificate e d c passphrase validity_days cas ≡ ok (cert, by)
    → (issuer : Ca) × Reissued e d c issuer cas cert.tbs
unfolding reissue_certificate
reissue_certificate-Reissued e d c passphrase validity_days cas cert by h =
    let g1 = guard_ok (not (has_signing_key c) && c.is_root) root_without_key _ h in
    let g2 = guard_ok c.is_revoked revoked_ca _ g1.1 in
    let g3 = guard_ok (is_pending c.signoff.status) pending_ca _ g2.1 in
    let i = bind_ok (need no_issuer (reissuer cas c)) _ g3.1 in
    let p = then_ok (parent_may_reissue d.now c i.0) _ i.2 in
    let t =
      bind_ok (ca_cert_builder e d c i.0 (reissue_days d.now validity_days c i.0) c.path_length) _
        p.1 in
    let k = bind_ok (sign_with e.crypto i.0 passphrase t.0) _ t.2 in
    let b =
      ca_cert_builder-SameAuthority e d c i.0 (reissue_days d.now validity_days c i.0) c.path_length
        t.0 t.1 in
    let signed = sign_with-ok e.crypto i.0 passphrase t.0 k.0 k.1 in
    let same : k.0 ≡ cert = ap (λ (q : Certificate × Option ℕ). q.0) (ok_unique _ refl k.2) in
    let tbs : cert.tbs ≡ encoded t.0 = sym (ap (λ (q : Certificate). q.tbs) same) ∙ signed in
    (
      i.0,
      rw tbs (record {
        signer = need_ok no_issuer (reissuer cas c) i.1;
        same = record {
          same_key = b.0.same_key;
          same_subject = b.0.same_subject;
          same_constraints = b.0.same_constraints;
          path = b.0.path;
        };
        within_issuer = λ n. omega (
          arith,
          to_second-le t.0.not_after,
          b.1,
          reissue_days-within d.now validity_days c i.0 n,
        );
        may_sign = λ n. parent_may_reissue-signs d.now c i.0 n p.0;
        active = g2.0;
      }),
    )
