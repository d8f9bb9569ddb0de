-- ===== src/Authorities/Created.antt =====
-- What `create_root_ca` and `create_intermediate_ca` of app/services/ca_service.py write.
use chancery.Prelude.{
  ℕ, suc, ◌≤◌, ◌<◌, ◌≡◌, refl, sym, ap, ◌∙◌, String, Option, none, some, Bool, true, false, not,
  ◌&&◌, List, [], ◌∷◌, any_of, get_or, inl, inr, arith, leb, ◌==◌, Bool-cases, Result, ok, raise,
  ◌>>=◌, ok_unique, raise_not_ok, bind_ok, guard_ok, then_ok,
}
use chancery.Issuance.Policy.{
  enforce_key_strength, bounded_not_after, PolicyError, bounded_not_after-Bounded,
}
use chancery.Authorities.Types.{
  Constraints, Policy, Key, Tbs, Certificate, is_pending, Ca, has_signing_key, Store, CaError,
  looping, parent_without_key, parent_pending, parent_revoked, parent_expired, serial_taken,
  no_subject_key, key_failed, sign_failed, no_key, pending_ca, lift_policy, need, Crypto,
}
use chancery.Authorities.Constraints.{enforce}
use chancery.Authorities.Create.{
  Request, Draw, Env, ensure_name_available, sign_with, publish_initial_crl, add_ca, new_row,
  clamp_path, issued_tbs, to_second, encoded, may_create_under, create_intermediate_ca,
}

pub publish_keeps :
    (b : Bool) (c : Ca) → (n : ℕ) × (publish_initial_crl b c ≡ record c { crl_number = n })
unfolding publish_initial_crl
publish_keeps b c =
    elim (Bool-cases ((has_signing_key c && not (is_pending c.signoff.status)) && b)) [
      | inl y ↦ (suc c.crl_number, rw y refl)
      | inr n ↦ (c.crl_number, rw n refl)
    ]

pub need_ok {ℓ} : {A : Type ℓ} (e : CaError) (o : Option A) {a : A} → need e o ≡ ok a → o ≡ some a
need_ok e none h = raise_not_ok _ refl h
need_ok e (some a) h = ap some (ok_unique _ refl h)

pub lift_ok {ℓ} : {A : Type ℓ} (r : Result PolicyError A) {a : A} → lift_policy r ≡ ok a → r ≡ ok a
lift_ok (ok a) h = ap ok (ok_unique _ refl h)
lift_ok (raise e) h = raise_not_ok _ refl h

-- The parent of a new intermediate could sign when it was made, and the name was free.
pub record Authorised (e : Env) (d : Draw) (r : Request) (parent : Ca) (s : Store) : Type 0 where
  pub name_free : ensure_name_available s.cas r.name ≡ ok tt
  pub signing_key : has_signing_key parent ≡ true
  pub not_pending : is_pending parent.signoff.status ≡ false
  pub not_revoked : parent.is_revoked ≡ false
  pub alive : d.now < parent.not_after
  pub names_allowed : get_or (enforce e.names s.cas parent r.hostname []) (raise looping) ≡ ok tt

may_create_under-Authorised :
    (e : Env) (d : Draw) (r : Request) (parent : Ca) (s : Store)
    → may_create_under e d r parent s ≡ ok tt
    → Authorised e d r parent s
unfolding may_create_under
may_create_under-Authorised e d r parent s h =
    let a = then_ok (ensure_name_available s.cas r.name) _ h in
    let b = guard_ok (not (has_signing_key parent)) parent_without_key _ a.1 in
    let c = guard_ok (is_pending parent.signoff.status) parent_pending _ b.1 in
    let f = guard_ok parent.is_revoked parent_revoked _ c.1 in
    let g = guard_ok (leb parent.not_after d.now) parent_expired _ f.1 in
    let k = then_ok (lift_policy (enforce_key_strength e.limits r.key_type r.key_size)) _ g.1 in
    record {
      name_free = a.0;
      signing_key = ground (arith, b.0);
      not_pending = c.0;
      not_revoked = f.0;
      alive = ground (arith, g.0);
      names_allowed = k.1;
    }

-- The row and the certificate that a new intermediate gets.
pub record IssuedUnder (e : Env) (d : Draw) (r : Request) (parent : Ca) (s : Store) (c : Ca)
    (after : Store) : Type 0 where
  pub authorised : Authorised e d r parent s
  pub stored : after ≡ record s { cas = c ∷ s.cas; next_ca = suc s.next_ca }
  pub new_id : c.id ≡ s.next_ca
  pub below : c.parent_id ≡ some parent.id
  pub budget : clamp_path parent.path_length r.path_length ≡ ok c.path_length
  pub within_parent : c.not_after ≤ parent.not_after
  pub active : c.is_revoked ≡ false
  pub named : c.name ≡ r.name
  pub certified_path : c.certificate.tbs.path_length ≡ c.path_length
  pub certified_serial : c.certificate.tbs.serial ≡ c.serial_number
  pub certified_subject : c.certificate.tbs.subject ≡ r.subject
  pub certified_type :
      (c.certificate.tbs.public_key.key_type ≡ c.key_type)
      × (c.certificate.tbs.public_key.key_size ≡ c.key_size)
  pub certified_end : c.certificate.tbs.not_after ≡ to_second c.not_after
  pub certified_names : c.certificate.tbs.constraints ≡ c.name_constraints
  pub certified_key : c.certificate.tbs.authority_key ≡ parent.certificate.tbs.subject_key

pub add_ca-ok :
    (c : Ca) (s after : Store)
    → add_ca c s ≡ ok after
    → after ≡ record s { cas = c ∷ s.cas; next_ca = suc s.next_ca }
unfolding add_ca
add_ca-ok c s after h =
    let g =
      guard_ok (any_of (λ (d : Ca). d.serial_number == c.serial_number) s.cas) serial_taken _ h in
    sym (ok_unique _ refl g.1)

pub issued_tbs-ok :
    (x : Crypto) (issuer : Ca) (d : Draw) (subject : String) (key : Key) (not_after : ℕ)
    (path_length : Option ℕ) (constraints : Option Constraints) (policies : List Policy) (t : Tbs)
    → issued_tbs x issuer d subject key not_after path_length constraints policies ≡ ok t
    → (t.not_after ≡ not_after)
      × (t.path_length ≡ path_length)
      × (t.constraints ≡ constraints)
      × (t.authority_key ≡ issuer.certificate.tbs.subject_key)
      × (t.public_key ≡ key)
      × (t.subject ≡ subject)
      × (t.serial ≡ d.serial)
unfolding issued_tbs
issued_tbs-ok x issuer d subject key not_after path_length constraints policies t h =
    let g = bind_ok (need no_subject_key issuer.certificate.tbs.subject_key) _ h in
    let same = ok_unique _ refl g.2 in
    rw⁻¹ same (
      refl,
      refl,
      refl,
      sym (need_ok no_subject_key issuer.certificate.tbs.subject_key g.1),
      refl,
      refl,
      refl,
    )

pub sign_with-ok :
    (x : Crypto) (c : Ca) (passphrase : String) (t : Tbs) (cert : Certificate)
    → sign_with x c passphrase t ≡ ok cert
    → cert.tbs ≡ encoded t
unfolding sign_with
sign_with-ok x c passphrase t cert h =
    let a = guard_ok (not (has_signing_key c)) no_key _ h in
    let b = guard_ok (is_pending c.signoff.status) pending_ca _ a.1 in
    let g = bind_ok (need sign_failed (x.sign c passphrase (encoded t))) _ b.1 in
    let same = ok_unique _ refl g.2 in rw⁻¹ same refl

pub written :
    (b : Bool) (row c : Ca) (s after : Store)
    → ◌>>=◌ {B = Ca × Store}
        (add_ca (publish_initial_crl b row) s)
        (λ t. ok (publish_initial_crl b row, t))
      ≡ ok (c, after)
    → (n : ℕ) × (c ≡ record row { crl_number = n })
      × (after ≡ record s { cas = record row { crl_number = n } ∷ s.cas; next_ca = suc s.next_ca })
written b row c s after h =
    let g = bind_ok (add_ca (publish_initial_crl b row) s) _ h in
    let same = ok_unique _ refl g.2 in
    let k = publish_keeps b row in
    (
      k.0,
      sym (ap (λ (q : Ca × Store). q.0) same) ∙ k.1,
      sym (ap (λ (q : Ca × Store). q.1) same)
          ∙ add_ca-ok _ s g.0 g.1
          ∙ ap (λ (q : Ca). record s { cas = q ∷ s.cas; next_ca = suc s.next_ca }) k.1,
    )

-- A new intermediate is written only under a parent that holds a key, is approved, not revoked and
-- not over, with a free name that the parents' constraints allow; its path length is the one that
-- the parent's leaves, and its end is no later than the parent's. Its certificate has the serial
-- number, the key type and size, the path length and the constraints of its row, the subject that was
-- asked for, the key identifier of the parent, and the end of its row cut to whole seconds.
pub create_intermediate_ca-IssuedUnder :
    (e : Env) (d : Draw) (r : Request) (parent : Ca) (s : Store) (c : Ca) (after : Store)
    → create_intermediate_ca e d r parent s ≡ ok (c, after)
    → IssuedUnder e d r parent s c after
unfolding create_intermediate_ca new_row
create_intermediate_ca-IssuedUnder e d r parent s c after h =
    let a = then_ok (may_create_under e d r parent s) _ h in
    let k =
      bind_ok
        (need key_failed (
          e.crypto.generate_key (get_or r.backend e.crypto.default_backend) r.key_type r.key_size
            d.label))
        _ a.1 in
    let p = bind_ok (clamp_path parent.path_length r.path_length) _ k.2 in
    let n =
      bind_ok
        (lift_policy
          (bounded_not_after e.limits d.now r.validity_days (some parent.not_after) true true))
        _ p.2 in
    let t =
      bind_ok (issued_tbs e.crypto parent d r.subject k.0 n.0 p.0 r.constraints r.policies) _ n.2 in
    let g = bind_ok (sign_with e.crypto parent r.passphrase t.0) _ t.2 in
    let row : Ca =
      new_row s r d (get_or r.backend e.crypto.default_backend) k.0 (some parent.id) false n.0 p.0
        g.0 in
    let w = written d.crl_ok row c s after g.2 in
    let cert = sign_with-ok e.crypto parent r.passphrase t.0 g.0 g.1 in
    let b =
      issued_tbs-ok e.crypto parent d r.subject k.0 n.0 p.0 r.constraints r.policies t.0 t.1 in
    let bounds =
      bounded_not_after-Bounded e.limits d.now r.validity_days (some parent.not_after) true true n.0
        (lift_ok _ n.1) in
    rw (w.1) (record {
      authorised = may_create_under-Authorised e d r parent s a.0;
      stored = w.2;
      new_id = refl;
      below = refl;
      budget = p.1;
      within_parent = bounds.within_issuer parent.not_after refl;
      active = refl;
      named = refl;
      certified_path = ap (λ (q : Tbs). q.path_length) cert ∙ b.1;
      certified_serial = ap (λ (q : Tbs). q.serial) cert ∙ b.6;
      certified_subject = ap (λ (q : Tbs). q.subject) cert ∙ b.5;
      certified_type = (
        ap (λ (q : Tbs). q.public_key.key_type) cert ∙ ap (λ (q : Key). q.key_type) b.4,
        ap (λ (q : Tbs). q.public_key.key_size) cert ∙ ap (λ (q : Key). q.key_size) b.4,
      );
      certified_end = ap (λ (q : Tbs). q.not_after) cert ∙ ap to_second b.0;
      certified_names = ap (λ (q : Tbs). q.constraints) cert ∙ b.2;
      certified_key = ap (λ (q : Tbs). q.authority_key) cert ∙ b.3;
    })
