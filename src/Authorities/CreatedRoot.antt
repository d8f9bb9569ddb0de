-- ===== src/Authorities/CreatedRoot.antt =====
-- What `create_root_ca` of app/services/ca_service.py writes.
use chancery.Prelude.{suc, ◌≡◌, refl, none, true, false, ◌∷◌, get_or, ok, bind_ok, then_ok}
use chancery.Issuance.Policy.{
  enforce_key_strength, bounded_not_after, Bounded, bounded_not_after-Bounded, root_ca, tier_of,
}
use chancery.Authorities.Types.{Ca, Store, key_failed, sign_failed, lift_policy, need}
use chancery.Authorities.Create.{
  Request, Draw, Env, ensure_name_available, new_row, encoded, root_tbs, create_root_ca,
}
use chancery.Authorities.Created.{lift_ok, written}

-- What a new root is: the top of a tree, under a free name, with the path length asked for and an
-- end within the limit for roots.
pub record IssuedRoot (e : Env) (d : Draw) (r : Request) (s : Store) (c : Ca) (after : Store)
    : Type 0 where
  pub name_free : ensure_name_available s.cas r.name ≡ ok tt
  pub stored : after ≡ record s { cas = c ∷ s.cas; next_ca = suc s.next_ca }
  pub new_id : c.id ≡ s.next_ca
  pub top : c.parent_id ≡ none
  pub active : c.is_revoked ≡ false
  pub named : c.name ≡ r.name
  pub budget : c.path_length ≡ r.path_length
  pub bounded : Bounded e.limits d.now r.validity_days none root_ca c.not_after
  pub certified_path : c.certificate.tbs.path_length ≡ c.path_length
  pub self_issued : c.certificate.tbs.issuer ≡ c.certificate.tbs.subject

pub create_root_ca-IssuedRoot :
    (e : Env) (d : Draw) (r : Request) (s : Store) (c : Ca) (after : Store)
    → create_root_ca e d r s ≡ ok (c, after)
    → IssuedRoot e d r s c after
unfolding create_root_ca new_row root_tbs tier_of
create_root_ca-IssuedRoot e d r s c after h =
    let backend = get_or r.backend e.crypto.default_backend in
    let a = then_ok (ensure_name_available s.cas r.name) _ h in
    let b = then_ok (lift_policy (enforce_key_strength e.limits r.key_type r.key_size)) _ a.1 in
    let k =
      bind_ok (need key_failed (e.crypto.generate_key backend r.key_type r.key_size d.label)) _
        b.1 in
    let n =
      bind_ok (lift_policy (bounded_not_after e.limits d.now r.validity_days none true false)) _
        k.2 in
    let tbs = encoded (root_tbs e.crypto r d k.0 n.0) in
    let blank : Ca =
      new_row s r d backend k.0 none true n.0 r.path_length
        (record { tbs = tbs; signature = "" }) in
    let g = bind_ok (need sign_failed (e.crypto.sign blank r.passphrase tbs)) _ n.2 in
    let row : Ca =
      new_row s r d backend k.0 none true n.0 r.path_length
        (record { tbs = tbs; signature = g.0 }) in
    let w = written d.crl_ok row c s after g.2 in
    rw (w.1) (record {
      name_free = a.0;
      stored = w.2;
      new_id = refl;
      top = refl;
      active = refl;
      named = refl;
      budget = refl;
      bounded =
          bounded_not_after-Bounded e.limits d.now r.validity_days none true false n.0
            (lift_ok _ n.1);
      certified_path = refl;
      self_issued = refl;
    })
