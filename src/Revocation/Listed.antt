-- ===== src/Revocation/Listed.antt =====
-- The last CRL of a revoked authority (app/services/crl_service.py).
use chancery.Prelude.{
  ℕ, ◌+◌, ◌<◌, ◌≡◌, refl, ap, ◌∙◌, String, Option, some, true, false, List, [], ◌∷◌, ◌++◌, map, inl,
  inr, arith, leb, Bool-cases, ok,
}
use mathlib.Core.Path.{ap₂}
use chancery.Revocation.Store.{
  ReasonName, Cert, Ca, Cas, ca, no_cas, and_ca, revoke_active, revoke_tree, revoke_children,
  revoke_ca, ca_revocation, ca_serial,
}
use chancery.Revocation.Crl.{
  Crl, CrlState, CrlEntry, cert_entries, child_entries, crl_entries, generate_crl,
  publish_final_crl,
}
use chancery.Revocation.Cascade.{revoke_ca-ok}

abbrev pub child_serials : Cas → List ℕ
child_serials no_cas = []
child_serials (and_ca c cs) = ca_serial c ∷ child_serials cs

-- The serial numbers in the rows of the certificates and of the authorities that name this authority
-- as theirs: certificates, then authorities.
unfoldable pub issued_serials : Ca → List ℕ
issued_serials (ca id serial r certs children) =
    map (λ c. c.serial_number) certs ++ child_serials children

abbrev pub serials : List CrlEntry → List ℕ
serials es = map (λ e. e.serial) es

serials-cert_entries :
    (now later : ℕ) (reason : ReasonName) (certs : List Cert)
    → serials (cert_entries later (map (revoke_active now reason) certs))
      ≡ map (λ c. c.serial_number) certs
unfolding cert_entries revoke_active
serials-cert_entries now later reason [] = refl
serials-cert_entries now later reason (c ∷ certs) = elim (Bool-cases c.revocation.is_revoked) [
  | inl y ↦ rw y (ap (λ ns. c.serial_number ∷ ns) (serials-cert_entries now later reason certs))
  | inr n ↦ rw n (ap (λ ns. c.serial_number ∷ ns) (serials-cert_entries now later reason certs))
]

serial-revoke_tree :
    (now : ℕ) (reason : ReasonName) (c : Ca) → ca_serial (revoke_tree now reason c) ≡ ca_serial c
unfolding revoke_tree
serial-revoke_tree now reason (ca id serial r certs children) = refl

dead-revoke_tree :
    (now : ℕ) (reason : ReasonName) (c : Ca)
    → (ca_revocation (revoke_tree now reason c)).is_revoked ≡ true
unfolding revoke_tree
dead-revoke_tree now reason (ca id serial r certs children) = refl

child_entry :
    (later : ℕ) (c : Ca) (cs : Cas)
    → (ca_revocation c).is_revoked ≡ true
    → serials (child_entries later (and_ca c cs)) ≡ ca_serial c ∷ serials (child_entries later cs)
unfolding child_entries
child_entry later c cs y = rw y refl

children-step :
    (now : ℕ) (reason : ReasonName) (c : Ca) (cs : Cas)
    → (d : Ca) × (revoke_children now reason (and_ca c cs)
        ≡ and_ca d (revoke_children now reason cs))
      × (ca_serial d ≡ ca_serial c)
      × ((ca_revocation d).is_revoked ≡ true)
unfolding revoke_children
children-step now reason c cs = elim (Bool-cases (ca_revocation c).is_revoked) [
  | inl y ↦ (c, rw y refl, refl, y)
  | inr n ↦ (
    revoke_tree now reason c,
    rw n refl,
    serial-revoke_tree now reason c,
    dead-revoke_tree now reason c,
  )
]

serials-child_entries :
    (now later : ℕ) (reason : ReasonName) (cs : Cas)
    → serials (child_entries later (revoke_children now reason cs)) ≡ child_serials cs
unfolding child_entries revoke_children
serials-child_entries now later reason no_cas = refl
serials-child_entries now later reason (and_ca c cs) =
    let (d, step, same, dead) = children-step now reason c cs in
    ap (λ z. serials (child_entries later z)) step
    ∙ (child_entry later d (revoke_children now reason cs) dead
        ∙ ap₂ ◌∷◌ same (serials-child_entries now later reason cs))

map-append : (xs ys : List CrlEntry) → serials (xs ++ ys) ≡ serials xs ++ serials ys
map-append [] ys = refl
map-append (x ∷ xs) ys = ap (λ ns. x.serial ∷ ns) (map-append xs ys)

serials-crl_entries :
    (now later : ℕ) (reason : ReasonName) (c : Ca)
    → serials (crl_entries later (revoke_tree now reason c)) ≡ issued_serials c
unfolding crl_entries revoke_tree issued_serials
serials-crl_entries now later reason (ca id serial r certs children) =
    map-append _ _
    ∙ ap₂ ◌++◌ (serials-cert_entries now later reason certs)
        (serials-child_entries now later reason children)

-- A final CRL: its number is the next one, it is good until the authority's end, and it lists the
-- serial numbers in the rows below the authority.
pub record FinalCrl (c : Ca) (st : CrlState) (crl : Crl) (after : CrlState) : Type 0 where
  pub next_number : crl.number ≡ st.crl_number + 1
  pub stored_number : after.crl_number ≡ crl.number
  pub good_until_end : crl.next_update ≡ st.not_after
  pub lists_all : serials crl.entries ≡ issued_serials c

-- After `revoke_ca`, an authority that has a key, is approved and is not over publishes a last CRL
-- that carries the next number, is good until its own end, and lists, in their order, the serial number
-- of the row of every certificate that it issued and of every authority whose parent it is. (Cross
-- certificates, and the certificates that a re-issue replaced, are in neither of these rows.)
pub revoked-FinalCrl :
    (now : ℕ) (reason : Option ReasonName) (c d : Ca) (n m : ℕ) (sign : Crl → String)
    (validity later : ℕ) (st : CrlState)
    → revoke_ca now reason (some c) ≡ ok (d, n, m)
    → st.has_signing_key ≡ true
    → st.is_pending ≡ false
    → later < st.not_after
    → (crl : Crl) × (after : CrlState) × (publish_final_crl sign validity later d st
        ≡ some (ok (crl, after)))
      × FinalCrl c st crl after
unfolding publish_final_crl generate_crl
revoked-FinalCrl now reason c d n m sign validity later st e key live early =
    let (r, _, tree, _, _) = revoke_ca-ok now reason c d n m e in
    let open_still : leb st.not_after later ≡ false = ground (arith, early) in
    let crl : Crl = record {
      number = st.crl_number + 1;
      last_update = later;
      next_update = st.not_after;
      entries = crl_entries later d;
    } in
    (
      crl,
      record st { crl_number = st.crl_number + 1; crl_pem = some (sign crl) },
      rw (key, live, open_still) refl,
      record {
        next_number = refl;
        stored_number = refl;
        good_until_end = refl;
        lists_all =
            ap (λ z. serials (crl_entries later z)) tree ∙ serials-crl_entries now later r c;
      },
    )
