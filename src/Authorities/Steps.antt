-- ===== src/Authorities/Steps.antt =====
-- The operations of app/services/ca_service.py as steps, and what each does to the rows. The import of
-- an authority is no step here, since the path length of a certificate that others made is theirs; it
-- is one in Forest.
use chancery.Prelude.{
  ℕ, ◌≡◌, refl, sym, ap, ◌∙◌, String, Option, Bool, true, false, not, ◌&&◌, ◌||◌, any_of, Elem,
  get_or, inl, inr, ◌==◌, if◌then◌else◌, Bool-cases, ok, ok_unique, bind_ok, guard_ok,
}
use chancery.Authorities.Types.{
  Text, Ca, Approval, Certificate, Alternate, Store, Crypto, is_pending, key_mismatch, not_a_ca,
  already_stored, not_pending, reissue, approved, pending,
}
use chancery.Authorities.Create.{Env, Draw, Request, create_root_ca, create_intermediate_ca}
use chancery.Authorities.Created.{create_intermediate_ca-IssuedUnder, IssuedUnder}
use chancery.Authorities.CreatedRoot.{create_root_ca-IssuedRoot, IssuedRoot}
use chancery.Authorities.Alternates.{
  save_ca, with_certificate, add_alternate, alternate_from_der, promote_reissue,
  reissue_ca_certificate, reissue_certificate, keep_reissue, approve_alternate, approved_row,
  save_alternate, delete_alternate, is_reissue,
}
use chancery.Authorities.CrossSign.{cross_certificate, cross_sign_ca, import_alternate_certificate}
use chancery.Authorities.Tree.{node}

-- `row_changed` is every other change of a row that keeps its id, its name, its parent and its path
-- length and revives no revoked authority: an approval, a revocation, a new CRL.
pub data Step (e : Env) (s after : Store) : Type 0 where
  root : (d : Draw) (r : Request) (c : Ca) → create_root_ca e d r s ≡ ok (c, after) → Step e s after
  intermediate :
      (d : Draw) (r : Request) (parent c : Ca)
      → Elem parent s.cas
      → create_intermediate_ca e d r parent s ≡ ok (c, after)
      → Step e s after
  reissued :
      (d : Draw) (c : Ca) (passphrase : String) (validity_days created_by : Option ℕ)
      (status : Approval) (a : Alternate)
      → Elem c s.cas
      → reissue_ca_certificate e d c passphrase validity_days created_by status s ≡ ok (a, after)
      → Step e s after
  crossed :
      (d : Draw) (c issuer : Ca) (passphrase : String) (validity_days created_by : Option ℕ)
      (common_name : Option Text) (status : Approval) (a : Alternate)
      → cross_sign_ca e d c issuer passphrase validity_days created_by common_name status s
        ≡ ok (a, after)
      → Step e s after
  attached :
      (now : ℕ) (c : Ca) (cert : Certificate) (created_by : Option ℕ) (a : Alternate)
      → import_alternate_certificate e.crypto now c cert created_by s ≡ ok (a, after)
      → Step e s after
  approved_alternate :
      (now : ℕ) (c : Ca) (a b : Alternate) (approver : ℕ)
      → Elem c s.cas
      → approve_alternate now c a approver s ≡ ok (b, after)
      → Step e s after
  deleted : (a : Alternate) → after ≡ delete_alternate a s → Step e s after
  row_changed :
      (c changed : Ca)
      → Elem c s.cas
      → node changed ≡ node c
      → changed.name ≡ c.name
      → (c.is_revoked ≡ true → changed.is_revoked ≡ true)
      → after ≡ record s { cas = save_ca changed s.cas }
      → Step e s after

-- What the steps that add no authority do to the rows: nothing, or one row is changed in its place,
-- which keeps its columns and its name and revives nothing.
pub data Rows (s after : Store) : Type 0 where
  as_before : after.cas ≡ s.cas → after.next_ca ≡ s.next_ca → Rows s after
  one_changed :
      (c changed : Ca)
      → Elem c s.cas
      → node changed ≡ node c
      → changed.name ≡ c.name
      → (c.is_revoked ≡ true → changed.is_revoked ≡ true)
      → after.cas ≡ save_ca changed s.cas
      → after.next_ca ≡ s.next_ca
      → Rows s after

same_Rows : (s t after : Store) → t ≡ after → Rows s t → Rows s after
same_Rows s t after e r = rw⁻¹ e r

keep_reissue-Rows :
    (status : Approval) (c : Ca) (row : Alternate) (s : Store)
    → Elem c s.cas
    → Rows s (keep_reissue status c row s).1
unfolding keep_reissue add_alternate promote_reissue with_certificate
keep_reissue-Rows pending c row s m = as_before refl refl
keep_reissue-Rows approved c row s m =
    one_changed c (with_certificate c row) m refl refl (λ h. h) refl refl

reissue-Rows :
    (e : Env) (d : Draw) (c : Ca) (passphrase : String) (validity_days created_by : Option ℕ)
    (status : Approval) (s after : Store) (a : Alternate)
    → Elem c s.cas
    → reissue_ca_certificate e d c passphrase validity_days created_by status s ≡ ok (a, after)
    → Rows s after
unfolding reissue_ca_certificate
reissue-Rows e d c passphrase validity_days created_by status s after a m h =
    let r = bind_ok (reissue_certificate e d c passphrase validity_days s.cas) _ h in
    let row = alternate_from_der s.next_alternate c reissue r.0.0 r.0.1 created_by status d.now in
    let same = ok_unique (ok (keep_reissue status c row s)) refl r.2 in
    same_Rows s (keep_reissue status c row s).1 after (ap (λ (q : Alternate × Store). q.1) same)
      (keep_reissue-Rows status c row s m)

cross-Rows :
    (e : Env) (d : Draw) (c issuer : Ca) (passphrase : String) (validity_days created_by : Option ℕ)
    (common_name : Option Text) (status : Approval) (s after : Store) (a : Alternate)
    → cross_sign_ca e d c issuer passphrase validity_days created_by common_name status s
      ≡ ok (a, after)
    → Rows s after
unfolding cross_sign_ca add_alternate
cross-Rows e d c issuer passphrase validity_days created_by common_name status s after a h =
    let r =
      bind_ok (cross_certificate e d c issuer passphrase validity_days common_name s.cas) _ h in
    let same = ap (λ (q : Alternate × Store). q.1) (ok_unique _ refl r.2) in
    same_Rows s _ after same (as_before refl refl)

attach-Rows :
    (x : Crypto) (now : ℕ) (c : Ca) (cert : Certificate) (created_by : Option ℕ) (s after : Store)
    (a : Alternate)
    → import_alternate_certificate x now c cert created_by s ≡ ok (a, after)
    → Rows s after
unfolding import_alternate_certificate add_alternate
attach-Rows x now c cert created_by s after a h =
    let f =
      guard_ok (not (cert.tbs.public_key.number == c.certificate.tbs.public_key.number))
        key_mismatch _ h in
    let g = guard_ok (not (get_or cert.tbs.basic_ca false)) not_a_ca _ f.1 in
    let k =
      guard_ok
        (cert.tbs.serial == c.serial_number
          || any_of (λ (b : Alternate). b.ca_id == c.id && (b.serial_number == cert.tbs.serial))
              s.alternates)
        already_stored _ g.1 in
    let same = ap (λ (q : Alternate × Store). q.1) (ok_unique _ refl k.1) in
    same_Rows s _ after same (as_before refl refl)

approve-Rows :
    (now : ℕ) (c : Ca) (a b : Alternate) (approver : ℕ) (s after : Store)
    → Elem c s.cas
    → approve_alternate now c a approver s ≡ ok (b, after)
    → Rows s after
unfolding approve_alternate promote_reissue with_certificate add_alternate
approve-Rows now c a b approver s after m h =
    let g = guard_ok (not (is_pending a.signoff.status)) not_pending _ h in
    let row = approved_row a approver now in
    let stored = record s { alternates = save_alternate row s.alternates } in
    let outcome = λ (t : Bool). if t then promote_reissue c row stored else (row, stored) in
    let same = λ (t : Bool) (e : is_reissue a.kind ≡ t).
      ap (λ (q : Alternate × Store). q.1)
        (ok_unique (ok (outcome t)) refl (sym (ap (λ u. ok (outcome u)) e) ∙ g.1)) in
    elim (Bool-cases (is_reissue a.kind)) [
      | inl y ↦
          same_Rows s _ after (same true y)
            (one_changed c (with_certificate c row) m refl refl (λ h. h) refl refl)
      | inr n ↦ same_Rows s _ after (same false n) (as_before refl refl)
    ]

-- What a step is: a new row under the next id, or a change of Rows.
pub data Change (e : Env) (s after : Store) : Type 0 where
  new_root : (d : Draw) (r : Request) (c : Ca) → IssuedRoot e d r s c after → Change e s after
  new_intermediate :
      (d : Draw) (r : Request) (parent c : Ca)
      → Elem parent s.cas
      → IssuedUnder e d r parent s c after
      → Change e s after
  changed : Rows s after → Change e s after

pub Change-of : (e : Env) (s after : Store) → Step e s after → Change e s after
unfolding delete_alternate
Change-of e s after (root d r c h) = new_root d r c (create_root_ca-IssuedRoot e d r s c after h)
Change-of e s after (intermediate d r parent c m h) =
    new_intermediate d r parent c m (create_intermediate_ca-IssuedUnder e d r parent s c after h)
Change-of e s after (reissued d c passphrase validity_days by status a m h) =
    changed (reissue-Rows e d c passphrase validity_days by status s after a m h)
Change-of e s after (crossed d c issuer passphrase validity_days by cn status a h) =
    changed (cross-Rows e d c issuer passphrase validity_days by cn status s after a h)
Change-of e s after (attached now c cert by a h) =
    changed (attach-Rows e.crypto now c cert by s after a h)
Change-of e s after (approved_alternate now c a b approver m h) =
    changed (approve-Rows now c a b approver s after m h)
Change-of e s after (deleted a h) = changed (same_Rows s _ after (sym h) (as_before refl refl))
Change-of e s after (row_changed c d m same name revoked h) =
    changed (same_Rows s _ after (sym h) (one_changed c d m same name revoked refl refl))
