-- ===== src/Authorities/Promotion.antt =====
-- The two ways to a new primary certificate in app/services/ca_service.py: a re-issue that is stored at
-- once, and one that awaits its approval.
use chancery.Prelude.{
  suc, Bool, Bool-cases, [], ◌∷◌, ◌++◌, Elem, here, there, filter_by, inl, inr, ℕ, ◌≡◌, refl, ap,
  String, Option, true, false, not, List, arith, ◌==◌, ok, ok_unique, bind_ok,
}
use mathlib.Core.Path.{subst}
use chancery.Authorities.Types.{
  Certificate, Approval, approved, pending, is_pending, Ca, reissue, Alternate, Store,
}
use chancery.Authorities.Create.{Draw, Env}
use chancery.Authorities.Alternates.{
  alternate_from_der, promote_reissue, reissue_certificate, keep_reissue, reissue_ca_certificate,
  approve_alternate, approved_row, save_alternate, add_alternate, remove_alternate, is_reissue,
  with_certificate, previous_of,
}

-- The store after the pending re-issue and its approval.
abbrev approved_later : ℕ → Ca → Alternate → ℕ → Store → Alternate × Store
approved_later later c row approver s =
    let row' = approved_row row approver later in
    promote_reissue c row' (record s { alternates = save_alternate row' s.alternates })

approve_equation :
    (later : ℕ) (c : Ca) (row : Alternate) (approver : ℕ) (s : Store)
    → is_pending row.signoff.status ≡ true
    → is_reissue row.kind ≡ true
    → approve_alternate later c row approver s ≡ ok (approved_later later c row approver s)
unfolding approve_alternate
approve_equation later c row approver s p k = rw (p, k) refl

reissue_equation :
    (e : Env) (d : Draw) (c : Ca) (passphrase : String) (validity_days created_by : Option ℕ)
    (status : Approval) (s : Store) (r : Certificate × Option ℕ)
    → reissue_certificate e d c passphrase validity_days s.cas ≡ ok r
    → reissue_ca_certificate e d c passphrase validity_days created_by status s
      ≡ ok (
          keep_reissue status c
            (alternate_from_der s.next_alternate c reissue r.0 r.1 created_by status d.now)
            s)
unfolding reissue_ca_certificate
reissue_equation e d c passphrase validity_days created_by status s r h =
    rw (h, reissue_ca_certificate) refl

kept_by :
    (p : Alternate → Bool) (xs : List Alternate) (a : Alternate)
    → Elem a xs
    → p a ≡ true
    → Elem a (filter_by p xs)
kept_by p [] a m h = elim m [ ]
kept_by p (x ∷ xs) a here h = rw h here
kept_by p (x ∷ xs) a (there m) h = elim (Bool-cases (p x)) [
  | inl y ↦ rw y (there (kept_by p xs a m h))
  | inr n ↦ rw n (kept_by p xs a m h)
]

last_there : (xs : List Alternate) (a : Alternate) → Elem a (xs ++ a ∷ [])
last_there [] a = here
last_there (x ∷ xs) a = there (last_there xs a)

-- The `previous` row is in the store that a promotion leaves.
promote_reissue-stored :
    (c : Ca) (row : Alternate) (s : Store)
    → (s.next_alternate == row.id) ≡ false
    → Elem (promote_reissue c row s).0 (promote_reissue c row s).1.alternates
unfolding promote_reissue previous_of add_alternate remove_alternate
promote_reissue-stored c row s n =
    let old = previous_of s.next_alternate c row in
    kept_by (λ (a : Alternate). not (a.id == row.id)) (s.alternates ++ old ∷ []) old
      (last_there s.alternates old) (ground (arith, n))

-- What the two ways come to: the pending alternate is added and leaves the authorities alone, and its
-- approval makes them what the immediate re-issue does; both leave a row with the old certificate
-- among the alternates.
pub record SameOutcome (e : Env) (d : Draw) (c : Ca) (passphrase : String)
    (validity_days created_by : Option ℕ) (later approver : ℕ) (s now_after : Store)
    (now_old : Alternate) : Type 0 where
  pub row : Alternate
  pub waiting : Store
  pub old : Alternate
  pub later_after : Store
  pub is_issued :
      reissue_ca_certificate e d c passphrase validity_days created_by pending s ≡ ok (row, waiting)
  pub unchanged : waiting.cas ≡ s.cas
  pub one_added : waiting.alternates ≡ s.alternates ++ row ∷ []
  pub is_approved : approve_alternate later c row approver waiting ≡ ok (old, later_after)
  pub same_authorities : later_after.cas ≡ now_after.cas
  pub keeps_old : (old.certificate ≡ c.certificate) × Elem old later_after.alternates
  pub keeps_now : (now_old.certificate ≡ c.certificate) × Elem now_old now_after.alternates

-- A re-issue under dual control that is approved later leaves the same authorities as an immediate
-- one. Until then the authorities are as they were and the alternates have the pending row more; after
-- it, and after an immediate one too, the store has an alternate with the old certificate.
pub reissue-approve :
    (e : Env) (d : Draw) (c : Ca) (passphrase : String) (validity_days created_by : Option ℕ)
    (later approver : ℕ) (s now_after : Store) (a : Alternate)
    → reissue_ca_certificate e d c passphrase validity_days created_by approved s
      ≡ ok (a, now_after)
    → SameOutcome e d c passphrase validity_days created_by later approver s now_after a
unfolding reissue_ca_certificate keep_reissue alternate_from_der promote_reissue add_alternate
    with_certificate approved_row previous_of
reissue-approve e d c passphrase validity_days created_by later approver s now_after a h =
    let r = bind_ok (reissue_certificate e d c passphrase validity_days s.cas) _ h in
    let row = alternate_from_der s.next_alternate c reissue r.0.0 r.0.1 created_by pending d.now in
    let waiting = add_alternate row s in
    let same = ap (λ (q : Alternate × Store). q.1.cas) (ok_unique _ refl r.2) in
    let after = approved_later later c row approver waiting in
    let at_once =
      alternate_from_der s.next_alternate c reissue r.0.0 r.0.1 created_by approved d.now in
    let apart : (suc s.next_alternate == s.next_alternate) ≡ false = ground arith in
    let stored = record waiting {
      alternates = save_alternate (approved_row row approver later) waiting.alternates;
    } in
    record {
      row = row;
      waiting = waiting;
      old = after.0;
      later_after = after.1;
      is_issued = reissue_equation e d c passphrase validity_days created_by pending s r.0 r.1;
      unchanged = refl;
      is_approved = approve_equation later c row approver waiting refl refl;
      one_added = refl;
      same_authorities = same;
      keeps_old = (refl, promote_reissue-stored c (approved_row row approver later) stored apart);
      keeps_now =
          subst
            (λ (q : Alternate × Store). (q.0.certificate ≡ c.certificate) × Elem q.0 q.1.alternates)
            (ok_unique _ refl r.2)
            (refl, promote_reissue-stored c at_once (add_alternate at_once s) apart);
    }
