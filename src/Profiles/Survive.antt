-- ===== src/Profiles/Survive.antt =====
-- What the operations on profiles never remove.
use chancery.Prelude.{
  ℕ, ◌≡◌, refl, sym, ◌∙◌, none, some, Bool, true, false, ◌||◌, List, [], ◌∷◌, ◌++◌, Elem, here,
  there, inl, inr, ◌==◌, Bool-cases, ok, refuse_if, if_true, if_false, guard_ok,
}
use mathlib.Core.Path.{subst}
use chancery.Profiles.Enforce.{Profile, builtin_kept, in_use}
use chancery.Profiles.Permits.{refuse_if-ok}
use chancery.Profiles.Manage.{
  Fields, validate, apply_fields, create_profile, put_row, update_profile, may_delete,
  delete_profile,
}
use chancery.Profiles.Sound.{
  delete_profile-cases, checked-empty, Change, created, updated, deleted, Changes, unchanged,
  then_change,
}

-- A row with the id, the key and the origin of this one is in the table.
abbrev pub Kept : Profile → List Profile → Type 0
Kept p rows =
    (q : Profile) × Elem q rows × (q.id ≡ p.id) × (q.key ≡ p.key) × (q.is_builtin ≡ p.is_builtin)

-- What `delete` refuses: a built-in row, and one that certificates or CSRs refer to.
abbrev pub Protected : (ℕ → Bool) → Profile → Type 0
Protected is_used p = (p.is_builtin || is_used p.id) ≡ true

Kept-cons : (p q : Profile) {rows : List Profile} → Kept p rows → Kept p (q ∷ rows)
Kept-cons p q k = (k.0, there k.1, k.2, k.3, k.4)

Kept-append : (p : Profile) (rows more : List Profile) → Elem p rows → Kept p (rows ++ more)
Kept-append p [] more m = elim m [ ]
Kept-append p (q ∷ rows) more here = (p, here, refl, refl, refl)
Kept-append p (q ∷ rows) more (there m) = Kept-cons p q (Kept-append p rows more m)

put_row-Kept :
    (id : ℕ) (f : Fields) (p : Profile) (rows : List Profile)
    → Elem p rows
    → Kept p (put_row id f rows)
unfolding apply_fields
put_row-Kept id f p [] m = elim m [ ]
put_row-Kept id f p (q ∷ rows) here = elim (Bool-cases (p.id == id)) [
  | inl y ↦
      subst (λ r. Kept p (r ∷ put_row id f rows)) (sym (if_true (p.id == id) _ _ y))
        (apply_fields p f, here, refl, refl, refl)
  | inr n ↦
      subst (λ r. Kept p (r ∷ put_row id f rows)) (sym (if_false (p.id == id) _ _ n))
        (p, here, refl, refl, refl)
]
put_row-Kept id f p (q ∷ rows) (there m) = Kept-cons p _ (put_row-Kept id f p rows m)

may_delete-Protected :
    {C : Type 0} (is_used : ℕ → Bool) (p : Profile)
    → may_delete is_used p ≡ ok tt
    → Protected is_used p
    → C
may_delete-Protected is_used p h k =
    let g = guard_ok p.is_builtin builtin_kept (refuse_if (is_used p.id) in_use) h in
    let u = refuse_if-ok (is_used p.id) in_use g.1 in
    let n : false ≡ true = sym (rw (g.0, u) refl) ∙ k in cc

delete_profile-Kept :
    (is_used : ℕ → Bool) (id : ℕ) (p : Profile) (rows : List Profile) {after : List Profile}
    → Protected is_used p
    → Elem p rows
    → delete_profile is_used id rows ≡ ok after
    → Kept p after
delete_profile-Kept is_used id p [] k m h = elim m [ ]
delete_profile-Kept is_used id p (q ∷ rows) {after} k here h =
    elim (delete_profile-cases is_used id q rows h) [
      | inl t ↦ may_delete-Protected is_used q t.0 k
      | inr t ↦ subst (Kept q) t.2 (q, here, refl, refl, refl)
    ]
delete_profile-Kept is_used id p (q ∷ rows) {after} k (there m) h =
    elim (delete_profile-cases is_used id q rows h) [
      | inl t ↦ subst (Kept p) t.1 (p, m, refl, refl, refl)
      | inr t ↦ subst (Kept p) t.2 (Kept-cons p q (delete_profile-Kept is_used id p rows k m t.1))
    ]

Change-Kept :
    {is_used : ℕ → Bool} (p : Profile) {rows after : List Profile}
    → Change is_used rows after
    → Protected is_used p
    → Elem p rows
    → Kept p after
unfolding create_profile update_profile
Change-Kept p (created id key f {rows} h) k m =
    subst (Kept p) (checked-empty (validate rows f none) _ h).1 (Kept-append p rows _ m)
Change-Kept p (updated id f {rows} h) k m =
    subst (Kept p) (checked-empty (validate rows f (some id)) _ h).1 (put_row-Kept id f p rows m)
Change-Kept {is_used} p (deleted id {rows} h) k m = delete_profile-Kept is_used id p rows k m h

-- A built-in profile, and one that certificates or CSRs refer to, is in the table with its id and key
-- after any sequence of operations.
pub Changes-Kept :
    {is_used : ℕ → Bool} {start rows : List Profile} (p : Profile)
    → Changes is_used start rows
    → Protected is_used p
    → Elem p start
    → Kept p rows
Changes-Kept p unchanged k m = (p, m, refl, refl, refl)
Changes-Kept {is_used} p (then_change r s) k m =
    let q = Changes-Kept p r k m in
    let protected : Protected is_used q.0 = rw (q.2, q.4) k in
    let a = Change-Kept q.0 s protected q.1 in (a.0, a.1, a.2 ∙ q.2, a.3 ∙ q.3, a.4 ∙ q.4)
