-- ===== src/Authorities/Unique.antt =====
-- The names of the authorities that are not revoked, under the operations of
-- app/services/ca_service.py.
use chancery.Prelude.{
  ◌<◌, ◌≡◌, refl, sym, ap, ◌∙◌, String, Bool, true, false, not, ◌&&◌, List, [], ◌∷◌, map, any_of,
  All-Elem, Elem, here, there, inl, inr, arith, ◌==◌, ==_iff, Bool-cases, str_eq, ok, refuse_if,
  raise_not_ok,
}
use chancery.Authorities.Types.{Ca, Store, name_taken}
use chancery.Authorities.Create.{Env, ensure_name_available}
use chancery.Authorities.Alternates.{save_ca}
use chancery.Authorities.Tree.{Node, node, Newest, map-Elem}
use chancery.Authorities.Steps.{
  as_before, one_changed, Change, new_root, new_intermediate, changed, Change-of,
}
use chancery.Authorities.Forest.{
  Grown, nothing, by_step, by_import, import_ca_object-Imported, Forest-Newest, Grown-Ordered,
}

abbrev pub has_active : String → Ca → Bool
has_active name c = str_eq c.name name && not c.is_revoked

-- No two authorities that are not revoked have one name.
abbrev pub ActiveNamesUnique : List Ca → Type 0
ActiveNamesUnique [] = Unit
ActiveNamesUnique (c ∷ cas) =
    (c.is_revoked ≡ false → any_of (has_active c.name) cas ≡ false) × ActiveNamesUnique cas

free_name :
    (cas : List Ca) (name : String)
    → ensure_name_available cas name ≡ ok tt
    → any_of (has_active name) cas ≡ false
unfolding ensure_name_available
free_name cas name h = free (any_of (has_active name) cas) h
  where
    free : (b : Bool) → refuse_if b name_taken ≡ ok tt → b ≡ false
    free true h = raise_not_ok _ refl h
    free false h = refl

added-ActiveNamesUnique :
    (c : Ca) (cas : List Ca) (name : String)
    → ensure_name_available cas name ≡ ok tt
    → c.name ≡ name
    → ActiveNamesUnique cas
    → ActiveNamesUnique (c ∷ cas)
added-ActiveNamesUnique c cas name h e u = (λ a. rw e (free_name cas name h), u)

-- A changed row that keeps its name and revives nothing.
abbrev SameName : Ca → List Ca → Type 0
SameName c cas =
    (d : Ca)
    → Elem d cas
    → d.id ≡ c.id
    → (d.name ≡ c.name) × (d.is_revoked ≡ true → c.is_revoked ≡ true)

still_free :
    (name : String) (c : Ca) (cas : List Ca)
    → SameName c cas
    → any_of (has_active name) cas ≡ false
    → any_of (has_active name) (save_ca c cas) ≡ false
unfolding save_ca
still_free name c [] s h = h
still_free name c (d ∷ cas) s h =
    let rest : any_of (has_active name) cas ≡ false = ground (arith, h) in
    let after = still_free name c cas (λ x m. s x (there m)) rest in
    elim (Bool-cases (d.id == c.id)) [
      | inl y ↦
          let k = s d here ((==_iff d.id c.id).0 y) in
          let same = ap (λ t. str_eq t name) (k.0) in
          let revoked = k.1 in rw y (ground (arith, h, after, same, revoked))
      | inr n ↦ rw n (ground (arith, h, after))
    ]

saved-ActiveNamesUnique :
    (c : Ca) (cas : List Ca)
    → SameName c cas
    → ActiveNamesUnique cas
    → ActiveNamesUnique (save_ca c cas)
unfolding save_ca
saved-ActiveNamesUnique c [] s u = tt
saved-ActiveNamesUnique c (d ∷ cas) s u =
    let rest = saved-ActiveNamesUnique c cas (λ x m. s x (there m)) u.1 in
    let free = λ (name : String). still_free name c cas (λ x m. s x (there m)) in
    elim (Bool-cases (d.id == c.id)) [
      | inl y ↦
          let k = s d here ((==_iff d.id c.id).0 y) in
          let kept = λ (a : c.is_revoked ≡ false). active d c k.1 a in
          rw y
            (λ a. free c.name (sym (ap (λ n. any_of (has_active n) cas) k.0) ∙ u.0 (kept a)), rest)
      | inr n ↦ rw n (λ a. free d.name (u.0 a), rest)
    ]
  where
    active :
        (d c : Ca)
        → (d.is_revoked ≡ true → c.is_revoked ≡ true)
        → c.is_revoked ≡ false
        → d.is_revoked ≡ false
    active d c f a = elim (Bool-cases d.is_revoked) [
      | inl y ↦ absurd (clash (sym (f y) ∙ a))
      | inr n ↦ n
    ]
      where
        clash : true ≡ false → ⊥
        clash h = cc

unique_row :
    (c d : Ca) (cas : List Ca)
    → Newest (map node cas)
    → Elem c cas
    → Elem d cas
    → c.id ≡ d.id
    → c ≡ d
unique_row c d [] t m o e = elim m [ ]
unique_row c d (x ∷ cas) t here here e = refl
unique_row c d (x ∷ cas) t here (there o) e =
    let less = All-Elem (λ (n : Node). n.id < x.id) t.0 (map-Elem d cas o) in
    absurd (omega (arith, less, e))
unique_row c d (x ∷ cas) t (there m) here e =
    let less = All-Elem (λ (n : Node). n.id < x.id) t.0 (map-Elem c cas m) in
    absurd (omega (arith, less, e))
unique_row c d (x ∷ cas) t (there m) (there o) e = unique_row c d cas t.1 m o e

changed-SameName :
    (c d : Ca) (cas : List Ca)
    → Newest (map node cas)
    → Elem c cas
    → node d ≡ node c
    → d.name ≡ c.name
    → (c.is_revoked ≡ true → d.is_revoked ≡ true)
    → SameName d cas
changed-SameName c d cas t m same name revoked x o e =
    let row = unique_row x c cas t o m (e ∙ ap (λ (n : Node). n.id) same) in
    (
      ap (λ (r : Ca). r.name) row ∙ sym name,
      λ h. revoked (sym (ap (λ (r : Ca). r.is_revoked) row) ∙ h),
    )

Change-ActiveNamesUnique :
    (e : Env) (s after : Store)
    → Newest (map node s.cas)
    → ActiveNamesUnique s.cas
    → Change e s after
    → ActiveNamesUnique after.cas
Change-ActiveNamesUnique e s after w u (new_root d r c i) =
    rw (i.stored) (added-ActiveNamesUnique c s.cas r.name i.name_free i.named u)
Change-ActiveNamesUnique e s after w u (new_intermediate d r parent c m i) =
    rw (i.stored) (added-ActiveNamesUnique c s.cas r.name i.authorised.name_free i.named u)
Change-ActiveNamesUnique e s after w u (changed (as_before same n)) = rw same u
Change-ActiveNamesUnique e s after w u (changed (one_changed c d m same name revoked h n)) =
    rw h (saved-ActiveNamesUnique d s.cas (changed-SameName c d s.cas w m same name revoked) u)

-- However a store without rows grew, by creations, imports, re-issues, cross-signatures, approvals,
-- deletions and changes of a row that keep its name and revive nothing, no two authorities that are
-- not revoked have one name.
pub Grown-ActiveNamesUnique : (e : Env) (s : Store) → Grown e s → ActiveNamesUnique s.cas
Grown-ActiveNamesUnique e s (nothing n m) = tt
Grown-ActiveNamesUnique e s (by_step {s = before} g step) =
    Change-ActiveNamesUnique e before s
      (Forest-Newest (map node before.cas) (Grown-Ordered e before g).forest)
      (Grown-ActiveNamesUnique e before g) (Change-of e before s step)
Grown-ActiveNamesUnique e s (by_import {s = before} t name cert key parent_id c g h) =
    let i = import_ca_object-Imported e t name cert key parent_id before c s h in
    rw (i.stored) (
      added-ActiveNamesUnique c before.cas name i.name_free i.named
        (Grown-ActiveNamesUnique e before g))
