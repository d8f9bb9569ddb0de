-- ===== src/Authorities/Forest.antt =====
-- The stores that the operations of app/services/ca_service.py reach, the import of authorities
-- included: every row is under an older one. What others certified bounds no path length here.
use chancery.Prelude.{
  ℕ, suc, ◌<◌, ◌≡◌, refl, sym, ap, ◌∙◌, String, Option, none, some, Bool, true, false, not, List,
  [], ◌∷◌, map, any_of, All, Elem, get_or, ◌⊎◌, inl, inr, arith, ◌==◌, if◌then◌else◌, ok, ok_unique,
  first_where-Elem, bind_ok, guard_ok, then_ok,
}
use mathlib.Core.Path.{subst}
use chancery.Authorities.Types.{
  Key, Certificate, Ca, Store, find_ca, no_parent, parent_revoked, parent_not_issuer, not_a_ca,
  serial_taken, lift_policy, need, Crypto,
}
use chancery.Issuance.Policy.{enforce_public_key_strength}
use chancery.Authorities.Create.{Env, ensure_name_available, add_ca}
use chancery.Authorities.Created.{need_ok, add_ca-ok}
use chancery.Authorities.CrossSign.{find_parent_by_issuer}
use chancery.Authorities.Bundle.{self_issued}
use chancery.Authorities.Import.{Texts, matches_key, resolve_parent, imported_row, import_ca_object}
use chancery.Authorities.Steps.{Step, Change, new_root, new_intermediate, changed, Change-of}
use chancery.Authorities.Tree.{Node, node, Newest, older, map-Elem}
use chancery.Authorities.Growth.{Rows-Kept}

-- The import of one authority, as it is tried and what it leaves.
pub record Imported (e : Env) (s : Store) (name : String) (c : Ca) (after : Store) : Type 0 where
  pub name_free : ensure_name_available s.cas name ≡ ok tt
  pub stored : after ≡ record s { cas = c ∷ s.cas; next_ca = suc s.next_ca }
  pub new_id : c.id ≡ s.next_ca
  pub named : c.name ≡ name
  pub below : (c.parent_id ≡ none) ⊎ ((p : Ca) × Elem p s.cas × (c.parent_id ≡ some p.id))

-- The parent that an import finds is none, or a row of the store.
abbrev Found : List Ca → Option ℕ → Type 0
Found cas parent = (parent ≡ none) ⊎ ((p : Ca) × Elem p cas × (parent ≡ some p.id))

Found-parent :
    (x : Crypto) (cas : List Ca) (cert : Certificate) (o : Option Ca)
    → find_parent_by_issuer x cas cert ≡ o
    → Found cas (elim o [ none ↦ none | some p ↦ some p.id ])
unfolding find_parent_by_issuer
Found-parent x cas cert none h = inl refl
Found-parent x cas cert (some p) h = inr (p, (first_where-Elem _ cas p h).0, refl)

resolve_parent-Found :
    (x : Crypto) (cas : List Ca) (cert : Certificate) (parent_id : Option ℕ) (parent : Option ℕ)
    → resolve_parent x cas cert parent_id ≡ ok parent
    → Found cas parent
unfolding resolve_parent
resolve_parent-Found x cas cert (some n) parent h =
    let p = bind_ok (need no_parent (find_ca cas (some n))) _ h in
    let a = guard_ok p.0.is_revoked parent_revoked _ p.2 in
    let b = guard_ok (not (x.issued_by cert p.0.certificate)) parent_not_issuer _ a.1 in
    let there_ =
      first_where-Elem (λ (d : Ca). d.id == n) cas p.0
        (need_ok no_parent (find_ca cas (some n)) p.1) in
    inr (p.0, there_.0, sym (ok_unique _ refl b.1))
resolve_parent-Found x cas cert none parent h =
    let same = ok_unique _ refl h in
    let f = Found-parent x cas cert (find_parent_by_issuer x cas cert) refl in
    subst (Found cas) same (choose (self_issued cert) _ f)
  where
    choose : (b : Bool) (o : Option ℕ) → Found cas o → Found cas (if b then none else o)
    choose true o f = inl refl
    choose false o f = f

pub import_ca_object-Imported :
    (e : Env) (t : Texts) (name : String) (cert : Certificate) (key : Option Key)
    (parent_id : Option ℕ) (s : Store) (c : Ca) (after : Store)
    → import_ca_object e t name cert key parent_id s ≡ ok (c, after)
    → Imported e s name c after
unfolding import_ca_object imported_row
import_ca_object-Imported e t name cert key parent_id s c after h =
    let a = guard_ok (not (get_or cert.tbs.basic_ca false)) not_a_ca _ h in
    let b =
      then_ok (lift_policy (enforce_public_key_strength e.limits cert.tbs.public_key.material)) _
        a.1 in
    let k = then_ok (matches_key cert key) _ b.1 in
    let n = then_ok (ensure_name_available s.cas name) _ k.1 in
    let u =
      guard_ok (any_of (λ (d : Ca). d.serial_number == cert.tbs.serial) s.cas) serial_taken _ n.1 in
    let p = bind_ok (resolve_parent e.crypto s.cas cert parent_id) _ u.1 in
    let row = imported_row t s name cert key p.0 in
    let w = bind_ok (add_ca row s) _ p.2 in
    let same = ok_unique _ refl w.2 in
    let is_row : row ≡ c = ap (λ (q : Ca × Store). q.0) same in
    let is_after : w.0 ≡ after = ap (λ (q : Ca × Store). q.1) same in
    let stored = sym is_after ∙ add_ca-ok row s w.0 w.1 in
    subst (λ (q : Ca). Imported e s name q after) is_row
      (record {
        name_free = n.0;
        stored = stored;
        new_id = refl;
        named = refl;
        below = resolve_parent-Found e.crypto s.cas cert parent_id p.0 p.1;
      })

-- The steps and the imports of one authority, from a store without rows. Imports shows that the whole of
-- `import_ca` is made of them.
pub data Grown (e : Env) : Store → Type 0 where
  nothing :
      (n m : ℕ) → Grown e (record { cas = []; alternates = []; next_ca = n; next_alternate = m })
  by_step : {s after : Store} → Grown e s → Step e s after → Grown e after
  by_import :
      {s after : Store} (t : Texts) (name : String) (cert : Certificate) (key : Option Key)
      (parent_id : Option ℕ) (c : Ca)
      → Grown e s
      → import_ca_object e t name cert key parent_id s ≡ ok (c, after)
      → Grown e after

abbrev pub Under : Node → List Node → Type 0
Under n ns = (n.parent_id ≡ none) ⊎ ((p : Node) × Elem p ns × (n.parent_id ≡ some p.id))

-- The newest first: every row is newer than the ones after it, and its parent is one of these.
abbrev pub Forest : List Node → Type 0
Forest [] = Unit
Forest (n ∷ ns) = All (λ m. m.id < n.id) ns × Under n ns × Forest ns

pub Forest-Newest : (ns : List Node) → Forest ns → Newest ns
Forest-Newest [] t = tt
Forest-Newest (n ∷ ns) t = (t.0, Forest-Newest ns t.2)

pub record Ordered (s : Store) : Type 0 where
  pub below_next : All (λ n. n.id < s.next_ca) (map node s.cas)
  pub forest : Forest (map node s.cas)

added-Ordered :
    (s : Store) (c : Ca)
    → Ordered s
    → c.id ≡ s.next_ca
    → Under (node c) (map node s.cas)
    → Ordered (record s { cas = c ∷ s.cas; next_ca = suc s.next_ca })
added-Ordered s c w e p = record {
  below_next = (omega (arith, e), older s.next_ca (map node s.cas) w.below_next);
  forest = (rw e w.below_next, p, w.forest);
}

Change-Ordered : (e : Env) (s after : Store) → Ordered s → Change e s after → Ordered after
Change-Ordered e s after w (new_root d r c i) =
    rw (i.stored) (added-Ordered s c w i.new_id (inl i.top))
Change-Ordered e s after w (new_intermediate d r parent c m i) =
    rw (i.stored)
      (added-Ordered s c w i.new_id (inr (node parent, map-Elem parent s.cas m, i.below)))
Change-Ordered e s after w (changed r) =
    let k = Rows-Kept s after (Forest-Newest (map node s.cas) w.forest) r in
    record { below_next = rw (k.0, k.1) w.below_next; forest = rw (k.0) w.forest }

Imported-Ordered :
    (e : Env) (s : Store) (name : String) (c : Ca) (after : Store)
    → Ordered s
    → Imported e s name c after
    → Ordered after
Imported-Ordered e s name c after w i = rw (i.stored) (added-Ordered s c w i.new_id (under i.below))
  where
    under : Found s.cas c.parent_id → Under (node c) (map node s.cas)
    under (inl top) = inl top
    under (inr (p, m, b)) = inr (node p, map-Elem p s.cas m, b)

pub Grown-Ordered : (e : Env) (s : Store) → Grown e s → Ordered s
Grown-Ordered e s (nothing n m) = record { below_next = tt; forest = tt }
Grown-Ordered e s (by_step {s = before} g step) =
    Change-Ordered e before s (Grown-Ordered e before g) (Change-of e before s step)
Grown-Ordered e s (by_import {s = before} t name cert key parent_id c g h) =
    Imported-Ordered e before name c s (Grown-Ordered e before g)
      (import_ca_object-Imported e t name cert key parent_id before c s h)
