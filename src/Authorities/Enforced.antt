-- ===== src/Authorities/Enforced.antt =====
-- What `check_names` and `enforce` of app/services/name_constraints.py accept.
use chancery.Prelude.{
  ℕ, suc, ◌≡◌, refl, sym, ap, ◌∙◌, Option, none, some, Bool, true, false, not, ◌&&◌, List, [], ◌∷◌,
  length, any_of, Elem, inl, inr, ◌↔◌, if◌then◌else◌, Result, ok, raise, raise_not_ok, Result-cases,
  some_unique, for_each, for_each-ok, ok-for_each, any_of-false, any_of-none, any_of-found,
  any_of-Elem, length-filter_by-any, any_of-filter_by,
}
use chancery.Authorities.Types.{
  Text, same_kind, Entry, Constraints, Ca, CaError, excluded_name, outside_permitted, parent_of,
}
use chancery.Authorities.Names.{NameLib, within, requested_names}
use chancery.Authorities.Walk.{lineage, lineage_ends}
use chancery.Authorities.Reaches.{Above, Known, lineage_complete, lineage_sound, parent_of-Inside}
use chancery.Authorities.Constraints.{matches, check_name, check_names, enforce}

-- A name is in no excluded subtree of its kind and, where there are permitted ones of its kind, in
-- one of them.
pub record Allowed (lib : NameLib) (c : Constraints) (n : Entry) : Type 0 where
  pub not_excluded : (e : Entry) → Elem e c.excluded → matches lib n e ≡ false
  pub permitted :
      (e : Entry)
      → Elem e c.permitted
      → same_kind e.kind n.kind ≡ true
      → (p : Entry) × Elem p c.permitted × (matches lib n p ≡ true)

abbrev pub AllowedBy : NameLib → Option Constraints → Entry → Type 0
AllowedBy lib none n = Unit
AllowedBy lib (some c) n = Allowed lib c n

kin : Constraints → Entry → Bool
kin c n = any_of (λ p. same_kind p.kind n.kind) c.permitted

decided : Bool → Bool → Bool → Result CaError (Unit {0})
decided ex k hit =
    if ex then raise excluded_name else if k && not hit then raise outside_permitted else ok tt

check_name-decided :
    (lib : NameLib) (c : Constraints) (n : Entry)
    → check_name lib c n
      ≡ decided (any_of (matches lib n) c.excluded) (kin c n) (any_of (matches lib n) c.permitted)
unfolding check_name decided kin
check_name-decided lib c n =
    rw
      (
        length-filter_by-any (λ (p : Entry). same_kind p.kind n.kind) c.permitted,
        any_of-filter_by (λ (p : Entry). same_kind p.kind n.kind)
            (λ (p : Entry). within lib n.kind n.value p.value) c.permitted,
      )
      refl

decided_ok : (ex k hit : Bool) → decided ex k hit ≡ ok tt → (ex ≡ false) × (k ≡ true → hit ≡ true)
unfolding decided
decided_ok true k hit h = raise_not_ok _ refl h
decided_ok false true true h = (refl, λ e. refl)
decided_ok false true false h = raise_not_ok _ refl h
decided_ok false false hit h = (refl, λ e. cc)

ok_decided : (ex k hit : Bool) → ex ≡ false → (k ≡ true → hit ≡ true) → decided ex k hit ≡ ok tt
unfolding decided
ok_decided true k hit e f = cc
ok_decided false true true e f = refl
ok_decided false true false e f = let g = f refl in cc
ok_decided false false hit e f = refl

check_name-Allowed :
    (lib : NameLib) (c : Constraints) (n : Entry) → check_name lib c n ≡ ok tt → Allowed lib c n
unfolding kin
check_name-Allowed lib c n h =
    let d = decided_ok _ _ _ (sym (check_name-decided lib c n) ∙ h) in
    record {
      not_excluded = λ e m. any_of-false (matches lib n) c.excluded e d.0 m;
      permitted = λ e m k.
          any_of-found (matches lib n) c.permitted
            (d.1 (any_of-Elem (λ (p : Entry). same_kind p.kind n.kind) c.permitted e m k));
    }

Allowed-check_name :
    (lib : NameLib) (c : Constraints) (n : Entry) → Allowed lib c n → check_name lib c n ≡ ok tt
unfolding kin
Allowed-check_name lib c n a =
    check_name-decided lib c n
    ∙ ok_decided _ _ _ (any_of-none (matches lib n) c.excluded a.not_excluded) (λ k.
      let r = any_of-found (λ (p : Entry). same_kind p.kind n.kind) c.permitted k in
      let s = a.permitted r.0 r.1 r.2 in any_of-Elem (matches lib n) c.permitted s.0 s.1 s.2)

check_names-AllowedBy :
    (lib : NameLib) (names : List Entry) (c : Option Constraints)
    → check_names lib names c ≡ ok tt
    → (n : Entry) → Elem n names
    → AllowedBy lib c n
unfolding check_names
check_names-AllowedBy lib names none h n m = tt
check_names-AllowedBy lib names (some c) h n m =
    check_name-Allowed lib c n (for_each-ok (check_name lib c) names h n m)

AllowedBy-check_names :
    (lib : NameLib) (names : List Entry) (c : Option Constraints)
    → ((n : Entry) → Elem n names → AllowedBy lib c n)
    → check_names lib names c ≡ ok tt
unfolding check_names
AllowedBy-check_names lib names none h = refl
AllowedBy-check_names lib names (some c) h =
    ok-for_each (check_name lib c) names (λ n m. Allowed-check_name lib c n (h n m))

-- Every name is allowed by every authority that the parents lead to.
abbrev pub AllowedAbove : NameLib → List Ca → Ca → List Entry → Type 0
AllowedAbove lib cas c names =
    (a : Ca) (k : ℕ)
    → Above (parent_of cas) a c k
    → (n : Entry) → Elem n names
    → AllowedBy lib a.name_constraints n

enforce_equation :
    (lib : NameLib) (cas : List Ca) (c : Ca) (cn : Option Text) (sans : List Text)
    (names : List Entry) (cs : List Ca)
    → requested_names cn sans ≡ ok names
    → lineage (suc (length cas)) (parent_of cas) [] (some c) ≡ some cs
    → enforce lib cas c cn sans ≡ some (for_each (λ d. check_names lib names d.name_constraints) cs)
unfolding enforce
enforce_equation lib cas c cn sans [] cs r e = rw (r, enforce) (ap some (sym (quiet cs)))
  where
    quiet : (cs : List Ca) → for_each (λ d. check_names lib [] d.name_constraints) cs ≡ ok tt
    quiet cs =
        ok-for_each (λ d. check_names lib [] d.name_constraints) cs
          (λ a m. AllowedBy-check_names lib [] a.name_constraints (λ n k. elim k [ ]))
enforce_equation lib cas c cn sans (n ∷ names) cs r e = rw (r, enforce, e) refl

enforce_refused :
    (lib : NameLib) (cas : List Ca) (c : Ca) (cn : Option Text) (sans : List Text) (p : CaError)
    → requested_names cn sans ≡ raise p
    → enforce lib cas c cn sans ≡ some (raise p)
unfolding enforce
enforce_refused lib cas c cn sans p e = rw (e, enforce) refl

-- A request whose names all parse is accepted exactly where, for the issuing authority and every
-- authority that the parents lead to, none of its names is in an excluded subtree, and each is in a
-- permitted one where there are permitted ones of its kind. An authority without constraints allows
-- every name.
pub enforce-accepts :
    (lib : NameLib) (cas : List Ca) (c : Ca) (cn : Option Text) (sans : List Text)
    (names : List Entry)
    → Known cas c
    → requested_names cn sans ≡ ok names
    → (enforce lib cas c cn sans ≡ some (ok tt)) ↔ AllowedAbove lib cas c names
enforce-accepts lib cas c cn sans names kc r =
    let walk = lineage_ends (parent_of cas) cas (some c) (parent_of-Inside cas) in
    let eq = enforce_equation lib cas c cn sans names walk.0 r walk.1 in
    let check = λ (d : Ca). check_names lib names d.name_constraints in
    (
      λ h a k path n m.
          check_names-AllowedBy lib names a.name_constraints
            (for_each-ok check walk.0 (some_unique (sym eq ∙ h)) a
              (lineage_complete _ cas c a walk.0 k kc walk.1 path))
            n m,
      λ h.
          eq
          ∙ ap some (
              ok-for_each check walk.0 (λ a m.
                let p = lineage_sound _ (parent_of cas) [] c a walk.0 walk.1 m in
                AllowedBy-check_names lib names a.name_constraints (λ n k. h a p.0 p.1 n k))),
    )

-- `enforce` ends in a store of any shape, cycles of parents included.
pub enforce_ends :
    (lib : NameLib) (cas : List Ca) (c : Ca) (cn : Option Text) (sans : List Text)
    → (r : Result CaError (Unit {0})) × (enforce lib cas c cn sans ≡ some r)
enforce_ends lib cas c cn sans = elim (Result-cases (requested_names cn sans)) [
  | inl (names, e) ↦
      let walk = lineage_ends (parent_of cas) cas (some c) (parent_of-Inside cas) in
      (_, enforce_equation lib cas c cn sans names walk.0 e walk.1)
  | inr (p, e) ↦ (raise p, enforce_refused lib cas c cn sans p e)
]
