-- ===== src/Authorities/Descent.antt =====
-- The loop of `cross_sign_ca` of app/services/ca_service.py over the issuer's parents. It keeps no
-- record of the rows it has seen, and ends because every parent is older than its child.
use chancery.Prelude.{
  ℕ, zero, suc, ◌≤◌, ◌<◌, ◌≡◌, refl, sym, ap, ◌∙◌, Option, none, some, Bool, true, false, List, [],
  ◌∷◌, map, length, count_where, All-Elem, Elem, here, there, Option-cases, none-not_some, inl, inr,
  ◌↔◌, arith, ltb, ◌==◌, ==_iff, Bool-cases, some_unique, first_where-Elem,
}
use chancery.Authorities.Types.{Ca, Store, find_ca, parent_of}
use chancery.Authorities.Reaches.{Above, at, up, parent_of-Inside}
use chancery.Authorities.CrossSign.{descends}
use chancery.Authorities.Create.{Env}
use chancery.Authorities.Tree.{Node, node, map-Elem}
use chancery.Authorities.Forest.{Grown, Forest, Grown-Ordered}

older_parent :
    (c : Node) (i : ℕ) (ns : List Node) → Forest ns → Elem c ns → c.parent_id ≡ some i → i < c.id
older_parent c i [] t m e = elim m [ ]
older_parent c i (n ∷ ns) t here e = elim t.1 [
  | inl top ↦ none-not_some n.parent_id top e
  | inr (p, m, q) ↦
      let less = All-Elem (λ (x : Node). x.id < n.id) t.0 m in
      let same : i ≡ p.id = some_unique (sym e ∙ q) in omega (arith, less, same)
]
older_parent c i (n ∷ ns) t (there m) e = older_parent c i ns t.2 m e

-- The parent of a row is an older row.
abbrev pub OlderParents : List Ca → Type 0
OlderParents cas = (c p : Ca) → Elem c cas → parent_of cas c ≡ some p → Elem p cas × (p.id < c.id)

Forest-OlderParents : (cas : List Ca) → Forest (map node cas) → OlderParents cas
Forest-OlderParents cas t c p m h = (
  parent_of-Inside cas c p h,
  elim (Option-cases c.parent_id) [
    | inl e ↦ none-not_some none refl (sym (ap (find_ca cas) e) ∙ h)
    | inr (i, e) ↦
        let found = first_where-Elem (λ (d : Ca). d.id == i) cas p (sym (ap (find_ca cas) e) ∙ h) in
        let same : p.id ≡ i = (==_iff p.id i).0 found.1 in
        let less = older_parent (node c) i (map node cas) t (map-Elem c cas m) e in
        omega (arith, same, less)
  ],
)

older_count : ℕ → List Ca → ℕ
older_count n = count_where (λ d. ltb d.id n)

older_count-le : (m n : ℕ) (cas : List Ca) → m ≤ n → older_count m cas ≤ older_count n cas
unfolding older_count
older_count-le m n [] l = omega arith
older_count-le m n (d ∷ cas) l = ground (arith, l, older_count-le m n cas l)

older_count-less :
    (p : Ca) (n : ℕ) (cas : List Ca)
    → Elem p cas
    → p.id < n
    → older_count p.id cas < older_count n cas
unfolding older_count
older_count-less p n [] m l = elim m [ ]
older_count-less p n (d ∷ cas) here l =
    let rest = older_count-le p.id n cas (omega (arith, l)) in ground (arith, l, rest)
older_count-less p n (d ∷ cas) (there m) l = ground (arith, l, older_count-less p n cas m l)

older_count-length : (n : ℕ) (cas : List Ca) → older_count n cas ≤ length cas
unfolding older_count
older_count-length n [] = omega arith
older_count-length n (d ∷ cas) = ground (arith, older_count-length n cas)

-- The target is the row or above it.
abbrev pub IsAbove : List Ca → ℕ → Ca → Type 0
IsAbove cas target c = (a : Ca) × (k : ℕ) × Above (parent_of cas) a c k × (a.id ≡ target)

abbrev Decides : List Ca → ℕ → Ca → Option Bool → Type 0
Decides cas target c o = (b : Bool) × (o ≡ some b) × ((b ≡ true) ↔ IsAbove cas target c)

descends-met :
    (fuel : ℕ) (cas : List Ca) (target : ℕ) (c : Ca)
    → (c.id == target) ≡ true
    → descends fuel cas target (some c) ≡ some true
unfolding descends
descends-met zero cas target c y = rw y refl
descends-met (suc fuel) cas target c y = rw y refl

descends-next :
    (fuel : ℕ) (cas : List Ca) (target : ℕ) (c : Ca)
    → (c.id == target) ≡ false
    → descends (suc fuel) cas target (some c) ≡ descends fuel cas target (parent_of cas c)
unfolding descends
descends-next fuel cas target c n = rw (n, descends) refl

descends-top : (fuel : ℕ) (cas : List Ca) (target : ℕ) → descends fuel cas target none ≡ some false
unfolding descends
descends-top fuel cas target = refl

IsAbove-row :
    (cas : List Ca) (target : ℕ) (c : Ca)
    → (c.id == target) ≡ false
    → IsAbove cas target c
    → (p : Ca) × (parent_of cas c ≡ some p) × IsAbove cas target p
IsAbove-row cas target c n (a, zero, at, e) = let same = (==_iff a.id target).1 e in cc
IsAbove-row cas target c n (a, suc k, up {d = p} step path, e) = (p, step, (a, k, path, e))

decides :
    (fuel : ℕ) (cas : List Ca) (target : ℕ) (c : Ca)
    → OlderParents cas
    → Elem c cas
    → older_count c.id cas < fuel
    → Decides cas target c (descends fuel cas target (some c))
decides zero cas target c older m l = absurd (omega (arith, l))
decides (suc fuel) cas target c older m l = elim (Bool-cases (c.id == target)) [
  | inl y ↦ (
    true,
    descends-met (suc fuel) cas target c y,
    (λ h. (c, 0, at, (==_iff c.id target).0 y), λ h. refl),
  )
  | inr n ↦ elim (Option-cases (parent_of cas c)) [
    | inl e ↦ (
      false,
      descends-next fuel cas target c n
          ∙ ap (descends fuel cas target) e
          ∙ descends-top fuel cas target,
      (λ h. cc, λ h. let r = IsAbove-row cas target c n h in none-not_some (parent_of cas c) e r.1),
    )
    | inr (p, e) ↦
        let o = older c p m e in
        let less = older_count-less p c.id cas o.0 o.1 in
        let rest = decides fuel cas target p older o.0 (omega (arith, less, l)) in
        (
          rest.0,
          descends-next fuel cas target c n ∙ ap (descends fuel cas target) e ∙ rest.1,
          (
            λ h. let r = rest.2.0 h in (r.0, suc r.1, up e r.2, r.3),
            λ h.
                let r = IsAbove-row cas target c n h in
                let same : r.0 ≡ p = some_unique (sym r.1 ∙ e) in rest.2.1 (rw⁻¹ same r.2),
          ),
        )
  ]
]

-- However a store without rows grew, imports included, the loop over the parents of an issuer in it
-- ends, without a record of the rows it has seen, and it finds the authority exactly where that is the
-- issuer or above it.
pub descends_decides :
    (e : Env) (s : Store) (target : ℕ) (issuer : Ca)
    → Grown e s
    → Elem issuer s.cas
    → (b : Bool) × (descends (suc (length s.cas)) s.cas target (some issuer) ≡ some b)
      × ((b ≡ true) ↔ IsAbove s.cas target issuer)
descends_decides e s target issuer r m =
    decides (suc (length s.cas)) s.cas target issuer
      (Forest-OlderParents s.cas (Grown-Ordered e s r).forest) m
      (omega (arith, older_count-length issuer.id s.cas))
