-- ===== src/Authorities/Reaches.antt =====
-- The rows that the loop of Walk visits are those that the parents lead to (app/services/ca_service.py,
-- app/services/name_constraints.py).
use chancery.Prelude.{
  ℕ, zero, suc, ◌≤◌, ◌<◌, ◌≡◌, refl, sym, ap, ◌∙◌, Option, none, some, true, false, List, [], ◌∷◌,
  Elem, here, there, Option-cases, none-not_some, ◌⊎◌, inl, inr, arith, ◌==◌, ==_iff, Bool-cases,
  if_false, some_unique, first_where-Elem,
}
use chancery.Authorities.Types.{Ca, find_ca, parent_of}
use chancery.Authorities.Walk.{lineage, lineage-stops, is_seen, Inside}

-- `a` is reached from `c` in so many steps.
pub data Above (next : Ca → Option Ca) (a : Ca) : Ca → ℕ → Type 0 where
  at : Above next a a 0
  up : {c d : Ca} {k : ℕ} → next c ≡ some d → Above next a d k → Above next a c (suc k)

-- The row that its id finds.
abbrev pub Known : List Ca → Ca → Type 0
Known cas c = find_ca cas (some c.id) ≡ some c

pub find_ca-Known : (cas : List Ca) (n : Option ℕ) (d : Ca) → find_ca cas n ≡ some d → Known cas d
find_ca-Known cas none d h = none-not_some none refl h
find_ca-Known cas (some n) d h =
    let same : d.id ≡ n = ground (arith, (first_where-Elem (λ (c : Ca). c.id == n) cas d h).1) in
    ap (find_ca cas) (ap some same) ∙ h

pub parent_of-Inside : (cas : List Ca) → Inside cas (parent_of cas)
parent_of-Inside cas c d h = inside c.parent_id h
  where
    inside : (n : Option ℕ) → find_ca cas n ≡ some d → Elem d cas
    inside none e = none-not_some none refl e
    inside (some n) e = (first_where-Elem (λ (c : Ca). c.id == n) cas d e).0

same_row : (cas : List Ca) (b c : Ca) → Known cas b → Known cas c → b.id ≡ c.id → b ≡ c
same_row cas b c kb kc e = some_unique (sym kb ∙ ap (λ n. find_ca cas (some n)) e ∙ kc)

lineage-fresh :
    (fuel : ℕ) (next : Ca → Option Ca) (seen : List ℕ) (c : Ca) (cs : List Ca)
    → is_seen seen c.id ≡ false
    → lineage fuel next seen (some c) ≡ some cs
    → (f : ℕ) × (rest : List Ca) × (lineage f next (c.id ∷ seen) (next c) ≡ some rest)
      × (cs ≡ c ∷ rest)
unfolding lineage
lineage-fresh zero next seen c cs n h =
    none-not_some none refl (sym (if_false (is_seen seen c.id) (some []) none n) ∙ h)
lineage-fresh (suc fuel) next seen c cs n h =
    elim (Option-cases (lineage fuel next (c.id ∷ seen) (next c))) [
      | inl e ↦ none-not_some none refl (sym (left e) ∙ h)
      | inr (rest, e) ↦ (fuel, rest, e, some_unique (sym h ∙ right rest e))
    ]
  where
    left :
        lineage fuel next (c.id ∷ seen) (next c) ≡ none
        → lineage (suc fuel) next seen (some c) ≡ none
    left e = rw (n, e) refl

    right :
        (rest : List Ca)
        → lineage fuel next (c.id ∷ seen) (next c) ≡ some rest
        → lineage (suc fuel) next seen (some c) ≡ some (c ∷ rest)
    right rest e = rw (n, e) refl

Met : List Ca → (Ca → Option Ca) → List ℕ → List Ca → Ca → ℕ → Type 0
Met cas next seen cs a k =
    Elem a cs
    ⊎ ((b : Ca) × (j : ℕ) × (is_seen seen b.id ≡ true) × Known cas b × Above next a b j × (j ≤ k))

weaken_steps :
    (cas : List Ca) (next : Ca → Option Ca) (seen : List ℕ) (cs : List Ca) (a : Ca) (j k : ℕ)
    → j ≤ k
    → Met cas next seen cs a j
    → Met cas next seen cs a k
unfolding Met
weaken_steps cas next seen cs a j k le (inl m) = inl m
weaken_steps cas next seen cs a j k le (inr (b, i, s, kn, p, l)) =
    inr (b, i, s, kn, p, omega (arith, le, l))

-- What `visits` says of the ways that have fewer steps than the bound.
VisitsWithin : List Ca → Ca → ℕ → Type 0
VisitsWithin cas a bound =
    (fuel : ℕ) (seen : List ℕ) (c : Ca) (cs : List Ca) (k : ℕ)
    → k < bound
    → Known cas c
    → lineage fuel (parent_of cas) seen (some c) ≡ some cs
    → Above (parent_of cas) a c k
    → Met cas (parent_of cas) seen cs a k

visit_round :
    (cas : List Ca) (a : Ca) (bound : ℕ)
    → VisitsWithin cas a bound
    → (fuel : ℕ) (seen : List ℕ) (c : Ca) (cs : List Ca) (k : ℕ) → k < suc bound
    → Known cas c
    → lineage fuel (parent_of cas) seen (some c) ≡ some cs
    → Above (parent_of cas) a c k
    → (f : ℕ) × (rest : List Ca) × (lineage f (parent_of cas) (c.id ∷ seen) (parent_of cas c)
        ≡ some rest)
      × (cs ≡ c ∷ rest)
    → Met cas (parent_of cas) seen cs a k
unfolding VisitsWithin Met
visit_round cas a bound ih fuel seen c cs zero l kc h at (f, rest, e, same) = inl (rw same here)
visit_round cas a bound ih fuel seen c cs (suc m) l kc h (up {d = d} step p) (f, rest, e, same) =
    elim (ih f (c.id ∷ seen) d rest m (omega (arith, l)) (find_ca-Known cas c.parent_id d step)
      (ap (lineage f (parent_of cas) (c.id ∷ seen)) (sym step) ∙ e) p) [
        | inl found ↦ inl (rw same (there found))
        | inr (b, j, s, kb, q, lj) ↦ elim (Bool-cases (c.id == b.id)) [
          | inl back ↦
              let again : b ≡ c = same_row cas b c kb kc (sym ((==_iff c.id b.id).0 back)) in
              weaken_steps cas (parent_of cas) seen cs a j (suc m) (omega (arith, lj))
                (ih fuel seen c cs j (omega (arith, lj, l)) kc h (rw⁻¹ again q))
          | inr different ↦ inr (b, j, ground (arith, s, different), kb, q, omega (arith, lj))
        ]
      ]

-- Every row in reach is visited, or the way to it leads through a row that was seen before.
visits : (cas : List Ca) (a : Ca) (bound : ℕ) → VisitsWithin cas a bound
unfolding VisitsWithin Met
visits cas a zero fuel seen c cs k le kc h path = absurd (omega (arith, le))
visits cas a (suc bound) fuel seen c cs k le kc h path = elim (Bool-cases (is_seen seen c.id)) [
  | inl y ↦ inr (c, k, y, kc, path, omega arith)
  | inr n ↦
      visit_round cas a bound (visits cas a bound) fuel seen c cs k le kc h path
        (lineage-fresh fuel (parent_of cas) seen c cs n h)
]

-- The loop visits every row that the parents lead to from a stored row.
pub lineage_complete :
    (fuel : ℕ) (cas : List Ca) (c a : Ca) (cs : List Ca) (k : ℕ)
    → Known cas c
    → lineage fuel (parent_of cas) [] (some c) ≡ some cs
    → Above (parent_of cas) a c k
    → Elem a cs
unfolding VisitsWithin Met
lineage_complete fuel cas c a cs k kc h path =
    elim (visits cas a (suc k) fuel [] c cs k (omega arith) kc h path) [
      | inl m ↦ m
      | inr (b, j, s, kb, q, l) ↦ cc
    ]

pub lineage-start :
    (fuel : ℕ) (next : Ca → Option Ca) (seen : List ℕ) (c x : Ca) (xs : List Ca)
    → lineage fuel next seen (some c) ≡ some (x ∷ xs)
    → (f : ℕ) × (lineage f next (c.id ∷ seen) (next c) ≡ some xs) × (x ≡ c)
lineage-start fuel next seen c x xs h = elim (Bool-cases (is_seen seen c.id)) [
  | inl y ↦ let stop : some [] ≡ some (x ∷ xs) = sym (lineage-stops fuel next seen c y) ∙ h in cc
  | inr n ↦
      let r = lineage-fresh fuel next seen c (x ∷ xs) n h in
      let same : x ∷ xs ≡ c ∷ r.1 = r.3 in
      let tails : r.1 ≡ xs = cc in (r.0, r.2 ∙ ap some tails, cc)
]

lineage-none :
    (fuel : ℕ) (next : Ca → Option Ca) (seen : List ℕ) → lineage fuel next seen none ≡ some []
unfolding lineage
lineage-none fuel next seen = refl

-- The loop visits no other row.
pub lineage_sound :
    (fuel : ℕ) (next : Ca → Option Ca) (seen : List ℕ) (c a : Ca) (cs : List Ca)
    → lineage fuel next seen (some c) ≡ some cs
    → Elem a cs
    → (k : ℕ) × Above next a c k
lineage_sound fuel next seen c a [] h m = elim m [ ]
lineage_sound fuel next seen c a (x ∷ xs) h here =
    let r = lineage-start fuel next seen c x xs h in rw r.2 (0, at)
lineage_sound fuel next seen c a (x ∷ xs) h (there m) =
    let r = lineage-start fuel next seen c x xs h in
    elim (Option-cases (next c)) [
      | inl e ↦
          let end_ : some [] ≡ some xs =
            sym (lineage-none r.0 next (c.id ∷ seen))
            ∙ ap (lineage r.0 next (c.id ∷ seen)) (sym e)
            ∙ r.1 in
          let empty : [] ≡ xs = some_unique end_ in never xs empty m
      | inr (d, e) ↦
          let rest =
            lineage_sound r.0 next (c.id ∷ seen) d a xs
              (ap (lineage r.0 next (c.id ∷ seen)) (sym e) ∙ r.1) m in
          (suc rest.0, up e rest.1)
    ]
  where
    never : {C : Type 0} → (xs : List Ca) → [] ≡ xs → Elem a xs → C
    never [] e m = elim m [ ]
    never (y ∷ ys) e m = cc
