-- ===== src/Authorities/Tree.antt =====
-- The tree of the authorities that app/services/ca_service.py creates: the ids, the parents and the
-- path lengths. The operations are those of Create and Alternates; any other change of a row that
-- keeps these three columns (a revocation, an approval, a CRL) is one step.
use chancery.Prelude.{
  ℕ, zero, suc, ◌+◌, ◌≤◌, ◌<◌, ◌≡◌, refl, sym, ap, ◌∙◌, Option, none, some, List, [], ◌∷◌, map, All,
  All-Elem, Elem, here, there, none-not_some, ◌⊎◌, inl, inr, arith, ltb, ◌==◌, if◌then◌else◌,
  ==_iff, Bool-cases, ok, ok_unique, raise_not_ok, some_unique,
}
use mathlib.Core.Path.{ap₂}
use chancery.Authorities.Types.{Ca, Store}
use chancery.Authorities.Create.{clamp_path}
use chancery.Authorities.Alternates.{save_ca}

pub record Node : Type 0 where
  pub id : ℕ
  pub parent_id : Option ℕ
  pub path_length : Option ℕ

abbrev pub node : Ca → Node
node c = record { id = c.id; parent_id = c.parent_id; path_length = c.path_length }

-- Below a limited parent is a smaller limit.
abbrev pub Budget : Option ℕ → Option ℕ → Type 0
Budget above below = (k : ℕ) → above ≡ some k → (m : ℕ) × (below ≡ some m) × (m < k)

abbrev pub Placed : Node → List Node → Type 0
Placed n ns =
    (n.parent_id ≡ none)
    ⊎ ((p : Node) × Elem p ns × (n.parent_id ≡ some p.id) × Budget p.path_length n.path_length)

-- The newest first: every row is newer than the ones after it, and its parent, where it has one, is
-- one of these and leaves it its path length.
abbrev pub Tree : List Node → Type 0
Tree [] = Unit
Tree (n ∷ ns) = All (λ m. m.id < n.id) ns × Placed n ns × Tree ns

-- The ids alone.
abbrev pub Newest : List Node → Type 0
Newest [] = Unit
Newest (n ∷ ns) = All (λ m. m.id < n.id) ns × Newest ns

pub Tree-Newest : (ns : List Node) → Tree ns → Newest ns
Tree-Newest [] t = tt
Tree-Newest (n ∷ ns) t = (t.0, Tree-Newest ns t.2)

pub record WellFormed (s : Store) : Type 0 where
  pub below_next : All (λ n. n.id < s.next_ca) (map node s.cas)
  pub tree : Tree (map node s.cas)

pub clamp_path-Budget :
    (above asked got : Option ℕ) → clamp_path above asked ≡ ok got → Budget above got
unfolding clamp_path
clamp_path-Budget none asked got h k e = none-not_some none refl e
clamp_path-Budget (some zero) asked got h k e = raise_not_ok _ refl h
clamp_path-Budget (some (suc n)) none got h k e =
    let same : suc n ≡ k = some_unique e in (n, sym (ok_unique _ refl h), omega (arith, same))
clamp_path-Budget (some (suc n)) (some a) got h k e =
    let same : suc n ≡ k = some_unique e in
    (if ltb n a then n else a, sym (ok_unique _ refl h), ground (arith, same))

pub unique_node :
    (a b : Node) (ns : List Node) → Newest ns → Elem a ns → Elem b ns → a.id ≡ b.id → a ≡ b
unique_node a b [] t m o e = elim m [ ]
unique_node a b (n ∷ ns) t here here e = refl
unique_node a b (n ∷ ns) t here (there o) e =
    let less = All-Elem (λ (m : Node). m.id < n.id) t.0 o in absurd (omega (arith, less, e))
unique_node a b (n ∷ ns) t (there m) here e =
    let less = All-Elem (λ (m : Node). m.id < n.id) t.0 m in absurd (omega (arith, less, e))
unique_node a b (n ∷ ns) t (there m) (there o) e = unique_node a b ns t.1 m o e

Placed-in : (c : Node) (ns : List Node) → Tree ns → Elem c ns → Placed c ns
Placed-in c [] t m = elim m [ ]
Placed-in c (n ∷ ns) t here = elim t.1 [
  | inl top ↦ inl top
  | inr (p, m, e, b) ↦ inr (p, there m, e, b)
]
Placed-in c (n ∷ ns) t (there m) = elim (Placed-in c ns t.2 m) [
  | inl top ↦ inl top
  | inr (p, o, e, b) ↦ inr (p, there o, e, b)
]

-- `a` is so many parents above `c`.
pub data UpTo (ns : List Node) (a : Node) : Node → ℕ → Type 0 where
  at : UpTo ns a a 0
  up :
      {c p : Node} {k : ℕ}
      → Elem c ns
      → Elem p ns
      → c.parent_id ≡ some p.id
      → UpTo ns a p k
      → UpTo ns a c (suc k)

parent-Budget :
    (ns : List Node) (c p : Node)
    → Tree ns
    → Elem c ns
    → Elem p ns
    → c.parent_id ≡ some p.id
    → Budget p.path_length c.path_length
parent-Budget ns c p t mc mp e = elim (Placed-in c ns t mc) [
  | inl top ↦ none-not_some c.parent_id top e
  | inr (q, mq, eq, b) ↦
      let same : p.id ≡ q.id = some_unique (sym e ∙ eq) in
      let node_same = unique_node p q ns (Tree-Newest ns t) mp mq same in rw node_same b
]

pub depth :
    (ns : List Node) (c a : Node) (k n : ℕ)
    → Tree ns
    → UpTo ns a c k
    → a.path_length ≡ some n
    → (m : ℕ) × (c.path_length ≡ some m) × (k + m ≤ n)
depth ns c a zero n t at e = (n, e, omega arith)
depth ns c a (suc k) n t (up {p = p} mc mp step path) e =
    let above = depth ns p a k n t path e in
    let b = parent-Budget ns c p t mc mp step above.0 above.1 in
    (b.0, b.1, omega (arith, above.2, b.2))

saved-nodes :
    (c : Ca) (cas : List Ca)
    → ((d : Ca) → Elem d cas → d.id ≡ c.id → node d ≡ node c)
    → map node (save_ca c cas) ≡ map node cas
unfolding save_ca
saved-nodes c [] h = refl
saved-nodes c (d ∷ cas) h = elim (Bool-cases (d.id == c.id)) [
  | inl y ↦
      let same = h d here ((==_iff d.id c.id).0 y) in
      rw y (ap₂ ◌∷◌ (sym same) (saved-nodes c cas (λ e m. h e (there m))))
  | inr n ↦ rw n (ap (λ ns. node d ∷ ns) (saved-nodes c cas (λ e m. h e (there m))))
]

pub map-Elem : (c : Ca) (cas : List Ca) → Elem c cas → Elem (node c) (map node cas)
map-Elem c [] m = elim m [ ]
map-Elem c (d ∷ cas) here = here
map-Elem c (d ∷ cas) (there m) = there (map-Elem c cas m)

-- The rows keep their columns.
abbrev pub Kept : Store → Store → Type 0
Kept s after = (map node after.cas ≡ map node s.cas) × (after.next_ca ≡ s.next_ca)

pub saved-Kept :
    (c changed : Ca) (s after : Store)
    → Newest (map node s.cas)
    → Elem c s.cas
    → node changed ≡ node c
    → after.cas ≡ save_ca changed s.cas
    → after.next_ca ≡ s.next_ca
    → Kept s after
saved-Kept c changed s after w m e h n = (
  ap (map node) h
      ∙ saved-nodes changed s.cas (λ d o same.
        unique_node (node d) (node c) (map node s.cas) w (map-Elem d s.cas o) (map-Elem c s.cas m)
          (same ∙ ap (λ (x : Node). x.id) e)
        ∙ sym e),
  n,
)

pub Kept-WellFormed : (s after : Store) → WellFormed s → Kept s after → WellFormed after
Kept-WellFormed s after w (e, n) = record {
  below_next = rw (e, n) w.below_next;
  tree = rw e w.tree;
}

pub older : (n : ℕ) (ns : List Node) → All (λ m. m.id < n) ns → All (λ m. m.id < suc n) ns
older n [] h = tt
older n (m ∷ ns) h = (omega (arith, h.0), older n ns h.1)

-- A row that is written first under the next id, and is placed among the others.
pub added-WellFormed :
    (s : Store) (c : Ca)
    → WellFormed s
    → c.id ≡ s.next_ca
    → Placed (node c) (map node s.cas)
    → WellFormed (record s { cas = c ∷ s.cas; next_ca = suc s.next_ca })
added-WellFormed s c w e p = record {
  below_next = (omega (arith, e), older s.next_ca (map node s.cas) w.below_next);
  tree = (rw e w.below_next, p, w.tree);
}
