-- ===== src/Authorities/Walk.antt =====
-- The loop `while current is not None and current.id not in seen` of app/services/ca_service.py and
-- app/services/name_constraints.py. It takes fuel; one round more than there are rows is enough, also
-- where the parents form a cycle.
use chancery.Prelude.{
  ℕ, zero, suc, ◌≤◌, ◌<◌, ◌≡◌, refl, Option, none, some, Bool, true, false, List, [], ◌∷◌, length,
  any_of, Elem, inl, inr, arith, ◌==◌, if◌then◌else◌, ==_refl, Bool-cases, unseen, unseen-less,
  unseen-length,
}
use chancery.Authorities.Types.{Ca}

abbrev pub is_seen : List ℕ → ℕ → Bool
is_seen seen n = any_of (λ i. i == n) seen

-- The rows that the loop visits; none where the fuel is used up.
unfoldable pub lineage : ℕ → (Ca → Option Ca) → List ℕ → Option Ca → Option (List Ca)
lineage fuel next seen none = some []
lineage zero next seen (some c) = if is_seen seen c.id then some [] else none
lineage (suc fuel) next seen (some c) =
    let rest = lineage fuel next (c.id ∷ seen) (next c) in
    if is_seen seen c.id then some [] else elim rest [ none ↦ none | some cs ↦ some (c ∷ cs) ]

abbrev fresh : List ℕ → List Ca → ℕ
fresh = unseen (λ (i : ℕ) (d : Ca). i == d.id)

fresh-less :
    (seen : List ℕ) (c : Ca) (cas : List Ca)
    → Elem c cas
    → is_seen seen c.id ≡ false
    → fresh (c.id ∷ seen) cas < fresh seen cas
fresh-less seen c cas m n =
    unseen-less (λ (i : ℕ) (d : Ca). i == d.id) seen c.id c cas m (==_refl c.id) n

fresh-length : (seen : List ℕ) (cas : List Ca) → fresh seen cas ≤ length cas
fresh-length = unseen-length (λ (i : ℕ) (d : Ca). i == d.id)

-- What `next` gives is a row of the store.
abbrev pub Inside : List Ca → (Ca → Option Ca) → Type 0
Inside cas next = (c d : Ca) → next c ≡ some d → Elem d cas

pub lineage-stops :
    (fuel : ℕ) (next : Ca → Option Ca) (seen : List ℕ) (c : Ca)
    → is_seen seen c.id ≡ true
    → lineage fuel next seen (some c) ≡ some []
unfolding lineage
lineage-stops zero next seen c h = rw h refl
lineage-stops (suc fuel) next seen c h = rw h refl

pub lineage-visits :
    (fuel : ℕ) (next : Ca → Option Ca) (seen : List ℕ) (c : Ca) (cs : List Ca)
    → is_seen seen c.id ≡ false
    → lineage fuel next (c.id ∷ seen) (next c) ≡ some cs
    → lineage (suc fuel) next seen (some c) ≡ some (c ∷ cs)
unfolding lineage
lineage-visits fuel next seen c cs h e = rw (e, h) refl

enough :
    (fuel : ℕ) (next : Ca → Option Ca) (seen : List ℕ) (cas : List Ca) (start : Option Ca)
    → Inside cas next
    → ((c : Ca) → start ≡ some c → Elem c cas)
    → fresh seen cas ≤ fuel
    → (cs : List Ca) × (lineage fuel next seen start ≡ some cs)
unfolding lineage
enough fuel next seen cas none inside s f = ([], refl)
enough zero next seen cas (some c) inside s f = elim (Bool-cases (is_seen seen c.id)) [
  | inl y ↦ ([], rw y refl)
  | inr n ↦ let less = fresh-less seen c cas (s c refl) n in absurd (omega (arith, less, f))
]
enough (suc fuel) next seen cas (some c) inside s f = elim (Bool-cases (is_seen seen c.id)) [
  | inl y ↦ ([], lineage-stops (suc fuel) next seen c y)
  | inr n ↦
      let less = fresh-less seen c cas (s c refl) n in
      let rest =
        enough fuel next (c.id ∷ seen) cas (next c) inside (inside c) (omega (arith, less, f)) in
      (c ∷ rest.0, lineage-visits fuel next seen c rest.0 n rest.1)
]

-- With one round more than there are rows the loop ends from every start, whatever the parents are,
-- cycles included.
pub lineage_ends :
    (next : Ca → Option Ca) (cas : List Ca) (start : Option Ca)
    → Inside cas next
    → (cs : List Ca) × (lineage (suc (length cas)) next [] start ≡ some cs)
lineage_ends next cas none inside =
    enough _ next [] cas none inside (λ c h. cc) (omega (arith, fresh-length [] cas))
lineage_ends next cas (some c) inside =
    let rest =
      enough (length cas) next (c.id ∷ []) cas (next c) inside (inside c)
        (omega (arith, fresh-length (c.id ∷ []) cas)) in
    (c ∷ rest.0, lineage-visits (length cas) next [] c rest.0 refl rest.1)
