-- ===== src/Prelude/Search.antt =====
-- Branches that are known, and what `.first()` finds.
use mathlib.Core.Path.{◌≡◌, refl, sym, ap, ◌∙◌}
use mathlib.Core.Logic.{inl, inr}
use Prim.Native.Nat.{ℕ, ◌≤◌, ◌<◌}
use native.Mathlib.Omega.{arith}
use mathlib.Core.Bool.{Bool, true, false, not, ◌&&◌, ◌||◌}
use mathlib.Core.Option.{none, some}
use mathlib.Core.List.{List, [], ◌∷◌}
use chancery.Prelude.Tests.{if◌then◌else◌, Bool-cases, ltb}
use chancery.Prelude.Lists.{Elem, here, there, first_where, length, any_of, filter_by, count_where}
use chancery.Prelude.Options.{none-not_some}

pub if_true {ℓ} : {A : Type ℓ} (b : Bool) (x y : A) → b ≡ true → (if b then x else y) ≡ x
if_true b x y h = rw h refl

pub if_false {ℓ} : {A : Type ℓ} (b : Bool) (x y : A) → b ≡ false → (if b then x else y) ≡ y
if_false b x y h = rw h refl

pub some_unique {ℓ} : {A : Type ℓ} {x y : A} → some x ≡ some y → x ≡ y
some_unique h = cc

-- `first_where` gives an element of the list that passes the test.
pub first_where-Elem {ℓ} :
    {A : Type ℓ} (p : A → Bool) (xs : List A) (a : A)
    → first_where p xs ≡ some a
    → Elem a xs × (p a ≡ true)
first_where-Elem p [] a h = none-not_some none refl h
first_where-Elem p (x ∷ xs) a h = elim (Bool-cases (p x)) [
  | inl y ↦
      let same = some_unique (sym (if_true (p x) (some x) (first_where p xs) y) ∙ h) in
      rw⁻¹ same (here, y)
  | inr n ↦
      let r = first_where-Elem p xs a (sym (if_false (p x) (some x) (first_where p xs) n) ∙ h) in
      (there r.0, r.1)
]

pub any_of-false {ℓ} :
    {A : Type ℓ} (p : A → Bool) (xs : List A) (a : A)
    → any_of p xs ≡ false
    → Elem a xs
    → p a ≡ false
any_of-false p [] a h m = elim m [ ]
any_of-false p (x ∷ xs) a h here = ground (arith, h)
any_of-false p (x ∷ xs) a h (there m) =
    let rest : any_of p xs ≡ false = ground (arith, h) in any_of-false p xs a rest m

pub any_of-none {ℓ} :
    {A : Type ℓ} (p : A → Bool) (xs : List A)
    → ((a : A) → Elem a xs → p a ≡ false)
    → any_of p xs ≡ false
any_of-none p [] h = refl
any_of-none p (x ∷ xs) h =
    let head = h x here in
    let rest = any_of-none p xs (λ a m. h a (there m)) in ground (arith, head, rest)

pub any_of-found {ℓ} :
    {A : Type ℓ} (p : A → Bool) (xs : List A)
    → any_of p xs ≡ true
    → (a : A) × Elem a xs × (p a ≡ true)
any_of-found p [] h = cc
any_of-found p (x ∷ xs) h = elim (Bool-cases (p x)) [
  | inl y ↦ (x, here, y)
  | inr n ↦
      let rest : any_of p xs ≡ true = ground (arith, h, n) in
      let r = any_of-found p xs rest in (r.0, there r.1, r.2)
]

pub any_of-Elem {ℓ} :
    {A : Type ℓ} (p : A → Bool) (xs : List A) (a : A) → Elem a xs → p a ≡ true → any_of p xs ≡ true
any_of-Elem p [] a m h = elim m [ ]
any_of-Elem p (x ∷ xs) a here h = ground (arith, h)
any_of-Elem p (x ∷ xs) a (there m) h = ground (arith, any_of-Elem p xs a m h)

pub length-filter_by-any {ℓ} :
    {A : Type ℓ} (p : A → Bool) (xs : List A) → ltb 0 (length (filter_by p xs)) ≡ any_of p xs
length-filter_by-any p [] = refl
length-filter_by-any p (x ∷ xs) = elim (Bool-cases (p x)) [
  | inl y ↦ rw y (ground arith)
  | inr n ↦ rw n (length-filter_by-any p xs)
]

pub any_of-filter_by {ℓ} :
    {A : Type ℓ} (p q : A → Bool) (xs : List A)
    → any_of q (filter_by p xs) ≡ any_of (λ x. p x && q x) xs
any_of-filter_by p q [] = refl
any_of-filter_by p q (x ∷ xs) = elim (Bool-cases (p x)) [
  | inl y ↦ rw y (ap (λ b. q x || b) (any_of-filter_by p q xs))
  | inr n ↦ rw n (any_of-filter_by p q xs)
]

pick-Elem {ℓ} :
    {A : Type ℓ} (b : Bool) (x a : A) (rest xs : List A)
    → (Elem a rest → Elem a xs)
    → Elem a (if b then x ∷ rest else rest)
    → Elem a (x ∷ xs)
pick-Elem true x a rest xs f here = here
pick-Elem true x a rest xs f (there m) = there (f m)
pick-Elem false x a rest xs f m = there (f m)

pub filter_by-Elem {ℓ} :
    {A : Type ℓ} (p : A → Bool) (xs : List A) (a : A) → Elem a (filter_by p xs) → Elem a xs
filter_by-Elem p [] a m = m
filter_by-Elem p (x ∷ xs) a m = pick-Elem (p x) x a (filter_by p xs) xs (filter_by-Elem p xs a) m

-- How many elements no key of `seen` hits: what a loop that keeps a record of the keys has left.
module _ {ℓ κ} {A : Type ℓ} {K : Type κ} (hit : K → A → Bool) where
  abbrev pub is_hit : List K → A → Bool
  is_hit seen a = any_of (λ k. hit k a) seen

  abbrev pub unseen : List K → List A → ℕ
  unseen seen = count_where (λ a. not (is_hit seen a))

  pub unseen-le : (seen : List K) (k : K) (xs : List A) → unseen (k ∷ seen) xs ≤ unseen seen xs
  unseen-le seen k [] = omega arith
  unseen-le seen k (x ∷ xs) = ground (arith, unseen-le seen k xs)

  pub unseen-less :
      (seen : List K) (k : K) (a : A) (xs : List A)
      → Elem a xs
      → hit k a ≡ true
      → is_hit seen a ≡ false
      → unseen (k ∷ seen) xs < unseen seen xs
  unseen-less seen k a [] m h n = elim m [ ]
  unseen-less seen k a (x ∷ xs) here h n = ground (arith, unseen-le seen k xs, h, n)
  unseen-less seen k a (x ∷ xs) (there m) h n = ground (arith, unseen-less seen k a xs m h n)

  pub unseen-length : (seen : List K) (xs : List A) → unseen seen xs ≤ length xs
  unseen-length seen [] = omega arith
  unseen-length seen (x ∷ xs) = ground (arith, unseen-length seen xs)
