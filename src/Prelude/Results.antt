-- ===== src/Prelude/Results.antt =====
-- A call that returns or raises: the errors are a parameter, each component names its own.
use mathlib.Core.Bool.{Bool, true, false}
use mathlib.Core.Path.{◌≡◌, refl, sym, ◌∙◌}
use mathlib.Core.Logic.{◌⊎◌, inl, inr}
use mathlib.Core.List.{List, [], ◌∷◌}
use chancery.Prelude.Lists.{Elem, here, there}

pub data Result {ℓ κ} (E : Type κ) (A : Type ℓ) : Type (ℓ ⊔ κ) where
  ok : A → Result E A
  raise : E → Result E A

infixl 5 ◌>>=◌ ◌>>◌
abbrev pub ◌>>=◌ {ℓ κ ρ} :
    {E : Type ρ} {A : Type ℓ} {B : Type κ} → Result E A → (A → Result E B) → Result E B
ok a >>= f = f a
raise e >>= f = raise e

abbrev pub ◌>>◌ {κ ρ} : {E : Type ρ} {B : Type κ} → Result E (Unit {0}) → Result E B → Result E B
m >> k = m >>= λ _. k

-- `if test: raise e`

abbrev pub refuse_if {ρ} : {E : Type ρ} → Bool → E → Result E (Unit {0})
refuse_if true e = raise e
refuse_if false e = ok tt

module _ {ℓ ρ} {E : Type ρ} {A : Type ℓ} where
  pub ok_unique : (r : Result E A) {a b : A} → r ≡ ok a → r ≡ ok b → a ≡ b
  ok_unique r e f = cc

  pub raise_not_ok {κ} : {C : Type κ} (r : Result E A) {p : E} {a : A} → r ≡ raise p → r ≡ ok a → C
  raise_not_ok r {p} {a} e f = never (sym e ∙ f)
    where
      never : {C : Type κ} → raise p ≡ ok a → C
      never h = cc

  pub Result-cases : (r : Result E A) → ((a : A) × (r ≡ ok a)) ⊎ ((p : E) × (r ≡ raise p))
  Result-cases (ok a) = inl (a, refl)
  Result-cases (raise p) = inr (p, refl)

-- `for x in xs: f(x)`, where f may raise.
abbrev pub for_each {ℓ ρ} :
    {E : Type ρ} {A : Type ℓ} → (A → Result E (Unit {0})) → List A → Result E (Unit {0})
for_each f [] = ok tt
for_each f (x ∷ xs) = f x >> for_each f xs

-- What a chain of calls that returns says of its first call.
pub bind_ok {ℓ κ ρ} :
    {E : Type ρ} {A : Type ℓ} {B : Type κ} (m : Result E A) (f : A → Result E B) {b : B}
    → (m >>= f) ≡ ok b
    → (a : A) × (m ≡ ok a) × (f a ≡ ok b)
bind_ok (ok a) f h = (a, refl, h)
bind_ok (raise e) f h = raise_not_ok _ refl h

pub guard_ok {ℓ ρ} :
    {E : Type ρ} {B : Type ℓ} (t : Bool) (e : E) (k : Result E B) {b : B}
    → (refuse_if t e >> k) ≡ ok b
    → (t ≡ false) × (k ≡ ok b)
guard_ok true e k h = raise_not_ok _ refl h
guard_ok false e k h = (refl, h)

pub then_ok {ℓ ρ} :
    {E : Type ρ} {B : Type ℓ} (m : Result E (Unit {0})) (k : Result E B) {b : B}
    → (m >> k) ≡ ok b
    → (m ≡ ok tt) × (k ≡ ok b)
then_ok (ok tt) k h = (refl, h)
then_ok (raise e) k h = raise_not_ok _ refl h

pub both_ok {ρ} :
    {E : Type ρ} (r k : Result E (Unit {0})) → (r >> k) ≡ ok tt → (r ≡ ok tt) × (k ≡ ok tt)
both_ok (ok tt) k h = (refl, h)
both_ok (raise e) k h = raise_not_ok _ refl h

module _ {ℓ ρ} {E : Type ρ} {A : Type ℓ} (f : A → Result E (Unit {0})) where
  pub for_each-ok : (xs : List A) → for_each f xs ≡ ok tt → (a : A) → Elem a xs → f a ≡ ok tt
  for_each-ok [] h a m = elim m [ ]
  for_each-ok (x ∷ xs) h a here = (both_ok (f x) (for_each f xs) h).0
  for_each-ok (x ∷ xs) h a (there m) = for_each-ok xs (both_ok (f x) (for_each f xs) h).1 a m

  pub ok-for_each : (xs : List A) → ((a : A) → Elem a xs → f a ≡ ok tt) → for_each f xs ≡ ok tt
  ok-for_each [] h = refl
  ok-for_each (x ∷ xs) h = rw (h x here) (ok-for_each xs (λ a m. h a (there m)))
