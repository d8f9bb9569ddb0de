-- ===== src/Profiles/Sound.antt =====
-- What the operations on profiles keep.
use chancery.Prelude.{
  ℕ, zero, suc, ◌≤◌, ◌≡◌, refl, sym, ◌∙◌, String, Option, none, some, Bool, true, false, List, [],
  ◌∷◌, ◌++◌, All, All-append, ◌⊎◌, inl, inr, arith, ◌==◌, Bool-cases, ok, ok_unique, raise_not_ok,
  if_true, if_false, bind_ok, then_ok,
}
use mathlib.Core.Path.{subst}
use chancery.Profiles.Enforce.{Profile, FieldError}
use chancery.Profiles.Permits.{AtMost}
use chancery.Profiles.Manage.{
  Raw, missing, junk, minus, whole, Fields, error_if, int_errors, exceeds, name_errors,
  key_usage_errors, is_malformed, validate, bound_of, or_year, capped, apply_fields, checked, fresh,
  create_profile, put_row, update_profile, may_delete, delete_profile,
}
use chancery.Authorities.Text.{strip}

-- The bounds of a row fit together, and the default validity is within the maximum.
pub record Coherent (p : Profile) : Type 0 where
  pub default_positive : 1 ≤ p.default_validity_days
  pub default_within : AtMost p.max_validity_days p.default_validity_days
  pub rsa_ordered : AtMost p.max_rsa_bits p.min_rsa_bits
  pub min_rsa : (p.min_rsa_bits ≡ 0) ⊎ (1024 ≤ p.min_rsa_bits)
  pub max_rsa : (p.max_rsa_bits ≡ 0) ⊎ (1024 ≤ p.max_rsa_bits)

append-empty : {A : Type 0} (xs ys : List A) → xs ++ ys ≡ [] → (xs ≡ []) × (ys ≡ [])
append-empty [] ys h = (refl, h)
append-empty (x ∷ xs) ys h = cc

error_if-empty : (b : Bool) (e : FieldError) → error_if b e ≡ [] → b ≡ false
error_if-empty true e h = cc
error_if-empty false e h = refl

int_errors-empty :
    (least : ℕ) (r : Raw) → int_errors least r ≡ [] → (bound_of r ≡ 0) ⊎ (least ≤ bound_of r)
int_errors-empty least missing h = inl refl
int_errors-empty least junk h = inl refl
int_errors-empty least (minus n) h = inl refl
int_errors-empty least (whole n) h = inr (ground (arith, error_if-empty _ _ h))

exceeds-false : (a b : Raw) → exceeds a b ≡ false → AtMost (bound_of b) (bound_of a)
exceeds-false a missing h = inl refl
exceeds-false a junk h = inl refl
exceeds-false a (minus n) h = inl refl
exceeds-false missing (whole n) h = inr (omega arith)
exceeds-false junk (whole n) h = inr (omega arith)
exceeds-false (minus m) (whole n) h = inr (omega arith)
exceeds-false (whole m) (whole zero) h = inl refl
exceeds-false (whole m) (whole (suc n)) h = inr (ground (arith, h))

capped-AtMost : (cap n : ℕ) → AtMost cap (capped cap n)
capped-AtMost zero n = inl refl
capped-AtMost (suc c) n = inr (ground arith)

capped-positive : (cap n : ℕ) → 1 ≤ n → 1 ≤ capped cap n
capped-positive cap n h = ground (arith, h)

or_year-positive : (n : ℕ) → 1 ≤ or_year n
or_year-positive n = ground arith

validate-Coherent :
    (rows : List Profile) (f : Fields) (existing : Option ℕ) (row : Profile)
    → validate rows f existing ≡ []
    → Coherent (apply_fields row f)
unfolding validate apply_fields
validate-Coherent rows f existing row h =
    let a = append-empty (name_errors rows existing (strip f.name)) _ h in
    let b = append-empty (key_usage_errors f.key_usage) _ a.1 in
    let c = append-empty (error_if (is_malformed f.extended_key_usage) _) _ b.1 in
    let d = append-empty (int_errors 1 f.default_validity_days) _ c.1 in
    let e = append-empty (int_errors 1 f.max_validity_days) _ d.1 in
    let g = append-empty (error_if (exceeds f.default_validity_days f.max_validity_days) _) _ e.1 in
    let i = append-empty (int_errors 1024 f.min_rsa_bits) _ g.1 in
    let j = append-empty (int_errors 1024 f.max_rsa_bits) _ i.1 in
    let k = append-empty (error_if (exceeds f.min_rsa_bits f.max_rsa_bits) _) _ j.1 in
    record {
      default_positive =
          capped-positive (bound_of f.max_validity_days) _
            (or_year-positive (bound_of f.default_validity_days));
      default_within = capped-AtMost (bound_of f.max_validity_days) _;
      rsa_ordered = exceeds-false f.min_rsa_bits f.max_rsa_bits (error_if-empty _ _ k.0);
      min_rsa = int_errors-empty 1024 f.min_rsa_bits i.0;
      max_rsa = int_errors-empty 1024 f.max_rsa_bits j.0;
    }

pub checked-empty :
    {A : Type 0} (es : List FieldError) (a : A) {b : A} → checked es a ≡ ok b → (es ≡ []) × (a ≡ b)
checked-empty [] a h = (refl, ok_unique _ refl h)
checked-empty (e ∷ es) a h = raise_not_ok _ refl h

-- One successful operation on the table.
pub data Change (is_used : ℕ → Bool) : List Profile → List Profile → Type 0 where
  created :
      (id : ℕ) (key : String) (f : Fields) {rows after : List Profile}
      → create_profile id key f rows ≡ ok after
      → Change is_used rows after
  updated :
      (id : ℕ) (f : Fields) {rows after : List Profile}
      → update_profile id f rows ≡ ok after
      → Change is_used rows after
  deleted :
      (id : ℕ) {rows after : List Profile}
      → delete_profile is_used id rows ≡ ok after
      → Change is_used rows after

abbrev pub AllCoherent : List Profile → Type 0
AllCoherent = All Coherent

put_row-AllCoherent :
    (id : ℕ) (f : Fields) (rows : List Profile)
    → ((row : Profile) → Coherent (apply_fields row f))
    → AllCoherent rows
    → AllCoherent (put_row id f rows)
put_row-AllCoherent id f [] c h = h
put_row-AllCoherent id f (p ∷ ps) c h = (
  elim (Bool-cases (p.id == id)) [
    | inl y ↦ subst Coherent (sym (if_true (p.id == id) _ _ y)) (c p)
    | inr n ↦ subst Coherent (sym (if_false (p.id == id) _ _ n)) h.0
  ],
  put_row-AllCoherent id f ps c h.1,
)

-- Either the first row is the one that goes, or the rest changes.
pub delete_profile-cases :
    (is_used : ℕ → Bool) (id : ℕ) (p : Profile) (ps : List Profile) {after : List Profile}
    → delete_profile is_used id (p ∷ ps) ≡ ok after
    → ((may_delete is_used p ≡ ok tt) × (ps ≡ after))
      ⊎ ((qs : List Profile) × (delete_profile is_used id ps ≡ ok qs) × (p ∷ qs ≡ after))
unfolding delete_profile
delete_profile-cases is_used id p ps h = elim (Bool-cases (p.id == id)) [
  | inl y ↦
      let t = then_ok (may_delete is_used p) (ok ps) (sym (if_true (p.id == id) _ _ y) ∙ h) in
      inl (t.0, ok_unique _ refl t.1)
  | inr n ↦
      let b =
        bind_ok (delete_profile is_used id ps) (λ qs. ok (p ∷ qs))
          (sym (if_false (p.id == id) _ _ n) ∙ h) in
      inr (b.0, b.1, ok_unique _ refl b.2)
]

delete_profile-AllCoherent :
    (is_used : ℕ → Bool) (id : ℕ) (rows : List Profile) {after : List Profile}
    → AllCoherent rows
    → delete_profile is_used id rows ≡ ok after
    → AllCoherent after
unfolding delete_profile
delete_profile-AllCoherent is_used id [] c h = raise_not_ok _ refl h
delete_profile-AllCoherent is_used id (p ∷ ps) c h = elim (delete_profile-cases is_used id p ps h) [
  | inl t ↦ subst AllCoherent t.1 c.1
  | inr t ↦ subst AllCoherent t.2 (c.0, delete_profile-AllCoherent is_used id ps c.1 t.1)
]

Change-AllCoherent :
    {is_used : ℕ → Bool} {rows after : List Profile}
    → Change is_used rows after
    → AllCoherent rows
    → AllCoherent after
unfolding create_profile update_profile
Change-AllCoherent (created id key f {rows} h) c =
    let e = checked-empty (validate rows f none) _ h in
    subst AllCoherent e.1
      (All-append Coherent rows _ c (validate-Coherent rows f none (fresh id key) e.0, tt))
Change-AllCoherent (updated id f {rows} h) c =
    let e = checked-empty (validate rows f (some id)) _ h in
    subst AllCoherent e.1
      (put_row-AllCoherent id f rows (λ row. validate-Coherent rows f (some id) row e.0) c)
Change-AllCoherent {is_used} (deleted id {rows} h) c =
    delete_profile-AllCoherent is_used id rows c h

pub data Changes (is_used : ℕ → Bool) (start : List Profile) : List Profile → Type 0 where
  unchanged : Changes is_used start start
  then_change :
      {rows after : List Profile}
      → Changes is_used start rows
      → Change is_used rows after
      → Changes is_used start after

-- From a table whose rows are coherent, whatever profiles are created, updated and deleted, every row
-- has a default validity of at least a day that is within its maximum, and RSA bounds that are either
-- unset or at least 1024 and in order.
pub Changes-AllCoherent :
    {is_used : ℕ → Bool} {start rows : List Profile}
    → Changes is_used start rows
    → AllCoherent start
    → AllCoherent rows
Changes-AllCoherent unchanged c = c
Changes-AllCoherent (then_change r s) c = Change-AllCoherent s (Changes-AllCoherent r c)
