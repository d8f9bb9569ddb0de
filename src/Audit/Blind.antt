-- ===== src/Audit/Blind.antt =====
-- The one state of the log in which `verify` (app/services/audit_chain.py) checks nothing: its first
-- row is not sealed. `seal` does not leave that state, since it begins behind the last sealed row.
use chancery.Prelude.{
  ℕ, ◌≡◌, refl, sym, ap, ◌∙◌, none, some, Bool, true, false, ◌||◌, List, [], ◌∷◌, any_of,
  Option-cases, none-not_some, inl, inr, Bool-cases,
}
use mathlib.Core.Path.{subst}
use chancery.Audit.Row.{Row, Library, is_sealed}
use chancery.Audit.Seal.{last_where, seal}
use chancery.Audit.Verify.{verify, verify_rows}
use chancery.Audit.Chain.{Ascending}
use chancery.Audit.Kept.{Kept, KeptRow, Kept-Ascending}
use chancery.Audit.SealVerify.{seal-unsealed_head, seal-Kept}

any_sealed : List Row → Bool
any_sealed = any_of is_sealed

or_true : (a : Bool) {b : Bool} → b ≡ true → (a || b) ≡ true
or_true true h = refl
or_true false h = h

any_sealed-last :
    (rows : List Row)
    → any_sealed rows ≡ true
    → (last : Row) × (last_where is_sealed rows ≡ some last)
unfolding any_sealed last_where
any_sealed-last [] h = cc
any_sealed-last (r ∷ rs) h = elim (Option-cases (last_where is_sealed rs)) [
  | inr (last, e) ↦ (last, rw e refl)
  | inl e ↦ elim (Bool-cases (is_sealed r)) [
    | inl y ↦ (r, rw (e, y) refl)
    | inr n ↦
        let found = any_sealed-last rs (sym (ap (λ b. b || any_of is_sealed rs) n) ∙ h) in
        none-not_some (last_where is_sealed rs) e found.1
  ]
]

last-any_sealed :
    (rows : List Row) (last : Row) → last_where is_sealed rows ≡ some last → any_sealed rows ≡ true
unfolding any_sealed last_where
last-any_sealed [] last h = cc
last-any_sealed (r ∷ rs) last h = elim (Option-cases (last_where is_sealed rs)) [
  | inr (l, e) ↦ or_true (is_sealed r) (last-any_sealed rs l e)
  | inl e ↦ elim (Bool-cases (is_sealed r)) [
    | inl y ↦ rw y refl
    | inr n ↦ none-not_some (last_where is_sealed (r ∷ rs)) (rw (e, n) refl) h
  ]
]

still_sealed : (r r' : Row) → KeptRow r r' → is_sealed r ≡ true → is_sealed r' ≡ true
still_sealed r r' k h = ap is_sealed (k.settled h) ∙ h

Kept-any_sealed :
    (rows after : List Row) → Kept rows after → any_sealed rows ≡ true → any_sealed after ≡ true
unfolding any_sealed
Kept-any_sealed [] after k h = cc
Kept-any_sealed (r ∷ rs) [] k h = elim k [ ]
Kept-any_sealed (r ∷ rs) (r' ∷ after) k h = elim (Bool-cases (is_sealed r)) [
  | inl y ↦ rw (still_sealed r r' k.0 y) refl
  | inr n ↦
      or_true (is_sealed r')
        (Kept-any_sealed rs after k.1 (sym (ap (λ b. b || any_of is_sealed rs) n) ∙ h))
]

module _ (lib : Library) where
  -- Calls of `seal` one after the other, each with its moment and its grace.
  abbrev pub seal_all : List (ℕ × ℕ) → List Row → List Row
  seal_all [] rows = rows
  seal_all (t ∷ ts) rows = seal_all ts (seal lib t.0 t.1 rows).1

  -- What `verify` reports of a log whose first row is not sealed.
  pub record Unchecked (rows : List Row) : Type 0 where
    pub accepted : (verify lib none rows).is_ok ≡ true
    pub nothing_checked : (verify lib none rows).checked ≡ 0

  unsealed-Unchecked : (r : Row) (rs : List Row) → r.entry_hash ≡ none → Unchecked (r ∷ rs)
  unfolding verify verify_rows
  unsealed-Unchecked r rs u = record { accepted = rw u; nothing_checked = rw u }

  -- Where the first row of a log in id order is not sealed and some other row is, the log is accepted
  -- and not one row of it is checked, whatever the other rows hold; and no number of later calls of
  -- `seal` changes that.
  pub unsealed_first_row_blinds :
      (ts : List (ℕ × ℕ)) (r last : Row) (rs : List Row)
      → Ascending 0 (r ∷ rs)
      → r.entry_hash ≡ none
      → last_where is_sealed (r ∷ rs) ≡ some last
      → Unchecked (seal_all ts (r ∷ rs))
  unsealed_first_row_blinds [] r last rs a u f = unsealed-Unchecked r rs u
  unsealed_first_row_blinds (t ∷ ts) r last rs a u f =
      let after = (seal lib t.0 t.1 (r ∷ rs)).1 in
      let kept = seal-Kept lib t.0 t.1 (r ∷ rs) in
      let (rest, e) = seal-unsealed_head lib t.0 t.1 r last rs a u f in
      let ascending = Kept-Ascending 0 (r ∷ rs) after kept a in
      let sealed = Kept-any_sealed (r ∷ rs) after kept (last-any_sealed (r ∷ rs) last f) in
      let (last', f') = any_sealed-last (r ∷ rest) (subst (λ z. any_sealed z ≡ true) e sealed) in
      subst (λ z. Unchecked (seal_all ts z)) (sym e)
        (unsealed_first_row_blinds ts r last' rest (subst (Ascending 0) e ascending) u f')
