-- ===== src/Audit/Chain.antt =====
-- The hash chain as a relation, independent of the walk of `verify`
-- (app/services/audit_chain.py): each sealed row has the next id, names the hash before it and
-- carries its own; the rows that are not sealed yet stand at the end.
use chancery.Prelude.{
  ℕ, ◌+◌, ◌<◌, ◌≤◌, ◌≡◌, refl, String, none, some, false, List, [], ◌∷◌, All, any_of, get_or, arith,
}
use chancery.Audit.Row.{Row, Library, genesis, is_sealed, compute_hash}
use chancery.Audit.Verify.{later_sealed}

-- The order of the primary key: ids grow along the list, from above `lo`.
abbrev pub Ascending : ℕ → List Row → Type 0
Ascending lo [] = Unit
Ascending lo (r ∷ rs) = (lo < r.id) × Ascending r.id rs

abbrev pub AllUnsealed : List Row → Type 0
AllUnsealed = All (λ r. r.entry_hash ≡ none)

pub data Chain (lib : Library) : String → ℕ → List Row → Type 0 where
  open_end : {p : String} {n : ℕ} {rs : List Row} → AllUnsealed rs → Chain lib p n rs
  link :
      {p : String} {n : ℕ} {r : Row} {rs : List Row} (h : String)
      → r.id ≡ n
      → get_or r.prev_hash genesis ≡ p
      → r.entry_hash ≡ some h
      → compute_hash lib r p ≡ h
      → Chain lib h (r.id + 1) rs
      → Chain lib p n (r ∷ rs)

pub any_sealed_none : (rs : List Row) → any_of is_sealed rs ≡ false → AllUnsealed rs
any_sealed_none [] h = tt
any_sealed_none (r ∷ rs) h = (ground arith, any_sealed_none rs (ground arith))

pub AllUnsealed-any : (rs : List Row) → AllUnsealed rs → any_of is_sealed rs ≡ false
AllUnsealed-any [] h = refl
AllUnsealed-any (r ∷ rs) h = ground (arith, AllUnsealed-any rs h.1)

-- In id order, the sealed rows with a larger id than a row's are those that follow it.
pub later_sealed-above :
    (lo n : ℕ) (rs : List Row) → Ascending lo rs → n ≤ lo → later_sealed rs n ≡ any_of is_sealed rs
unfolding later_sealed
later_sealed-above lo n [] a h = refl
later_sealed-above lo n (r ∷ rs) a h = ground (arith, later_sealed-above r.id n rs a.1)

-- The table and a rest of it agree on the sealed rows beyond `lo`.
abbrev pub Agrees : ℕ → List Row → List Row → Type 0
Agrees lo all rs = (n : ℕ) → lo ≤ n → later_sealed all n ≡ later_sealed rs n

pub Agrees-tail :
    (lo : ℕ) (all : List Row) (r : Row) (rs : List Row)
    → Ascending lo (r ∷ rs)
    → Agrees lo all (r ∷ rs)
    → Agrees r.id all rs
unfolding later_sealed
Agrees-tail lo all r rs a g n h = ground (arith, g n)

pub Agrees-later :
    (lo : ℕ) (all : List Row) (r : Row) (rs : List Row)
    → Ascending lo (r ∷ rs)
    → Agrees lo all (r ∷ rs)
    → later_sealed all r.id ≡ any_of is_sealed rs
Agrees-later lo all r rs a g =
    ground (arith, Agrees-tail lo all r rs a g r.id, later_sealed-above r.id r.id rs a.1)
