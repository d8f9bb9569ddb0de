-- ===== src/Audit/Kept.antt =====
-- What `seal` (app/services/audit_chain.py) leaves as it was: every logged field of every row, and
-- the rows that were sealed before altogether.
use chancery.Prelude.{
  ◌&&◌, ℕ, ◌≡◌, refl, ap, Option, none, some, true, List, [], ◌∷◌, is_none, arith, Bool-cases, inl,
  inr,
}
use chancery.Audit.Row.{Row, Library, CheckpointDetails, is_sealed}
use chancery.Audit.Seal.{Sealing, seal_rows, is_pending}
use chancery.Audit.Verify.{checkpoint_for, vouches}
use chancery.Audit.Chain.{Ascending}
use chancery.Audit.Sealing.{
  sealed_state, seal_row_cases, seal_rows-nil, seal_rows-skip, seal_rows-take,
}

-- With its old hashes put back, the new row is the old one; a sealed row is the same.
pub record KeptRow (r r' : Row) : Type 0 where
  pub logged : record r' { prev_hash = r.prev_hash; entry_hash = r.entry_hash } ≡ r
  pub settled : is_sealed r ≡ true → r' ≡ r

abbrev pub Kept : List Row → List Row → Type 0
Kept [] [] = Unit
Kept [] (r' ∷ rs') = ⊥
Kept (r ∷ rs) [] = ⊥
Kept (r ∷ rs) (r' ∷ rs') = KeptRow r r' × Kept rs rs'

pub KeptRow-refl : (r : Row) → KeptRow r r
KeptRow-refl r = record { logged = refl; settled = λ _. refl }

module _ (lib : Library) (now grace : ℕ) where
  pub seal_rows-Kept :
      (from : ℕ) (s : Sealing) (rs : List Row) → Kept rs (seal_rows lib now grace from s rs).1
  seal_rows-Kept from s [] = rw (seal_rows-nil lib now grace from s) tt
  seal_rows-Kept from s (r ∷ rs) = elim (Bool-cases (is_pending from r && is_none s.stopped)) [
    | inr idle ↦
        rw (seal_rows-skip lib now grace from s r rs idle)
          (KeptRow-refl r, seal_rows-Kept from s rs)
    | inl busy ↦ elim (seal_row_cases lib now grace s r) [
      | inl (w, e) ↦
          rw (seal_rows-take lib now grace from s _ r _ rs busy e)
            (KeptRow-refl r, seal_rows-Kept from (record s { stopped = some w }) rs)
      | inr (g, e) ↦ rw (seal_rows-take lib now grace from s _ r _ rs busy e) (
        record { logged = refl; settled = λ t. ground arith },
        seal_rows-Kept from (sealed_state lib now grace s r) rs,
      )
    ]
  ]

KeptRow-id : (r r' : Row) → KeptRow r r' → r'.id ≡ r.id
KeptRow-id r r' k = ap (λ x. x.id) k.logged

pub Kept-Ascending : (lo : ℕ) (rs rs' : List Row) → Kept rs rs' → Ascending lo rs → Ascending lo rs'
Kept-Ascending lo [] [] k a = tt
Kept-Ascending lo [] (r' ∷ rs') k a = elim k [ ]
Kept-Ascending lo (r ∷ rs) [] k a = elim k [ ]
Kept-Ascending lo (r ∷ rs) (r' ∷ rs') k a =
    let i = KeptRow-id r r' k.0 in (rw i a.0, rw i (Kept-Ascending r.id rs rs' k.1 a.1))

-- The details of the checkpoint that is found, without the row.
abbrev pub found_details : Option (Row × CheckpointDetails) → Option CheckpointDetails
found_details none = none
found_details (some (cp, d)) = some d

module _ (lib : Library) where
  vouches-Kept :
      (n : ℕ) (r r' : Row)
      → KeptRow r r'
      → found_details (vouches lib n r') ≡ found_details (vouches lib n r)
  unfolding vouches
  vouches-Kept n r r' k = ground (arith, ap (λ x. x.action) k.logged, ap (λ x. x.details) k.logged)

  pub found_details-eq :
      (o o' : Option (Row × CheckpointDetails)) (cp : Row) (d : CheckpointDetails)
      → found_details o' ≡ found_details o
      → o ≡ some (cp, d)
      → (cp' : Row) × (o' ≡ some (cp', d))
  found_details-eq o none cp d e f = cc (e, ap found_details f)
  found_details-eq o (some (cp', d')) cp d e f =
      let same : d' ≡ d = cc (e, ap found_details f) in (cp', ap (λ x. some (cp', x)) same)

  pub checkpoint_for-Kept :
      (n : ℕ) (rs rs' : List Row)
      → Kept rs rs'
      → found_details (checkpoint_for lib n rs') ≡ found_details (checkpoint_for lib n rs)
  unfolding checkpoint_for
  checkpoint_for-Kept n [] [] k = refl
  checkpoint_for-Kept n [] (r' ∷ rs') k = elim k [ ]
  checkpoint_for-Kept n (r ∷ rs) [] k = elim k [ ]
  checkpoint_for-Kept n (r ∷ rs) (r' ∷ rs') k =
      ground (arith, checkpoint_for-Kept n rs rs' k.1, vouches-Kept n r r' k.0)
