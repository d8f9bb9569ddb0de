-- ===== src/Audit/Intact.antt =====
-- When `verify` (app/services/audit_chain.py) reports a log as intact.
use chancery.Prelude.{
  ℕ, ◌≡◌, refl, Sum-cases, String, is_text-eq, none, some, true, false, List, [], ◌∷◌, get_or,
  str_eq, eq_iff, is_text, arith, Bool-cases, Option-cases, inl, inr, ◌↔◌, ◌≢◌,
}
use mathlib.Core.Path.{subst}
use chancery.Audit.Row.{Row, Library, CheckpointDetails, genesis}
use chancery.Audit.Verify.{
  Report, Walk, Start, new_report, from_genesis, from_checkpoint, checkpoint_for, begin,
  verify_rows, verify,
}
use chancery.Audit.Chain.{Ascending, Chain, Agrees}
use chancery.Audit.Walk.{walk-Chain, Chain-walk}

-- The log is empty, or its first row is not sealed yet, or its rows are a chain that begins with
-- the empty hash or with the hash that the newest checkpoint for the first row names.
pub data Intact (lib : Library) : List Row → Type 0 where
  empty : Intact lib []
  unsealed_first : {r : Row} {rs : List Row} → r.entry_hash ≡ none → Intact lib (r ∷ rs)
  from_start :
      {r : Row} {rs : List Row} (h : String)
      → r.entry_hash ≡ some h
      → get_or r.prev_hash genesis ≡ genesis
      → Chain lib genesis r.id (r ∷ rs)
      → Intact lib (r ∷ rs)
  vouched :
      {r : Row} {rs : List Row} (h : String) (cp : Row) (d : CheckpointDetails)
      → r.entry_hash ≡ some h
      → (str_eq (get_or r.prev_hash genesis) "") ≡ false
      → checkpoint_for lib r.id (r ∷ rs) ≡ some (cp, d)
      → d.pruned_through_hash ≡ some (get_or r.prev_hash genesis)
      → Chain lib (get_or r.prev_hash genesis) r.id (r ∷ rs)
      → Intact lib (r ∷ rs)

module _ (lib : Library) where
  abbrev walk_from : String → Start → Row → Walk
  walk_from prev start r = record {
    report = record new_report { start = some start };
    prev = prev;
    expected_id = r.id;
  }

  begin-unvouched :
      (r : Row) (rs : List Row) (prev : String) (start : Start)
      → (str_eq (get_or r.prev_hash genesis) "") ≡ false
      → checkpoint_for lib r.id (r ∷ rs) ≡ none
      → begin lib none (r ∷ rs) r ≢ inr (prev, start)
  unfolding begin
  begin-unvouched r rs prev start e f = ground arith

  begin-Intact :
      (r : Row) (rs : List Row) (h : String) (prev : String) (start : Start)
      → r.entry_hash ≡ some h
      → begin lib none (r ∷ rs) r ≡ inr (prev, start)
      → Chain lib prev r.id (r ∷ rs)
      → Intact lib (r ∷ rs)
  unfolding begin
  begin-Intact r rs h prev start s b c =
      elim (Bool-cases (str_eq (get_or r.prev_hash genesis) "")) [
        | inl e ↦
            let p : prev ≡ genesis = ground arith in
            from_start h s ((eq_iff _ _).0 e) (subst (λ v. Chain lib v r.id (r ∷ rs)) p c)
        | inr e ↦ elim (Option-cases (checkpoint_for lib r.id (r ∷ rs))) [
          | inl f ↦ absurd (begin-unvouched r rs prev start e f b)
          | inr ((cp, d), f) ↦
              let t : is_text d.pruned_through_hash (get_or r.prev_hash genesis) ≡ true =
                ground arith in
              let p : prev ≡ get_or r.prev_hash genesis = ground arith in
              vouched h cp d s e f (is_text-eq d.pruned_through_hash _ t)
                (subst (λ v. Chain lib v r.id (r ∷ rs)) p c)
        ]
      ]

  Intact-begin :
      (r : Row) (rs : List Row) (h : String)
      → r.entry_hash ≡ some h
      → Intact lib (r ∷ rs)
      → (prev : String) × (start : Start) × (begin lib none (r ∷ rs) r ≡ inr (prev, start))
        × Chain lib prev r.id (r ∷ rs)
  unfolding begin
  Intact-begin r rs h s (unsealed_first u) = cc
  Intact-begin r rs h s (from_start _ _ e c) =
      (genesis, from_genesis, ground (arith, eq_iff (get_or r.prev_hash genesis) ""), c)
  Intact-begin r rs h s (vouched _ cp d _ ne f t c) = (
    get_or r.prev_hash genesis,
    from_checkpoint cp.id d.pruned_through_id,
    ground (arith, eq_iff (get_or r.prev_hash genesis) (get_or r.prev_hash genesis)),
    c,
  )

  begin-failed :
      (all : List Row) (r : Row) (rep : Report) → begin lib none all r ≡ inl rep → rep.is_ok ≡ false
  unfolding begin
  begin-failed all r rep b = ground arith

  Agrees-refl : (lo : ℕ) (rs : List Row) → Agrees lo rs rs
  Agrees-refl lo rs n h = refl

  verify_rows-Intact :
      (r : Row) (rs : List Row) (h : String)
      → Ascending 0 (r ∷ rs)
      → r.entry_hash ≡ some h
      → (verify_rows lib none (r ∷ rs) (r ∷ rs)).is_ok ≡ true
      → Intact lib (r ∷ rs)
  unfolding verify_rows begin
  verify_rows-Intact r rs h a s k = elim (Sum-cases (begin lib none (r ∷ rs) r)) [
    | inl (rep, e) ↦ cc (begin-failed (r ∷ rs) r rep e, rw (s, e, verify_rows) at k)
    | inr ((prev, start), e) ↦ begin-Intact r rs h prev start s e (
        walk-Chain lib 0 (r ∷ rs) (walk_from prev start r) (r ∷ rs) a (Agrees-refl 0 (r ∷ rs))
          (rw (s, e, verify_rows) at k))
  ]

  Intact-verify_rows :
      (r : Row) (rs : List Row) (h : String)
      → Ascending 0 (r ∷ rs)
      → r.entry_hash ≡ some h
      → Intact lib (r ∷ rs)
      → (verify_rows lib none (r ∷ rs) (r ∷ rs)).is_ok ≡ true
  unfolding verify_rows begin
  Intact-verify_rows r rs h a s i =
      let (prev, start, e, c) = Intact-begin r rs h s i in
      rw (s, e, verify_rows)
        (Chain-walk lib 0 (r ∷ rs) (walk_from prev start r) (r ∷ rs) a (Agrees-refl 0 (r ∷ rs)) refl
          c)

  -- Of a table in id order, `verify` reports success exactly when it is intact.
  pub verify-iff-Intact :
      (rows : List Row) → Ascending 0 rows → ((verify lib none rows).is_ok ≡ true) ↔ Intact lib rows
  unfolding verify
  verify-iff-Intact [] a = (λ _. empty, λ _. refl)
  verify-iff-Intact (r ∷ rs) a = elim (Option-cases r.entry_hash) [
    | inl u ↦ (λ _. unsealed_first u, λ _. rw (u, verify_rows))
    | inr (h, s) ↦ (verify_rows-Intact r rs h a s, Intact-verify_rows r rs h a s)
  ]
