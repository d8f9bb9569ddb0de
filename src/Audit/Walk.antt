-- ===== src/Audit/Walk.antt =====
-- What the walk of `verify` (app/services/audit_chain.py) accepts is exactly a chain.
use chancery.Prelude.{
  ℕ, ◌+◌, ◌≡◌, sym, ◌∙◌, Sum-cases, String, none, some, true, false, List, [], ◌∷◌, get_or, eq_iff,
  arith, Option-cases, inl, inr,
}
use mathlib.Core.Path.{subst}
use chancery.Audit.Row.{Row, Library, genesis, compute_hash}
use chancery.Audit.Verify.{Report, Walk, later_sealed, check_row, walk}
use chancery.Audit.Chain.{
  Ascending, AllUnsealed, Chain, open_end, link, any_sealed_none, AllUnsealed-any, Agrees,
  Agrees-tail, Agrees-later,
}

module _ (lib : Library) where
  -- The variables after a sealed row that fits.
  abbrev after : Walk → Row → String → Walk
  after w r h = record {
    report = record w.report {
      checked = w.report.checked + 1;
      head_id = some r.id;
      head_hash = some h;
    };
    prev = h;
    expected_id = r.id + 1;
  }

  abbrev skipped : Walk → Walk
  skipped w = record w { report = record w.report { unsealed = w.report.unsealed + 1 } }

  -- The row fits the chain at this point.
  record Fits (w : Walk) (r : Row) (h : String) : Type 0 where
    pub next_id : r.id ≡ w.expected_id
    pub links : get_or r.prev_hash genesis ≡ w.prev
    pub hashes : compute_hash lib r w.prev ≡ h

  check_row-Fits :
      (all : List Row) (w w' : Walk) (r : Row) (h : String)
      → r.entry_hash ≡ some h
      → check_row lib all w r ≡ inr w'
      → Fits w r h × (w' ≡ after w r h)
  unfolding check_row
  check_row-Fits all w w' r h e c =
      let l1 = eq_iff (get_or r.prev_hash genesis) w.prev in
      let l2 = eq_iff (compute_hash lib r w.prev) h in
      (
        record { next_id = ground arith; links = ground (arith, l1); hashes = ground (arith, l2) },
        ground arith,
      )

  Fits-check_row :
      (all : List Row) (w : Walk) (r : Row) (h : String)
      → r.entry_hash ≡ some h
      → Fits w r h
      → check_row lib all w r ≡ inr (after w r h)
  unfolding check_row
  Fits-check_row all w r h e f =
      ground
        (arith, eq_iff (get_or r.prev_hash genesis) w.prev, eq_iff (compute_hash lib r w.prev) h)

  check_row-failed :
      (all : List Row) (w : Walk) (r : Row) (rep : Report)
      → check_row lib all w r ≡ inl rep
      → rep.is_ok ≡ false
  unfolding check_row
  check_row-failed all w r rep c = ground arith

  check_row-unsealed :
      (all : List Row) (w : Walk) (r : Row)
      → r.entry_hash ≡ none
      → later_sealed all r.id ≡ false
      → check_row lib all w r ≡ inr (skipped w)
  unfolding check_row
  check_row-unsealed all w r e l = ground arith

  check_row-unsealed_later :
      (all : List Row) (w w' : Walk) (r : Row)
      → r.entry_hash ≡ none
      → check_row lib all w r ≡ inr w'
      → later_sealed all r.id ≡ false
  unfolding check_row
  check_row-unsealed_later all w w' r e c = ground arith

  -- The chain of a row that the walk accepts, from the chain of the rows behind it.
  Chain-cons :
      (lo : ℕ) (all : List Row) (w w' : Walk) (r : Row) (rs : List Row)
      → Ascending lo (r ∷ rs)
      → Agrees lo all (r ∷ rs)
      → check_row lib all w r ≡ inr w'
      → Chain lib w'.prev w'.expected_id rs
      → Chain lib w.prev w.expected_id (r ∷ rs)
  Chain-cons lo all w w' r rs a g e c = elim (Option-cases r.entry_hash) [
    | inl u ↦
        let later = check_row-unsealed_later all w w' r u e in
        open_end (u, any_sealed_none rs (sym (Agrees-later lo all r rs a g) ∙ later))
    | inr (h, s) ↦
        let (f, same) = check_row-Fits all w w' r h s e in
        link h f.next_id f.links s f.hashes
          (subst (λ v. Chain lib (v.prev) (v.expected_id) rs) same c)
  ]

  -- What the walk accepts is a chain from the variables it was given.
  pub walk-Chain :
      (lo : ℕ) (all : List Row) (w : Walk) (rs : List Row)
      → Ascending lo rs
      → Agrees lo all rs
      → (walk lib all w rs).is_ok ≡ true
      → Chain lib w.prev w.expected_id rs
  unfolding walk
  walk-Chain lo all w [] a g k = open_end tt
  walk-Chain lo all w (r ∷ rs) a g k = elim (Sum-cases (check_row lib all w r)) [
    | inl (rep, e) ↦ cc (check_row-failed all w r rep e, rw (e, walk) at k)
    | inr (w', e) ↦
        Chain-cons lo all w w' r rs a g e
          (walk-Chain r.id all w' rs a.1 (Agrees-tail lo all r rs a g) (rw (e, walk) at k))
  ]

  -- Rows that are not sealed are passed over.
  AllUnsealed-walk :
      (lo : ℕ) (all : List Row) (w : Walk) (rs : List Row)
      → Ascending lo rs
      → Agrees lo all rs
      → w.report.is_ok ≡ true
      → AllUnsealed rs
      → (walk lib all w rs).is_ok ≡ true
  unfolding walk
  AllUnsealed-walk lo all w [] a g k u = k
  AllUnsealed-walk lo all w (r ∷ rs) a g k u =
      rw
        (
          check_row-unsealed all w r u.0 (Agrees-later lo all r rs a g ∙ AllUnsealed-any rs u.1),
          walk,
        )
        (AllUnsealed-walk r.id all (skipped w) rs a.1 (Agrees-tail lo all r rs a g) k u.1)

  -- A chain is accepted.
  pub Chain-walk :
      (lo : ℕ) (all : List Row) (w : Walk) (rs : List Row)
      → Ascending lo rs
      → Agrees lo all rs
      → w.report.is_ok ≡ true
      → Chain lib w.prev w.expected_id rs
      → (walk lib all w rs).is_ok ≡ true
  unfolding walk
  Chain-walk lo all w rs a g k (open_end u) = AllUnsealed-walk lo all w rs a g k u
  Chain-walk lo all w (r ∷ rs) a g k (link h n l s d c) =
      rw (Fits-check_row all w r h s (record { next_id = n; links = l; hashes = d }), walk)
        (Chain-walk r.id all (after w r h) rs a.1 (Agrees-tail lo all r rs a g) k c)
