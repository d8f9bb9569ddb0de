-- ===== src/Audit/SealVerify.antt =====
-- `seal` keeps a log that `verify` accepts acceptable (app/services/audit_chain.py).
use chancery.Prelude.{
  ◌&&◌, ℕ, ◌+◌, ◌<◌, ◌≡◌, ◌≢◌, refl, ap, ◌∙◌, String, none, some, Bool, true, false, List, [], ◌∷◌,
  get_or, is_none, arith, Option-cases, inl, inr,
}
use chancery.Audit.Row.{Row, Library, genesis, is_sealed, compute_hash}
use chancery.Audit.Seal.{last_where, seal_rows, is_pending, head, start_sealing, seal}
use chancery.Audit.Verify.{verify}
use chancery.Audit.Chain.{Ascending, AllUnsealed, Chain, link}
use chancery.Audit.Intact.{Intact, empty, unsealed_first, from_start, vouched, verify-iff-Intact}
use chancery.Audit.Sealing.{
  last_where-none, seal_row_cases, seal_rows-take, seal_rows-tail, sealed_state,
  compute_hash-sealed_row, Reaches, done, step, Chain-Reaches, Reaches-last, seal_rows-Chain,
  seal_rows-skip, seal_rows-nil,
}
use chancery.Audit.Kept.{
  Kept, seal_rows-Kept, Kept-Ascending, checkpoint_for-Kept, found_details-eq,
}

module _ (lib : Library) (now grace : ℕ) where
  -- The table after `seal`, by the last sealed row.
  seal-none :
      (rows : List Row)
      → last_where is_sealed rows ≡ none
      → (seal lib now grace rows).1
        ≡ (seal_rows lib now grace 0 (start_sealing lib now grace (none, genesis)) rows).1
  unfolding seal head
  seal-none rows e = rw e

  seal-some :
      (rows : List Row) (r : Row)
      → last_where is_sealed rows ≡ some r
      → (seal lib now grace rows).1
        ≡ (seal_rows lib now grace r.id
            (start_sealing lib now grace (some r.id, get_or r.entry_hash genesis))
            rows).1
  unfolding seal head
  seal-some rows r e = rw e

  pub seal-Kept : (rows : List Row) → Kept rows (seal lib now grace rows).1
  unfolding seal
  seal-Kept rows = seal_rows-Kept lib now grace _ _ rows

  -- The rows behind a sealed row, with the variables that `head` gives.
  seal_tail :
      (last : Row) (lo : ℕ) {q : String} {m : ℕ} {p : String} {rs : List Row}
      → Reaches lib q m p (lo + 1) rs
      → Ascending lo rs
      → last.entry_hash ≡ some q
      → last.id + 1 ≡ m
      → Chain lib p
          (lo + 1)
          (seal_rows lib now grace last.id
            (start_sealing lib now grace (some last.id, get_or last.entry_hash genesis))
            rs).1
  unfolding start_sealing
  seal_tail last lo c a t b =
      seal_rows-Chain lib now grace last.id _ lo c a refl b (ground arith) (ground arith) refl

  -- The first row is sealed: it stays, and the chain goes on behind it.
  record Extended (p : String) (r : Row) (rs : List Row) : Type 0 where
    pub rest : List Row
    pub table : (seal lib now grace (r ∷ rs)).1 ≡ r ∷ rest
    pub chain : Chain lib p r.id (r ∷ rest)

  last_where-sealed :
      (r : Row) (rs : List Row) (h : String)
      → r.entry_hash ≡ some h
      → last_where is_sealed (r ∷ rs) ≢ none
  unfolding last_where
  last_where-sealed r rs h s = ground arith

  Reaches-Extended :
      {q : String} {m : ℕ} (p : String) (r : Row) (rs : List Row) (h : String)
      → Ascending 0 (r ∷ rs)
      → r.entry_hash ≡ some h
      → Reaches lib q m p r.id (r ∷ rs)
      → Extended p r rs
  Reaches-Extended p r rs h a s (done x y u) = cc (s, u.0)
  Reaches-Extended p r rs h a s (step k i l e d c) = elim (Reaches-last lib (step k i l e d c)) [
    | inl (none_sealed, _, _) ↦ absurd (last_where-sealed r rs h s none_sealed)
    | inr (last, found, t, b) ↦
        let from = start_sealing lib now grace (some last.id, get_or last.entry_hash genesis) in
        let skip = seal_rows-skip lib now grace last.id from r rs (ground arith) in
        record {
          rest = (seal_rows lib now grace last.id from rs).1;
          table = seal-some (r ∷ rs) last found ∙ skip;
          chain = link k i l e d (seal_tail last r.id c a.1 t b);
        }
  ]

  last_where-above :
      (lo : ℕ) (rs : List Row) (x : Row)
      → Ascending lo rs
      → last_where is_sealed rs ≡ some x
      → lo < x.id
  unfolding last_where
  last_where-above lo [] x a e = cc
  last_where-above lo (r ∷ rs) x a e = elim (Option-cases (last_where is_sealed rs)) [
    | inl f ↦ let here : r ≡ x = ground arith in omega (arith, ap (λ (y : Row). y.id) here)
    | inr (y, f) ↦
        let later : y ≡ x = ground arith in
        omega (arith, last_where-above r.id rs y a.1 f, ap (λ (z : Row). z.id) later)
  ]

  last_where-tail :
      (r : Row) (rs : List Row) (x : Row)
      → r.entry_hash ≡ none
      → last_where is_sealed (r ∷ rs) ≡ some x
      → last_where is_sealed rs ≡ some x
  unfolding last_where
  last_where-tail r rs x u e = ground arith

  idle_before : (r last : Row) (b : Bool) → r.id < last.id → (is_pending last.id r && b) ≡ false
  idle_before r last b h = ground arith

  -- Some row is sealed, and the first one is not: it stays so.
  pub seal-unsealed_head :
      (r last : Row) (rs : List Row)
      → Ascending 0 (r ∷ rs)
      → r.entry_hash ≡ none
      → last_where is_sealed (r ∷ rs) ≡ some last
      → (rest : List Row) × ((seal lib now grace (r ∷ rs)).1 ≡ r ∷ rest)
  seal-unsealed_head r last rs a u f =
      let from = start_sealing lib now grace (some last.id, get_or last.entry_hash genesis) in
      let after = last_where-above r.id rs last a.1 (last_where-tail r rs last u f) in
      let idle = idle_before r last (is_none from.stopped) after in
      (
        (seal_rows lib now grace last.id from rs).1,
        seal-some (r ∷ rs) last f ∙ seal_rows-skip lib now grace last.id from r rs idle,
      )

  -- No row is sealed: the first row stays unsealed, or begins a chain.
  seal-first :
      (r : Row) (rs : List Row)
      → Ascending 0 (r ∷ rs)
      → AllUnsealed (r ∷ rs)
      → last_where is_sealed (r ∷ rs) ≡ none
      → Intact lib (seal lib now grace (r ∷ rs)).1
  unfolding start_sealing
  seal-first r rs a u f =
      let from = start_sealing lib now grace (none, genesis) in
      let busy : (is_pending 0 r && is_none from.stopped) ≡ true = ground arith in
      elim (seal_row_cases lib now grace from r) [
        | inl (w, e) ↦
            rw (seal-none (r ∷ rs) f ∙ seal_rows-take lib now grace 0 from _ r _ rs busy e)
              (unsealed_first u.0)
        | inr (g, e) ↦
            let tail =
              seal_rows-tail lib now grace 0 r.id (sealed_state lib now grace from r) (r.id + 1) rs
                a.1 (omega arith) u.1 refl refl in
            let h = compute_hash lib r genesis in
            rw (seal-none (r ∷ rs) f ∙ seal_rows-take lib now grace 0 from _ r _ rs busy e) (
              from_start h refl refl
                (link h refl refl refl (compute_hash-sealed_row lib now grace from r genesis) tail))
      ]

  last_where-AllUnsealed : (rs : List Row) → last_where is_sealed rs ≡ none → AllUnsealed rs
  unfolding last_where
  last_where-AllUnsealed [] e = tt
  last_where-AllUnsealed (r ∷ rs) e = (ground arith, last_where-AllUnsealed rs (ground arith))

  seal-Intact :
      (rows : List Row)
      → Ascending 0 rows
      → Intact lib rows
      → Intact lib (seal lib now grace rows).1
  seal-Intact rows a empty =
      rw (seal-none [] (last_where-none [] tt) ∙ seal_rows-nil lib now grace 0 _) empty
  seal-Intact (r ∷ rs) a (unsealed_first u) = elim (Option-cases (last_where is_sealed (r ∷ rs))) [
    | inl f ↦ seal-first r rs a (last_where-AllUnsealed (r ∷ rs) f) f
    | inr (last, f) ↦ let (rest, e) = seal-unsealed_head r last rs a u f in rw e (unsealed_first u)
  ]
  seal-Intact (r ∷ rs) a (from_start h s g c) =
      let (q, m, t) = Chain-Reaches lib c in
      let x = Reaches-Extended genesis r rs h a s t in rw (x.table) (from_start h s g x.chain)
  seal-Intact (r ∷ rs) a (vouched h cp d s ne f t c) =
      let (q, m, e) = Chain-Reaches lib c in
      let x = Reaches-Extended (get_or r.prev_hash genesis) r rs h a s e in
      let kept : Kept (r ∷ rs) (r ∷ x.rest) = rw x.table at (seal-Kept (r ∷ rs)) in
      let (cp', f') =
        found_details-eq lib _ _ cp d (checkpoint_for-Kept lib r.id (r ∷ rs) (r ∷ x.rest) kept) f in
      rw (x.table) (vouched h cp' d s ne f' t x.chain)

  -- Of a table in id order, if `verify` accepts the log, then it accepts the log after any `seal`.
  pub seal-verify :
      (rows : List Row)
      → Ascending 0 rows
      → (verify lib none rows).is_ok ≡ true
      → (verify lib none (seal lib now grace rows).1).is_ok ≡ true
  seal-verify rows a k =
      let a' = Kept-Ascending 0 rows (seal lib now grace rows).1 (seal-Kept rows) a in
      (verify-iff-Intact lib _ a').1 (seal-Intact rows a ((verify-iff-Intact lib rows a).0 k))
