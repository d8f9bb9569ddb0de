-- ===== src/Audit/PruneKeeps.antt =====
-- The main theorem on retention (`prune` of app/services/audit_chain.py).
use chancery.Prelude.{
  ℕ, ◌+◌, ◌-◌, ◌≡◌, ◌≢◌, refl, ap, ◌∙◌, String, none, some, Bool, true, false, List, [], ◌∷◌, ◌++◌,
  filter_by, All, get_or, ◌⊎◌, inl, inr, arith, ◌==◌, ==_refl, Bool-cases, str_eq, eq_iff,
}
use chancery.Audit.Row.{Row, Library, CheckpointEvent, genesis}
use chancery.Audit.Prune.{
  contiguous, last_row, delete_rows, prune, prune_rows, prune_from, checkpoint_row, event_of,
  is_prunable,
}
use chancery.Audit.Verify.{verify, vouches}
use chancery.Audit.Chain.{Ascending}
use chancery.Audit.Intact.{Intact, unsealed_first, from_start, vouched, verify-iff-Intact}
use chancery.Audit.Tamper.{IsDigest, sealed_unsealed}
use chancery.Audit.Retention.{contiguous-prefix, delete_rows-rest}
use chancery.Audit.PruneVerify.{Behind, AllSealed, Chain-Behind, rest-Intact}

-- What `json` gives back for the details that `prune` writes.
pub record IsJson (lib : Library) : Type 0 where
  pub not_empty : (e : CheckpointEvent) → lib.dump_checkpoint e ≢ ""
  pub reads_back :
      (e : CheckpointEvent)
      → lib.loads (lib.dump_checkpoint e)
        ≡ some
            (record { pruned_through_id = some e.through_id; pruned_through_hash = e.through_hash })

str_eq-ne : (s t : String) → s ≢ t → (str_eq s t) ≡ false
str_eq-ne s t h = elim (Bool-cases (str_eq s t)) [
  | inl y ↦ absurd (h ((eq_iff s t).0 y))
  | inr n ↦ n
]

module _ (lib : Library) (now keep : ℕ) (dry_run : Bool) (new_id stamp : ℕ) (actor : String) where
  abbrev cp_of : Row → List Row → Row
  cp_of r pre =
      checkpoint_row lib now keep dry_run new_id stamp actor
        (event_of lib now keep dry_run new_id stamp actor r pre)

  -- What one run removes, and what it leaves.
  record Removed (rows table : List Row) : Type 0 where
    pub first : Row
    pub gone : List Row
    pub rest : List Row
    pub whole : rows ≡ first ∷ gone ++ rest
    pub sealed : AllSealed lib (first ∷ gone)
    pub left : table ≡ rest ++ (cp_of first gone ∷ [])

  filter_by-All : (p : Row → Bool) (rs : List Row) → All (λ r. p r ≡ true) (filter_by p rs)
  filter_by-All p [] = tt
  filter_by-All p (r ∷ rs) = elim (Bool-cases (p r)) [
    | inl y ↦ rw y (y, filter_by-All p rs)
    | inr n ↦ rw n (filter_by-All p rs)
  ]

  contiguous-sealed :
      (n : ℕ) (rs : List Row)
      → All (λ r. is_prunable now keep r ≡ true) rs
      → AllSealed lib (contiguous n rs)
  unfolding contiguous
  contiguous-sealed n [] h = tt
  contiguous-sealed n (r ∷ rs) h = elim (Bool-cases (r.id == n)) [
    | inl on ↦ rw on (ground arith, contiguous-sealed (r.id + 1) rs h.1)
    | inr off ↦ rw off tt
  ]

  prune_rows-left :
      (rows : List Row) (r : Row) (c : List Row)
      → dry_run ≡ false
      → (prune_rows lib now keep dry_run new_id stamp actor rows (r ∷ c)).table
        ≡ delete_rows (r ∷ c) rows ++ (cp_of r c ∷ [])
  unfolding prune_rows
  prune_rows-left rows r c d = rw d

  prune_rows-cases :
      (rows c rest : List Row)
      → Ascending 0 rows
      → rows ≡ c ++ rest
      → AllSealed lib c
      → ((prune_rows lib now keep dry_run new_id stamp actor rows c).table ≡ rows)
        ⊎ Removed rows (prune_rows lib now keep dry_run new_id stamp actor rows c).table
  prune_rows-cases rows [] rest a e s = inl (unfold prune_rows in refl)
  prune_rows-cases rows (r ∷ c) rest a e s = elim (Bool-cases dry_run) [
    | inl d ↦ inl (unfold prune_rows in ground arith)
    | inr d ↦
        let deleted = ap (delete_rows (r ∷ c)) e ∙ delete_rows-rest 0 r c rest (rw e at a) in
        inr (record {
          first = r;
          gone = c;
          rest = rest;
          whole = e;
          sealed = s;
          left = prune_rows-left rows r c d ∙ ap (λ t. t ++ (cp_of r c ∷ [])) deleted;
        })
  ]

  prune_from-step :
      (first : Row) (rest : List Row) (r : Row) (rs : List Row)
      → (r.id == first.id) ≡ true
      → prune_from lib now keep dry_run new_id stamp actor (first ∷ rest) (first ∷ rest) (r ∷ rs)
        ≡ prune_rows lib now keep dry_run new_id stamp actor
            (first ∷ rest)
            (contiguous first.id (r ∷ rs))
  unfolding prune_from
  prune_from-step first rest r rs on = rw on

  prune_from-cases :
      (first : Row) (rest old : List Row)
      → Ascending 0 (first ∷ rest)
      → filter_by (is_prunable now keep) (first ∷ rest) ≡ old
      → ((prune_from lib now keep dry_run new_id stamp actor
            (first ∷ rest)
            (first ∷ rest)
            old).table
          ≡ first ∷ rest)
        ⊎ Removed
            (first ∷ rest)
            (prune_from lib now keep dry_run new_id stamp actor
              (first ∷ rest)
              (first ∷ rest)
              old).table
  prune_from-cases first rest [] a e = inl (unfold prune_from in refl)
  prune_from-cases first rest (r ∷ rs) a e = elim (Bool-cases (r.id == first.id)) [
    | inr off ↦ inl (unfold prune_from in ground arith)
    | inl on ↦
        let lo : first.id - 1 + 1 ≡ first.id = omega arith in
        let (kept, w) =
          contiguous-prefix (first.id - 1) (is_prunable now keep) (first ∷ rest)
            (omega arith, a.1) in
        let sealed =
          contiguous-sealed first.id (r ∷ rs)
            (rw e at (filter_by-All (is_prunable now keep) (first ∷ rest))) in
        rw (prune_from-step first rest r rs on) (
          prune_rows-cases (first ∷ rest) (contiguous first.id (r ∷ rs)) kept a (rw (lo, e) at w)
            sealed)
  ]

  prune-cases :
      (rows : List Row)
      → Ascending 0 rows
      → ((prune lib now keep dry_run new_id stamp actor rows).table ≡ rows)
        ⊎ Removed rows (prune lib now keep dry_run new_id stamp actor rows).table
  unfolding prune
  prune-cases rows a = elim (Bool-cases (keep == 0)) [
    | inl off ↦ inl (rw off)
    | inr on ↦ rw on (prune_from-any rows a)
  ]
    where
      prune_from-any :
          (rows : List Row)
          → Ascending 0 rows
          → ((prune_from lib now keep dry_run new_id stamp actor rows rows
                (filter_by (is_prunable now keep) rows)).table
              ≡ rows)
            ⊎ Removed rows
                (prune_from lib now keep dry_run new_id stamp actor rows rows
                  (filter_by (is_prunable now keep) rows)).table
      prune_from-any [] a = inl refl
      prune_from-any (first ∷ rest) a =
          prune_from-cases first rest (filter_by (is_prunable now keep) (first ∷ rest)) a refl

  -- The details that the checkpoint's row carries are read back.
  cp_of-vouches :
      (j : IsJson lib) (r : Row) (c : List Row)
      → vouches lib ((last_row r c).id + 1) (cp_of r c)
        ≡ some (
          cp_of r c,
          record {
            pruned_through_id = some (last_row r c).id;
            pruned_through_hash = (last_row r c).entry_hash;
          },
        )
  unfolding vouches checkpoint_row
  cp_of-vouches j r c =
      let e = event_of lib now keep dry_run new_id stamp actor r c in
      let absent : str_eq (lib.dump_checkpoint e) "" ≡ false = str_eq-ne _ _ (j.not_empty e) in
      rw (absent, j.reads_back e, ==_refl ((last_row r c).id + 1))

  cp_of-unsealed : (r : Row) (c : List Row) → (cp_of r c).entry_hash ≡ none
  unfolding checkpoint_row
  cp_of-unsealed r c = refl

  -- The rest behind the checkpoint is intact.
  Removed-Intact :
      (rows table : List Row)
      → IsDigest lib
      → IsJson lib
      → Intact lib rows
      → Removed rows table
      → Intact lib table
  Removed-Intact rows table d j i m = rw m.left (
      rest-Intact lib d m.first m.gone m.rest (cp_of m.first m.gone) _
        (behind m.first m.gone m.rest m.sealed (rw m.whole at i)) (cp_of-unsealed m.first m.gone)
        (cp_of-vouches j m.first m.gone) refl)
    where
      behind :
          (r : Row) (c rest : List Row)
          → AllSealed lib (r ∷ c)
          → Intact lib (r ∷ c ++ rest)
          → Behind lib r c rest
      behind r c rest s (unsealed_first u) = absurd (sealed_unsealed lib r u s.0)
      behind r c rest s (from_start h e g k) = Chain-Behind lib genesis r.id r c rest s k
      behind r c rest s (vouched h cp f e ne g t k) =
          Chain-Behind lib (get_or r.prev_hash genesis) r.id r c rest s k

  -- If `verify` accepts a table in id order, then it accepts the table after `prune`, whose new row
  -- has the largest id.
  pub prune-verify :
      (rows : List Row)
      → IsDigest lib
      → IsJson lib
      → Ascending 0 rows
      → Ascending 0 (prune lib now keep dry_run new_id stamp actor rows).table
      → (verify lib none rows).is_ok ≡ true
      → (verify lib none (prune lib now keep dry_run new_id stamp actor rows).table).is_ok ≡ true
  prune-verify rows d j a a' k = elim (prune-cases rows a) [
    | inl same ↦ rw same k
    | inr m ↦
        let i = (verify-iff-Intact lib rows a).0 k in
        (verify-iff-Intact lib _ a').1 (Removed-Intact rows _ d j i m)
  ]
