-- ===== src/Audit/PruneVerify.antt =====
-- A log that `verify` accepts is still accepted after `prune` (app/services/audit_chain.py): the
-- checkpoint vouches for the rows that are gone.
use chancery.Prelude.{
  ℕ, ◌+◌, ◌≡◌, refl, sym, ap, ◌∙◌, String, none, some, true, false, List, [], ◌∷◌, ◌++◌, All,
  All-append, get_or, Option-cases, inl, inr, arith, Bool-cases, str_eq, eq_iff,
}
use mathlib.Core.Path.{subst₂}
use chancery.Audit.Row.{Row, Library, CheckpointDetails, genesis, is_sealed, compute_hash}
use chancery.Audit.Prune.{last_row}
use chancery.Audit.Verify.{checkpoint_for, vouches}
use chancery.Audit.Chain.{Chain, open_end, link}
use chancery.Audit.Intact.{Intact, unsealed_first, vouched}
use chancery.Audit.Tamper.{IsDigest, sealed_unsealed}

module _ (lib : Library) where
  Chain-snoc :
      {p : String} {n : ℕ} {rs : List Row} (r : Row)
      → r.entry_hash ≡ none
      → Chain lib p n rs
      → Chain lib p n (rs ++ (r ∷ []))
  Chain-snoc {rs = rs} r u (open_end v) =
      open_end (All-append (λ x. x.entry_hash ≡ none) rs (r ∷ []) v (u, tt))
  Chain-snoc r u (link h i l s d c) = link h i l s d (Chain-snoc r u c)

  -- The chain behind a prefix of sealed rows.
  pub record Behind (r : Row) (pre rest : List Row) : Type 0 where
    pub hash : String
    pub source : String
    pub digest : lib.sha256 source ≡ hash
    pub stored : (last_row r pre).entry_hash ≡ some hash
    pub chain : Chain lib hash ((last_row r pre).id + 1) rest

  abbrev pub AllSealed : List Row → Type 0
  AllSealed = All (λ r. is_sealed r ≡ true)

  record Linked (p : String) (n : ℕ) (r : Row) (rs : List Row) : Type 0 where
    pub hash : String
    pub stored : r.entry_hash ≡ some hash
    pub digest : compute_hash lib r p ≡ hash
    pub next_id : r.id ≡ n
    pub links : get_or r.prev_hash genesis ≡ p
    pub chain : Chain lib hash (r.id + 1) rs

  Chain-Linked :
      {p : String} {n : ℕ} {r : Row} {rs : List Row}
      → is_sealed r ≡ true
      → Chain lib p n (r ∷ rs)
      → Linked p n r rs
  Chain-Linked {r = r} s (open_end u) = absurd (sealed_unsealed lib r u.0 s)
  Chain-Linked s (link h i l e d c) = record {
    hash = h;
    stored = e;
    digest = d;
    next_id = i;
    links = l;
    chain = c;
  }

  pub Chain-Behind :
      (p : String) (n : ℕ) (r : Row) (pre rest : List Row)
      → AllSealed (r ∷ pre)
      → Chain lib p n (r ∷ pre ++ rest)
      → Behind r pre rest
  unfolding last_row compute_hash
  Chain-Behind p n r [] rest a c =
      let b = Chain-Linked a.0 c in
      record { hash = b.hash; source = _; digest = b.digest; stored = b.stored; chain = b.chain }
  Chain-Behind p n r (x ∷ pre) rest a c =
      let l = Chain-Linked a.0 c in
      let b = Chain-Behind l.hash (r.id + 1) x pre rest a.1 l.chain in
      record {
        hash = b.hash;
        source = b.source;
        digest = b.digest;
        stored = b.stored;
        chain = b.chain;
      }

  checkpoint_for-snoc :
      (n : ℕ) (rs : List Row) (cp : Row) (found : CheckpointDetails)
      → vouches lib n cp ≡ some (cp, found)
      → checkpoint_for lib n (rs ++ (cp ∷ [])) ≡ some (cp, found)
  unfolding checkpoint_for
  checkpoint_for-snoc n [] cp found v = v
  checkpoint_for-snoc n (r ∷ rs) cp found v =
      rw (checkpoint_for-snoc n rs cp found v, checkpoint_for) refl

  digest_not_empty :
      IsDigest lib → (s h p : String) → lib.sha256 s ≡ h → p ≡ h → (str_eq p "") ≡ false
  digest_not_empty d s h p e l = elim (Bool-cases (str_eq p "")) [
    | inl y ↦ absurd (d.nonempty s (e ∙ (sym l ∙ (eq_iff p "").0 y)))
    | inr n ↦ n
  ]

  -- The rest of a chain, behind a checkpoint for the rows that are gone.
  pub rest-Intact :
      (d : IsDigest lib) (r : Row) (pre rest : List Row) (cp : Row) (found : CheckpointDetails)
      → Behind r pre rest
      → cp.entry_hash ≡ none
      → vouches lib ((last_row r pre).id + 1) cp ≡ some (cp, found)
      → found.pruned_through_hash ≡ (last_row r pre).entry_hash
      → Intact lib (rest ++ (cp ∷ []))
  rest-Intact d r pre [] cp found b u v f = unsealed_first u
  rest-Intact d r pre (x ∷ rest) cp found b u v f = elim (Option-cases x.entry_hash) [
    | inl e ↦ unsealed_first e
    | inr (h, e) ↦
        let l = Chain-Linked {r = x} (ground arith) b.chain in
        let v' : vouches lib x.id cp ≡ some (cp, found) =
          ap (λ n. vouches lib n cp) l.next_id ∙ v in
        vouched h cp found e
          (digest_not_empty d b.source b.hash (get_or x.prev_hash genesis) b.digest l.links)
          (checkpoint_for-snoc x.id (x ∷ rest) cp found v') (f ∙ (b.stored ∙ ap some (sym l.links)))
          (subst₂ (λ p n. Chain lib p n (x ∷ rest ++ (cp ∷ []))) (sym l.links) (sym l.next_id)
            (Chain-snoc cp u b.chain))
  ]
