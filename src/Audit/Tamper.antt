-- ===== src/Audit/Tamper.antt =====
-- Tamper evidence of the hash chain (app/services/audit_chain.py): what a head hash says of the
-- rows behind it, up to collisions of SHA-256.
use Prim.Native.Char.{Char, code}
use Prim.Native.String as Str
use text.Mathlib.TextLemmas.{head-eq_of_cons-eq, tail-eq_of_cons-eq, nil-append, cons-append}
use mathlib.Core.List.{append-nil}
use mathlib.Core.Path.{ap₂}
use chancery.Prelude.{
  ℕ, ◌≡◌, ◌≢◌, refl, sym, ap, ◌∙◌, String, none, some, true, List, [], ◌∷◌, ◌++◌, get_or, str_eq,
  eq_iff, arith, Bool-cases, ◌⊎◌, inl, inr, if◌then◌else◌,
}
use chancery.Audit.Row.{Row, Library, genesis, is_sealed, canonical, message, compute_hash}
use chancery.Audit.Seal.{last_where, head}
use chancery.Audit.Verify.{verify}
use chancery.Audit.Chain.{Ascending, AllUnsealed}
use chancery.Audit.Intact.{Intact, unsealed_first, from_start, vouched, verify-iff-Intact}
use chancery.Audit.Sealing.{Reaches, done, step, Chain-Reaches, Reaches-last}

-- Two texts that SHA-256 takes to one digest.
pub record Collision (lib : Library) : Type 0 where
  pub one : String
  pub other : String
  pub differ : one ≢ other
  pub collide : lib.sha256 one ≡ lib.sha256 other

abbrev pub NoNewline : String → Type 0
NoNewline Str.String.[] = Unit {0}
NoNewline (Str.String.◌∷◌ c s) = (code c ≢ 10) × NoNewline s

-- A hexadecimal digest is not empty and is one line.
pub record IsDigest (lib : Library) : Type 0 where
  pub nonempty : (s : String) → lib.sha256 s ≢ ""
  pub one_line : (s : String) → NoNewline (lib.sha256 s)

abbrev newline : Char
newline = "\n"

message-nil : (t : String) → message "" t ≡ Str.String.◌∷◌ newline t
unfolding message
message-nil t =
    nil-append _ ∙ (cons-append newline "" t ∙ ap (Str.String.◌∷◌ newline) (nil-append t))

message-cons :
    (c : Char) (p t : String) → message (Str.String.◌∷◌ c p) t ≡ Str.String.◌∷◌ c (message p t)
unfolding message
message-cons c p t = cons-append c p _

newline_first :
    (c : Char) (p t t' : String) → code c ≢ 10 → message "" t' ≢ message (Str.String.◌∷◌ c p) t
newline_first c p t t' h e =
    h (sym (ap code (head-eq_of_cons-eq (sym (message-nil t') ∙ (e ∙ message-cons c p t)))))

-- The previous hash ends at the first newline of a message, so a message determines its parts.
message_inj :
    (p p' t t' : String)
    → NoNewline p
    → NoNewline p'
    → message p t ≡ message p' t'
    → (p ≡ p') × (t ≡ t')
message_inj Str.String.[] Str.String.[] t t' h k e =
    (refl, tail-eq_of_cons-eq (sym (message-nil t) ∙ (e ∙ message-nil t')))
message_inj Str.String.[] (Str.String.◌∷◌ c p') t t' h k e = absurd (newline_first c p' t' t k.0 e)
message_inj (Str.String.◌∷◌ c p) Str.String.[] t t' h k e =
    absurd (newline_first c p t t' h.0 (sym e))
message_inj (Str.String.◌∷◌ c p) (Str.String.◌∷◌ c' p') t t' h k e =
    let same = sym (message-cons c p t) ∙ (e ∙ message-cons c' p' t') in
    let (q, r) = message_inj p p' t t' h.1 k.1 (tail-eq_of_cons-eq same) in
    (ap₂ Str.String.◌∷◌ (head-eq_of_cons-eq same) q, r)

module _ (lib : Library) where
  -- The hash after the given canonical texts, from the oldest on; and from the newest back.
  digest_from : String → List String → String
  digest_from p [] = p
  digest_from p (t ∷ ts) = digest_from (lib.sha256 (message p t)) ts

  digest_back : List String → String
  digest_back [] = genesis
  digest_back (t ∷ older) = lib.sha256 (message (digest_back older) t)

  rev_onto : List String → List String → List String
  rev_onto [] older = older
  rev_onto (t ∷ ts) older = rev_onto ts (t ∷ older)

  digest_from-back :
      (ts older : List String)
      → digest_from (digest_back older) ts ≡ digest_back (rev_onto ts older)
  unfolding digest_from digest_back rev_onto
  digest_from-back [] older = refl
  digest_from-back (t ∷ ts) older = digest_from-back ts (t ∷ older)

  rev_onto_twice : (ts a b : List String) → rev_onto (rev_onto ts a) b ≡ rev_onto a (ts ++ b)
  unfolding rev_onto
  rev_onto_twice [] a b = refl
  rev_onto_twice (t ∷ ts) a b = rev_onto_twice ts (t ∷ a) b

  rev_onto_self : (ts : List String) → rev_onto (rev_onto ts []) [] ≡ ts
  unfolding rev_onto
  rev_onto_self ts = rev_onto_twice ts [] [] ∙ append-nil ts

  digest_back_one_line : IsDigest lib → (ts : List String) → NoNewline (digest_back ts)
  unfolding digest_back
  digest_back_one_line d [] = tt
  digest_back_one_line d (t ∷ ts) = d.one_line _

  -- Equal digests come from equal texts, or two texts collide.
  digest_back_inj :
      (d : IsDigest lib) (ts us : List String)
      → digest_back ts ≡ digest_back us
      → (ts ≡ us) ⊎ Collision lib
  unfolding digest_back
  digest_back_inj d [] [] e = inl refl
  digest_back_inj d [] (u ∷ us) e = absurd (d.nonempty _ (sym e))
  digest_back_inj d (t ∷ ts) [] e = absurd (d.nonempty _ e)
  digest_back_inj d (t ∷ ts) (u ∷ us) e =
      let one = message (digest_back ts) t in
      let other = message (digest_back us) u in
      elim (Bool-cases (str_eq one other)) [
        | inr ne ↦ inr (record {
          one = one;
          other = other;
          differ = λ s. cc ((eq_iff one other).1 s, ne);
          collide = e;
        })
        | inl eq ↦
            let (p, q) =
              message_inj _ _ t u (digest_back_one_line d ts) (digest_back_one_line d us)
                ((eq_iff one other).0 eq) in
            elim (digest_back_inj d ts us p) [ inl same ↦ inl (ap₂ ◌∷◌ q same) | inr c ↦ inr c ]
      ]

  digest_from_inj :
      (d : IsDigest lib) (ts us : List String)
      → digest_from genesis ts ≡ digest_from genesis us
      → (ts ≡ us) ⊎ Collision lib
  unfolding digest_back
  digest_from_inj d ts us e =
      let back = sym (digest_from-back ts []) ∙ (e ∙ digest_from-back us []) in
      elim (digest_back_inj d (rev_onto ts []) (rev_onto us []) back) [
        | inl same ↦
            inl (sym (rev_onto_self ts) ∙ (ap (λ l. rev_onto l []) same ∙ rev_onto_self us))
        | inr c ↦ inr c
      ]

  -- The canonical texts of the sealed rows, oldest first: all that the chain covers.
  unfoldable pub covered : List Row → List String
  covered [] = []
  covered (r ∷ rs) = let rest = covered rs in if is_sealed r then canonical lib r ∷ rest else rest

  covered-AllUnsealed : (rs : List Row) → AllUnsealed rs → covered rs ≡ []
  unfolding covered
  covered-AllUnsealed [] u = refl
  covered-AllUnsealed (r ∷ rs) u = rw (u.0) (covered-AllUnsealed rs u.1)

  covered-sealed :
      (r : Row) (rs : List Row) (h : String)
      → r.entry_hash ≡ some h
      → covered (r ∷ rs) ≡ canonical lib r ∷ covered rs
  unfolding covered
  covered-sealed r rs h s = ground arith

  pub sealed_unsealed : (r : Row) → r.entry_hash ≡ none → is_sealed r ≢ true
  sealed_unsealed r u = ground arith

  head-none : (rs : List Row) → last_where is_sealed rs ≡ none → (head rs).1 ≡ genesis
  unfolding head
  head-none rs e = rw e

  Reaches-digest :
      {q : String} {m : ℕ} {p : String} {n : ℕ} {rs : List Row}
      → Reaches lib q m p n rs
      → digest_from p (covered rs) ≡ q
  unfolding digest_from covered compute_hash
  Reaches-digest {p = p} {rs = rs} (done a b u) = rw (covered-AllUnsealed rs u) a
  Reaches-digest {p = p} (step {r = r} {rs = rs} h i l s e c) =
      ap (digest_from p) (covered-sealed r rs h s)
      ∙ (ap (λ v. digest_from v (covered rs)) e ∙ Reaches-digest c)

  -- The log was never pruned: its first row is sealed and links to nothing.
  abbrev pub BeginsChain : List Row → Type 0
  BeginsChain [] = ⊥
  BeginsChain (r ∷ rs) = (is_sealed r ≡ true) × (get_or r.prev_hash genesis ≡ genesis)

  head-last :
      (rs : List Row) (r : Row) (q : String)
      → last_where is_sealed rs ≡ some r
      → r.entry_hash ≡ some q
      → (head rs).1 ≡ q
  unfolding head
  head-last rs r q e s = rw e (rw s)

  -- What `verify` accepts hashes to the head.
  head-digest :
      (rows : List Row)
      → Ascending 0 rows
      → BeginsChain rows
      → (verify lib none rows).is_ok ≡ true
      → (head rows).1 ≡ digest_from genesis (covered rows)
  head-digest [] a b k = absurd b
  head-digest (r ∷ rs) a b k = of_Intact r rs b ((verify-iff-Intact lib (r ∷ rs) a).0 k)
    where
      of_Reaches :
          (q : String) (m : ℕ) (n : ℕ) (rs : List Row)
          → Reaches lib q m genesis n rs
          → (head rs).1 ≡ digest_from genesis (covered rs)
      of_Reaches q m n rs c = elim (Reaches-last lib c) [
        | inl (e, x, y) ↦ head-none rs e ∙ (x ∙ sym (Reaches-digest c))
        | inr (last, e, t, y) ↦ head-last rs last q e t ∙ sym (Reaches-digest c)
      ]

      of_Intact :
          (r : Row) (rs : List Row)
          → BeginsChain (r ∷ rs)
          → Intact lib (r ∷ rs)
          → (head (r ∷ rs)).1 ≡ digest_from genesis (covered (r ∷ rs))
      of_Intact r rs b (unsealed_first u) = absurd (sealed_unsealed r u b.0)
      of_Intact r rs b (from_start h s g c) =
          let (q, m, t) = Chain-Reaches lib c in of_Reaches q m r.id (r ∷ rs) t
      of_Intact r rs b (vouched h cp d s ne f t c) = cc ((eq_iff _ "").1 b.1, ne)

  -- Two logs that begin at the genesis, that `verify` accepts and that have one head hash hold the
  -- same canonical text in each sealed row, or a collision of SHA-256 is at hand.
  pub tamper_evidence :
      (rows rows' : List Row)
      → IsDigest lib
      → Ascending 0 rows
      → Ascending 0 rows'
      → BeginsChain rows
      → BeginsChain rows'
      → (verify lib none rows).is_ok ≡ true
      → (verify lib none rows').is_ok ≡ true
      → (head rows).1 ≡ (head rows').1
      → (covered rows ≡ covered rows') ⊎ Collision lib
  tamper_evidence rows rows' d a a' b b' k k' e =
      digest_from_inj d (covered rows) (covered rows')
        (sym (head-digest rows a b k) ∙ (e ∙ head-digest rows' a' b' k'))
