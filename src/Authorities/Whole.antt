-- ===== src/Authorities/Whole.antt =====
-- `_order_chain` of app/services/ca_service.py takes the whole bundle, and ends.
use chancery.Prelude.{
  suc, ◌+◌, ◌≤◌, ◌≡◌, refl, sym, ap, ◌∙◌, none, some, Bool, true, false, ◌||◌, List, [], ◌∷◌,
  length, filter_by, Elem, here, there, Option-cases, none-not_some, inl, inr, arith, ◌==◌, ==_iff,
  Bool-cases, Result, ok, raise, ok_unique, raise_not_ok, if_true, if_false, some_unique,
  filter_by-Elem, unseen-less, unseen-length,
}
use chancery.Authorities.Types.{Certificate, CaError, Crypto}
use chancery.Authorities.Bundle.{
  same_cert, unique_certs, is_leaf, is_ordered, climb, whole_chain, chain_from, order_chain,
}
use mathlib.Core.Path.{subst}
use chancery.Authorities.Unrepeated.{
  found_cert, unique_certs-covers, unique_certs-Elem, chosen_there,
}
use chancery.Authorities.Ordered.{Linked, Chosen, climbed, climb_ends, same_cert_refl, left}

push : List Certificate → List Certificate → List Certificate
push seen [] = seen
push seen (p ∷ ps) = push (p ∷ seen) ps

or_assoc : (a b c : Bool) → ((a || b) || c) ≡ (b || (a || c))
or_assoc true true c = refl
or_assoc true false c = refl
or_assoc false b c = refl

is_ordered-push :
    (seen ps : List Certificate) (c : Certificate)
    → is_ordered (push seen ps) c ≡ (is_ordered seen c || is_ordered ps c)
unfolding push
is_ordered-push seen [] c = ground arith
is_ordered-push seen (p ∷ ps) c =
    is_ordered-push (p ∷ seen) ps c ∙ or_assoc (same_cert p c) (is_ordered seen c) (is_ordered ps c)

Chosen-count :
    (certs seen ps : List Certificate)
    → Chosen certs seen ps
    → length ps + left (push seen ps) certs ≤ left seen certs
unfolding push left
Chosen-count certs seen [] h = omega arith
Chosen-count certs seen (p ∷ ps) h =
    let less = unseen-less same_cert seen p p certs h.1 (same_cert_refl p) h.0 in
    omega (arith, less, Chosen-count certs (p ∷ seen) ps h.2)

none_left :
    (seen certs : List Certificate) (c : Certificate)
    → left seen certs ≡ 0
    → Elem c certs
    → is_ordered seen c ≡ true
unfolding left
none_left seen [] c z m = elim m [ ]
none_left seen (d ∷ certs) c z here = ground (arith, z)
none_left seen (d ∷ certs) c z (there m) = none_left seen certs c (ground (arith, z)) m

-- The chain of a bundle: every certificate is issued by the next, none is there twice, and every
-- certificate of the bundle is there.
pub record WholeChain (x : Crypto) (certs : List Certificate) (leaf : Certificate)
    (above : List Certificate) : Type 0 where
  pub leaf_there : Elem leaf certs
  pub linked : Linked x leaf above
  pub distinct : Chosen certs (leaf ∷ []) above
  pub covers : (c : Certificate) → Elem c certs → is_ordered (leaf ∷ above) c ≡ true

whole_chain-ok :
    (certs : List Certificate) (leaf : Certificate) (r : Result CaError (List Certificate))
    (chain : List Certificate)
    → whole_chain certs leaf r ≡ ok chain
    → (above : List Certificate) × (r ≡ ok above)
      × (chain ≡ leaf ∷ above)
      × (length (leaf ∷ above) ≡ length certs)
whole_chain-ok certs leaf (raise e) chain h = raise_not_ok _ refl h
whole_chain-ok certs leaf (ok above) chain h =
    elim (Bool-cases (length (leaf ∷ above) == length certs)) [
      | inl y ↦ (
        above,
        refl,
        sym (ok_unique _ refl (sym (if_true _ _ _ y) ∙ h)),
        (==_iff (length (leaf ∷ above)) (length certs)).0 y,
      )
      | inr n ↦ raise_not_ok _ refl (sym (if_false _ _ _ n) ∙ h)
    ]

complete :
    (x : Crypto) (certs : List Certificate) (leaf : Certificate) (above : List Certificate)
    → Elem leaf certs
    → climb (suc (length certs)) x certs (leaf ∷ []) leaf ≡ some (ok above)
    → length (leaf ∷ above) ≡ length certs
    → WholeChain x certs leaf above
unfolding left
complete x certs leaf above m h n =
    let c = climbed (suc (length certs)) x certs (leaf ∷ []) leaf above h in
    let count = Chosen-count certs (leaf ∷ []) above c.1 in
    let first = unseen-less same_cert [] leaf leaf certs m (same_cert_refl leaf) refl in
    let all_ = unseen-length same_cert [] certs in
    let none_ : left (push (leaf ∷ []) above) certs ≡ 0 = omega (arith, count, first, all_, n) in
    record {
      leaf_there = m;
      linked = c.0;
      distinct = c.1;
      covers = λ d k.
          let hit = none_left (push (leaf ∷ []) above) certs d none_ k in
          let apart = is_ordered-push (leaf ∷ []) above d in ground (arith, sym apart ∙ hit);
    }

chain_from-WholeChain :
    (x : Crypto) (certs leaves chain : List Certificate)
    → ((c : Certificate) → Elem c leaves → Elem c certs)
    → chain_from x certs leaves ≡ some (ok chain)
    → (leaf : Certificate) × (above : List Certificate) × (chain ≡ leaf ∷ above)
      × WholeChain x certs leaf above
unfolding chain_from
chain_from-WholeChain x certs [] chain sub h = raise_not_ok _ refl (some_unique h)
chain_from-WholeChain x certs (a ∷ b ∷ more) chain sub h = raise_not_ok _ refl (some_unique h)
chain_from-WholeChain x certs (leaf ∷ []) chain sub h =
    elim (Option-cases (climb (suc (length certs)) x certs (leaf ∷ []) leaf)) [
      | inl e ↦ none-not_some none refl (sym (no_climb e) ∙ h)
      | inr (r, e) ↦
          let w = whole_chain-ok certs leaf r chain (some_unique (sym (has_climb r e) ∙ h)) in
          (leaf, w.0, w.2, complete x certs leaf w.0 (sub leaf here) (e ∙ ap some w.1) w.3)
    ]
  where
    no_climb :
        climb (suc (length certs)) x certs (leaf ∷ []) leaf ≡ none
        → chain_from x certs (leaf ∷ []) ≡ none
    no_climb e = rw (chain_from, e) refl

    has_climb :
        (r : Result CaError (List Certificate))
        → climb (suc (length certs)) x certs (leaf ∷ []) leaf ≡ some r
        → chain_from x certs (leaf ∷ []) ≡ some (whole_chain certs leaf r)
    has_climb r e = rw (chain_from, e) refl

single : (certs : List Certificate) → length certs ≡ 1 → (c : Certificate) × (certs ≡ c ∷ [])
single [] h = absurd (omega (arith, h))
single (c ∷ []) h = (c, refl)
single (c ∷ d ∷ more) h = absurd (omega (arith, h))

single-WholeChain : (x : Crypto) (c : Certificate) → WholeChain x (c ∷ []) c []
single-WholeChain x c = record {
  leaf_there = here;
  linked = tt;
  distinct = tt;
  covers = λ d m. hits d m;
}
  where
    hits : (d : Certificate) → Elem d (c ∷ []) → is_ordered (c ∷ []) d ≡ true
    hits d here = rw (same_cert_refl d) refl
    hits d (there m) = elim m [ ]

certs-WholeChain :
    (x : Crypto) (bundle chain : List Certificate)
    → order_chain x bundle ≡ some (ok chain)
    → (leaf : Certificate) × (above : List Certificate) × (chain ≡ leaf ∷ above)
      × WholeChain x (unique_certs bundle []) leaf above
unfolding order_chain
certs-WholeChain x bundle chain h =
    let certs = unique_certs bundle [] in
    elim (Bool-cases (length certs == 1)) [
      | inl y ↦
          let s = single certs ((==_iff (length certs) 1).0 y) in
          let same : certs ≡ chain = ok_unique _ refl (some_unique (sym (if_true _ _ _ y) ∙ h)) in
          (s.0, [], sym same ∙ s.1, rw (s.1) (single-WholeChain x s.0))
      | inr n ↦
          chain_from-WholeChain x certs (filter_by (is_leaf certs) certs) chain
            (λ c m. filter_by-Elem (is_leaf certs) certs c m) (sym (if_false _ _ _ n) ∙ h)
    ]

-- A chain of the bundle: it is the leaf and the certificates above it, each issued by the next, no
-- two of one serial number and subject; all are of the bundle, and every certificate of the bundle is
-- in the chain with its serial number and its subject.
pub record ChainOf (x : Crypto) (bundle chain : List Certificate) : Type 0 where
  pub leaf : Certificate
  pub above : List Certificate
  pub is_chain : chain ≡ leaf ∷ above
  pub linked : Linked x leaf above
  pub distinct : Chosen (unique_certs bundle []) (leaf ∷ []) above
  pub of_bundle : (c : Certificate) → Elem c chain → Elem c bundle
  pub none_left_out :
      (c : Certificate)
      → Elem c bundle
      → (d : Certificate) × Elem d chain
        × (d.tbs.serial ≡ c.tbs.serial)
        × (d.tbs.subject ≡ c.tbs.subject)

-- A bundle that is accepted becomes a chain, leaf first, whatever order it came in: each certificate
-- is issued by the next, no two have one serial number and subject, all are of the bundle, and none of
-- the bundle is left out but for another one of its serial number and subject.
pub order_chain-WholeChain :
    (x : Crypto) (bundle chain : List Certificate)
    → order_chain x bundle ≡ some (ok chain)
    → ChainOf x bundle chain
order_chain-WholeChain x bundle chain h =
    let w = certs-WholeChain x bundle chain h in
    record {
      leaf = w.0;
      above = w.1;
      is_chain = w.2;
      linked = w.3.linked;
      distinct = w.3.distinct;
      of_bundle = λ c m. unique_certs-Elem bundle c (
          chosen_there (unique_certs bundle []) w.0 w.1 w.3.leaf_there w.3.distinct c
            (subst (Elem c) w.2 m));
      none_left_out = λ c m.
          let d = found_cert (unique_certs bundle []) c (unique_certs-covers bundle c m) in
          let f = found_cert chain d.0 (rw (w.2) (w.3.covers d.0 d.1)) in
          (f.0, f.1, f.2 ∙ d.2, f.3 ∙ d.3);
    }

chain_from_ends :
    (x : Crypto) (certs leaves : List Certificate)
    → ((c : Certificate) → Elem c leaves → Elem c certs)
    → (r : Result CaError (List Certificate)) × (chain_from x certs leaves ≡ some r)
unfolding chain_from left
chain_from_ends x certs [] sub = (_, refl)
chain_from_ends x certs (a ∷ b ∷ more) sub = (_, refl)
chain_from_ends x certs (leaf ∷ []) sub =
    let l = unseen-length same_cert (leaf ∷ []) certs in
    let r = climb_ends (suc (length certs)) x certs (leaf ∷ []) leaf (omega (arith, l)) in
    (whole_chain certs leaf r.0, rw (chain_from, r.1) refl)

-- The order of a bundle is found, or refused, for every bundle: the loop ends for certificates that
-- name each other in a circle too.
pub order_chain_ends :
    (x : Crypto) (bundle : List Certificate)
    → (r : Result CaError (List Certificate)) × (order_chain x bundle ≡ some r)
unfolding order_chain
order_chain_ends x bundle =
    let certs = unique_certs bundle [] in
    elim (Bool-cases (length certs == 1)) [
      | inl y ↦ (ok certs, if_true _ _ _ y)
      | inr n ↦
          let r =
            chain_from_ends x certs (filter_by (is_leaf certs) certs)
              (λ c m. filter_by-Elem (is_leaf certs) certs c m) in
          (r.0, if_false _ _ _ n ∙ r.1)
    ]
