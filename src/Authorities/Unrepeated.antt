-- ===== src/Authorities/Unrepeated.antt =====
-- The dict of the bundle in `_order_chain` of app/services/ca_service.py: what it keeps.
use chancery.Prelude.{
  ◌≡◌, refl, sym, ap, ◌∙◌, Bool, true, false, ◌||◌, List, [], ◌∷◌, Elem, here, there, ◌⊎◌, inl, inr,
  arith, ◌==◌, ==_iff, Bool-cases, str_eq, eq_iff, if_true, if_false, any_of-found,
}
use mathlib.Core.Path.{subst}
use chancery.Authorities.Types.{Certificate}
use chancery.Authorities.Bundle.{same_cert, put_cert, unique_certs, is_ordered}
use chancery.Authorities.Ordered.{Chosen, same_cert_refl}

abbrev SameId : Certificate → Certificate → Type 0
SameId d c = (d.tbs.serial ≡ c.tbs.serial) × (d.tbs.subject ≡ c.tbs.subject)

same_cert-SameId : (d c : Certificate) → same_cert d c ≡ true → SameId d c
same_cert-SameId d c h =
    let s : (d.tbs.serial == c.tbs.serial) ≡ true = ground (arith, h) in
    let t : str_eq d.tbs.subject c.tbs.subject ≡ true = ground (arith, h) in
    ((==_iff _ _).0 s, (eq_iff _ _).0 t)

SameId-same_cert : (d c : Certificate) → SameId d c → same_cert d c ≡ true
SameId-same_cert d c (s, t) =
    rw ((==_iff d.tbs.serial c.tbs.serial).1 s, (eq_iff d.tbs.subject c.tbs.subject).1 t) refl

-- The certificate that a test of the list has found.
pub found_cert :
    (cs : List Certificate) (c : Certificate)
    → is_ordered cs c ≡ true
    → (d : Certificate) × Elem d cs
      × (d.tbs.serial ≡ c.tbs.serial)
      × (d.tbs.subject ≡ c.tbs.subject)
found_cert cs c h =
    let f = any_of-found (λ d. same_cert d c) cs h in
    let s = same_cert-SameId f.0 c f.2 in (f.0, f.1, s.0, s.1)

replaced :
    (d c x : Certificate) → same_cert d c ≡ true → same_cert d x ≡ true → same_cert c x ≡ true
replaced d c x h k =
    let s = same_cert-SameId d c h in
    let t = same_cert-SameId d x k in SameId-same_cert c x (sym s.0 ∙ t.0, sym s.1 ∙ t.1)

put_cert-hit : (c : Certificate) (ds : List Certificate) → is_ordered (put_cert c ds) c ≡ true
unfolding put_cert
put_cert-hit c [] = rw (same_cert_refl c) refl
put_cert-hit c (d ∷ ds) = elim (Bool-cases (same_cert d c)) [
  | inl y ↦ rw y (rw (same_cert_refl c) refl)
  | inr n ↦ rw n (rw n (put_cert-hit c ds))
]

put_cert-keeps :
    (c x : Certificate) (ds : List Certificate)
    → is_ordered ds x ≡ true
    → is_ordered (put_cert c ds) x ≡ true
unfolding put_cert
put_cert-keeps c x [] h = cc
put_cert-keeps c x (d ∷ ds) h = elim (Bool-cases (same_cert d c)) [
  | inl y ↦ elim (Bool-cases (same_cert d x)) [
    | inl z ↦ rw y (rw (replaced d c x y z) refl)
    | inr n ↦ rw y (or_true (same_cert c x) (sym (ap (λ b. b || is_ordered ds x) n) ∙ h))
  ]
  | inr n ↦ elim (Bool-cases (same_cert d x)) [
    | inl z ↦ rw n (rw z refl)
    | inr m ↦ rw n (
        or_true (same_cert d x)
          (put_cert-keeps c x ds (sym (ap (λ b. b || is_ordered ds x) m) ∙ h)))
  ]
]
  where
    or_true : (a : Bool) {b : Bool} → b ≡ true → (a || b) ≡ true
    or_true true h = refl
    or_true false h = h

unique-keeps :
    (cs found : List Certificate) (x : Certificate)
    → is_ordered found x ≡ true
    → is_ordered (unique_certs cs found) x ≡ true
unfolding unique_certs
unique-keeps [] found x h = h
unique-keeps (c ∷ cs) found x h = unique-keeps cs (put_cert c found) x (put_cert-keeps c x found h)

unique-covers :
    (cs found : List Certificate) (x : Certificate)
    → Elem x cs
    → is_ordered (unique_certs cs found) x ≡ true
unfolding unique_certs
unique-covers [] found x m = elim m [ ]
unique-covers (c ∷ cs) found x here = unique-keeps cs (put_cert c found) c (put_cert-hit c found)
unique-covers (c ∷ cs) found x (there m) = unique-covers cs (put_cert c found) x m

pub unique_certs-covers :
    (bundle : List Certificate) (c : Certificate)
    → Elem c bundle
    → is_ordered (unique_certs bundle []) c ≡ true
unique_certs-covers bundle c m = unique-covers bundle [] c m

Elem-tail :
    (c d x : Certificate) (ds : List Certificate) → Elem x (c ∷ ds) → (x ≡ c) ⊎ Elem x (d ∷ ds)
Elem-tail c d x ds here = inl refl
Elem-tail c d x ds (there m) = inr (there m)

Elem-step :
    (c d x : Certificate) (ds es : List Certificate)
    → (Elem x es → (x ≡ c) ⊎ Elem x ds)
    → Elem x (d ∷ es)
    → (x ≡ c) ⊎ Elem x (d ∷ ds)
Elem-step c d x ds es f here = inr here
Elem-step c d x ds es f (there m) = elim (f m) [ inl e ↦ inl e | inr k ↦ inr (there k) ]

put_cert-Elem :
    (c x : Certificate) (ds : List Certificate) → Elem x (put_cert c ds) → (x ≡ c) ⊎ Elem x ds
unfolding put_cert
put_cert-Elem c x [] here = inl refl
put_cert-Elem c x [] (there m) = elim m [ ]
put_cert-Elem c x (d ∷ ds) m = elim (Bool-cases (same_cert d c)) [
  | inl y ↦ Elem-tail c d x ds (subst (Elem x) (if_true (same_cert d c) _ _ y) m)
  | inr n ↦
      Elem-step c d x ds (put_cert c ds) (put_cert-Elem c x ds)
        (subst (Elem x) (if_false (same_cert d c) _ _ n) m)
]

unique-Elem :
    (cs found : List Certificate) (x : Certificate)
    → Elem x (unique_certs cs found)
    → Elem x cs ⊎ Elem x found
unfolding unique_certs
unique-Elem [] found x m = inr m
unique-Elem (c ∷ cs) found x m = elim (unique-Elem cs (put_cert c found) x m) [
  | inl k ↦ inl (there k)
  | inr k ↦ elim (put_cert-Elem c x found k) [
    | inl e ↦ inl (subst (λ y. Elem y (c ∷ cs)) (sym e) here)
    | inr o ↦ inr o
  ]
]

pub unique_certs-Elem :
    (bundle : List Certificate) (c : Certificate) → Elem c (unique_certs bundle []) → Elem c bundle
unique_certs-Elem bundle c m = elim (unique-Elem bundle [] c m) [
  | inl k ↦ k
  | inr k ↦ absurd (elim k [ ])
]

pub chosen_there :
    (certs : List Certificate) (leaf : Certificate) (above : List Certificate)
    → Elem leaf certs
    → Chosen certs (leaf ∷ []) above
    → (c : Certificate) → Elem c (leaf ∷ above)
    → Elem c certs
chosen_there certs leaf above m h c here = m
chosen_there certs leaf above m h c (there k) = each (leaf ∷ []) above h k
  where
    each : (seen ps : List Certificate) → Chosen certs seen ps → Elem c ps → Elem c certs
    each seen [] h k = elim k [ ]
    each seen (p ∷ ps) h here = h.1
    each seen (p ∷ ps) h (there k) = each (p ∷ seen) ps h.2 k
