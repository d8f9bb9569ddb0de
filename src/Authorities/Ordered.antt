-- ===== src/Authorities/Ordered.antt =====
-- What `_order_chain` of app/services/ca_service.py returns.
use chancery.Prelude.{
  ℕ, zero, suc, ◌<◌, ◌≡◌, refl, sym, ap, ◌∙◌, String, Option, none, some, true, false, not, List,
  [], ◌∷◌, Elem, here, there, Option-cases, none-not_some, inl, inr, arith, if◌then◌else◌, ==_refl,
  Bool-cases, str_eq, eq_iff, eq_refl, Result, ok, raise, ok_unique, raise_not_ok, if_true,
  if_false, some_unique, unseen, unseen-less,
}
use chancery.Authorities.Types.{Certificate, CaError, bundle_loop, not_verified, Crypto}
use chancery.Authorities.Bundle.{same_cert, self_issued, by_subject, is_ordered, add_above, climb}

-- Each certificate is issued by the next one.
abbrev pub Linked : Crypto → Certificate → List Certificate → Type 0
Linked x c [] = Unit
Linked x c (p ∷ ps) = (x.issued_by c p ≡ true) × (p.tbs.subject ≡ c.tbs.issuer) × Linked x p ps

-- New certificates of the bundle, one after the other.
abbrev pub Chosen : List Certificate → List Certificate → List Certificate → Type 0
Chosen certs seen [] = Unit
Chosen certs seen (p ∷ ps) = (is_ordered seen p ≡ false) × Elem p certs × Chosen certs (p ∷ seen) ps

by_subject-Elem :
    (certs : List Certificate) (subject : String) (p : Certificate)
    → by_subject certs subject ≡ some p
    → Elem p certs × (p.tbs.subject ≡ subject)
unfolding by_subject
by_subject-Elem [] subject p h = none-not_some none refl h
by_subject-Elem (c ∷ cs) subject p h = elim (Option-cases (by_subject cs subject)) [
  | inr (d, e) ↦
      let same : d ≡ p = some_unique (sym (later d e) ∙ h) in
      let r = by_subject-Elem cs subject d e in rw⁻¹ same (there r.0, r.1)
  | inl e ↦ elim (Bool-cases (str_eq c.tbs.subject subject)) [
    | inl y ↦
        let same : c ≡ p = some_unique (sym (now e y) ∙ h) in
        rw⁻¹ same (here, (eq_iff c.tbs.subject subject).0 y)
    | inr n ↦ none-not_some none refl (sym (never e n) ∙ h)
  ]
]
  where
    later :
        (d : Certificate) → by_subject cs subject ≡ some d → by_subject (c ∷ cs) subject ≡ some d
    later d e = rw e refl

    now :
        by_subject cs subject ≡ none
        → str_eq c.tbs.subject subject ≡ true
        → by_subject (c ∷ cs) subject ≡ some c
    now e y = rw (e, y) refl

    never :
        by_subject cs subject ≡ none
        → str_eq c.tbs.subject subject ≡ false
        → by_subject (c ∷ cs) subject ≡ none
    never e n = rw (e, n) refl

add_above-ok :
    (p : Certificate) (o : Option (Result CaError (List Certificate))) (ps : List Certificate)
    → add_above p o ≡ some (ok ps)
    → (rest : List Certificate) × (o ≡ some (ok rest)) × (ps ≡ p ∷ rest)
add_above-ok p none ps h = none-not_some none refl h
add_above-ok p (some (raise e)) ps h = raise_not_ok _ refl (some_unique h)
add_above-ok p (some (ok rest)) ps h = (rest, refl, sym (ok_unique _ refl (some_unique h)))

add_above-some :
    (p : Certificate) (r : Result CaError (List Certificate))
    → (q : Result CaError (List Certificate)) × (add_above p (some r) ≡ some q)
add_above-some p (ok ps) = (ok (p ∷ ps), refl)
add_above-some p (raise e) = (raise e, refl)

-- A round that goes on.
abbrev round :
    ℕ
    → Crypto
    → List Certificate
    → List Certificate
    → Certificate
    → Certificate
    → Option (Result CaError (List Certificate))
round fuel x certs seen c p =
    if is_ordered seen p
    then some (raise bundle_loop)
    else if not (x.issued_by c p)
    then some (raise not_verified)
    else add_above p (climb fuel x certs (p ∷ seen) p)

climb_self :
    (fuel : ℕ) (x : Crypto) (certs seen : List Certificate) (c : Certificate)
    → self_issued c ≡ true
    → climb fuel x certs seen c ≡ some (ok [])
unfolding climb
climb_self zero x certs seen c y = rw y refl
climb_self (suc fuel) x certs seen c y = rw y refl

climb-top :
    (fuel : ℕ) (x : Crypto) (certs seen : List Certificate) (c : Certificate)
    → self_issued c ≡ false
    → by_subject certs c.tbs.issuer ≡ none
    → climb (suc fuel) x certs seen c ≡ some (ok [])
unfolding climb
climb-top fuel x certs seen c n e = rw (n, e) refl

climb-round :
    (fuel : ℕ) (x : Crypto) (certs seen : List Certificate) (c p : Certificate)
    → self_issued c ≡ false
    → by_subject certs c.tbs.issuer ≡ some p
    → climb (suc fuel) x certs seen c ≡ round fuel x certs seen c p
unfolding climb
climb-round fuel x certs seen c p n e = rw (n, e) refl

climb-zero :
    (x : Crypto) (certs seen : List Certificate) (c : Certificate)
    → self_issued c ≡ false
    → climb zero x certs seen c ≡ none
unfolding climb
climb-zero x certs seen c n = rw n refl

round_ok :
    (fuel : ℕ) (x : Crypto) (certs seen : List Certificate) (c p : Certificate)
    (ps : List Certificate)
    → round fuel x certs seen c p ≡ some (ok ps)
    → (is_ordered seen p ≡ false)
      × (x.issued_by c p ≡ true)
      × (rest : List Certificate) × (climb fuel x certs (p ∷ seen) p ≡ some (ok rest))
      × (ps ≡ p ∷ rest)
round_ok fuel x certs seen c p ps h = elim (Bool-cases (is_ordered seen p)) [
  | inl y ↦ raise_not_ok _ refl (some_unique (sym (if_true _ _ _ y) ∙ h))
  | inr n ↦ elim (Bool-cases (x.issued_by c p)) [
    | inr bad ↦ raise_not_ok _ refl (
        some_unique
          (sym (if_true (not (x.issued_by c p)) _ _ (ap not bad)) ∙ sym (if_false _ _ _ n) ∙ h))
    | inl good ↦
        let r =
          add_above-ok p (climb fuel x certs (p ∷ seen) p) ps (
            sym (if_false (not (x.issued_by c p)) _ _ (ap not good))
            ∙ sym (if_false _ _ _ n)
            ∙ h) in
        (n, good, r.0, r.1, r.2)
  ]
]

climb_stops :
    (x : Crypto) (certs seen : List Certificate) (c : Certificate) (ps : List Certificate)
    (o : Option (Result CaError (List Certificate)))
    → o ≡ some (ok [])
    → o ≡ some (ok ps)
    → Linked x c ps × Chosen certs seen ps
climb_stops x certs seen c ps o e h =
    let same : [] ≡ ps = ok_unique _ refl (some_unique (sym e ∙ h)) in rw⁻¹ same (tt, tt)

pub climbed :
    (fuel : ℕ) (x : Crypto) (certs seen : List Certificate) (c : Certificate)
    (ps : List Certificate)
    → climb fuel x certs seen c ≡ some (ok ps)
    → Linked x c ps × Chosen certs seen ps
climbed zero x certs seen c ps h = elim (Bool-cases (self_issued c)) [
  | inl y ↦ climb_stops x certs seen c ps _ (climb_self zero x certs seen c y) h
  | inr n ↦ none-not_some none refl (sym (climb-zero x certs seen c n) ∙ h)
]
climbed (suc fuel) x certs seen c ps h = elim (Bool-cases (self_issued c)) [
  | inl y ↦ climb_stops x certs seen c ps _ (climb_self (suc fuel) x certs seen c y) h
  | inr n ↦ elim (Option-cases (by_subject certs c.tbs.issuer)) [
    | inl e ↦ climb_stops x certs seen c ps _ (climb-top fuel x certs seen c n e) h
    | inr (p, e) ↦
        let m = by_subject-Elem certs c.tbs.issuer p e in
        let r =
          round_ok fuel x certs seen c p ps (sym (climb-round fuel x certs seen c p n e) ∙ h) in
        let rest = climbed fuel x certs (p ∷ seen) p r.2 r.3 in
        rw (r.4) ((r.1, m.1, rest.0), (r.0, m.0, rest.1))
  ]
]

unfoldable pub left : List Certificate → List Certificate → ℕ
left seen certs = unseen same_cert seen certs

pub same_cert_refl : (p : Certificate) → same_cert p p ≡ true
same_cert_refl p = rw (==_refl p.tbs.serial, eq_refl p.tbs.subject) refl

-- The loop ends: every round takes a new certificate of the bundle.
pub climb_ends :
    (fuel : ℕ) (x : Crypto) (certs seen : List Certificate) (c : Certificate)
    → left seen certs < fuel
    → (r : Result CaError (List Certificate)) × (climb fuel x certs seen c ≡ some r)
unfolding left
climb_ends zero x certs seen c l = absurd (omega (arith, l))
climb_ends (suc fuel) x certs seen c l = elim (Bool-cases (self_issued c)) [
  | inl y ↦ (ok [], climb_self (suc fuel) x certs seen c y)
  | inr n ↦ elim (Option-cases (by_subject certs c.tbs.issuer)) [
    | inl e ↦ (ok [], climb-top fuel x certs seen c n e)
    | inr (p, e) ↦ elim (Bool-cases (is_ordered seen p)) [
      | inl y ↦ (raise bundle_loop, climb-round fuel x certs seen c p n e ∙ if_true _ _ _ y)
      | inr new ↦
          let m = by_subject-Elem certs c.tbs.issuer p e in
          let less = unseen-less same_cert seen p p certs m.0 (same_cert_refl p) new in
          let rest = climb_ends fuel x certs (p ∷ seen) p (omega (arith, less, l)) in
          let step = climb-round fuel x certs seen c p n e ∙ if_false _ _ _ new in
          elim (Bool-cases (x.issued_by c p)) [
            | inr bad ↦
                (raise not_verified, step ∙ if_true (not (x.issued_by c p)) _ _ (ap not bad))
            | inl good ↦
                let r = add_above-some p rest.0 in
                (
                  r.0,
                  step
                      ∙ if_false (not (x.issued_by c p)) _ _ (ap not good)
                      ∙ ap (add_above p) rest.1
                      ∙ r.1,
                )
          ]
    ]
  ]
]
