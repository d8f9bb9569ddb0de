-- ===== src/Authorities/Chained.antt =====
-- What `chain_pems` of app/services/ca_service.py returns.
use chancery.Prelude.{
  ℕ, suc, ◌≡◌, refl, sym, ◌∙◌, Option, none, some, true, false, ◌&&◌, List, [], ◌∷◌, map, length,
  Elem, here, there, none-not_some, inl, inr, ◌↔◌, ◌==◌, Bool-cases, Result, ok, raise, ok_unique,
  if_true, if_false, some_unique, first_where-Elem,
}
use chancery.Authorities.Types.{
  Certificate, Ca, Alternate, is_cross, find_ca, parent_of, CaError, unusable_alternate,
}
use chancery.Authorities.Walk.{lineage, lineage_ends, Inside}
use chancery.Authorities.Reaches.{Above, Known, lineage_complete, lineage_sound}
use chancery.Authorities.Chain.{next_via, pem_via, refused_via, chain_pems}

find_ca-Elem : (cas : List Ca) (n : Option ℕ) (d : Ca) → find_ca cas n ≡ some d → Elem d cas
find_ca-Elem cas none d h = none-not_some none refl h
find_ca-Elem cas (some n) d h = (first_where-Elem (λ (c : Ca). c.id == n) cas d h).0

next_via-Inside : (cas : List Ca) (via : Option Alternate) → Inside cas (next_via cas via)
unfolding next_via
next_via-Inside cas none c d h = find_ca-Elem cas c.parent_id d h
next_via-Inside cas (some a) c d h = elim (Bool-cases (a.ca_id == c.id && is_cross a.kind)) [
  | inl y ↦ find_ca-Elem cas a.issuer_ca_id d (sym (if_true _ _ _ y) ∙ h)
  | inr n ↦ find_ca-Elem cas c.parent_id d (sym (if_false _ _ _ n) ∙ h)
]

chain_equation :
    (cas : List Ca) (c : Ca) (via : Option Alternate) (cs : List Ca)
    → refused_via cas via ≡ false
    → lineage (suc (length cas)) (next_via cas via) [] (some c) ≡ some cs
    → chain_pems cas c via ≡ some (ok (map (pem_via via) cs))
unfolding chain_pems
chain_equation cas c via cs n e = rw (n, e) refl

chain_refused :
    (cas : List Ca) (c : Ca) (via : Option Alternate)
    → refused_via cas via ≡ true
    → chain_pems cas c via ≡ some (raise unusable_alternate)
unfolding chain_pems
chain_refused cas c via y = rw y refl

-- The loop over the parents ends for every alternate and every shape of the store, cycles of parents
-- and of cross-certificates included.
pub chain_pems_ends :
    (cas : List Ca) (c : Ca) (via : Option Alternate)
    → (r : Result CaError (List Certificate)) × (chain_pems cas c via ≡ some r)
chain_pems_ends cas c via = elim (Bool-cases (refused_via cas via)) [
  | inl y ↦ (raise unusable_alternate, chain_refused cas c via y)
  | inr n ↦
      let walk = lineage_ends (next_via cas via) cas (some c) (next_via-Inside cas via) in
      (ok (map (pem_via via) walk.0), chain_equation cas c via walk.0 n walk.1)
]

map-Elem_from :
    {A B : Type 0} (f : A → B) (xs : List A) (b : B)
    → Elem b (map f xs)
    → (a : A) × Elem a xs × (f a ≡ b)
map-Elem_from f [] b m = elim m [ ]
map-Elem_from f (x ∷ xs) b here = (x, here, refl)
map-Elem_from f (x ∷ xs) b (there m) = let r = map-Elem_from f xs b m in (r.0, there r.1, r.2)

map-Elem_to : {A B : Type 0} (f : A → B) (xs : List A) (a : A) → Elem a xs → Elem (f a) (map f xs)
map-Elem_to f [] a m = elim m [ ]
map-Elem_to f (x ∷ xs) a here = here
map-Elem_to f (x ∷ xs) a (there m) = there (map-Elem_to f xs a m)

-- Some row at or above the first has this certificate.
abbrev pub CertifiedAbove : List Ca → Ca → Certificate → Type 0
CertifiedAbove cas c p = (a : Ca) × (k : ℕ) × Above (parent_of cas) a c k × (a.certificate ≡ p)

next_via-none : (cas : List Ca) → next_via cas none ≡ parent_of cas
unfolding next_via
next_via-none cas = refl

pem_via-none : pem_via none ≡ (λ (c : Ca). c.certificate)
unfolding pem_via
pem_via-none = refl

-- Without an alternate, the chain of a stored authority has the certificates of the authority and of
-- those that the parents lead to, all of them and no others.
pub chain_pems-CertifiedAbove :
    (cas : List Ca) (c : Ca) (certs : List Certificate) (p : Certificate)
    → Known cas c
    → chain_pems cas c none ≡ some (ok certs)
    → Elem p certs ↔ CertifiedAbove cas c p
unfolding next_via pem_via
chain_pems-CertifiedAbove cas c certs p kc h =
    let walk = lineage_ends (next_via cas none) cas (some c) (next_via-Inside cas none) in
    let e = chain_equation cas c none walk.0 refl walk.1 in
    let same : map (λ (d : Ca). d.certificate) walk.0 ≡ certs =
      ok_unique _ refl (some_unique (sym e ∙ h)) in
    rw⁻¹ same (
      λ m.
          let r = map-Elem_from (λ (d : Ca). d.certificate) walk.0 p m in
          let up = lineage_sound _ (parent_of cas) [] c r.0 walk.0 walk.1 r.1 in
          (r.0, up.0, up.1, r.2),
      λ h. rw⁻¹ (h.3) (
          map-Elem_to (λ (d : Ca). d.certificate) walk.0 h.0
            (lineage_complete _ cas c h.0 walk.0 h.1 kc walk.1 h.2)),
    )
