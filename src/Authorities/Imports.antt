-- ===== src/Authorities/Imports.antt =====
-- The whole of `import_ca` of app/services/ca_service.py as steps of Forest.
use chancery.Prelude.{
  ℕ, suc, ◌≡◌, refl, sym, ◌∙◌, String, Option, none, some, Bool, ◌&&◌, List, [], ◌∷◌, length,
  first_where, Elem, here, get_or, is_some, Option-cases, inl, inr, ◌==◌, Bool-cases, ok, raise,
  ◌>>=◌, ok_unique, raise_not_ok, bind_ok, guard_ok,
}
use mathlib.Core.Path.{subst}
use chancery.Authorities.Types.{
  Key, Certificate, Approval, Ca, Store, has_signing_key, is_pending, looping, root_with_parent,
  need,
}
use chancery.Authorities.Created.{publish_keeps}
use chancery.Authorities.Create.{Env, Draw, publish_initial_crl}
use chancery.Authorities.Bundle.{self_issued, order_chain}
use chancery.Authorities.Import.{
  Texts, unique_ca_name, import_ca_object, import_parents, apply_import_approval,
}
use chancery.Authorities.ImportChain.{reversed, top_of, import_chain, import_ordered, import_ca}
use chancery.Authorities.Steps.{row_changed}
use chancery.Authorities.Tree.{node}
use chancery.Authorities.Forest.{Grown, by_step, by_import, import_ca_object-Imported}

module _ (e : Env) (t : Texts) where
  -- The rest of `import_parents` behind a certificate that is in the store, and one that is not.
  known_parent :
      (fallback : String) (c : Certificate) (cs : List Certificate) (parent : Option ℕ) (s : Store)
      (d : Ca)
      → first_where (λ (d : Ca). d.serial_number == c.tbs.serial) s.cas ≡ some d
      → import_parents e t fallback (c ∷ cs) parent s ≡ import_parents e t fallback cs (some d.id) s
  unfolding import_parents
  known_parent fallback c cs parent s d h = rw (h, import_parents) refl

  new_parent :
      (fallback : String) (c : Certificate) (cs : List Certificate) (parent : Option ℕ) (s : Store)
      → first_where (λ (d : Ca). d.serial_number == c.tbs.serial) s.cas ≡ none
      → import_parents e t fallback (c ∷ cs) parent s ≡ (
          need looping (
            unique_ca_name
              (suc (length s.cas))
              t
              s.cas
              (get_or (t.common_name c) fallback)
              (get_or (t.common_name c) fallback)
              2)
          >>= λ name. import_ca_object e t name c none parent s >>= λ r.
              import_parents e t fallback cs (some r.0.id) r.1 >>= λ q.
              ok (q.0, r.0.name ∷ q.1, q.2))
  unfolding import_parents
  new_parent fallback c cs parent s h = rw (h, import_parents) refl

  import_parents-Grown :
      (fallback : String) (cs : List Certificate) (parent : Option ℕ) (s : Store)
      (q : Option ℕ × List String × Store)
      → import_parents e t fallback cs parent s ≡ ok q
      → Grown e s
      → Grown e q.2
  unfolding import_parents
  import_parents-Grown fallback [] parent s q h g =
      subst (λ (q : Option ℕ × List String × Store). Grown e q.2) (ok_unique _ refl h) g
  import_parents-Grown fallback (c ∷ cs) parent s q h g =
      elim (Option-cases (first_where (λ (d : Ca). d.serial_number == c.tbs.serial) s.cas)) [
        | inr (d, f) ↦
            import_parents-Grown fallback cs (some d.id) s q
              (sym (known_parent fallback c cs parent s d f) ∙ h) g
        | inl f ↦
            let base = get_or (t.common_name c) fallback in
            let a =
              bind_ok (need looping (unique_ca_name (suc (length s.cas)) t s.cas base base 2)) _
                (sym (new_parent fallback c cs parent s f) ∙ h) in
            let r = bind_ok (import_ca_object e t a.0 c none parent s) _ a.2 in
            let k = bind_ok (import_parents e t fallback cs (some r.0.0.id) r.0.1) _ r.2 in
            let grown = by_import t a.0 c none parent r.0.0 g r.1 in
            subst (λ (q : Option ℕ × List String × Store). Grown e q.2) (ok_unique _ refl k.2)
              (import_parents-Grown fallback cs (some r.0.0.id) r.0.1 k.0 k.1 grown)
      ]

  import_object-Grown :
      (name : String) (cert : Certificate) (key : Option Key) (parent : Option ℕ) (s : Store)
      (r : Ca × Store)
      → import_ca_object e t name cert key parent s ≡ ok r
      → Grown e s
      → Grown e r.1 × Elem r.0 r.1.cas
  import_object-Grown name cert key parent s r h g =
      let i = import_ca_object-Imported e t name cert key parent s r.0 r.1 h in
      (by_import t name cert key parent r.0 g h, rw (i.stored) here)

  import_chain-Grown :
      (name fallback : String) (leaf : Certificate) (above : List Certificate) (key : Option Key)
      (parent : Option ℕ) (s : Store) (r : Ca × List String × Store)
      → import_chain e t name fallback leaf above key parent s ≡ ok r
      → Grown e s
      → Grown e r.2 × Elem r.0 r.2.cas
  unfolding import_chain
  import_chain-Grown name fallback leaf above key parent s r h g =
      let a = guard_ok (is_some parent && self_issued (top_of leaf above)) root_with_parent _ h in
      let q = bind_ok (import_parents e t fallback (reversed above) parent s) _ a.1 in
      let k = bind_ok (import_ca_object e t name leaf key q.0.0 q.0.2) _ q.2 in
      let grown = import_parents-Grown fallback (reversed above) parent s q.0 q.1 g in
      subst (λ (r : Ca × List String × Store). Grown e r.2 × Elem r.0 r.2.cas)
        (ok_unique _ refl k.2) (import_object-Grown name leaf key q.0.0 q.0.2 k.0 k.1 grown)

  import_ordered-Grown :
      (name fallback : String) (certs : List Certificate) (key : Option Key) (parent : Option ℕ)
      (s : Store) (r : Ca × List String × Store)
      → import_ordered e t name fallback certs key parent s ≡ ok r
      → Grown e s
      → Grown e r.2 × Elem r.0 r.2.cas
  unfolding import_ordered
  import_ordered-Grown name fallback [] key parent s r h g = raise_not_ok _ refl h
  import_ordered-Grown name fallback (cert ∷ []) key parent s r h g =
      let k = bind_ok (import_ca_object e t name cert key parent s) _ h in
      subst (λ (r : Ca × List String × Store). Grown e r.2 × Elem r.0 r.2.cas)
        (ok_unique _ refl k.2) (import_object-Grown name cert key parent s k.0 k.1 g)
  import_ordered-Grown name fallback (leaf ∷ c ∷ above) key parent s r h g =
      import_chain-Grown name fallback leaf (c ∷ above) key parent s r h g

-- The columns that the end of an import leaves alone.
SameRow : Ca → Ca → Type 0
SameRow d c = (node d ≡ node c) × (d.name ≡ c.name) × (d.is_revoked ≡ c.is_revoked)

published_row : (crl_ok : Bool) (c : Ca) → SameRow (publish_initial_crl crl_ok c) c
unfolding SameRow
published_row crl_ok c = let k = publish_keeps crl_ok c in rw (k.1) (refl, refl, refl)

approved_import_row :
    (created_by : Option ℕ) (status : Approval) (now : ℕ) (c : Ca)
    → SameRow (apply_import_approval created_by status now c) c
unfolding SameRow apply_import_approval
approved_import_row created_by status now c =
    elim (Bool-cases (is_pending status && has_signing_key c)) [
      | inl y ↦ rw y (refl, refl, refl)
      | inr n ↦ rw n (refl, refl, refl)
    ]

settled_row :
    (crl_ok : Bool) (created_by : Option ℕ) (status : Approval) (now : ℕ) (c : Ca)
    → SameRow (publish_initial_crl crl_ok (apply_import_approval created_by status now c)) c
unfolding SameRow
settled_row crl_ok created_by status now c =
    let a = approved_import_row created_by status now c in
    let p = published_row crl_ok (apply_import_approval created_by status now c) in
    (p.0 ∙ a.0, p.1 ∙ a.1, p.2 ∙ a.2)

-- A whole import, of one certificate or of a chain, is made of the steps that make a store grow.
pub import_ca-Grown :
    (e : Env) (t : Texts) (d : Draw) (name fallback : String) (certs : List Certificate)
    (key : Option Key) (parent created_by : Option ℕ) (status : Approval) (s : Store)
    (r : Ca × List String × Store)
    → import_ca e t d name fallback certs key parent created_by status s ≡ ok r
    → Grown e s
    → Grown e r.2
unfolding import_ca SameRow
import_ca-Grown e t d name fallback certs key parent created_by status s r h g =
    let o = bind_ok (get_or (order_chain e.crypto certs) (raise looping)) _ h in
    let k = bind_ok (import_ordered e t name fallback o.0 key parent s) _ o.2 in
    let i = import_ordered-Grown e t name fallback o.0 key parent s k.0 k.1 g in
    let row = settled_row d.crl_ok created_by status d.now k.0.0 in
    subst (λ (r : Ca × List String × Store). Grown e r.2) (ok_unique _ refl k.2)
      (by_step i.0 (row_changed k.0.0 _ i.1 row.0 row.1 (λ v. row.2 ∙ v) refl))
