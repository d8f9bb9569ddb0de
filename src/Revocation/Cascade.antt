-- ===== src/Revocation/Cascade.antt =====
-- The revocation of an authority reaches everything below it (app/services/crl_service.py).
use chancery.Prelude.{
  ℕ, suc, ◌+◌, ◌≡◌, refl, sym, ap, ◌∙◌, Option, none, some, Bool, true, false, not, List, [], ◌∷◌,
  map, all_of, count_where, inl, inr, arith, if◌then◌else◌, Bool-cases, ok, ok_unique, raise_not_ok,
}
use chancery.Revocation.Store.{
  ReasonName, Cert, Ca, Cas, ca, no_cas, and_ca, already_revoked, invalid_reason, revoke_active,
  revoke_tree, revoke_children, certs_revoked, certs_revoked_below, sub_cas_revoked, sub_cas_below,
  revoke_ca, ca_revocation,
}

abbrev pub is_dead : Cert → Bool
is_dead c = c.revocation.is_revoked

-- Every authority and every certificate of the tree is revoked.
unfoldable mutual
  pub AllRevoked : Ca → Type 0
  AllRevoked (ca id serial r certs children) =
      (r.is_revoked ≡ true) × (all_of is_dead certs ≡ true) × AllRevokedBelow children

  pub AllRevokedBelow : Cas → Type 0
  AllRevokedBelow no_cas = Unit
  AllRevokedBelow (and_ca c cs) = AllRevoked c × AllRevokedBelow cs

-- Below an authority that is revoked everything is revoked.
unfoldable mutual
  pub Closed : Ca → Type 0
  Closed (ca id serial r certs children) =
      (r.is_revoked ≡ true → (all_of is_dead certs ≡ true) × AllRevokedBelow children)
      × ClosedBelow children

  pub ClosedBelow : Cas → Type 0
  ClosedBelow no_cas = Unit
  ClosedBelow (and_ca c cs) = Closed c × ClosedBelow cs

dead-revoke_active :
    (now : ℕ) (reason : ReasonName) (certs : List Cert)
    → all_of is_dead (map (revoke_active now reason) certs) ≡ true
unfolding revoke_active
dead-revoke_active now reason [] = refl
dead-revoke_active now reason (c ∷ certs) = elim (Bool-cases c.revocation.is_revoked) [
  | inl y ↦ rw (y, dead-revoke_active now reason certs) refl
  | inr n ↦ rw (n, dead-revoke_active now reason certs) refl
]

Closed-AllRevoked : (c : Ca) → (ca_revocation c).is_revoked ≡ true → Closed c → AllRevoked c
unfolding AllRevoked Closed
Closed-AllRevoked (ca id serial r certs children) y k = let below = k.0 y in (y, below.0, below.1)

mutual
  unfolding revoke_tree AllRevoked Closed

  pub tree-AllRevoked :
      (now : ℕ) (reason : ReasonName) (c : Ca) → Closed c → AllRevoked (revoke_tree now reason c)
  tree-AllRevoked now reason (ca id serial r certs children) k =
      (refl, dead-revoke_active now reason certs, children-AllRevoked now reason children k.1)

  pub children-AllRevoked :
      (now : ℕ) (reason : ReasonName) (cs : Cas)
      → ClosedBelow cs
      → AllRevokedBelow (revoke_children now reason cs)
  children-AllRevoked now reason no_cas k = tt
  children-AllRevoked now reason (and_ca c cs) k =
      let below = tree-AllRevoked now reason c k.0 in
      let rest = children-AllRevoked now reason cs k.1 in
      elim (Bool-cases (ca_revocation c).is_revoked) [
        | inl y ↦ rw y (Closed-AllRevoked c y k.0, rest)
        | inr n ↦ rw n (below, rest)
      ]

-- How many certificates of the tree are revoked.
unfoldable mutual
  pub revoked_certs : Ca → ℕ
  revoked_certs (ca id serial r certs children) =
      count_where is_dead certs + revoked_certs_below children

  pub revoked_certs_below : Cas → ℕ
  revoked_certs_below no_cas = 0
  revoked_certs_below (and_ca c cs) = revoked_certs c + revoked_certs_below cs

-- How many authorities of the tree are revoked.
unfoldable mutual
  pub revoked_cas : Ca → ℕ
  revoked_cas (ca id serial r certs children) =
      (if r.is_revoked then 1 else 0) + revoked_cas_below children

  pub revoked_cas_below : Cas → ℕ
  revoked_cas_below no_cas = 0
  revoked_cas_below (and_ca c cs) = revoked_cas c + revoked_cas_below cs

count-revoke_active :
    (now : ℕ) (reason : ReasonName) (certs : List Cert)
    → count_where is_dead (map (revoke_active now reason) certs)
      ≡ count_where is_dead certs + count_where (λ c. not c.revocation.is_revoked) certs
unfolding revoke_active
count-revoke_active now reason [] = omega arith
count-revoke_active now reason (c ∷ certs) = ground (arith, count-revoke_active now reason certs)

mutual
  unfolding revoke_tree certs_revoked revoked_certs

  counts-revoke_tree :
      (now : ℕ) (reason : ReasonName) (c : Ca)
      → revoked_certs (revoke_tree now reason c) ≡ revoked_certs c + certs_revoked c
  counts-revoke_tree now reason (ca id serial r certs children) =
      let here_ = count-revoke_active now reason certs in
      let below = counts-revoke_children now reason children in omega (arith, here_, below)

  counts-revoke_children :
      (now : ℕ) (reason : ReasonName) (cs : Cas)
      → revoked_certs_below (revoke_children now reason cs)
        ≡ revoked_certs_below cs + certs_revoked_below cs
  counts-revoke_children now reason no_cas = omega arith
  counts-revoke_children now reason (and_ca c cs) =
      let below = counts-revoke_tree now reason c in
      let rest = counts-revoke_children now reason cs in
      elim (Bool-cases (ca_revocation c).is_revoked) [
        | inl y ↦ rw y (omega (arith, rest))
        | inr n ↦ rw n (omega (arith, below, rest))
      ]

mutual
  unfolding revoke_tree sub_cas_revoked revoked_cas

  cas-revoke_tree :
      (now : ℕ) (reason : ReasonName) (c : Ca)
      → (ca_revocation c).is_revoked ≡ false
      → revoked_cas (revoke_tree now reason c) ≡ suc (revoked_cas c + sub_cas_revoked c)
  cas-revoke_tree now reason (ca id serial r certs children) n =
      let below = cas-revoke_children now reason children in ground (arith, below, n)

  cas-revoke_children :
      (now : ℕ) (reason : ReasonName) (cs : Cas)
      → revoked_cas_below (revoke_children now reason cs) ≡ revoked_cas_below cs + sub_cas_below cs
  cas-revoke_children now reason no_cas = omega arith
  cas-revoke_children now reason (and_ca c cs) =
      let below = cas-revoke_tree now reason c in
      let rest = cas-revoke_children now reason cs in
      elim (Bool-cases (ca_revocation c).is_revoked) [
        | inl y ↦ rw y (omega (arith, rest))
        | inr n ↦ let b = below n in rw n (omega (arith, b, rest))
      ]

-- `revoke_ca` refuses or gives the tree with its counts.
pub revoke_ca-ok :
    (now : ℕ) (reason : Option ReasonName) (c d : Ca) (n m : ℕ)
    → revoke_ca now reason (some c) ≡ ok (d, n, m)
    → (r : ReasonName) × ((ca_revocation c).is_revoked ≡ false)
      × (d ≡ revoke_tree now r c)
      × (n ≡ certs_revoked c)
      × (m ≡ sub_cas_revoked c)
unfolding revoke_ca
revoke_ca-ok now none c d n m e = raise_not_ok _ {p = invalid_reason} refl e
revoke_ca-ok now (some r) c d n m e = elim (Bool-cases (ca_revocation c).is_revoked) [
  | inl y ↦ raise_not_ok (revoke_ca now (some r) (some c)) {p = already_revoked} (rw y refl) e
  | inr k ↦
      let same = ok_unique (revoke_ca now (some r) (some c)) e (rw k refl) in
      (r, k, ap (λ x. x.0) same, ap (λ x. x.1) same, ap (λ x. x.2) same)
]

-- After `revoke_ca` every authority and every certificate below is revoked, where that held already
-- below the authorities revoked before; the counts returned are the certificates newly revoked and
-- the authorities newly revoked below the named one.
pub revoke_ca-AllRevoked :
    (now : ℕ) (reason : Option ReasonName) (c d : Ca) (n m : ℕ)
    → Closed c
    → revoke_ca now reason (some c) ≡ ok (d, n, m)
    → AllRevoked d
      × (revoked_certs d ≡ revoked_certs c + n)
      × (revoked_cas d ≡ suc (revoked_cas c + m))
revoke_ca-AllRevoked now reason c d n m k e =
    let (r, fresh, tree, certs, subs) = revoke_ca-ok now reason c d n m e in
    (
      rw tree (tree-AllRevoked now r c k),
      ap revoked_certs tree
          ∙ (counts-revoke_tree now r c ∙ ap (λ x. revoked_certs c + x) (sym certs)),
      ap revoked_cas tree
          ∙ (cas-revoke_tree now r c fresh ∙ ap (λ x. suc (revoked_cas c + x)) (sym subs)),
    )
