-- ===== src/Authorities/Bundle.antt =====
-- `_order_chain` of app/services/ca_service.py. After the dict of the bundle a certificate is known by
-- its serial number and its subject.
use chancery.Prelude.{
  ℕ, zero, suc, String, Option, none, some, Bool, not, ◌&&◌, List, [], ◌∷◌, length, filter_by,
  any_of, ◌==◌, if◌then◌else◌, str_eq, Result, ok, raise,
}
use chancery.Authorities.Types.{
  Certificate, CaError, not_single_chain, bundle_loop, not_verified, not_one_chain, Crypto,
}

abbrev pub same_cert : Certificate → Certificate → Bool
same_cert p q = p.tbs.serial == q.tbs.serial && str_eq p.tbs.subject q.tbs.subject

-- `unique[...] = cert`: in the place of the one it replaces, or at the end.
unfoldable pub put_cert : Certificate → List Certificate → List Certificate
put_cert c [] = c ∷ []
put_cert c (d ∷ ds) = let rest = put_cert c ds in if same_cert d c then c ∷ ds else d ∷ rest

unfoldable pub unique_certs : List Certificate → List Certificate → List Certificate
unfolding put_cert
unique_certs [] found = found
unique_certs (c ∷ cs) found = unique_certs cs (put_cert c found)

abbrev pub self_issued : Certificate → Bool
self_issued c = str_eq c.tbs.issuer c.tbs.subject

-- `c.subject not in issuer_keys`
unfoldable pub is_leaf : List Certificate → Certificate → Bool
is_leaf certs c = not (any_of (λ d. not (self_issued d) && str_eq d.tbs.issuer c.tbs.subject) certs)

-- `by_subject.get(subject)`: the last one of that subject.
unfoldable pub by_subject : List Certificate → String → Option Certificate
by_subject [] subject = none
by_subject (c ∷ cs) subject = elim (by_subject cs subject) [
  | some d ↦ some d
  | none ↦ if str_eq c.tbs.subject subject then some c else none
]

-- `parent in ordered`
abbrev pub is_ordered : List Certificate → Certificate → Bool
is_ordered seen p = any_of (λ q. same_cert q p) seen

abbrev pub add_above :
    Certificate
    → Option (Result CaError (List Certificate))
    → Option (Result CaError (List Certificate))
add_above p none = none
add_above p (some (raise e)) = some (raise e)
add_above p (some (ok ps)) = some (ok (p ∷ ps))

-- The loop from `current` upwards: the certificates above it. It takes fuel; none where that is used
-- up.
unfoldable pub climb :
    ℕ
    → Crypto
    → List Certificate
    → List Certificate
    → Certificate
    → Option (Result CaError (List Certificate))
unfolding by_subject
climb zero x certs seen c = if self_issued c then some (ok []) else none
climb (suc fuel) x certs seen c =
    if self_issued c then some (ok []) else elim (by_subject certs c.tbs.issuer) [
      | none ↦ some (ok [])
      | some p ↦
          let rest = climb fuel x certs (p ∷ seen) p in
          if is_ordered seen p
          then some (raise bundle_loop)
          else if not (x.issued_by c p)
          then some (raise not_verified)
          else add_above p rest
    ]

abbrev pub whole_chain :
    List Certificate
    → Certificate
    → Result CaError (List Certificate)
    → Result CaError (List Certificate)
whole_chain certs leaf (raise e) = raise e
whole_chain certs leaf (ok above) =
    if length (leaf ∷ above) == length certs then ok (leaf ∷ above) else raise not_one_chain

unfoldable pub chain_from :
    Crypto → List Certificate → List Certificate → Option (Result CaError (List Certificate))
unfolding climb
chain_from x certs [] = some (raise not_single_chain)
chain_from x certs (leaf ∷ []) = elim (climb (suc (length certs)) x certs (leaf ∷ []) leaf) [
  | none ↦ none
  | some r ↦ some (whole_chain certs leaf r)
]
chain_from x certs (leaf ∷ other ∷ more) = some (raise not_single_chain)

unfoldable pub order_chain : Crypto → List Certificate → Option (Result CaError (List Certificate))
unfolding unique_certs is_leaf chain_from
order_chain x bundle =
    let certs = unique_certs bundle [] in
    if length certs == 1
    then some (ok certs)
    else chain_from x certs (filter_by (is_leaf certs) certs)
