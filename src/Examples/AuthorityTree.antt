-- ===== src/Examples/AuthorityTree.antt =====
-- Instances of the theorems on Authorities, at the root and the intermediate of Authorities.
use chancery.Prelude.{
  ℕ, suc, ◌+◌, ◌≤◌, ◌≡◌, refl, Option, none, some, Bool, true, List, [], ◌∷◌, map, length, Elem,
  here, there, ◌↔◌, Result, ok, raise,
}
use chancery.Issuance.Policy.{enforce_public_key_strength}
use chancery.Authorities.Types.{
  Text, dns, Entry, Certificate, Ca, Store, Alternate, reissue, approved, CaError, name_taken,
  find_ca,
}
use chancery.Authorities.Text.{codes}
use chancery.Authorities.Names.{parse_entry, dns_within, requested_names}
use chancery.Authorities.Constraints.{enforce}
use chancery.Authorities.Enforced.{AllowedAbove, enforce-accepts, enforce_ends}
use chancery.Authorities.Matching.{dns_within-wildcard, parse_entry-print_entry}
use chancery.Authorities.Created.{IssuedUnder, create_intermediate_ca-IssuedUnder}
use chancery.Authorities.Tree.{node, UpTo, at, up}
use chancery.Authorities.Steps.{root, intermediate}
use chancery.Authorities.Growth.{Reachable, empty, grown, path_length-bounds_depth}
use chancery.Authorities.Unique.{ActiveNamesUnique, Grown-ActiveNamesUnique}
use chancery.Authorities.Forest.{Grown, nothing, by_step, by_import}
use chancery.Authorities.Import.{Texts, import_ca_object}
use chancery.Authorities.Descent.{IsAbove, descends_decides}
use chancery.Authorities.Alternates.{reissue_certificate, reissue_ca_certificate}
use chancery.Authorities.CrossSign.{descends}
use chancery.Authorities.Reissue.{Reissued, reissue_certificate-Reissued}
use chancery.Authorities.Promotion.{SameOutcome, reissue-approve}
use chancery.Authorities.Chain.{chain_pems}
use chancery.Authorities.Chained.{CertifiedAbove, chain_pems-CertifiedAbove}
use chancery.Authorities.Bundle.{order_chain}
use chancery.Authorities.Whole.{ChainOf, order_chain-WholeChain, order_chain_ends}
use chancery.Examples.Authorities.{
  program, result_of, env, crypto, names, draw, request, made_root, issuing_request, issuing, store,
  root_made, issuing_made,
}

abbrev sans : List Text
sans = codes "DNS:www.example.com" ∷ []

abbrev www : Entry
www = record { kind = dns; value = codes "www.example.com" }

read_names : requested_names none sans ≡ ok (www ∷ [])
unfolding program
read_names = refl

issuing_known : find_ca store.cas (some issuing.id) ≡ some issuing
unfolding program
issuing_known = refl

enforce-accepts_example :
    (enforce names store.cas issuing none sans ≡ some (ok tt))
    ↔ AllowedAbove names store.cas issuing (www ∷ [])
enforce-accepts_example =
    enforce-accepts names store.cas issuing none sans (www ∷ []) issuing_known read_names

enforce_ends_example :
    (r : Result CaError (Unit {0})) × (enforce names store.cas issuing none sans ≡ some r)
enforce_ends_example = enforce_ends names store.cas issuing none sans

wildcard_inside : dns_within (codes "*.Example.com") (codes ".example.com.") ≡ true
unfolding program
wildcard_inside = refl

dns_within-wildcard_example : dns_within (codes "www.Example.com") (codes ".example.com.") ≡ true
dns_within-wildcard_example =
    dns_within-wildcard 119 (codes "ww") (codes "Example.com") (codes ".example.com.") refl refl
      refl wildcard_inside

parse_entry-print_entry_example : parse_entry (codes "DNS:www.example.com") ≡ ok (some www)
parse_entry-print_entry_example =
    parse_entry-print_entry www (codes "DNS:www.example.com") refl (refl, refl) refl

create_intermediate_ca-IssuedUnder_example :
    IssuedUnder env (draw 2000 8) issuing_request made_root.0 made_root.1 issuing store
create_intermediate_ca-IssuedUnder_example =
    create_intermediate_ca-IssuedUnder env (draw 2000 8) issuing_request made_root.0 made_root.1
      issuing store issuing_made

parent_stored : Elem made_root.0 made_root.1.cas
unfolding program
parent_stored = here

store_reached : Reachable env store
store_reached =
    grown
      (grown (empty 1 1) (root (draw 1000 7) (request "Root" (some 1) none) made_root.0 root_made))
      (intermediate (draw 2000 8) issuing_request made_root.0 issuing parent_stored issuing_made)

below_root : UpTo (map node store.cas) (node made_root.0) (node issuing) 1
unfolding program
below_root = up here (there here) refl at

root_limit : made_root.0.path_length ≡ some 1
unfolding program
root_limit = refl

path_length-bounds_depth_example : (m : ℕ) × ((node issuing).path_length ≡ some m) × (1 + m ≤ 1)
path_length-bounds_depth_example =
    path_length-bounds_depth env store (node issuing) (node made_root.0) 1 1 store_reached
      below_root root_limit

-- A certificate of another tree, imported under the name "Foreign".
abbrev foreign : Certificate
foreign = record made_root.0.certificate {
  tbs = record made_root.0.certificate.tbs { serial = 99; subject = "Foreign"; issuer = "Foreign" };
}

abbrev texts : Texts
texts = record { common_name = λ c. some c.tbs.subject; numbered = λ base n. base }

abbrev with_foreign : Ca × Store
with_foreign =
    result_of (issuing, store) (import_ca_object env texts "Foreign" foreign none none store)

foreign_imported :
    import_ca_object env texts "Foreign" foreign none none store
    ≡ ok (with_foreign.0, with_foreign.1)
unfolding program import_ca_object enforce_public_key_strength
foreign_imported = refl

-- A name that is in use is not imported.
name_refused : import_ca_object env texts "Root" foreign none none store ≡ raise name_taken
unfolding program import_ca_object enforce_public_key_strength
name_refused = refl

store-Grown : Grown env with_foreign.1
store-Grown =
    by_import texts "Foreign" foreign none none with_foreign.0
      (by_step
        (by_step (nothing 1 1)
          (root (draw 1000 7) (request "Root" (some 1) none) made_root.0 root_made))
        (intermediate (draw 2000 8) issuing_request made_root.0 issuing parent_stored issuing_made))
      foreign_imported

Grown-ActiveNamesUnique_example : ActiveNamesUnique with_foreign.1.cas
Grown-ActiveNamesUnique_example = Grown-ActiveNamesUnique env with_foreign.1 store-Grown

issuing_stored : Elem issuing with_foreign.1.cas
unfolding program import_ca_object enforce_public_key_strength
issuing_stored = there here

descends_decides_example :
    (b : Bool) × (descends (suc (length with_foreign.1.cas)) with_foreign.1.cas 1 (some issuing)
      ≡ some b)
    × ((b ≡ true) ↔ IsAbove with_foreign.1.cas 1 issuing)
descends_decides_example = descends_decides env with_foreign.1 1 issuing store-Grown issuing_stored

chain_made :
    chain_pems store.cas issuing none
    ≡ some (ok (issuing.certificate ∷ made_root.0.certificate ∷ []))
unfolding program
chain_made = refl

chain_pems-CertifiedAbove_example :
    Elem made_root.0.certificate (issuing.certificate ∷ made_root.0.certificate ∷ [])
    ↔ CertifiedAbove store.cas issuing made_root.0.certificate
chain_pems-CertifiedAbove_example =
    chain_pems-CertifiedAbove store.cas issuing (issuing.certificate ∷ made_root.0.certificate ∷ [])
      made_root.0.certificate issuing_known chain_made

abbrev again : Certificate × Option ℕ
again =
    result_of (issuing.certificate, none)
      (reissue_certificate env (draw 5000 11) issuing "secret" none store.cas)

reissued : reissue_certificate env (draw 5000 11) issuing "secret" none store.cas ≡ ok again
unfolding program
reissued = refl

reissue_certificate-Reissued_example :
    (issuer : Ca) × Reissued env (draw 5000 11) issuing issuer store.cas again.0.tbs
reissue_certificate-Reissued_example =
    reissue_certificate-Reissued env (draw 5000 11) issuing "secret" none store.cas again.0 again.1
      reissued

abbrev promoted : Alternate × Store
promoted =
    result_of
      (
        record {
          id = 0;
          ca_id = 0;
          kind = reissue;
          certificate = issuing.certificate;
          issuer_ca_id = none;
          serial_number = 0;
          not_before = 0;
          not_after = 0;
          created_by = none;
          signoff = issuing.signoff;
        },
        store,
      )
      (reissue_ca_certificate env (draw 5000 11) issuing "secret" none (some 1) approved store)

promotion :
    reissue_ca_certificate env (draw 5000 11) issuing "secret" none (some 1) approved store
    ≡ ok (promoted.0, promoted.1)
unfolding program
promotion = refl

reissue-approve_example :
    SameOutcome env (draw 5000 11) issuing "secret" none (some 1) 9000 2 store promoted.1 promoted.0
reissue-approve_example =
    reissue-approve env (draw 5000 11) issuing "secret" none (some 1) 9000 2 store promoted.1
      promoted.0 promotion

order_made :
    order_chain crypto (made_root.0.certificate ∷ issuing.certificate ∷ [])
    ≡ some (ok (issuing.certificate ∷ made_root.0.certificate ∷ []))
unfolding program
order_made = refl

order_chain-WholeChain_example :
    ChainOf crypto
      (made_root.0.certificate ∷ issuing.certificate ∷ [])
      (issuing.certificate ∷ made_root.0.certificate ∷ [])
order_chain-WholeChain_example =
    order_chain-WholeChain crypto (made_root.0.certificate ∷ issuing.certificate ∷ [])
      (issuing.certificate ∷ made_root.0.certificate ∷ []) order_made

order_chain_ends_example :
    (r : Result CaError (List Certificate)) × (order_chain crypto
        (made_root.0.certificate ∷ issuing.certificate ∷ [])
      ≡ some r)
order_chain_ends_example =
    order_chain_ends crypto (made_root.0.certificate ∷ issuing.certificate ∷ [])
