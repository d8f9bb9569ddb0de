-- ===== src/Authorities/ImportChain.antt =====
-- `_import_chain` and `import_ca` of app/services/ca_service.py, from the parsed certificates on. The
-- Draw has the moment and whether the first CRL can be made.
use chancery.Prelude.{
  ℕ, String, Option, ◌&&◌, List, [], ◌∷◌, ◌++◌, get_or, is_some, Result, ok, raise, ◌>>=◌, ◌>>◌,
  refuse_if,
}
use chancery.Authorities.Types.{
  Key, Certificate, Approval, Ca, Store, CaError, root_with_parent, looping, not_single_chain,
}
use chancery.Authorities.Create.{Env, Draw, publish_initial_crl}
use chancery.Authorities.Alternates.{save_ca}
use chancery.Authorities.Bundle.{self_issued, order_chain}
use chancery.Authorities.Import.{Texts, import_ca_object, import_parents, apply_import_approval}

abbrev pub reversed : List Certificate → List Certificate
reversed [] = []
reversed (c ∷ cs) = reversed cs ++ c ∷ []

-- `ordered[-1]`
abbrev pub top_of : Certificate → List Certificate → Certificate
top_of leaf [] = leaf
top_of leaf (c ∷ cs) = top_of c cs

-- The row of the leaf, the names of the parents that were imported, and the store; the text is the
-- name of a parent that has no Common Name.
unfoldable pub import_chain :
    Env
    → Texts
    → String
    → String
    → Certificate
    → List Certificate
    → Option Key
    → Option ℕ
    → Store
    → Result CaError (Ca × List String × Store)
unfolding import_parents import_ca_object
import_chain e t name fallback leaf above key parent_id s = do
  refuse_if (is_some parent_id && self_issued (top_of leaf above)) root_with_parent
  q ← import_parents e t fallback (reversed above) parent_id s
  r ← import_ca_object e t name leaf key q.0 q.2
  ok (r.0, q.1, r.1)

unfoldable pub import_ordered :
    Env
    → Texts
    → String
    → String
    → List Certificate
    → Option Key
    → Option ℕ
    → Store
    → Result CaError (Ca × List String × Store)
unfolding import_chain import_ca_object
import_ordered e t name fallback [] key parent_id s = raise not_single_chain
import_ordered e t name fallback (cert ∷ []) key parent_id s = do
  r ← import_ca_object e t name cert key parent_id s
  ok (r.0, [], r.1)
import_ordered e t name fallback (leaf ∷ c ∷ above) key parent_id s =
    import_chain e t name fallback leaf (c ∷ above) key parent_id s

unfoldable pub import_ca :
    Env
    → Texts
    → Draw
    → String
    → String
    → List Certificate
    → Option Key
    → Option ℕ
    → Option ℕ
    → Approval
    → Store
    → Result CaError (Ca × List String × Store)
unfolding order_chain import_ordered apply_import_approval publish_initial_crl save_ca
import_ca e t d name fallback certs key parent_id created_by status s = do
  ordered ← get_or (order_chain e.crypto certs) (raise looping)
  r ← import_ordered e t name fallback ordered key parent_id s
  let c = publish_initial_crl d.crl_ok (apply_import_approval created_by status d.now r.0)
  ok (c, r.1, record r.2 { cas = save_ca c r.2.cas })
