-- ===== src/Authorities/Constraints.antt =====
-- `check_names` and `enforce` of app/services/name_constraints.py.
use chancery.Prelude.{
  suc, Option, none, some, Bool, not, ◌&&◌, List, [], ◌∷◌, length, filter_by, any_of, ltb,
  if◌then◌else◌, Result, ok, raise, for_each,
}
use chancery.Authorities.Types.{
  Text, same_kind, Entry, Constraints, Ca, CaError, excluded_name, outside_permitted, parent_of,
}
use chancery.Authorities.Names.{NameLib, within, requested_names}
use chancery.Authorities.Walk.{lineage}

abbrev pub matches : NameLib → Entry → Entry → Bool
matches lib n c = same_kind c.kind n.kind && within lib n.kind n.value c.value

unfoldable pub check_name : NameLib → Constraints → Entry → Result CaError (Unit {0})
unfolding within
check_name lib c n =
    let same_type = filter_by (λ p. same_kind p.kind n.kind) c.permitted in
    if any_of (matches lib n) c.excluded
    then raise excluded_name
    else if ltb 0 (length same_type)
        && not (any_of (λ p. within lib n.kind n.value p.value) same_type)
    then raise outside_permitted
    else ok tt

unfoldable pub check_names : NameLib → List Entry → Option Constraints → Result CaError (Unit {0})
unfolding check_name
check_names lib names none = ok tt
check_names lib names (some c) = for_each (check_name lib c) names

-- `enforce`, with the rows of the authorities; none where its loop does not end.
unfoldable pub enforce :
    NameLib → List Ca → Ca → Option Text → List Text → Option (Result CaError (Unit {0}))
unfolding check_names lineage requested_names
enforce lib cas c cn sans = elim (requested_names cn sans) [
  | raise e ↦ some (raise e)
  | ok [] ↦ some (ok tt)
  | ok (n ∷ names) ↦ elim (lineage (suc (length cas)) (parent_of cas) [] (some c)) [
    | none ↦ none
    | some cs ↦ some (for_each (λ d. check_names lib (n ∷ names) d.name_constraints) cs)
  ]
]
