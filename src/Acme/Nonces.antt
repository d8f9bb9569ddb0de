-- ===== src/Acme/Nonces.antt =====
-- `issue_nonce`, `consume_nonce` and the pruning of nonces in `maintain`, of
-- app/services/acme/service.py. The random value of a nonce is an argument.
use chancery.Prelude.{
  ℕ, ◌+◌, ◌≤◌, ◌≡◌, refl, sym, ◌∙◌, String, Option, none, some, Bool, true, false, not, List, [],
  ◌∷◌, filter_by, any_of, first_where, get_or, Option-cases, inl, inr, arith, leb, if◌then◌else◌,
  leb→le, str_eq, minutes,
}

pub record Nonce : Type 0 where
  pub value : String
  pub created_at : ℕ

abbrev pub find_nonce : String → List Nonce → Option Nonce
find_nonce v = first_where (λ n. str_eq n.value v)

-- The value is the primary key: a second row with it is refused by the database.
unfoldable pub issue_nonce : String → ℕ → List Nonce → Option (List Nonce)
issue_nonce v now table = elim (find_nonce v table) [
  | none ↦ some (record { value = v; created_at = now } ∷ table)
  | some _ ↦ none
]

unfoldable pub delete_nonce : String → List Nonce → List Nonce
delete_nonce v table = filter_by (λ n. not (str_eq n.value v)) table

-- `value_ok` is the test of the type and the length of the header's value.
unfoldable pub consume_nonce : ℕ → Bool → String → ℕ → List Nonce → Bool × List Nonce
unfolding delete_nonce
consume_nonce lifetime value_ok v now table =
    if not value_ok then (false, table) else elim (find_nonce v table) [
      | none ↦ (false, table)
      | some n ↦ (leb now (n.created_at + minutes lifetime), delete_nonce v table)
    ]

unfoldable pub prune_nonces : ℕ → ℕ → List Nonce → List Nonce
prune_nonces lifetime now table = filter_by (λ n. leb now (n.created_at + minutes lifetime)) table

-- What happens to the table after a moment.
pub data Traffic : Type 0 where
  issued : String → ℕ → Traffic
  consumed : Bool → String → ℕ → Traffic
  pruned : ℕ → Traffic

unfoldable pub handle : ℕ → Traffic → List Nonce → List Nonce
unfolding issue_nonce consume_nonce prune_nonces
handle lifetime (issued v now) table = get_or (issue_nonce v now table) table
handle lifetime (consumed value_ok v now) table = (consume_nonce lifetime value_ok v now table).1
handle lifetime (pruned now) table = prune_nonces lifetime now table

unfoldable pub handle_all : ℕ → List Traffic → List Nonce → List Nonce
unfolding handle
handle_all lifetime [] table = table
handle_all lifetime (t ∷ ts) table = handle_all lifetime ts (handle lifetime t table)

-- No issue of the value in the traffic.
abbrev pub reissues : String → Traffic → Bool
reissues v (issued w now) = str_eq w v
reissues v _ = false

find-filter_by :
    (v : String) (p : Nonce → Bool) (table : List Nonce)
    → find_nonce v table ≡ none
    → find_nonce v (filter_by p table) ≡ none
find-filter_by v p [] h = refl
find-filter_by v p (n ∷ table) h = ground (arith, find-filter_by v p table)

find-delete_nonce : (v : String) (table : List Nonce) → find_nonce v (delete_nonce v table) ≡ none
unfolding delete_nonce
find-delete_nonce v [] = refl
find-delete_nonce v (n ∷ table) = ground (arith, find-delete_nonce v table)

consumed-absent :
    (lifetime : ℕ) (value_ok : Bool) (v w : String) (now : ℕ) (table : List Nonce)
    → find_nonce v table ≡ none
    → find_nonce v (consume_nonce lifetime value_ok w now table).1 ≡ none
unfolding consume_nonce delete_nonce
consumed-absent lifetime false v w now table h = h
consumed-absent lifetime true v w now table h = elim (Option-cases (find_nonce w table)) [
  | inl e ↦ rw (e, consume_nonce) h
  | inr (n, e) ↦ rw (e, consume_nonce) (find-filter_by v _ table h)
]

issued-absent :
    (v w : String) (now : ℕ) (table : List Nonce)
    → str_eq w v ≡ false
    → find_nonce v table ≡ none
    → find_nonce v (get_or (issue_nonce w now table) table) ≡ none
unfolding issue_nonce
issued-absent v w now table d h = elim (Option-cases (find_nonce w table)) [
  | inl e ↦ rw (e, issue_nonce, d) h
  | inr (n, e) ↦ rw (e, issue_nonce) h
]

handle-absent :
    (lifetime : ℕ) (v : String) (t : Traffic) (table : List Nonce)
    → reissues v t ≡ false
    → find_nonce v table ≡ none
    → find_nonce v (handle lifetime t table) ≡ none
unfolding handle prune_nonces
handle-absent lifetime v (issued w now) table d h = issued-absent v w now table d h
handle-absent lifetime v (consumed value_ok w now) table d h =
    consumed-absent lifetime value_ok v w now table h
handle-absent lifetime v (pruned now) table d h = find-filter_by v _ table h

handle_all-absent :
    (lifetime : ℕ) (v : String) (ts : List Traffic) (table : List Nonce)
    → any_of (reissues v) ts ≡ false
    → find_nonce v table ≡ none
    → find_nonce v (handle_all lifetime ts table) ≡ none
unfolding handle_all
handle_all-absent lifetime v [] table d h = h
handle_all-absent lifetime v (t ∷ ts) table d h =
    handle_all-absent lifetime v ts _ (ground arith)
      (handle-absent lifetime v t table (ground arith) h)

absent-refused :
    (lifetime : ℕ) (value_ok : Bool) (v : String) (now : ℕ) (table : List Nonce)
    → find_nonce v table ≡ none
    → (consume_nonce lifetime value_ok v now table).0 ≡ false
unfolding consume_nonce
absent-refused lifetime false v now table h = refl
absent-refused lifetime true v now table h = rw (h, consume_nonce) refl

consumed-fresh :
    (lifetime : ℕ) (v : String) (now : ℕ) (table : List Nonce) (n : Nonce)
    → find_nonce v table ≡ some n
    → (consume_nonce lifetime true v now table).0 ≡ leb now (n.created_at + minutes lifetime)
unfolding consume_nonce
consumed-fresh lifetime v now table n e = rw (e, consume_nonce) refl

accepted :
    (lifetime : ℕ) (value_ok : Bool) (v : String) (now : ℕ) (table : List Nonce)
    → (consume_nonce lifetime value_ok v now table).0 ≡ true
    → ((n : Nonce) × (find_nonce v table ≡ some n) × (now ≤ n.created_at + minutes lifetime))
      × (find_nonce v (consume_nonce lifetime value_ok v now table).1 ≡ none)
unfolding consume_nonce
accepted lifetime false v now table k = cc
accepted lifetime true v now table k = elim (Option-cases (find_nonce v table)) [
  | inl e ↦ let refused = absent-refused lifetime true v now table e in cc
  | inr (n, e) ↦ (
    (n, e, leb→le _ _ (sym (consumed-fresh lifetime v now table n e) ∙ k)),
    rw (e, consume_nonce) (find-delete_nonce v table),
  )
]

-- An accepted nonce was in the table and is no older than its lifetime, and it is not accepted
-- again, whatever requests and pruning come between, until the server issues that value anew.
pub consume_once :
    (lifetime : ℕ) (value_ok : Bool) (v : String) (now : ℕ) (table : List Nonce) (ts : List Traffic)
    (again : Bool) (later : ℕ)
    → (consume_nonce lifetime value_ok v now table).0 ≡ true
    → any_of (reissues v) ts ≡ false
    → ((n : Nonce) × (find_nonce v table ≡ some n) × (now ≤ n.created_at + minutes lifetime))
      × ((consume_nonce lifetime again v later
            (handle_all lifetime ts (consume_nonce lifetime value_ok v now table).1)).0
          ≡ false)
consume_once lifetime value_ok v now table ts again later k d =
    let (stood, gone) = accepted lifetime value_ok v now table k in
    (stood, absent-refused lifetime again v later _ (handle_all-absent lifetime v ts _ d gone))
