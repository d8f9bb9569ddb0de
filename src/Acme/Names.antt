-- ===== src/Acme/Names.antt =====
-- The names of a new order (app/services/acme/service.py).
use chancery.Prelude.{
  ℕ, ◌≡◌, refl, sym, ap, ◌∙◌, String, Bool, true, false, not, ◌&&◌, ◌||◌, List, [], ◌∷◌, ◌++◌, map,
  length, all_of, All, get_or, is_some, inl, inr, arith, ltb, ◌==◌, if◌then◌else◌, ==_iff,
  Bool-cases, str_eq, eq_iff, Result, ok, raise, ◌>>=◌, ◌>>◌, refuse_if, ok_unique, raise_not_ok,
  Result-cases,
}
use Prim.Native.Char.{Char, code}
use Prim.Native.String as Str
use mathlib.Core.Path.{ap₂}
use text.Mathlib.TextEquality.{Char-path}
use chancery.Acme.Types.{Order, Authz, is_dns01}
use chancery.Acme.Orders.{
  Site, Item, Problem, NewIds, wildcard_base, parse_identifier, read_identifiers, parse_identifiers,
  add_name, is_in, new_authz, new_authzs, new_order, order_for, display_identifier,
}

-- A wildcard is proved by DNS only.
abbrev pub DnsOnly : Authz → Type 0
DnsOnly a = a.wildcard ≡ true → all_of (λ c. is_dns01 c.typ) a.challenges ≡ true

-- No name twice.
abbrev pub Distinct : List String → Type 0
Distinct [] = Unit
Distinct (n ∷ ns) = (is_in ns n ≡ false) × Distinct ns

star_dot :
    (c d : Char) (s : String)
    → (code c == 42 && code d == 46) ≡ true
    → Str.String.◌∷◌ "*" (Str.String.◌∷◌ "." s) ≡ Str.String.◌∷◌ c (Str.String.◌∷◌ d s)
star_dot c d s h =
    rw
      (
        Char-path c "*" (omega (arith, (==_iff (code c) 42).0 (ground arith))),
        Char-path d "." (omega (arith, (==_iff (code d) 46).0 (ground arith))),
      )
      refl

-- The base of a wildcard with its two characters before it is the name.
abbrev written : String → String
written v =
    if is_some (wildcard_base v)
    then Str.String.◌∷◌ "*" (Str.String.◌∷◌ "." (get_or (wildcard_base v) v))
    else get_or (wildcard_base v) v

written_lem : (v : String) → written v ≡ v
unfolding wildcard_base
written_lem Str.String.[] = refl
written_lem (Str.String.◌∷◌ c Str.String.[]) = refl
written_lem (Str.String.◌∷◌ c (Str.String.◌∷◌ d s)) =
    elim (Bool-cases (code c == 42 && code d == 46)) [
      | inl y ↦ rw y (star_dot c d s y)
      | inr other ↦ rw other refl
    ]

display-new_authz :
    (s : Site) (expires n m : ℕ) (v : String) → display_identifier (new_authz s expires n m v) ≡ v
unfolding display_identifier new_authz
display-new_authz s expires n m v = written_lem v

new_authz-DnsOnly : (s : Site) (expires n m : ℕ) (v : String) → DnsOnly (new_authz s expires n m v)
unfolding new_authz
new_authz-DnsOnly s expires n m v w = rw w refl

display-new_authzs :
    (s : Site) (expires : ℕ) (vs : List String) (n m : ℕ)
    → map display_identifier (new_authzs s expires n m vs) ≡ vs
unfolding new_authzs
display-new_authzs s expires [] n m = refl
display-new_authzs s expires (v ∷ vs) n m =
    ap₂ ◌∷◌ (display-new_authz s expires n m v) (display-new_authzs s expires vs _ _)

new_authzs-DnsOnly :
    (s : Site) (expires : ℕ) (vs : List String) (n m : ℕ)
    → All DnsOnly (new_authzs s expires n m vs)
unfolding new_authzs
new_authzs-DnsOnly s expires [] n m = tt
new_authzs-DnsOnly s expires (v ∷ vs) n m =
    (new_authz-DnsOnly s expires n m v, new_authzs-DnsOnly s expires vs _ _)

or_false : (b : Bool) → (b || false) ≡ b
or_false true = refl
or_false false = refl

is_in-append :
    (ns : List String) (v w : String) → is_in (ns ++ v ∷ []) w ≡ (is_in ns w || str_eq w v)
is_in-append [] v w = or_false (str_eq w v)
is_in-append (n ∷ ns) v w = ground (arith, is_in-append ns v w)

append-Distinct :
    (ns : List String) (v : String) → Distinct ns → is_in ns v ≡ false → Distinct (ns ++ v ∷ [])
append-Distinct [] v d h = (refl, tt)
append-Distinct (n ∷ ns) v d h = (
  rw (is_in-append ns v n, d.0) (ground (arith, eq_iff v n, eq_iff n v)),
  append-Distinct ns v d.1 (ground arith),
)

add_name-Distinct : (ns : List String) (v : String) → Distinct ns → Distinct (add_name ns v)
unfolding add_name
add_name-Distinct ns v d = elim (Bool-cases (is_in ns v)) [
  | inl y ↦ rw (y, add_name) d
  | inr fresh ↦ rw (fresh, add_name) (append-Distinct ns v d fresh)
]

read-step :
    (s : Site) (i : Item) (is : List Item) (seen : List String) (v : String)
    → parse_identifier s i ≡ ok v
    → read_identifiers s (i ∷ is) seen ≡ read_identifiers s is (add_name seen v)
unfolding read_identifiers
read-step s i is seen v e = rw (e, read_identifiers) refl

read-refused :
    (s : Site) (i : Item) (is : List Item) (seen : List String) (p : Problem)
    → parse_identifier s i ≡ raise p
    → read_identifiers s (i ∷ is) seen ≡ raise p
unfolding read_identifiers
read-refused s i is seen p e = rw (e, read_identifiers) refl

read_identifiers-nil : (s : Site) (seen : List String) → read_identifiers s [] seen ≡ ok seen
unfolding read_identifiers
read_identifiers-nil s seen = refl

read_identifiers-Distinct :
    (s : Site) (is : List Item) (seen names : List String)
    → Distinct seen
    → read_identifiers s is seen ≡ ok names
    → Distinct names
read_identifiers-Distinct s [] seen names d e =
    let same = ok_unique _ (read_identifiers-nil s seen) e in rw⁻¹ same d
read_identifiers-Distinct s (i ∷ is) seen names d e = elim (Result-cases (parse_identifier s i)) [
  | inr (p, r) ↦ raise_not_ok _ refl (sym (read-refused s i is seen p r) ∙ e)
  | inl (v, r) ↦
      read_identifiers-Distinct s is (add_name seen v) names (add_name-Distinct seen v d)
        (sym (read-step s i is seen v r) ∙ e)
]

two_refusals :
    (x y : Bool) (p q : Problem) (ns names : List String)
    → (refuse_if x p >> (refuse_if y q >> ok ns)) ≡ ok names
    → ns ≡ names
two_refusals true y p q ns names h = raise_not_ok _ refl h
two_refusals false true p q ns names h = raise_not_ok _ refl h
two_refusals false false p q ns names h = ok_unique _ refl h

two_guards :
    (a b : List String → Bool) (r : Result Problem (List String)) (p q : Problem)
    (names : List String)
    → (r >>= λ ns. refuse_if (a ns) p >> (refuse_if (b ns) q >> ok ns)) ≡ ok names
    → r ≡ ok names
two_guards a b (raise e) p q names h = raise_not_ok _ refl h
two_guards a b (ok ns) p q names h = ap ok (two_refusals (a ns) (b ns) p q ns names h)

parse_identifiers-Distinct :
    (s : Site) (items : List Item) (names : List String)
    → parse_identifiers s items ≡ ok names
    → Distinct names
unfolding parse_identifiers
parse_identifiers-Distinct s [] names e = raise_not_ok _ refl e
parse_identifiers-Distinct s (i ∷ is) names e = read_identifiers-Distinct s (i ∷ is) [] names tt (
    two_guards (λ ns. not (s.names_allowed ns)) (λ ns. ltb s.max_identifiers (length ns)) _
      Problem.rejected_identifier Problem.rejected_identifier names e)

-- The names, the authorizations and the status of an order agree.
pub record WellNamed (o : Order) : Type 0 where
  pub distinct : Distinct o.identifiers
  pub one_each : map display_identifier o.authorizations ≡ o.identifiers
  pub dns_only : All DnsOnly o.authorizations

order_for-WellNamed :
    (s : Site) (ca_id account_id : ℕ) (ids : NewIds) (now : ℕ) (names : List String)
    → Distinct names
    → WellNamed (order_for s ca_id account_id ids now names)
unfolding order_for
order_for-WellNamed s ca_id account_id ids now names d = record {
  distinct = d;
  one_each = display-new_authzs s _ names _ _;
  dns_only = new_authzs-DnsOnly s _ names _ _;
}

pub names_of :
    (r : Result Problem (List String)) (f : List String → Order) (o : Order)
    → (r >>= λ names. ok (f names)) ≡ ok o
    → (names : List String) × (r ≡ ok names) × (o ≡ f names)
names_of (raise p) f o e = raise_not_ok _ refl e
names_of (ok names) f o e = (names, refl, cc)

pub new_order-WellNamed :
    (s : Site) (ca_id account_id : ℕ) (ids : NewIds) (now : ℕ) (items : List Item) (o : Order)
    → new_order s ca_id account_id ids now items ≡ ok o
    → WellNamed o
unfolding new_order
new_order-WellNamed s ca_id account_id ids now items o e =
    let (names, accepted, same) = names_of (parse_identifiers s items) _ o e in
    rw same (
      order_for-WellNamed s ca_id account_id ids now names
        (parse_identifiers-Distinct s items names accepted))
