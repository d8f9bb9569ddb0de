-- ===== src/Acme/Orders.antt =====
-- `_parse_identifiers` and `new_order` of app/services/acme/service.py, with `display_identifier`
-- of app/models/acme.py. `re`, the cleaning of a name (`strip().lower().rstrip(".")`), the random
-- tokens and app/services/name_constraints.py are parameters; the ids that the database gives are
-- arguments.
use chancery.Prelude.{
  ℕ, ◌+◌, String, Option, none, some, Bool, true, false, not, ◌&&◌, ◌||◌, List, [], ◌∷◌, ◌++◌,
  length, any_of, get_or, is_some, is_text, ltb, ◌==◌, if◌then◌else◌, str_eq, hours, Result, ok,
  raise, ◌>>=◌, ◌>>◌, refuse_if,
}
use Prim.Native.Char.{code}
use Prim.Native.String as Str
use chancery.Acme.Types.{
  Order, Authz, Challenge, OrderStatus, AuthzStatus, ChallengeStatus, ChallengeType, dns01,
  is_dns01,
}

pub data Problem : Type 0 where
  malformed unsupported_identifier rejected_identifier order_not_ready bad_csr server_internal :
      Problem

-- An entry of `identifiers`: a value that is no text is absent.
pub data Item : Type 0 where
  not_object : Item
  object : Option String → Option String → Item

-- The CA's settings, the configuration and the functions that are not modelled.
pub record Site : Type 0 where
  pub allow_wildcards : Bool
  pub max_identifiers : ℕ
  pub order_lifetime_hours : ℕ
  pub offered : List ChallengeType
  pub clean : String → String
  pub is_hostname : String → Bool
  pub is_ipv4 : String → Bool
  pub names_allowed : List String → Bool
  pub token_of : ℕ → String

-- `value[2:] if value.startswith("*.") else value`, with the test.
unfoldable pub wildcard_base : String → Option String
wildcard_base Str.String.[] = none
wildcard_base (Str.String.◌∷◌ c Str.String.[]) = none
wildcard_base (Str.String.◌∷◌ c (Str.String.◌∷◌ d s)) =
    if code c == 42 && code d == 46 then some s else none

-- `"*" in base`
unfoldable pub has_star : String → Bool
has_star Str.String.[] = false
has_star (Str.String.◌∷◌ c s) = (code c == 42) || has_star s

unfoldable pub check_identifier : Site → String → Result Problem String
unfolding wildcard_base has_star
check_identifier s value = do
  let base = get_or (wildcard_base value) value
  refuse_if
      (is_some (wildcard_base value) && (not s.allow_wildcards || not (any_of is_dns01 s.offered)))
      Problem.rejected_identifier
  refuse_if ((has_star base || not (s.is_hostname base)) || s.is_ipv4 base)
      Problem.rejected_identifier
  ok value

unfoldable pub parse_identifier : Site → Item → Result Problem String
unfolding check_identifier
parse_identifier s not_object = raise Problem.malformed
parse_identifier s (object typ value) =
    if not (is_text typ "dns")
    then raise Problem.unsupported_identifier
    else elim value [ none ↦ raise Problem.malformed | some v ↦ check_identifier s (s.clean v) ]

abbrev pub is_in : List String → String → Bool
is_in names v = any_of (λ w. str_eq v w) names

unfoldable pub add_name : List String → String → List String
add_name names v = if is_in names v then names else names ++ v ∷ []

unfoldable pub read_identifiers : Site → List Item → List String → Result Problem (List String)
unfolding parse_identifier add_name
read_identifiers s [] names = ok names
read_identifiers s (i ∷ is) names =
    parse_identifier s i >>= λ v. read_identifiers s is (add_name names v)

unfoldable pub parse_identifiers : Site → List Item → Result Problem (List String)
unfolding read_identifiers
parse_identifiers s [] = raise Problem.malformed
parse_identifiers s (i ∷ is) = do
  names ← read_identifiers s (i ∷ is) []
  refuse_if (not (s.names_allowed names)) Problem.rejected_identifier
  refuse_if (ltb s.max_identifiers (length names)) Problem.rejected_identifier
  ok names

unfoldable pub new_challenges : Site → ℕ → List ChallengeType → List Challenge
new_challenges s n [] = []
new_challenges s n (t ∷ ts) =
    record {
      id = n;
      typ = t;
      token = s.token_of n;
      status = ChallengeStatus.pending;
      validated_at = none;
      error = none;
      attempts = 0;
      next_attempt_at = none;
    }
    ∷ new_challenges s (n + 1) ts

abbrev pub types_for : Site → Bool → List ChallengeType
types_for s true = dns01 ∷ []
types_for s false = s.offered

unfoldable pub new_authz : Site → ℕ → ℕ → ℕ → String → Authz
unfolding wildcard_base new_challenges
new_authz s expires n m value =
    let wildcard = is_some (wildcard_base value) in
    record {
      id = n;
      identifier_value = get_or (wildcard_base value) value;
      wildcard = wildcard;
      status = AuthzStatus.pending;
      expires = expires;
      challenges = new_challenges s m (types_for s wildcard);
    }

-- The authorization ids count from `n`, the challenge ids from `m`.
unfoldable pub new_authzs : Site → ℕ → ℕ → ℕ → List String → List Authz
unfolding new_authz
new_authzs s expires n m [] = []
new_authzs s expires n m (v ∷ vs) =
    let a = new_authz s expires n m v in
    a ∷ new_authzs s expires (n + 1) (m + length a.challenges) vs

-- The ids of the new rows.
pub record NewIds : Type 0 where
  pub order_id : ℕ
  pub authz_id : ℕ
  pub challenge_id : ℕ

unfoldable pub order_for : Site → ℕ → ℕ → NewIds → ℕ → List String → Order
unfolding new_authzs
order_for s ca_id account_id ids now names =
    let expires = now + hours s.order_lifetime_hours in
    record {
      id = ids.order_id;
      account_id = account_id;
      ca_id = ca_id;
      status = OrderStatus.pending;
      identifiers = names;
      expires = expires;
      csr_pem = none;
      certificate_id = none;
      error = none;
      finalized_at = none;
      authorizations = new_authzs s expires ids.authz_id ids.challenge_id names;
    }

unfoldable pub new_order : Site → ℕ → ℕ → NewIds → ℕ → List Item → Result Problem Order
unfolding parse_identifiers order_for
new_order s ca_id account_id ids now items =
    parse_identifiers s items >>= λ names. ok (order_for s ca_id account_id ids now names)

-- `display_identifier`
unfoldable pub display_identifier : Authz → String
display_identifier a =
    if a.wildcard
    then Str.String.◌∷◌ "*" (Str.String.◌∷◌ "." a.identifier_value)
    else a.identifier_value
