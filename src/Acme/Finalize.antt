-- ===== src/Acme/Finalize.antt =====
-- `finalize`, `update_account` on the orders of a deactivated account, and the part of `maintain`
-- about orders and authorizations, of app/services/acme/service.py. The parsed CSR, the profile
-- and `cert_service.sign_csr` are arguments.
use chancery.Prelude.{
  ℕ, String, Option, none, some, Bool, true, false, not, ◌&&◌, List, [], ◌∷◌, map, all_of, ltb, leb,
  if◌then◌else◌, str_eq, Result, ok, raise, ◌>>=◌, ◌>>◌, refuse_if,
}
use chancery.Acme.Types.{Order, OrderStatus, ErrorType, is_final, or_error}
use chancery.Acme.Refresh.{refresh_order, refresh_authz}
use chancery.Acme.Orders.{Problem, is_in}

-- What `finalize` reads of the request's CSR, the names cleaned.
pub record Csr : Type 0 where
  pub pem : String
  pub signature_valid : Bool
  pub dns_names : List String
  pub other_names : Bool
  pub common_name : Option String

pub record Profile : Type 0 where
  pub enabled : Bool
  pub max_validity_days : ℕ

-- `if cn`: a name that is there and not empty.
abbrev pub named : Option String → Option String
named none = none
named (some cn) = if str_eq cn "" then none else some cn

-- `a == b` of two sets.
unfoldable pub same_names : List String → List String → Bool
same_names as' bs = all_of (is_in bs) as' && all_of (is_in as') bs

-- `if not dns and cn: dns = {cn}`
unfoldable pub requested_names : Csr → List String
requested_names csr = elim csr.dns_names [
  | [] ↦ elim (named csr.common_name) [ none ↦ [] | some cn ↦ cn ∷ [] ]
  | n ∷ ns ↦ n ∷ ns
]

unfoldable pub check_csr : List String → Csr → Result Problem (Unit {0})
unfolding same_names requested_names
check_csr wanted csr = do
  refuse_if (not csr.signature_valid) Problem.bad_csr
  refuse_if csr.other_names Problem.bad_csr
  refuse_if (elim (named csr.common_name) [ none ↦ false | some cn ↦ not (is_in wanted cn) ])
      Problem.bad_csr
  refuse_if (not (same_names (requested_names csr) wanted)) Problem.bad_csr

-- `_acme_profile`, on what the lookup finds.
unfoldable pub acme_profile : Option Profile → Result Problem Profile
acme_profile none = raise Problem.server_internal
acme_profile (some p) = if p.enabled then ok p else raise Problem.server_internal

-- ACME_DEFAULT_VALIDITY_DAYS, cut to the profile's limit where that is not 0.
unfoldable pub validity_days : ℕ → Profile → ℕ
validity_days default_days p =
    if ltb 0 p.max_validity_days && ltb p.max_validity_days default_days
    then p.max_validity_days
    else default_days

-- The request's part up to the call of `sign_csr`: an absent CSR does not parse either.
unfoldable pub check_request : ℕ → Option Csr → Option Profile → Order → Result Problem (Csr × ℕ)
unfolding check_csr acme_profile validity_days
check_request default_days none profile o = raise Problem.bad_csr
check_request default_days (some csr) profile o = do
  check_csr o.identifiers csr
  p ← acme_profile profile
  ok (csr, validity_days default_days p)

pub data Finalized : Type 0 where
  already : Finalized
  refused : Problem → Finalized
  not_issued : Finalized
  issued : ℕ → ℕ → Finalized

abbrev pub is_ready : OrderStatus → Bool
is_ready OrderStatus.ready = true
is_ready _ = false

abbrev pub was_issued : OrderStatus → Bool
was_issued OrderStatus.valid = true
was_issued _ = false

-- `sign` is `cert_service.sign_csr`: the id of the certificate, or none where it raises ValueError.
unfoldable pub issue : (Csr → ℕ → Option ℕ) → ℕ → Csr → ℕ → Order → Finalized × Order
issue sign now csr days_ o =
    let started = record o { status = OrderStatus.processing; csr_pem = some csr.pem } in
    elim (sign csr days_) [
      | none ↦ (
        not_issued,
        record started { status = OrderStatus.invalid; error = some ErrorType.bad_csr },
      )
      | some cert ↦ (
        issued cert days_,
        record started {
          status = OrderStatus.valid;
          certificate_id = some cert;
          finalized_at = some now;
        },
      )
    ]

unfoldable pub finalize_ready :
    (Csr → ℕ → Option ℕ) → ℕ → ℕ → Option Csr → Option Profile → Order → Finalized × Order
unfolding check_request issue
finalize_ready sign default_days now csr profile o =
    if was_issued o.status
    then (already, o)
    else if not (is_ready o.status)
    then (refused Problem.order_not_ready, o)
    else elim (check_request default_days csr profile o) [
      | raise e ↦ (refused e, o)
      | ok (req, days_) ↦ issue sign now req days_ o
    ]

unfoldable pub finalize :
    (Csr → ℕ → Option ℕ) → ℕ → ℕ → Option Csr → Option Profile → Order → Finalized × Order
unfolding finalize_ready refresh_order
finalize sign default_days now csr profile o =
    finalize_ready sign default_days now csr profile (refresh_order now o)

-- `update_account` with the status "deactivated", on one order of the account.
unfoldable pub deactivate_order : Order → Order
deactivate_order o =
    if is_final o.status
    then o
    else record o { status = OrderStatus.invalid; error = some ErrorType.unauthorized }

-- `maintain`, on one order and its authorizations.
unfoldable pub expire_order : ℕ → Order → Order
unfolding refresh_authz
expire_order now o =
    let expired =
      if not (is_final o.status) && leb o.expires now
      then record o { status = OrderStatus.invalid; error = or_error o.error ErrorType.malformed }
      else o in
    record expired { authorizations = map (refresh_authz now) o.authorizations }
