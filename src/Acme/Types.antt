-- ===== src/Acme/Types.antt =====
-- Orders, authorizations and challenges (app/models/acme.py). The rows of one order are a tree, as
-- the relationships `order.authorizations` and `authorization.challenges` make them.
use chancery.Prelude.{ℕ, String, Option, none, some, Bool, true, false, List}

pub data OrderStatus : Type 0 where
  pending ready processing valid invalid : OrderStatus

pub data AuthzStatus : Type 0 where
  pending valid invalid expired deactivated : AuthzStatus

pub data ChallengeStatus : Type 0 where
  pending processing valid invalid : ChallengeStatus

pub data ChallengeType : Type 0 where
  http01 dns01 : ChallengeType

-- The problem type of a stored error document.
pub data ErrorType : Type 0 where
  malformed unauthorized bad_csr connection incorrect_response : ErrorType

pub record Challenge : Type 0 where
  pub id : ℕ
  pub typ : ChallengeType
  pub token : String
  pub status : ChallengeStatus
  pub validated_at : Option ℕ
  pub error : Option ErrorType
  pub attempts : ℕ
  pub next_attempt_at : Option ℕ

pub record Authz : Type 0 where
  pub id : ℕ
  pub identifier_value : String
  pub wildcard : Bool
  pub status : AuthzStatus
  pub expires : ℕ
  pub challenges : List Challenge

pub record Order : Type 0 where
  pub id : ℕ
  pub account_id : ℕ
  pub ca_id : ℕ
  pub status : OrderStatus
  pub identifiers : List String
  pub expires : ℕ
  pub csr_pem : Option String
  pub certificate_id : Option ℕ
  pub error : Option ErrorType
  pub finalized_at : Option ℕ
  pub authorizations : List Authz

-- `status == "pending"`, `status in ("valid", "invalid")` and so on.
abbrev pub is_pending : AuthzStatus → Bool
is_pending AuthzStatus.pending = true
is_pending _ = false

abbrev pub is_valid : AuthzStatus → Bool
is_valid AuthzStatus.valid = true
is_valid _ = false

abbrev pub has_failed : AuthzStatus → Bool
has_failed AuthzStatus.invalid = true
has_failed AuthzStatus.expired = true
has_failed AuthzStatus.deactivated = true
has_failed _ = false

abbrev pub is_final : OrderStatus → Bool
is_final OrderStatus.valid = true
is_final OrderStatus.invalid = true
is_final _ = false

abbrev pub awaits_client : ChallengeStatus → Bool
awaits_client ChallengeStatus.pending = true
awaits_client _ = false

abbrev pub in_progress : ChallengeStatus → Bool
in_progress ChallengeStatus.processing = true
in_progress _ = false

abbrev pub is_dns01 : ChallengeType → Bool
is_dns01 dns01 = true
is_dns01 http01 = false

-- `error_json or …`: an error that is there stays.
abbrev pub or_error : Option ErrorType → ErrorType → Option ErrorType
or_error (some e) d = some e
or_error none d = some d
