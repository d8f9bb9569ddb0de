-- ===== src/Acme/Challenges.antt =====
-- `_settle`, `_attempt_dns01`, `respond_challenge` and `_refresh_authz` with an attempt, of
-- app/services/acme/service.py. What the network answers to a validation is an argument.
use chancery.Prelude.{
  ℕ, ◌+◌, Option, none, some, Bool, false, not, ◌&&◌, List, [], ◌∷◌, first_where, ltb, leb, ◌==◌,
  if◌then◌else◌, seconds, max,
}
use chancery.Acme.Types.{
  Order, Authz, Challenge, AuthzStatus, ChallengeStatus, ErrorType, is_pending, awaits_client,
  in_progress, is_dns01,
}
use chancery.Acme.Refresh.{refresh_authz, refresh_order, update_authz, find_authz}

-- `ok, err_type, detail` of a validation.
pub data Verdict : Type 0 where
  passed : Verdict
  failed : ErrorType → Verdict

-- ACME_DNS01_MAX_ATTEMPTS and ACME_DNS01_RETRY_SECONDS.
pub record Retry : Type 0 where
  pub max_attempts : ℕ
  pub retry_seconds : ℕ

abbrev pub attempt_limit : Retry → ℕ
attempt_limit cfg = max 1 cfg.max_attempts

abbrev pub retry_delay : Retry → ℕ
retry_delay cfg = seconds (max 1 cfg.retry_seconds)

unfoldable pub update_challenge : ℕ → (Challenge → Challenge) → List Challenge → List Challenge
update_challenge n f [] = []
update_challenge n f (c ∷ cs) = if c.id == n then f c ∷ cs else c ∷ update_challenge n f cs

abbrev pub find_challenge : ℕ → List Challenge → Option Challenge
find_challenge n = first_where (λ c. c.id == n)

-- `_settle`: the challenge and its authorization.
unfoldable pub settle_challenge : ℕ → Verdict → Challenge → Challenge
settle_challenge now passed c = record c {
  status = ChallengeStatus.valid;
  validated_at = some now;
  error = none;
}
settle_challenge now (failed e) c = record c { status = ChallengeStatus.invalid; error = some e }

abbrev pub settled_status : Verdict → AuthzStatus
settled_status passed = AuthzStatus.valid
settled_status (failed e) = AuthzStatus.invalid

unfoldable pub settle : ℕ → Challenge → Verdict → Authz → Authz
unfolding settle_challenge update_challenge
settle now c v a = record a {
  status = settled_status v;
  challenges = update_challenge c.id (λ _. settle_challenge now v c) a.challenges;
}

-- `_attempt_dns01` on a challenge of the authorization: one lookup, with its verdict.
unfoldable pub attempt_dns01 : Retry → ℕ → Challenge → Verdict → Authz → Authz
unfolding settle
attempt_dns01 cfg now c v a =
    let tried = record c { attempts = c.attempts + 1 } in
    elim v [
      | passed ↦ settle now (record tried { next_attempt_at = none }) passed a
      | failed e ↦
          if ltb tried.attempts (attempt_limit cfg) && ltb (now + retry_delay cfg) a.expires
          then record a {
            challenges =
                update_challenge c.id
                  (λ _. record tried {
                    next_attempt_at = some (now + retry_delay cfg);
                    error = some e;
                  })
                  a.challenges;
          }
          else settle now (record tried { next_attempt_at = none }) (failed e) a
    ]

-- What a request answers: `raise` is the expired order's problem document.
pub data Reply : Type 0 where
  unchanged : Reply
  validated : Reply
  order_expired : Reply

-- The validation of a challenge that the client says is provisioned.
unfoldable pub run_validation : Retry → ℕ → Challenge → Verdict → Authz → Authz
unfolding attempt_dns01
run_validation cfg now c v a =
    let started = record c { status = ChallengeStatus.processing } in
    if is_dns01 c.typ then attempt_dns01 cfg now started v a else settle now started v a

-- `respond_challenge`, on the order tree that holds the authorization `a` and its challenge `c`.
unfoldable pub respond_to : Retry → ℕ → Challenge → Verdict → Authz → Order → Reply × Order
unfolding run_validation refresh_order update_authz
respond_to cfg now c v a o =
    let a' = refresh_authz now a in
    let o' = record o { authorizations = update_authz a.id (λ _. a') o.authorizations } in
    if not (awaits_client c.status && is_pending a'.status)
    then (unchanged, o')
    else if leb o.expires now
    then (order_expired, refresh_order now o')
    else (
      validated,
      refresh_order now (record o {
        authorizations = update_authz a.id (λ _. run_validation cfg now c v a') o.authorizations;
      }),
    )

unfoldable pub respond_challenge : Retry → ℕ → ℕ → ℕ → Verdict → Order → Reply × Order
unfolding respond_to
respond_challenge cfg now authz_id challenge_id v o = elim (find_authz authz_id o.authorizations) [
  | none ↦ (unchanged, o)
  | some a ↦ elim (find_challenge challenge_id a.challenges) [
    | none ↦ (unchanged, o)
    | some c ↦ respond_to cfg now c v a o
  ]
]

-- A `dns-01` challenge whose next lookup is due.
abbrev pub is_due : ℕ → Challenge → Bool
is_due now c =
    (is_dns01 c.typ && in_progress c.status)
    && elim c.next_attempt_at [ none ↦ false | some t ↦ leb t now ]

-- `_refresh_authz(authz, now, attempt=True)`: a poll of the authorization or of a challenge of it.
unfoldable pub poll : Retry → ℕ → Verdict → Authz → Order → Order
unfolding attempt_dns01 refresh_order update_authz
poll cfg now v a o =
    if is_pending a.status && leb a.expires now
    then record o { authorizations = update_authz a.id (λ _. refresh_authz now a) o.authorizations }
    else if not (is_pending a.status)
    then o
    else elim (first_where (is_due now) a.challenges) [
      | none ↦ o
      | some c ↦ refresh_order now (record o {
        authorizations = update_authz a.id (λ _. attempt_dns01 cfg now c v a) o.authorizations;
      })
    ]

unfoldable pub poll_authz : Retry → ℕ → ℕ → Verdict → Order → Order
unfolding poll
poll_authz cfg now authz_id v o = elim (find_authz authz_id o.authorizations) [
  | none ↦ o
  | some a ↦ poll cfg now v a o
]
