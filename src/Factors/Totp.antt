-- ===== src/Factors/Totp.antt =====
-- `verify` and `consume_recovery_code` of app/services/totp_service.py, and `_check_second_factor` of
-- app/routes/auth.py. `hotp`, the tidying of a typed code and werkzeug's hash check are parameters.
use chancery.Prelude.{
  ℕ, zero, suc, ◌+◌, ◌-◌, ◌/◌, String, Option, none, some, Bool, true, false, not, List, [], ◌∷◌,
  leb, if◌then◌else◌, str_eq,
}

pub record Codes : Type 0 where
  pub hotp : String → ℕ → String
  pub tidy : String → String
  pub is_code : String → Bool
  pub normalise_recovery : String → Option String
  pub check_hash : String → String → Bool

abbrev pub step_seconds : ℕ
step_seconds = 30

-- `current_step`, of a moment in seconds.
abbrev pub current_step : ℕ → ℕ
current_step now = now / step_seconds

abbrev pub is_replay : Option ℕ → ℕ → Bool
is_replay none candidate = false
is_replay (some last) candidate = leb candidate last

-- `range(step - window, step + window + 1)`, from its first number and its length.
unfoldable pub candidates : ℕ → ℕ → List ℕ
candidates first zero = []
candidates first (suc n) = first ∷ candidates (first + 1) n

unfoldable pub first_match : Codes → String → String → Option ℕ → List ℕ → Option ℕ
first_match k secret code last [] = none
first_match k secret code last (c ∷ cs) =
    let rest = first_match k secret code last cs in
    if is_replay last c then rest else if str_eq (k.hotp secret c) code then some c else rest

-- `verify`. In the first 30 seconds of 1970 the code raises at the step -1: the range begins at 0
-- here.
unfoldable pub verify_code : Codes → String → String → Option ℕ → ℕ → ℕ → Option ℕ
unfolding candidates first_match
verify_code k secret typed last now window =
    let code = k.tidy typed in
    if not (k.is_code code)
    then none
    else first_match k secret code last (
        candidates (current_step now - window)
          (current_step now + window + 1 - (current_step now - window)))

unfoldable pub drop_match : Codes → String → List String → Option (List String)
drop_match k code [] = none
drop_match k code (h ∷ hs) =
    let rest = drop_match k code hs in
    if k.check_hash h code then some hs else elim rest [ none ↦ none | some r ↦ some (h ∷ r) ]

unfoldable pub consume_recovery_code : Codes → List String → String → List String × Bool
unfolding drop_match
consume_recovery_code k hashes typed = elim (k.normalise_recovery typed) [
  | none ↦ (hashes, false)
  | some code ↦ elim (drop_match k code hashes) [
    | none ↦ (hashes, false)
    | some rest ↦ (rest, true)
  ]
]

-- What the user's row keeps of the second factor.
pub record Factor : Type 0 where
  pub secret : String
  pub totp_last_step : Option ℕ
  pub recovery_codes : List String

pub data Kind : Type 0 where
  totp recovery : Kind

-- `_check_second_factor`, with the window of `verify`.
unfoldable pub check_second_factor : Codes → ℕ → String → Factor → Option Kind × Factor
unfolding verify_code consume_recovery_code
check_second_factor k now typed f = elim (verify_code k f.secret typed f.totp_last_step now 1) [
  | some step ↦ (some totp, record f { totp_last_step = some step })
  | none ↦
      let r = consume_recovery_code k f.recovery_codes typed in
      if r.1 then (some recovery, record f { recovery_codes = r.0 }) else (none, f)
]
