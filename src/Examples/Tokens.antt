-- ===== src/Examples/Tokens.antt =====
-- An API token and the scheduler's lease between two workers.
use chancery.Prelude.{ℕ, ◌≡◌, refl, String, some, Bool, true, false, [], ◌∷◌, ◌↔◌, arith, ok}
use chancery.Tokens.Api.{
  ApiToken, Scope, Genuine, NewToken, create, verify_token, verify-iff-Genuine,
}
use chancery.Tokens.Lease.{Lease, acquire_lease, tick_all, acquire-exclusive}

plain_hash : String → String
plain_hash secret = secret

all_active : ℕ → Bool
all_active user = true

token : ApiToken
token = record {
  id = 1;
  user_id = 7;
  name = "ci";
  token_id = "ab12";
  token_hash = "s3";
  scopes = Scope.read ∷ [];
  expires_at = 86400000100;
  revoked = false;
}

new_token : NewToken
new_token = record {
  id = 1;
  name = "ci";
  name_length = 2;
  token_id = "ab12";
  secret = "s3";
  scopes = some Scope.read ∷ [];
  expires_in_days = some 1;
}

free : Lease
free = record { holder = some "w2"; expires_at = some 50; last_tick_at = some 10 }

program : Unit {0}
unfolding plain_hash all_active token new_token free create verify_token acquire_lease
program = tt

token-created : create plain_hash 365 100 7 true new_token [] ≡ ok (token ∷ [])
unfolding program
token-created = refl

verify-iff-Genuine_example :
    (verify_token plain_hash all_active 100 (some ("ab12", "s3")) (token ∷ []) ≡ some token)
    ↔ Genuine plain_hash all_active 100 "ab12" "s3" (token ∷ []) token
verify-iff-Genuine_example =
    verify-iff-Genuine plain_hash all_active 100 "ab12" "s3" (token ∷ []) token

acquire-exclusive_example :
    (tick_all 180 (("w2", 200) ∷ ("w3", 180000100) ∷ []) (acquire_lease 180 100 "w1" free).1
      ≡ (false, (acquire_lease 180 100 "w1" free).1))
    × ((acquire_lease 180 300 "w1" (acquire_lease 180 100 "w1" free).1).0 ≡ true)
unfolding program
acquire-exclusive_example =
    acquire-exclusive 180 100 "w1" free (("w2", 200) ∷ ("w3", 180000100) ∷ []) 300 refl
      (refl, omega arith, (refl, omega arith, tt))
