-- ===== src/Tokens/Scopes.antt =====
-- `required_scope` of app/services/api_token_service.py, and the hook's test with `has_scope`. The
-- blueprint of an endpoint (`endpoint.split(".", 1)[0]`) is an argument.
use chancery.Prelude.{
  String, Option, none, some, Bool, List, [], ◌∷◌, any_of, if◌then◌else◌, str_eq,
}
use chancery.Tokens.Api.{Scope, read, issue, revoke, admin}

abbrev pub one_of : List String → String → Bool
one_of names s = any_of (λ n. str_eq s n) names

abbrev pub open_blueprints : List String
open_blueprints = "public" ∷ "health" ∷ "metrics" ∷ "static" ∷ "auth" ∷ []

abbrev pub read_methods : List String
read_methods = "GET" ∷ "HEAD" ∷ "OPTIONS" ∷ []

abbrev pub issue_endpoints : List String
issue_endpoints = "certificates.create" ∷ "certificates.renew" ∷ "csr.create" ∷ "csr.sign" ∷ []

abbrev pub revoke_endpoints : List String
revoke_endpoints = "certificates.revoke" ∷ "ca.revoke" ∷ "ca.generate_crl" ∷ []

unfoldable pub required_scope : String → String → String → Option Scope
required_scope method endpoint blueprint =
    if str_eq endpoint ""
    then some read
    else if one_of open_blueprints blueprint
    then none
    else if one_of read_methods method
    then some read
    else if one_of issue_endpoints endpoint
    then some issue
    else if one_of revoke_endpoints endpoint
    then some revoke
    else some admin
