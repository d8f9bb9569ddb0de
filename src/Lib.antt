-- ===== src/Lib.antt =====
-- Chancery: an X.509 certificate authority (Python, Flask, SQLAlchemy). The services under
-- app/services hold its logic over the rows of app/models; the routes parse requests and commit.
--
-- The parts modelled here and how they meet:
-- - Audit: the hash chain of app/services/audit_chain.py over app/models/audit_log.py and
--   `log_action` of app/services/audit_service.py. Row holds the row and its canonical text, Seal
--   `head` and `seal`, Verify `verify` with the checkpoints, Prune `prune` and `anchor`, Log
--   `log_action`; the other files prove: Chain, Walk and Intact what `verify` decides, Sealing, Kept
--   and SealVerify what `seal` keeps, Retention, PruneVerify and PruneKeeps what `prune` keeps, Tamper
--   what a head hash fixes, Blind what an unsealed first row hides. A table is the list of its rows in
--   id order, so a query is a filter.
-- - Acme: app/services/acme/service.py over app/models/acme.py. Types holds the rows, an order as the
--   tree of its authorizations and challenges; Refresh `refresh_order`, `_refresh_authz` and
--   `deactivate_authz`; Challenges `respond_challenge`, `_settle`, `_attempt_dns01` and the polls;
--   Orders `_parse_identifiers` and `new_order`; Finalize `finalize`, and what `update_account` and
--   `maintain` do to an order; Nonces the replay nonces. Granted, GrantedOps, Names, Proofs, Follows, Operations,
--   Lifecycle and Issuance prove.
-- - Auth: app/services/auth_service.py over app/models/user.py. Users holds the table, Lockout the
--   failure counter and the lock, Login `authenticate` with the role mapping, Cache the credential
--   cache, Basic `authenticate_basic`, Sessions the session versions; Rows, Guessing, Admission and
--   CacheLaws prove.
-- - Revocation: app/services/crl_service.py over app/models/certificate.py and app/models/ca.py. Store
--   holds an authority as a tree with `revoke_certificate` and `revoke_ca`, Crl the entries and dates
--   of a CRL; Cascade and Listed prove.
-- - Issuance: `sign_csr`, `_claim_csr` and `_release_csr` of app/services/cert_service.py in Claims, as
--   steps of any number of workers on one CSR, and app/services/policy.py in Policy; Once proves. ACME's
--   `finalize` ends in a call of `sign_csr`, which its model takes as a function.
-- - Factors: app/services/totp_service.py with `_check_second_factor` of app/routes/auth.py in Totp,
--   app/services/dual_control_service.py in DualControl; Replay proves.
-- - Tokens: app/services/api_token_service.py with app/models/api_token.py in Api and Scopes, and the
--   lease of app/services/scheduler_service.py in Lease.
-- - Scheduler: app/services/scheduler_service.py with app/models/scheduler_lease.py. Expiry holds the
--   expiry events, Tick the tick, which takes the lease of Tokens; a job is a function on the rest of
--   the database. OnceEach, Isolated and Exclusive prove.
-- - Authorities: app/services/ca_service.py over app/models/ca.py and app/models/ca_certificate.py, with
--   app/services/name_constraints.py and app/services/san.py. Types holds the rows and the contents of
--   a certificate, Text the text operations, Names the SAN entries and the matching, Constraints
--   `check_names` and `enforce`, Walk the loop over the parents, Create the creation of roots and
--   intermediates, Alternates re-issues and approvals, CrossSign cross-certificates, Chain
--   `chain_pems`, Bundle `_order_chain`, Import and ImportChain the import; Steps are these operations
--   as a relation on the store. Reaches, Enforced, Matching, Created, CreatedRoot, Tree, Growth,
--   Forest, Imports, Descent, Chained, Reissue, Promotion, Ordered, Unrepeated, Whole and Unique prove.
--   Growth has the steps alone, Forest the steps and the imports. Policy of Issuance gives the limits of
--   keys and validity.
-- - Profiles: app/services/profile_service.py with app/models/certificate_profile.py. Enforce holds
--   `resolve` and `enforce`, which reads SANs with Authorities, and Manage the administration of the
--   table, a list of rows. Permits, Complies, Sound and Survive prove.
-- - Examples: tests, and an instance of each theorem at concrete data.
-- - Prelude: the tests, lists, options, results and durations that the parts share.
--
-- Conventions. A method that raises returns a Result of the component's own errors; a method that
-- changes a row returns the row. Instants and durations are microseconds; a comparison with
-- `now - d` is written with the sum on the other side. Enumerated status columns are data types.
-- Python integers that the code keeps at 0 or above are natural numbers. A loop is a recursion on a
-- list or on a tree, but for four over parents and names in Authorities, which take one unit of fuel
-- more than there are rows or certificates. A round of three of them (Walk, CrossSign, Bundle) takes a
-- row that no round took before; the fourth looks for a free name.
--
-- Parameters. Code outside the repository is an argument with its documented behaviour as named
-- hypotheses: SHA-256 and the JSON functions (Audit.Row.Library, with IsDigest in Audit.Tamper and
-- IsJson in Audit.PruneKeeps), werkzeug's password hash, the LDAP bind, HMAC-SHA1 codes, regular
-- expressions, the network's answer to an ACME validation, `ipaddress`, `urlsplit`, key pairs, X.509
-- parsing and signing. The ids that
-- the database gives and the clock are arguments.
--
-- Not modelled: the routes, templates and command line around the services; JWS, ACME accounts and
-- external account bindings; PEM and PKCS#12 parsing and export; certificate policies; OCSP,
-- webhooks, metrics, LDAP settings, key backends and updates; the audit rows that the other services
-- write; database transactions, apart from the conditional updates that claim a CSR and the lease.
pub mod Prelude
pub mod Acme
pub mod Audit
pub mod Auth
pub mod Authorities
pub mod Factors
pub mod Issuance
pub mod Profiles
pub mod Revocation
pub mod Scheduler
pub mod Tokens
pub mod Examples
