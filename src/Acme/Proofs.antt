-- ===== src/Acme/Proofs.antt =====
-- What a valid authorization rests on (app/services/acme/service.py): a challenge that a validation
-- passed, and, for a wildcard, a `dns-01` one.
use chancery.Prelude.{
  ℕ, ◌+◌, ◌≡◌, refl, none, some, Bool, true, false, ◌&&◌, ◌||◌, List, [], ◌∷◌, any_of, all_of,
  first_where, inl, inr, arith, ltb, leb, ◌==◌, ==_refl, Bool-cases,
}
use chancery.Acme.Types.{
  Authz, Challenge, AuthzStatus, ChallengeStatus, is_pending, is_valid, is_dns01,
}
use chancery.Acme.Refresh.{refresh_authz, deactivate}
use chancery.Acme.Challenges.{
  Verdict, passed, failed, Retry, run_validation, attempt_dns01, settle, settle_challenge,
  update_challenge, attempt_limit, retry_delay,
}
use chancery.Acme.Orders.{display_identifier}
use chancery.Acme.Granted.{first_where-all_of}
use chancery.Acme.Names.{DnsOnly}

abbrev pub is_passed : ChallengeStatus → Bool
is_passed ChallengeStatus.valid = true
is_passed _ = false

-- A valid authorization has a valid challenge.
abbrev pub Proved : Authz → Type 0
Proved a = is_valid a.status ≡ true → any_of (λ c. is_passed c.status) a.challenges ≡ true

abbrev has_id : ℕ → List Challenge → Bool
has_id n cs = any_of (λ c. c.id == n) cs

found_has_id :
    (p : Challenge → Bool) (cs : List Challenge) (c : Challenge)
    → first_where p cs ≡ some c
    → has_id c.id cs ≡ true
found_has_id p [] c f = cc
found_has_id p (d ∷ cs) c f = elim (Bool-cases (p d)) [
  | inl y ↦ rw (same d cs c y f) (rw (==_refl c.id) refl)
  | inr n ↦ rw (found_has_id p cs c (later d cs c n f)) (or_true (d.id == c.id))
]
  where
    same :
        (d : Challenge) (cs : List Challenge) (c : Challenge)
        → p d ≡ true
        → first_where p (d ∷ cs) ≡ some c
        → d ≡ c
    same d cs c y f = cc

    later :
        (d : Challenge) (cs : List Challenge) (c : Challenge)
        → p d ≡ false
        → first_where p (d ∷ cs) ≡ some c
        → first_where p cs ≡ some c
    later d cs c n f = cc

    or_true : (b : Bool) → (b || true) ≡ true
    or_true true = refl
    or_true false = refl

update-passed :
    (n : ℕ) (x : Challenge) (cs : List Challenge)
    → is_passed x.status ≡ true
    → has_id n cs ≡ true
    → any_of (λ c. is_passed c.status) (update_challenge n (λ _. x) cs) ≡ true
unfolding update_challenge
update-passed n x [] v h = cc
update-passed n x (c ∷ cs) v h = ground (arith, update-passed n x cs v)

update-dns01 :
    (n : ℕ) (x : Challenge) (cs : List Challenge)
    → is_dns01 x.typ ≡ true
    → all_of (λ c. is_dns01 c.typ) cs ≡ true
    → all_of (λ c. is_dns01 c.typ) (update_challenge n (λ _. x) cs) ≡ true
unfolding update_challenge
update-dns01 n x [] v h = refl
update-dns01 n x (c ∷ cs) v h = ground (arith, update-dns01 n x cs v)

-- What an update of an authorization must keep.
pub record Keeps (a b : Authz) : Type 0 where
  pub name_kept : display_identifier b ≡ display_identifier a
  pub proved : Proved a → Proved b
  pub dns_only : DnsOnly a → DnsOnly b

pub refresh_authz-Keeps : (now : ℕ) (a : Authz) → Keeps a (refresh_authz now a)
unfolding refresh_authz display_identifier
refresh_authz-Keeps now a = elim (Bool-cases (is_pending a.status && leb a.expires now)) [
  | inl y ↦ rw y (record { name_kept = refl; proved = λ p v. cc; dns_only = λ d. d })
  | inr n ↦ rw n (record { name_kept = refl; proved = λ p. p; dns_only = λ d. d })
]

pub deactivate-Keeps : (a : Authz) → Keeps a (deactivate a)
unfolding deactivate display_identifier
deactivate-Keeps a = elim (Bool-cases (is_pending a.status)) [
  | inl y ↦ rw y (record { name_kept = refl; proved = λ p v. cc; dns_only = λ d. d })
  | inr n ↦ rw n (record { name_kept = refl; proved = λ p. p; dns_only = λ d. d })
]

-- A change of one challenge, found in the authorization.
changed-DnsOnly :
    (p : Challenge → Bool) (n : ℕ) (a : Authz) (c x : Challenge) (s : AuthzStatus)
    → first_where p a.challenges ≡ some c
    → x.typ ≡ c.typ
    → DnsOnly a
    → DnsOnly (record a { status = s; challenges = update_challenge n (λ _. x) a.challenges })
changed-DnsOnly p n a c x s f t d w =
    update-dns01 n x a.challenges
      (rw t (first_where-all_of (λ z. is_dns01 z.typ) p a.challenges c (d w) f)) (d w)

settle-Keeps :
    (p : Challenge → Bool) (now : ℕ) (a : Authz) (c x : Challenge) (v : Verdict)
    → first_where p a.challenges ≡ some c
    → x.typ ≡ c.typ
    → x.id ≡ c.id
    → Keeps a (settle now x v a)
unfolding settle settle_challenge display_identifier
settle-Keeps p now a c x passed f t i = record {
  name_kept = refl;
  proved = λ _ _.
      update-passed x.id (settle_challenge now passed x) a.challenges refl
        (rw i (found_has_id p a.challenges c f));
  dns_only = changed-DnsOnly p x.id a c (settle_challenge now passed x) AuthzStatus.valid f t;
}
settle-Keeps p now a c x (failed e) f t i = record {
  name_kept = refl;
  proved = λ _ k. cc;
  dns_only = changed-DnsOnly p x.id a c (settle_challenge now (failed e) x) AuthzStatus.invalid f t;
}

pending_or_valid : {C : Type 0} (s : AuthzStatus) → is_pending s ≡ true → is_valid s ≡ true → C
pending_or_valid AuthzStatus.pending w k = cc
pending_or_valid AuthzStatus.valid w k = cc
pending_or_valid AuthzStatus.invalid w k = cc
pending_or_valid AuthzStatus.expired w k = cc
pending_or_valid AuthzStatus.deactivated w k = cc

pub attempt_dns01-Keeps :
    (p : Challenge → Bool) (cfg : Retry) (now : ℕ) (a : Authz) (c x : Challenge) (v : Verdict)
    → is_pending a.status ≡ true
    → first_where p a.challenges ≡ some c
    → x.typ ≡ c.typ
    → x.id ≡ c.id
    → Keeps a (attempt_dns01 cfg now x v a)
unfolding attempt_dns01 display_identifier
attempt_dns01-Keeps p cfg now a c x passed w f t i =
    settle-Keeps p now a c (record x { attempts = x.attempts + 1; next_attempt_at = none }) passed f
      t i
attempt_dns01-Keeps p cfg now a c x (failed e) w f t i =
    elim (Bool-cases
      (ltb (x.attempts + 1) (attempt_limit cfg) && ltb (now + retry_delay cfg) a.expires)) [
        | inr given_up ↦
            rw (given_up, attempt_dns01)
              (settle-Keeps p now a c
                (record x { attempts = x.attempts + 1; next_attempt_at = none }) (failed e) f t i)
        | inl again ↦
            rw (again, attempt_dns01)
              (record {
                name_kept = refl;
                proved = λ _ k. pending_or_valid a.status w k;
                dns_only = changed-DnsOnly p x.id a c _ a.status f t;
              })
      ]

pub run_validation-Keeps :
    (p : Challenge → Bool) (cfg : Retry) (now : ℕ) (a : Authz) (c : Challenge) (v : Verdict)
    → is_pending a.status ≡ true
    → first_where p a.challenges ≡ some c
    → Keeps a (run_validation cfg now c v a)
unfolding run_validation
run_validation-Keeps p cfg now a c v w f = elim (Bool-cases (is_dns01 c.typ)) [
  | inl dns ↦ rw dns (
      attempt_dns01-Keeps p cfg now a c (record c { status = ChallengeStatus.processing }) v w f
        refl refl)
  | inr http ↦
      rw http
        (settle-Keeps p now a c (record c { status = ChallengeStatus.processing }) v f refl refl)
]
