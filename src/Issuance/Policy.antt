-- ===== src/Issuance/Policy.antt =====
-- The key and validity rules of app/services/policy.py. A Python integer that may be negative is a
-- number here where the code refuses everything below 1.
use chancery.Prelude.{
  ℕ, ◌+◌, ◌≤◌, ◌<◌, ◌≡◌, refl, Option, none, some, Bool, true, false, not, ◌||◌, inl, inr, arith,
  ltb, ◌==◌, if◌then◌else◌, Bool-cases, days, Result, ok, raise, ◌>>◌, refuse_if, ok_unique,
  raise_not_ok,
}

pub data PolicyError : Type 0 where
  key_too_small key_too_large bad_curve_size unsupported_key validity_not_positive
        validity_too_long :
      PolicyError

-- MIN_RSA_KEY_SIZE, MAX_RSA_KEY_SIZE and the three limits of the validity.
pub record Limits : Type 0 where
  pub min_rsa : ℕ
  pub max_rsa : ℕ
  pub max_cert_days : ℕ
  pub max_intermediate_days : ℕ
  pub max_ca_days : ℕ

pub data KeyType : Type 0 where
  rsa ec ed25519 ed448 other : KeyType

abbrev pub is_ec_size : ℕ → Bool
is_ec_size n = (n == 256 || n == 384) || n == 521

unfoldable pub enforce_rsa : Limits → ℕ → Result PolicyError (Unit {0})
enforce_rsa l size = do
  refuse_if (ltb size l.min_rsa) key_too_small
  refuse_if (ltb l.max_rsa size) key_too_large

unfoldable pub enforce_key_strength : Limits → KeyType → ℕ → Result PolicyError (Unit {0})
unfolding enforce_rsa
enforce_key_strength l rsa size = enforce_rsa l size
enforce_key_strength l ec size = refuse_if (not (is_ec_size size)) bad_curve_size
enforce_key_strength l ed25519 size = ok tt
enforce_key_strength l ed448 size = ok tt
enforce_key_strength l other size = raise unsupported_key

-- A public key as `isinstance` tells them apart; a curve has the size of its field.
pub data Curve : Type 0 where
  secp256r1 secp384r1 secp521r1 other_curve : Curve

pub data PublicKey : Type 0 where
  rsa_key : ℕ → PublicKey
  ec_key : Curve → PublicKey
  edwards_key unknown_key : PublicKey

unfoldable pub enforce_public_key_strength : Limits → PublicKey → Result PolicyError (Unit {0})
unfolding enforce_rsa
enforce_public_key_strength l (rsa_key size) = enforce_rsa l size
enforce_public_key_strength l (ec_key other_curve) = raise unsupported_key
enforce_public_key_strength l (ec_key _) = ok tt
enforce_public_key_strength l edwards_key = ok tt
enforce_public_key_strength l unknown_key = raise unsupported_key

pub data Tier : Type 0 where
  end_entity intermediate_ca root_ca : Tier

-- `is_ca` and `is_intermediate`
unfoldable pub tier_of : Bool → Bool → Tier
tier_of is_ca is_intermediate =
    if not is_ca then end_entity else if is_intermediate then intermediate_ca else root_ca

abbrev pub max_days : Limits → Tier → ℕ
max_days l end_entity = l.max_cert_days
max_days l intermediate_ca = l.max_intermediate_days
max_days l root_ca = l.max_ca_days

-- `bounded_not_after`; a validity of none or below 1 is 0 here.
unfoldable pub bounded_not_after : Limits → ℕ → ℕ → Option ℕ → Bool → Bool → Result PolicyError ℕ
unfolding tier_of
bounded_not_after l now validity_days ca_not_after is_ca is_intermediate =
    if ltb validity_days 1
    then raise validity_not_positive
    else if ltb (max_days l (tier_of is_ca is_intermediate)) validity_days
    then raise validity_too_long
    else ok (elim ca_not_after [
      | none ↦ now + days validity_days
      | some end_ ↦ if ltb end_ (now + days validity_days) then end_ else now + days validity_days
    ])

-- What `bounded_not_after` returns: after now where the issuer is not over, no later than the
-- issuer's end and the limit of the tier, and the requested end wherever the issuer lives that long.
pub record Bounded (l : Limits) (now validity : ℕ) (issuer_end : Option ℕ) (t : Tier) (result : ℕ)
    : Type 0 where
  pub positive : 1 ≤ validity
  pub within_limit : result ≤ now + days (max_days l t)
  pub within_issuer : (e : ℕ) → issuer_end ≡ some e → result ≤ e
  pub after_now : ((e : ℕ) → issuer_end ≡ some e → now < e) → now < result
  pub as_asked :
      ((e : ℕ) → issuer_end ≡ some e → now + days validity ≤ e) → result ≡ now + days validity

abbrev clamped : ℕ → ℕ → Option ℕ → ℕ
clamped now validity none = now + days validity
clamped now validity (some end_) =
    if ltb end_ (now + days validity) then end_ else now + days validity

clamped-Bounded :
    (l : Limits) (now validity : ℕ) (issuer_end : Option ℕ) (t : Tier)
    → 1 ≤ validity
    → validity ≤ max_days l t
    → Bounded l now validity issuer_end t (clamped now validity issuer_end)
clamped-Bounded l now validity none t p m = record {
  positive = p;
  within_limit = omega (arith, m);
  within_issuer = λ e h. cc;
  after_now = λ k. omega (arith, p);
  as_asked = λ k. refl;
}
clamped-Bounded l now validity (some end_) t p m = record {
  positive = p;
  within_limit = ground (arith, m);
  within_issuer = λ e h. let same : end_ ≡ e = cc in ground (arith, same);
  after_now = λ k. let late = k end_ refl in ground (arith, late, p);
  as_asked = λ k. let fits = k end_ refl in ground (arith, fits);
}

accepted :
    (l : Limits) (now validity : ℕ) (issuer_end : Option ℕ) (is_ca is_intermediate : Bool)
    → ltb validity 1 ≡ false
    → ltb (max_days l (tier_of is_ca is_intermediate)) validity ≡ false
    → bounded_not_after l now validity issuer_end is_ca is_intermediate
      ≡ ok (clamped now validity issuer_end)
unfolding bounded_not_after
accepted l now validity none is_ca is_intermediate p m = rw (p, m) refl
accepted l now validity (some e) is_ca is_intermediate p m = rw (p, m) refl

refuses_zero :
    (l : Limits) (now validity : ℕ) (issuer_end : Option ℕ) (is_ca is_intermediate : Bool)
    → ltb validity 1 ≡ true
    → bounded_not_after l now validity issuer_end is_ca is_intermediate
      ≡ raise validity_not_positive
unfolding bounded_not_after
refuses_zero l now validity issuer_end is_ca is_intermediate p = rw p refl

refuses_long :
    (l : Limits) (now validity : ℕ) (issuer_end : Option ℕ) (is_ca is_intermediate : Bool)
    → ltb validity 1 ≡ false
    → ltb (max_days l (tier_of is_ca is_intermediate)) validity ≡ true
    → bounded_not_after l now validity issuer_end is_ca is_intermediate ≡ raise validity_too_long
unfolding bounded_not_after
refuses_long l now validity issuer_end is_ca is_intermediate p m = rw (p, m) refl

-- A validity that is accepted is positive and gives an end that is no later than the limit of the
-- tier and than the issuer's end, that lies after now where the issuer is not over, and that is the
-- one asked for where the issuer lives that long.
pub bounded_not_after-Bounded :
    (l : Limits) (now validity : ℕ) (issuer_end : Option ℕ) (is_ca is_intermediate : Bool)
    (result : ℕ)
    → bounded_not_after l now validity issuer_end is_ca is_intermediate ≡ ok result
    → Bounded l now validity issuer_end (tier_of is_ca is_intermediate) result
bounded_not_after-Bounded l now validity issuer_end is_ca is_intermediate result e =
    elim (Bool-cases (ltb validity 1)) [
      | inl small ↦
          raise_not_ok _ (refuses_zero l now validity issuer_end is_ca is_intermediate small) e
      | inr p ↦ elim (Bool-cases (ltb (max_days l (tier_of is_ca is_intermediate)) validity)) [
        | inl long ↦
            raise_not_ok _ (refuses_long l now validity issuer_end is_ca is_intermediate p long) e
        | inr m ↦
            let same =
              ok_unique _ (accepted l now validity issuer_end is_ca is_intermediate p m) e in
            rw⁻¹ same (
              clamped-Bounded l now validity issuer_end (tier_of is_ca is_intermediate)
                (ground arith) (ground arith))
      ]
    ]
