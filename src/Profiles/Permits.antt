-- ===== src/Profiles/Permits.antt =====
-- What each check of `enforce` in app/services/profile_service.py lets through.
use chancery.Prelude.{
  ℕ, zero, suc, ◌≤◌, ◌≡◌, refl, sym, ap, ◌∙◌, Option, none, some, Bool, true, false, not, ◌&&◌,
  List, [], ◌∷◌, ◌++◌, any_of, Elem, here, there, ◌⊎◌, inl, inr, arith, ltb, ◌==◌, if◌then◌else◌,
  ==_iff, Bool-cases, Result, ok, raise, ◌>>=◌, refuse_if, ok_unique, raise_not_ok, bind_ok,
  guard_ok, for_each-ok, any_of-found,
}
use mathlib.Core.Path.{subst}
use chancery.Issuance.Policy.{KeyType, rsa, ec, ed25519, ed448, other}
use chancery.Authorities.Types.{Text, Kind, kind_number, dns, ip, email, uri, upn, Entry, CaError}
use chancery.Authorities.Types as Types
use chancery.Authorities.Text.{same_text, is_empty, lower, strip}
use chancery.Authorities.Names.{parse_entry}
use chancery.Profiles.Enforce.{
  Profile, ProfileError, key_type_refused, rsa_too_small, cn_not_in_san, type_number, excluded_by,
  Asked, lift_san, check_size, check_key, kind_allowed, check_san, check_sans, dns_value,
  dns_values, check_cn,
}

-- A restriction that is empty restricts nothing.
abbrev pub Permits {ℓ} : {A : Type ℓ} → List A → A → Type ℓ
Permits allowed a = (allowed ≡ []) ⊎ Elem a allowed

-- A bound of 0 is none.
abbrev pub AtMost : ℕ → ℕ → Type 0
AtMost bound n = (bound ≡ 0) ⊎ (n ≤ bound)

abbrev pub Parses : Text → Entry → Type 0
Parses t e = parse_entry t ≡ ok (some e)

type_of : ℕ → KeyType
type_of n =
    if n == 0
    then rsa
    else if n == 1
    then ec
    else if n == 2
    then ed25519
    else if n == 3
    then ed448
    else other

type_of-type_number : (t : KeyType) → type_of (type_number t) ≡ t
unfolding type_of
type_of-type_number rsa = refl
type_of-type_number ec = refl
type_of-type_number ed25519 = refl
type_of-type_number ed448 = refl
type_of-type_number other = refl

same_type : (s t : KeyType) → type_number s ≡ type_number t → s ≡ t
same_type s t h = sym (type_of-type_number s) ∙ ap type_of h ∙ type_of-type_number t

kind_of : ℕ → Kind
kind_of n =
    if n == 0
    then dns
    else if n == 1
    then ip
    else if n == 2
    then email
    else if n == 3
    then uri
    else if n == 4
    then upn
    else Types.other

kind_of-kind_number : (k : Kind) → kind_of (kind_number k) ≡ k
unfolding kind_of
kind_of-kind_number dns = refl
kind_of-kind_number ip = refl
kind_of-kind_number email = refl
kind_of-kind_number uri = refl
kind_of-kind_number upn = refl
kind_of-kind_number Types.other = refl

same_kinds : (k l : Kind) → kind_number k ≡ kind_number l → k ≡ l
same_kinds k l h = sym (kind_of-kind_number k) ∙ ap kind_of h ∙ kind_of-kind_number l

found {ℓ} :
    {A : Type ℓ} (number : A → ℕ) (a : A) (xs : List A)
    → ((b c : A) → number b ≡ number c → b ≡ c)
    → any_of (λ x. number x == number a) xs ≡ true
    → Elem a xs
found number a xs injective h =
    let f = any_of-found (λ x. number x == number a) xs h in
    subst (λ x. Elem x xs) (injective f.0 a ((==_iff _ _).0 f.2)) f.1

not_excluded {ℓ} :
    {A : Type ℓ} (number : A → ℕ) (a : A) (xs : List A)
    → ((b c : A) → number b ≡ number c → b ≡ c)
    → excluded_by (λ x. number x == number a) xs ≡ false
    → Permits xs a
not_excluded number a [] injective h = inl refl
not_excluded number a (x ∷ xs) injective h =
    inr (found number a (x ∷ xs) injective (ground (arith, h)))

pub refuse_if-ok : (t : Bool) (e : ProfileError) → refuse_if t e ≡ ok tt → t ≡ false
refuse_if-ok true e h = raise_not_ok _ refl h
refuse_if-ok false e h = refl

pub at_most : (bound n : ℕ) → (ltb 0 bound && ltb bound n) ≡ false → AtMost bound n
at_most zero n h = inl refl
at_most (suc b) n h = inr (ground (arith, h))

check_size-rsa :
    (p : Profile) (n : ℕ)
    → check_size p n rsa ≡ ok tt
    → (p.min_rsa_bits ≤ n) × AtMost p.max_rsa_bits n
check_size-rsa p n h =
    let g = guard_ok (ltb 0 p.min_rsa_bits && ltb n p.min_rsa_bits) rsa_too_small _ h in
    (ground (arith, g.0), at_most p.max_rsa_bits n (refuse_if-ok _ _ g.1))

check_size-ec : (p : Profile) (n : ℕ) → check_size p n ec ≡ ok tt → Permits p.allowed_ec_sizes n
check_size-ec p n h = not_excluded (λ m. m) n p.allowed_ec_sizes (λ b c e. e) (refuse_if-ok _ _ h)

pub check_key-Permits :
    (p : Profile) (a : Asked)
    → check_key p a ≡ ok tt
    → Permits p.allowed_key_types a.key_type
      × (a.key_type ≡ rsa → (p.min_rsa_bits ≤ a.key_size) × AtMost p.max_rsa_bits a.key_size)
      × (a.key_type ≡ ec → Permits p.allowed_ec_sizes a.key_size)
unfolding check_key
check_key-Permits p a h =
    let g =
      guard_ok (excluded_by (λ t. type_number t == type_number a.key_type) p.allowed_key_types)
        key_type_refused _ h in
    (
      not_excluded type_number a.key_type p.allowed_key_types same_type g.0,
      λ e. check_size-rsa p a.key_size (sized rsa e g.1),
      λ e. check_size-ec p a.key_size (sized ec e g.1),
    )
  where
    sized :
        (t : KeyType)
        → a.key_type ≡ t
        → check_size p a.key_size a.key_type ≡ ok tt
        → check_size p a.key_size t ≡ ok tt
    sized t e c = subst (λ t. check_size p a.key_size t ≡ ok tt) e c

lift_san-ok {ℓ} : {A : Type ℓ} (r : Result CaError A) {a : A} → lift_san r ≡ ok a → r ≡ ok a
lift_san-ok (ok b) h = ap ok (ok_unique _ refl h)
lift_san-ok (raise e) h = raise_not_ok _ refl h

kind_allowed-Elem :
    (allowed : List Kind) (e : Option Entry)
    → kind_allowed allowed e ≡ ok tt
    → (x : Entry) × (e ≡ some x) × Elem x.kind allowed
kind_allowed-Elem allowed none h = raise_not_ok _ refl h
kind_allowed-Elem allowed (some x) h =
    (x, refl, found kind_number x.kind allowed same_kinds (ground (arith, refuse_if-ok _ _ h)))

check_san-Permits :
    (allowed : List Kind) (t : Text)
    → check_san allowed t ≡ ok tt
    → (e : Entry) × Parses t e × Elem e.kind allowed
unfolding check_san
check_san-Permits allowed t h =
    let b = bind_ok (lift_san (parse_entry t)) (kind_allowed allowed) h in
    let k = kind_allowed-Elem allowed b.0 b.2 in (k.0, lift_san-ok _ b.1 ∙ ap ok k.1, k.2)

pub check_sans-Permits :
    (allowed : List Kind) (sans : List Text)
    → check_sans allowed sans ≡ ok tt
    → (t : Text) → Elem t sans
    → (allowed ≡ []) ⊎ ((e : Entry) × Parses t e × Elem e.kind allowed)
unfolding check_sans
check_sans-Permits [] sans h t m = inl refl
check_sans-Permits (k ∷ ks) sans h t m =
    inr (check_san-Permits (k ∷ ks) t (for_each-ok (check_san (k ∷ ks)) sans h t m))

module _ (q : Text → Bool) where
  dns_value-any :
      (o : Option Entry) (vs : List Text)
      → any_of q (dns_value o ++ vs) ≡ true
      → ((e : Entry) × (o ≡ some e) × (e.kind ≡ dns) × (q (lower e.value) ≡ true))
        ⊎ (any_of q vs ≡ true)
  dns_value-any none vs h = inr h
  dns_value-any (some e) vs h = elim (Bool-cases (kind_number e.kind == kind_number dns)) [
    | inl y ↦ elim (Bool-cases (q (lower e.value))) [
      | inl z ↦ inl (e, refl, same_kinds e.kind dns ((==_iff _ _).0 y), z)
      | inr n ↦ inr (ground (arith, h, y, n))
    ]
    | inr n ↦ inr (ground (arith, h, n))
  ]

  dns_values-any :
      (sans vs : List Text)
      → dns_values sans ≡ ok vs
      → any_of q vs ≡ true
      → (t : Text) × (e : Entry) × Elem t sans
        × Parses t e
        × (e.kind ≡ dns)
        × (q (lower e.value) ≡ true)
  unfolding dns_values
  dns_values-any [] vs h m = let n : false ≡ true = ap (any_of q) (ok_unique _ refl h) ∙ m in cc
  dns_values-any (t ∷ ts) vs h m =
      let b =
        bind_ok (lift_san (parse_entry t)) (λ e. dns_values ts >>= λ vs. ok (dns_value e ++ vs))
          h in
      let c = bind_ok (dns_values ts) (λ vs. ok (dns_value b.0 ++ vs)) b.2 in
      elim (dns_value-any b.0 c.0 (ap (any_of q) (ok_unique _ refl c.2) ∙ m)) [
        | inl f ↦ (t, f.0, here, lift_san-ok _ b.1 ∙ ap ok f.1, f.2, f.3)
        | inr r ↦ let d = dns_values-any ts c.0 c.1 r in (d.0, d.1, there d.2, d.3, d.4, d.5)
      ]

pub check_cn-Listed :
    (p : Profile) (a : Asked) (sans : List Text)
    → check_cn p a.common_name sans ≡ ok tt
    → (cn : Text) → a.common_name ≡ some cn
    → is_empty cn ≡ false
    → p.cn_in_san ≡ true
    → (t : Text) × (e : Entry) × Elem t sans
      × Parses t e
      × (e.kind ≡ dns)
      × (same_text (lower (strip cn)) (lower e.value) ≡ true)
unfolding check_cn
check_cn-Listed p a sans h cn e f c =
    let q = same_text (lower (strip cn)) in
    let g : (dns_values sans >>= λ vs. refuse_if (not (any_of q vs)) cn_not_in_san) ≡ ok tt =
      sym (rw (e, f, c) refl) ∙ h in
    let b = bind_ok (dns_values sans) (λ vs. refuse_if (not (any_of q vs)) cn_not_in_san) g in
    dns_values-any q sans b.0 b.1 (ground (arith, refuse_if-ok _ _ b.2))
