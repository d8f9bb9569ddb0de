-- ===== src/Factors/Replay.antt =====
-- No code is accepted twice (app/services/totp_service.py, app/routes/auth.py).
use chancery.Prelude.{
  ℕ, zero, suc, ◌+◌, ◌-◌, ◌≤◌, ◌<◌, ◌≡◌, ◌≢◌, refl, sym, ap, ◌∙◌, String, Option, none, some, true,
  false, List, [], ◌∷◌, Option-cases, none-not_some, ◌⊎◌, inl, inr, arith, Bool-cases, str_eq,
  eq_iff,
}
use chancery.Factors.Totp.{
  Codes, Factor, totp, current_step, is_replay, candidates, first_match, verify_code,
  consume_recovery_code, check_second_factor,
}

-- A step is later than the last one accepted.
abbrev pub IsNew : Option ℕ → ℕ → Type 0
IsNew none n = Unit
IsNew (some last) n = last < n

fresh-IsNew : (last : Option ℕ) (n : ℕ) → is_replay last n ≡ false → IsNew last n
fresh-IsNew none n h = tt
fresh-IsNew (some last) n h = ground (arith, h)

-- What an accepted code is.
pub record Accepted (k : Codes) (secret code : String) (last : Option ℕ) (low high n : ℕ)
    : Type 0 where
  pub is_new : IsNew last n
  pub is_code_of : k.hotp secret n ≡ code
  pub not_before : low ≤ n
  pub not_after : n < high

first_match-Accepted :
    (k : Codes) (secret code : String) (last : Option ℕ) (count low : ℕ) (n : ℕ)
    → first_match k secret code last (candidates low count) ≡ some n
    → Accepted k secret code last low (low + count) n
unfolding first_match candidates
first_match-Accepted k secret code last zero low n h = none-not_some _ refl h
first_match-Accepted k secret code last (suc count) low n h =
    elim (Bool-cases (is_replay last low)) [
      | inl old ↦
          wider (first_match-Accepted k secret code last count (low + 1) n (skip (rw old refl) h))
      | inr fresh ↦ elim (Bool-cases (str_eq (k.hotp secret low) code)) [
        | inl y ↦ hit (fresh-IsNew last low fresh) y (skip (rw (fresh, y) refl) h)
        | inr other ↦ wider (
            first_match-Accepted k secret code last count (low + 1) n
              (skip (rw (fresh, other) refl) h))
      ]
    ]
  where
    skip :
        {o : Option ℕ}
        → first_match k secret code last (candidates low (suc count)) ≡ o
        → first_match k secret code last (candidates low (suc count)) ≡ some n
        → o ≡ some n
    skip e f = sym e ∙ f

    wider :
        Accepted k secret code last (low + 1) (low + 1 + count) n
        → Accepted k secret code last low (low + suc count) n
    wider a =
        let b = a.not_before in
        let c = a.not_after in
        record {
          is_new = a.is_new;
          is_code_of = a.is_code_of;
          not_before = omega (arith, b);
          not_after = omega (arith, c);
        }

    hit :
        IsNew last low
        → str_eq (k.hotp secret low) code ≡ true
        → some low ≡ some n
        → Accepted k secret code last low (low + suc count) n
    hit new y e =
        let same : low ≡ n = cc in
        rw⁻¹ same (record {
          is_new = new;
          is_code_of = (eq_iff _ _).0 y;
          not_before = omega arith;
          not_after = omega arith;
        })

-- Second factors presented one after another, each at a moment.
abbrev pub present_all : Codes → List (ℕ × String) → Factor → Factor
present_all k [] f = f
present_all k (g ∷ gs) f = present_all k gs (check_second_factor k g.0 g.1 f).1

verify_code-Accepted :
    (k : Codes) (secret typed : String) (last : Option ℕ) (now n : ℕ)
    → verify_code k secret typed last now 1 ≡ some n
    → IsNew last n × (k.hotp secret n ≡ k.tidy typed) × (n ≤ current_step now + 1)
unfolding verify_code
verify_code-Accepted k secret typed last now n h = elim (Bool-cases (k.is_code (k.tidy typed))) [
  | inr junk ↦ none-not_some (verify_code k secret typed last now 1) (rw junk refl) h
  | inl code ↦
      let same : verify_code k secret typed last now 1
          ≡ first_match k secret (k.tidy typed) last (
              candidates (current_step now - 1)
                (current_step now + 1 + 1 - (current_step now - 1))) =
        rw code refl in
      let a =
        first_match-Accepted k secret (k.tidy typed) last
          (current_step now + 1 + 1 - (current_step now - 1)) (current_step now - 1) n
          (sym same ∙ h) in
      let high = a.not_after in (a.is_new, a.is_code_of, omega (arith, high))
]

-- The secret stays and the last step only grows.
pub record Onward (f g : Factor) : Type 0 where
  pub same_secret : g.secret ≡ f.secret
  pub not_back : (n : ℕ) → IsNew g.totp_last_step n → IsNew f.totp_last_step n

onward_last : (last : Option ℕ) (m n : ℕ) → IsNew last m → m < n → IsNew last n
onward_last none m n h l = tt
onward_last (some p) m n h l = omega (arith, h, l)

check-cases :
    (k : Codes) (now : ℕ) (typed : String) (f : Factor)
    → ((n : ℕ) × (verify_code k f.secret typed f.totp_last_step now 1 ≡ some n)
        × (check_second_factor k now typed f ≡ (some totp, record f { totp_last_step = some n })))
      ⊎ (((check_second_factor k now typed f).0 ≢ some totp)
          × (((check_second_factor k now typed f).1.secret ≡ f.secret)
              × ((check_second_factor k now typed f).1.totp_last_step ≡ f.totp_last_step)))
unfolding check_second_factor
check-cases k now typed f =
    elim (Option-cases (verify_code k f.secret typed f.totp_last_step now 1)) [
      | inr (n, e) ↦ inl (n, e, rw (e, check_second_factor) refl)
      | inl e ↦ elim (Bool-cases (consume_recovery_code k f.recovery_codes typed).1) [
        | inl y ↦ inr (rw (e, check_second_factor, y) ((λ h. cc), (refl, refl)))
        | inr n ↦ inr (rw (e, check_second_factor, n) ((λ h. cc), (refl, refl)))
      ]
    ]

check-Onward :
    (k : Codes) (now : ℕ) (typed : String) (f : Factor)
    → Onward f (check_second_factor k now typed f).1
check-Onward k now typed f = elim (check-cases k now typed f) [
  | inl (n, e, same) ↦
      let a = verify_code-Accepted k f.secret typed f.totp_last_step now n e in
      rw same
        (record { same_secret = refl; not_back = λ m h. onward_last f.totp_last_step n m a.0 h })
  | inr (_, (secret, last)) ↦ record { same_secret = secret; not_back = λ m h. rw⁻¹ last h }
]

present-Onward : (k : Codes) (gs : List (ℕ × String)) (f : Factor) → Onward f (present_all k gs f)
present-Onward k [] f = record { same_secret = refl; not_back = λ n h. h }
present-Onward k (g ∷ gs) f =
    let a = check-Onward k g.0 g.1 f in
    let b = present-Onward k gs (check_second_factor k g.0 g.1 f).1 in
    record {
      same_secret = b.same_secret ∙ a.same_secret;
      not_back = λ n h. a.not_back n (b.not_back n h);
    }

-- Two codes accepted one after the other, whatever was presented in between, are the codes of two
-- steps, the later one of the later step; neither step is more than one ahead of its moment.
pub totp-once :
    (k : Codes) (f : Factor) (now : ℕ) (typed : String) (gs : List (ℕ × String)) (later : ℕ)
    (again : String)
    → (check_second_factor k now typed f).0 ≡ some totp
    → (check_second_factor k later again (present_all k gs (check_second_factor k now typed f).1)).0
      ≡ some totp
    → (n : ℕ) × (m : ℕ) × (n < m)
      × (k.hotp f.secret n ≡ k.tidy typed)
      × (k.hotp f.secret m ≡ k.tidy again)
      × (n ≤ current_step now + 1)
      × (m ≤ current_step later + 1)
totp-once k f now typed gs later again e d = elim (check-cases k now typed f) [
  | inr (never, _) ↦ absurd (never e)
  | inl (n, first, same) ↦
      let f1 : Factor = record f { totp_last_step = some n } in
      let g : Factor = present_all k gs f1 in
      let on = present-Onward k gs f1 in
      let d' : (check_second_factor k later again g).0 ≡ some totp = rw⁻¹ (ap (λ z. z.1) same) d in
      elim (check-cases k later again g) [
        | inr (never, _) ↦ absurd (never d')
        | inl (m, second, _) ↦
            let a = verify_code-Accepted k f.secret typed f.totp_last_step now n first in
            let b = verify_code-Accepted k g.secret again g.totp_last_step later m second in
            (
              n,
              m,
              on.not_back m b.0,
              a.1,
              sym (ap (λ z. k.hotp z m) on.same_secret) ∙ b.1,
              a.2,
              b.2,
            )
      ]
]
