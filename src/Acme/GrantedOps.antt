-- ===== src/Acme/GrantedOps.antt =====
-- A challenge, a poll or a deactivation keeps what an order's status says (app/services/acme/service.py).
use chancery.Prelude.{
  ℕ, ◌≡◌, refl, sym, ap, some, true, false, ◌&&◌, List, [], ◌∷◌, first_where, Option-cases, inl,
  inr, arith, leb, ◌==◌, ==_refl, Bool-cases,
}
use chancery.Acme.Types.{Order, Authz, Challenge, is_pending, is_valid, awaits_client}
use chancery.Acme.Refresh.{refresh_authz, refresh_order, update_authz, find_authz}
use chancery.Acme.Challenges.{
  Verdict, Retry, respond_to, respond_challenge, poll, poll_authz, run_validation, find_challenge,
  is_due,
}
use chancery.Acme.Granted.{
  Granted, refresh_authz-valid, refreshed_pending, refresh_order-Granted, first_where-all_of,
  find_authz-grants, ungranted,
}

pub found_id : (n : ℕ) (as' : List Authz) (a : Authz) → find_authz n as' ≡ some a → a.id ≡ n
found_id n [] a f = cc
found_id n (x ∷ as') a f = ground (arith, found_id n as' a)

pub first_here :
    (n : ℕ) (x : Authz) (as' : List Authz) (a : Authz)
    → (x.id == n) ≡ true
    → find_authz n (x ∷ as') ≡ some a
    → x ≡ a
first_here n x as' a y f = cc

pub first_there :
    (n : ℕ) (x : Authz) (as' : List Authz) (a : Authz)
    → (x.id == n) ≡ false
    → find_authz n (x ∷ as') ≡ some a
    → find_authz n as' ≡ some a
first_there n x as' a diff f = cc

pub ==_refl_at : (x a : Authz) → x ≡ a → (x.id == a.id) ≡ true
==_refl_at x a e = cc (==_refl x.id)

pub differs_at : (n : ℕ) (x a : Authz) → a.id ≡ n → (x.id == n) ≡ false → (x.id == a.id) ≡ false
differs_at n x a e diff = cc

-- The found authorization put back in its place.
update_authz-same :
    (n : ℕ) (as' : List Authz) (a : Authz)
    → find_authz n as' ≡ some a
    → update_authz a.id (λ _. a) as' ≡ as'
unfolding update_authz
update_authz-same n [] a f = refl
update_authz-same n (x ∷ as') a f =
    let same_id = found_id n (x ∷ as') a f in
    elim (Bool-cases (x.id == n)) [
      | inl y ↦
          let e = first_here n x as' a y f in rw (==_refl_at x a e) (ap (λ z. z ∷ as') (sym e))
      | inr diff ↦
          rw (differs_at n x a same_id diff)
            (ap (λ zs. x ∷ zs) (update_authz-same n as' a (first_there n x as' a diff f)))
    ]

refreshed_one-Granted :
    (now n : ℕ) (a : Authz) (o : Order)
    → Granted o
    → find_authz n o.authorizations ≡ some a
    → Granted (record o {
      authorizations = update_authz a.id (λ _. refresh_authz now a) o.authorizations;
    })
refreshed_one-Granted now n a o g f k =
    let all = g k in
    let v =
      first_where-all_of (λ x. is_valid x.status) (λ x. x.id == n) o.authorizations a
        all.every_valid f in
    rw (refresh_authz-valid now a v, update_authz-same n o.authorizations a f) all

pub respond_to-late :
    (cfg : Retry) (now : ℕ) (c : Challenge) (v : Verdict) (a : Authz) (o : Order)
    → (awaits_client c.status && is_pending (refresh_authz now a).status) ≡ true
    → leb o.expires now ≡ true
    → (respond_to cfg now c v a o).1
      ≡ refresh_order now (record o {
        authorizations = update_authz a.id (λ _. refresh_authz now a) o.authorizations;
      })
unfolding respond_to
respond_to-late cfg now c v a o both late = rw (both, late, respond_to) refl

pub respond_to-early :
    (cfg : Retry) (now : ℕ) (c : Challenge) (v : Verdict) (a : Authz) (o : Order)
    → (awaits_client c.status && is_pending (refresh_authz now a).status) ≡ true
    → leb o.expires now ≡ false
    → (respond_to cfg now c v a o).1
      ≡ refresh_order now (record o {
        authorizations =
            update_authz a.id
              (λ _. run_validation cfg now c v (refresh_authz now a))
              o.authorizations;
      })
unfolding respond_to
respond_to-early cfg now c v a o both early = rw (both, early, respond_to) refl

pub respond_to-settled :
    (cfg : Retry) (now : ℕ) (c : Challenge) (v : Verdict) (a : Authz) (o : Order)
    → (awaits_client c.status && is_pending (refresh_authz now a).status) ≡ false
    → (respond_to cfg now c v a o).1
      ≡ record o { authorizations = update_authz a.id (λ _. refresh_authz now a) o.authorizations }
unfolding respond_to
respond_to-settled cfg now c v a o settled = rw (settled, respond_to) refl

respond_to-Granted :
    (cfg : Retry) (now n : ℕ) (c : Challenge) (v : Verdict) (a : Authz) (o : Order)
    → Granted o
    → find_authz n o.authorizations ≡ some a
    → Granted (respond_to cfg now c v a o).1
respond_to-Granted cfg now n c v a o g f =
    elim (Bool-cases (awaits_client c.status && is_pending (refresh_authz now a).status)) [
      | inr settled ↦
          rw (respond_to-settled cfg now c v a o settled) (refreshed_one-Granted now n a o g f)
      | inl both ↦
          let no_grant = find_authz-grants o n a g f (refreshed_pending now a (ground arith)) in
          elim (Bool-cases (leb o.expires now)) [
            | inl late ↦
                rw (respond_to-late cfg now c v a o both late)
                  (refresh_order-Granted now _ (ungranted o _ no_grant))
            | inr early ↦
                rw (respond_to-early cfg now c v a o both early)
                  (refresh_order-Granted now _ (ungranted o _ no_grant))
          ]
    ]

poll-Granted :
    (cfg : Retry) (now n : ℕ) (v : Verdict) (a : Authz) (o : Order)
    → Granted o
    → find_authz n o.authorizations ≡ some a
    → Granted (poll cfg now v a o)
unfolding poll
poll-Granted cfg now n v a o g f = elim (Bool-cases (is_pending a.status)) [
  | inr settled ↦ rw (settled, poll) g
  | inl p ↦
      let no_grant = find_authz-grants o n a g f p in
      elim (Bool-cases (leb a.expires now)) [
        | inl late ↦ rw (p, late, poll) (ungranted o _ no_grant)
        | inr early ↦ elim (Option-cases (first_where (is_due now) a.challenges)) [
          | inl none_due ↦ rw (p, early, none_due, poll) g
          | inr (c, due) ↦
              rw (p, early, due, poll) (refresh_order-Granted now _ (ungranted o _ no_grant))
        ]
      ]
]

pub respond_challenge-Granted :
    (cfg : Retry) (now n m : ℕ) (v : Verdict) (o : Order)
    → Granted o
    → Granted (respond_challenge cfg now n m v o).1
unfolding respond_challenge
respond_challenge-Granted cfg now n m v o g = elim (Option-cases (find_authz n o.authorizations)) [
  | inl f ↦ rw (f, respond_challenge) g
  | inr (a, f) ↦ elim (Option-cases (find_challenge m a.challenges)) [
    | inl e ↦ rw (f, e, respond_challenge) g
    | inr (c, e) ↦ rw (f, e, respond_challenge) (respond_to-Granted cfg now n c v a o g f)
  ]
]

pub poll_authz-Granted :
    (cfg : Retry) (now n : ℕ) (v : Verdict) (o : Order)
    → Granted o
    → Granted (poll_authz cfg now n v o)
unfolding poll_authz
poll_authz-Granted cfg now n v o g = elim (Option-cases (find_authz n o.authorizations)) [
  | inl f ↦ rw (f, poll_authz) g
  | inr (a, f) ↦ rw (f, poll_authz) (poll-Granted cfg now n v a o g f)
]
