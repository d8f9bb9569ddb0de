-- ===== src/Acme/Operations.antt =====
-- Each operation on an order keeps its identifiers, its authorizations' names and their proofs
-- (app/services/acme/service.py).
use chancery.Prelude.{
  ℕ, ◌≡◌, ◌≢◌, refl, ◌∙◌, Option, some, true, ◌&&◌, first_where, Option-cases, ◌⊎◌, inl, inr, arith,
  leb, ◌==◌, Bool-cases, Result, ok, raise,
}
use chancery.Acme.Types.{Order, Authz, Challenge, is_pending, is_final, awaits_client}
use chancery.Acme.Refresh.{
  refresh_authz, refresh_order, update_authz, find_authz, deactivate, deactivate_authz,
}
use chancery.Acme.Challenges.{
  Verdict, Retry, respond_to, respond_challenge, poll, poll_authz, find_challenge, is_due,
}
use chancery.Acme.Finalize.{
  Csr, Profile, Finalized, finalize, finalize_ready, issue, check_request, deactivate_order,
  expire_order, was_issued, is_ready,
}
use chancery.Acme.Granted.{refreshed_pending}
use chancery.Acme.GrantedOps.{respond_to-settled, respond_to-late, respond_to-early}
use chancery.Acme.Proofs.{
  refresh_authz-Keeps, deactivate-Keeps, attempt_dns01-Keeps, run_validation-Keeps,
}
use chancery.Acme.Follows.{
  Follows, Follows-refl, same_authz-Follows, refresh_order-Follows, with_authz-Follows,
  replace-KeepsAll, update-KeepsAll, map-KeepsAll, KeepsAll-trans,
}
use chancery.Acme.Orders.{Problem}

pub deactivate_authz-Follows : (now n : ℕ) (o : Order) → Follows o (deactivate_authz now n o)
unfolding deactivate_authz
deactivate_authz-Follows now n o = elim (Option-cases (find_authz n o.authorizations)) [
  | inl f ↦ rw (f, deactivate_authz) (Follows-refl o)
  | inr (a, f) ↦ elim (Bool-cases (is_pending a.status)) [
    | inr settled ↦ rw (f, settled, deactivate_authz) (Follows-refl o)
    | inl p ↦
        rw (f, p, deactivate_authz)
          (refresh_order-Follows now o _ (
            with_authz-Follows o _
              (update-KeepsAll n deactivate deactivate-Keeps o.authorizations)))
  ]
]

refresh_authz-pending :
    (now : ℕ) (a : Authz) → is_pending (refresh_authz now a).status ≡ true → refresh_authz now a ≡ a
unfolding refresh_authz
refresh_authz-pending now a p = ground arith

respond_to-Follows :
    (cfg : Retry) (now n m : ℕ) (c : Challenge) (v : Verdict) (a : Authz) (o : Order)
    → find_authz n o.authorizations ≡ some a
    → find_challenge m a.challenges ≡ some c
    → Follows o (respond_to cfg now c v a o).1
respond_to-Follows cfg now n m c v a o f g =
    let refreshed =
      with_authz-Follows o _ (
        replace-KeepsAll n (refresh_authz now a) a (refresh_authz-Keeps now a) o.authorizations
          f) in
    elim (Bool-cases (awaits_client c.status && is_pending (refresh_authz now a).status)) [
      | inr settled ↦ rw (respond_to-settled cfg now c v a o settled) refreshed
      | inl both ↦ elim (Bool-cases (leb o.expires now)) [
        | inl late ↦
            rw (respond_to-late cfg now c v a o both late) (refresh_order-Follows now o _ refreshed)
        | inr early ↦
            let p : is_pending (refresh_authz now a).status ≡ true = ground arith in
            rw (respond_to-early cfg now c v a o both early, refresh_authz-pending now a p)
              (refresh_order-Follows now o _ (
                with_authz-Follows o _ (
                  replace-KeepsAll n _ a
                    (run_validation-Keeps (λ z. z.id == m) cfg now a c v (refreshed_pending now a p)
                      g)
                    o.authorizations f)))
      ]
    ]

pub respond_challenge-Follows :
    (cfg : Retry) (now n m : ℕ) (v : Verdict) (o : Order)
    → Follows o (respond_challenge cfg now n m v o).1
unfolding respond_challenge
respond_challenge-Follows cfg now n m v o = elim (Option-cases (find_authz n o.authorizations)) [
  | inl f ↦ rw (f, respond_challenge) (Follows-refl o)
  | inr (a, f) ↦ elim (Option-cases (find_challenge m a.challenges)) [
    | inl e ↦ rw (f, e, respond_challenge) (Follows-refl o)
    | inr (c, e) ↦ rw (f, e, respond_challenge) (respond_to-Follows cfg now n m c v a o f e)
  ]
]

poll-late :
    (cfg : Retry) (now : ℕ) (v : Verdict) (a : Authz) (o : Order)
    → is_pending a.status ≡ true
    → leb a.expires now ≡ true
    → poll cfg now v a o
      ≡ record o { authorizations = update_authz a.id (λ _. refresh_authz now a) o.authorizations }
unfolding poll
poll-late cfg now v a o p late = rw (p, late, poll) refl

poll-Follows :
    (cfg : Retry) (now n : ℕ) (v : Verdict) (a : Authz) (o : Order)
    → find_authz n o.authorizations ≡ some a
    → Follows o (poll cfg now v a o)
unfolding poll
poll-Follows cfg now n v a o f = elim (Bool-cases (is_pending a.status)) [
  | inr settled ↦ rw (settled, poll) (Follows-refl o)
  | inl p ↦ elim (Bool-cases (leb a.expires now)) [
    | inl late ↦ rw (poll-late cfg now v a o p late) (
        with_authz-Follows o _ (
          replace-KeepsAll n (refresh_authz now a) a (refresh_authz-Keeps now a) o.authorizations
            f))
    | inr early ↦ elim (Option-cases (first_where (is_due now) a.challenges)) [
      | inl none_due ↦ rw (p, early, none_due, poll) (Follows-refl o)
      | inr (c, due) ↦
          rw (p, early, due, poll)
            (refresh_order-Follows now o _ (
              with_authz-Follows o _ (
                replace-KeepsAll n _ a
                  (attempt_dns01-Keeps (is_due now) cfg now a c c v p due refl refl)
                  o.authorizations f)))
    ]
  ]
]

pub poll_authz-Follows :
    (cfg : Retry) (now n : ℕ) (v : Verdict) (o : Order) → Follows o (poll_authz cfg now n v o)
unfolding poll_authz
poll_authz-Follows cfg now n v o = elim (Option-cases (find_authz n o.authorizations)) [
  | inl f ↦ rw (f, poll_authz) (Follows-refl o)
  | inr (a, f) ↦ rw (f, poll_authz) (poll-Follows cfg now n v a o f)
]

pub deactivate_order-Follows : (o : Order) → Follows o (deactivate_order o)
unfolding deactivate_order
deactivate_order-Follows o = elim (Bool-cases (is_final o.status)) [
  | inl y ↦ rw y (Follows-refl o)
  | inr n ↦ rw n (same_authz-Follows o _ refl refl)
]

expire_order-identifiers : (now : ℕ) (o : Order) → (expire_order now o).identifiers ≡ o.identifiers
unfolding expire_order
expire_order-identifiers now o = ground arith

pub expire_order-Follows : (now : ℕ) (o : Order) → Follows o (expire_order now o)
unfolding expire_order
expire_order-Follows now o = record {
  same_identifiers = expire_order-identifiers now o;
  authz_kept = map-KeepsAll (refresh_authz now) (refresh_authz-Keeps now) o.authorizations;
}

trans_Follows : {o p q : Order} → Follows o p → Follows p q → Follows o q
trans_Follows f g = record {
  same_identifiers = g.same_identifiers ∙ f.same_identifiers;
  authz_kept = KeepsAll-trans f.authz_kept g.authz_kept;
}

issue-Follows :
    (sign : Csr → ℕ → Option ℕ) (now : ℕ) (csr : Csr) (d : ℕ) (o : Order)
    → Follows o (issue sign now csr d o).1
unfolding issue
issue-Follows sign now csr d o = elim (Option-cases (sign csr d)) [
  | inl e ↦ rw (e, issue) (same_authz-Follows o _ refl refl)
  | inr (cert, e) ↦ rw (e, issue) (same_authz-Follows o _ refl refl)
]

request-cases :
    (r : Result Problem (Csr × ℕ)) → ((p : Problem) × (r ≡ raise p)) ⊎ ((q : Csr × ℕ) × (r ≡ ok q))
request-cases (raise p) = inl (p, refl)
request-cases (ok q) = inr (q, refl)

-- The ways through `finalize` on a refreshed order.
pub finalize_ready-cases :
    (sign : Csr → ℕ → Option ℕ) (d now : ℕ) (csr : Option Csr) (p : Option Profile) (o : Order)
    → ((finalize_ready sign d now csr p o).1 ≡ o)
        × ((cert n : ℕ) → (finalize_ready sign d now csr p o).0 ≢ Finalized.issued cert n)
      ⊎ ((q : Csr × ℕ) × (is_ready o.status ≡ true)
          × (check_request d csr p o ≡ ok q)
          × (finalize_ready sign d now csr p o ≡ issue sign now q.0 q.1 o))
unfolding finalize_ready
finalize_ready-cases sign d now csr p o = elim (Bool-cases (was_issued o.status)) [
  | inl done ↦ inl (rw done (refl, λ cert n e. cc))
  | inr open_order ↦ elim (Bool-cases (is_ready o.status)) [
    | inr waits ↦ inl (rw (open_order, waits) (refl, λ cert n e. cc))
    | inl ready ↦ elim (request-cases (check_request d csr p o)) [
      | inl (e, r) ↦ inl (rw (open_order, ready, r, finalize_ready) (refl, λ cert n x. cc))
      | inr (q, r) ↦ inr (q, ready, r, rw (open_order, ready, r, finalize_ready) refl)
    ]
  ]
]

pub finalize-Follows :
    (sign : Csr → ℕ → Option ℕ) (d now : ℕ) (csr : Option Csr) (p : Option Profile) (o : Order)
    → Follows o (finalize sign d now csr p o).1
unfolding finalize
finalize-Follows sign d now csr p o =
    let refreshed = refresh_order-Follows now o o (Follows-refl o) in
    elim (finalize_ready-cases sign d now csr p (refresh_order now o)) [
      | inl (same, _) ↦ rw same refreshed
      | inr (q, _, _, e) ↦ rw e (trans_Follows refreshed (issue-Follows sign now q.0 q.1 _))
    ]
