-- ===== src/Acme/Lifecycle.antt =====
-- The life of an order: every operation of app/services/acme/service.py that reads or changes it,
-- one after another.
use chancery.Prelude.{
  ℕ, ◌≡◌, refl, sym, ◌∙◌, Option, true, not, ◌&&◌, List, [], ◌∷◌, All, Option-cases, inl, inr, leb,
  Bool-cases,
}
use chancery.Acme.Types.{Order, OrderStatus, is_final}
use chancery.Acme.Refresh.{refresh_order, deactivate_authz}
use chancery.Acme.Challenges.{Verdict, Retry, respond_challenge, poll_authz}
use chancery.Acme.Finalize.{Csr, Profile, finalize, issue, deactivate_order, expire_order, is_ready}
use chancery.Acme.Granted.{
  Granted, AllValid, grants, refresh_order-Granted, deactivate_authz-Granted, map-refresh_authz,
}
use chancery.Acme.GrantedOps.{respond_challenge-Granted, poll_authz-Granted}
use chancery.Acme.Names.{WellNamed}
use chancery.Acme.Proofs.{Proved}
use chancery.Acme.Follows.{
  Follows, refresh_order-Follows, Follows-refl, KeepsAll-names, KeepsAll-Proved, KeepsAll-DnsOnly,
}
use chancery.Acme.Operations.{
  deactivate_authz-Follows, respond_challenge-Follows, poll_authz-Follows, deactivate_order-Follows,
  expire_order-Follows, finalize-Follows, finalize_ready-cases,
}

-- A request or a job that touches the order, with what the outside answers.
pub data Event : Type 0 where
  loaded : ℕ → Event
  responded : ℕ → ℕ → ℕ → Verdict → Event
  polled : ℕ → ℕ → Verdict → Event
  authz_deactivated : ℕ → ℕ → Event
  account_deactivated : Event
  maintained : ℕ → Event
  finalized : (Csr → ℕ → Option ℕ) → ℕ → ℕ → Option Csr → Option Profile → Event

unfoldable pub apply : Retry → Event → Order → Order
unfolding refresh_order respond_challenge poll_authz deactivate_authz deactivate_order expire_order
    finalize
apply cfg (loaded now) o = refresh_order now o
apply cfg (responded now n m v) o = (respond_challenge cfg now n m v o).1
apply cfg (polled now n v) o = poll_authz cfg now n v o
apply cfg (authz_deactivated now n) o = deactivate_authz now n o
apply cfg account_deactivated o = deactivate_order o
apply cfg (maintained now) o = expire_order now o
apply cfg (finalized sign d now csr p) o = (finalize sign d now csr p o).1

unfoldable pub apply_all : Retry → List Event → Order → Order
unfolding apply
apply_all cfg [] o = o
apply_all cfg (e ∷ es) o = apply_all cfg es (apply cfg e o)

pub record Sound (o : Order) : Type 0 where
  pub named : WellNamed o
  pub proved : All Proved o.authorizations
  pub granted : Granted o

deactivate_order-Granted : (o : Order) → Granted o → Granted (deactivate_order o)
unfolding deactivate_order
deactivate_order-Granted o g = elim (Bool-cases (is_final o.status)) [
  | inl y ↦ rw y g
  | inr n ↦ rw n (λ k. cc)
]

expire_order-Granted : (now : ℕ) (o : Order) → Granted o → Granted (expire_order now o)
unfolding expire_order
expire_order-Granted now o g = elim (Bool-cases (not (is_final o.status) && leb o.expires now)) [
  | inl y ↦ rw y (λ k. cc)
  | inr n ↦ rw n (λ k. let v = g k in rw (map-refresh_authz now o.authorizations v.every_valid) v)
]

issue-Granted :
    (sign : Csr → ℕ → Option ℕ) (now : ℕ) (csr : Csr) (d : ℕ) (o : Order)
    → AllValid o.authorizations
    → Granted (issue sign now csr d o).1
unfolding issue
issue-Granted sign now csr d o v = elim (Option-cases (sign csr d)) [
  | inl e ↦ rw (e, issue) (λ k. v)
  | inr (cert, e) ↦ rw (e, issue) (λ k. v)
]

pub ready-grants : (s : OrderStatus) → is_ready s ≡ true → grants s ≡ true
ready-grants OrderStatus.ready r = refl
ready-grants OrderStatus.pending r = cc
ready-grants OrderStatus.processing r = refl
ready-grants OrderStatus.valid r = refl
ready-grants OrderStatus.invalid r = cc

finalize-Granted :
    (sign : Csr → ℕ → Option ℕ) (d now : ℕ) (csr : Option Csr) (p : Option Profile) (o : Order)
    → Granted o
    → Granted (finalize sign d now csr p o).1
unfolding finalize
finalize-Granted sign d now csr p o g =
    let h = refresh_order-Granted now o g in
    elim (finalize_ready-cases sign d now csr p (refresh_order now o)) [
      | inl (same, _) ↦ rw same h
      | inr (q, ready, _, e) ↦
          rw e (issue-Granted sign now q.0 q.1 (refresh_order now o) (h (ready-grants _ ready)))
    ]

Follows-Sound : {o p : Order} → Follows o p → Granted p → Sound o → Sound p
Follows-Sound f g s = record {
  named = record {
    distinct = rw f.same_identifiers s.named.distinct;
    one_each = KeepsAll-names f.authz_kept ∙ (s.named.one_each ∙ sym f.same_identifiers);
    dns_only = KeepsAll-DnsOnly f.authz_kept s.named.dns_only;
  };
  proved = KeepsAll-Proved f.authz_kept s.proved;
  granted = g;
}

pub apply-Sound : (cfg : Retry) (e : Event) (o : Order) → Sound o → Sound (apply cfg e o)
unfolding apply
apply-Sound cfg (loaded now) o s =
    Follows-Sound (refresh_order-Follows now o o (Follows-refl o))
      (refresh_order-Granted now o s.granted) s
apply-Sound cfg (responded now n m v) o s =
    Follows-Sound (respond_challenge-Follows cfg now n m v o)
      (respond_challenge-Granted cfg now n m v o s.granted) s
apply-Sound cfg (polled now n v) o s =
    Follows-Sound (poll_authz-Follows cfg now n v o) (poll_authz-Granted cfg now n v o s.granted) s
apply-Sound cfg (authz_deactivated now n) o s =
    Follows-Sound (deactivate_authz-Follows now n o) (deactivate_authz-Granted now n o s.granted) s
apply-Sound cfg account_deactivated o s =
    Follows-Sound (deactivate_order-Follows o) (deactivate_order-Granted o s.granted) s
apply-Sound cfg (maintained now) o s =
    Follows-Sound (expire_order-Follows now o) (expire_order-Granted now o s.granted) s
apply-Sound cfg (finalized sign d now csr p) o s =
    Follows-Sound (finalize-Follows sign d now csr p o)
      (finalize-Granted sign d now csr p o s.granted) s

pub apply_all-Sound :
    (cfg : Retry) (es : List Event) (o : Order) → Sound o → Sound (apply_all cfg es o)
unfolding apply_all
apply_all-Sound cfg [] o s = s
apply_all-Sound cfg (e ∷ es) o s = apply_all-Sound cfg es (apply cfg e o) (apply-Sound cfg e o s)

pub refreshed-Sound : (cfg : Retry) (now : ℕ) (o : Order) → Sound o → Sound (refresh_order now o)
refreshed-Sound cfg now o s = unfold apply in apply-Sound cfg (loaded now) o s
