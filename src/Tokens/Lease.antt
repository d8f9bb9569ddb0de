-- ===== src/Tokens/Lease.antt =====
-- `acquire_lease` of app/services/scheduler_service.py: one conditional update of the lease row. The
-- row is there, as `_ensure_lease_row` makes it.
use chancery.Prelude.{
  ℕ, ◌+◌, ◌≤◌, ◌≡◌, refl, ap, String, Option, none, some, Bool, true, false, ◌||◌, List, [], ◌∷◌,
  is_text, inl, inr, arith, ltb, if◌then◌else◌, Bool-cases, str_eq, eq_refl, seconds,
}

pub record Lease : Type 0 where
  pub holder : Option String
  pub expires_at : Option ℕ
  pub last_tick_at : Option ℕ

-- The condition of the update.
unfoldable pub is_free : ℕ → String → Lease → Bool
is_free now holder l =
    elim l.expires_at [ none ↦ true | some t ↦ ltb t now ] || is_text l.holder holder

unfoldable pub acquire_lease : ℕ → ℕ → String → Lease → Bool × Lease
unfolding is_free
acquire_lease ttl_seconds now holder l =
    if is_free now holder l
    then (
      true,
      record {
        holder = some holder;
        expires_at = some (now + seconds ttl_seconds);
        last_tick_at = some now;
      },
    )
    else (false, l)

-- Ticks of other workers, none later than the given moment.
abbrev pub OthersUntil : String → ℕ → List (String × ℕ) → Type 0
OthersUntil holder until [] = Unit
OthersUntil holder until (t ∷ ts) =
    (str_eq holder t.0 ≡ false) × (t.1 ≤ until) × OthersUntil holder until ts

-- The lease after the ticks, and whether one of them took it.
abbrev pub tick_all : ℕ → List (String × ℕ) → Lease → Bool × Lease
tick_all ttl [] l = (false, l)
tick_all ttl (t ∷ ts) l =
    let r = acquire_lease ttl t.1 t.0 l in let rest = tick_all ttl ts r.1 in (r.0 || rest.0, rest.1)

pub refused :
    (ttl now : ℕ) (holder : String) (until : ℕ) (other : String) (l : Lease)
    → l.holder ≡ some holder
    → l.expires_at ≡ some until
    → str_eq holder other ≡ false
    → now ≤ until
    → acquire_lease ttl now other l ≡ (false, l)
unfolding acquire_lease
refused ttl now holder until other l h e d early =
    let not_over : ltb until now ≡ false = ground (arith, early) in rw (e, h, not_over, d) refl

others_fail :
    (ttl : ℕ) (holder : String) (until : ℕ) (ts : List (String × ℕ)) (l : Lease)
    → l.holder ≡ some holder
    → l.expires_at ≡ some until
    → OthersUntil holder until ts
    → tick_all ttl ts l ≡ (false, l)
others_fail ttl holder until [] l h e o = refl
others_fail ttl holder until (t ∷ ts) l h e o =
    let r = refused ttl t.1 holder until t.0 l h e o.0 o.1 in
    rw (r, others_fail ttl holder until ts l h e o.2) refl

pub taken :
    (ttl now : ℕ) (holder : String) (l : Lease)
    → (acquire_lease ttl now holder l).0 ≡ true
    → (acquire_lease ttl now holder l).1 ≡ record {
      holder = some holder;
      expires_at = some (now + seconds ttl);
      last_tick_at = some now;
    }
unfolding acquire_lease
taken ttl now holder l k = elim (Bool-cases (is_free now holder l)) [
  | inl y ↦ rw y refl
  | inr n ↦ let lost : (acquire_lease ttl now holder l).0 ≡ false = rw n refl in cc
]

or_true : (b : Bool) → (b || true) ≡ true
or_true true = refl
or_true false = refl

renews :
    (ttl now : ℕ) (holder : String) (l : Lease)
    → l.holder ≡ some holder
    → (acquire_lease ttl now holder l).0 ≡ true
unfolding acquire_lease
renews ttl now holder l h =
    rw (h, eq_refl holder, or_true (elim l.expires_at [ none ↦ true | some t ↦ ltb t now ])) refl

-- A worker that took the lease keeps it for its whole time: every try of other workers until then
-- fails and leaves the row as it is, and the worker itself can renew it at any moment.
pub acquire-exclusive :
    (ttl now : ℕ) (holder : String) (l : Lease) (ts : List (String × ℕ)) (again : ℕ)
    → (acquire_lease ttl now holder l).0 ≡ true
    → OthersUntil holder (now + seconds ttl) ts
    → (tick_all ttl ts (acquire_lease ttl now holder l).1
        ≡ (false, (acquire_lease ttl now holder l).1))
      × ((acquire_lease ttl again holder (acquire_lease ttl now holder l).1).0 ≡ true)
acquire-exclusive ttl now holder l ts again k o =
    let row = taken ttl now holder l k in
    (
      others_fail ttl holder (now + seconds ttl) ts _ (ap (λ z. z.holder) row)
          (ap (λ z. z.expires_at) row) o,
      renews ttl again holder _ (ap (λ z. z.holder) row),
    )
