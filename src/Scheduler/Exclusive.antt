-- ===== src/Scheduler/Exclusive.antt =====
-- One worker at a time runs the jobs (`tick` and `acquire_lease` of
-- app/services/scheduler_service.py).
use chancery.Prelude.{
  ℕ, ◌+◌, ◌≤◌, ◌≡◌, refl, ap, String, some, true, false, List, [], ◌∷◌, inl, inr, Bool-cases,
  str_eq, seconds,
}
use chancery.Tokens.Lease.{Lease, acquire_lease, OthersUntil, refused, taken}
use chancery.Scheduler.Tick.{Scheduler, tick, record_pass}

-- The ticks of other workers, each with its moment, none of them forced.
abbrev pub other_ticks : {S : Type 0} → ℕ → List (String × ℕ) → Scheduler S → Scheduler S
other_ticks ttl [] s = s
other_ticks ttl (t ∷ ts) s = other_ticks ttl ts (tick false ttl t.1 t.0 s).1

tick_refused :
    {S : Type 0} (ttl now : ℕ) (holder : String) (until : ℕ) (other : String) (s : Scheduler S)
    → s.lease.holder ≡ some holder
    → s.lease.expires_at ≡ some until
    → str_eq holder other ≡ false
    → now ≤ until
    → tick false ttl now other s ≡ (false, s)
unfolding tick
tick_refused ttl now holder until other s h e d early =
    let r = refused ttl now holder until other s.lease h e d early in rw r refl

others_wait :
    {S : Type 0} (ttl : ℕ) (holder : String) (until : ℕ) (ts : List (String × ℕ)) (s : Scheduler S)
    → s.lease.holder ≡ some holder
    → s.lease.expires_at ≡ some until
    → OthersUntil holder until ts
    → other_ticks ttl ts s ≡ s
others_wait ttl holder until [] s h e o = refl
others_wait ttl holder until (t ∷ ts) s h e o =
    rw (tick_refused ttl t.1 holder until t.0 s h e o.0 o.1)
      (others_wait ttl holder until ts s h e o.2)

tick_lease :
    {S : Type 0} (ttl now : ℕ) (holder : String) (s : Scheduler S)
    → (tick false ttl now holder s).0 ≡ true
    → ((tick false ttl now holder s).1.lease.holder ≡ some holder)
      × ((tick false ttl now holder s).1.lease.expires_at ≡ some (now + seconds ttl))
unfolding tick record_pass
tick_lease ttl now holder s k = elim (Bool-cases (acquire_lease ttl now holder s.lease).0) [
  | inl y ↦
      let row = taken ttl now holder s.lease y in
      rw y (ap (λ (l : Lease). l.holder) row, ap (λ (l : Lease). l.expires_at) row)
  | inr n ↦ let lost : (tick false ttl now holder s).0 ≡ false = rw n refl in cc
]

-- Once a tick of a worker that took the lease has run the jobs, the ticks of other workers that are
-- not forced run none of them until the end of the lease and change nothing: not the jobs' rows, not
-- the rest of the database, not the lease. (A forced tick asks for no lease.)
pub tick-exclusive :
    {S : Type 0} (ttl now : ℕ) (holder : String) (s : Scheduler S) (ts : List (String × ℕ))
    → (tick false ttl now holder s).0 ≡ true
    → OthersUntil holder (now + seconds ttl) ts
    → other_ticks ttl ts (tick false ttl now holder s).1 ≡ (tick false ttl now holder s).1
tick-exclusive ttl now holder s ts k o =
    let row = tick_lease ttl now holder s k in
    others_wait ttl holder (now + seconds ttl) ts (tick false ttl now holder s).1 row.0 row.1 o
