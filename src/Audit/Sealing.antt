-- ===== src/Audit/Sealing.antt =====
-- `seal` (app/services/audit_chain.py) on a chain: it goes on with the chain from its head.
use chancery.Prelude.{
  ◌&&◌, ℕ, ◌+◌, ◌≤◌, ◌≡◌, refl, sym, ap, ◌∙◌, String, Option, none, some, true, false, List, [],
  ◌∷◌, get_or, is_none, arith, Bool-cases, ◌⊎◌, inl, inr,
}
use chancery.Audit.Row.{Row, Library, genesis, is_sealed, canonical, compute_hash}
use chancery.Audit.Seal.{
  Sealing, Stop, last_where, seal_row, seal_rows, is_gap, is_young, is_pending, gap, young,
}
use chancery.Audit.Chain.{Ascending, AllUnsealed, Chain, open_end, link}

-- A chain with the hash and the next id at which its sealed rows end.
pub data Reaches (lib : Library) (q : String) (m : ℕ) : String → ℕ → List Row → Type 0 where
  done :
      {p : String} {n : ℕ} {rs : List Row} → p ≡ q → n ≡ m → AllUnsealed rs → Reaches lib q m p n rs
  step :
      {p : String} {n : ℕ} {r : Row} {rs : List Row} (h : String)
      → r.id ≡ n
      → get_or r.prev_hash genesis ≡ p
      → r.entry_hash ≡ some h
      → compute_hash lib r p ≡ h
      → Reaches lib q m h (r.id + 1) rs
      → Reaches lib q m p n (r ∷ rs)

pub Chain-Reaches :
    (lib : Library) {p : String} {n : ℕ} {rs : List Row}
    → Chain lib p n rs
    → (q : String) × (m : ℕ) × Reaches lib q m p n rs
Chain-Reaches lib {p} {n} (open_end u) = (p, n, done refl refl u)
Chain-Reaches lib (link h i l s d c) =
    let (q, m, e) = Chain-Reaches lib c in (q, m, step h i l s d e)

pub last_where-none : (rs : List Row) → AllUnsealed rs → last_where is_sealed rs ≡ none
unfolding last_where
last_where-none [] u = refl
last_where-none (r ∷ rs) u = rw (last_where-none rs u.1, last_where) (ground arith)

-- Where a chain ends is where its last sealed row stands.
pub Reaches-last :
    (lib : Library) {q : String} {m : ℕ} {p : String} {n : ℕ} {rs : List Row}
    → Reaches lib q m p n rs
    → ((last_where is_sealed rs ≡ none) × (p ≡ q) × (n ≡ m))
      ⊎ ((r : Row) × (last_where is_sealed rs ≡ some r) × (r.entry_hash ≡ some q) × (r.id + 1 ≡ m))
unfolding last_where
Reaches-last lib {rs = rs} (done a b u) = inl (last_where-none rs u, a, b)
Reaches-last lib (step {r = r} {rs = rs} h i l s d c) = elim (Reaches-last lib c) [
  | inl (e, a, b) ↦ inr (r, rw (e, last_where, s), s ∙ ap some a, b)
  | inr (last, e, t, b) ↦ inr (last, rw (e, last_where), t, b)
]

module _ (lib : Library) (now grace : ℕ) where
  -- The row as the loop seals it, and the variables behind it.
  abbrev pub sealed_row : Sealing → Row → Row
  sealed_row s r = record r {
    prev_hash = some s.prev;
    entry_hash = some (compute_hash lib r s.prev);
  }

  abbrev pub sealed_state : Sealing → Row → Sealing
  sealed_state s r = record {
    head_id = some r.id;
    prev = compute_hash lib r s.prev;
    expected_id = some (r.id + 1);
    sealed = s.sealed + 1;
    stopped = none;
  }

  -- The loop breaks at a row, or seals it; where an id is expected, only the row that has it.
  pub seal_row_cases :
      (s : Sealing) (r : Row)
      → ((w : Stop) × (seal_row lib now grace s r ≡ (record s { stopped = some w }, r)))
        ⊎ ((is_gap s.expected_id r.id ≡ false)
            × (seal_row lib now grace s r ≡ (sealed_state s r, sealed_row s r)))
  unfolding seal_row
  seal_row_cases s r = elim (Bool-cases (is_gap s.expected_id r.id)) [
    | inl g ↦ inl (gap r.id, rw g)
    | inr g ↦ elim (Bool-cases (is_young now grace r.timestamp)) [
      | inl y ↦ inl (young r.id, rw (g, y))
      | inr y ↦ inr (g, rw (g, y))
    ]
  ]

  pub seal_rows-nil : (from : ℕ) (s : Sealing) → (seal_rows lib now grace from s []).1 ≡ []
  unfolding seal_rows
  seal_rows-nil from s = refl

  -- One round of the loop, on the table: a row that is passed over, and a row that is processed.
  pub seal_rows-skip :
      (from : ℕ) (s : Sealing) (r : Row) (rs : List Row)
      → (is_pending from r && is_none s.stopped) ≡ false
      → (seal_rows lib now grace from s (r ∷ rs)).1 ≡ r ∷ (seal_rows lib now grace from s rs).1
  unfolding seal_rows
  seal_rows-skip from s r rs idle = rw idle

  pub seal_rows-take :
      (from : ℕ) (s s' : Sealing) (r r' : Row) (rs : List Row)
      → (is_pending from r && is_none s.stopped) ≡ true
      → seal_row lib now grace s r ≡ (s', r')
      → (seal_rows lib now grace from s (r ∷ rs)).1 ≡ r' ∷ (seal_rows lib now grace from s' rs).1
  unfolding seal_rows
  seal_rows-take from s s' r r' rs busy e = rw (busy, e)

  -- A loop that has stopped changes nothing.
  pub seal_rows-stopped :
      (from : ℕ) (s : Sealing) (w : Stop) (rs : List Row)
      → s.stopped ≡ some w
      → (seal_rows lib now grace from s rs).1 ≡ rs
  unfolding seal_rows
  seal_rows-stopped from s w [] e = refl
  seal_rows-stopped from s w (r ∷ rs) e =
      seal_rows-skip from s r rs (ground arith) ∙ ap (◌∷◌ r) (seal_rows-stopped from s w rs e)

  -- The hash of a row does not read its own hash columns.
  pub compute_hash-sealed_row :
      (s : Sealing) (r : Row) (p : String)
      → compute_hash lib (sealed_row s r) p ≡ compute_hash lib r p
  unfolding compute_hash canonical
  compute_hash-sealed_row s r p = refl

  is_gap-eq : (o : Option ℕ) (n m : ℕ) → o ≡ some n → is_gap o m ≡ false → m ≡ n
  is_gap-eq o n m e g = ground arith

  -- The rows that are not sealed go on with the chain, in id order.
  pub seal_rows-tail :
      (from lo : ℕ) (s : Sealing) (n : ℕ) (rs : List Row)
      → Ascending lo rs
      → from ≤ lo
      → AllUnsealed rs
      → s.expected_id ≡ some n
      → s.stopped ≡ none
      → Chain lib s.prev n (seal_rows lib now grace from s rs).1
  unfolding seal_rows
  seal_rows-tail from lo s n [] a f u x t = open_end tt
  seal_rows-tail from lo s n (r ∷ rs) a f u x t =
      let busy : (is_pending from r && is_none s.stopped) ≡ true = ground arith in
      elim (seal_row_cases s r) [
        | inl (w, e) ↦
            let same = seal_rows-take from s _ r _ rs busy e in
            let rest = seal_rows-stopped from (record s { stopped = some w }) w rs refl in
            rw (same, rest) (open_end u)
        | inr (g, e) ↦ rw (seal_rows-take from s _ r _ rs busy e) (
            link (compute_hash lib r s.prev) (is_gap-eq s.expected_id n r.id x g) refl refl
              (compute_hash-sealed_row s r s.prev)
              (seal_rows-tail from r.id (sealed_state s r) (r.id + 1) rs a.1 (omega arith) u.1 refl
                refl))
      ]

  -- A chain stays a chain.
  pub seal_rows-Chain :
      (from : ℕ) (s : Sealing) {q : String} {m : ℕ} (lo : ℕ) {p : String} {n : ℕ} {rs : List Row}
      → Reaches lib q m p n rs
      → Ascending lo rs
      → lo + 1 ≡ n
      → from + 1 ≡ m
      → s.prev ≡ q
      → s.expected_id ≡ some m
      → s.stopped ≡ none
      → Chain lib p n (seal_rows lib now grace from s rs).1
  seal_rows-Chain from s lo {n = n} {rs = rs} (done a b u) o l f v x t =
      rw (a ∙ sym v) (seal_rows-tail from lo s n rs o (omega arith) u (x ∙ ap some (sym b)) t)
  seal_rows-Chain from s lo (step {r = r} {rs = rs} h i k e d c) o l f v x t =
      rw (seal_rows-skip from s r rs (ground arith))
        (link h i k e d (seal_rows-Chain from s r.id c o.1 refl f v x t))
