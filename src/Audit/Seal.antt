-- ===== src/Audit/Seal.antt =====
-- `head` and `seal` of app/services/audit_chain.py. The table is the list of its rows in id order,
-- which every query of the component asks for.
use chancery.Prelude.{
  ℕ, ◌+◌, String, Option, none, some, Bool, false, ◌&&◌, List, [], ◌∷◌, is_some, is_none, get_or,
  count_where, ltb, ◌==◌, not, if◌then◌else◌, seconds,
}
use chancery.Audit.Row.{Row, Library, genesis, is_sealed, compute_hash}

-- The last row that passes a test: `.order_by(id.desc()).first()`.
unfoldable pub last_where : (Row → Bool) → List Row → Option Row
last_where p [] = none
last_where p (r ∷ rs) = elim (last_where p rs) [
  | some later ↦ some later
  | none ↦ if p r then some r else none
]

abbrev head_of : Option Row → Option ℕ × String
head_of none = (none, genesis)
head_of (some r) = (some r.id, get_or r.entry_hash genesis)

unfoldable pub head : List Row → Option ℕ × String
unfolding last_where
head rows = head_of (last_where is_sealed rows)

-- Why a run stopped early.
pub data Stop : Type 0 where
  gap : ℕ → Stop
  young : ℕ → Stop

-- The local variables of the loop.
pub record Sealing : Type 0 where
  pub head_id : Option ℕ
  pub prev : String
  pub expected_id : Option ℕ
  pub sealed : ℕ
  pub stopped : Option Stop

-- The dict that `seal` returns.
pub record Summary : Type 0 where
  pub sealed : ℕ
  pub head_id : Option ℕ
  pub head_hash : Option String
  pub unsealed : ℕ
  pub stopped : Option Stop

-- How many rows are not sealed yet.
unfoldable pub unsealed_count : List Row → ℕ
unsealed_count rows = count_where (λ r. is_none r.entry_hash) rows

-- `expected_id is not None and row.id != expected_id`
abbrev pub is_gap : Option ℕ → ℕ → Bool
is_gap none n = false
is_gap (some e) n = not (n == e)

-- `row.timestamp and row.timestamp > now - grace`
abbrev pub is_young : ℕ → ℕ → Option ℕ → Bool
is_young now grace none = false
is_young now grace (some t) = ltb now (t + seconds grace)

-- The rows of the query `pending`.
abbrev pub is_pending : ℕ → Row → Bool
is_pending from r = is_none r.entry_hash && ltb from r.id

module _ (lib : Library) (now grace : ℕ) where
  -- The body of the loop, which updates the row in place.
  unfoldable pub seal_row : Sealing → Row → Sealing × Row
  seal_row s r =
      if is_gap s.expected_id r.id
      then (record s { stopped = some (gap r.id) }, r)
      else if is_young now grace r.timestamp
      then (record s { stopped = some (young r.id) }, r)
      else let h = compute_hash lib r s.prev in
        (
          record {
            head_id = some r.id;
            prev = h;
            expected_id = some (r.id + 1);
            sealed = s.sealed + 1;
            stopped = none;
          },
          record r { prev_hash = some s.prev; entry_hash = some h },
        )

  -- The loop goes over the pending rows until it breaks; the other rows stay.
  unfoldable pub seal_rows : ℕ → Sealing → List Row → Sealing × List Row
  seal_rows from s [] = (s, [])
  seal_rows from s (r ∷ rs) =
      let (s', r') = (if is_pending from r && is_none s.stopped then seal_row s r else (s, r)) in
      let (s'', rs') = seal_rows from s' rs in (s'', r' ∷ rs')

  unfoldable pub start_sealing : Option ℕ × String → Sealing
  start_sealing (head_id, prev) = record {
    head_id = head_id;
    prev = prev;
    expected_id = elim head_id [ none ↦ none | some h ↦ some (h + 1) ];
    sealed = 0;
    stopped = none;
  }

  -- The summary, and the table that is committed.
  unfoldable pub seal : List Row → Summary × List Row
  unfolding head start_sealing seal_rows seal_row
  seal rows =
      let (head_id, prev) = head rows in
      let (s, rows') = seal_rows (get_or head_id 0) (start_sealing (head_id, prev)) rows in
      (
        record {
          sealed = s.sealed;
          head_id = s.head_id;
          head_hash = if is_some s.head_id then some s.prev else none;
          unsealed = unsealed_count rows';
          stopped = s.stopped;
        },
        rows',
      )
