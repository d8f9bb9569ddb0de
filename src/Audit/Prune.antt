-- ===== src/Audit/Prune.antt =====
-- `anchor` and `prune` of app/services/audit_chain.py. The archive file is the list of the rows
-- that are written to it; `new_id` and `stamp` are the database's defaults for the new row.
use chancery.Prelude.{
  ℕ, ◌+◌, String, Option, none, some, Bool, false, not, ◌&&◌, List, [], ◌∷◌, ◌++◌, length, str_eq,
  filter_by, any_of, count_where, ltb, ◌==◌, if◌then◌else◌, days,
}
use chancery.Audit.Row.{Row, Library, CheckpointEvent, is_sealed}
use chancery.Audit.Seal.{head}
use chancery.Audit.Log.{log_action, no_request}

-- `AuditLog.timestamp < now - timedelta(days=…)`, which a null timestamp does not pass.
abbrev pub is_expired : ℕ → ℕ → Row → Bool
is_expired now keep r = elim r.timestamp [ none ↦ false | some t ↦ ltb (t + days keep) now ]

abbrev pub is_prunable : ℕ → ℕ → Row → Bool
is_prunable now keep r = is_sealed r && is_expired now keep r

-- The rows whose ids count up from `expected`.
unfoldable pub contiguous : ℕ → List Row → List Row
contiguous expected [] = []
contiguous expected (r ∷ rs) =
    let rest = contiguous (r.id + 1) rs in if r.id == expected then r ∷ rest else []

unfoldable pub last_row : Row → List Row → Row
last_row r [] = r
last_row r (x ∷ xs) = last_row x xs

-- `id.in_(ids)` for the ids of some rows.
unfoldable pub id_in : ℕ → List Row → Bool
id_in n rows = any_of (λ r. r.id == n) rows

unfoldable pub delete_rows : List Row → List Row → List Row
unfolding id_in
delete_rows gone rows = filter_by (λ r. not (id_in r.id gone)) rows

pub data Outcome : Type 0 where
  disabled : Outcome
  nothing : Outcome
  skipped : ℕ → Outcome
  pruned : CheckpointEvent → Outcome

pub record Pruning : Type 0 where
  pub outcome : Outcome
  pub table : List Row
  pub archive : List Row

module _ (lib : Library) (now keep : ℕ) (dry_run : Bool) (new_id stamp : ℕ) (actor : String) where
  unfoldable pub checkpoint_row : CheckpointEvent → Row
  unfolding log_action
  checkpoint_row e = log_action new_id stamp (some actor) no_request (record {
    action = "audit_checkpoint";
    target_type = some "audit_log";
    target_id = some e.through_id;
    details = some (lib.dump_checkpoint e);
  })

  abbrev pub event_of : Row → List Row → CheckpointEvent
  event_of r rs = record {
    from_id = r.id;
    through_id = (last_row r rs).id;
    through_hash = (last_row r rs).entry_hash;
    rows = length (r ∷ rs);
    retention_days = keep;
  }

  -- The rows that go: an empty list cannot arise behind the check of the first id.
  unfoldable pub prune_rows : List Row → List Row → Pruning
  unfolding last_row delete_rows checkpoint_row
  prune_rows rows [] = record { outcome = nothing; table = rows; archive = [] }
  prune_rows rows (r ∷ rs) =
      if dry_run
      then record { outcome = pruned (event_of r rs); table = rows; archive = [] }
      else record {
        outcome = pruned (event_of r rs);
        table = delete_rows (r ∷ rs) rows ++ (checkpoint_row (event_of r rs) ∷ []);
        archive = r ∷ rs;
      }

  -- The first row that may go, against the first row of the table, whose id is the least.
  unfoldable pub prune_from : List Row → List Row → List Row → Pruning
  unfolding prune_rows contiguous
  prune_from rows [] old = record { outcome = nothing; table = rows; archive = [] }
  prune_from rows (first ∷ rest) [] = record { outcome = nothing; table = rows; archive = [] }
  prune_from rows (first ∷ rest) (r ∷ rs) =
      if not (r.id == first.id)
      then record { outcome = skipped r.id; table = rows; archive = [] }
      else prune_rows rows (contiguous first.id (r ∷ rs))

  unfoldable pub prune : List Row → Pruning
  unfolding prune_from
  prune rows =
      if keep == 0
      then record { outcome = disabled; table = rows; archive = [] }
      else prune_from rows rows (filter_by (is_prunable now keep) rows)

-- The anchor's details: the head and how many rows are sealed.
pub record AnchorDetails : Type 0 where
  pub head_id : Option ℕ
  pub head_hash : Option String
  pub sealed_rows : ℕ

module _ (dump_anchor : AnchorDetails → String) (new_id stamp : ℕ) (actor : String) where
  unfoldable pub anchor : List Row → AnchorDetails × List Row
  unfolding head log_action
  anchor rows =
      let (head_id, head_hash) = head rows in
      let details : AnchorDetails = record {
        head_id = head_id;
        head_hash = if str_eq head_hash "" then none else some head_hash;
        sealed_rows = count_where is_sealed rows;
      } in
      (
        details,
        rows
            ++ (log_action new_id stamp (some actor) no_request (record {
              action = "audit_anchor";
              target_type = some "audit_log";
              target_id = head_id;
              details = some (dump_anchor details);
            })
                ∷ []),
      )
