-- ===== src/Audit/Verify.antt =====
-- `_checkpoint_for` and `verify` of app/services/audit_chain.py.
use chancery.Prelude.{
  ℕ, ◌+◌, ◌-◌, String, Option, none, some, Bool, true, false, ◌&&◌, not, List, [], ◌∷◌, is_none,
  is_text, get_or, filter_by, any_of, ltb, leb, ◌==◌, str_eq, if◌then◌else◌, inl, inr, ◌⊎◌,
}
use chancery.Audit.Row.{Row, Library, CheckpointDetails, genesis, is_sealed, compute_hash}
use chancery.Audit.Seal.{unsealed_count}

pub data Reason : Type 0 where
  no_checkpoint : Reason
  unsealed_inside : Reason
  rows_missing : ℕ → ℕ → Reason
  bad_prev_hash : Reason
  bad_entry_hash : Reason

pub data Start : Type 0 where
  empty_log : Start
  unsealed_start : Start
  given : ℕ → Start
  from_genesis : Start
  unverifiable : Start
  from_checkpoint : ℕ → Option ℕ → Start

pub record Report : Type 0 where
  pub is_ok : Bool
  pub checked : ℕ
  pub first_bad_id : Option ℕ
  pub reason : Option Reason
  pub start : Option Start
  pub head_id : Option ℕ
  pub head_hash : Option String
  pub unsealed : ℕ

abbrev pub new_report : Report
new_report = record {
  is_ok = true;
  checked = 0;
  first_bad_id = none;
  reason = none;
  start = none;
  head_id = none;
  head_hash = none;
  unsealed = 0;
}

-- `report.update(ok=False, first_bad_id=…, reason=…)`
abbrev pub fail : Report → ℕ → Reason → Report
fail rep n why = record rep { is_ok = false; first_bad_id = some n; reason = some why }

-- The local variables of the walk.
pub record Walk : Type 0 where
  pub report : Report
  pub prev : String
  pub expected_id : ℕ

-- `any(r.entry_hash is not None for r in rows if r.id > row.id)`
unfoldable pub later_sealed : List Row → ℕ → Bool
later_sealed rows n = any_of (λ r. ltb n r.id && is_sealed r) rows

abbrev no_details : CheckpointDetails
no_details = record { pruned_through_id = none; pruned_through_hash = none }

module _ (lib : Library) where
  -- `json.loads(cp.details or "{}")`; the empty text is falsy too.
  unfoldable pub read_details : Option String → Option CheckpointDetails
  read_details none = some no_details
  read_details (some text) = if str_eq text "" then some no_details else lib.loads text

  -- `details.get("pruned_through_id") == first_row.id - 1`
  unfoldable pub vouches : ℕ → Row → Option (Row × CheckpointDetails)
  unfolding read_details
  vouches first_id cp =
      if str_eq cp.action "audit_checkpoint"
      then elim (read_details cp.details) [
        | none ↦ none
        | some d ↦ elim d.pruned_through_id [
          | none ↦ none
          | some n ↦ if n + 1 == first_id then some (cp, d) else none
        ]
      ]
      else none

  -- The newest checkpoint first: the rows are in id order, so the last one that fits.
  unfoldable pub checkpoint_for : ℕ → List Row → Option (Row × CheckpointDetails)
  unfolding vouches
  checkpoint_for first_id [] = none
  checkpoint_for first_id (r ∷ rs) = elim (checkpoint_for first_id rs) [
    | some found ↦ some found
    | none ↦ vouches first_id r
  ]

  -- One row of the walk: the final report, or the variables for the next row.
  unfoldable pub check_row : List Row → Walk → Row → Report ⊎ Walk
  check_row all w r = elim r.entry_hash [
    | none ↦
        let rep = record w.report { unsealed = w.report.unsealed + 1 } in
        if later_sealed all r.id
        then inl (fail rep r.id unsealed_inside)
        else inr (record w { report = rep })
    | some h ↦
        if not (r.id == w.expected_id)
        then inl (fail w.report r.id (rows_missing w.expected_id (r.id - 1)))
        else if not (str_eq (get_or r.prev_hash genesis) w.prev)
        then inl (fail w.report r.id bad_prev_hash)
        else if not (str_eq (compute_hash lib r w.prev) h)
        then inl (fail w.report r.id bad_entry_hash)
        else inr (record {
          report = record w.report {
            checked = w.report.checked + 1;
            head_id = some r.id;
            head_hash = some h;
          };
          prev = h;
          expected_id = r.id + 1;
        })
  ]

  unfoldable pub walk : List Row → Walk → List Row → Report
  walk all w [] = w.report
  walk all w (r ∷ rs) = elim (check_row all w r) [ inl rep ↦ rep | inr w' ↦ walk all w' rs ]

  -- Where the walk begins: a final report, or the previous hash and the `start` of the report.
  unfoldable pub begin : Option ℕ → List Row → Row → Report ⊎ (String × Start)
  unfolding checkpoint_for
  begin from all first = elim from [
    | some n ↦ inr (get_or first.prev_hash genesis, given first.id)
    | none ↦
        if str_eq (get_or first.prev_hash genesis) ""
        then inr (genesis, from_genesis)
        else elim (checkpoint_for first.id all) [
          | none ↦
              inl (record (fail new_report first.id no_checkpoint) { start = some unverifiable })
          | some (cp, d) ↦
              if is_text d.pruned_through_hash (get_or first.prev_hash genesis)
              then inr (get_or first.prev_hash genesis, from_checkpoint cp.id d.pruned_through_id)
              else inl
                  (record (fail new_report first.id no_checkpoint) { start = some unverifiable })
        ]
  ]

  -- `verify` on the rows that its query gives: `whole` is the table, where checkpoints are looked
  -- up, and `rows` its rows with id at least `from`.
  unfoldable pub verify_rows : Option ℕ → List Row → List Row → Report
  verify_rows from whole [] = record new_report { start = some empty_log }
  verify_rows from whole (first ∷ rest) =
      if is_none first.entry_hash
      then record new_report {
        unsealed = unsealed_count (first ∷ rest);
        start = some unsealed_start;
      }
      else elim (begin from whole first) [
        | inl rep ↦ rep
        | inr (prev, start) ↦
            walk (first ∷ rest)
              (record {
                report = record new_report { start = some start };
                prev = prev;
                expected_id = first.id;
              })
              (first ∷ rest)
      ]

  -- `if from_id`: 0 counts as absent.
  unfoldable pub verify : Option ℕ → List Row → Report
  unfolding verify_rows
  verify none rows = verify_rows none rows rows
  verify (some n) rows =
      if n == 0
      then verify_rows none rows rows
      else verify_rows (some n) rows (filter_by (λ r. leb n r.id) rows)
