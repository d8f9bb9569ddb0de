-- ===== src/Audit/Row.antt =====
-- A row of `audit_logs` (app/models/audit_log.py) and its hash (`canonical` and `compute_hash` of
-- app/services/audit_chain.py). SHA-256, `datetime.isoformat` and `json` are the standard
-- library's: they are the fields of `Library`.
use Prim.Native.String.{◌++◌ as append}
use mathlib.Core.Option
use chancery.Prelude.{ℕ, String, Option, Bool, is_some}

pub record Row : Type 0 where
  pub id : ℕ
  pub timestamp : Option ℕ
  pub user_id : Option ℕ
  pub username : String
  pub action : String
  pub target_type : Option String
  pub target_id : Option ℕ
  pub details : Option String
  pub ip_address : String
  pub prev_hash : Option String
  pub entry_hash : Option String

-- The dict that `canonical` serialises.
pub record Fields : Type 0 where
  pub id : ℕ
  pub timestamp : Option String
  pub user_id : Option ℕ
  pub username : String
  pub action : String
  pub target_type : Option String
  pub target_id : Option ℕ
  pub details : Option String
  pub ip_address : String

-- What `verify` reads of a checkpoint's details: a key may be missing.
pub record CheckpointDetails : Type 0 where
  pub pruned_through_id : Option ℕ
  pub pruned_through_hash : Option String

-- The details that `prune` writes, less the ones that nothing reads.
pub record CheckpointEvent : Type 0 where
  pub from_id : ℕ
  pub through_id : ℕ
  pub through_hash : Option String
  pub rows : ℕ
  pub retention_days : ℕ

-- What the component uses of the standard library.
pub record Library : Type 0 where
  pub sha256 : String → String  -- hashlib.sha256(…).hexdigest()
  pub isoformat : ℕ → String
  pub dumps : Fields → String  -- json.dumps(…, sort_keys=True, separators=(",", ":"))
  pub dump_checkpoint : CheckpointEvent → String
  pub loads : String → Option CheckpointDetails  -- `none`: not JSON

abbrev pub genesis : String
genesis = ""

abbrev pub is_sealed : Row → Bool
is_sealed r = is_some r.entry_hash

-- The bytes that are hashed.
unfoldable pub message : String → String → String
message prev text = append prev (append "\n" text)

module _ (lib : Library) where
  unfoldable pub fields : Row → Fields
  fields r = record {
    id = r.id;
    timestamp = Option.map lib.isoformat r.timestamp;
    user_id = r.user_id;
    username = r.username;
    action = r.action;
    target_type = r.target_type;
    target_id = r.target_id;
    details = r.details;
    ip_address = r.ip_address;
  }

  unfoldable pub canonical : Row → String
  unfolding fields
  canonical r = lib.dumps (fields r)

  -- Both callers pass a string, and `prev_hash or GENESIS` of a string is that string.
  unfoldable pub compute_hash : Row → String → String
  compute_hash r prev = lib.sha256 (message prev (canonical r))
