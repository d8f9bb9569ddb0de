-- ===== src/Audit/Log.antt =====
-- `log_action` of app/services/audit_service.py, as the row that it adds: the id and the timestamp
-- are the database's defaults. The webhook notification changes nothing that is stored.
use chancery.Prelude.{ℕ, String, Option, none, some, get_or}
use chancery.Audit.Row.{Row}

-- The logged-in user of the request, and the address it came from.
pub record RequestContext : Type 0 where
  pub user : Option (ℕ × String)
  pub remote_addr : Option String

-- What one call records: `details` is the JSON text of a dict that is not empty.
pub record Event : Type 0 where
  pub action : String
  pub target_type : Option String
  pub target_id : Option ℕ
  pub details : Option String

unfoldable pub identity : Option String → RequestContext → Option ℕ × String × String
identity (some actor) ctx = (none, actor, "local")
identity none ctx = elim ctx.user [
  | none ↦ (none, "anonymous", get_or ctx.remote_addr "unknown")
  | some (id, name) ↦ (some id, name, get_or ctx.remote_addr "unknown")
]

unfoldable pub log_action : ℕ → ℕ → Option String → RequestContext → Event → Row
unfolding identity
log_action new_id stamp actor ctx e =
    let (user_id, username, ip) = identity actor ctx in
    record {
      id = new_id;
      timestamp = some stamp;
      user_id = user_id;
      username = username;
      action = e.action;
      target_type = e.target_type;
      target_id = e.target_id;
      details = e.details;
      ip_address = ip;
      prev_hash = none;
      entry_hash = none;
    }

-- A call from the scheduler, outside any request.
abbrev pub no_request : RequestContext
no_request = record { user = none; remote_addr = none }
