-- ===== src/Audit.antt =====
-- backend/app/audit.py: the audit row of an event. The JSON of `detail` is left out, and a row is
-- added to the session of its operation, so that it is committed with it.
use ocspcrltesting.Schema.{User, AuditLog, Target, Db}
use ocspcrltesting.Prelude.{
  ℕ, String, Option, none, some, [], ◌∷◌, ◌++◌, ◌==◌, if◌then◌else◌, or_text,
}

-- `user.email or user.display_name or user.subject`
actor_of : User → Option String
actor_of user = some (or_text user.email (or_text user.display_name user.subject))

entry : String → User → Option ℕ → Option Target → AuditLog
unfolding actor_of
entry event user workspace_id target = record {
  event = event;
  user_id = if user.id == 0 then none else some user.id;
  actor = actor_of user;
  workspace_id = workspace_id;
  target = target;
}

-- audit.record(session, event, user=user, workspace_id=…, target=…)
unfoldable pub record_event : String → User → Option ℕ → Option Target → Db → Db
unfolding entry
record_event event user workspace_id target db = record db {
  audit = db.audit ++ entry event user workspace_id target ∷ [];
}
