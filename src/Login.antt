-- ===== src/Login.antt =====
-- backend/app/api/auth.py: the local login and its rate limiter. Times are those of the monotonic
-- clock, in milliseconds; `verify_password` is a parameter, and a request's key is an argument. The
-- cookie that a success sets is the answer's user.
pub mod Examples
pub mod Limits
pub mod Oidc
use ocspcrltesting.Schema.{User, AuditLog, Db}
use ocspcrltesting.Settings.{Settings}
use ocspcrltesting.Audit.{record_event}
use ocspcrltesting.Prelude.{
  ℕ, String, ◌-◌, ◌+◌, Bool, not, ◌&&◌, ◌||◌, Option, none, some, List, [], ◌∷◌, ◌++◌, str_eq, ltb,
  leb, ◌==◌, if◌then◌else◌, get_or, filter, find?, update, Error, http_error, Result, ok, err,
  scalar_one_or_none,
}

-- _FAILURES: a key's number of failures and the time of the first one.
abbrev pub Failures : Type 0
Failures = String → Option (ℕ × ℕ)

abbrev pub max_failures : ℕ
max_failures = 5

abbrev pub window : ℕ
window = 300000

abbrev pub entry_of : Failures → String → ℕ × ℕ
entry_of failures key = get_or (failures key) (0, 0)

unfoldable pub rate_limited : Failures → String → ℕ → Bool
rate_limited failures key now =
    let (count, first) = entry_of failures key in leb max_failures count && ltb (now - first) window

abbrev pub set_entry : Failures → String → Option (ℕ × ℕ) → Failures
set_entry failures key value other = if str_eq other key then value else failures other

-- `first or time.monotonic()`
abbrev pub first_or : ℕ → ℕ → ℕ
first_or first now = if first == 0 then now else first

unfoldable pub record_failure : Failures → String → ℕ → Failures
record_failure failures key now =
    let (count, first) = entry_of failures key in
    let (count', first') : ℕ × ℕ = if leb window (now - first) then (0, now) else (count, first) in
    set_entry failures key (some (count' + 1, first_or first' now))

unfoldable pub clear_failures : Failures → String → Failures
clear_failures failures key = set_entry failures key none

abbrev pub is_local : String → User → Bool
is_local username u = str_eq u.provider "local" && str_eq u.subject username

-- An event without a user, with the name that was tried as its actor.
abbrev pub login_failure : String → AuditLog
login_failure username = record {
  event = "login.failure";
  user_id = none;
  actor = some username;
  workspace_id = none;
  target = none;
}

abbrev pub LoginState : Type 0
LoginState = Failures × Db

module _ (verify_password : String → Option String → Bool) where
  abbrev pub accepts : String → User → Bool
  accepts password u = u.is_active && verify_password password u.password_hash

  abbrev pub refused : String → String → ℕ → LoginState → Result User × LoginState
  refused username key now (failures, db) = (
    err (http_error 401),
    (
      record_failure failures key now,
      record db { audit = db.audit ++ login_failure username ∷ [] },
    ),
  )

  abbrev pub welcomed : String → ℕ → User → LoginState → Result User × LoginState
  welcomed key clock user (failures, db) =
      let user' = record user { last_login_at = some clock } in
      (
        ok user',
        (
          clear_failures failures key,
          record_event "login.success" user' none none
              (record db { users = update (λ u. u.id == user.id) (λ u. user') db.users }),
        ),
      )

  abbrev pub checked :
      String
      → String
      → String
      → ℕ
      → ℕ
      → LoginState
      → Result (Option User)
      → Result User × LoginState
  checked username password key now clock state (err e) = (err e, state)
  checked username password key now clock state (ok none) = refused username key now state
  checked username password key now clock state (ok (some user)) =
      if accepts password user
      then welcomed key clock user state
      else refused username key now state

  -- `now` is the monotonic clock, `clock` the time of day.
  unfoldable pub local_login :
      Settings → String → String → String → ℕ → ℕ → LoginState → Result User × LoginState
  local_login settings username password key now clock (failures, db) =
      if not settings.local_login_enabled
      then (err (http_error 403), (failures, db))
      else if rate_limited failures key now
      then (err (http_error 429), (failures, db))
      else checked username password key now clock (failures, db)
          (scalar_one_or_none (filter (is_local username) db.users))
