-- ===== src/Login/Oidc.antt =====
-- backend/app/api/auth.py: signing in through OIDC. The provider is the parameter `exchange`: the
-- claims that it gives for a request, or none where the exchange fails. Times are those of the
-- monotonic clock, in milliseconds, but for `clock`; `state` is the request's, `fresh` a random text.
pub mod States
use ocspcrltesting.Schema.{User, WorkspaceMember, AuditLog, Db}
use ocspcrltesting.Settings.{Settings, oidc_enabled}
use ocspcrltesting.Audit.{record_event}
use ocspcrltesting.Provisioning.Accounts.{get_or_create_oidc_user}
use ocspcrltesting.Provisioning.Groups.{sync_oidc_group_memberships}
use ocspcrltesting.Prelude.{
  ℕ, ◌-◌, String, Bool, true, false, not, Option, none, some, List, [], ◌∷◌, ◌++◌, str_eq, ltb,
  if◌then◌else◌, is_empty, get_or, any, filter, delete, http_error, Result, ok, err, guard,
  or_raise, ◌>>=◌, ◌>>◌,
}

-- _OIDC_STATE: when each state was made.
abbrev pub States : Type 0
States = List (String × ℕ)

abbrev pub is_state : String → String × ℕ → Bool
is_state state entry = str_eq entry.0 state

-- _OIDC_STATE_TTL
abbrev pub state_ttl : ℕ
state_ttl = 600000

abbrev pub expired : ℕ → String × ℕ → Bool
expired now entry = ltb state_ttl (now - entry.1)

-- The state that the redirect carries, and the states with it.
unfoldable pub oidc_login : Settings → String → ℕ → States → Result (String × States)
oidc_login settings fresh now states = do
  guard (oidc_enabled settings) (http_error 404)
  ok (fresh, (fresh, now) ∷ delete (is_state fresh) states)

-- The claims that are read, with the groups as a list of texts.
pub record Claims : Type 0 where
  pub sub : Option String
  pub email : Option String
  pub name : Option String
  pub groups : List String

abbrev pub failed_exchange : AuditLog
failed_exchange = record {
  event = "login.failure";
  user_id = none;
  actor = none;
  workspace_id = none;
  target = none;
}

-- `if not sub`
abbrev pub subject_of : Claims → Option String
subject_of claims = elim claims.sub [
  | none ↦ none
  | some sub ↦ if is_empty sub then none else some sub
]

-- The account of the claims' subject; its row is committed.
unfoldable pub account_for : ℕ → ℕ → ℕ → Claims → Db → Result (User × Db)
account_for new_id new_ws clock claims db = do
  sub ← or_raise (subject_of claims) (http_error 401)
  get_or_create_oidc_user new_id new_ws clock sub claims.email claims.name db

abbrev pub synced : States → User × Db → Result (List WorkspaceMember) → Result User × (States × Db)
synced states (user, db) (err e) = (err e, (states, db))
synced states (user, db) (ok members) = (
  ok user,
  (states, record_event "login.success" user none none (record db { members = members })),
)

-- The memberships that the groups give the account.
abbrev pub provisioned : States → Claims → Db → Result (User × Db) → Result User × (States × Db)
provisioned states claims db (err e) = (err e, (states, db))
provisioned states claims db (ok (user, db')) =
    synced states (user, db')
      (sync_oidc_group_memberships user claims.groups db'.workspaces db'.members)

abbrev pub after_exchange : ℕ → ℕ → ℕ → States → Db → Option Claims → Result User × (States × Db)
after_exchange new_id new_ws clock states db none =
    (err (http_error 401), (states, record db { audit = db.audit ++ failed_exchange ∷ [] }))
after_exchange new_id new_ws clock states db (some claims) =
    provisioned states claims db (account_for new_id new_ws clock claims db)

abbrev pub with_state :
    Option Claims → ℕ → ℕ → ℕ → String → States → Db → Bool → Result User × (States × Db)
with_state exchange new_id new_ws clock state states db false = (err (http_error 400), (states, db))
with_state exchange new_id new_ws clock state states db true =
    after_exchange new_id new_ws clock (delete (is_state state) states) db exchange

-- Expired states are dropped, and a state that is known is used up, whatever follows.
unfoldable pub oidc_callback :
    Settings → Option Claims → ℕ → ℕ → ℕ → ℕ → String → States → Db → Result User × (States × Db)
oidc_callback settings exchange new_id new_ws now clock state states db =
    let live = delete (expired now) states in
    if oidc_enabled settings
    then with_state exchange new_id new_ws clock state live db (any (is_state state) live)
    else (err (http_error 404), (states, db))
