-- ===== src/Authz/Principals.antt =====
-- backend/app/authz.py: who a request comes from, by an API token or a session cookie. The digest
-- of a token (SHA-256) and the check of a signed cookie (itsdangerous, with the signing key and the
-- session's age) are parameters, as functions of the text that they are given.
pub mod Bearer
pub mod Accepted
pub mod Websocket
use Prim.Native.String.{◌∷◌ as cons_text}
use Prim.Native.Char.{code}
use text.Mathlib.Text.{starts_with}
use ocspcrltesting.Prelude.Text.{strip, lower_code}
use ocspcrltesting.Schema.{User, ApiToken, Db}
use ocspcrltesting.Settings.{Settings, is_set, oidc_enabled}
use ocspcrltesting.Authz.{parse, Principal}
use ocspcrltesting.Prelude.{
  ℕ, String, Bool, true, ◌&&◌, ◌||◌, Option, none, some, str_eq, ◌==◌, if◌then◌else◌, is_some,
  is_empty, filter, find?, update, http_error, Result, ok, err, or_raise, scalar_one_or_none, ◌>>=◌,
}

unfoldable pub auth_active : Settings → Bool
unfolding oidc_enabled
auth_active s =
    is_set s.session_secret
    || is_set s.bootstrap_admin_password
    || oidc_enabled s
    || is_set s.auth_password

unfoldable pub anonymous_admin : User
anonymous_admin = record {
  id = 0;
  provider = "local";
  subject = "__anonymous__";
  email = none;
  display_name = some "Anonymous";
  password_hash = none;
  is_global_admin = true;
  is_active = true;
  last_login_at = none;
}

-- security.py: `looks_like_api_token`
abbrev pub looks_like_api_token : String → Bool
looks_like_api_token raw = starts_with raw "ocspt_"

-- The token of an `Authorization` header: `authz.lower().startswith("bearer ")`, and then
-- `authz.split(" ", 1)[1].strip()`.
unfoldable pub bearer : String → Option String
unfolding strip lower_code
bearer
      (cons_text a
        (cons_text b (cons_text c (cons_text d (cons_text e (cons_text f (cons_text g rest))))))) =
    if lower_code a == b'b'
      && lower_code b == b'e'
      && lower_code c == b'a'
      && lower_code d == b'r'
      && lower_code e == b'e'
      && lower_code f == b'r'
      && code g == 32
    then some (strip rest)
    else none
bearer _ = none

unfoldable pub get_user : Db → ℕ → Option User
get_user db id = find? (λ u. u.id == id) db.users

-- row.last_used_at = utcnow()
abbrev pub touch : ℕ → ApiToken → Db → Db
touch now row db = record db {
  tokens = update (λ t. t.id == row.id) (λ t. record t { last_used_at = some now }) db.tokens;
}

-- The token's use is committed before its ceiling is parsed.
for_user : ℕ → ApiToken → Db → Option User → Result (Option Principal) × Db
for_user now row db none = (ok none, db)
for_user now row db (some user) =
    if user.is_active
    then (
      do
        ceiling ← parse row.role_ceiling
        ok (
            some (record {
              user = user;
              token_workspace_id = row.workspace_id;
              token_role_ceiling = some ceiling;
            })),
      touch now row db,
    )
    else (ok none, db)

for_row : ℕ → Db → Result (Option ApiToken) → Result (Option Principal) × Db
unfolding for_user
for_row now db (err e) = (err e, db)
for_row now db (ok none) = (ok none, db)
for_row now db (ok (some row)) =
    if is_some row.revoked_at then (ok none, db) else for_user now row db (get_user db row.user_id)

active_user : Option User → Option Principal
active_user none = none
active_user (some user) =
    if user.is_active
    then some (record { user = user; token_workspace_id = none; token_role_ceiling = none })
    else none

-- One source of a websocket's principal after the other: a source that finds none is passed over.
otherwise :
    Result (Option Principal) × Db
    → (Db → Result (Option Principal) × Db)
    → Result (Option Principal) × Db
otherwise (ok none, db) next = next db
otherwise (ok (some p), db) next = (ok (some p), db)
otherwise (err e, db) next = (err e, db)

-- The `token` query parameter counts where it is not empty.
query_token : Option String → Option String
unfolding strip
query_token none = none
query_token (some token) = if is_empty token then none else some (strip token)

module _ (hash_token : String → String) (verify_session : String → Option ℕ) where
  unfoldable pub principal_from_token : String → ℕ → Db → Result (Option Principal) × Db
  unfolding for_row
  principal_from_token raw now db =
      if looks_like_api_token raw
      then for_row now db
          (scalar_one_or_none (filter (λ t. str_eq t.token_hash (hash_token raw)) db.tokens))
      else (ok none, db)

  -- An empty cookie counts as none.
  unfoldable pub principal_from_cookie : Option String → Db → Option Principal
  unfolding active_user
  principal_from_cookie none db = none
  principal_from_cookie (some cookie) db =
      if is_empty cookie then none else elim (verify_session cookie) [
        | none ↦ none
        | some user_id ↦ active_user (get_user db user_id)
      ]

  -- A bearer header decides alone: where its token fails, the cookie is not tried.
  unfoldable pub principal_from_request :
      String → Option String → ℕ → Db → Result (Option Principal) × Db
  principal_from_request authz cookie now db = elim (bearer authz) [
    | some raw ↦ principal_from_token raw now db
    | none ↦ (ok (principal_from_cookie cookie db), db)
  ]

  unfoldable pub current_principal :
      Settings → String → Option String → ℕ → Db → Result Principal × Db
  unfolding anonymous_admin auth_active
  current_principal s authz cookie now db =
      if auth_active s
      then (let (found, db') = principal_from_request authz cookie now db in
          (do principal ← found; or_raise principal (http_error 401), db'))
      else (
        ok (record {
          user = anonymous_admin;
          token_workspace_id = none;
          token_role_ceiling = none;
        }),
        db,
      )

  optional_token : Option String → ℕ → Db → Result (Option Principal) × Db
  optional_token none now db = (ok none, db)
  optional_token (some raw) now db = principal_from_token raw now db

  unfoldable pub principal_from_websocket :
      Settings → String → Option String → Option String → ℕ → Db → Result (Option Principal) × Db
  unfolding anonymous_admin auth_active otherwise optional_token query_token
  principal_from_websocket s authz token cookie now db =
      if auth_active s
      then otherwise (optional_token (bearer authz) now db) (λ db₁.
        otherwise (optional_token (query_token token) now db₁)
          (λ db₂. (ok (principal_from_cookie cookie db₂), db₂)))
      else (
        ok (
            some (record {
              user = anonymous_admin;
              token_workspace_id = none;
              token_role_ceiling = none;
            })),
        db,
      )
