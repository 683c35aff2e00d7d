-- ===== src/Tokens.antt =====
-- backend/app/api/tokens.py: the API tokens of a user. The raw token (`secrets`) and the id of the
-- row are arguments; the answers' other fields are those of the row.
pub mod Examples
pub mod Lifecycle
use ocspcrltesting.Schema.{ApiToken, text_target, Db}
use ocspcrltesting.Audit.{record_event}
use ocspcrltesting.Authz.{parse, Principal, get_membership, get_workspace}
use ocspcrltesting.Prelude.{
  ℕ, String, Bool, not, ◌&&◌, Option, none, some, List, [], ◌∷◌, ◌++◌, ◌==◌, if◌then◌else◌, is_some,
  filter, find?, update, http_error, Result, ok, guard, or_raise, ◌>>=◌, ◌>>◌,
}

pub record TokenCreateIn : Type 0 where
  pub name : String
  pub workspace_id : Option ℕ
  pub role_ceiling : String

abbrev is_live_of : ℕ → ApiToken → Bool
is_live_of user_id t = t.user_id == user_id && not (is_some t.revoked_at)

unfoldable pub list_tokens : Principal → Db → List ApiToken
list_tokens p db = filter (is_live_of p.user.id) db.tokens

-- The caller must be a member of the workspace that a token is scoped to.
check_scope : Principal → Db → Option ℕ → Result (Unit {0})
check_scope p db none = ok tt
check_scope p db (some workspace_id) = do
  ws ← or_raise (get_workspace db workspace_id) (http_error 404)
  if p.user.is_global_admin then ok tt else do
    membership ← get_membership db p.user.id ws.id
    guard (is_some membership) (http_error 403)
    ok tt

new_token : String → ℕ → Principal → TokenCreateIn → ApiToken
new_token token_hash new_id p payload = record {
  id = new_id;
  user_id = p.user.id;
  workspace_id = payload.workspace_id;
  name = payload.name;
  token_hash = token_hash;
  role_ceiling = payload.role_ceiling;
  last_used_at = none;
  revoked_at = none;
}

module _ (hash_token : String → String) where
  unfoldable pub create_token : String → ℕ → TokenCreateIn → Principal → Db → Result (ApiToken × Db)
  unfolding check_scope new_token
  create_token raw new_id payload p db = do
    guard (not (is_some p.token_role_ceiling)) (http_error 403)
    ceiling ← parse payload.role_ceiling
    check_scope p db payload.workspace_id
    let token = new_token (hash_token raw) new_id p payload
    ok (
      token,
      record_event "token.create" p.user payload.workspace_id (some (text_target payload.name))
          (record db { tokens = db.tokens ++ token ∷ [] }),
    )

abbrev with_id : ℕ → ApiToken → Bool
with_id id t = t.id == id

unfoldable pub revoke_token : ℕ → ℕ → Principal → Db → Result Db
revoke_token token_id now p db = do
  token ← or_raise (find? (with_id token_id) db.tokens) (http_error 404)
  guard (token.user_id == p.user.id) (http_error 404)
  ok (
      record_event "token.revoke" p.user none (some (text_target token.name)) (record db {
        tokens = update (with_id token_id) (λ t. record t { revoked_at = some now }) db.tokens;
      }))
