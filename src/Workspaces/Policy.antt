-- ===== src/Workspaces/Policy.antt =====
-- The deployment's ceilings on a workspace, and what a deleted workspace leaves behind.
use ocspcrltesting.Authz.Access.Grants.{by_membership, require_workspace_iff}
use mathlib.Core.List.{append-nil}
use native.Mathlib.Nat.{le_refl}
use ocspcrltesting.Schema.{Workspace, WorkspaceMember, Db}
use ocspcrltesting.Settings.{Settings}
use ocspcrltesting.Audit.{record_event}
use ocspcrltesting.Authz.{
  Role, admin, Principal, is_membership, get_membership, get_workspace, parse, value,
}
use ocspcrltesting.Authz.Access.{require_workspace, in_token_scope, base_role}
use ocspcrltesting.Workspaces.{
  WorkspaceUpdateIn, create_workspace, update_workspace, updated, allowed_private,
  allowed_concurrency, with_names, with_groups, delete_workspace,
}
use ocspcrltesting.Prelude.{
  ℕ, ◌≤◌, String, ◌≡◌, refl, ap, ◌∙◌, subst, ◌≢◌, ◌⊎◌, inl, inr, Bool, true, false, not, Option,
  none, some, List, [], ◌∷◌, ◌++◌, arith, str_eq, ◌==◌, if◌then◌else◌, ==_refl, Bool-cases, filter,
  find?, update, delete, filter-append, http_error, ok, err, ok-injective, >>=-eq-ok, guard-eq-ok,
}

-- A workspace reaches private targets only where the deployment does, and runs no more at once.
pub record WithinCeilings (settings : Settings) (ws : Workspace) : Type 0 where
  pub private_targets : (ws.allow_private_targets ≡ false) ⊎ (settings.allow_private_targets ≡ true)
  pub concurrency : ws.max_concurrent_runs ≤ settings.max_concurrent_runs

allowed_private-Within :
    (settings : Settings) (allow : Option Bool) (ws ws' : Workspace)
    → WithinCeilings settings ws
    → allowed_private settings allow ws ≡ ok ws'
    → WithinCeilings settings ws'
unfolding allowed_private
allowed_private-Within settings none ws ws' v h = ground (arith, h)
allowed_private-Within settings (some allow) ws ws' v h = ground (arith, h)

allowed_concurrency-Within :
    (settings : Settings) (runs : Option ℕ) (ws ws' : Workspace)
    → WithinCeilings settings ws
    → allowed_concurrency settings runs ws ≡ ok ws'
    → WithinCeilings settings ws'
unfolding allowed_concurrency
allowed_concurrency-Within settings none ws ws' v h = ground (arith, h)
allowed_concurrency-Within settings (some runs) ws ws' v h = ground (arith, h)

updated-Within :
    (settings : Settings) (payload : WorkspaceUpdateIn) (ws ws' : Workspace)
    → WithinCeilings settings ws
    → updated settings payload ws ≡ ok ws'
    → WithinCeilings settings ws'
unfolding updated
updated-Within settings payload ws ws' v h =
    let (ws₁, private, h₁) =
      >>=-eq-ok (allowed_private settings payload.allow_private_targets (with_names payload ws)) _
        h in
    let (ws₂, runs, h₂) =
      >>=-eq-ok (allowed_concurrency settings payload.max_concurrent_runs ws₁) _ h₁ in
    let v₁ =
      allowed_private-Within settings payload.allow_private_targets (with_names payload ws) ws₁
        (record { private_targets = v.private_targets; concurrency = v.concurrency }) private in
    let v₂ = allowed_concurrency-Within settings payload.max_concurrent_runs ws₁ ws₂ v₁ runs in
    let v₃ : WithinCeilings settings (with_groups payload ws₂) = record {
      private_targets = v₂.private_targets;
      concurrency = v₂.concurrency;
    } in
    subst (WithinCeilings settings) (ok-injective _ _ h₂) v₃

-- If the workspace was within the deployment's ceilings, an update that succeeds keeps it so, and
-- that workspace's row is the one rewritten.
pub update_workspace-WithinCeilings :
    (settings : Settings) (payload : WorkspaceUpdateIn) (id : ℕ) (p : Principal) (db db' : Db)
    (old ws : Workspace)
    → get_workspace db id ≡ some old
    → WithinCeilings settings old
    → update_workspace settings payload id p db ≡ ok (ws, db')
    → WithinCeilings settings ws
      × (db'.workspaces ≡ update (λ w. w.id == ws.id) (λ w. ws) db.workspaces)
unfolding update_workspace record_event
update_workspace-WithinCeilings settings payload id p db db' old ws found v h =
    let (ctx, granted, h₁) = >>=-eq-ok (require_workspace admin id p db) _ h in
    let (made, up, h₂) = >>=-eq-ok (updated settings payload ctx.workspace) _ h₁ in
    let there = ((require_workspace_iff admin id p db ctx).0 granted).exists in
    let same : old ≡ ctx.workspace = ground (arith, found, there) in
    (
      subst (WithinCeilings settings) (ground (arith, h₂)) (
          updated-Within settings payload ctx.workspace made
            (subst (WithinCeilings settings) same v) up),
      ground (arith, h₂),
    )

find?-delete :
    (id : ℕ) (ws : List Workspace) → find? (λ w. w.id == id) (delete (λ w. w.id == id) ws) ≡ none
find?-delete id [] = refl
find?-delete id (w ∷ ws) = ground (arith, find?-delete id ws)

find?-append_new :
    (test : Workspace → Bool) (ws : List Workspace) (w : Workspace)
    → find? test ws ≡ none
    → test w ≡ true
    → find? test (ws ++ w ∷ []) ≡ some w
find?-append_new test [] w h hit = ground (arith, hit)
find?-append_new test (x ∷ ws) w h hit = ground (arith, hit, find?-append_new test ws w)

delete_workspace-tables :
    (foreign_keys : Bool) (id : ℕ) (p : Principal) (db db' : Db)
    → delete_workspace foreign_keys id p db ≡ ok db'
    → (db'.workspaces ≡ delete (λ w. w.id == id) db.workspaces)
      × (db'.members
          ≡ (if foreign_keys then delete (λ m. m.workspace_id == id) db.members else db.members))
unfolding delete_workspace record_event
delete_workspace-tables false id p db db' h =
    let (ctx, granted, h₁) = >>=-eq-ok (require_workspace admin id p db) _ h in
    let (shared, h₂) = guard-eq-ok (not (str_eq ctx.workspace.kind "personal")) _ _ h₁ in
    (ground (arith, h₂), ground (arith, h₂))
delete_workspace-tables true id p db db' h =
    let (ctx, granted, h₁) = >>=-eq-ok (require_workspace admin id p db) _ h in
    let (shared, h₂) = guard-eq-ok (not (str_eq ctx.workspace.kind "personal")) _ _ h₁ in
    (ground (arith, h₂), ground (arith, h₂))

-- A workspace whose id is free is found once it is created.
created_found :
    (settings : Settings) (id : ℕ) (name : String) (q : Principal) (db : Db)
    → get_workspace db id ≡ none
    → get_workspace (create_workspace settings id name q db).1 id
      ≡ some (create_workspace settings id name q db).0
unfolding create_workspace get_workspace record_event
created_found settings id name q db free = find?-append_new _ db.workspaces _ free (==_refl id)

-- Its creation gives nobody but its creator a membership.
created_members :
    (settings : Settings) (id : ℕ) (name : String) (q : Principal) (db : Db) (user_id : ℕ)
    → user_id ≢ q.user.id
    → filter (is_membership user_id id) (create_workspace settings id name q db).1.members
      ≡ filter (is_membership user_id id) db.members
unfolding create_workspace record_event
created_members settings id name q db user_id other = elim (Bool-cases (q.user.id == 0)) [
  | inl e ↦ rw e (ap (filter (is_membership user_id id)) (append-nil db.members))
  | inr e ↦
      rw (e, filter-append (is_membership user_id id) db.members)
        (ground (arith, append-nil (filter (is_membership user_id id) db.members)))
]

-- Where foreign keys are not enforced, after a workspace is deleted and another is made with its
-- id, a signed-in member of the deleted one who is neither its creator nor a global admin has the
-- old role in the new one.
pub deleted_members_return :
    (settings : Settings) (id : ℕ) (name : String) (p q r : Principal) (db db' : Db)
    (m : WorkspaceMember) (role : Role)
    → delete_workspace false id p db ≡ ok db'
    → r.user.is_global_admin ≡ false
    → r.token_workspace_id ≡ none
    → r.token_role_ceiling ≡ none
    → r.user.id ≢ q.user.id
    → filter (is_membership r.user.id id) db.members ≡ m ∷ []
    → parse m.role ≡ ok role
    → require_workspace role id r (create_workspace settings id name q db').1
      ≡ ok (record {
        workspace = (create_workspace settings id name q db').0;
        principal = r;
        role = role;
      })
deleted_members_return settings id name p q r db db' m role deleted plain unscoped uncapped other
      was parsed =
    let (workspaces, members) = delete_workspace-tables false id p db db' deleted in
    (require_workspace_iff role id r (create_workspace settings id name q db').1 _).1 (record {
      exists =
          created_found settings id name q db'
            (unfold get_workspace in rw workspaces (find?-delete id db.workspaces));
      caller = refl;
      scope = inl unscoped;
      base = role;
      source =
          by_membership plain m
            (created_members settings id name q db' r.user.id other
              ∙ ap (filter (is_membership r.user.id id)) members
              ∙ was)
            parsed;
      role = rw uncapped;
      enough = le_refl (value role);
    })

filter-deleted :
    (user_id id : ℕ) (ms : List WorkspaceMember)
    → filter (is_membership user_id id) (delete (λ m. m.workspace_id == id) ms) ≡ []
filter-deleted user_id id [] = refl
filter-deleted user_id id (m ∷ ms) = ground (arith, filter-deleted user_id id ms)

-- Where foreign keys are enforced, after a workspace is deleted and another is made with its id, a
-- user who is neither its creator nor a global admin is refused it with 403.
pub deleted_members_refused :
    (settings : Settings) (id : ℕ) (name : String) (p q r : Principal) (db db' : Db)
    (min_role : Role)
    → delete_workspace true id p db ≡ ok db'
    → r.user.is_global_admin ≡ false
    → r.user.id ≢ q.user.id
    → require_workspace min_role id r (create_workspace settings id name q db').1
      ≡ err (http_error 403)
unfolding require_workspace base_role get_membership
deleted_members_refused settings id name p q r db db' min_role deleted plain other =
    let (workspaces, members) = delete_workspace-tables true id p db db' deleted in
    let there =
      created_found settings id name q db'
        (unfold get_workspace in rw workspaces (find?-delete id db.workspaces)) in
    let gone =
      created_members settings id name q db' r.user.id other
      ∙ ap (filter (is_membership r.user.id id)) members
      ∙ filter-deleted r.user.id id db.members in
    elim (Bool-cases (in_token_scope r id)) [
      | inl e ↦ rw (there, e, plain, gone)
      | inr e ↦ rw (there, e)
    ]
