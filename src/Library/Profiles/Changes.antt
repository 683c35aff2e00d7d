-- ===== src/Library/Profiles/Changes.antt =====
-- What a share does, and the names under every request that changes the profiles.
use ocspcrltesting.Schema.{Profile, Db}
use ocspcrltesting.Authz.{member, WorkspaceContext}
use ocspcrltesting.Authz.Access.{authorize_workspace_role}
use ocspcrltesting.Library.Keys.{append-HasUniqueKeys, delete-HasUniqueKeys}
use ocspcrltesting.Library.Profiles.{
  ProfileIn, with_id, is_named, get_in_ws_or_404, check_name_free, add_profile, create_profile,
  update_profile, share_profile, delete_profile,
}
use ocspcrltesting.Jobs.{RunStore}
use ocspcrltesting.Runs.Saved.{RunProfileIn, as_payload, save_run_as_profile}
use ocspcrltesting.Runs.Saved.Kept.{save_run_as_profile-created}
use ocspcrltesting.Prelude.{
  ℕ, String, ◌≡◌, sym, subst, ◌≢◌, not, none, some, arith, ◌==◌, count, ok, >>=-eq-ok, guard-eq-ok,
  ok-injective,
}
use ocspcrltesting.Library.Profiles.Names.{
  HasUniqueNames, created-HasUniqueNames, updated-HasUniqueNames, check_name_free-unused,
}

-- What a share that succeeds found and did.
pub record Shared (id target_id new_id : ℕ) (ctx : WorkspaceContext) (db db' : Db) (q : Profile)
    : Type 0 where
  pub source : Profile
  pub target : WorkspaceContext
  pub found : get_in_ws_or_404 db id ctx.workspace.id ≡ ok source
  pub granted : authorize_workspace_role db ctx.principal target_id member ≡ ok target
  pub elsewhere : target_id ≢ ctx.workspace.id
  pub free : count (is_named target.workspace.id source.name) db.profiles ≡ 0
  pub same_config : q.config ≡ source.config
  pub same_name : q.name ≡ source.name
  pub new_row : q.id ≡ new_id
  pub placed : q.workspace_id ≡ some target.workspace.id
  pub after : add_profile q db ≡ db'

pub share_profile-Shared :
    (id target_id new_id now : ℕ) (ctx : WorkspaceContext) (db db' : Db) (q : Profile)
    → share_profile id target_id new_id now ctx db ≡ ok (q, db')
    → Shared id target_id new_id ctx db db' q
unfolding share_profile
share_profile-Shared id target_id new_id now ctx db db' q h =
    let (profile, got, h₁) = >>=-eq-ok (get_in_ws_or_404 db id ctx.workspace.id) _ h in
    let (other, h₂) = guard-eq-ok (not (target_id == ctx.workspace.id)) _ _ h₁ in
    let (target, granted, h₃) =
      >>=-eq-ok (authorize_workspace_role db ctx.principal target_id member) _ h₂ in
    let (u, free, h₄) = >>=-eq-ok (check_name_free db target.workspace.id profile.name none) _ h₃ in
    record {
      source = profile;
      target = target;
      found = got;
      granted = granted;
      elsewhere = λ e. absurd (ground (arith, other, e));
      free = check_name_free-unused db target.workspace.id profile.name free;
      same_config = ground (arith, h₄);
      same_name = ground (arith, h₄);
      new_row = ground (arith, h₄);
      placed = ground (arith, h₄);
      after = ground (arith, h₄);
    }

-- A request that changes the profiles and succeeds. The database gives a new row an id that no row has.
pub data Change : Db → Db → Type 0 where
  created :
      (payload : ProfileIn) (new_id now : ℕ) (ctx : WorkspaceContext) (db db' : Db) (q : Profile)
      → count (with_id new_id) db.profiles ≡ 0
      → create_profile payload new_id now ctx db ≡ ok (q, db')
      → Change db db'
  updated :
      (id : ℕ) (payload : ProfileIn) (now : ℕ) (ctx : WorkspaceContext) (db db' : Db) (q : Profile)
      → update_profile id payload now ctx db ≡ ok (q, db')
      → Change db db'
  shared :
      (id target new_id now : ℕ) (ctx : WorkspaceContext) (db db' : Db) (q : Profile)
      → count (with_id new_id) db.profiles ≡ 0
      → share_profile id target new_id now ctx db ≡ ok (q, db')
      → Change db db'
  saved :
      (run_id : String) (payload : RunProfileIn) (new_id now : ℕ) (ctx : WorkspaceContext)
      (s : RunStore) (db db' : Db) (q : Profile)
      → count (with_id new_id) db.profiles ≡ 0
      → save_run_as_profile run_id payload new_id now ctx s db ≡ ok (q, db')
      → Change db db'
  deleted :
      (id : ℕ) (ctx : WorkspaceContext) (db db' : Db)
      → delete_profile id ctx db ≡ ok db'
      → Change db db'

Shared-HasUniqueNames :
    (id target new_id : ℕ) (ctx : WorkspaceContext) (db db' : Db) (q : Profile)
    → count (with_id new_id) db.profiles ≡ 0
    → Shared id target new_id ctx db db' q
    → HasUniqueNames db
    → HasUniqueNames db'
Shared-HasUniqueNames id target new_id ctx db db' q fresh s inv =
    let new_id' = subst (λ i. count (with_id i) db.profiles ≡ 0) (sym s.new_row) fresh in
    let free =
      subst (λ n. count (is_named s.target.workspace.id n) db.profiles ≡ 0) (sym s.same_name)
        s.free in
    subst HasUniqueNames s.after
      (append-HasUniqueKeys _ _ _ db.profiles q s.target.workspace.id s.placed new_id' free inv)

deleted-HasUniqueNames :
    (id : ℕ) (ctx : WorkspaceContext) (db db' : Db)
    → delete_profile id ctx db ≡ ok db'
    → HasUniqueNames db
    → HasUniqueNames db'
unfolding delete_profile
deleted-HasUniqueNames id ctx db db' h inv =
    let (profile, got, h₁) = >>=-eq-ok (get_in_ws_or_404 db id ctx.workspace.id) _ h in
    subst HasUniqueNames (ok-injective _ _ h₁) (
      delete-HasUniqueKeys (λ q. q.id) (λ q. q.workspace_id) (λ q. q.name) (with_id id) db.profiles
        inv)

-- Every request that changes profiles and succeeds, where a new row gets an id that no row has,
-- keeps ids and, in each workspace, names unique.
pub Change-HasUniqueNames : {db db' : Db} → Change db db' → HasUniqueNames db → HasUniqueNames db'
Change-HasUniqueNames (created payload new_id now ctx db db' q fresh h) inv =
    created-HasUniqueNames payload new_id now ctx db db' q fresh h inv
Change-HasUniqueNames (updated id payload now ctx db db' q h) inv =
    updated-HasUniqueNames id payload now ctx db db' q h inv
Change-HasUniqueNames (shared id target new_id now ctx db db' q fresh h) inv =
    Shared-HasUniqueNames id target new_id ctx db db' q fresh
      (share_profile-Shared id target new_id now ctx db db' q h) inv
Change-HasUniqueNames (saved run_id payload new_id now ctx s db db' q fresh h) inv =
    let (config, h₁) = save_run_as_profile-created run_id payload new_id now ctx s db db' q h in
    created-HasUniqueNames (as_payload payload config) new_id now ctx db db' q fresh h₁ inv
Change-HasUniqueNames (deleted id ctx db db' h) inv = deleted-HasUniqueNames id ctx db db' h inv
