-- ===== src/Workspaces/Admins.antt =====
-- A workspace keeps an admin, and only its admins change who belongs to it.
use mathlib.Core.List.{append-nil}
use ocspcrltesting.Schema.{WorkspaceMember, Db}
use ocspcrltesting.Audit.{record_event}
use ocspcrltesting.Authz.{admin, Principal, WorkspaceContext, is_membership, get_membership, parse}
use ocspcrltesting.Authz.Access.{require_workspace}
use ocspcrltesting.Authz.Access.Grants.{Granted, require_workspace_iff}
use ocspcrltesting.Workspaces.Counting.{
  count-update, count-delete, count-both-le, count-both-zero, count-update_keep,
  filter-update_frame, filter-delete_frame,
}
use ocspcrltesting.Workspaces.{
  MemberAddIn, add_member, find_user, change_member_role, remove_member, guard_last_admin,
  is_admin_of, pinned,
}
use ocspcrltesting.Prelude.{
  ℕ, ◌+◌, ◌≤◌, ◌<◌, String, ◌≡◌, refl, ◌⊎◌, inl, inr, true, false, not, ◌&&◌, Option, none, some,
  [], ◌∷◌, ◌++◌, arith, str_eq, ◌==◌, is_some, get_or, ==_refl, &&-eq-true, filter, any, count,
  update, delete, filter-append, length-filter, Result, ok, >>=-eq-ok, guard-eq-ok, or_raise-eq-ok,
}

abbrev pub HasAdmin : ℕ → Db → Type 0
HasAdmin workspace_id db = 0 < count (is_admin_of workspace_id) db.members

-- What the guard lets through: the new role is admin, or another admin is left.
guard_last_admin_sound :
    (db : Db) (workspace_id user_id : ℕ) (new_role : Option String)
    → guard_last_admin db workspace_id user_id new_role ≡ ok tt
    → (str_eq (get_or new_role "") "admin" ≡ true)
      ⊎ (2 ≤ count (is_admin_of workspace_id) db.members)
      ⊎ (any (λ a. a.user_id == user_id) (filter (is_admin_of workspace_id) db.members) ≡ false)
unfolding guard_last_admin
guard_last_admin_sound db workspace_id user_id new_role h =
    ground (arith, length-filter (is_admin_of workspace_id) db.members)

-- One row that the guard lets go leaves an admin behind.
kept_admin :
    (db : Db) (workspace_id user_id after : ℕ)
    → count (is_membership user_id workspace_id) db.members ≤ 1
    → HasAdmin workspace_id db
    → count (is_admin_of workspace_id) db.members
      ≤ after
        + count (λ m. is_membership user_id workspace_id m && is_admin_of workspace_id m) db.members
    → (2 ≤ count (is_admin_of workspace_id) db.members)
      ⊎ (any (λ a. a.user_id == user_id) (filter (is_admin_of workspace_id) db.members) ≡ false)
    → 0 < after
kept_admin db workspace_id user_id after single some_admin loss (inl two) = omega (
  arith,
  count-both-le (is_membership user_id workspace_id) (is_admin_of workspace_id) db.members,
)
kept_admin db workspace_id user_id after single some_admin loss (inr other) = omega (
  arith,
  count-both-zero (is_membership user_id workspace_id) (is_admin_of workspace_id)
      (λ a. a.user_id == user_id) db.members (λ m h. (&&-eq-true _ _ h).1) other,
)

change_member_role-members :
    (role : String) (user_id workspace_id : ℕ) (p : Principal) (db db' : Db)
    → change_member_role role user_id workspace_id p db ≡ ok db'
    → (ctx : WorkspaceContext) × (require_workspace admin workspace_id p db ≡ ok ctx)
      × (guard_last_admin db workspace_id user_id (some role) ≡ ok tt)
      × (db'.members ≡ update (is_membership user_id workspace_id) (pinned role) db.members)
unfolding change_member_role record_event
change_member_role-members role user_id workspace_id p db db' h =
    let (ctx, granted, h₁) = >>=-eq-ok (require_workspace admin workspace_id p db) _ h in
    let (found, got, h₂) = >>=-eq-ok (get_membership db user_id workspace_id) _ h₁ in
    let (m, there, h₃) = or_raise-eq-ok found _ _ h₂ in
    let (u, passed, h₄) = >>=-eq-ok (guard_last_admin db workspace_id user_id (some role)) _ h₃ in
    (ctx, granted, ground (arith, passed), ground (arith, h₄))

remove_member-members :
    (user_id workspace_id : ℕ) (p : Principal) (db db' : Db)
    → remove_member user_id workspace_id p db ≡ ok db'
    → (ctx : WorkspaceContext) × (require_workspace admin workspace_id p db ≡ ok ctx)
      × (guard_last_admin db workspace_id user_id none ≡ ok tt)
      × (db'.members ≡ delete (is_membership user_id workspace_id) db.members)
unfolding remove_member record_event
remove_member-members user_id workspace_id p db db' h =
    let (ctx, granted, h₁) = >>=-eq-ok (require_workspace admin workspace_id p db) _ h in
    let (found, got, h₂) = >>=-eq-ok (get_membership db user_id workspace_id) _ h₁ in
    let (m, there, h₃) = or_raise-eq-ok found _ _ h₂ in
    let (u, passed, h₄) = >>=-eq-ok (guard_last_admin db workspace_id user_id none) _ h₃ in
    (ctx, granted, ground (arith, passed), ground (arith, h₄))

-- If the user has at most one membership and the workspace has an admin, it has one after a change
-- of a member's role that succeeds.
pub change_member_role-HasAdmin :
    (role : String) (user_id workspace_id : ℕ) (p : Principal) (db db' : Db)
    → count (is_membership user_id workspace_id) db.members ≤ 1
    → HasAdmin workspace_id db
    → change_member_role role user_id workspace_id p db ≡ ok db'
    → HasAdmin workspace_id db'
change_member_role-HasAdmin role user_id workspace_id p db db' single some_admin h =
    let (ctx, granted, passed, members) =
      change_member_role-members role user_id workspace_id p db db' h in
    let hit = is_membership user_id workspace_id in
    let loss = count-update hit (is_admin_of workspace_id) (pinned role) db.members in
    elim (guard_last_admin_sound db workspace_id user_id (some role) passed) [
      | inl e ↦ rw members (
          omega (
            arith,
            count-update_keep hit (is_admin_of workspace_id) (pinned role) db.members
                (λ m h. ground (arith, e, h)),
          ))
      | inr rest ↦ rw members (kept_admin db workspace_id user_id _ single some_admin loss rest)
    ]

-- If the user has at most one membership and the workspace has an admin, it has one after a
-- removal of a member that succeeds.
pub remove_member-HasAdmin :
    (user_id workspace_id : ℕ) (p : Principal) (db db' : Db)
    → count (is_membership user_id workspace_id) db.members ≤ 1
    → HasAdmin workspace_id db
    → remove_member user_id workspace_id p db ≡ ok db'
    → HasAdmin workspace_id db'
remove_member-HasAdmin user_id workspace_id p db db' single some_admin h =
    let (ctx, granted, passed, members) = remove_member-members user_id workspace_id p db db' h in
    let loss =
      count-delete (is_membership user_id workspace_id) (is_admin_of workspace_id) db.members in
    elim (guard_last_admin_sound db workspace_id user_id none passed) [
      | inl e ↦ cc
      | inr rest ↦ rw members (kept_admin db workspace_id user_id _ single some_admin loss rest)
    ]

-- The requests that change the members of a workspace.
pub data MemberRequest : Type 0 where
  add : MemberAddIn → MemberRequest
  change_role : String → ℕ → MemberRequest
  remove : ℕ → MemberRequest

abbrev pub perform : MemberRequest → ℕ → Principal → Db → Result Db
perform (add payload) = add_member payload
perform (change_role role user_id) = change_member_role role user_id
perform (remove user_id) = remove_member user_id

add_member-members :
    (payload : MemberAddIn) (workspace_id : ℕ) (p : Principal) (db db' : Db)
    → add_member payload workspace_id p db ≡ ok db'
    → (ctx : WorkspaceContext) × (require_workspace admin workspace_id p db ≡ ok ctx)
      × (m : WorkspaceMember) × (m.workspace_id ≡ workspace_id)
      × (m.source ≡ some "manual")
      × (db'.members ≡ db.members ++ m ∷ [])
unfolding add_member record_event
add_member-members payload workspace_id p db db' h =
    let (ctx, granted, h₁) = >>=-eq-ok (require_workspace admin workspace_id p db) _ h in
    let (found, got, h₂) =
      >>=-eq-ok (find_user db payload.user_id (get_or payload.email "")) _ h₁ in
    let (user, there, h₃) = or_raise-eq-ok found _ _ h₂ in
    let (existing, looked_up, h₄) = >>=-eq-ok (get_membership db user.id workspace_id) _ h₃ in
    let (new, h₅) = guard-eq-ok (not (is_some existing)) _ _ h₄ in
    let (role, parsed, h₆) = >>=-eq-ok (parse payload.role) _ h₅ in
    (
      ctx,
      granted,
      record {
        workspace_id = workspace_id;
        user_id = user.id;
        role = payload.role;
        source = some "manual";
      },
      refl,
      refl,
      ground (arith, h₆),
    )

-- A request on members that succeeds was granted to an admin of the workspace, and the memberships
-- of the other workspaces are as before.
pub perform_sound :
    (request : MemberRequest) (workspace_id : ℕ) (p : Principal) (db db' : Db)
    → perform request workspace_id p db ≡ ok db'
    → ((ctx : WorkspaceContext) × Granted db p workspace_id admin ctx)
      × (filter (λ m. not (m.workspace_id == workspace_id)) db'.members
          ≡ filter (λ m. not (m.workspace_id == workspace_id)) db.members)
perform_sound (add payload) workspace_id p db db' h =
    let (ctx, granted, m, here, manual, members) =
      add_member-members payload workspace_id p db db' h in
    (
      (ctx, (require_workspace_iff admin workspace_id p db ctx).0 granted),
      rw (members, filter-append _ db.members (m ∷ []), here, ==_refl workspace_id) (append-nil _),
    )
perform_sound (change_role role user_id) workspace_id p db db' h =
    let (ctx, granted, passed, members) =
      change_member_role-members role user_id workspace_id p db db' h in
    (
      (ctx, (require_workspace_iff admin workspace_id p db ctx).0 granted),
      rw members (
          filter-update_frame (is_membership user_id workspace_id)
            (λ m. not (m.workspace_id == workspace_id)) (pinned role) db.members
            (λ m e. ground (arith, e)) (λ m e. ground (arith, e))),
    )
perform_sound (remove user_id) workspace_id p db db' h =
    let (ctx, granted, passed, members) = remove_member-members user_id workspace_id p db db' h in
    (
      (ctx, (require_workspace_iff admin workspace_id p db ctx).0 granted),
      rw members (
          filter-delete_frame (is_membership user_id workspace_id)
            (λ m. not (m.workspace_id == workspace_id)) db.members (λ m e. ground (arith, e))),
    )
