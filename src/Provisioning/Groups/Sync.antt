-- ===== src/Provisioning/Groups/Sync.antt =====
-- What group synchronization does to the memberships of the user, and of everybody else.
use ocspcrltesting.Schema.{User, Workspace, WorkspaceMember}
use ocspcrltesting.Authz.{is_membership}
use ocspcrltesting.Provisioning.Groups.{
  entitled_role, sync_workspace, sync_all, sync_oidc_group_memberships,
}
use ocspcrltesting.Provisioning.Groups.Rows.{protected_rows, settled, reconcile-protected}
use ocspcrltesting.Prelude.{
  ℕ, String, ◌≡◌, sym, ap, ◌∙◌, subst, ◌≢◌, Option, List, [], ◌∷◌, filter, All, ok,
  scalar_one_or_none, ok-injective, >>=-eq-ok,
}

-- The ids of the workspaces are distinct, as a primary key's are.
abbrev pub AreDistinct : List Workspace → Type 0
AreDistinct [] = Unit {0}
AreDistinct (ws ∷ rest) = All (λ w. ws.id ≢ w.id) rest × AreDistinct rest

module _ (user_id : ℕ) (groups : List String) where
  sync_workspace-protected :
      (ws : Workspace) (members members' : List WorkspaceMember)
      → sync_workspace user_id groups ws members ≡ ok members'
      → protected_rows user_id members' ≡ protected_rows user_id members
  unfolding sync_workspace
  sync_workspace-protected ws members members' h =
      let (found, e, h₁) =
        >>=-eq-ok (scalar_one_or_none (filter (is_membership user_id ws.id) members)) _ h in
      subst (λ ms. protected_rows user_id ms ≡ protected_rows user_id members) (ok-injective _ _ h₁)
        (reconcile-protected user_id ws.id found (entitled_role ws groups) members e)

  sync_all-protected :
      (workspaces : List Workspace) (members members' : List WorkspaceMember)
      → sync_all user_id groups workspaces members ≡ ok members'
      → protected_rows user_id members' ≡ protected_rows user_id members
  unfolding sync_all
  sync_all-protected [] members members' h = ap (protected_rows user_id) (sym (ok-injective _ _ h))
  sync_all-protected (ws ∷ rest) members members' h =
      let (ms, e, h₁) = >>=-eq-ok (sync_workspace user_id groups ws members) _ h in
      sync_all-protected rest ms members' h₁ ∙ sync_workspace-protected ws members ms e

  abbrev pub rows_in : ℕ → List WorkspaceMember → List WorkspaceMember
  rows_in workspace_id = filter (is_membership user_id workspace_id)

  -- The user's rows in a workspace are settled by the groups.
  abbrev pub IsSettled : List WorkspaceMember → List WorkspaceMember → Workspace → Type 0
  IsSettled before after ws =
      (found : Option WorkspaceMember) × (scalar_one_or_none (rows_in ws.id before) ≡ ok found)
      × (rows_in ws.id after ≡ settled user_id ws.id found (entitled_role ws groups))

-- A group sync that succeeds leaves the user's rows that it does not manage, and every row of
-- other users, as they were and in their order.
pub sync-protected :
    (user : User) (groups : List String) (workspaces : List Workspace)
    (members members' : List WorkspaceMember)
    → sync_oidc_group_memberships user groups workspaces members ≡ ok members'
    → protected_rows user.id members' ≡ protected_rows user.id members
unfolding sync_oidc_group_memberships
sync-protected user groups workspaces members members' h =
    sync_all-protected user.id _ _ members members' h
