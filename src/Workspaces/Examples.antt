-- ===== src/Workspaces/Examples.antt =====
-- Workspaces and members at concrete values.
use ocspcrltesting.Schema.{Workspace, Db}
use ocspcrltesting.Authz.{WorkspaceContext, viewer, member, admin}
use ocspcrltesting.Authz.Access.{require_workspace}
use ocspcrltesting.Authz.Access.Grants.{Granted}
use ocspcrltesting.Workspaces.{
  create_workspace, update_workspace, WorkspaceUpdateIn, delete_workspace, add_member, MemberAddIn,
  change_member_role, remove_member,
}
use ocspcrltesting.Workspaces.Admins.{
  HasAdmin, add, change_member_role-HasAdmin, remove_member-HasAdmin, perform_sound,
}
use ocspcrltesting.Workspaces.Policy.{
  WithinCeilings, update_workspace-WithinCeilings, deleted_members_return,
}
use ocspcrltesting.Samples.{alice, bob, carol, team, db, has_role, signed_in, settings, value_or}
use ocspcrltesting.Prelude.{
  ◌≡◌, refl, inl, filter, not, ◌==◌, update, some, none, ok, err, http_error, arith, true, false,
}

abbrev promoted : Db
promoted = value_or (change_member_role "admin" 2 7 (signed_in alice) db) db

change_member_role-HasAdmin_example : HasAdmin 7 promoted
unfolding change_member_role require_workspace ocspcrltesting.Authz.get_workspace
    ocspcrltesting.Authz.Access.base_role ocspcrltesting.Authz.get_membership
    ocspcrltesting.Authz.parse ocspcrltesting.Workspaces.guard_last_admin
change_member_role-HasAdmin_example =
    change_member_role-HasAdmin "admin" 2 7 (signed_in alice) db promoted (omega arith)
      (omega arith) refl

-- The last admin can neither be demoted nor removed.
last_admin_stays :
    (change_member_role "viewer" 1 7 (signed_in alice) db ≡ err (http_error 400))
    × (remove_member 1 7 (signed_in alice) db ≡ err (http_error 400))
unfolding change_member_role require_workspace ocspcrltesting.Authz.get_workspace
    ocspcrltesting.Authz.Access.base_role ocspcrltesting.Authz.get_membership
    ocspcrltesting.Authz.parse ocspcrltesting.Workspaces.guard_last_admin remove_member
last_admin_stays = (refl, refl)

abbrev left : Db
left = value_or (remove_member 2 7 (signed_in alice) db) db

remove_member-HasAdmin_example : HasAdmin 7 left
unfolding remove_member require_workspace ocspcrltesting.Authz.get_workspace
    ocspcrltesting.Authz.Access.base_role ocspcrltesting.Authz.get_membership
    ocspcrltesting.Authz.parse ocspcrltesting.Workspaces.guard_last_admin
remove_member-HasAdmin_example =
    remove_member-HasAdmin 2 7 (signed_in alice) db left (omega arith) (omega arith) refl

abbrev invitation : MemberAddIn
invitation = record { user_id = none; email = some "carol"; role = "member" }

abbrev joined : Db
joined = value_or (add_member invitation 7 (signed_in alice) db) db

perform_sound_example :
    ((ctx : WorkspaceContext) × Granted db (signed_in alice) 7 admin ctx)
    × (filter (λ m. not (m.workspace_id == 7)) joined.members
        ≡ filter (λ m. not (m.workspace_id == 7)) db.members)
unfolding add_member require_workspace ocspcrltesting.Authz.get_workspace
    ocspcrltesting.Authz.Access.base_role ocspcrltesting.Authz.get_membership
    ocspcrltesting.Authz.parse
perform_sound_example = perform_sound (add invitation) 7 (signed_in alice) db joined refl

abbrev raise_limit : WorkspaceUpdateIn
raise_limit = record {
  name = none;
  run_visibility = none;
  allow_private_targets = none;
  max_concurrent_runs = some 3;
  oidc_group_admin = none;
  oidc_group = none;
  oidc_group_viewer = none;
}

abbrev raised : Workspace × Db
raised = value_or (update_workspace settings raise_limit 7 (signed_in alice) db) (team, db)

update_workspace-WithinCeilings_example :
    WithinCeilings settings raised.0
    × (raised.1.workspaces ≡ update (λ w. w.id == raised.0.id) (λ w. raised.0) db.workspaces)
unfolding ocspcrltesting.Authz.get_workspace update_workspace require_workspace
    ocspcrltesting.Authz.Access.base_role ocspcrltesting.Authz.get_membership
    ocspcrltesting.Authz.parse
update_workspace-WithinCeilings_example =
    update_workspace-WithinCeilings settings raise_limit 7 (signed_in alice) db raised.1 team
      raised.0 refl (record { private_targets = inl refl; concurrency = omega arith }) refl

abbrev orphaned : Db
orphaned = value_or (delete_workspace false 7 (signed_in alice) db) db

deleted_members_return_example :
    require_workspace member 7
      (signed_in bob)
      (create_workspace settings 7 "secret" (signed_in carol) orphaned).1
    ≡ ok (record {
      workspace = (create_workspace settings 7 "secret" (signed_in carol) orphaned).0;
      principal = signed_in bob;
      role = member;
    })
unfolding delete_workspace require_workspace ocspcrltesting.Authz.get_workspace
    ocspcrltesting.Authz.Access.base_role ocspcrltesting.Authz.get_membership
    ocspcrltesting.Authz.parse
deleted_members_return_example =
    deleted_members_return settings 7 "secret" (signed_in alice) (signed_in carol) (signed_in bob)
      db orphaned (has_role 2 "member" "oidc") member refl refl refl refl (λ e. omega arith) refl
      refl

abbrev emptied : Db
emptied = value_or (delete_workspace true 7 (signed_in alice) db) db
