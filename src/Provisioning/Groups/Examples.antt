-- ===== src/Provisioning/Groups/Examples.antt =====
-- The group sync at a concrete user: bob's managed membership follows his groups.
use ocspcrltesting.Schema.{WorkspaceMember}
use ocspcrltesting.Provisioning.Groups.{
  grants, entitled_role, sync_workspace, sync_oidc_group_memberships,
}
use ocspcrltesting.Provisioning.Groups.Rows.{protected_rows}
use ocspcrltesting.Provisioning.Groups.Sync.{sync-protected}
use ocspcrltesting.Samples.{bob, team, db, has_role}
use ocspcrltesting.Prelude.{◌≡◌, refl, filter, not, is_empty, [], ◌∷◌, List, String}

abbrev promoted : List WorkspaceMember
promoted = has_role 1 "admin" "manual" ∷ has_role 2 "admin" "oidc" ∷ []

sync-protected_example : protected_rows 2 promoted ≡ protected_rows 2 db.members
unfolding sync_oidc_group_memberships sync_workspace entitled_role grants
sync-protected_example = sync-protected bob ("admins" ∷ []) (team ∷ []) db.members promoted refl

abbrev groups : List String
groups = filter (λ g. not (is_empty g)) ("admins" ∷ [])
