-- ===== src/Authz/Examples.antt =====
-- Tests of sign-in and of authorization, and the theorems at concrete inputs.
use ocspcrltesting.Authz.{
  viewer, member, admin, WorkspaceContext, get_membership, get_workspace, is_membership, parse,
}
use ocspcrltesting.Authz.Access.{require_workspace, active_workspace, base_role}
use ocspcrltesting.Authz.Access.Grants.{
  Granted, HasValidMembers, require_workspace_iff, active_workspace_confined,
  require_workspace_errors,
}
use ocspcrltesting.Authz.Principals.{
  auth_active, current_principal, principal_from_websocket, bearer,
}
use ocspcrltesting.Authz.Principals.Bearer.{IsBearer}
use ocspcrltesting.Authz.Principals.Accepted.{KeepsAlone, Backed, current_principal-Backed}
use ocspcrltesting.Schema.{Db}
use ocspcrltesting.Samples.{has_role, alice, bob, carol, team, db, signed_in, by_token, settings}
use ocspcrltesting.Prelude.{
  ◌≡◌, refl, ◌↔◌, ◌⊎◌, ◌≢◌, inl, inr, none, some, [], ◌∷◌, http_error, ok, err, arith, Bool-cases,
}

abbrev as_member : WorkspaceContext
as_member = record { workspace = team; principal = by_token; role = member }

require_workspace_iff_example :
    (require_workspace member 7 by_token db ≡ ok as_member) ↔ Granted db by_token 7 member as_member
require_workspace_iff_example = require_workspace_iff member 7 by_token db as_member

active_workspace_confined_example :
    Granted db by_token 7 viewer as_member × ((active_workspace viewer none 8 by_token db).1 ≡ db)
unfolding active_workspace get_workspace base_role get_membership parse
active_workspace_confined_example =
    active_workspace_confined viewer none 8 by_token db 7 as_member refl refl

-- An outsider is refused at the workspace, and a missing workspace is not found.
outsider : require_workspace viewer 7 (signed_in carol) db ≡ err (http_error 403)
unfolding require_workspace get_workspace base_role get_membership
outsider = refl

missing : require_workspace viewer 6 (signed_in alice) db ≡ err (http_error 404)
unfolding require_workspace get_workspace
missing = refl

signed_out :
    (current_principal (λ t. t) (λ c. none) settings "" (some "forged") 10 db).0
    ≡ err (http_error 401)
unfolding current_principal ocspcrltesting.Authz.Principals.principal_from_request bearer
    ocspcrltesting.Authz.Principals.principal_from_cookie
signed_out = refl

current_principal-Backed_example :
    Backed
      (IsBearer "Bearer ocspt_secret")
      (KeepsAlone "Bearer ocspt_secret" none)
      (λ t. t)
      (λ c. none)
      db
      by_token
unfolding current_principal auth_active ocspcrltesting.Authz.Principals.principal_from_request
    bearer ocspcrltesting.Authz.Principals.principal_from_token
    ocspcrltesting.Authz.Principals.get_user parse
current_principal-Backed_example =
    current_principal-Backed (λ t. t) (λ c. none) settings "Bearer ocspt_secret" none 10 db by_token
      refl refl

-- A database in which alice is the team's one member.
abbrev lone : Db
lone = record db { members = has_role 1 "admin" "manual" ∷ [] }

lone-valid : HasValidMembers lone
unfolding parse
lone-valid = record {
  unique = λ u w. elim (Bool-cases (is_membership u w (has_role 1 "admin" "manual"))) [
    | inl e ↦ rw e (omega arith)
    | inr e ↦ rw e (omega arith)
  ];
  known = λ u w. elim (Bool-cases (is_membership u w (has_role 1 "admin" "manual"))) [
    | inl e ↦ rw e ((admin, refl), tt)
    | inr e ↦ rw e tt
  ];
}

require_workspace_errors_example :
    ((ctx : WorkspaceContext) × (require_workspace admin 7 (signed_in bob) lone ≡ ok ctx))
    ⊎ ((get_workspace lone 7 ≡ none)
        × (require_workspace admin 7 (signed_in bob) lone ≡ err (http_error 404)))
    ⊎ ((get_workspace lone 7 ≢ none)
        × (require_workspace admin 7 (signed_in bob) lone ≡ err (http_error 403)))
require_workspace_errors_example = require_workspace_errors admin 7 (signed_in bob) lone lone-valid
