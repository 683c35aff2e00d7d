-- ===== src/Tokens/Examples.antt =====
-- The life of a token at concrete values.
use ocspcrltesting.Schema.{ApiToken, Db}
use ocspcrltesting.Authz.{Principal, Role, member, parse}
use ocspcrltesting.Authz.Principals.{principal_from_token}
use ocspcrltesting.Tokens.{TokenCreateIn, create_token, revoke_token}
use ocspcrltesting.Tokens.Lifecycle.{create_token-accepted}
use ocspcrltesting.Samples.{alice, db, token, signed_in, value_or}
use ocspcrltesting.Prelude.{◌≡◌, refl, some, none, ok}

abbrev payload : TokenCreateIn
payload = record { name = "nightly"; workspace_id = some 7; role_ceiling = "viewer" }

abbrev created : ApiToken × Db
created = value_or (create_token (λ t. t) "ocspt_new" 41 payload (signed_in alice) db) (token, db)

create_token-accepted_example :
    (q : Principal) × ((principal_from_token (λ t. t) (λ c. none) "ocspt_new" 10 created.1).0
      ≡ ok (some q))
    × (q.user ≡ alice)
    × (q.token_workspace_id ≡ some 7)
    × (ceiling : Role) × (parse "viewer" ≡ ok ceiling)
    × (q.token_role_ceiling ≡ some ceiling)
unfolding ocspcrltesting.Authz.Principals.get_user create_token parse
    ocspcrltesting.Authz.get_workspace ocspcrltesting.Authz.get_membership
create_token-accepted_example =
    create_token-accepted (λ t. t) (λ c. none) "ocspt_new" 41 10 payload (signed_in alice) db
      created.0 created.1 refl refl refl refl refl

abbrev revoked : Db
revoked = value_or (revoke_token 40 10 (signed_in alice) db) db
