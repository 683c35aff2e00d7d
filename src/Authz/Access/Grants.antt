-- ===== src/Authz/Access/Grants.antt =====
-- What an authorized request has, and when a request is authorized.
use ocspcrltesting.Schema.{WorkspaceMember, Db}
use ocspcrltesting.Authz.{
  Role, admin, value, parse, Principal, WorkspaceContext, get_membership, get_workspace,
  is_membership,
}
use ocspcrltesting.Authz.Access.{
  in_token_scope, base_role, capped, require_workspace, authorize_workspace_role, active_workspace,
}
use ocspcrltesting.Prelude.{
  ℕ, ◌≤◌, ◌<◌, ◌≡◌, refl, ap, subst, ◌≢◌, ◌↔◌, ◌⊎◌, inl, inr, true, false, Option, none, some, List,
  [], ◌∷◌, arith, leb, ltb, if◌then◌else◌, Bool-cases, Option-cases, length, filter, All,
  http_error, ok, err, ◌>>=◌, or_raise, scalar_one_or_none, >>=-eq-ok, guard-eq-ok, or_raise-eq-ok,
}

-- Where a role comes from: the global flag, or the one membership row of the user.
pub data HasRole (db : Db) (p : Principal) (workspace_id : ℕ) (role : Role) : Type 0 where
  globally : p.user.is_global_admin ≡ true → role ≡ admin → HasRole db p workspace_id role
  by_membership :
      p.user.is_global_admin ≡ false
      → (m : WorkspaceMember) → filter (is_membership p.user.id workspace_id) db.members ≡ m ∷ []
      → parse m.role ≡ ok role
      → HasRole db p workspace_id role

-- The role that a token's ceiling leaves: the lower of the two, or all of it without a ceiling.
abbrev pub IsCapped : Option Role → Role → Role → Type 0
IsCapped none base role = role ≡ base
IsCapped (some ceiling) base role =
    (value ceiling < value base → role ≡ ceiling) × (value base ≤ value ceiling → role ≡ base)

IsCapped-unique :
    (p : Principal) (base role : Role)
    → IsCapped p.token_role_ceiling base role ↔ (role ≡ capped p base)
IsCapped-unique p base role = go p.token_role_ceiling
  where
    go :
        (ceiling : Option Role)
        → IsCapped ceiling base role ↔ (
            role ≡ (elim ceiling [
              | none ↦ base
              | some c ↦ if ltb (value c) (value base) then c else base
            ]))
    go none = (λ h. h, λ h. h)
    go (some c) = elim (Bool-cases (ltb (value c) (value base))) [
      | inl lt ↦
          rw lt
            (λ h. h.0 (ground (arith, lt)), λ e. (λ k. e, λ le. absurd (ground (arith, lt, le))))
      | inr ge ↦
          rw ge (λ h. h.1 (ground (arith, ge)), λ e. (λ k. absurd (ground (arith, ge, k)), λ le. e))
    ]

-- What authorization at `min_role` promises of the context that it returns.
pub record Granted (db : Db) (p : Principal) (workspace_id : ℕ) (min_role : Role)
    (ctx : WorkspaceContext) : Type 0 where
  pub exists : get_workspace db workspace_id ≡ some ctx.workspace
  pub caller : ctx.principal ≡ p
  pub scope : (p.token_workspace_id ≡ none) ⊎ (p.token_workspace_id ≡ some workspace_id)
  pub base : Role
  pub source : HasRole db p workspace_id base
  pub role : IsCapped p.token_role_ceiling base ctx.role
  pub enough : value min_role ≤ value ctx.role

membership_sound :
    (rows : List WorkspaceMember) {r : Role}
    → (do
      membership ← scalar_one_or_none rows
      m ← or_raise membership (http_error 403)
      parse m.role)
      ≡ ok r
    → (m : WorkspaceMember) × (rows ≡ m ∷ []) × (parse m.role ≡ ok r)
membership_sound [] h = cc
membership_sound (m ∷ []) h = (m, refl, h)
membership_sound (m ∷ n ∷ rows) h = cc

pub base_role_sound :
    (db : Db) (p : Principal) (id : ℕ) (r : Role) → base_role db p id ≡ ok r → HasRole db p id r
unfolding base_role get_membership
base_role_sound db p id r h = elim (Bool-cases p.user.is_global_admin) [
  | inl e ↦ globally e (ground arith)
  | inr e ↦
      let (m, one, role) =
        membership_sound (filter (is_membership p.user.id id) db.members) (rw e at h) in
      by_membership e m one role
]

pub base_role_complete :
    (db : Db) (p : Principal) (id : ℕ) (r : Role) → HasRole db p id r → base_role db p id ≡ ok r
unfolding base_role get_membership
base_role_complete db p id r (globally g e) = rw (g, e)
base_role_complete db p id r (by_membership g m one e) = rw (g, one) e

scope_sound :
    (p : Principal) (id : ℕ)
    → in_token_scope p id ≡ true
    → (p.token_workspace_id ≡ none) ⊎ (p.token_workspace_id ≡ some id)
scope_sound p id h = ground arith

-- Authorization returns a context exactly when it is the one that is granted: the workspace
-- exists, the token's scope admits it, the role is that of a global admin or of the one membership
-- with a known role, or the token's ceiling where that is lower, and it is enough.
pub require_workspace_iff :
    (min_role : Role) (id : ℕ) (p : Principal) (db : Db) (ctx : WorkspaceContext)
    → (require_workspace min_role id p db ≡ ok ctx) ↔ Granted db p id min_role ctx
unfolding require_workspace
require_workspace_iff min_role id p db ctx = (sound, complete)
  where
    sound : require_workspace min_role id p db ≡ ok ctx → Granted db p id min_role ctx
    sound h =
        let (ws, found, h₁) = or_raise-eq-ok (get_workspace db id) _ _ h in
        let (scoped, h₂) = guard-eq-ok (in_token_scope p id) _ _ h₁ in
        let (r, based, h₃) = >>=-eq-ok (base_role db p id) _ h₂ in
        let (high, h₄) = guard-eq-ok (leb (value min_role) (value (capped p r))) _ _ h₃ in
        record {
          exists = ground arith;
          caller = ground arith;
          scope = scope_sound p id scoped;
          base = r;
          source = base_role_sound db p id r based;
          role = (IsCapped-unique p r ctx.role).1 (ground arith);
          enough = ground arith;
        }

    complete : Granted db p id min_role ctx → require_workspace min_role id p db ≡ ok ctx
    complete g = ground (
      arith,
      base_role_complete db p id g.base g.source,
      (IsCapped-unique p g.base ctx.role).0 g.role,
    )

-- What authorization at a role grants, it grants at every lower role with the same context.
pub require_workspace_mono :
    (low high : Role) (id : ℕ) (p : Principal) (db : Db) (ctx : WorkspaceContext)
    → value low ≤ value high
    → require_workspace high id p db ≡ ok ctx
    → require_workspace low id p db ≡ ok ctx
require_workspace_mono low high id p db ctx le h =
    let g = (require_workspace_iff high id p db ctx).0 h in
    (require_workspace_iff low id p db ctx).1 (record {
      exists = g.exists;
      caller = g.caller;
      scope = g.scope;
      base = g.base;
      source = g.source;
      role = g.role;
      enough = omega arith;
    })

-- With a named workspace the two other entry points answer as `require_workspace` does, and the
-- request's dependency leaves the database unchanged.
pub named_workspace_agrees :
    (min_role : Role) (id new_id : ℕ) (p : Principal) (db : Db)
    → (active_workspace min_role (some id) new_id p db ≡ (require_workspace min_role id p db, db))
      × (authorize_workspace_role db p id min_role ≡ require_workspace min_role id p db)
unfolding active_workspace require_workspace authorize_workspace_role
named_workspace_agrees min_role id new_id p db = (refl, refl)

-- A token with a scope gets a context only in that workspace, granted as there, whichever
-- workspace the request names or omits, and the database is unchanged.
pub active_workspace_confined :
    (min_role : Role) (asked : Option ℕ) (new_id : ℕ) (p : Principal) (db : Db) (scope : ℕ)
    (ctx : WorkspaceContext)
    → p.token_workspace_id ≡ some scope
    → (active_workspace min_role asked new_id p db).0 ≡ ok ctx
    → Granted db p scope min_role ctx × ((active_workspace min_role asked new_id p db).1 ≡ db)
active_workspace_confined min_role asked new_id p db scope ctx s h =
    (grant asked h, unchanged asked)
  where
    resolved :
        active_workspace min_role none new_id p db
        ≡ active_workspace min_role (some scope) new_id p db
    resolved = unfold active_workspace in rw s

    named :
        (id : ℕ)
        → (active_workspace min_role (some id) new_id p db).0 ≡ ok ctx
        → Granted db p id min_role ctx
    named id k =
        (require_workspace_iff min_role id p db ctx).0
          (cc ((named_workspace_agrees min_role id new_id p db).0, k))

    grant :
        (a : Option ℕ)
        → (active_workspace min_role a new_id p db).0 ≡ ok ctx
        → Granted db p scope min_role ctx
    grant none k = named scope (cc (resolved, k))
    grant (some id) k = elim (named id k).scope [
      | inl e ↦ absurd (cc (e, s))
      | inr e ↦ subst (λ n. Granted db p n min_role ctx) (ground (arith, e, s)) (named id k)
    ]

    unchanged : (a : Option ℕ) → (active_workspace min_role a new_id p db).1 ≡ db
    unchanged none =
        rw resolved (ap (λ r. r.1) (named_workspace_agrees min_role scope new_id p db).0)
    unchanged (some id) = ap (λ r. r.1) (named_workspace_agrees min_role id new_id p db).0

-- A database in which a user has at most one membership of a workspace, and roles are known.
pub record HasValidMembers (db : Db) : Type 0 where
  pub unique :
      (user_id workspace_id : ℕ)
      → length (filter (is_membership user_id workspace_id) db.members) ≤ 1
  pub known :
      (user_id workspace_id : ℕ)
      → All
          (λ m. (r : Role) × (parse m.role ≡ ok r))
          (filter (is_membership user_id workspace_id) db.members)

membership_cases :
    (rows : List WorkspaceMember)
    → length rows ≤ 1
    → All (λ m. (r : Role) × (parse m.role ≡ ok r)) rows
    → let looked_up = (do
      membership ← scalar_one_or_none rows
      m ← or_raise membership (http_error 403)
      parse m.role) in
      ((r : Role) × (looked_up ≡ ok r)) ⊎ (looked_up ≡ err (http_error 403))
membership_cases [] few known = inr refl
membership_cases (m ∷ []) few known = inl known.0
membership_cases (m ∷ n ∷ rows) few known = absurd (omega arith)

base_role_cases :
    (db : Db) (p : Principal) (id : ℕ)
    → HasValidMembers db
    → ((r : Role) × (base_role db p id ≡ ok r)) ⊎ (base_role db p id ≡ err (http_error 403))
unfolding base_role get_membership
base_role_cases db p id v = elim (Bool-cases p.user.is_global_admin) [
  | inl e ↦ inl (admin, rw e)
  | inr e ↦ rw e (
      membership_cases (filter (is_membership p.user.id id) db.members) (v.unique p.user.id id)
        (v.known p.user.id id))
]

-- If each user has at most one membership of a workspace and its role is known, authorization
-- returns a context, or raises 404 where there is no such workspace, or 403 where there is one.
pub require_workspace_errors :
    (min_role : Role) (id : ℕ) (p : Principal) (db : Db)
    → HasValidMembers db
    → ((ctx : WorkspaceContext) × (require_workspace min_role id p db ≡ ok ctx))
      ⊎ ((get_workspace db id ≡ none) × (require_workspace min_role id p db ≡ err (http_error 404)))
      ⊎ ((get_workspace db id ≢ none) × (require_workspace min_role id p db ≡ err (http_error 403)))
unfolding require_workspace
require_workspace_errors min_role id p db v = elim (Option-cases (get_workspace db id)) [
  | inl e ↦ inr (inl (e, rw e))
  | inr (ws, e) ↦ elim (Bool-cases (in_token_scope p id)) [
    | inr out ↦ inr (inr (ground (arith, e), ground (arith, e, out)))
    | inl in_scope ↦ elim (base_role_cases db p id v) [
      | inr no_role ↦ inr (inr (ground (arith, e), ground (arith, e, in_scope, no_role)))
      | inl (r, based) ↦ elim (Bool-cases (leb (value min_role) (value (capped p r)))) [
        | inl high ↦ inl (
          record { workspace = ws; principal = p; role = capped p r },
          rw (e, in_scope, based, high),
        )
        | inr low ↦ inr (inr (ground (arith, e), rw (e, in_scope, based, low)))
      ]
    ]
  ]
]
