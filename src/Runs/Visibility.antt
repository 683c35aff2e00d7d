-- ===== src/Runs/Visibility.antt =====
-- Who sees a run: the streaming endpoints against the others, and a single run against the list.
use ocspcrltesting.Schema.{Workspace, WorkspaceMember, Run, Db, column_eq}
use ocspcrltesting.Authz.{
  Role, viewer, member, admin, value, parse, Principal, WorkspaceContext, get_membership,
  get_workspace, is_membership,
}
use ocspcrltesting.Authz.Access.{
  in_token_scope, base_role, capped, context, require_workspace, active_workspace,
}
use ocspcrltesting.Authz.Access.Grants.{named_workspace_agrees}
use ocspcrltesting.Jobs.{RunStore, get_run}
use ocspcrltesting.Runs.{
  by_other, own_only, hidden, get_run_or_404, visibility_filter, is_listed, listed_runs,
  view_as_member, authorize_run_view,
}
use ocspcrltesting.Prelude.{
  ℕ, ◌<◌, String, ◌≡◌, refl, ◌⊎◌, inl, inr, Bool, true, false, not, ◌&&◌, Option, none, some, List,
  [], ◌∷◌, arith, ltb, leb, ◌==◌, if◌then◌else◌, ==_iff, ==_refl, Bool-cases, Option-cases,
  &&-eq-true, filter, All, find?-holds, http_error, value_error, multiple_rows, blocked_target,
  gaierror, http_failure, Result, ok, err, ◌>>=◌, or_raise, scalar_one_or_none,
}

-- What a streaming endpoint makes of the answer of a regular one.
abbrev pub answer : Result Run → Result Bool
answer (ok run) = ok true
answer (err (http_error code)) = ok false
answer (err value_error) = err value_error
answer (err multiple_rows) = err multiple_rows
answer (err blocked_target) = err blocked_target
answer (err gaierror) = err gaierror
answer (err http_failure) = err http_failure

-- The answer of the regular endpoints on a run that exists.
view_run :
    (s : RunStore) (run_id : String) (run : Run) (ctx : WorkspaceContext)
    → get_run run_id s ≡ some run
    → column_eq run.workspace_id ctx.workspace.id ≡ true
    → answer (get_run_or_404 s run_id ctx) ≡ ok (not (hidden ctx run))
unfolding get_run_or_404
view_run s run_id run ctx e w = ground (arith, e, w)

value-viewer : (r : Role) → leb (value viewer) (value r) ≡ true
value-viewer viewer = refl
value-viewer member = refl
value-viewer admin = refl

parse-cases : (s : String) → (parse s ≡ err value_error) ⊎ ((r : Role) × (parse s ≡ ok r))
unfolding parse
parse-cases s = ground arith

context-viewer :
    (ws : Workspace) (p : Principal) (role : Role)
    → context viewer ws p role ≡ ok (record { workspace = ws; principal = p; role = role })
context-viewer ws p role = rw (value-viewer role)

module _ (s : RunStore) (run_id : String) (p : Principal) (run : Run)
    (found : get_run run_id s ≡ some run) (ws : Workspace)
    (own : column_eq run.workspace_id ws.id ≡ true) where
  member_view :
      (rows : List WorkspaceMember)
      → p.user.is_global_admin ≡ false
      → (scalar_one_or_none rows >>= view_as_member ws p run)
        ≡ answer (
            ((do
              membership ← scalar_one_or_none rows
              m ← or_raise membership (http_error 403)
              parse m.role)
              >>= λ role. context viewer ws p (capped p role))
            >>= get_run_or_404 s run_id)
  member_view [] g = refl
  member_view (m ∷ []) g = elim (parse-cases m.role) [
    | inl e ↦ rw e
    | inr (r, e) ↦
        rw
          (
            e,
            context-viewer ws p (capped p r),
            view_run s run_id run (record { workspace = ws; principal = p; role = capped p r })
                found own,
          )
          (ground (arith, g))
  ]
  member_view (m ∷ n ∷ ms) g = refl

  admin_view :
      p.user.is_global_admin ≡ true
      → ok true
        ≡ answer
            ((ok admin >>= λ role. context viewer ws p (capped p role)) >>= get_run_or_404 s run_id)
  admin_view g =
      rw
        (
          context-viewer ws p (capped p admin),
          view_run s run_id run (record { workspace = ws; principal = p; role = capped p admin })
              found own,
        )
        (ground (arith, g))

get_workspace_id : (db : Db) (id : ℕ) (ws : Workspace) → get_workspace db id ≡ some ws → ws.id ≡ id
unfolding get_workspace
get_workspace_id db id ws e = (==_iff ws.id id).0 (find?-holds (λ w. w.id == id) db.workspaces ws e)

view_in_own :
    (s : RunStore) (run_id : String) (db : Db) (p : Principal) (run : Run) (workspace_id : ℕ)
    → get_run run_id s ≡ some run
    → run.workspace_id ≡ some workspace_id
    → authorize_run_view db p run
      ≡ answer (require_workspace viewer workspace_id p db >>= get_run_or_404 s run_id)
unfolding authorize_run_view require_workspace base_role get_membership
view_in_own s run_id db p run workspace_id found w =
    elim (Option-cases (get_workspace db workspace_id)) [
      | inl e ↦ rw (w, e)
      | inr (ws, e) ↦
          let same = get_workspace_id db workspace_id ws e in
          let own : column_eq run.workspace_id ws.id ≡ true = ground (arith, w, same) in
          elim (Bool-cases (in_token_scope p workspace_id)) [
            | inl scoped ↦ elim (Bool-cases p.user.is_global_admin) [
              | inl g ↦
                  ground (arith, w, e, same, scoped, g, admin_view s run_id p run found ws own g)
              | inr g ↦ ground (
                arith,
                w,
                e,
                same,
                scoped,
                g,
                member_view s run_id p run found ws own
                    (filter (is_membership p.user.id workspace_id) db.members) g,
              )
            ]
            | inr scoped ↦ ground (arith, w, e, same, scoped)
          ]
    ]

-- For a stored run and a request that names the run's workspace, the streaming endpoints' check
-- answers as the regular endpoints do: true where they return the run, false where they raise an
-- HTTP error, and the same other errors.
pub run_view_agrees :
    (s : RunStore) (run_id : String) (db : Db) (p : Principal) (run : Run) (workspace_id new_id : ℕ)
    → get_run run_id s ≡ some run
    → run.workspace_id ≡ some workspace_id
    → authorize_run_view db p run
      ≡ answer
          ((active_workspace viewer (some workspace_id) new_id p db).0 >>= get_run_or_404 s run_id)
run_view_agrees s run_id db p run workspace_id new_id found w =
    rw ((named_workspace_agrees viewer workspace_id new_id p db).0)
      (view_in_own s run_id db p run workspace_id found w)

not_hidden :
    (created : Option ℕ) (only low g : Bool) (user_id : ℕ)
    → (if only && low && not g then column_eq created user_id else true) ≡ true
    → not (only && low && not g && by_other created user_id) ≡ true
not_hidden none only low g user_id h = ground (arith, h)
not_hidden (some c) only low g user_id h = ground (arith, h)

visible :
    (r : Run) (ctx : WorkspaceContext) → visibility_filter ctx r ≡ true → not (hidden ctx r) ≡ true
visible r ctx h =
    not_hidden r.created_by_user_id (own_only ctx.workspace) (ltb (value ctx.role) (value admin))
      ctx.principal.user.is_global_admin ctx.principal.user.id h

-- If each stored run is found by its id, every run of the list opens for the same caller and is
-- returned as it was listed.
pub listed-opens :
    (s : RunStore) (status : Option String) (ctx : WorkspaceContext)
    → All (λ r. get_run r.id s ≡ some r) s.runs
    → All (λ r. get_run_or_404 s r.id ctx ≡ ok r) (listed_runs s status ctx)
unfolding listed_runs get_run_or_404
listed-opens s status ctx distinct = go s.runs distinct
  where
    listed : Run → Bool
    listed r =
        column_eq r.workspace_id ctx.workspace.id
        && visibility_filter ctx r
        && is_listed (λ x. x) status r.status

    opens : (r : Run) → get_run r.id s ≡ some r → listed r ≡ true → get_run_or_404 s r.id ctx ≡ ok r
    opens r found h =
        let (h₁, _) =
          &&-eq-true (column_eq r.workspace_id ctx.workspace.id && visibility_filter ctx r)
            (is_listed (λ x. x) status r.status) h in
        let (own, seen) =
          &&-eq-true (column_eq r.workspace_id ctx.workspace.id) (visibility_filter ctx r) h₁ in
        ground (arith, found, own, visible r ctx seen)

    go :
        (rs : List Run)
        → All (λ r. get_run r.id s ≡ some r) rs
        → All (λ r. get_run_or_404 s r.id ctx ≡ ok r) (filter listed rs)
    go [] h = tt
    go (r ∷ rs) h = elim (Bool-cases (listed r)) [
      | inl e ↦ rw e (opens r h.0 e, go rs h.1)
      | inr e ↦ rw e (go rs h.1)
    ]

-- Under "own" visibility, a stored run of the workspace without a creator opens for a caller below
-- admin who is not a global admin, but the list's condition excludes it.
pub orphan_runs_unlisted :
    (s : RunStore) (run : Run) (ctx : WorkspaceContext)
    → get_run run.id s ≡ some run
    → run.workspace_id ≡ some ctx.workspace.id
    → run.created_by_user_id ≡ none
    → own_only ctx.workspace ≡ true
    → value ctx.role < value admin
    → ctx.principal.user.is_global_admin ≡ false
    → (get_run_or_404 s run.id ctx ≡ ok run) × (visibility_filter ctx run ≡ false)
unfolding get_run_or_404
orphan_runs_unlisted s run ctx found own creator only low g = (
  ground (arith, found, own, creator, ==_refl ctx.workspace.id),
  ground (arith, creator, only, low, g),
)
