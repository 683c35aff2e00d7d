-- ===== src/Runs/Saved/Kept.antt =====
-- A run that is saved is visible to who started it, and becomes a new profile.
use ocspcrltesting.Schema.{Profile, Run, Db}
use ocspcrltesting.Schemas.{RunConfig, model_validate}
use ocspcrltesting.Settings.{Settings}
use ocspcrltesting.Authz.{value, admin, WorkspaceContext}
use ocspcrltesting.Ssrf.Url.{ParsedUrl, Resolver}
use ocspcrltesting.Certs.{Bytes, Parsers}
use ocspcrltesting.Library.Profiles.{
  is_named, check_name_free, new_profile, add_profile, create_profile,
}
use ocspcrltesting.Jobs.{RunStore, has_id, get_run}
use ocspcrltesting.Runs.{get_run_or_404, own_only, by_other}
use ocspcrltesting.Runs.Storage.{RunDirs}
use ocspcrltesting.Runs.Creation.{Created, new_run, display_names, launch, as_unprocessable}
use ocspcrltesting.Runs.Creation.Launched.{running, find?-new, launch-runs}
use ocspcrltesting.Runs.Creation.Checks.{Starts, Starts-Launched}
use ocspcrltesting.Runs.Saved.{RunProfileIn, as_payload, save_run_as_profile}
use ocspcrltesting.Prelude.{
  ℕ, String, ◌≡◌, refl, sym, ap, ◌∙◌, Bool, true, false, not, ◌&&◌, ltb, none, some, List, [], ◌∷◌,
  ◌++◌, arith, find?, filter, count, id_or_none, ==_refl, ok, >>=-eq-ok,
}

-- A run of one's own is not another's.
by_other-own : (user_id : ℕ) → by_other (id_or_none user_id) user_id ≡ false
by_other-own user_id = ground arith

filter-none : (p : Profile → Bool) (qs : List Profile) → count p qs ≡ 0 → filter p qs ≡ []
filter-none p [] h = refl
filter-none p (q ∷ qs) h = ground (arith, h, filter-none p qs)

&&_zero : (a b c : Bool) → (a && b && c && false) ≡ false
&&_zero true true true = refl
&&_zero true true false = refl
&&_zero true false c = refl
&&_zero false b c = refl

-- Who started a run sees it.
get_run_or_404-own :
    (s : RunStore) (run_id : String) (ctx : WorkspaceContext) (run : Run)
    → get_run run_id s ≡ some run
    → run.workspace_id ≡ some ctx.workspace.id
    → run.created_by_user_id ≡ id_or_none ctx.principal.user.id
    → get_run_or_404 s run_id ctx ≡ ok run
unfolding get_run_or_404
get_run_or_404-own s run_id ctx run found place mine =
    rw
      (
        found,
        place,
        ==_refl ctx.workspace.id,
        mine,
        by_other-own ctx.principal.user.id,
        &&_zero (own_only ctx.workspace) (ltb (value ctx.role) (value admin))
            (not ctx.principal.user.is_global_admin),
      )
      refl

free_name :
    (db : Db) (workspace_id : ℕ) (name : String)
    → count (is_named workspace_id name) db.profiles ≡ 0
    → check_name_free db workspace_id name none ≡ ok tt
unfolding check_name_free
free_name db workspace_id name h = rw (filter-none (is_named workspace_id name) db.profiles h) refl

saved_run :
    (s : RunStore) (run_id : String) (ctx : WorkspaceContext) (run : Run) (payload : RunProfileIn)
    (new_id now : ℕ) (db : Db)
    → get_run_or_404 s run_id ctx ≡ ok run
    → model_validate run.config.config ≡ ok run.config.config
    → check_name_free db ctx.workspace.id payload.name none ≡ ok tt
    → (let profile =
          new_profile new_id now ctx.workspace.id ctx.principal
            (as_payload payload run.config.config) in
        save_run_as_profile run_id payload new_id now ctx s db
        ≡ ok (profile, add_profile profile db))
unfolding save_run_as_profile
saved_run s run_id ctx run payload new_id now db seen valid free = rw (seen, valid, free) refl

-- A run is saved by making a profile of its configuration.
pub save_run_as_profile-created :
    (run_id : String) (payload : RunProfileIn) (new_id now : ℕ) (ctx : WorkspaceContext)
    (s : RunStore) (db db' : Db) (q : Profile)
    → save_run_as_profile run_id payload new_id now ctx s db ≡ ok (q, db')
    → (config : RunConfig) × (create_profile (as_payload payload config) new_id now ctx db
        ≡ ok (q, db'))
unfolding save_run_as_profile create_profile
save_run_as_profile-created run_id payload new_id now ctx s db db' q h =
    let (run, seen, h₁) = >>=-eq-ok (get_run_or_404 s run_id ctx) _ h in
    let (config, valid, h₂) =
      >>=-eq-ok (as_unprocessable (model_validate run.config.config)) _ h₁ in
    (config, h₂)

-- A profile of the caller's workspace with the payload's name and the configuration of the run,
-- less the profile that it was filled in from.
pub record IsSaved (payload : RunProfileIn) (new_id : ℕ) (ctx : WorkspaceContext) (made : Created)
    (q : Profile) : Type 0 where
  pub id : q.id ≡ new_id
  pub place : q.workspace_id ≡ some ctx.workspace.id
  pub name : q.name ≡ payload.name
  pub description : q.description ≡ payload.description
  pub config : q.config ≡ record made.run.config.config { profile_id = none }

module _ (settings : Settings) (x509 : Parsers) (encode : String → Bytes) (resolve : Resolver)
    (parse : String → ParsedUrl) (run_id : String) (now : ℕ) (ctx : WorkspaceContext) (db : Db)
    (s : RunStore) (dirs : RunDirs) (made : Created) where
  -- If the id of a run is new, then after it was started, as a new one or as a repetition,
  -- whoever started it can save it under a name that no profile of the workspace has: one row is
  -- added, with that name and description, in that workspace, whose configuration is that of the
  -- run's row less the id of a profile.
  pub save_run_as_profile-started :
      (payload : RunProfileIn) (new_id later : ℕ) (db' : Db)
      → Starts settings x509 encode resolve parse run_id now ctx db s dirs made
      → get_run run_id s ≡ none
      → count (is_named ctx.workspace.id payload.name) db'.profiles ≡ 0
      → (q : Profile) × (save_run_as_profile run_id payload new_id later ctx made.store db'
          ≡ ok (q, record db' { profiles = db'.profiles ++ q ∷ [] }))
        × IsSaved payload new_id ctx made q
  unfolding launch get_run
  save_run_as_profile-started payload new_id later db' start fresh free =
      let l =
        Starts-Launched settings x509 encode resolve parse run_id now ctx db s dirs made start in
      let new =
        running now (new_run run_id l.config (display_names l.files) l.resolved l.rerun_of ctx) in
      let rows : made.store.runs ≡ s.runs ++ new ∷ [] =
        ap (λ m. m.store.runs) (sym l.made_so)
        ∙ launch-runs settings run_id now l.config l.files l.resolved l.rerun_of ctx s dirs fresh in
      let stored : get_run run_id made.store ≡ some new =
        ap (find? (has_id run_id)) rows ∙ find?-new run_id s.runs new fresh refl in
      let config : l.config ≡ made.run.config.config = ap (λ m. m.run.config.config) l.made_so in
      let profile =
        new_profile new_id later ctx.workspace.id ctx.principal (as_payload payload l.config) in
      (
        profile,
        saved_run made.store run_id ctx new payload new_id later db'
            (get_run_or_404-own made.store run_id ctx new stored refl refl) l.valid
            (free_name db' ctx.workspace.id payload.name free),
        record {
          id = refl;
          place = refl;
          name = refl;
          description = refl;
          config = ap {A = RunConfig} {B = RunConfig} (λ c. record c { profile_id = none }) config;
        },
      )
