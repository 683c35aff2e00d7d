-- ===== src/Runs/Saved.antt =====
-- backend/app/api/runs.py: a run's configuration saved as a profile. The profile's id and the time are
-- arguments.
pub mod Kept
use ocspcrltesting.Schema.{Profile, Db}
use ocspcrltesting.Schemas.{RunConfig, model_validate}
use ocspcrltesting.Authz.{WorkspaceContext}
use ocspcrltesting.Library.Profiles.{ProfileIn, check_name_free, new_profile, add_profile}
use ocspcrltesting.Jobs.{RunStore}
use ocspcrltesting.Runs.{get_run_or_404}
use ocspcrltesting.Runs.Creation.{as_unprocessable}
use ocspcrltesting.Prelude.{ℕ, String, Option, none, Result, ok, ◌>>=◌, ◌>>◌}

pub record RunProfileIn : Type 0 where
  pub name : String
  pub description : Option String

abbrev pub as_payload : RunProfileIn → RunConfig → ProfileIn
as_payload payload config = record {
  name = payload.name;
  description = payload.description;
  config = config;
}

-- The stored configuration holds the fields of `RunConfig` beside the bookkeeping of the run.
unfoldable pub save_run_as_profile :
    String → RunProfileIn → ℕ → ℕ → WorkspaceContext → RunStore → Db → Result (Profile × Db)
save_run_as_profile run_id payload new_id now ctx s db = do
  run ← get_run_or_404 s run_id ctx
  config ← as_unprocessable (model_validate run.config.config)
  check_name_free db ctx.workspace.id payload.name none
  let profile = new_profile new_id now ctx.workspace.id ctx.principal (as_payload payload config)
  ok (profile, add_profile profile db)
