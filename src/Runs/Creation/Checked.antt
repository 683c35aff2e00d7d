-- ===== src/Runs/Creation/Checked.antt =====
-- What the row of a started run says about the checks that it passed.
use ocspcrltesting.Schemas.{Selection, TestSelection}
use ocspcrltesting.Schema.{Db}
use ocspcrltesting.Settings.{Settings}
use ocspcrltesting.Authz.{WorkspaceContext}
use ocspcrltesting.Ssrf.Address.{Address}
use ocspcrltesting.Ssrf.Policy.{NetworkPolicy}
use ocspcrltesting.Ssrf.Url.{ParsedUrl, Resolver}
use ocspcrltesting.Ssrf.Url.Checked.{Validated}
use ocspcrltesting.Catalog.Known.{IsSound}
use ocspcrltesting.Catalog.Stored.{load_global_selection}
use ocspcrltesting.Certs.{Bytes, Parsers}
use ocspcrltesting.Jobs.{RunStore}
use ocspcrltesting.Runs.Storage.{Manifest, RunDir}
use ocspcrltesting.Runs.Creation.{Created}
use ocspcrltesting.Runs.Creation.Bounds.{HasBounds, unfinished}
use ocspcrltesting.Prelude.{
  ◌<◌, String, ◌≡◌, ◌≢◌, ◌⊎◌, true, Option, none, some, List, [], ◌∷◌, All,
}

-- The URL was resolved, and every address passes.
abbrev pub IsSafe : Resolver → (String → ParsedUrl) → NetworkPolicy → String → Type 0
IsSafe resolve parse policy url =
    (allowed : List Address) × Validated resolve (parse url) policy allowed

-- A row for the slot.
abbrev pub HasSlot : String → List (String × String) → Type 0
HasSlot slot [] = ⊥
HasSlot slot ((name, display) ∷ rest) = (name ≡ slot) ⊎ HasSlot slot rest

-- What the run's selection is for each mode of the configuration's.
pub record IsResolved (db : Db) (selection : TestSelection) (resolved : Option Selection)
    : Type 0 where
  pub custom : selection.mode ≡ "custom" → (resolved ≡ some selection.tests) × IsSound resolved
  pub global : selection.mode ≡ "global" → resolved ≡ load_global_selection db
  pub all : selection.mode ≢ "custom" → selection.mode ≢ "global" → resolved ≡ none

-- The directory of a run has the manifest for its worker: the row's configuration and selection, and
-- the policy.
pub record IsHanded (run_id : String) (policy : NetworkPolicy) (made : Created) : Type 0 where
  pub dir : RunDir
  pub manifest : Manifest
  pub there : made.dirs run_id ≡ some dir
  pub inside : dir.manifest ≡ some manifest
  pub same_config : manifest.config ≡ made.run.config.config
  pub same_selection : manifest.resolved_test_selection ≡ made.run.config.resolved_test_selection
  pub same_policy : manifest.policy ≡ policy

module _ (settings : Settings) (x509 : Parsers) (encode : String → Bytes) (resolve : Resolver)
    (parse : String → ParsedUrl) (run_id : String) (ctx : WorkspaceContext) (db : Db) (s : RunStore)
    (made : Created) where
  -- The configuration, the selection and the files are those of the new row.
  pub record Checked : Type 0 where
    pub bounds : HasBounds made.run.config.config
    pub policy : NetworkPolicy
    pub private_both :
        policy.allow_private ≡ true
        → (settings.allow_private_targets ≡ true) × (ctx.workspace.allow_private_targets ≡ true)
    pub block_list : policy.blocked_hosts ≡ settings.extra_blocked_host_list
    pub ocsp_safe : IsSafe resolve parse policy made.run.config.config.ocsp_url
    pub crls_safe : All (IsSafe resolve parse policy) made.run.config.config.crl_urls
    pub selection :
        IsResolved db made.run.config.config.test_selection made.run.config.resolved_test_selection
    pub below_own : unfinished ctx.workspace.id s < ctx.workspace.max_concurrent_runs
    pub below_all : unfinished ctx.workspace.id s < settings.max_concurrent_runs
    pub handed : IsHanded run_id policy made
    pub issuer : HasSlot "issuer_cert" made.run.config.files
