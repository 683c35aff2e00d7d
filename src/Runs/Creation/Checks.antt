-- ===== src/Runs/Creation/Checks.antt =====
-- What a new or repeated run was checked for.
use ocspcrltesting.Schemas.{RunConfig, Selection, model_validate}
use ocspcrltesting.Schema.{Db}
use ocspcrltesting.Settings.{Settings}
use ocspcrltesting.Authz.{WorkspaceContext}
use ocspcrltesting.Ssrf.Url.{ParsedUrl, Resolver, validate_urls}
use ocspcrltesting.Certs.{Bytes, Parsers, as_bad_request}
use ocspcrltesting.Jobs.{RunStore}
use ocspcrltesting.Runs.{get_run_or_404, workspace_policy, active_runs_of}
use ocspcrltesting.Runs.Storage.{
  Uploads, StoredFile, RunDirs, has_slot, store_files, store_cert, store_key, store_saved_certs,
  copy_files, uploads_of,
}
use ocspcrltesting.Runs.Creation.{
  Created, as_forbidden, resolve_selection, ws_limit, launch, targets, admitted, create_run,
  as_unprocessable, without_saved, rerun_run,
}
use ocspcrltesting.Prelude.{
  ℕ, ◌<◌, String, ◌≡◌, refl, subst, Bool, true, false, not, Option, none, some, List, [], leb,
  arith, Error, Result, ok, err, >>=-eq-ok, guard-eq-ok, ok-injective, if◌then◌else◌,
}

-- The deployment around a request: its settings, and the functions that are not the program's.
module _ (settings : Settings) (x509 : Parsers) (encode : String → Bytes) (resolve : Resolver)
    (parse : String → ParsedUrl) where
  -- A request that succeeds and starts a run: a new one, or a repetition.
  pub data Starts (run_id : String) (now : ℕ) (ctx : WorkspaceContext) (db : Db) (s : RunStore)
      (dirs : RunDirs) (made : Created) : Type 0 where
    created :
        (config : RunConfig) (uploads : Uploads)
        → create_run settings x509 encode resolve parse config uploads run_id now ctx db s dirs
          ≡ ok made
        → Starts run_id now ctx db s dirs made
    repeated :
        (prior_id : String)
        → rerun_run settings resolve parse prior_id run_id now ctx db s dirs ≡ ok made
        → Starts run_id now ctx db s dirs made

  -- What the run was checked for, and how it was launched.
  pub record Launched (run_id : String) (now : ℕ) (ctx : WorkspaceContext) (db : Db) (s : RunStore)
      (dirs : RunDirs) (made : Created) : Type 0 where
    pub config : RunConfig
    pub files : List StoredFile
    pub resolved : Option Selection
    pub rerun_of : Option String
    pub valid : model_validate config ≡ ok config
    pub safe : validate_urls resolve (targets parse config) (workspace_policy settings ctx) ≡ ok tt
    pub selected : resolve_selection db config.test_selection ≡ ok resolved
    pub below : active_runs_of ctx.workspace.id s < ws_limit settings ctx
    pub issuer : has_slot "issuer_cert" files ≡ true
    pub made_so : launch settings run_id now config files resolved rerun_of ctx s dirs ≡ made

  forbidden-ok : (r : Result (Unit {0})) {u : Unit} → as_forbidden r ≡ ok u → r ≡ ok tt
  forbidden-ok (ok tt) h = refl
  forbidden-ok (err e) h = absurd (cc h)

  admitted_sound :
      (config : RunConfig) (ctx : WorkspaceContext) (db : Db) (s : RunStore)
      (resolved : Option Selection)
      → admitted resolve parse settings config ctx db s ≡ ok resolved
      → (validate_urls resolve (targets parse config) (workspace_policy settings ctx) ≡ ok tt)
        × (resolve_selection db config.test_selection ≡ ok resolved)
        × (active_runs_of ctx.workspace.id s < ws_limit settings ctx)
  unfolding admitted
  admitted_sound config ctx db s resolved h =
      let (u, safe, h₁) =
        >>=-eq-ok
          (as_forbidden
            (validate_urls resolve (targets parse config) (workspace_policy settings ctx)))
          _ h in
      let (r, chosen, h₂) = >>=-eq-ok (resolve_selection db config.test_selection) _ h₁ in
      let (below, h₃) =
        guard-eq-ok (not (leb (ws_limit settings ctx) (active_runs_of ctx.workspace.id s))) _ _
          h₂ in
      let same : r ≡ resolved = ok-injective r resolved h₃ in
      (
        forbidden-ok _ safe,
        subst (λ x. resolve_selection db config.test_selection ≡ ok x) same chosen,
        ground (arith, below),
      )

  then_ok : (b : Bool) (c d : RunConfig) (e : Error) → (if b then ok c else err e) ≡ ok d → c ≡ d
  then_ok true c d e h = ok-injective c d h
  then_ok false c d e h = absurd (cc h)

  model_validate-same : (c d : RunConfig) → model_validate c ≡ ok d → c ≡ d
  unfolding model_validate
  model_validate-same c d h = then_ok _ c d _ h

  pub validated : (c d : RunConfig) → model_validate c ≡ ok d → model_validate d ≡ ok d
  validated c d h = subst (λ x. model_validate x ≡ ok d) (model_validate-same c d h) h

  bad_request-ok : (r : Result RunConfig) (c : RunConfig) → as_bad_request r ≡ ok c → r ≡ ok c
  bad_request-ok (ok d) c h = h
  bad_request-ok (err e) c h = absurd (cc h)

  unprocessable-ok : (r : Result RunConfig) (c : RunConfig) → as_unprocessable r ≡ ok c → r ≡ ok c
  unprocessable-ok (ok d) c h = h
  unprocessable-ok (err e) c h = absurd (cc h)

  store_files-issuer :
      (config : RunConfig) (uploads : Uploads) (ctx : WorkspaceContext) (db : Db)
      (files : List StoredFile)
      → store_files settings x509 encode config uploads ctx db ≡ ok files
      → has_slot "issuer_cert" files ≡ true
  unfolding store_files
  store_files-issuer config uploads ctx db files h =
      let (f₁, e₁, h₁) =
        >>=-eq-ok (store_cert settings x509 encode "issuer_cert" uploads.issuer_cert false []) _
          h in
      let (f₂, e₂, h₂) =
        >>=-eq-ok (store_cert settings x509 encode "good_cert" uploads.good_cert false f₁) _ h₁ in
      let (f₃, e₃, h₃) =
        >>=-eq-ok (store_cert settings x509 encode "revoked_cert" uploads.revoked_cert false f₂) _
          h₂ in
      let (f₄, e₄, h₄) =
        >>=-eq-ok
          (store_cert settings x509 encode "unknown_ca_cert" uploads.unknown_ca_cert false f₃) _
          h₃ in
      let (f₅, e₅, h₅) =
        >>=-eq-ok (store_cert settings x509 encode "trust_anchor" uploads.trust_anchor true f₄) _
          h₄ in
      let (f₆, e₆, h₆) =
        >>=-eq-ok (store_cert settings x509 encode "client_cert" uploads.client_cert true f₅) _
          h₅ in
      let (f₇, e₇, h₇) = >>=-eq-ok (store_key settings x509 encode uploads.client_key f₆) _ h₆ in
      let (f₈, e₈, h₈) =
        >>=-eq-ok (store_saved_certs settings x509 encode ctx db config.saved_certs f₇) _ h₇ in
      let (some_issuer, h₉) = guard-eq-ok (has_slot "issuer_cert" f₈) _ _ h₈ in
      subst (λ fs. has_slot "issuer_cert" fs ≡ true) (ok-injective f₈ files h₉) some_issuer

  created-Launched :
      (received : RunConfig) (uploads : Uploads) (run_id : String) (now : ℕ)
      (ctx : WorkspaceContext) (db : Db) (s : RunStore) (dirs : RunDirs) (made : Created)
      → create_run settings x509 encode resolve parse received uploads run_id now ctx db s dirs
        ≡ ok made
      → Launched run_id now ctx db s dirs made
  unfolding create_run
  created-Launched received uploads run_id now ctx db s dirs made h =
      let (config, got, h₁) = >>=-eq-ok (as_bad_request (model_validate received)) _ h in
      let (resolved, checked, h₂) =
        >>=-eq-ok (admitted resolve parse settings config ctx db s) _ h₁ in
      let (files, kept, h₃) =
        >>=-eq-ok (store_files settings x509 encode config uploads ctx db) _ h₂ in
      let (safe, selected, below) = admitted_sound config ctx db s resolved checked in
      record {
        config = config;
        files = files;
        resolved = resolved;
        rerun_of = none;
        valid = validated received config (bad_request-ok _ config got);
        safe = safe;
        selected = selected;
        below = below;
        issuer = store_files-issuer config uploads ctx db files kept;
        made_so = ok-injective _ made h₃;
      }

  repeated-Launched :
      (prior_id run_id : String) (now : ℕ) (ctx : WorkspaceContext) (db : Db) (s : RunStore)
      (dirs : RunDirs) (made : Created)
      → rerun_run settings resolve parse prior_id run_id now ctx db s dirs ≡ ok made
      → Launched run_id now ctx db s dirs made
  unfolding rerun_run
  repeated-Launched prior_id run_id now ctx db s dirs made h =
      let (prior, shown, h₁) = >>=-eq-ok (get_run_or_404 s prior_id ctx) _ h in
      let (config, got, h₂) =
        >>=-eq-ok (as_unprocessable (model_validate (without_saved prior.config.config))) _ h₁ in
      let (there, h₃) = guard-eq-ok (has_slot "issuer_cert" (uploads_of dirs prior_id)) _ _ h₂ in
      let (resolved, checked, h₄) =
        >>=-eq-ok (admitted resolve parse settings config ctx db s) _ h₃ in
      let files = copy_files (uploads_of dirs prior_id) prior.config.files in
      let (issuer, h₅) = guard-eq-ok (has_slot "issuer_cert" files) _ _ h₄ in
      let (safe, selected, below) = admitted_sound config ctx db s resolved checked in
      record {
        config = config;
        files = files;
        resolved = resolved;
        rerun_of = some prior_id;
        valid =
            validated (without_saved prior.config.config) config (unprocessable-ok _ config got);
        safe = safe;
        selected = selected;
        below = below;
        issuer = issuer;
        made_so = ok-injective _ made h₅;
      }

  -- What a request that starts a run, new or repeated, was checked for by the handlers' own tests.
  pub Starts-Launched :
      (run_id : String) (now : ℕ) (ctx : WorkspaceContext) (db : Db) (s : RunStore) (dirs : RunDirs)
      (made : Created)
      → Starts run_id now ctx db s dirs made
      → Launched run_id now ctx db s dirs made
  Starts-Launched run_id now ctx db s dirs made (created config uploads h) =
      created-Launched config uploads run_id now ctx db s dirs made h
  Starts-Launched run_id now ctx db s dirs made (repeated prior_id h) =
      repeated-Launched prior_id run_id now ctx db s dirs made h
