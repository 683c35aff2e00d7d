-- ===== src/Runs/Creation/Limits.antt =====
-- What starting a run keeps: the limit on concurrent runs, the other runs, and sound selections.
use ocspcrltesting.Schemas.{Selection, TestSelection}
use ocspcrltesting.Schema.{Run, Db, column_eq}
use ocspcrltesting.Settings.{Settings}
use ocspcrltesting.Authz.{WorkspaceContext}
use ocspcrltesting.Ssrf.Url.{ParsedUrl, Resolver}
use ocspcrltesting.Catalog.{validate_selection}
use ocspcrltesting.Catalog.Known.{IsSound, validate_selection-none_iff, accepted-ok}
use ocspcrltesting.Catalog.Stored.{load_global_selection, accepted}
use ocspcrltesting.Certs.{Bytes, Parsers}
use ocspcrltesting.Jobs.{RunStore, has_id, get_run, is_terminal}
use ocspcrltesting.Runs.{active_runs_of}
use ocspcrltesting.Runs.Storage.{RunDirs}
use ocspcrltesting.Runs.Creation.{Created, resolve_selection, new_run, display_names, launch}
use ocspcrltesting.Runs.Creation.Launched.{running, launch-runs}
use ocspcrltesting.Runs.Creation.Bounds.{unfinished, active_runs_of-unfinished}
use ocspcrltesting.Runs.Creation.Checks.{Starts, Starts-Launched}
use ocspcrltesting.Prelude.{
  ℕ, ◌+◌, ◌≤◌, String, ◌≡◌, refl, sym, ap, subst, ◌≢◌, ◌∙◌, Bool, true, false, not, ◌&&◌, Option,
  none, some, List, [], ◌∷◌, ◌++◌, arith, str_eq, eq_iff, Bool-cases, inl, inr, length, filter,
  find?, filter-append, length-append, ok, ◌>>◌, ==_refl, >>=-eq-ok, ok-injective, if◌then◌else◌,
}

length-filter_new :
    (p : Run → Bool) (rs : List Run) (r : Run)
    → p r ≡ true
    → length (filter p (rs ++ r ∷ [])) ≡ length (filter p rs) + 1
length-filter_new p rs r h =
    ap length (filter-append p rs (r ∷ []))
    ∙ (length-append (filter p rs) (filter p (r ∷ [])) ∙ rw h refl)

find?-earlier :
    (p : Run → Bool) (rs : List Run) (r : Run) → p r ≡ false → find? p (rs ++ r ∷ []) ≡ find? p rs
find?-earlier p [] r h = rw h refl
find?-earlier p (x ∷ rs) r h = ground (arith, h, find?-earlier p rs r h)

different : (run_id other : String) → other ≢ run_id → str_eq run_id other ≡ false
different run_id other ne = elim (Bool-cases (str_eq run_id other)) [
  | inl e ↦ absurd (ne (sym ((eq_iff run_id other).0 e)))
  | inr e ↦ e
]

chosen-IsSound :
    (custom global : Bool) (db : Db) (tests : Selection) (resolved : Option Selection)
    → IsSound (load_global_selection db)
    → (if custom
        then (accepted (validate_selection tests) >> ok (some tests))
        else if global
        then ok (load_global_selection db)
        else ok none)
      ≡ ok resolved
    → IsSound resolved
chosen-IsSound true global db tests resolved stored h =
    let (u, checked, h₁) = >>=-eq-ok (accepted (validate_selection tests)) _ h in
    subst IsSound (ok-injective _ resolved h₁)
      ((validate_selection-none_iff tests).0 (accepted-ok (validate_selection tests) checked))
chosen-IsSound false true db tests resolved stored h =
    subst IsSound (ok-injective _ resolved h) stored
chosen-IsSound false false db tests resolved stored h = subst IsSound (ok-injective _ resolved h) tt

resolve_selection-IsSound :
    (db : Db) (selection : TestSelection) (resolved : Option Selection)
    → IsSound (load_global_selection db)
    → resolve_selection db selection ≡ ok resolved
    → IsSound resolved
unfolding resolve_selection
resolve_selection-IsSound db selection resolved stored h =
    chosen-IsSound (str_eq selection.mode "custom") (str_eq selection.mode "global") db
      selection.tests resolved stored h

module _ (settings : Settings) (x509 : Parsers) (encode : String → Bytes) (resolve : Resolver)
    (parse : String → ParsedUrl) (run_id : String) (now : ℕ) (ctx : WorkspaceContext) (db : Db)
    (s : RunStore) (dirs : RunDirs) (made : Created) where
  -- The same of the count that the handlers take.
  Starts-counted :
      Starts settings x509 encode resolve parse run_id now ctx db s dirs made
      → get_run run_id s ≡ none
      → (active_runs_of ctx.workspace.id made.store ≡ active_runs_of ctx.workspace.id s + 1)
        × (active_runs_of ctx.workspace.id made.store ≤ ctx.workspace.max_concurrent_runs)
        × (active_runs_of ctx.workspace.id made.store ≤ settings.max_concurrent_runs)
        × ((other : String) → other ≢ run_id → get_run other made.store ≡ get_run other s)
  unfolding active_runs_of get_run is_terminal
  Starts-counted start fresh =
      let l =
        Starts-Launched settings x509 encode resolve parse run_id now ctx db s dirs made start in
      let new =
        running now (new_run run_id l.config (display_names l.files) l.resolved l.rerun_of ctx) in
      let rows : made.store.runs ≡ s.runs ++ new ∷ [] =
        ap (λ m. m.store.runs) (sym l.made_so)
        ∙ launch-runs settings run_id now l.config l.files l.resolved l.rerun_of ctx s dirs fresh in
      let going : Run → Bool =
        λ r. column_eq r.workspace_id ctx.workspace.id && not (is_terminal r.status) in
      let grown =
        ap (λ rs. length (filter going rs)) rows
        ∙ length-filter_new going s.runs new (rw (==_refl ctx.workspace.id) refl) in
      (
        grown,
        omega (arith, grown, l.below),
        omega (arith, grown, l.below),
        λ other ne.
            ap (find? (has_id other)) rows
            ∙ find?-earlier (has_id other) s.runs new (different run_id other ne),
      )

  -- If the id is new, then after a run was started in one step, as a new one or as a repetition,
  -- the workspace has one unfinished run more, at most as many as its own limit and at most as
  -- many as the deployment's; any other run is as it was.
  pub Starts-limited :
      Starts settings x509 encode resolve parse run_id now ctx db s dirs made
      → get_run run_id s ≡ none
      → (unfinished ctx.workspace.id made.store ≡ unfinished ctx.workspace.id s + 1)
        × (unfinished ctx.workspace.id made.store ≤ ctx.workspace.max_concurrent_runs)
        × (unfinished ctx.workspace.id made.store ≤ settings.max_concurrent_runs)
        × ((other : String) → other ≢ run_id → get_run other made.store ≡ get_run other s)
  Starts-limited start fresh =
      let (grown, own, all, others) = Starts-counted start fresh in
      let before = active_runs_of-unfinished ctx.workspace.id s in
      let after = active_runs_of-unfinished ctx.workspace.id made.store in
      (
        omega (arith, grown, before, after),
        omega (arith, own, after),
        omega (arith, all, after),
        others,
      )

  -- If the stored server-wide selection only names tests of the catalog, then so does the
  -- selection in the row of a run that was started.
  pub Starts-IsSound :
      Starts settings x509 encode resolve parse run_id now ctx db s dirs made
      → IsSound (load_global_selection db)
      → IsSound made.run.config.resolved_test_selection
  unfolding launch
  Starts-IsSound start global =
      let l =
        Starts-Launched settings x509 encode resolve parse run_id now ctx db s dirs made start in
      subst (λ m. IsSound m.run.config.resolved_test_selection) l.made_so
        (resolve_selection-IsSound db l.config.test_selection l.resolved global l.selected)
