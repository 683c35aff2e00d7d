-- ===== src/Engine/Runner/Complete.antt =====
-- What the results of a run of all tests hold of its suites.
use mathlib.Core.List.{append_assoc, append-nil}
use ocspcrltesting.Engine.Runner.{
  Outcome, TestCaseResult, Suite, TestCategories, is_enabled, Certs, outcome_results, run_suites,
}
use ocspcrltesting.Prelude.{
  String, ◌≡◌, ◌∙◌, refl, sym, List, [], ◌∷◌, ◌++◌, if◌then◌else◌, Bool-cases, inl, inr, filter,
}

module _ {Cert : Type 0} (uuid : String → String) (parse_scheme : String → String)
    (load : String → Outcome Cert)
    (suites : Suite → Certs uuid parse_scheme load → Outcome (List TestCaseResult)) where
  abbrev pub all_outcomes : Certs uuid parse_scheme load → List Suite → List TestCaseResult
  all_outcomes certs [] = []
  all_outcomes certs (suite ∷ rest) =
      outcome_results uuid parse_scheme load suites suite (suites suite certs)
      ++ all_outcomes certs rest

  -- The suites add to the results what each enabled one of them returns, or one result that reports its
  -- exception, in their order: no exception of a suite loses the results of another.
  pub run_suites_complete :
      (categories : TestCategories) (certs : Certs uuid parse_scheme load) (order : List Suite)
      (results : List TestCaseResult)
      → run_suites uuid parse_scheme load suites categories certs order results
        ≡ results ++ all_outcomes certs (filter (is_enabled categories) order)
  unfolding run_suites
  run_suites_complete categories certs [] results = sym (append-nil results)
  run_suites_complete categories certs (suite ∷ rest) results =
      run_suites_complete categories certs rest _ ∙ added
    where
      added :
          (if is_enabled categories suite
              then results
                ++ outcome_results uuid parse_scheme load suites suite (suites suite certs)
              else results)
            ++ all_outcomes certs (filter (is_enabled categories) rest)
          ≡ results ++ all_outcomes certs (filter (is_enabled categories) (suite ∷ rest))
      added = elim (Bool-cases (is_enabled categories suite)) [
        | inl e ↦ rw e (append_assoc results _ _)
        | inr e ↦ rw e refl
      ]
