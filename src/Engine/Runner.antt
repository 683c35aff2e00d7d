-- ===== src/Engine/Runner.antt =====
-- ocsp_tester/runner.py: `TestRunner.run_all`, without its log. The test modules are the parameter
-- `suites` and the loading of a certificate file is `load`, where `failed` is an exception's text;
-- `uuid` gives the ids of the results that report errors, and `parse_scheme` is that of `urlparse`.
pub mod Complete
use ocspcrltesting.Prelude.Text.{strip}
use ocspcrltesting.Prelude.{
  String, Bool, true, false, not, ◌&&◌, ◌||◌, Option, none, some, List, [], ◌∷◌, ◌++◌, str_eq,
  if◌then◌else◌, is_empty, get_or,
}

pub data Outcome {ℓ} (A : Type ℓ) : Type ℓ where
  failed : String → Outcome A
  returned : A → Outcome A

pub data TestStatus : Type 0 where
  pass fail warn skip error : TestStatus

pub record TestCaseResult : Type 0 where
  pub id : String
  pub name : String
  pub category : String
  pub status : TestStatus
  pub message : String

-- The inputs that `run_all` reads itself.
pub record TestInputs : Type 0 where
  pub ocsp_url : String
  pub issuer_path : String
  pub known_good_cert_path : Option String
  pub known_revoked_cert_path : Option String
  pub unknown_ca_cert_path : Option String

-- The test modules, in the order of their calls.
pub data Suite : Type 0 where
  protocol status security performance crl crl_comprehensive ikev2 federal path_validation : Suite

abbrev pub suite_order : List Suite
suite_order =
    protocol ∷ status ∷ security ∷ performance ∷ crl ∷ crl_comprehensive ∷ ikev2 ∷ federal
    ∷ path_validation ∷ []

-- A dictionary of switches; None and {} both count as not given.
abbrev pub TestCategories : Type 0
TestCategories = List (String × Bool)

abbrev pub switch : String → Bool → TestCategories → Bool
switch key default [] = default
switch key default ((k, on) ∷ rest) =
    let later = switch key default rest in if str_eq k key then on else later

abbrev pub given : TestCategories → Bool
given [] = false
given (entry ∷ rest) = true

abbrev pub wanted : String → Bool → TestCategories → Bool
wanted key default categories = not (given categories) || switch key default categories

unfoldable pub is_enabled : TestCategories → Suite → Bool
is_enabled categories protocol = wanted "ocsp_tests" true categories
is_enabled categories status = wanted "ocsp_tests" true categories
is_enabled categories security = wanted "ocsp_tests" true categories
is_enabled categories performance = wanted "performance_tests" false categories
is_enabled categories crl = wanted "crl_tests" true categories
is_enabled categories crl_comprehensive = wanted "crl_tests" true categories
is_enabled categories ikev2 = wanted "ikev2_tests" false categories
is_enabled categories federal = given categories && switch "federal_tests" false categories
is_enabled categories path_validation = wanted "path_validation_tests" true categories

-- The category and the name of the result that reports a suite's exception.
unfoldable pub suite_label : Suite → String × String
suite_label protocol = ("Protocol", "Run protocol tests")
suite_label status = ("Status", "Run status tests")
suite_label security = ("Security", "Run security tests")
suite_label performance = ("Performance", "Run performance tests")
suite_label crl = ("CRL", "Run CRL tests")
suite_label crl_comprehensive = ("CRL", "Run comprehensive CRL tests")
suite_label ikev2 = ("IKEv2", "Run IKEv2 tests")
suite_label federal = ("Federal PKI", "Run Federal PKI tests")
suite_label path_validation = ("Path Validation", "Run certificate path validation tests")

-- not text or not text.strip()
abbrev pub is_blank : String → Bool
unfolding strip
is_blank text = is_empty (strip text)

module _ {Cert : Type 0} (uuid : String → String) (parse_scheme : String → String)
    (load : String → Outcome Cert) where
  -- _err
  abbrev pub error_result : String → String → String → TestCaseResult
  error_result category name message = record {
    id = uuid name;
    name = name;
    category = category;
    status = error;
    message = message;
  }

  -- What the suites are run on.
  pub record Certs : Type 0 where
    pub issuer : Cert
    pub good : Option Cert
    pub revoked : Option Cert
    pub unknown_ca : Option Cert

  -- good or revoked or issuer
  abbrev pub sample : Certs → Cert
  sample certs = get_or certs.good (get_or certs.revoked certs.issuer)

  -- An optional file: its certificate, and the result that reports why there is none.
  abbrev pub loaded : String → Outcome Cert → Option Cert × List TestCaseResult
  loaded name (returned cert) = (some cert, [])
  loaded name (failed message) = (none, error_result "Setup" name message ∷ [])

  abbrev pub load_optional : String → Option String → Option Cert × List TestCaseResult
  load_optional name none = (none, [])
  load_optional name (some path) = if is_empty path then (none, []) else loaded name (load path)

  module _ (suites : Suite → Certs → Outcome (List TestCaseResult)) where
    abbrev pub outcome_results : Suite → Outcome (List TestCaseResult) → List TestCaseResult
    outcome_results suite (returned results) = results
    outcome_results suite (failed message) =
        error_result (suite_label suite).0 (suite_label suite).1 message ∷ []

    unfoldable pub run_suites :
        TestCategories → Certs → List Suite → List TestCaseResult → List TestCaseResult
    unfolding is_enabled
    run_suites categories certs [] results = results
    run_suites categories certs (suite ∷ rest) results = run_suites categories certs rest (
        if is_enabled categories suite
        then results ++ outcome_results suite (suites suite certs)
        else results)

    abbrev pub run_with_issuer : TestInputs → TestCategories → Outcome Cert → List TestCaseResult
    run_with_issuer inputs categories (failed message) =
        error_result "Setup" "Load issuer certificate" message ∷ []
    run_with_issuer inputs categories (returned issuer) =
        let (good, good_errors) =
          load_optional "Load known-good certificate" inputs.known_good_cert_path in
        let (revoked, revoked_errors) =
          load_optional "Load known-revoked certificate" inputs.known_revoked_cert_path in
        let (unknown_ca, unknown_errors) =
          load_optional "Load unknown-CA certificate" inputs.unknown_ca_cert_path in
        run_suites categories
          (record { issuer = issuer; good = good; revoked = revoked; unknown_ca = unknown_ca })
          suite_order (good_errors ++ revoked_errors ++ unknown_errors)

    abbrev pub invalid_input : String → List TestCaseResult
    invalid_input message = error_result "Setup" "Validate inputs" message ∷ []

    abbrev pub is_http : String → Bool
    is_http scheme = str_eq scheme "http" || str_eq scheme "https"

    unfoldable pub run_all : TestInputs → TestCategories → List TestCaseResult
    unfolding run_suites
    run_all inputs categories =
        if is_blank inputs.ocsp_url
        then invalid_input "OCSP URL is required"
        else if not (is_http (parse_scheme (strip inputs.ocsp_url)))
        then invalid_input "OCSP URL must be an http(s) URL"
        else if is_blank inputs.issuer_path
        then invalid_input "Issuer certificate path is required"
        else run_with_issuer inputs categories (load inputs.issuer_path)
