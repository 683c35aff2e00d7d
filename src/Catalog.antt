-- ===== src/Catalog.antt =====
-- backend/app/test_catalog.py: the catalog of the tests, and the check of a selection against it.
pub mod Examples
pub mod Known
pub mod Selected
pub mod Stored
use ocspcrltesting.Schemas.{Selection}
use ocspcrltesting.Prelude.{
  String, Bool, true, false, Option, none, some, List, [], ◌∷◌, map, str_eq, if◌then◌else◌, any,
}

pub record CatalogTest : Type 0 where
  pub name : String
  pub description : String
  pub is_dynamic : Bool
  pub scope : String

-- _t
abbrev test : String → String → Bool → String → CatalogTest
test name description is_dynamic scope = record {
  name = name;
  description = description;
  is_dynamic = is_dynamic;
  scope = scope;
}

abbrev ocsp : String → String → CatalogTest
ocsp name description = test name description false "ocsp"

abbrev protocol_tests : List CatalogTest
protocol_tests =
    ocsp "HTTP GET transport" "Responder accepts RFC 6960 base64 GET requests"
    ∷ ocsp "HTTP POST transport" "Responder accepts DER POST requests"
    ∷ ocsp "DER encoding and basic response fields"
        "Response parses as DER with version, producedAt, responderID and signature algorithm present"
    ∷ ocsp "CertID SHA-1 for issuer hashes" "Responder accepts SHA-1 CertID hashes"
    ∷ ocsp "Serial number handling" "Serial number formats are handled consistently"
    ∷ []

abbrev status_tests : List CatalogTest
status_tests =
    ocsp "Known valid certificate returns good" "Known-good leaf is reported as good"
    ∷ ocsp "Known revoked certificate returns revoked" "Known-revoked leaf is reported as revoked"
    ∷ ocsp "Unknown CA returns unknown"
        "Certificate from an unknown CA is reported unknown/unauthorized"
    ∷ ocsp "Non-issued certificate handling"
        "Never-issued serial is not reported good (RFC 6960 §2.2)"
    ∷ ocsp "thisUpdate/nextUpdate/producedAt present and plausible"
        "Response time fields are present, ordered and current"
    ∷ []

abbrev crl_tests : List CatalogTest
crl_tests =
    ocsp "OCSP response signature validation" "OCSP response signature verifies against the issuer"
    ∷ ocsp "Signature algorithm validation" "Response signature algorithm is acceptable"
    ∷ ocsp "Response timestamp validation" "Response timestamps are internally consistent"
    ∷ test "CRL Distribution Point extraction from certificate"
        "CDP URLs can be extracted from the certificate under test" false "crl"
    ∷ test "CRL download and parsing from certificate CRL Distribution Points"
        "CRLs referenced by the certificate download and parse" false "crl"
    ∷ test "CRL Distribution Point accessibility" "Each CDP URL is reachable" false "crl"
    ∷ test "CRL signature verification" "Downloaded CRL signature verifies against the issuer" false
        "crl"
    ∷ test "CRL timestamp validation" "CRL thisUpdate/nextUpdate are present and current" false
        "crl"
    ∷ test "Certificate revocation status check"
        "Certificate serial checked against the CRL entries" false "crl"
    ∷ test "CRL vs OCSP consistency check" "CRL and OCSP agree on revocation status" false
        "crl+ocsp"
    ∷ test "Fetch and parse CRL" "Fetch/parse checks for each explicitly supplied CRL URL" true
        "crl"
    ∷ []

abbrev path_validation_tests : List CatalogTest
path_validation_tests =
    test "Valid Path (Success): End-entity -> Intermediate CA -> Trusted Root"
      "Baseline chain builds and validates to the trust anchor" false "path"
    ∷ test "Invalid Signature (EE): EE certificate's signature cannot be verified"
        "Tampered end-entity signature is rejected" false "path"
    ∷ test "Invalid Signature (Intermediate): Intermediate CA certificate's signature is invalid"
        "Tampered intermediate signature is rejected" false "path"
    ∷ test
        "Issuer/Subject Mismatch: The Issuer DN of the child cert does not match the Subject DN of the parent cert"
        "Broken issuer/subject chaining is rejected" false "path"
    ∷ test "notAfter Expired (EE): Validation time after EE certificate's notAfter"
        "Expired end-entity certificate is rejected" false "path"
    ∷ test "Revocation Status Expired: CRL has expired (nextUpdate in past)"
        "Stale CRL is not accepted as current revocation data" false "crl"
    ∷ test "Revoked (EE) in Fresh CRL: EE serial number on most recent CRL"
        "Revoked end-entity via CRL is rejected" false "crl"
    ∷ ocsp "Revoked (EE) by OCSP: OCSP response is revoked status"
        "Revoked end-entity via OCSP is rejected"
    ∷ test "Basic Constraints Violation: Intermediate CA cert has cA = false"
        "Non-CA intermediate is rejected" false "path"
    ∷ test "Path Length Constraint Violation: Path exceeds pathLenConstraint"
        "pathLenConstraint violations are rejected" false "path"
    ∷ test "Successful Policy Mapping: Path requires Policy A; CA maps A → B; EE asserts B"
        "Policy mapping across a bridge validates" false "path"
    ∷ test "Required Explicit Policy Violation: CA requires explicit policy, EE contains anyPolicy"
        "requireExplicitPolicy violations are rejected" false "path"
    ∷ []

abbrev ikev2_tests : List CatalogTest
ikev2_tests =
    test "OCSP Content extension (type 14) support" "RFC 4806 OCSP Content certificate encoding"
      false "ikev2"
    ∷ test "CERTREQ with encoding 14 elicits CERT with OCSP"
        "Responder participates in IKEv2 OCSP exchange" false "ikev2"
    ∷ test "Trusted responder identification" "Trusted responder configuration is identified" false
        "ikev2"
    ∷ test "Configuration mapping (request/reply/both)"
        "IKEv2 OCSP request/reply configuration mapping" false "ikev2"
    ∷ []

abbrev federal_tests : List CatalogTest
federal_tests =
    ocsp "Federal PKI environment detection"
      "Detect Federal PKI agency/CA indicators in the response"
    ∷ ocsp "Batch OCSP response handling (DHS CA4 style)"
        "Multi-certificate batch responses are parsed"
    ∷ ocsp "OCSP signer signature verification (trust chain)"
        "Response signature verifies via a built trust chain"
    ∷ ocsp "Delegated responder EKU (id-kp-OCSPSigning)"
        "Delegated responder certificate carries the OCSP signing EKU"
    ∷ ocsp "Response validity interval (freshness)"
        "thisUpdate/nextUpdate meet FPKI freshness expectations"
    ∷ []

abbrev performance_tests : List CatalogTest
performance_tests =
    ocsp "Latency baseline" "Sampled request latency (median/min/max)"
    ∷ ocsp "Load test" "Concurrent request load test (when enabled)"
    ∷ ocsp "Caching behavior observation" "Cache-related response header observation"
    ∷ []

abbrev security_tests : List CatalogTest
security_tests =
    ocsp "Malformed request rejected" "Garbage request bodies are rejected cleanly"
    ∷ ocsp "Operational error signaling" "tryLater/internalError signalling behaves correctly"
    ∷ ocsp "Unauthorized query handling" "Queries outside the responder's scope are answered safely"
    ∷ ocsp "sigRequired when unsigned" "Responder policy on unsigned requests"
    ∷ ocsp "Nonce echo in response" "RFC 9654 nonce is echoed back"
    ∷ ocsp "Signature algorithm present and response SUCCESSFUL"
        "Response is signed with an identified algorithm"
    ∷ ocsp "Cryptographic preference negotiation" "Responder honours requested hash preferences"
    ∷ []

abbrev pub test_catalog : List (String × List CatalogTest)
test_catalog =
    ("protocol", protocol_tests)
    ∷ ("status", status_tests)
    ∷ ("crl", crl_tests)
    ∷ ("path_validation", path_validation_tests)
    ∷ ("ikev2", ikev2_tests)
    ∷ ("federal", federal_tests)
    ∷ ("performance", performance_tests)
    ∷ ("security", security_tests)
    ∷ []

-- TEST_CATALOG.get(category)
abbrev pub lookup_key {ℓ} : {A : Type ℓ} → String → List (String × A) → Option A
lookup_key key [] = none
lookup_key key ((k, a) ∷ rest) =
    let later = lookup_key key rest in if str_eq k key then some a else later

abbrev pub names_of : Option (List CatalogTest) → List String
names_of none = []
names_of (some tests) = map (λ t. t.name) tests

unfoldable pub catalog_names : String → List String
catalog_names category = names_of (lookup_key category test_catalog)

abbrev pub is_in : List String → String → Bool
is_in known name = any (λ k. str_eq name k) known

-- The messages of `validate_selection`.
pub data SelectionError : Type 0 where
  unknown_category : String → SelectionError
  unknown_test : String → String → SelectionError

abbrev pub check_names : String → List String → List String → Option SelectionError
check_names category known [] = none
check_names category known (name ∷ names) =
    let rest = check_names category known names in
    if is_in known name then rest else some (unknown_test category name)

abbrev pub check_category : String → List String → Option (List CatalogTest) → Option SelectionError
check_category category names none = some (unknown_category category)
check_category category names (some tests) = check_names category (map (λ t. t.name) tests) names

abbrev pub first_error : Option SelectionError → Option SelectionError → Option SelectionError
first_error none later = later
first_error (some e) later = some e

unfoldable pub validate_selection : Selection → Option SelectionError
validate_selection [] = none
validate_selection ((category, names) ∷ rest) =
    first_error (check_category category names (lookup_key category test_catalog))
      (validate_selection rest)
