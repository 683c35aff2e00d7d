-- ===== src/Schemas.antt =====
-- backend/app/schemas.py: a run's configuration, and the checks that a received one passes. Texts that
-- the source restricts to a few values are texts here, checked by `model_validate`; numbers below 0, which
-- the checks refuse as well, do not occur.
use Prim.Native.Char.{code}
use Prim.Native.String as Text
use ocspcrltesting.Prelude.Text.{lower_code}
use ocspcrltesting.Prelude.{
  ℕ, suc, String, Bool, true, false, ◌&&◌, ◌||◌, Option, none, some, List, [], ◌∷◌, str_eq, leb,
  ◌==◌, if◌then◌else◌, length, filter, any, value_error, Result, ok, err,
}

abbrev pub all {ℓ} : {A : Type ℓ} → (A → Bool) → List A → Bool
all p [] = true
all p (x ∷ xs) = p x && all p xs

pub record Categories : Type 0 where
  pub protocol : Bool
  pub status : Bool
  pub crl : Bool
  pub path_validation : Bool
  pub ikev2 : Bool
  pub federal : Bool
  pub performance : Bool
  pub security : Bool

-- CATEGORY_KEYS
abbrev pub category_keys : List String
category_keys =
    "protocol" ∷ "status" ∷ "crl" ∷ "path_validation" ∷ "ikev2" ∷ "federal" ∷ "performance"
    ∷ "security" ∷ []

-- The value of the field with that name.
unfoldable pub is_on : Categories → String → Bool
is_on c key =
    if str_eq key "protocol"
    then c.protocol
    else if str_eq key "status"
    then c.status
    else if str_eq key "crl"
    then c.crl
    else if str_eq key "path_validation"
    then c.path_validation
    else if str_eq key "ikev2"
    then c.ikev2
    else if str_eq key "federal"
    then c.federal
    else if str_eq key "performance"
    then c.performance
    else c.security

unfoldable pub enabled : Categories → List String
enabled c = filter (is_on c) category_keys

-- A dictionary from categories to names of tests.
abbrev pub Selection : Type 0
Selection = List (String × List String)

pub record TestSelection : Type 0 where
  pub mode : String
  pub tests : Selection

pub record RunConfig : Type 0 where
  pub name : Option String
  pub ocsp_url : String
  pub crl_urls : List String
  pub request_method : String
  pub nonce_enabled : Bool
  pub nonce_length : ℕ
  pub latency_samples : ℕ
  pub enable_load_test : Bool
  pub load_concurrency : ℕ
  pub load_requests : ℕ
  pub timeout_seconds : ℕ
  pub run_timeout_seconds : ℕ
  pub max_age_hours : ℕ
  pub trust_anchor_type : String
  pub require_explicit_policy : Bool
  pub inhibit_policy_mapping : Bool
  pub categories : Categories
  pub test_selection : TestSelection
  pub saved_certs : List (String × ℕ)
  pub profile_id : Option ℕ

-- Field(ge=…, le=…)
abbrev pub between : ℕ → ℕ → ℕ → Bool
between low high n = leb low n && leb n high

unfoldable pub text_length : String → ℕ
text_length Text.[] = 0
text_length (Text.◌∷◌ c s) = suc (text_length s)

abbrev pub one_of : List String → String → Bool
one_of values s = any (λ v. str_eq s v) values

-- s.lower().startswith(prefix), for a prefix in lower case.
unfoldable pub starts_with_lower : String → String → Bool
unfolding lower_code
starts_with_lower s Text.[] = true
starts_with_lower Text.[] (Text.◌∷◌ d t) = false
starts_with_lower (Text.◌∷◌ c s) (Text.◌∷◌ d t) =
    let rest = starts_with_lower s t in lower_code c == code d && rest

-- _must_be_http
abbrev pub must_be_http : String → Bool
must_be_http url = starts_with_lower url "http://" || starts_with_lower url "https://"

-- _saved_cert_slots
abbrev pub is_saved_slot : String → Bool
is_saved_slot =
    one_of ("issuer_cert" ∷ "good_cert" ∷ "revoked_cert" ∷ "unknown_ca_cert" ∷ "trust_anchor" ∷ [])

abbrev pub short_name : Option String → Bool
short_name none = true
short_name (some s) = leb (text_length s) 200

abbrev pub numbers_in_range : RunConfig → Bool
numbers_in_range c =
    between 1 128 c.nonce_length
    && between 1 100 c.latency_samples
    && between 1 64 c.load_concurrency
    && between 1 2000 c.load_requests
    && between 1 120 c.timeout_seconds
    && between 30 7200 c.run_timeout_seconds
    && between 1 8760 c.max_age_hours

abbrev pub texts_in_range : RunConfig → Bool
texts_in_range c =
    short_name c.name
    && between 1 2000 (text_length c.ocsp_url)
    && leb (length c.crl_urls) 10
    && one_of ("auto" ∷ "get" ∷ "post" ∷ []) c.request_method
    && one_of ("root" ∷ "intermediate" ∷ []) c.trust_anchor_type
    && one_of ("all" ∷ "global" ∷ "custom" ∷ []) c.test_selection.mode

unfoldable pub model_validate : RunConfig → Result RunConfig
model_validate c =
    if numbers_in_range c
      && texts_in_range c
      && must_be_http c.ocsp_url
      && all must_be_http c.crl_urls
      && all (λ saved. is_saved_slot saved.0) c.saved_certs
    then ok c
    else err value_error
