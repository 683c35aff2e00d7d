-- ===== src/Worker/Executor/Labels.antt =====
-- backend/app/worker/executor.py: the order and the labels of the categories.
use Prim.Native.String as Text
use Prim.Native.String.{◌++◌ as concat}
use ocspcrltesting.Engine.Selection.{starts_with}
use ocspcrltesting.Prelude.{
  ℕ, zero, suc, ◌+◌, ◌/◌, ◌%◌, ◌==◌, ltb, String, Bool, ◌||◌, List, [], ◌∷◌, str_eq, if◌then◌else◌,
}

-- CATEGORY_ORDER
abbrev pub category_order : List String
category_order =
    "protocol" ∷ "status" ∷ "crl" ∷ "path_validation" ∷ "ikev2" ∷ "federal" ∷ "performance"
    ∷ "security" ∷ []

-- CATEGORY_LABELS
unfoldable pub category_label : String → String
category_label key =
    if str_eq key "protocol"
    then "OCSP protocol tests"
    else if str_eq key "status"
    then "Certificate status tests"
    else if str_eq key "security"
    then "Security & error handling tests (OCSP)"
    else if str_eq key "performance"
    then "Performance tests (OCSP)"
    else if str_eq key "crl"
    then "CRL tests"
    else if str_eq key "ikev2"
    then "IKEv2 tests"
    else if str_eq key "federal"
    then "Federal PKI / Federal Bridge tests"
    else "Certificate path validation tests"

-- label.split(" tests")[0]
unfoldable pub before_tests : String → String
before_tests Text.[] = ""
before_tests (Text.◌∷◌ c s) =
    let rest = before_tests s in if starts_with (Text.◌∷◌ c s) " tests" then "" else Text.◌∷◌ c rest

-- part in text
unfoldable pub has_part : String → String → Bool
has_part part Text.[] = starts_with "" part
has_part part (Text.◌∷◌ c s) = starts_with (Text.◌∷◌ c s) part || has_part part s

-- Key material never enters the log.
unfoldable pub redact : String → String
unfolding has_part
redact message =
    if has_part "PRIVATE KEY" message then "[REDACTED: private key material]" else message

-- ", ".join(…)
unfoldable pub join : List String → String
join [] = ""
join (s ∷ []) = s
join (s ∷ t ∷ ts) = concat s (concat ", " (join (t ∷ ts)))

abbrev digit : ℕ → String
digit n =
    if n == 0
    then "0"
    else if n == 1
    then "1"
    else if n == 2
    then "2"
    else if n == 3
    then "3"
    else if n == 4
    then "4"
    else if n == 5
    then "5"
    else if n == 6
    then "6"
    else if n == 7
    then "7"
    else if n == 8
    then "8"
    else "9"

unfoldable pub digits : ℕ → ℕ → String
digits zero n = ""
digits (suc fuel) n =
    let higher = digits fuel (n / 10) in concat (if ltb n 10 then "" else higher) (digit (n % 10))

-- str(n): a number above 0 has no more digits than it counts.
unfoldable pub str : ℕ → String
unfolding digits
str n = digits (n + 1) n
