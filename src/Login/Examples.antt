-- ===== src/Login/Examples.antt =====
-- The login at concrete times.
use ocspcrltesting.Schema.{User, Db}
use ocspcrltesting.Settings.{Settings}
use ocspcrltesting.Login.Oidc.{States, Claims, oidc_callback}
use ocspcrltesting.Login.Oidc.States.{oidc_callback_once}
use ocspcrltesting.Login.{Failures, rate_limited, local_login, LoginState}
use ocspcrltesting.Login.Limits.{
  failures_at, Welcomed, record_failure-limited, local_login-Welcomed,
}
use ocspcrltesting.Samples.{alice, db, settings}
use ocspcrltesting.Prelude.{
  ℕ, err, http_error, String, ◌≡◌, refl, Bool, true, Option, none, some, [], ◌∷◌, Result, arith,
  str_eq,
}

abbrev nobody : Failures
nobody key = none

record_failure-limited_example :
    rate_limited (failures_at nobody "k" (1000 ∷ 2000 ∷ 3000 ∷ 4000 ∷ 5000 ∷ [])) "k" 6000 ≡ true
record_failure-limited_example =
    record_failure-limited nobody "k" 1000 6000 (2000 ∷ 3000 ∷ 4000 ∷ 5000 ∷ []) (omega arith) refl
      (
        omega arith,
        omega arith,
        (omega arith, omega arith, (omega arith, omega arith, (omega arith, omega arith, tt))),
      )
      (omega arith) (omega arith)

abbrev verify : String → Option String → Bool
verify password hash = str_eq password "sesame"

abbrev outcome : Result User × LoginState
outcome = local_login verify settings "alice" "sesame" "ip:alice" 6000 12 (nobody, db)

local_login-Welcomed_example :
    Welcomed verify settings "alice" "sesame" "ip:alice" 6000
      (nobody, db)
      outcome.1
      (record alice { last_login_at = some 12 })
unfolding local_login rate_limited
local_login-Welcomed_example =
    local_login-Welcomed verify settings "alice" "sesame" "ip:alice" 6000 12 (nobody, db) outcome.1
      (record alice { last_login_at = some 12 }) refl

abbrev with_oidc : Settings
with_oidc = record settings {
  oidc_issuer = "https://id.example";
  oidc_client_id = "ocsp";
  oidc_client_secret = "s";
}

abbrev claims : Claims
claims = record { sub = some "erin"; email = none; name = some "Erin"; groups = "staff" ∷ [] }

abbrev callback : ℕ → States → Db → Result User × (States × Db)
callback now states d = oidc_callback with_oidc (some claims) 12 13 now 14 "abc" states d

abbrev first_callback : Result User × (States × Db)
first_callback = callback 5000 (("abc", 1000) ∷ []) db

oidc_callback_once_example :
    ((callback 6000 first_callback.1.0 first_callback.1.1).0 ≡ err (http_error 400))
    × ((callback 6000 first_callback.1.0 first_callback.1.1).1.1 ≡ first_callback.1.1)
unfolding ocspcrltesting.Settings.oidc_enabled
oidc_callback_once_example =
    oidc_callback_once with_oidc (some claims) (some claims) 12 13 5000 14 12 13 6000 14 "abc"
      (("abc", 1000) ∷ []) db refl
