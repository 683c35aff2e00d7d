-- ===== src/Library/Examples.antt =====
-- Profiles and certificates at concrete values: alice is an admin of the team's workspace and of a
-- second one.
use ocspcrltesting.Schema.{Profile, Workspace, Db}
use ocspcrltesting.Authz.{admin, WorkspaceContext}
use ocspcrltesting.Certs.{Bytes, Certificate}
use ocspcrltesting.Library.Profiles.{ProfileIn, create_profile, share_profile, with_id, is_named}
use ocspcrltesting.Library.Profiles.Names.{HasUniqueNames}
use ocspcrltesting.Library.Profiles.Changes.{created, Change-HasUniqueNames}
use ocspcrltesting.Library.Certificates.{
  ImportResult, has_fingerprint, import_certificates, with_id as cert_with_id,
}
use ocspcrltesting.Library.Certificates.Import.{IsFresh, HasUniqueFingerprints}
use ocspcrltesting.Library.Certificates.Repeat.{import_certificates_again}
use ocspcrltesting.Samples.{
  alice, team, db, config, profile, root_ca, has_role, signed_in, value_or,
}
use ocspcrltesting.Prelude.{
  ℕ, ◌+◌, ◌≤◌, String, ◌≡◌, refl, true, Bool, none, some, [], ◌∷◌, arith, count, ok,
}

abbrev guild : Workspace
guild = record team { id = 8; name = "guild" }

abbrev two_teams : Db
two_teams = record db {
  workspaces = team ∷ guild ∷ [];
  members =
      has_role 1 "admin" "manual" ∷ record (has_role 1 "admin" "manual") { workspace_id = 8 } ∷ [];
}

abbrev as_alice : WorkspaceContext
as_alice = record { workspace = team; principal = signed_in alice; role = admin }

abbrev weekly : ProfileIn
weekly = record { name = "weekly"; description = none; config = config }

abbrev made : Profile × Db
made = value_or (create_profile weekly 21 60 as_alice db) (profile, db)

one_at_most {ℓ} : {A : Type ℓ} (p : A → Bool) (x : A) → count p (x ∷ []) ≤ 1
one_at_most p x = ground arith

unique_names : HasUniqueNames db
unique_names = (λ id. one_at_most (with_id id) profile, λ w n. one_at_most (is_named w n) profile)

Change-HasUniqueNames_example : HasUniqueNames made.1
unfolding create_profile ocspcrltesting.Library.Profiles.check_name_free
Change-HasUniqueNames_example =
    Change-HasUniqueNames (created weekly 21 60 as_alice db made.1 made.0 refl refl) unique_names

abbrev shared_copy : Profile × Db
shared_copy = value_or (share_profile 20 8 22 61 as_alice two_teams) (profile, db)

abbrev bridge : Certificate
bridge = record {
  der = 48 ∷ 3 ∷ [];
  pem = 45 ∷ [];
  pem_text = "-";
  common_names = "Bridge CA" ∷ [];
  subject = "CN=Bridge CA";
  issuer = "CN=Root CA";
  serial_number = "0x2";
  not_valid_before = 1;
  not_valid_after = 900;
  basic_constraints_ca = some true;
}

abbrev hex : Bytes → String
hex content = "cd34"

abbrev next_ids : ℕ → ℕ
next_ids n = 31 + n

abbrev imported : ImportResult × Db
imported =
    value_or
      (import_certificates hex next_ids as_alice (bridge ∷ bridge ∷ []) none "upload" none db)
      (record { created = []; skipped_duplicates = 0 }, db)

next_ids-IsFresh : IsFresh next_ids 0 db
next_ids-IsFresh = (λ m h. ground arith, λ m k e. omega (arith, e))

unique_fingerprints : HasUniqueFingerprints db
unique_fingerprints =
    (λ id. one_at_most (cert_with_id id) root_ca, λ w f. one_at_most (has_fingerprint w f) root_ca)

import_certificates_again_example :
    import_certificates hex
      (λ n. 40 + n)
      as_alice
      (bridge ∷ bridge ∷ [])
      (some "Bridge")
      "url"
      (some "http://ca.example")
      imported.1
    ≡ ok (record { created = []; skipped_duplicates = 2 }, imported.1)
unfolding import_certificates ocspcrltesting.Library.Certificates.import_loop
import_certificates_again_example =
    import_certificates_again hex next_ids (λ n. 40 + n) as_alice (bridge ∷ bridge ∷ []) none
      (some "Bridge") "upload" "url" none (some "http://ca.example") db imported.1 imported.0 refl
      next_ids-IsFresh unique_fingerprints
