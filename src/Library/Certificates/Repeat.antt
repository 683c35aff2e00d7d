-- ===== src/Library/Certificates/Repeat.antt =====
-- An import keeps fingerprints unique, and a second one of the same certificates adds nothing.
use ocspcrltesting.Schema.{Db}
use ocspcrltesting.Authz.{WorkspaceContext}
use ocspcrltesting.Certs.{Bytes, Certificate}
use ocspcrltesting.Library.Certificates.{has_fingerprint, ImportResult, import_certificates}
use ocspcrltesting.Library.Certificates.Import.{
  HasUniqueFingerprints, IsFresh, loop-present, loop-length, loop-HasUniqueFingerprints,
  loop-all_skipped,
}
use ocspcrltesting.Prelude.{
  ℕ, ◌+◌, ◌≤◌, ◌≡◌, String, Option, List, [], ◌∷◌, arith, All, ◌==◌, length, count, ok,
}

-- An import that succeeds, whose new rows get fresh ids, keeps ids and the fingerprints in each
-- workspace unique, and creates a row for each certificate that it does not skip.
pub import_certificates-HasUniqueFingerprints :
    (sha256_hex : Bytes → String) (ids : ℕ → ℕ) (ctx : WorkspaceContext) (certs : List Certificate)
    (name : Option String) (source : String) (source_url : Option String) (db db' : Db)
    (result : ImportResult)
    → import_certificates sha256_hex ids ctx certs name source source_url db ≡ ok (result, db')
    → IsFresh ids 0 db
    → HasUniqueFingerprints db
    → HasUniqueFingerprints db' × (length result.created + result.skipped_duplicates ≡ length certs)
unfolding import_certificates
import_certificates-HasUniqueFingerprints sha256_hex ids ctx certs name source source_url db db'
      result h fresh inv =
    (
      loop-HasUniqueFingerprints sha256_hex ctx name (length certs == 1) source source_url ids certs
          0 db db' result h fresh inv,
      loop-length sha256_hex ctx name (length certs == 1) source source_url ids certs 0 db db'
          result h,
    )

exactly_one :
    (sha256_hex : Bytes → String) (ctx : WorkspaceContext) (db : Db) (certs : List Certificate)
    → HasUniqueFingerprints db
    → All
        (λ cert. 1 ≤ count (has_fingerprint ctx.workspace.id (sha256_hex cert.der)) db.certificates)
        certs
    → All
        (λ cert. count (has_fingerprint ctx.workspace.id (sha256_hex cert.der)) db.certificates ≡ 1)
        certs
exactly_one sha256_hex ctx db [] inv h = tt
exactly_one sha256_hex ctx db (cert ∷ certs) inv h = (
  omega (arith, h.0, inv.1 ctx.workspace.id (sha256_hex cert.der)),
  exactly_one sha256_hex ctx db certs inv h.1,
)

-- Where ids and fingerprints were unique and new ids are fresh, after an import that succeeds,
-- importing the same certificates again into the workspace, under any name and source, skips all
-- of them and changes nothing.
pub import_certificates_again :
    (sha256_hex : Bytes → String) (ids ids' : ℕ → ℕ) (ctx : WorkspaceContext)
    (certs : List Certificate) (name name' : Option String) (source source' : String)
    (source_url source_url' : Option String) (db db' : Db) (result : ImportResult)
    → import_certificates sha256_hex ids ctx certs name source source_url db ≡ ok (result, db')
    → IsFresh ids 0 db
    → HasUniqueFingerprints db
    → import_certificates sha256_hex ids' ctx certs name' source' source_url' db'
      ≡ ok (record { created = []; skipped_duplicates = length certs }, db')
unfolding import_certificates
import_certificates_again sha256_hex ids ids' ctx certs name name' source source' source_url
      source_url' db db' result h fresh inv =
    let single = length certs == 1 in
    let inv' =
      loop-HasUniqueFingerprints sha256_hex ctx name single source source_url ids certs 0 db db'
        result h fresh inv in
    let present =
      loop-present sha256_hex ctx name single source source_url ids certs 0 db db' result h in
    loop-all_skipped sha256_hex ctx name' single source' source_url' ids' certs 0 db'
      (exactly_one sha256_hex ctx db' certs inv' present)
