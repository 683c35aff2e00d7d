-- ===== src/Library/Certificates.antt =====
-- backend/app/api/ca_certs.py: the saved certificates of a workspace. A handler runs in the context
-- that `active_workspace` resolved. The hexadecimal SHA-256 is a parameter, as are the parsers (see
-- `Certs`); `ids` gives the ids of new rows.
pub mod Import
pub mod Repeat
use mathlib.Core.Option
use ocspcrltesting.Prelude.Text.{take_text}
use ocspcrltesting.Schema.{CaCertificate, Db, column_eq}
use ocspcrltesting.Settings.{Settings}
use ocspcrltesting.Authz.{member, Principal, WorkspaceContext}
use ocspcrltesting.Authz.Access.{authorize_workspace_role}
use ocspcrltesting.Certs.{
  Bytes, Certificate, Parsers, load_certificates_any, read_limited_upload, as_bad_request,
}
use ocspcrltesting.Ssrf.Policy.{from_settings}
use ocspcrltesting.Ssrf.Url.{ParsedUrl, Resolver}
use ocspcrltesting.Ssrf.Fetch.{Request, Response, guarded_fetch}
use ocspcrltesting.Prelude.{
  ℕ, suc, ◌+◌, String, Bool, true, false, not, ◌&&◌, Option, none, some, List, [], ◌∷◌, ◌++◌,
  str_eq, ◌==◌, if◌then◌else◌, is_empty, id_or_none, filter, find?, update, delete, length, any,
  http_error, blocked_target, Error, Result, ok, err, guard, or_raise, scalar_one_or_none, ◌>>=◌,
  ◌>>◌,
}

abbrev pub with_id : ℕ → CaCertificate → Bool
with_id id c = c.id == id

abbrev pub has_fingerprint : ℕ → String → CaCertificate → Bool
has_fingerprint workspace_id fingerprint c =
    column_eq c.workspace_id workspace_id && str_eq c.fingerprint_sha256 fingerprint

-- CACertImportResult
pub record ImportResult : Type 0 where
  pub created : List CaCertificate
  pub skipped_duplicates : ℕ

abbrev pub add_certificate : CaCertificate → Db → Db
add_certificate row db = record db { certificates = db.certificates ++ row ∷ [] }

-- WELL_KNOWN_CAS
abbrev well_known_urls : List String
well_known_urls =
    "http://repo.fpki.gov/fcpca/fcpcag2.crt" ∷ "http://repo.fpki.gov/bridge/fbcag4.crt"
    ∷ "http://repo.fpki.gov/bridge/caCertsIssuedByfbcag4.p7c" ∷ []

abbrev pub is_ca : Certificate → Bool
is_ca cert = elim cert.basic_constraints_ca [ none ↦ false | some ca ↦ ca ]

unfoldable pub get_in_ws_or_404 : Db → ℕ → ℕ → Result CaCertificate
get_in_ws_or_404 db cert_id workspace_id = do
  row ← or_raise (find? (with_id cert_id) db.certificates) (http_error 404)
  guard (column_eq row.workspace_id workspace_id) (http_error 404)
  ok row

unfoldable pub list_ca_certs : WorkspaceContext → Db → List CaCertificate
list_ca_certs ctx db = filter (λ c. column_eq c.workspace_id ctx.workspace.id) db.certificates

module _ (sha256_hex : Bytes → String) where
  abbrev pub display_name : Certificate → String
  display_name cert = elim cert.common_names [
    | [] ↦ take_text 200 cert.subject
    | cn ∷ cns ↦ take_text 200 cn
  ]

  -- The given name is for a single certificate.
  abbrev pub entry_name : Option String → Bool → Certificate → String
  entry_name none single cert = display_name cert
  entry_name (some name) single cert =
      if not (is_empty name) && single then name else display_name cert

  abbrev pub new_row :
      ℕ
      → WorkspaceContext
      → Option String
      → Bool
      → String
      → Option String
      → Certificate
      → CaCertificate
  new_row new_id ctx name single source source_url cert = record {
    id = new_id;
    workspace_id = some ctx.workspace.id;
    created_by_user_id = id_or_none ctx.principal.user.id;
    name = entry_name name single cert;
    pem = cert.pem_text;
    subject = cert.subject;
    issuer = cert.issuer;
    serial_number = cert.serial_number;
    fingerprint_sha256 = sha256_hex cert.der;
    not_before = cert.not_valid_before;
    not_after = cert.not_valid_after;
    is_ca = is_ca cert;
    source = source;
    source_url = source_url;
  }

  module _ (ctx : WorkspaceContext) (name : Option String) (single : Bool) (source : String)
      (source_url : Option String) (ids : ℕ → ℕ) where
    abbrev found_or_new :
        Certificate
        → ℕ
        → Db
        → (ℕ → Db → Result (ImportResult × Db))
        → Option CaCertificate
        → Result (ImportResult × Db)
    found_or_new cert n db next (some existing) = do
      rest ← next n db
      ok (record rest.0 { skipped_duplicates = suc rest.0.skipped_duplicates }, rest.1)
    found_or_new cert n db next none = do
      let row = new_row (ids n) ctx name single source source_url cert
      rest ← next (suc n) (add_certificate row db)
      ok (record rest.0 { created = row ∷ rest.0.created }, rest.1)

    -- The loop; `n` rows were created before.
    unfoldable pub import_loop : List Certificate → ℕ → Db → Result (ImportResult × Db)
    import_loop [] n db = ok (record { created = []; skipped_duplicates = 0 }, db)
    import_loop (cert ∷ certs) n db = do
      existing ←
          scalar_one_or_none
            (filter (has_fingerprint ctx.workspace.id (sha256_hex cert.der)) db.certificates)
      found_or_new cert n db (import_loop certs) existing

  unfoldable pub import_certificates :
      (ℕ → ℕ)
      → WorkspaceContext
      → List Certificate
      → Option String
      → String
      → Option String
      → Db
      → Result (ImportResult × Db)
  import_certificates ids ctx certs name source source_url db =
      import_loop ctx name (length certs == 1) source source_url ids certs 0 db

  unfoldable pub upload_ca_cert :
      Settings
      → Parsers
      → (ℕ → ℕ)
      → Bytes
      → Option String
      → WorkspaceContext
      → Db
      → Result (ImportResult × Db)
  upload_ca_cert settings x509 ids file name ctx db = do
    content ← read_limited_upload settings file
    certs ← as_bad_request (load_certificates_any x509 content)
    import_certificates ids ctx certs name "upload" none db

  -- A blocked target is refused with 403, any other failure with 502.
  abbrev pub fetched : Result Bytes → Result Bytes
  fetched (ok content) = ok content
  fetched (err blocked_target) = err (http_error 403)
  fetched (err e) = err (http_error 502)

  abbrev source_of : String → String
  source_of url = if any (str_eq url) well_known_urls then "well-known" else "url"

  -- `parse` is urlparse. MAX_FETCH_BYTES is 2 MB, and `guarded_fetch` follows 5 redirects.
  unfoldable pub fetch_ca_cert :
      Settings
      → Parsers
      → (String → ParsedUrl)
      → (ℕ → Resolver)
      → (ℕ → Request → Response)
      → (ParsedUrl → String → ParsedUrl)
      → (ℕ → ℕ)
      → String
      → Option String
      → WorkspaceContext
      → Db
      → Result (ImportResult × Db)
  fetch_ca_cert settings x509 parse resolve get join ids url name ctx db = do
    let (answer, trace) =
        guarded_fetch resolve get join (from_settings settings) 2097152 5 (parse url)
    content ← fetched answer
    certs ← as_bad_request (load_certificates_any x509 content)
    import_certificates ids ctx certs name (source_of url) (some url) db

abbrev pub share_or_skip :
    ℕ
    → WorkspaceContext
    → CaCertificate
    → WorkspaceContext
    → Db
    → Option CaCertificate
    → ImportResult × Db
share_or_skip new_id ctx row target db (some existing) =
    (record { created = []; skipped_duplicates = 1 }, db)
share_or_skip new_id ctx row target db none =
    let copy = record row {
      id = new_id;
      workspace_id = some target.workspace.id;
      created_by_user_id = id_or_none ctx.principal.user.id;
    } in
    (record { created = copy ∷ []; skipped_duplicates = 0 }, add_certificate copy db)

unfoldable pub share_ca_cert : ℕ → ℕ → ℕ → WorkspaceContext → Db → Result (ImportResult × Db)
share_ca_cert cert_id target_workspace_id new_id ctx db = do
  row ← get_in_ws_or_404 db cert_id ctx.workspace.id
  guard (not (target_workspace_id == ctx.workspace.id)) (http_error 400)
  target ← authorize_workspace_role db ctx.principal target_workspace_id member
  existing ←
      scalar_one_or_none
        (filter (has_fingerprint target.workspace.id row.fingerprint_sha256) db.certificates)
  ok (share_or_skip new_id ctx row target db existing)

unfoldable pub rename_ca_cert : ℕ → String → WorkspaceContext → Db → Result (CaCertificate × Db)
rename_ca_cert cert_id name ctx db = do
  row ← get_in_ws_or_404 db cert_id ctx.workspace.id
  ok (
    record row { name = name },
    record db {
      certificates = update (with_id cert_id) (λ c. record c { name = name }) db.certificates;
    },
  )

unfoldable pub delete_ca_cert : ℕ → WorkspaceContext → Db → Result Db
delete_ca_cert cert_id ctx db = do
  row ← get_in_ws_or_404 db cert_id ctx.workspace.id
  ok (record db { certificates = delete (with_id cert_id) db.certificates })
