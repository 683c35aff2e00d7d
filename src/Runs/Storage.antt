-- ===== src/Runs/Storage.antt =====
-- backend/app/storage.py, and the files that backend/app/api/runs.py puts into a run's directory.
-- `str.encode` is the parameter `encode`.
use Prim.Native.String.{◌++◌ as concat}
use ocspcrltesting.Schemas.{RunConfig, Selection}
use ocspcrltesting.Schema.{Db, column_eq}
use ocspcrltesting.Settings.{Settings}
use ocspcrltesting.Authz.{WorkspaceContext}
use ocspcrltesting.Ssrf.Policy.{NetworkPolicy}
use ocspcrltesting.Certs.{
  Bytes, Certificate, Parsers, load_certificate, load_certificate_chain, to_pem,
  validate_private_key_pem, read_limited_upload, as_bad_request,
}
use ocspcrltesting.Library.Certificates.{with_id}
use ocspcrltesting.Prelude.{
  ℕ, String, Bool, true, false, not, Option, none, some, List, [], ◌∷◌, ◌++◌, str_eq, if◌then◌else◌,
  or_text, any, find?, http_error, Result, ok, guard, ◌>>=◌, ◌>>◌, or_raise,
}

pub record Upload : Type 0 where
  pub file : Bytes
  pub filename : Option String

pub record Uploads : Type 0 where
  pub issuer_cert : Option Upload
  pub good_cert : Option Upload
  pub revoked_cert : Option Upload
  pub unknown_ca_cert : Option Upload
  pub trust_anchor : Option Upload
  pub client_cert : Option Upload
  pub client_key : Option Upload

-- A file of the run's directory: its slot, its bytes, and the name that is displayed for it.
pub record StoredFile : Type 0 where
  pub slot : String
  pub content : Bytes
  pub display : String

-- UPLOAD_SLOTS
abbrev pub upload_slots : List String
upload_slots =
    "issuer_cert" ∷ "good_cert" ∷ "revoked_cert" ∷ "unknown_ca_cert" ∷ "trust_anchor"
    ∷ "client_cert" ∷ "client_key" ∷ []

pub record Manifest : Type 0 where
  pub run_id : String
  pub config : RunConfig
  pub resolved_test_selection : Option Selection
  pub files : List String
  pub policy : NetworkPolicy

pub record RunDir : Type 0 where
  pub uploads : List StoredFile
  pub manifest : Option Manifest

-- The directories of the runs, by the run's id.
abbrev pub RunDirs : Type 0
RunDirs = String → Option RunDir

abbrev pub with_dir : String → RunDir → RunDirs → RunDirs
with_dir run_id dir dirs other = if str_eq other run_id then some dir else dirs other

abbrev pub in_slot : String → StoredFile → Bool
in_slot slot f = str_eq f.slot slot

abbrev pub has_slot : String → List StoredFile → Bool
has_slot slot files = any (in_slot slot) files

module _ (settings : Settings) (x509 : Parsers) (encode : String → Bytes) where
  abbrev pub parse_certs : Bool → Bytes → Result (List Certificate)
  parse_certs chain content =
      if chain
      then load_certificate_chain x509 content
      else (do cert ← load_certificate x509 content; ok (cert ∷ []))

  unfoldable pub store_cert :
      String → Option Upload → Bool → List StoredFile → Result (List StoredFile)
  store_cert slot none chain files = ok files
  store_cert slot (some upload) chain files = do
    content ← read_limited_upload settings upload.file
    certs ← as_bad_request (parse_certs chain content)
    ok (
        files
        ++ record { slot = slot; content = to_pem certs; display = or_text upload.filename slot }
          ∷ [])

  unfoldable pub store_key : Option Upload → List StoredFile → Result (List StoredFile)
  store_key none files = ok files
  store_key (some upload) files = do
    content ← read_limited_upload settings upload.file
    as_bad_request (validate_private_key_pem content)
    ok (
        files
        ++ record {
          slot = "client_key";
          content = content;
          display = or_text upload.filename "client_key";
        }
          ∷ [])

  unfoldable pub store_saved_certs :
      WorkspaceContext → Db → List (String × ℕ) → List StoredFile → Result (List StoredFile)
  store_saved_certs ctx db [] files = ok files
  store_saved_certs ctx db ((slot, cert_id) ∷ rest) files = do
    guard (not (has_slot slot files)) (http_error 400)
    saved ← or_raise (find? (with_id cert_id) db.certificates) (http_error 400)
    guard (column_eq saved.workspace_id ctx.workspace.id) (http_error 400)
    store_saved_certs ctx db rest (
        files
        ++ record {
          slot = slot;
          content = encode saved.pem;
          display = concat saved.name " (saved CA)";
        }
          ∷ [])

  unfoldable pub store_files :
      RunConfig → Uploads → WorkspaceContext → Db → Result (List StoredFile)
  store_files config uploads ctx db = do
    f₁ ← store_cert "issuer_cert" uploads.issuer_cert false []
    f₂ ← store_cert "good_cert" uploads.good_cert false f₁
    f₃ ← store_cert "revoked_cert" uploads.revoked_cert false f₂
    f₄ ← store_cert "unknown_ca_cert" uploads.unknown_ca_cert false f₃
    f₅ ← store_cert "trust_anchor" uploads.trust_anchor true f₄
    f₆ ← store_cert "client_cert" uploads.client_cert true f₅
    f₇ ← store_key uploads.client_key f₆
    files ← store_saved_certs ctx db config.saved_certs f₇
    guard (has_slot "issuer_cert" files) (http_error 400)
    ok files

-- The files of the prior run that are copied: those in a known slot that still exist.
unfoldable pub copy_files : List StoredFile → List (String × String) → List StoredFile
copy_files uploads [] = []
copy_files uploads ((slot, display) ∷ rest) =
    let later = copy_files uploads rest in
    if any (str_eq slot) upload_slots
    then elim (find? (in_slot slot) uploads) [
      | none ↦ later
      | some f ↦ record { slot = slot; content = f.content; display = display } ∷ later
    ]
    else later

abbrev pub uploads_of : RunDirs → String → List StoredFile
uploads_of dirs run_id = elim (dirs run_id) [ none ↦ [] | some dir ↦ dir.uploads ]
