-- ===== src/Certs.antt =====
-- backend/app/certs.py and `read_limited_upload` of backend/app/api/certs.py: what an uploaded file
-- must be. Bytes are numbers. The parsers of the cryptography and asn1crypto packages are the fields
-- of `Parsers`, where `none` is their exception, and a certificate is what those packages answer
-- about it.
pub mod Accepted
use ocspcrltesting.Settings.{Settings}
use ocspcrltesting.Prelude.{
  ℕ, ◌+◌, String, Bool, true, false, not, ◌&&◌, ◌||◌, Option, none, some, List, [], ◌∷◌, ◌++◌, ltb,
  leb, ◌==◌, if◌then◌else◌, length, take, Error, http_error, value_error, Result, ok, err, guard,
  ◌>>=◌, ◌>>◌,
}

abbrev pub Bytes : Type 0
Bytes = List ℕ

pub record Certificate : Type 0 where
  pub der : Bytes
  pub pem : Bytes
  pub pem_text : String
  pub common_names : List String
  pub subject : String
  pub issuer : String
  pub serial_number : String
  pub not_valid_before : ℕ
  pub not_valid_after : ℕ
  pub basic_constraints_ca : Option Bool

pub record Parsers : Type 0 where
  pub load_pem : Bytes → Option Certificate
  pub load_der : Bytes → Option Certificate
  pub load_pem_bundle : Bytes → Option (List Certificate)
  pub load_pkcs7 : Bytes → Option (List Certificate)

abbrev is_blank_byte : ℕ → Bool
is_blank_byte b = b == 32 || (leb 9 b && leb b 13)

-- not data.strip()
unfoldable pub is_blank : Bytes → Bool
is_blank [] = true
is_blank (b ∷ bs) = is_blank_byte b && is_blank bs

unfoldable pub begins_with : Bytes → Bytes → Bool
begins_with content [] = true
begins_with [] (p ∷ ps) = false
begins_with (b ∷ bs) (p ∷ ps) = let rest = begins_with bs ps in b == p && rest

-- part in data
unfoldable pub contains : Bytes → Bytes → Bool
unfolding begins_with
contains part [] = begins_with [] part
contains part (b ∷ bs) = begins_with (b ∷ bs) part || contains part bs

-- b"PRIVATE KEY"
abbrev pub private_key : Bytes
private_key = 80 ∷ 82 ∷ 73 ∷ 86 ∷ 65 ∷ 84 ∷ 69 ∷ 32 ∷ 75 ∷ 69 ∷ 89 ∷ []

-- b"BEGIN CERTIFICATE"
abbrev pub begin_certificate : Bytes
begin_certificate =
    66 ∷ 69 ∷ 71 ∷ 73 ∷ 78 ∷ 32 ∷ 67 ∷ 69 ∷ 82 ∷ 84 ∷ 73 ∷ 70 ∷ 73 ∷ 67 ∷ 65 ∷ 84 ∷ 69 ∷ []

-- A `CertificateError` is a `ValueError`.
abbrev or_der : Option Certificate → Option Certificate → Result Certificate
or_der (some cert) der = ok cert
or_der none (some cert) = ok cert
or_der none none = err value_error

abbrev non_empty : Option (List Certificate) → Result (List Certificate)
non_empty none = err value_error
non_empty (some []) = err value_error
non_empty (some (c ∷ cs)) = ok (c ∷ cs)

-- try: … except CertificateError: …
abbrev or_else : Result (List Certificate) → Result (List Certificate) → Result (List Certificate)
or_else (ok certs) other = ok certs
or_else (err e) other = other

module _ (x509 : Parsers) where
  unfoldable pub load_certificate : Bytes → Result Certificate
  unfolding is_blank contains
  load_certificate content = do
    guard (not (is_blank content)) value_error
    guard (not (contains private_key content)) value_error
    or_der (x509.load_pem content) (x509.load_der content)

  unfoldable pub load_certificate_chain : Bytes → Result (List Certificate)
  unfolding is_blank contains
  load_certificate_chain content = do
    guard (not (is_blank content)) value_error
    if contains begin_certificate content
        then non_empty (x509.load_pem_bundle content)
        else do cert ← load_certificate content; ok (cert ∷ [])

  unfoldable pub load_certificates_any : Bytes → Result (List Certificate)
  load_certificates_any content =
      or_else (load_certificate_chain content) (non_empty (x509.load_pkcs7 content))

unfoldable pub to_pem : List Certificate → Bytes
to_pem [] = []
to_pem (c ∷ cs) = c.pem ++ to_pem cs

unfoldable pub validate_private_key_pem : Bytes → Result (Unit {0})
unfolding is_blank contains
validate_private_key_pem content = do
  guard (not (is_blank content)) value_error
  guard (contains private_key content) value_error
  ok tt

-- file.read(n), and the refusal of more than the limit.
unfoldable pub read_limited_upload : Settings → Bytes → Result Bytes
read_limited_upload settings file = do
  let content = take (settings.max_upload_bytes + 1) file
  guard (not (ltb settings.max_upload_bytes (length content))) (http_error 413)
  ok content

-- except CertificateError: raise HTTPException(400)
abbrev pub as_bad_request {ℓ} : {A : Type ℓ} → Result A → Result A
as_bad_request (ok a) = ok a
as_bad_request (err e) = err (http_error 400)
