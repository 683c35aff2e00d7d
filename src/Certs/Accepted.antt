-- ===== src/Certs/Accepted.antt =====
-- What is accepted of an uploaded file.
use ocspcrltesting.Settings.{Settings}
use ocspcrltesting.Certs.{Bytes, read_limited_upload}
use ocspcrltesting.Prelude.{
  ℕ, zero, suc, ◌+◌, ◌≤◌, ◌≡◌, refl, ap, [], ◌∷◌, length, take, arith, ok, err, http_error,
}

take-all : (n : ℕ) (bs : Bytes) → length bs ≤ n → take n bs ≡ bs
take-all zero [] h = refl
take-all (suc n) [] h = refl
take-all zero (b ∷ bs) h = absurd (omega arith)
take-all (suc n) (b ∷ bs) h = ap (λ t. b ∷ t) (take-all n bs (omega arith))

length-take_over : (n : ℕ) (bs : Bytes) → n ≤ length bs → length (take n bs) ≡ n
length-take_over zero bs h = refl
length-take_over (suc n) [] h = absurd (omega arith)
length-take_over (suc n) (b ∷ bs) h = omega (arith, length-take_over n bs (omega arith))

-- An upload is read in full if it is within the limit, and refused with 413 otherwise.
pub read_limited_upload_exact :
    (settings : Settings) (file : Bytes)
    → (length file ≤ settings.max_upload_bytes → read_limited_upload settings file ≡ ok file)
      × (settings.max_upload_bytes + 1 ≤ length file
          → read_limited_upload settings file ≡ err (http_error 413))
unfolding read_limited_upload
read_limited_upload_exact settings file = (
  λ h. rw (take-all (settings.max_upload_bytes + 1) file (omega arith)) (ground arith),
  λ h. rw (length-take_over (settings.max_upload_bytes + 1) file h) (ground arith),
)
