-- ===== src/Library/Certificates/Import.antt =====
-- What an import leaves in the library of certificates.
use ocspcrltesting.Schema.{CaCertificate, Db}
use ocspcrltesting.Authz.{WorkspaceContext}
use ocspcrltesting.Certs.{Bytes, Certificate}
use ocspcrltesting.Library.Rows.{
  scalar_one_or_none-none, filter-single, scalar_one_or_none-counted, count-append_one,
}
use ocspcrltesting.Library.Keys.{HasUniqueKeys, append-HasUniqueKeys}
use ocspcrltesting.Library.Certificates.{
  with_id, has_fingerprint, ImportResult, add_certificate, new_row, found_or_new, import_loop,
}
use ocspcrltesting.Prelude.{
  ℕ, suc, ◌+◌, ◌≤◌, ◌≡◌, refl, sym, subst, ap, Bool, true, false, String, Option, none, some, List,
  [], ◌∷◌, ◌==◌, ==_iff, eq_refl, arith, All, Bool-cases, inl, inr, length, count, filter,
  scalar_one_or_none, Result, ok, >>=-eq-ok, ok-injective, ==_refl,
}

-- No two saved certificates have an id in common, or a workspace and a fingerprint.
abbrev pub HasUniqueFingerprints : Db → Type 0
HasUniqueFingerprints db =
    HasUniqueKeys (λ c. c.id) (λ c. c.workspace_id) (λ c. c.fingerprint_sha256) db.certificates

-- The ids that new rows get are none that a row has, and all different.
abbrev pub IsFresh : (ℕ → ℕ) → ℕ → Db → Type 0
IsFresh ids n db =
    ((m : ℕ) → n ≤ m → count (with_id (ids m)) db.certificates ≡ 0)
    × ((m k : ℕ) → ids m ≡ ids k → m ≡ k)

module _ (sha256_hex : Bytes → String) (ctx : WorkspaceContext) (name : Option String)
    (single : Bool) (source : String) (source_url : Option String) (ids : ℕ → ℕ) where
  abbrev row_of : ℕ → Certificate → CaCertificate
  row_of n cert = new_row sha256_hex (ids n) ctx name single source source_url cert

  abbrev loop : List Certificate → ℕ → Db → Result (ImportResult × Db)
  loop = import_loop sha256_hex ctx name single source source_url ids

  abbrev of_cert : Certificate → CaCertificate → Bool
  of_cert cert = has_fingerprint ctx.workspace.id (sha256_hex cert.der)

  -- One round of the loop: the certificate is in the library, or is added to it.
  data Round (cert : Certificate) (certs : List Certificate) (n : ℕ) (db db' : Db)
      (result : ImportResult) : Type 0 where
    skipped :
        (old : CaCertificate) (rest : ImportResult)
        → scalar_one_or_none (filter (of_cert cert) db.certificates) ≡ ok (some old)
        → loop certs n db ≡ ok (rest, db')
        → result ≡ record rest { skipped_duplicates = suc rest.skipped_duplicates }
        → Round cert certs n db db' result
    added :
        (rest : ImportResult)
        → count (of_cert cert) db.certificates ≡ 0
        → loop certs (suc n) (add_certificate (row_of n cert) db) ≡ ok (rest, db')
        → result ≡ record rest { created = row_of n cert ∷ rest.created }
        → Round cert certs n db db' result

  round :
      (cert : Certificate) (certs : List Certificate) (n : ℕ) (db db' : Db) (result : ImportResult)
      → loop (cert ∷ certs) n db ≡ ok (result, db')
      → Round cert certs n db db' result
  unfolding import_loop
  round cert certs n db db' result h =
      let (existing, found, h₁) =
        >>=-eq-ok (scalar_one_or_none (filter (of_cert cert) db.certificates)) _ h in
      go existing found h₁
    where
      go :
          (existing : Option CaCertificate)
          → scalar_one_or_none (filter (of_cert cert) db.certificates) ≡ ok existing
          → found_or_new sha256_hex ctx name single source source_url ids cert n db
              (loop certs)
              existing
            ≡ ok (result, db')
          → Round cert certs n db db' result
      go (some old) found h₁ =
          let (rest, later, h₂) = >>=-eq-ok (loop certs n db) _ h₁ in
          let both = ok-injective _ _ h₂ in
          skipped old rest.0 found
            (subst (λ d. loop certs n db ≡ ok (rest.0, d)) (ap (λ p. p.1) both) later)
            (sym (ap (λ p. p.0) both))
      go none found h₁ =
          let with_row = add_certificate (row_of n cert) db in
          let (rest, later, h₂) = >>=-eq-ok (loop certs (suc n) with_row) _ h₁ in
          let both = ok-injective _ _ h₂ in
          added rest.0 (scalar_one_or_none-none (of_cert cert) db.certificates found)
            (subst (λ d. loop certs (suc n) with_row ≡ ok (rest.0, d)) (ap (λ p. p.1) both) later)
            (sym (ap (λ p. p.0) both))

  finished :
      (n : ℕ) (db db' : Db) (result : ImportResult)
      → loop [] n db ≡ ok (result, db')
      → (result ≡ record { created = []; skipped_duplicates = 0 }) × (db ≡ db')
  unfolding import_loop
  finished n db db' result h =
      let both = ok-injective _ _ h in (sym (ap (λ p. p.0) both), ap (λ p. p.1) both)

  -- A row that is in the library stays in it.
  pub loop-count_le :
      (key : CaCertificate → Bool) (certs : List Certificate) (n : ℕ) (db db' : Db)
      (result : ImportResult)
      → loop certs n db ≡ ok (result, db')
      → count key db.certificates ≤ count key db'.certificates
  loop-count_le key [] n db db' result h =
      subst (λ d. count key db.certificates ≤ count key d.certificates)
        (finished n db db' result h).1 (omega arith)
  loop-count_le key (cert ∷ certs) n db db' result h = elim (round cert certs n db db' result h) [
    | skipped old rest found later e ↦ loop-count_le key certs n db db' rest later
    | added rest free later e ↦ omega (
      arith,
      count-append_one key db.certificates (row_of n cert),
      loop-count_le key certs (suc n) (add_certificate (row_of n cert) db) db' rest later,
    )
  ]

  own_fingerprint : (n : ℕ) (cert : Certificate) → of_cert cert (row_of n cert) ≡ true
  own_fingerprint n cert = rw (==_refl ctx.workspace.id, eq_refl (sha256_hex cert.der)) refl

  -- Every certificate of the import is then in the library.
  pub loop-present :
      (certs : List Certificate) (n : ℕ) (db db' : Db) (result : ImportResult)
      → loop certs n db ≡ ok (result, db')
      → All (λ cert. 1 ≤ count (of_cert cert) db'.certificates) certs
  loop-present [] n db db' result h = tt
  loop-present (cert ∷ certs) n db db' result h = elim (round cert certs n db db' result h) [
    | skipped old rest found later e ↦ (
      omega (
        arith,
        scalar_one_or_none-counted (of_cert cert) db.certificates old found,
        loop-count_le (of_cert cert) certs n db db' rest later,
      ),
      loop-present certs n db db' rest later,
    )
    | added rest free later e ↦
        let with_row = add_certificate (row_of n cert) db in
        let now = count-append_one (of_cert cert) db.certificates (row_of n cert) in
        let later_le = loop-count_le (of_cert cert) certs (suc n) with_row db' rest later in
        (
          ground (arith, now, later_le, own_fingerprint n cert),
          loop-present certs (suc n) with_row db' rest later,
        )
  ]

  pub loop-length :
      (certs : List Certificate) (n : ℕ) (db db' : Db) (result : ImportResult)
      → loop certs n db ≡ ok (result, db')
      → length result.created + result.skipped_duplicates ≡ length certs
  loop-length [] n db db' result h = rw ((finished n db db' result h).0) refl
  loop-length (cert ∷ certs) n db db' result h = elim (round cert certs n db db' result h) [
    | skipped old rest found later e ↦ rw e (omega (arith, loop-length certs n db db' rest later))
    | added rest free later e ↦ rw e (
        omega
          (arith, loop-length certs (suc n) (add_certificate (row_of n cert) db) db' rest later))
  ]

  add_certificate-IsFresh :
      (n : ℕ) (cert : Certificate) (db : Db)
      → IsFresh ids n db
      → IsFresh ids (suc n) (add_certificate (row_of n cert) db)
  add_certificate-IsFresh n cert db (unused, distinct) = (
    λ m h.
        let ne : (ids n == ids m) ≡ false = elim (Bool-cases (ids n == ids m)) [
          | inl e ↦ absurd (omega (arith, distinct n m ((==_iff (ids n) (ids m)).0 e), h))
          | inr e ↦ e
        ] in
        ground (
          arith,
          count-append_one (with_id (ids m)) db.certificates (row_of n cert),
          unused m (omega (arith, h)),
          ne,
        ),
    distinct,
  )

  pub loop-HasUniqueFingerprints :
      (certs : List Certificate) (n : ℕ) (db db' : Db) (result : ImportResult)
      → loop certs n db ≡ ok (result, db')
      → IsFresh ids n db
      → HasUniqueFingerprints db
      → HasUniqueFingerprints db'
  loop-HasUniqueFingerprints [] n db db' result h fresh inv =
      subst HasUniqueFingerprints (finished n db db' result h).1 inv
  loop-HasUniqueFingerprints (cert ∷ certs) n db db' result h fresh inv =
      elim (round cert certs n db db' result h) [
        | skipped old rest found later e ↦
            loop-HasUniqueFingerprints certs n db db' rest later fresh inv
        | added rest free later e ↦
            loop-HasUniqueFingerprints certs (suc n) (add_certificate (row_of n cert) db) db' rest
              later (add_certificate-IsFresh n cert db fresh)
              (append-HasUniqueKeys _ _ _ db.certificates (row_of n cert) ctx.workspace.id refl
                (fresh.0 n (omega arith)) free inv)
      ]

  -- Where every certificate has its row, the loop skips all.
  pub loop-all_skipped :
      (certs : List Certificate) (n : ℕ) (db : Db)
      → All (λ cert. count (of_cert cert) db.certificates ≡ 1) certs
      → loop certs n db ≡ ok (record { created = []; skipped_duplicates = length certs }, db)
  unfolding import_loop
  loop-all_skipped [] n db h = refl
  loop-all_skipped (cert ∷ certs) n db h =
      let (old, found) = filter-single (of_cert cert) db.certificates h.0 in
      rw (found, loop-all_skipped certs n db h.1) refl
