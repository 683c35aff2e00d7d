-- ===== src/Worker/Analysis/Warnings.antt =====
-- What the analysis of a result may change.
use ocspcrltesting.Schemas.{RunConfig}
use ocspcrltesting.Worker.Analysis.{
  Warning, TestResult, category_rfc_refs, found_warnings, add_missing, degraded, enrich_result,
}
use ocspcrltesting.Prelude.{
  ℕ, String, ◌≡◌, ◌≢◌, refl, true, Option, List, [], ◌∷◌, ◌++◌, arith, str_eq, eq_iff, eq_refl,
  if◌then◌else◌, any, All, Bool-cases, inl, inr,
}

any-append_left :
    (x : String) (refs rest : List String)
    → any (str_eq x) refs ≡ true
    → any (str_eq x) (refs ++ rest) ≡ true
any-append_left x [] rest h = absurd (cc h)
any-append_left x (r ∷ refs) rest h = ground (arith, h, any-append_left x refs rest)

any-append_own : (x : String) (refs : List String) → any (str_eq x) (refs ++ x ∷ []) ≡ true
any-append_own x [] = rw (eq_refl x) refl
any-append_own x (r ∷ refs) = ground (arith, any-append_own x refs)

abbrev with_ref : List String → String → List String
with_ref refs ref = if any (str_eq ref) refs then refs else refs ++ ref ∷ []

with_ref_keeps :
    (x : String) (refs : List String) (ref : String)
    → any (str_eq x) refs ≡ true
    → any (str_eq x) (with_ref refs ref) ≡ true
with_ref_keeps x refs ref h = elim (Bool-cases (any (str_eq ref) refs)) [
  | inl e ↦ rw e h
  | inr e ↦ rw e (any-append_left x refs (ref ∷ []) h)
]

with_ref_own : (refs : List String) (ref : String) → any (str_eq ref) (with_ref refs ref) ≡ true
with_ref_own refs ref = elim (Bool-cases (any (str_eq ref) refs)) [
  | inl e ↦ rw e e
  | inr e ↦ rw e (any-append_own ref refs)
]

module _ (parse_ts : String → Option ℕ) (now : ℕ) where
  add_missing_keeps :
      (x : String) (refs new : List String)
      → any (str_eq x) refs ≡ true
      → any (str_eq x) (add_missing parse_ts now refs new) ≡ true
  add_missing_keeps x refs [] h = h
  add_missing_keeps x refs (ref ∷ new) h =
      add_missing_keeps x (with_ref refs ref) new (with_ref_keeps x refs ref h)

  add_missing_all :
      (refs new : List String)
      → All (λ ref. any (str_eq ref) (add_missing parse_ts now refs new) ≡ true) new
  add_missing_all refs [] = tt
  add_missing_all refs (ref ∷ new) = (
    add_missing_keeps ref (with_ref refs ref) new (with_ref_own refs ref),
    add_missing_all (with_ref refs ref) new,
  )

  degraded_other :
      (ws : List Warning) (status : String)
      → status ≢ "PASS"
      → degraded parse_ts now ws status ≡ status
  degraded_other [] status h = refl
  degraded_other (w ∷ ws) status h = elim (Bool-cases (str_eq status "PASS")) [
    | inl e ↦ absurd (h ((eq_iff status "PASS").0 e))
    | inr e ↦ rw e refl
  ]

  degraded_pass : (ws : List Warning) → ws ≢ [] → degraded parse_ts now ws "PASS" ≡ "WARN"
  degraded_pass [] h = absurd (h refl)
  degraded_pass (w ∷ ws) h = refl

  -- The analysis of a result keeps every status but "PASS", which it makes "WARN" if there is a
  -- warning and keeps if there is none; each reference of the category is then among the result's.
  pub enrich_result_sound :
      (config : RunConfig) (r : TestResult)
      → (r.status ≢ "PASS" → (enrich_result parse_ts now config r).status ≡ r.status)
        × (r.status ≡ "PASS"
            → (r.warnings ++ found_warnings parse_ts now config r ≢ []
                → (enrich_result parse_ts now config r).status ≡ "WARN")
              × (r.warnings ++ found_warnings parse_ts now config r ≡ []
                  → (enrich_result parse_ts now config r).status ≡ "PASS"))
        × All
            (λ ref. any (str_eq ref) (enrich_result parse_ts now config r).rfc_refs ≡ true)
            (category_rfc_refs r.category)
  unfolding enrich_result
  enrich_result_sound config r = (
    λ h. degraded_other (r.warnings ++ found_warnings parse_ts now config r) r.status h,
    λ e. (
      λ h. rw e (degraded_pass (r.warnings ++ found_warnings parse_ts now config r) h),
      λ h. rw (h, e) refl,
    ),
    add_missing_all r.rfc_refs (category_rfc_refs r.category),
  )
