-- ===== src/Workspaces/Counting.antt =====
-- Counting the rows that a change reaches.
use ocspcrltesting.Prelude.{
  ◌+◌, ◌≤◌, ◌≡◌, refl, subst, inl, inr, Bool, true, false, ◌&&◌, List, [], ◌∷◌, ◌++◌, arith,
  if◌then◌else◌, Bool-cases, filter, any, count, All, subst, inl, inr, Bool-cases, update, delete,
  All,
}

module _ {ℓ} {A : Type ℓ} (hit wanted : A → Bool) where
  -- The wanted rows after a change are those before, less at most the wanted rows that it reaches.
  pub count-update :
      (f : A → A) (xs : List A)
      → count wanted xs ≤ count wanted (update hit f xs) + count (λ x. hit x && wanted x) xs
  count-update f [] = omega arith
  count-update f (x ∷ xs) = ground (arith, count-update f xs)

  pub count-delete :
      (xs : List A)
      → count wanted xs ≤ count wanted (delete hit xs) + count (λ x. hit x && wanted x) xs
  count-delete [] = omega arith
  count-delete (x ∷ xs) = ground (arith, count-delete xs)

  pub count-both-le : (xs : List A) → count (λ x. hit x && wanted x) xs ≤ count hit xs
  count-both-le [] = omega arith
  count-both-le (x ∷ xs) = ground (arith, count-both-le xs)

  -- A change that makes no wanted row unwanted loses none.
  pub count-update_keep :
      (f : A → A) (xs : List A)
      → ((x : A) → wanted x ≡ true → wanted (f x) ≡ true)
      → count wanted xs ≤ count wanted (update hit f xs)
  count-update_keep f [] keep = omega arith
  count-update_keep f (x ∷ xs) keep = ground (arith, keep x, count-update_keep f xs keep)

  -- A change or a deletion of rows that are not wanted leaves the wanted rows as they are.
  pub filter-update_frame :
      (f : A → A) (xs : List A)
      → ((x : A) → hit x ≡ true → wanted x ≡ false)
      → ((x : A) → hit x ≡ true → wanted (f x) ≡ false)
      → filter wanted (update hit f xs) ≡ filter wanted xs
  filter-update_frame f [] before after = refl
  filter-update_frame f (x ∷ xs) before after =
      ground (arith, before x, after x, filter-update_frame f xs before after)

  pub filter-delete_frame :
      (xs : List A)
      → ((x : A) → hit x ≡ true → wanted x ≡ false)
      → filter wanted (delete hit xs) ≡ filter wanted xs
  filter-delete_frame [] before = refl
  filter-delete_frame (x ∷ xs) before = ground (arith, before x, filter-delete_frame xs before)

  -- No row is both if no wanted row passes a test that every reached row passes.
  pub count-both-zero :
      (test : A → Bool) (xs : List A)
      → ((x : A) → hit x ≡ true → test x ≡ true)
      → any test (filter wanted xs) ≡ false
      → count (λ x. hit x && wanted x) xs ≡ 0
  count-both-zero test [] sub h = refl
  count-both-zero test (x ∷ xs) sub h = ground (arith, sub x, count-both-zero test xs sub)

  pub count-append : (xs ys : List A) → count wanted (xs ++ ys) ≡ count wanted xs + count wanted ys
  count-append [] ys = omega arith
  count-append (x ∷ xs) ys = ground (arith, count-append xs ys)

  reached {κ} :
      (P : A → Type κ) (x : A) (xs : List A)
      → hit x ≡ true
      → All P (filter hit (x ∷ xs))
      → P x × All P (filter hit xs)
  reached P x xs e h = subst (λ b. All P (if b then x ∷ filter hit xs else filter hit xs)) e h

  missed {κ} :
      (P : A → Type κ) (x : A) (xs : List A)
      → hit x ≡ false
      → All P (filter hit (x ∷ xs))
      → All P (filter hit xs)
  missed P x xs e h = subst (λ b. All P (if b then x ∷ filter hit xs else filter hit xs)) e h

  -- The same where the rows that are reached are known by their values.
  pub filter-update_rows :
      (f : A → A) (xs : List A)
      → All (λ x. (wanted x ≡ false) × (wanted (f x) ≡ false)) (filter hit xs)
      → filter wanted (update hit f xs) ≡ filter wanted xs
  filter-update_rows f [] h = refl
  filter-update_rows f (x ∷ xs) h = elim (Bool-cases (hit x)) [
    | inl e ↦
        let (here, rest) = reached _ x xs e h in
        rw (e, here.0, here.1) (filter-update_rows f xs rest)
    | inr e ↦ rw e (ground (arith, filter-update_rows f xs (missed _ x xs e h)))
  ]

  pub filter-delete_rows :
      (xs : List A)
      → All (λ x. wanted x ≡ false) (filter hit xs)
      → filter wanted (delete hit xs) ≡ filter wanted xs
  filter-delete_rows [] h = refl
  filter-delete_rows (x ∷ xs) h = elim (Bool-cases (hit x)) [
    | inl e ↦ let (here, rest) = reached _ x xs e h in rw (e, here) (filter-delete_rows xs rest)
    | inr e ↦ rw e (ground (arith, filter-delete_rows xs (missed _ x xs e h)))
  ]
