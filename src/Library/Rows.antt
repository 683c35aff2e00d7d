-- ===== src/Library/Rows.antt =====
-- Counting the rows with a key, for the keys that must be unique.
use ocspcrltesting.Prelude.{
  ◌+◌, ◌≤◌, ◌≡◌, refl, sym, ◌∙◌, ap, subst, All, Bool-cases, inl, inr, if◌then◌else◌, Bool, true,
  false, List, [], ◌∷◌, ◌++◌, none, some, arith, count, filter, find?, update, delete,
  scalar_one_or_none, ok, length-filter, length,
}

module _ {ℓ} {A : Type ℓ} (key : A → Bool) where
  pub count-append_one :
      (xs : List A) (x : A) → count key (xs ++ x ∷ []) ≡ count key xs + count key (x ∷ [])
  count-append_one [] x = omega arith
  count-append_one (y ∷ xs) x = ground (arith, count-append_one xs x)

  pub count-delete_le : (hit : A → Bool) (xs : List A) → count key (delete hit xs) ≤ count key xs
  count-delete_le hit [] = omega arith
  count-delete_le hit (x ∷ xs) = ground (arith, count-delete_le hit xs)

  -- A change that gives no row the key.
  pub count-update_le :
      (hit : A → Bool) (f : A → A) (xs : List A)
      → ((x : A) → hit x ≡ true → key (f x) ≡ true → key x ≡ true)
      → count key (update hit f xs) ≤ count key xs
  count-update_le hit f [] keeps = omega arith
  count-update_le hit f (x ∷ xs) keeps = ground (arith, keeps x, count-update_le hit f xs keeps)

  -- A change of the only rows that may have the key.
  pub count-update_hit :
      (hit : A → Bool) (f : A → A) (xs : List A)
      → count key (delete hit xs) ≡ 0
      → count key (update hit f xs) ≤ count hit xs
  count-update_hit hit f [] free = omega arith
  count-update_hit hit f (x ∷ xs) free = ground (arith, free, count-update_hit hit f xs)

  pub scalar_one_or_none-none :
      (xs : List A) → scalar_one_or_none (filter key xs) ≡ ok none → count key xs ≡ 0
  scalar_one_or_none-none xs h = ground (arith, h, length-filter key xs)

  -- A query for one row that finds a row that is reached leaves no other row with the key.
  single :
      (hit : A → Bool) (xs : List A)
      → All (λ x. hit x ≡ true) (filter key xs)
      → count key (delete hit xs) ≡ 0
  single hit [] h = refl
  single hit (x ∷ xs) h = elim (Bool-cases (key x)) [
    | inl e ↦
        let (here, rest) : (hit x ≡ true) × All (λ y. hit y ≡ true) (filter key xs) =
          subst (λ b. All (λ y. hit y ≡ true) (if b then x ∷ filter key xs else filter key xs)) e
            h in
        rw here (single hit xs rest)
    | inr e ↦
        let rest : All (λ y. hit y ≡ true) (filter key xs) =
          subst (λ b. All (λ y. hit y ≡ true) (if b then x ∷ filter key xs else filter key xs)) e
            h in
        ground (arith, e, single hit xs rest)
  ]

  only_row : (ys : List A) (x : A) → scalar_one_or_none ys ≡ ok (some x) → ys ≡ x ∷ []
  only_row [] x h = absurd (cc h)
  only_row (y ∷ []) x h = ap (λ z. z ∷ []) (ground (arith, h))
  only_row (y ∷ z ∷ ys) x h = absurd (cc h)

  pub scalar_one_or_none-single :
      (hit : A → Bool) (xs : List A) (x : A)
      → scalar_one_or_none (filter key xs) ≡ ok (some x)
      → hit x ≡ true
      → count key (delete hit xs) ≡ 0
  scalar_one_or_none-single hit xs x h reached =
      single hit xs
        (subst (All (λ y. hit y ≡ true)) (sym (only_row (filter key xs) x h)) (reached, tt))

  -- What holds of the row that a key finds holds of every row with it, if there is one such row.
  no_row : (P : A → Type 0) (xs : List A) → count key xs ≡ 0 → All P (filter key xs)
  no_row P [] h = tt
  no_row P (x ∷ xs) h = elim (Bool-cases (key x)) [
    | inl e ↦ absurd (ground (arith, e, h))
    | inr e ↦ rw e (no_row P xs (ground (arith, e, h)))
  ]

  pub find?-only :
      (P : A → Type 0) (xs : List A) (q : A)
      → find? key xs ≡ some q
      → count key xs ≤ 1
      → P q
      → All P (filter key xs)
  find?-only P [] q h one held = tt
  find?-only P (x ∷ xs) q h one held = elim (Bool-cases (key x)) [
    | inl e ↦
        let same : x ≡ q = ground (arith, e, h) in
        rw e (subst P (sym same) held, no_row P xs (ground (arith, e, one)))
    | inr e ↦ rw e (find?-only P xs q (ground (arith, e, h)) (ground (arith, e, one)) held)
  ]

  -- A change of rows that then have not the key.
  pub count-update_rows :
      (hit : A → Bool) (f : A → A) (xs : List A)
      → All (λ x. key (f x) ≡ false) (filter hit xs)
      → count key (update hit f xs) ≤ count key xs
  count-update_rows hit f [] h = omega arith
  count-update_rows hit f (x ∷ xs) h = elim (Bool-cases (hit x)) [
    | inl e ↦
        let (here, rest) : (key (f x) ≡ false) × All (λ y. key (f y) ≡ false) (filter hit xs) =
          subst (λ b. All (λ y. key (f y) ≡ false) (if b then x ∷ filter hit xs else filter hit xs))
            e h in
        rw (e, here) (ground (arith, count-update_rows hit f xs rest))
    | inr e ↦
        let rest : All (λ y. key (f y) ≡ false) (filter hit xs) =
          subst (λ b. All (λ y. key (f y) ≡ false) (if b then x ∷ filter hit xs else filter hit xs))
            e h in
        rw e (ground (arith, count-update_rows hit f xs rest))
  ]

  -- One row with the key is what a query for one row finds.
  pub filter-single :
      (xs : List A)
      → count key xs ≡ 1
      → (x : A) × (scalar_one_or_none (filter key xs) ≡ ok (some x))
  filter-single xs h = one (filter key xs) (length-filter key xs ∙ h)
    where
      one : (ys : List A) → length ys ≡ 1 → (x : A) × (scalar_one_or_none ys ≡ ok (some x))
      one [] k = absurd (omega (arith, k))
      one (y ∷ []) k = (y, refl)
      one (y ∷ z ∷ ys) k = absurd (omega (arith, k))

  counted : (ys : List A) (x : A) → scalar_one_or_none ys ≡ ok (some x) → length ys ≡ 1
  counted [] x h = absurd (cc h)
  counted (y ∷ []) x h = refl
  counted (y ∷ z ∷ ys) x h = absurd (cc h)

  pub scalar_one_or_none-counted :
      (xs : List A) (x : A) → scalar_one_or_none (filter key xs) ≡ ok (some x) → count key xs ≡ 1
  scalar_one_or_none-counted xs x h = sym (length-filter key xs) ∙ counted (filter key xs) x h
