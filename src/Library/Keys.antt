-- ===== src/Library/Keys.antt =====
-- Rows with a primary key, and with a label that is unique among the rows of a workspace.
use ocspcrltesting.Schema.{column_eq}
use ocspcrltesting.Library.Rows.{
  count-append_one, count-delete_le, find?-only, count-update_rows, count-update_le,
  count-update_hit,
}
use ocspcrltesting.Prelude.{
  ℕ, ◌≤◌, String, ◌≡◌, subst, Bool, true, false, ◌&&◌, Option, none, some, List, [], ◌∷◌, ◌++◌,
  arith, str_eq, eq_iff, ◌==◌, ==_iff, &&-eq-true, Bool-cases, inl, inr, count, find?, update,
  delete,
}

module _ {A : Type 0} (id : A → ℕ) (place : A → Option ℕ) (label : A → String) where
  abbrev pub by_id : ℕ → A → Bool
  by_id i x = id x == i

  abbrev pub by_label : ℕ → String → A → Bool
  by_label w t x = column_eq (place x) w && str_eq (label x) t

  -- No two rows have an id in common, or a workspace and the label there.
  abbrev pub HasUniqueKeys : List A → Type 0
  HasUniqueKeys rows =
      ((i : ℕ) → count (by_id i) rows ≤ 1) × ((w : ℕ) (t : String) → count (by_label w t) rows ≤ 1)

  append_le :
      (key : A → Bool) (rows : List A) (x : A)
      → count key rows ≤ 1
      → (key x ≡ true → count key rows ≡ 0)
      → count key (rows ++ x ∷ []) ≤ 1
  append_le key rows x one free = ground (arith, count-append_one key rows x, one, free)

  same_place : (p : Option ℕ) (w v : ℕ) → p ≡ some w → column_eq p v ≡ true → w ≡ v
  same_place none w v e h = absurd (cc e)
  same_place (some u) w v e h = ground (arith, e, h)

  pub append-HasUniqueKeys :
      (rows : List A) (x : A) (w : ℕ)
      → place x ≡ some w
      → count (by_id (id x)) rows ≡ 0
      → count (by_label w (label x)) rows ≡ 0
      → HasUniqueKeys rows
      → HasUniqueKeys (rows ++ x ∷ [])
  append-HasUniqueKeys rows x w here new_id new_label (ids, labels) = (
    λ i.
        append_le (by_id i) rows x (ids i)
          (λ e. subst (λ j. count (by_id j) rows ≡ 0) ((==_iff (id x) i).0 e) new_id),
    λ v t. append_le (by_label v t) rows x (labels v t) (λ e.
        let (in_v, is_t) = &&-eq-true (column_eq (place x) v) _ e in
        subst (λ u. count (by_label u t) rows ≡ 0) (same_place (place x) w v here in_v)
          (subst (λ s. count (by_label w s) rows ≡ 0) ((eq_iff (label x) t).0 is_t) new_label)),
  )

  pub delete-HasUniqueKeys :
      (hit : A → Bool) (rows : List A) → HasUniqueKeys rows → HasUniqueKeys (delete hit rows)
  delete-HasUniqueKeys hit rows (ids, labels) = (
    λ i. omega (arith, count-delete_le (by_id i) hit rows, ids i),
    λ w t. omega (arith, count-delete_le (by_label w t) hit rows, labels w t),
  )

  other_label :
      (w v : ℕ) (t s : String) (f : A → A)
      → ((x : A) → place (f x) ≡ place x)
      → ((x : A) → label (f x) ≡ t)
      → (w == v && str_eq t s) ≡ false
      → (x : A) → place x ≡ some w
      → by_label v s (f x) ≡ false
  other_label w v t s f places labels other x here = rw (places x, here, labels x) other

  -- The row with an id gets a label that no other row of its workspace has.
  pub update-HasUniqueKeys :
      (rows : List A) (i w : ℕ) (t : String) (f : A → A) (q : A)
      → ((x : A) → id (f x) ≡ id x)
      → ((x : A) → place (f x) ≡ place x)
      → ((x : A) → label (f x) ≡ t)
      → find? (by_id i) rows ≡ some q
      → place q ≡ some w
      → count (by_label w t) (delete (by_id i) rows) ≡ 0
      → HasUniqueKeys rows
      → HasUniqueKeys (update (by_id i) f rows)
  update-HasUniqueKeys rows i w t f q same_ids same_places named found here free (ids, labels) = (
    λ j. omega (
      arith,
      count-update_le (by_id j) (by_id i) f rows
          (λ x h k. subst (λ n. (n == j) ≡ true) (same_ids x) k),
      ids j,
    ),
    λ v s. elim (Bool-cases (w == v && str_eq t s)) [
      | inl e ↦
          let (in_w, is_t) = &&-eq-true (w == v) _ e in
          let free' : count (by_label v s) (delete (by_id i) rows) ≡ 0 =
            subst (λ u. count (by_label u s) (delete (by_id i) rows) ≡ 0) ((==_iff w v).0 in_w)
              (subst (λ r. count (by_label w r) (delete (by_id i) rows) ≡ 0) ((eq_iff t s).0 is_t)
                free) in
          omega (arith, count-update_hit (by_label v s) (by_id i) f rows free', ids i)
      | inr e ↦ omega (
        arith,
        count-update_rows (by_label v s) (by_id i) f rows (
            find?-only (by_id i) (λ x. by_label v s (f x) ≡ false) rows q found (ids i)
              (other_label w v t s f same_places named e q here)),
        labels v s,
      )
    ],
  )
