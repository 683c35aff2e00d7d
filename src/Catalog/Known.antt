-- ===== src/Catalog/Known.antt =====
-- What a checked selection refers to, and what it then runs.
use ocspcrltesting.Schema.{Db}
use ocspcrltesting.Schemas.{Selection}
use ocspcrltesting.Authz.{Principal}
use ocspcrltesting.Catalog.{
  CatalogTest, test_catalog, lookup_key, is_in, SelectionError, check_names, check_category,
  first_error, validate_selection,
}
use ocspcrltesting.Catalog.Stored.{
  load_global_selection, check_selection, accepted, put_global_test_selection,
}
use ocspcrltesting.Prelude.{
  ℕ, String, ◌≡◌, ◌↔◌, refl, subst, true, Option, none, some, List, [], ◌∷◌, map, All, arith,
  Bool-cases, inl, inr, >>=-eq-ok, ok, guard-eq-ok,
}

-- A category of the catalog with tests of that category.
abbrev pub IsKnown : String × List String → Type 0
IsKnown (category, names) =
    (tests : List CatalogTest) × (lookup_key category test_catalog ≡ some tests)
    × All (λ name. is_in (map (λ t. t.name) tests) name ≡ true) names

check_names_iff :
    (category : String) (known names : List String)
    → (check_names category known names ≡ none) ↔ All (λ name. is_in known name ≡ true) names
check_names_iff category known [] = (λ h. tt, λ h. refl)
check_names_iff category known (name ∷ names) = elim (Bool-cases (is_in known name)) [
  | inl e ↦ (
    λ h. (e, (check_names_iff category known names).0 (rw e at h)),
    λ h. rw e ((check_names_iff category known names).1 h.1),
  )
  | inr e ↦ (λ h. absurd (ground (arith, e, h)), λ h. absurd (ground (arith, e, h.0)))
]

known_as :
    (category : String) (names : List String) (tests : List CatalogTest)
    → lookup_key category test_catalog ≡ some tests
    → IsKnown (category, names)
    → All (λ name. is_in (map (λ t. t.name) tests) name ≡ true) names
known_as category names tests e (found, h, known) =
    let same : found ≡ tests = ground (arith, h, e) in
    subst (λ ts. All (λ name. is_in (map (λ t. t.name) ts) name ≡ true) names) same known

check_category_iff :
    (category : String) (names : List String) (entry : Option (List CatalogTest))
    → lookup_key category test_catalog ≡ entry
    → (check_category category names entry ≡ none) ↔ IsKnown (category, names)
check_category_iff category names none e = (λ h. absurd (cc h), λ h. absurd (cc (e, h.1)))
check_category_iff category names (some tests) e =
    let (to, from) = check_names_iff category (map (λ t. t.name) tests) names in
    (λ h. (tests, e, to h), λ h. from (known_as category names tests e h))

first_error-none :
    (e later : Option SelectionError) → (first_error e later ≡ none) ↔ ((e ≡ none) × (later ≡ none))
first_error-none none later = (λ h. (refl, h), λ h. h.1)
first_error-none (some e) later = (λ h. absurd (cc h), λ h. absurd (cc h.0))

-- A selection passes the check exactly if every category of it is in the catalog, and every test it
-- names there is one of that category's.
pub validate_selection-none_iff :
    (tests : Selection) → (validate_selection tests ≡ none) ↔ All IsKnown tests
unfolding validate_selection
validate_selection-none_iff [] = (λ h. tt, λ h. refl)
validate_selection-none_iff ((category, names) ∷ rest) =
    let (to, from) = validate_selection-none_iff rest in
    let (known, checked) = check_category_iff category names _ refl in
    let (parts, joined) = first_error-none _ _ in
    (λ h. let (a, b) = parts h in (known a, to b), λ h. joined (checked h.0, from h.1))

pub accepted-ok : (e : Option SelectionError) → accepted e ≡ ok tt → e ≡ none
accepted-ok none h = refl
accepted-ok (some e) h = absurd (cc h)

-- What a stored selection is worth.
abbrev pub IsSound : Option Selection → Type 0
IsSound none = Unit
IsSound (some tests) = All IsKnown tests

check_selection-IsSound : (tests : Option Selection) → check_selection tests ≡ ok tt → IsSound tests
check_selection-IsSound none h = tt
check_selection-IsSound (some tests) h =
    (validate_selection-none_iff tests).0 (accepted-ok (validate_selection tests) h)

-- A change of the server-wide selection that succeeds was made by a global admin, and what is
-- loaded afterwards is the selection that was sent, which only names tests of the catalog.
pub put_global_test_selection-IsSound :
    (tests : Option Selection) (now : ℕ) (p : Principal) (db db' : Db)
    → put_global_test_selection tests now p db ≡ ok db'
    → (p.user.is_global_admin ≡ true) × (load_global_selection db' ≡ tests) × IsSound tests
unfolding put_global_test_selection load_global_selection
put_global_test_selection-IsSound tests now p db db' h =
    let (is_admin, h₁) = guard-eq-ok p.user.is_global_admin _ _ h in
    let (done, checked, h₂) = >>=-eq-ok (check_selection tests) _ h₁ in
    (is_admin, ground (arith, h₂), check_selection-IsSound tests checked)
