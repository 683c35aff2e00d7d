-- ===== src/Catalog/Selected.antt =====
-- The engine's filter under a selection of catalog tests: no name of a category begins with another
-- one of it, so the filter's test on prefixes selects nothing more.
use ocspcrltesting.Schemas.{all}
use ocspcrltesting.Catalog.{CatalogTest, test_catalog, lookup_key, is_in}
use ocspcrltesting.Engine.Selection.{starts_with, matches, should_run}
use ocspcrltesting.Prelude.{
  String, ◌≡◌, refl, sym, subst, Bool, true, not, ◌||◌, some, List, [], ◌∷◌, map, str_eq, eq_iff,
  any, All, arith, Bool-cases, inl, inr, &&-eq-true,
}

abbrev pub names : List CatalogTest → List String
names tests = map (λ t. t.name) tests

abbrev no_prefix : List String → String → Bool
unfolding starts_with
no_prefix known a = all (λ b. str_eq a b || not (starts_with a b)) known

abbrev prefix_free : List String → Bool
prefix_free known = all (no_prefix known) known

catalog_prefix_free : all (λ entry. prefix_free (names entry.1)) test_catalog ≡ true
unfolding starts_with
catalog_prefix_free = refl

all-holds :
    (p : String → Bool) (known : List String) (a : String)
    → all p known ≡ true
    → is_in known a ≡ true
    → p a ≡ true
all-holds p [] a h k = absurd (cc k)
all-holds p (x ∷ known) a h k = elim (Bool-cases (str_eq a x)) [
  | inl e ↦ subst (λ y. p y ≡ true) (sym ((eq_iff a x).0 e)) (&&-eq-true (p x) _ h).0
  | inr e ↦ all-holds p known a (&&-eq-true (p x) _ h).1 (ground (arith, k, e))
]

lookup_key-prefix_free :
    (category : String) (table : List (String × List CatalogTest)) (tests : List CatalogTest)
    → all (λ entry. prefix_free (names entry.1)) table ≡ true
    → lookup_key category table ≡ some tests
    → prefix_free (names tests) ≡ true
lookup_key-prefix_free category [] tests h k = absurd (cc k)
lookup_key-prefix_free category ((key, ts) ∷ rest) tests h k =
    let (here, later) = &&-eq-true (prefix_free (names ts)) _ h in
    elim (Bool-cases (str_eq key category)) [
      | inl e ↦
          let same : ts ≡ tests = ground (arith, k, e) in
          subst (λ l. prefix_free (names l) ≡ true) same here
      | inr e ↦ lookup_key-prefix_free category rest tests later (ground (arith, k, e))
    ]

prefix_is_equal :
    (known : List String) (name s : String)
    → no_prefix known name ≡ true
    → is_in known s ≡ true
    → starts_with name s ≡ true
    → str_eq name s ≡ true
unfolding no_prefix
prefix_is_equal known name s free k h =
    let held = all-holds (λ b. str_eq name b || not (starts_with name b)) known s free k in
    ground (arith, held, h)

prefix_is_selected :
    (known : List String) (name : String) (selected : List String)
    → no_prefix known name ≡ true
    → All (λ s. is_in known s ≡ true) selected
    → any (λ base. starts_with name base) selected ≡ true
    → is_in selected name ≡ true
prefix_is_selected known name [] free k h = absurd (cc h)
prefix_is_selected known name (s ∷ selected) free k h = elim (Bool-cases (starts_with name s)) [
  | inl e ↦ rw (prefix_is_equal known name s free k.0 e) refl
  | inr e ↦
      let later = prefix_is_selected known name selected free k.1 (ground (arith, h, e)) in
      elim (Bool-cases (str_eq name s)) [ inl l ↦ rw l refl | inr l ↦ rw l later ]
]

matches_exactly :
    (known selected : List String) (name : String)
    → no_prefix known name ≡ true
    → All (λ s. is_in known s ≡ true) selected
    → matches name selected ≡ is_in selected name
unfolding matches
matches_exactly known selected name free k =
    elim (Bool-cases (any (λ base. starts_with name base) selected)) [
      | inl e ↦ rw (prefix_is_selected known name selected free k e) refl
      | inr e ↦ ground (arith, e)
    ]

-- For a category of the catalog and a selection of its tests, one of its tests runs exactly if it
-- is selected.
pub selected_tests_run :
    (category : String) (tests : List CatalogTest) (selected : List String) (name : String)
    → lookup_key category test_catalog ≡ some tests
    → All (λ s. is_in (names tests) s ≡ true) selected
    → is_in (names tests) name ≡ true
    → should_run (some selected) name ≡ is_in selected name
unfolding should_run
selected_tests_run category tests selected name found known mine =
    let free = lookup_key-prefix_free category test_catalog tests catalog_prefix_free found in
    matches_exactly (names tests) selected name
      (all-holds (no_prefix (names tests)) (names tests) name free mine) known
