-- ===== src/Worker/Json.antt =====
-- JSON values, as the details of a test result are made of.
use ocspcrltesting.Prelude.{
  ℕ, String, Bool, true, false, not, ◌&&◌, Option, none, some, List, [], ◌∷◌, ◌++◌, str_eq,
  if◌then◌else◌, any,
}

mutual
  pub data Json : Type 0 where
    null : Json
    boolean : Bool → Json
    number : ℕ → Json
    text : String → Json
    array : Items → Json
    object : Fields → Json

  pub data Items : Type 0 where
    no_items : Items
    item : Json → Items → Items

  pub data Fields : Type 0 where
    no_fields : Fields
    field : String → Json → Fields → Fields

abbrev pub is_null : Json → Bool
is_null null = true
is_null _ = false

-- details.get(key)
unfoldable pub get : String → Fields → Option Json
get key no_fields = none
get key (field k value rest) =
    let later = get key rest in if str_eq k key then some value else later

abbrev pub is_wanted : List String → String → Json → Bool
is_wanted wanted key value = any (str_eq key) wanted && not (is_null value)

-- _find_keys
unfoldable mutual
  pub find_keys : List String → Json → List Json
  find_keys wanted (object members) = find_in_fields wanted members
  find_keys wanted (array items) = find_in_items wanted items
  find_keys wanted null = []
  find_keys wanted (boolean b) = []
  find_keys wanted (number n) = []
  find_keys wanted (text s) = []

  pub find_in_fields : List String → Fields → List Json
  find_in_fields wanted no_fields = []
  find_in_fields wanted (field key value rest) =
      let below = find_keys wanted value ++ find_in_fields wanted rest in
      if is_wanted wanted key value then value ∷ below else below

  pub find_in_items : List String → Items → List Json
  find_in_items wanted no_items = []
  find_in_items wanted (item value rest) = find_keys wanted value ++ find_in_items wanted rest
