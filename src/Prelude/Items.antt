-- ===== src/Prelude/Items.antt =====
-- The lists that the program's query parameters hold, as texts with commas.
use Prim.Native.Char.{Char, code}
use Prim.Native.String as Text
use Prim.Native.String.{String}
use mathlib.Core.Bool.{not}
use mathlib.Core.List.{List, [], ◌∷◌, map}
use ocspcrltesting.Prelude.Tests.{◌==◌, if◌then◌else◌, is_empty}
use ocspcrltesting.Prelude.Lists.{filter}
use ocspcrltesting.Prelude.Text.{strip}

cons_first : Char → List String → List String
cons_first c [] = (Text.◌∷◌ c Text.[]) ∷ []
cons_first c (w ∷ ws) = (Text.◌∷◌ c w) ∷ ws

-- s.split(",")
unfoldable pub split_commas : String → List String
unfolding cons_first
split_commas Text.[] = "" ∷ []
split_commas (Text.◌∷◌ c s) =
    let rest = split_commas s in if code c == b',' then "" ∷ rest else cons_first c rest

-- [x.strip() for x in s.split(",") if x.strip()]
unfoldable pub split_items : String → List String
split_items s = filter (λ x. not (is_empty x)) (map strip (split_commas s))
