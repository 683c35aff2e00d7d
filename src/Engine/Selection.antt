-- ===== src/Engine/Selection.antt =====
-- ocsp_tester/selection.py: which tests run. The active selection is an argument; `none` is no
-- restriction.
use Prim.Native.String as Text
use Prim.Native.Char.{code}
use ocspcrltesting.Prelude.{
  String, Bool, true, false, ◌&&◌, ◌||◌, Option, none, some, List, ◌==◌, any, str_eq,
}

-- name.startswith(base)
unfoldable pub starts_with : String → String → Bool
starts_with s Text.[] = true
starts_with Text.[] (Text.◌∷◌ d t) = false
starts_with (Text.◌∷◌ c s) (Text.◌∷◌ d t) = let rest = starts_with s t in code c == code d && rest

unfoldable pub matches : String → List String → Bool
unfolding starts_with
matches name selected =
    any (λ base. str_eq name base) selected || any (λ base. starts_with name base) selected

unfoldable pub should_run : Option (List String) → String → Bool
unfolding matches
should_run none name = true
should_run (some selected) name = matches name selected

unfoldable pub any_selected : Option (List String) → List String → Bool
any_selected active names = any (should_run active) names
