-- ===== src/Prelude/Text.antt =====
-- Python's `str` methods that the program calls, on native texts. White space and case are those
-- of ASCII; the texts that reach these calls are HTTP header values, names and host names.
use Prim.Native.Nat.{ℕ, zero, suc, ◌+◌}
use Prim.Native.Char.{Char, code}
use Prim.Native.String.{String, [], ◌∷◌}
use mathlib.Core.Bool.{Bool, true, ◌&&◌, ◌||◌}
use text.Mathlib.Text.{◌==◌ as str_eq}
use ocspcrltesting.Prelude.Tests.{leb, if◌then◌else◌}

pub is_space : Char → Bool
is_space c = (leb 9 (code c) && leb (code c) 13) || (leb 28 (code c) && leb (code c) 32)

pub strip_left : String → String
strip_left [] = []
strip_left (c ∷ s) = let rest = strip_left s in if is_space c then rest else c ∷ s

cons_unless_blank : Char → String → String
cons_unless_blank c [] = if is_space c then [] else c ∷ []
cons_unless_blank c (d ∷ s) = c ∷ d ∷ s

pub strip_right : String → String
strip_right [] = []
strip_right (c ∷ s) = cons_unless_blank c (strip_right s)

-- s.strip()
unfoldable pub strip : String → String
unfolding is_space strip_left strip_right cons_unless_blank
strip s = strip_left (strip_right s)

-- s.endswith(t)
unfoldable pub ends_with : String → String → Bool
ends_with [] t = str_eq [] t
ends_with (c ∷ s) t = let rest = ends_with s t in if str_eq (c ∷ s) t then true else rest

-- The code of a character of s.lower(), for ASCII.
unfoldable pub lower_code : Char → ℕ
lower_code c = if leb b'A' (code c) && leb (code c) b'Z' then code c + 32 else code c

-- s[:n]
unfoldable pub take_text : ℕ → String → String
take_text zero s = []
take_text (suc n) [] = []
take_text (suc n) (c ∷ s) = c ∷ take_text n s
