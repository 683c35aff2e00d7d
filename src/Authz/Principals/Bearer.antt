-- ===== src/Authz/Principals/Bearer.antt =====
-- Bearer headers and their tokens.
use Prim.Native.Char.{Char, code}
use Prim.Native.String.{◌∷◌ as cons_text}
use ocspcrltesting.Prelude.Text.{strip, lower_code}
use ocspcrltesting.Authz.Principals.{bearer}
use ocspcrltesting.Prelude.{
  String, ◌≡◌, refl, subst, Bool, true, false, ◌&&◌, ◌==◌, if◌then◌else◌, none, some, arith, ==_iff,
  &&-eq-true,
}

-- A header of the form "Bearer …", in any case, and its token.
pub data IsBearer : String → String → Type 0 where
  bearing :
      (a b c d e f g : Char) (rest : String)
      → lower_code a ≡ b'b'
      → lower_code b ≡ b'e'
      → lower_code c ≡ b'a'
      → lower_code d ≡ b'r'
      → lower_code e ≡ b'e'
      → lower_code f ≡ b'r'
      → code g ≡ 32
      → IsBearer
          (cons_text a (
            cons_text b (cons_text c (cons_text d (cons_text e (cons_text f (cons_text g rest)))))))
          (strip rest)

then_some : (b : Bool) (x y : String) → (if b then some x else none) ≡ some y → (b ≡ true) × (x ≡ y)
then_some true x y h = (refl, ground (arith, h))
then_some false x y h = cc

pub bearer_sound : (authz raw : String) → bearer authz ≡ some raw → IsBearer authz raw
unfolding bearer
bearer_sound
      (cons_text a
        (cons_text b (cons_text c (cons_text d (cons_text e (cons_text f (cons_text g rest)))))))
      raw h =
    let (all, same) =
      then_some
        (lower_code a == b'b'
          && lower_code b == b'e'
          && lower_code c == b'a'
          && lower_code d == b'r'
          && lower_code e == b'e'
          && lower_code f == b'r'
          && code g == 32)
        (strip rest) raw h in
    let (h₆, hg) = &&-eq-true _ (code g == 32) all in
    let (h₅, hf) = &&-eq-true _ (lower_code f == b'r') h₆ in
    let (h₄, he) = &&-eq-true _ (lower_code e == b'e') h₅ in
    let (h₃, hd) = &&-eq-true _ (lower_code d == b'r') h₄ in
    let (h₂, hc) = &&-eq-true _ (lower_code c == b'a') h₃ in
    let (ha, hb) = &&-eq-true (lower_code a == b'b') (lower_code b == b'e') h₂ in
    subst (IsBearer _) same (
      bearing a b c d e f g rest ((==_iff _ _).0 ha) ((==_iff _ _).0 hb) ((==_iff _ _).0 hc)
        ((==_iff _ _).0 hd) ((==_iff _ _).0 he) ((==_iff _ _).0 hf) ((==_iff _ _).0 hg))
bearer_sound _ raw h = cc

pub bearer_complete : (authz raw : String) → IsBearer authz raw → bearer authz ≡ some raw
unfolding bearer
bearer_complete _ _ (bearing a b c d e f g rest ha hb hc hd he hf hg) =
    ground (arith, ha, hb, hc, hd, he, hf, hg)
