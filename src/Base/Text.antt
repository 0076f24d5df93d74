-- ===== src/Base/Text.antt =====
-- Go's `<` on strings. It compares bytes, and UTF-8 keeps the order of the code points, so for
-- text it is the lexicographic order of the code points.

use Prim.Native.Char.{code}
use Prim.Native.String.{String, [], ◌∷◌}
use mathlib.Core.Path.{◌≡◌, refl}
use mathlib.Core.Logic.{◌⊎◌, inl, inr}
use mathlib.Core.Bool.{Bool, true, false}
use native.Mathlib.Omega.{arith}
use text.Mathlib.TextEquality.{Char-path}
use k3_control_plane.Base.Tests.{ltb, if◌then◌else◌}

unfoldable pub str_ltb : String → String → Bool
str_ltb [] [] = false
str_ltb [] (d ∷ t) = true
str_ltb (c ∷ s) [] = false
str_ltb (c ∷ s) (d ∷ t) =
    let rest = str_ltb s t in
    if ltb (code c) (code d) then true else if ltb (code d) (code c) then false else rest

pub str_ltb_asym : (s t : String) → str_ltb s t ≡ true → str_ltb t s ≡ false
unfolding str_ltb
str_ltb_asym [] [] h = refl
str_ltb_asym [] (d ∷ t) h = refl
str_ltb_asym (c ∷ s) [] h = cc
str_ltb_asym (c ∷ s) (d ∷ t) h = ground (arith, str_ltb_asym s t)

pub str_ltb_trans : (s t u : String) → str_ltb s t ≡ true → str_ltb t u ≡ true → str_ltb s u ≡ true
unfolding str_ltb
str_ltb_trans [] [] u h k = k
str_ltb_trans [] (d ∷ t) [] h k = cc
str_ltb_trans [] (d ∷ t) (e ∷ u) h k = refl
str_ltb_trans (c ∷ s) [] u h k = cc
str_ltb_trans (c ∷ s) (d ∷ t) [] h k = cc
str_ltb_trans (c ∷ s) (d ∷ t) (e ∷ u) h k = ground (arith, str_ltb_trans s t u)

-- Two different strings are in order one way or the other.
pub str_ltb_total : (s t : String) → (s ≡ t) ⊎ (str_ltb s t ≡ true) ⊎ (str_ltb t s ≡ true)
unfolding str_ltb
str_ltb_total [] [] = inl refl
str_ltb_total [] (d ∷ t) = inr (inl refl)
str_ltb_total (c ∷ s) [] = inr (inr refl)
str_ltb_total (c ∷ s) (d ∷ t) = ground (arith, str_ltb_total s t, Char-path c d)

pub str_ltb_irrefl : (s : String) → str_ltb s s ≡ false
unfolding str_ltb
str_ltb_irrefl [] = refl
str_ltb_irrefl (c ∷ s) = ground (arith, str_ltb_irrefl s)

pub str_ltb_neg_trans :
    (s t u : String) → str_ltb t s ≡ false → str_ltb u t ≡ false → str_ltb u s ≡ false
unfolding str_ltb
str_ltb_neg_trans [] [] u h k = k
str_ltb_neg_trans [] (d ∷ t) [] h k = refl
str_ltb_neg_trans [] (d ∷ t) (e ∷ u) h k = ground (arith, str_ltb_neg_trans [] t u)
str_ltb_neg_trans (c ∷ s) [] u h k = cc
str_ltb_neg_trans (c ∷ s) (d ∷ t) [] h k = cc
str_ltb_neg_trans (c ∷ s) (d ∷ t) (e ∷ u) h k = ground (arith, str_ltb_neg_trans s t u)

order_of_names : str_ltb "node-a" "node-b" ≡ true
unfolding str_ltb
order_of_names = refl
