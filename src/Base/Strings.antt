-- ===== src/Base/Strings.antt =====
-- What the code uses of Go's package strings, on texts as lists of code points.
use Prim.Native.Char.{Char, code}
use Prim.Native.String.{String, [], ◌∷◌, ◌++◌}
use mathlib.Core.Path.{◌≡◌, refl}
use mathlib.Core.Logic.{◌≢◌}
use mathlib.Core.Bool.{Bool, true, false, ◌||◌}
use mathlib.Core.Option.{Option, none, some}
use native.Mathlib.Omega.{arith}
use text.Mathlib.Text.{◌==◌}
use text.Mathlib.TextLemmas.{nil-append, cons-append}
use k3_control_plane.Base.Tests.{nat_eq, if◌then◌else◌}

abbrev pub char_eq : Char → Char → Bool
char_eq c d = nat_eq (code c) (code d)

-- `strings.CutPrefix`: what is left of the text after the prefix, if it starts with it.
unfoldable pub cut_prefix : String → String → Option String
cut_prefix s [] = some s
cut_prefix [] (d ∷ t) = none
cut_prefix (c ∷ s) (d ∷ t) = let rest = cut_prefix s t in if char_eq c d then rest else none

-- `strings.TrimPrefix`
unfoldable pub trim_prefix : String → String → String
trim_prefix s t = elim (cut_prefix s t) [ none ↦ s | some rest ↦ rest ]

-- What is left of the text before the suffix, if it ends in it.
unfoldable pub cut_suffix : String → String → Option String
cut_suffix [] t = if [] == t then some [] else none
cut_suffix (c ∷ s) t =
    let rest = cut_suffix s t in
    if (c ∷ s) == t then some [] else elim rest [ none ↦ none | some r ↦ some (c ∷ r) ]

-- `strings.HasSuffix`
unfoldable pub has_suffix : String → String → Bool
has_suffix s t = elim (cut_suffix s t) [ none ↦ false | some _ ↦ true ]

-- `strings.TrimSuffix`
unfoldable pub trim_suffix : String → String → String
trim_suffix s t = elim (cut_suffix s t) [ none ↦ s | some rest ↦ rest ]

-- `strings.HasPrefix`
unfoldable pub has_prefix : String → String → Bool
has_prefix s t = elim (cut_prefix s t) [ none ↦ false | some _ ↦ true ]

-- `strings.Contains`
unfoldable pub contains : String → String → Bool
contains [] t = has_prefix [] t
contains (c ∷ s) t = has_prefix (c ∷ s) t || contains s t

-- `strings.Cut`: the text before and after the first occurrence of the separator.
unfoldable pub cut : String → String → Option (String × String)
cut [] sep = elim (cut_prefix [] sep) [ none ↦ none | some after ↦ some ([], after) ]
cut (c ∷ s) sep =
    let later = cut s sep in
    elim (cut_prefix (c ∷ s) sep) [
      | some after ↦ some ([], after)
      | none ↦ elim later [ none ↦ none | some (before, after) ↦ some (c ∷ before, after) ]
    ]

-- A prefix is cut off again.
pub cut_prefix-append : (t s : String) → cut_prefix (t ++ s) t ≡ some s
unfolding cut_prefix
cut_prefix-append [] s = rw (nil-append s) refl
cut_prefix-append (c ∷ t) s = rw (cons-append c t s) ground (arith, cut_prefix-append t s)

pub append_longer : (s t : String) → t ≢ "" → (s ++ t) ≢ s
append_longer [] t h e = h (rw (nil-append t) at e)
append_longer (c ∷ s) t h e =
    let e' : (c ∷ (s ++ t)) ≡ (c ∷ s) = rw (cons-append c s t) at e in append_longer s t h cc
