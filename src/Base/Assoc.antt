-- ===== src/Base/Assoc.antt =====
-- A Go map from strings, as an association list. The order of the entries stands for the order in
-- which a `range` loop meets them, which Go leaves open.
use Prim.Native.String.{String}
use mathlib.Core.Path.{◌≡◌, refl, sym, ap, ◌∙◌}
use mathlib.Core.Logic.{◌≢◌, inl, inr}
use mathlib.Core.Bool.{Bool, true, false, ◌||◌}
use Prim.Native.Nat.{◌+◌}
use mathlib.Core.Option.{Option, none, some, none-ne-some}
use mathlib.Core.List.{List, [], ◌∷◌}
use native.Mathlib.Omega.{arith}
use text.Mathlib.Text.{◌==◌}
use text.Mathlib.TextEquality.{eq_iff}
use k3_control_plane.Base.Tests.{if◌then◌else◌, Bool-cases}
use k3_control_plane.Base.Lists.{In, In-All, AllPairs, count_by}

abbrev pub Assoc : Type 0 → Type 0
Assoc V = List (String × V)

module _ {V : Type 0} where
  -- `v, ok := m[k]`
  unfoldable pub get : String → Assoc V → Option V
  get k [] = none
  get k ((j, v) ∷ m) = if j == k then some v else get k m

  -- `m[k] = v`
  unfoldable pub put : String → V → Assoc V → Assoc V
  put k v [] = (k, v) ∷ []
  put k v ((j, w) ∷ m) = if j == k then (k, v) ∷ m else (j, w) ∷ put k v m

  -- `delete(m, k)`
  unfoldable pub remove : String → Assoc V → Assoc V
  remove k [] = []
  remove k ((j, w) ∷ m) = let rest = remove k m in if j == k then rest else (j, w) ∷ rest

  -- `_, ok := m[k]`
  unfoldable pub has : String → Assoc V → Bool
  has k m = elim (get k m) [ none ↦ false | some _ ↦ true ]

  -- `m[k]`, the zero value where the key is missing.
  unfoldable pub get_or : V → String → Assoc V → V
  get_or zero k m = elim (get k m) [ none ↦ zero | some v ↦ v ]

  unfoldable pub values : Assoc V → List V
  values [] = []
  values ((k, v) ∷ m) = v ∷ values m

  pub get-put :
      (k j : String) (v : V) (m : Assoc V)
      → get j (put k v m) ≡ (if k == j then some v else get j m)
  unfolding get put
  get-put k j v [] = refl
  get-put k j v ((i, w) ∷ m) = ground (arith, eq_iff k j, eq_iff i k, eq_iff i j, get-put k j v m)

  pub get-remove :
      (k j : String) (m : Assoc V) → get j (remove k m) ≡ (if k == j then none else get j m)
  unfolding get remove
  get-remove k j [] = ground arith
  get-remove k j ((i, w) ∷ m) = ground (arith, eq_iff k j, eq_iff i k, eq_iff i j, get-remove k j m)

  pub has-put : (k j : String) (v : V) (m : Assoc V) → has j (put k v m) ≡ (k == j || has j m)
  unfolding has
  has-put k j v m = rw (get-put k j v m, has) (ground arith)

  pub get_or-put :
      (zero : V) (k j : String) (v : V) (m : Assoc V)
      → get_or zero j (put k v m) ≡ (if k == j then v else get_or zero j m)
  unfolding get_or
  get_or-put zero k j v m = rw (get-put k j v m, get_or) (ground arith)

  pub remove-absent : (k : String) (m : Assoc V) → get k m ≡ none → remove k m ≡ m
  unfolding get remove
  remove-absent k [] h = refl
  remove-absent k ((j, w) ∷ m) h = ground (arith, remove-absent k m)

  pub In-values_of_get : (k : String) (v : V) (m : Assoc V) → get k m ≡ some v → In v (values m)
  unfolding get values
  In-values_of_get k v [] h = cc
  In-values_of_get k v ((j, w) ∷ m) h = ground (arith, In-values_of_get k v m)

-- Each key stands once, and is the key of its value.
module _ {V : Type 0} (key : V → String) where
  abbrev pub IsKeyed : Assoc V → Type 0
  IsKeyed [] = Unit
  IsKeyed ((k, v) ∷ m) = (key v ≡ k) × (get k m ≡ none) × IsKeyed m

  pub IsKeyed-put : (k : String) (v : V) (m : Assoc V) → key v ≡ k → IsKeyed m → IsKeyed (put k v m)
  unfolding put get
  IsKeyed-put k v [] e h = (e, refl, tt)
  IsKeyed-put k v ((j, w) ∷ m) e h = elim (Bool-cases (j == k)) [
    | inl same ↦ rw same (e, rw ((eq_iff j k).0 same) at h.1, h.2)
    | inr other ↦
        rw other
          (h.0, rw get-put (ground (arith, eq_iff j k, eq_iff k j, h.1)), IsKeyed-put k v m e h.2)
  ]

  pub IsKeyed-remove : (k : String) (m : Assoc V) → IsKeyed m → IsKeyed (remove k m)
  unfolding remove
  IsKeyed-remove k [] h = tt
  IsKeyed-remove k ((j, w) ∷ m) h = elim (Bool-cases (j == k)) [
    | inl same ↦ rw same (IsKeyed-remove k m h.2)
    | inr other ↦ rw other (h.0, ground (arith, get-remove k j m, h.1), IsKeyed-remove k m h.2)
  ]

  pub get-key_of_In : (v : V) (m : Assoc V) → IsKeyed m → In v (values m) → get (key v) m ≡ some v
  unfolding get values
  get-key_of_In v [] h i = absurd i
  get-key_of_In v ((j, w) ∷ m) h (inl e) = ground (arith, eq_iff j (key v))
  get-key_of_In v ((j, w) ∷ m) h (inr i) =
      let found = get-key_of_In v m h.2 i in ground (arith, found, eq_iff j (key v))

  pub key-eq_of_get : (k : String) (v : V) (m : Assoc V) → IsKeyed m → get k m ≡ some v → key v ≡ k
  unfolding get
  key-eq_of_get k v [] h g = cc
  key-eq_of_get k v ((j, w) ∷ m) h g = ground (arith, eq_iff j k, key-eq_of_get k v m)

  -- The keys of the values are different from one another.
  pub values-distinct : (m : Assoc V) → IsKeyed m → AllPairs (λ v w. key v ≢ key w) (values m)
  unfolding values get
  values-distinct [] h = tt
  values-distinct ((k, v) ∷ m) h = (
    In-All (λ w. key v ≢ key w) (values m)
        λ w i same.
          none-ne-some w (sym h.1 ∙ (ap (λ x. get x m) (sym h.0 ∙ same) ∙ get-key_of_In w m h.2 i)),
    values-distinct m h.2,
  )

  -- A new key adds one value, and a removed one takes its value away.
  pub count_by-put :
      (p : V → Bool) (k : String) (v : V) (m : Assoc V)
      → get k m ≡ none
      → count_by p (values (put k v m)) ≡ count_by p (values m) + (if p v then 1 else 0)
  unfolding values put get
  count_by-put p k v [] h = omega arith
  count_by-put p k v ((j, w) ∷ m) h = ground (arith, count_by-put p k v m)

  pub count_by-remove :
      (p : V → Bool) (k : String) (v : V) (m : Assoc V)
      → IsKeyed m
      → get k m ≡ some v
      → count_by p (values (remove k m)) + (if p v then 1 else 0) ≡ count_by p (values m)
  unfolding values remove get
  count_by-remove p k v [] h g = cc
  count_by-remove p k v ((j, w) ∷ m) h g =
      ground (arith, count_by-remove p k v m, remove-absent k m, eq_iff j k, h.1)
