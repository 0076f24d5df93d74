-- ===== src/Base/Sorted.antt =====
-- A sorted list is given by its members, where they are different from one another.
use mathlib.Core.Path.{◌≡◌, refl, sym, subst}
use mathlib.Core.Logic.{◌⊎◌, inl, inr, ◌↔◌, ◌≢◌}
use mathlib.Core.Bool.{Bool, true, false}
use mathlib.Core.List.{List, [], ◌∷◌}
use native.Mathlib.Omega.{arith}
use k3_control_plane.Base.Lists.{In, All, AllPairs, All-In}
use k3_control_plane.Base.Sort.{IsSorted}

abbrev pub SameMembers : {A : Type 0} → List A → List A → Type 0
SameMembers {A} xs ys = (a : A) → In a xs ↔ In a ys

-- Any two items are the same or in order one way or the other.
abbrev pub IsTotal : {A : Type 0} → (A → A → Bool) → List A → Type 0
IsTotal {A} less xs =
    (a b : A) → In a xs → In b xs → (a ≡ b) ⊎ (less a b ≡ true) ⊎ (less b a ≡ true)

module _ {A : Type 0} (less : A → A → Bool) where
  -- The first items of two sorted lists with the same members are the same.
  heads_same :
      (x y : A) (xs ys : List A)
      → IsSorted less (x ∷ xs)
      → IsSorted less (y ∷ ys)
      → SameMembers (x ∷ xs) (y ∷ ys)
      → IsTotal less (x ∷ xs)
      → x ≡ y
  heads_same x y xs ys sx sy same total = elim ((same x).0 (inl refl)) [
    | inl e ↦ e
    | inr i ↦ elim ((same y).1 (inl refl)) [
      | inl e ↦ sym e
      | inr j ↦
          let xy : less x y ≡ false = All-In (λ z. less z y ≡ false) x ys sy.0 i in
          let yx : less y x ≡ false = All-In (λ z. less z x ≡ false) y xs sx.0 j in
          ground (arith, xy, yx, total x y (inl refl) (inr j))
    ]
  ]

  tails_same :
      (x : A) (xs ys : List A)
      → All (λ z. x ≢ z) xs
      → All (λ z. x ≢ z) ys
      → SameMembers (x ∷ xs) (x ∷ ys)
      → SameMembers xs ys
  tails_same x xs ys nx ny same a = (
    λ i. elim ((same a).0 (inr i)) [
      | inl e ↦ absurd (All-In (λ z. x ≢ z) a xs nx i (sym e))
      | inr j ↦ j
    ],
    λ i. elim ((same a).1 (inr i)) [
      | inl e ↦ absurd (All-In (λ z. x ≢ z) a ys ny i (sym e))
      | inr j ↦ j
    ],
  )

  pub sorted_same :
      (xs ys : List A)
      → IsSorted less xs
      → IsSorted less ys
      → AllPairs (λ a b. a ≢ b) xs
      → AllPairs (λ a b. a ≢ b) ys
      → SameMembers xs ys
      → IsTotal less xs
      → xs ≡ ys
  sorted_same [] [] sx sy dx dy same total = refl
  sorted_same [] (y ∷ ys) sx sy dx dy same total = absurd ((same y).1 (inl refl))
  sorted_same (x ∷ xs) [] sx sy dx dy same total = absurd ((same x).0 (inl refl))
  sorted_same (x ∷ xs) (y ∷ ys) sx sy dx dy same total =
      let e = heads_same x y xs ys sx sy same total in
      let dy' : All (λ z. x ≢ z) ys = subst (λ w. All (λ z. w ≢ z) ys) (sym e) dy.0 in
      let same' : SameMembers (x ∷ xs) (x ∷ ys) =
        subst (λ w. SameMembers (x ∷ xs) (w ∷ ys)) (sym e) same in
      λ i.
        e i
        ∷ sorted_same xs ys sx.1 sy.1 dx.1 dy.1 (tails_same x xs ys dx.0 dy' same')
            (λ a b j k. total a b (inr j) (inr k)) i

-- No later item of a sorted list is less than an earlier one.
pub IsSorted-of_pairs :
    {A : Type 0} (less : A → A → Bool) (xs : List A)
    → AllPairs (λ a b. less b a ≡ false) xs
    → IsSorted less xs
IsSorted-of_pairs less [] h = tt
IsSorted-of_pairs less (x ∷ xs) h = (h.0, IsSorted-of_pairs less xs h.1)

pub pairs_of_sorted :
    {A : Type 0} (less : A → A → Bool) (xs : List A)
    → IsSorted less xs
    → AllPairs (λ a b. less b a ≡ false) xs
pairs_of_sorted less [] h = tt
pairs_of_sorted less (x ∷ xs) h = (h.0, pairs_of_sorted less xs h.1)
