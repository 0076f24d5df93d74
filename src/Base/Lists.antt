-- ===== src/Base/Lists.antt =====
-- Lists measured by native numbers, filtered by a Boolean test, and predicates over them.
use Prim.Native.Nat.{ℕ, zero, suc, ◌+◌, ◌≤◌}
use mathlib.Core.Path.{◌≡◌, refl, ap}
use mathlib.Core.Logic.{◌⊎◌, inl, inr, ◌↔◌}
use mathlib.Core.Bool.{Bool, true, ◌&&◌}
use mathlib.Core.List.{List, [], ◌∷◌, ◌++◌, map}
use native.Mathlib.Omega.{arith}
use k3_control_plane.Base.Tests.{if◌then◌else◌, Bool-cases}

module _ {ℓ} {A : Type ℓ} where
  abbrev pub length : List A → ℕ
  length [] = 0
  length (x ∷ xs) = suc (length xs)

  abbrev pub take : ℕ → List A → List A
  take zero xs = []
  take (suc n) [] = []
  take (suc n) (x ∷ xs) = x ∷ take n xs

  -- A loop that appends the items that pass a test to an empty slice.
  unfoldable pub filter_by : (A → Bool) → List A → List A
  filter_by p [] = []
  filter_by p (x ∷ xs) = let rest = filter_by p xs in if p x then x ∷ rest else rest

  abbrev pub All {κ} : (A → Type κ) → List A → Type κ
  All P [] = Unit
  All P (x ∷ xs) = P x × All P xs

-- A relation between each item and each later one.
abbrev pub AllPairs {ℓ κ} : {A : Type ℓ} → (A → A → Type κ) → List A → Type κ
AllPairs R [] = Unit
AllPairs R (x ∷ xs) = All (R x) xs × AllPairs R xs

-- How many items pass a test.
abbrev pub count_by {ℓ} : {A : Type ℓ} → (A → Bool) → List A → ℕ
count_by p [] = 0
count_by p (x ∷ xs) = (if p x then 1 else 0) + count_by p xs

-- Membership with its place, which the tactics take apart.
abbrev pub In : {A : Type 0} → A → List A → Type 0
In x [] = ⊥
In x (y ∷ ys) = (x ≡ y) ⊎ In x ys

module _ {A : Type 0} where
  pub length-filter_by : (p : A → Bool) (xs : List A) → length (filter_by p xs) ≡ count_by p xs
  unfolding filter_by
  length-filter_by p [] = refl
  length-filter_by p (x ∷ xs) = ground (arith, length-filter_by p xs)

  pub count_by-filter_by :
      (p q : A → Bool) (xs : List A) → count_by p (filter_by q xs) ≡ count_by (λ x. p x && q x) xs
  unfolding filter_by
  count_by-filter_by p q [] = refl
  count_by-filter_by p q (x ∷ xs) = ground (arith, count_by-filter_by p q xs)

  pub In-filter_by :
      (p : A → Bool) (x : A) (xs : List A) → In x (filter_by p xs) → In x xs × (p x ≡ true)
  unfolding filter_by
  In-filter_by p x [] m = absurd m
  In-filter_by p x (y ∷ ys) m = ground (arith, In-filter_by p x ys)

  pub filter_by-In :
      (p : A → Bool) (x : A) (xs : List A) → In x xs → p x ≡ true → In x (filter_by p xs)
  unfolding filter_by
  filter_by-In p x [] m h = absurd m
  filter_by-In p x (y ∷ ys) m h = ground (arith, filter_by-In p x ys)

  pub All-In {κ} : (P : A → Type κ) (x : A) (xs : List A) → All P xs → In x xs → P x
  All-In P x [] h m = absurd m
  All-In P x (y ∷ ys) h (inl e) = rw e h.0
  All-In P x (y ∷ ys) h (inr m) = All-In P x ys h.1 m

  pub In-All {κ} : (P : A → Type κ) (xs : List A) → ((x : A) → In x xs → P x) → All P xs
  In-All P [] h = tt
  In-All P (x ∷ xs) h = (h x (inl refl), In-All P xs (λ y m. h y (inr m)))

  pub All-filter_by {κ} :
      (P : A → Type κ) (p : A → Bool) (xs : List A) → All P xs → All P (filter_by p xs)
  unfolding filter_by
  All-filter_by P p [] h = tt
  All-filter_by P p (x ∷ xs) h = elim (Bool-cases (p x)) [
    | inl e ↦ rw e (h.0, All-filter_by P p xs h.1)
    | inr e ↦ rw e (All-filter_by P p xs h.1)
  ]

  pub length-filter_by-le : (p : A → Bool) (xs : List A) → length (filter_by p xs) ≤ length xs
  unfolding filter_by
  length-filter_by-le p [] = omega arith
  length-filter_by-le p (x ∷ xs) = ground (arith, length-filter_by-le p xs)

  pub length-append : (xs ys : List A) → length (xs ++ ys) ≡ length xs + length ys
  length-append [] ys = omega arith
  length-append (x ∷ xs) ys = omega (arith, length-append xs ys)

  pub AllPairs-filter_by {κ} :
      (R : A → A → Type κ) (p : A → Bool) (xs : List A)
      → AllPairs R xs
      → AllPairs R (filter_by p xs)
  unfolding filter_by
  AllPairs-filter_by R p [] h = tt
  AllPairs-filter_by R p (x ∷ xs) h = elim (Bool-cases (p x)) [
    | inl e ↦ rw e (All-filter_by (R x) p xs h.0, AllPairs-filter_by R p xs h.1)
    | inr e ↦ rw e (AllPairs-filter_by R p xs h.1)
  ]

  All-take {κ} : (P : A → Type κ) (n : ℕ) (xs : List A) → All P xs → All P (take n xs)
  All-take P zero xs h = tt
  All-take P (suc n) [] h = tt
  All-take P (suc n) (x ∷ xs) h = (h.0, All-take P n xs h.1)

  pub In-append : (x : A) (xs ys : List A) → In x (xs ++ ys) ↔ (In x xs ⊎ In x ys)
  In-append x [] ys = (λ m. inr m, λ m. ground arith)
  In-append x (y ∷ xs) ys =
      (λ m. ground (arith, (In-append x xs ys).0), λ m. ground (arith, (In-append x xs ys).1))

  pub AllPairs-append {κ} :
      (R : A → A → Type κ) (xs ys : List A) (x y : A)
      → AllPairs R (xs ++ ys)
      → In x xs
      → In y ys
      → R x y
  AllPairs-append R [] ys x y h i j = absurd i
  AllPairs-append R (z ∷ xs) ys x y h (inl e) j =
      rw e (All-In (R z) y (xs ++ ys) h.0 ((In-append y xs ys).1 (inr j)))
  AllPairs-append R (z ∷ xs) ys x y h (inr i) j = AllPairs-append R xs ys x y h.1 i j

  pub AllPairs-take {κ} :
      (R : A → A → Type κ) (n : ℕ) (xs : List A) → AllPairs R xs → AllPairs R (take n xs)
  AllPairs-take R zero xs h = tt
  AllPairs-take R (suc n) [] h = tt
  AllPairs-take R (suc n) (x ∷ xs) h = (All-take (R x) n xs h.0, AllPairs-take R n xs h.1)

  pub In-take : (x : A) (n : ℕ) (xs : List A) → In x (take n xs) → In x xs
  In-take x zero xs i = absurd i
  In-take x (suc n) [] i = absurd i
  In-take x (suc n) (y ∷ ys) (inl e) = inl e
  In-take x (suc n) (y ∷ ys) (inr i) = inr (In-take x n ys i)

  pub length-take_le : (n : ℕ) (xs : List A) → n ≤ length xs → length (take n xs) ≡ n
  length-take_le zero xs h = refl
  length-take_le (suc n) [] h = absurd (omega arith)
  length-take_le (suc n) (x ∷ xs) h = omega (arith, length-take_le n xs)

module _ {A B : Type 0} where
  pub In-map : (f : A → B) (x : A) (xs : List A) → In x xs → In (f x) (map f xs)
  In-map f x [] m = absurd m
  In-map f x (y ∷ ys) (inl e) = inl (ap f e)
  In-map f x (y ∷ ys) (inr m) = inr (In-map f x ys m)

  pub map-In : (f : A → B) (b : B) (xs : List A) → In b (map f xs) → (x : A) × In x xs × (b ≡ f x)
  map-In f b [] m = absurd m
  map-In f b (y ∷ ys) (inl e) = (y, inl refl, e)
  map-In f b (y ∷ ys) (inr m) = let (x, i, e) = map-In f b ys m in (x, inr i, e)
