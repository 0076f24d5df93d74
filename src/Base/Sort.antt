-- ===== src/Base/Sort.antt =====
-- `sort.Slice` with a Boolean `less`. Insertion sort stands for it: under an order that tells any two
-- of the items apart there is one sorted arrangement, so the algorithm makes no difference.
use mathlib.Core.Path.{◌≡◌, refl, sym, ◌∙◌, ap}
use mathlib.Core.Logic.{◌⊎◌, inl, inr, ◌↔◌}
use mathlib.Core.Bool.{Bool, true, false}
use mathlib.Core.List.{List, [], ◌∷◌, Permᴰ}
use mathlib.Core.List.Permᴰ.{nil, cons, swap, trans}
use native.Mathlib.Omega.{arith}
use k3_control_plane.Base.Tests.{if◌then◌else◌, Bool-cases}
use k3_control_plane.Base.Lists.{In, All, AllPairs, All-In, In-All, length, count_by}

-- What Go asks of a `less`.
pub record IsOrder {A : Type 0} (less : A → A → Bool) : Type 0 where
  pub asym : (a b : A) → less a b ≡ true → less b a ≡ false
  pub trans : (a b c : A) → less a b ≡ true → less b c ≡ true → less a c ≡ true
  pub neg_trans : (a b c : A) → less b a ≡ false → less c b ≡ false → less c a ≡ false

pub In-perm : {A : Type 0} (a : A) {xs ys : List A} → Permᴰ xs ys → In a xs ↔ In a ys
In-perm a nil = (λ m. m, λ m. m)
In-perm a (cons e p) = (λ m. ground (arith, (In-perm a p).0), λ m. ground (arith, (In-perm a p).1))
In-perm a (swap e f) = (λ m. ground arith, λ m. ground arith)
In-perm a (trans p q) =
    (λ m. (In-perm a q).0 ((In-perm a p).0 m), λ m. (In-perm a p).1 ((In-perm a q).1 m))

module _ {A : Type 0} (less : A → A → Bool) where
  unfoldable pub insert_sorted : A → List A → List A
  insert_sorted x [] = x ∷ []
  insert_sorted x (y ∷ ys) =
      let rest = insert_sorted x ys in if less y x then y ∷ rest else x ∷ y ∷ ys

  unfoldable pub sort_by : List A → List A
  unfolding insert_sorted
  sort_by [] = []
  sort_by (x ∷ xs) = insert_sorted x (sort_by xs)

  -- Any two different items of the list are in order one way or the other.
  abbrev pub IsTotalOn : List A → Type 0
  IsTotalOn xs = (a b : A) → In a xs → In b xs → (a ≡ b) ⊎ (less a b ≡ true) ⊎ (less b a ≡ true)

  -- No later item is less than an earlier one.
  abbrev pub IsSorted : List A → Type 0
  IsSorted [] = Unit
  IsSorted (x ∷ xs) = All (λ y. less y x ≡ false) xs × IsSorted xs

  In-insert_sorted : (a x : A) (xs : List A) → In a (insert_sorted x xs) ↔ (In a (x ∷ xs))
  unfolding insert_sorted
  In-insert_sorted a x [] = (λ m. m, λ m. m)
  In-insert_sorted a x (y ∷ ys) = (
    λ m. ground (arith, (In-insert_sorted a x ys).0),
    λ m. ground (arith, (In-insert_sorted a x ys).1),
  )

  pub In-sort_by : (a : A) (xs : List A) → In a (sort_by xs) ↔ In a xs
  unfolding sort_by
  In-sort_by a [] = (λ m. m, λ m. m)
  In-sort_by a (x ∷ xs) = (
    λ m. ground (arith, (In-insert_sorted a x (sort_by xs)).0, (In-sort_by a xs).0),
    λ m. ground (arith, (In-insert_sorted a x (sort_by xs)).1, (In-sort_by a xs).1),
  )

  count_by-insert_sorted :
      (p : A → Bool) (x : A) (xs : List A) → count_by p (insert_sorted x xs) ≡ count_by p (x ∷ xs)
  unfolding insert_sorted
  count_by-insert_sorted p x [] = refl
  count_by-insert_sorted p x (y ∷ ys) = ground (arith, count_by-insert_sorted p x ys)

  pub count_by-sort_by : (p : A → Bool) (xs : List A) → count_by p (sort_by xs) ≡ count_by p xs
  unfolding sort_by
  count_by-sort_by p [] = refl
  count_by-sort_by p (x ∷ xs) =
      omega (arith, count_by-insert_sorted p x (sort_by xs), count_by-sort_by p xs)

  length-insert_sorted : (x : A) (xs : List A) → length (insert_sorted x xs) ≡ length (x ∷ xs)
  unfolding insert_sorted
  length-insert_sorted x [] = refl
  length-insert_sorted x (y ∷ ys) = ground (arith, length-insert_sorted x ys)

  pub length-sort_by : (xs : List A) → length (sort_by xs) ≡ length xs
  unfolding sort_by
  length-sort_by [] = refl
  length-sort_by (x ∷ xs) = omega (arith, length-insert_sorted x (sort_by xs), length-sort_by xs)

  All-insert_sorted :
      (P : A → Type 0) (x : A) (xs : List A) → P x → All P xs → All P (insert_sorted x xs)
  unfolding insert_sorted
  All-insert_sorted P x [] px h = (px, tt)
  All-insert_sorted P x (y ∷ ys) px h = elim (Bool-cases (less y x)) [
    | inl e ↦ rw e (h.0, All-insert_sorted P x ys px h.1)
    | inr e ↦ rw e (px, h)
  ]

  -- Sorting keeps a symmetric relation between any two items.
  module _ (R : A → A → Type 0) (R_symm : (a b : A) → R a b → R b a) where
    AllPairs-insert_sorted :
        (x : A) (xs : List A) → All (R x) xs → AllPairs R xs → AllPairs R (insert_sorted x xs)
    unfolding insert_sorted
    AllPairs-insert_sorted x [] h k = (tt, tt)
    AllPairs-insert_sorted x (y ∷ ys) h k = elim (Bool-cases (less y x)) [
      | inl e ↦
          rw e
            (All-insert_sorted (R y) x ys (R_symm x y h.0) k.0, AllPairs-insert_sorted x ys h.1 k.1)
      | inr e ↦ rw e (h, k)
    ]

    pub AllPairs-sort_by : (xs : List A) → AllPairs R xs → AllPairs R (sort_by xs)
    unfolding sort_by
    AllPairs-sort_by [] k = tt
    AllPairs-sort_by (x ∷ xs) k =
        AllPairs-insert_sorted x (sort_by xs)
          (In-All (R x) (sort_by xs) (λ y i. All-In (R x) y xs k.0 ((In-sort_by y xs).0 i)))
          (AllPairs-sort_by xs k.1)

  module _ (order : IsOrder less) where
    All-below :
        (x y : A) (ys : List A)
        → less y x ≡ false
        → All (λ z. less z y ≡ false) ys
        → All (λ z. less z x ≡ false) ys
    All-below x y [] e h = tt
    All-below x y (z ∷ zs) e h = (order.neg_trans x y z e h.0, All-below x y zs e h.1)

    IsSorted-insert_sorted : (x : A) (xs : List A) → IsSorted xs → IsSorted (insert_sorted x xs)
    unfolding insert_sorted
    IsSorted-insert_sorted x [] h = (tt, tt)
    IsSorted-insert_sorted x (y ∷ ys) h = elim (Bool-cases (less y x)) [
      | inl e ↦ rw e (
        All-insert_sorted (λ z. less z y ≡ false) x ys (order.asym y x e) h.0,
        IsSorted-insert_sorted x ys h.1,
      )
      | inr e ↦ rw e ((e, All-below x y ys e h.0), h)
    ]

    pub sort_by-IsSorted : (xs : List A) → IsSorted (sort_by xs)
    unfolding sort_by
    sort_by-IsSorted [] = tt
    sort_by-IsSorted (x ∷ xs) = IsSorted-insert_sorted x (sort_by xs) (sort_by-IsSorted xs)

    insert_sorted_comm_lt :
        (x y : A) (xs : List A)
        → less x y ≡ true
        → insert_sorted x (insert_sorted y xs) ≡ insert_sorted y (insert_sorted x xs)
    unfolding insert_sorted
    insert_sorted_comm_lt x y [] h = ground (arith, order.asym x y h)
    insert_sorted_comm_lt x y (z ∷ zs) h =
        ground (arith, order.asym x y h, order.trans z x y, insert_sorted_comm_lt x y zs)

    insert_sorted_comm :
        (x y : A) (xs : List A)
        → (x ≡ y) ⊎ (less x y ≡ true) ⊎ (less y x ≡ true)
        → insert_sorted x (insert_sorted y xs) ≡ insert_sorted y (insert_sorted x xs)
    insert_sorted_comm x y xs (inl e) = rw e
    insert_sorted_comm x y xs (inr (inl h)) = insert_sorted_comm_lt x y xs h
    insert_sorted_comm x y xs (inr (inr h)) = sym (insert_sorted_comm_lt y x xs h)

    -- Where the order tells different items apart, sorting forgets the arrangement of the input.
    pub sort_by-perm : {xs ys : List A} → Permᴰ xs ys → IsTotalOn xs → sort_by xs ≡ sort_by ys
    unfolding sort_by
    sort_by-perm nil t = refl
    sort_by-perm (cons {l₁ = xs} e p) t =
        rw e (ap (insert_sorted _) (sort_by-perm p (λ a b i j. t a b (inr i) (inr j))))
    sort_by-perm (swap {a = a} {b = b} {l = l} e f) t =
        rw (← e, ← f) (insert_sorted_comm a b (sort_by l) (t a b (inl refl) (inr (inl refl))))
    sort_by-perm (trans p q) t =
        sort_by-perm p t ∙ sort_by-perm q (λ a b i j. t a b ((In-perm a p).1 i) ((In-perm b p).1 j))
