-- ===== src/Sqlite/Listing.antt =====
-- What `list` of `SQLiteStore` (internal/store/sqlite.go) returns is the listing of `MemoryStore`.
use mathlib.Core.Option.{some-injective}
use k3_control_plane.Base.{
  String, Bool, true, false, ◌≡◌, ◌≢◌, refl, sym, ap, ◌∙◌, subst, Option, none, some, List, [], ◌∷◌,
  map, inl, inr, ◌↔◌, ◌⊎◌, In, AllPairs, In-All, All-In, filter_by, In-filter_by, filter_by-In,
  AllPairs-filter_by,
}
use k3_control_plane.Base.Assoc
use k3_control_plane.Base.Assoc.{Assoc}
use k3_control_plane.Base.Sort.{
  IsOrder, IsSorted, sort_by, sort_by-IsSorted, In-sort_by, AllPairs-sort_by,
}
use k3_control_plane.Base.Sorted.{IsSorted-of_pairs, pairs_of_sorted, sorted_same}
use k3_control_plane.Store.Listing.{map_same}
use k3_control_plane.Sqlite.{Codec, decode_all}
use k3_control_plane.Sqlite.Represents.{HasKeysOnce, Both}
use k3_control_plane.Sqlite.Refinement.{some_of-Both}
use k3_control_plane.Sqlite.Aligned.{
  get-In, In-get, keys_apart, IsEntry, Aligned-decoded, decode_all-some, AllPairs-Aligned,
  In-Aligned, Aligned-In,
}

-- The rows of a query: those of the table that it is about, in the order that it asks for.
pub record IsSelection {V : Type 0} (less : String × V → String × V → Bool) (p : V → Bool)
    (m : Assoc V) (es : List (String × V)) : Type 0 where
  pub sorted : IsSorted less es
  pub apart : AllPairs (λ (a b : String × V). a.0 ≢ b.0) es
  pub members : (e : String × V) → In e es ↔ (In e m × (p e.1 ≡ true))

-- The listing of a store: the stored objects that a test holds of, each once, in order.
pub record IsListing {A : Type 0} (key : A → String) (less : A → A → Bool) (q : A → Bool)
    (n : Assoc A) (xs : List A) : Type 0 where
  pub sorted : IsSorted less xs
  pub apart : AllPairs (λ a b. key a ≢ key b) xs
  pub members : (a : A) → In a xs ↔ ((Assoc.get (key a) n ≡ some a) × (q a ≡ true))

values_apart :
    {A : Type 0} (key : A → String) (xs : List A)
    → AllPairs (λ a b. key a ≢ key b) xs
    → AllPairs (λ a b. a ≢ b) xs
values_apart key [] h = tt
values_apart key (a ∷ xs) h = (
  In-All (λ b. a ≢ b) xs (λ b i same. All-In (λ b. key a ≢ key b) b xs h.0 i (ap key same)),
  values_apart key xs h.1,
)

module _ {A : Type 0} (key : A → String) (less : A → A → Bool) (q : A → Bool) (n : Assoc A)
    (total : (a b : A) → (key a ≡ key b) ⊎ (less a b ≡ true) ⊎ (less b a ≡ true)) where
  -- There is one such listing.
  pub listing_unique :
      (xs ys : List A) → IsListing key less q n xs → IsListing key less q n ys → xs ≡ ys
  listing_unique xs ys h k =
      sorted_same less xs ys h.sorted k.sorted (values_apart key xs h.apart)
        (values_apart key ys k.apart)
        (λ a. (λ i. (k.members a).1 ((h.members a).0 i), λ i. (h.members a).1 ((k.members a).0 i)))
        (λ a b i j. elim (total a b) [
          | inl e ↦ inl (
              some-injective a b
                (sym ((h.members a).0 i).0 ∙ (ap (λ x. Assoc.get x n) e ∙ ((h.members b).0 j).0)))
          | inr o ↦ inr o
        ])

pub selected :
    {V : Type 0} (less : String × V → String × V → Bool) (p : V → Bool) (m : Assoc V)
    → IsOrder less
    → HasKeysOnce m
    → IsSelection less p m (sort_by less (filter_by (λ (e : String × V). p e.1) m))
selected {V} less p m order h =
    let test : String × V → Bool = λ e. p e.1 in
    let rows = filter_by test m in
    record {
      sorted = sort_by-IsSorted less order rows;
      apart =
          AllPairs-sort_by less (λ (a b : String × V). a.0 ≢ b.0)
            (λ a b apart same. apart (sym same)) rows
            (AllPairs-filter_by (λ (a b : String × V). a.0 ≢ b.0) test m (keys_apart m h));
      members = λ e. (
        λ i. In-filter_by test e m ((In-sort_by less e rows).0 i),
        λ i. (In-sort_by less e rows).1 (filter_by-In test e m i.0 i.1),
      );
    }

row_of-Both :
    {V A : Type 0} (R : V → A → Type 0) (o : Option V) (p : Option A) (a : A)
    → Both R o p
    → p ≡ some a
    → (v : V) × (o ≡ some v) × R v a
row_of-Both R none none a h e = cc
row_of-Both R none (some b) a h e = absurd h
row_of-Both R (some v) none a h e = cc
row_of-Both R (some v) (some b) a h e = (v, refl, subst (R v) (some-injective b a e) h)

-- What is decoded from the rows of a query is the listing of the objects that they hold.
module _ {V A : Type 0} (R : V → A → Type 0) (codec : Codec A) (column : V → String)
    (key : A → String) (row_less : String × V → String × V → Bool) (less : A → A → Bool)
    (p : V → Bool) (q : A → Bool) (m : Assoc V) (n : Assoc A)
    (column_decoded : (v : V) (a : A) → R v a → codec.decode (column v) ≡ some a)
    (same_test : (v : V) (a : A) → R v a → p v ≡ q a)
    (same_order : (e f : String × V) (a b : A)
      → IsEntry R n e a
      → IsEntry R n f b
      → row_less f e ≡ less b a)
    (keyed : Assoc.IsKeyed key n) (once : HasKeysOnce m)
    (both : (k : String) → Both R (Assoc.get k m) (Assoc.get k n)) where
  IsEntry-of : (e : String × V) → In e m → (a : A) × IsEntry R n e a
  IsEntry-of e i =
      let (a, found, r) = some_of-Both R _ _ e.1 (both e.0) (get-In e.0 e.1 m once i) in
      (a, (found, r))

  -- The rows can all be decoded.
  readable :
      (es : List (String × V))
      → IsSelection row_less p m es
      → (items : List A) × (decode_all codec (map (λ (e : String × V). column e.1) es) ≡ some items)
  readable es h =
      decode_all-some R n codec column es column_decoded (λ e i. IsEntry-of e ((h.members e).0 i).0)

  decoded-IsListing :
      (es : List (String × V)) (items : List A)
      → IsSelection row_less p m es
      → decode_all codec (map (λ (e : String × V). column e.1) es) ≡ some items
      → IsListing key less q n items
  decoded-IsListing es items h d =
      let aligned =
        Aligned-decoded R n codec column es items column_decoded
          (λ e i. IsEntry-of e ((h.members e).0 i).0) d in
      let key_is : (e : String × V) (a : A) → IsEntry R n e a → key a ≡ e.0 =
        λ e a is. Assoc.key-eq_of_get key e.0 a n keyed is.0 in
      record {
        sorted = IsSorted-of_pairs less items (
            AllPairs-Aligned R n (λ e f. row_less f e ≡ false) (λ a b. less b a ≡ false) es items
              (λ e f a b is js below. sym (same_order e f a b is js) ∙ below) aligned
              (pairs_of_sorted row_less es h.sorted));
        apart =
            AllPairs-Aligned R n (λ (e f : String × V). e.0 ≢ f.0) (λ a b. key a ≢ key b) es items
              (λ e f a b is js apart same. apart (sym (key_is e a is) ∙ (same ∙ key_is f b js)))
              aligned h.apart;
        members = λ a. (
          λ i.
              let (e, j, is) = In-Aligned R n es items a aligned i in
              (
                ap (λ k. Assoc.get k n) (key_is e a is) ∙ is.0,
                sym (same_test e.1 a is.1) ∙ ((h.members e).0 j).1,
              ),
          λ stored.
              let (v, at_key, r) = row_of-Both R _ _ a (both (key a)) stored.0 in
              Aligned-In R n es items (key a, v) a aligned
                ((h.members (key a, v)).1 (In-get (key a) v m at_key, same_test v a r ∙ stored.1))
                stored.0,
        );
      }

  -- So what is decoded is any such listing.
  pub decoded_is :
      (es : List (String × V)) (xs : List A)
      → ((a b : A) → (key a ≡ key b) ⊎ (less a b ≡ true) ⊎ (less b a ≡ true))
      → IsSelection row_less p m es
      → IsListing key less q n xs
      → decode_all codec (map (λ (e : String × V). column e.1) es) ≡ some xs
  decoded_is es xs total h listed =
      let (items, d) = readable es h in
      d
      ∙ ap some (listing_unique key less q n total items xs (decoded-IsListing es items h d) listed)

-- The listings of `MemoryStore`.
pub stored-IsListing :
    {A : Type 0} (key : A → String) (less : A → A → Bool) (clone : A → A) (n : Assoc A)
    → ((a : A) → clone a ≡ a)
    → IsOrder less
    → Assoc.IsKeyed key n
    → IsListing key less (λ a. true) n (sort_by less (map clone (Assoc.values n)))
stored-IsListing key less clone n clone_lem order keyed =
    rw (map_same clone clone_lem (Assoc.values n)) (record {
      sorted = sort_by-IsSorted less order (Assoc.values n);
      apart =
          AllPairs-sort_by less (λ a b. key a ≢ key b) (λ a b apart same. apart (sym same))
            (Assoc.values n) (Assoc.values-distinct key n keyed);
      members = λ a. (
        λ i. (Assoc.get-key_of_In key a n keyed ((In-sort_by less a (Assoc.values n)).0 i), refl),
        λ g. (In-sort_by less a (Assoc.values n)).1 (Assoc.In-values_of_get (key a) a n g.0),
      );
    })

pub filter_by-IsListing :
    {A : Type 0} (key : A → String) (less : A → A → Bool) (q : A → Bool) (n : Assoc A) (xs : List A)
    → IsListing key less (λ a. true) n xs
    → IsListing key less q n (filter_by q xs)
filter_by-IsListing key less q n xs h = record {
  sorted =
      IsSorted-of_pairs less (filter_by q xs)
        (AllPairs-filter_by (λ a b. less b a ≡ false) q xs (pairs_of_sorted less xs h.sorted));
  apart = AllPairs-filter_by (λ a b. key a ≢ key b) q xs h.apart;
  members = λ a. (
    λ i. let (j, e) = In-filter_by q a xs i in (((h.members a).0 j).0, e),
    λ g. filter_by-In q a xs ((h.members a).1 (g.0, refl)) g.1,
  );
}
