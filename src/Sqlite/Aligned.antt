-- ===== src/Sqlite/Aligned.antt =====
-- The rows that `list` of `SQLiteStore` (internal/store/sqlite.go) reads, next to the objects that it
-- decodes from them.
use mathlib.Core.Option.{some-injective}
use k3_control_plane.Base.{
  String, ◌≡◌, ◌≢◌, refl, sym, ap, ◌∙◌, subst, none, some, List, [], ◌∷◌, map, inl, inr, arith,
  Option-cases, Bool-cases, ◌==◌, eq_iff, In, All, AllPairs, In-All,
}
use k3_control_plane.Base.Assoc
use k3_control_plane.Base.Assoc.{Assoc}
use k3_control_plane.Sqlite.{Codec, decode_all}
use k3_control_plane.Sqlite.Represents.{HasKeysOnce}

-- An entry of a table stands where its key leads to.
pub get-In :
    {V : Type 0} (k : String) (v : V) (m : Assoc V)
    → HasKeysOnce m
    → In (k, v) m
    → Assoc.get k m ≡ some v
unfolding Assoc.get
get-In k v [] h i = absurd i
get-In k v ((j, w) ∷ m) h (inl e) =
    let k_is = ap (λ (x : _). x.0) e in
    let v_is = ap (λ (x : _). x.1) e in ground (arith, eq_iff j k, sym k_is, v_is)
get-In k v ((j, w) ∷ m) h (inr i) =
    let later = get-In k v m h.1 i in
    elim (Bool-cases (j == k)) [
      | inl e ↦ let missing = ap (λ x. Assoc.get x m) (sym ((eq_iff j k).0 e)) ∙ h.0 in absurd cc
      | inr e ↦ rw e later
    ]

pub In-get : {V : Type 0} (k : String) (v : V) (m : Assoc V) → Assoc.get k m ≡ some v → In (k, v) m
unfolding Assoc.get
In-get k v [] g = cc
In-get k v ((j, w) ∷ m) g = elim (Bool-cases (j == k)) [
  | inl e ↦
      let w_is : some w ≡ some v = rw e at g in
      inl (λ i. (sym ((eq_iff j k).0 e) i, sym (some-injective w v w_is) i))
  | inr e ↦ inr (In-get k v m (rw e at g))
]

pub keys_apart :
    {V : Type 0} (m : Assoc V) → HasKeysOnce m → AllPairs (λ (a b : String × V). a.0 ≢ b.0) m
keys_apart [] h = tt
keys_apart ((k, v) ∷ m) h = (
  In-All (λ b. k ≢ b.0) m
      (λ b i same.
        let found = get-In b.0 b.1 m h.1 i in
        let missing = ap (λ x. Assoc.get x m) (sym same) ∙ h.0 in cc),
  keys_apart m h.1,
)

module _ {V A : Type 0} (R : V → A → Type 0) (n : Assoc A) where
  -- The entry and the object that is stored under its key.
  abbrev pub IsEntry : String × V → A → Type 0
  IsEntry e a = (Assoc.get e.0 n ≡ some a) × R e.1 a

  abbrev pub Aligned : List (String × V) → List A → Type 0
  Aligned [] [] = Unit
  Aligned [] (a ∷ as') = ⊥
  Aligned (e ∷ es) [] = ⊥
  Aligned (e ∷ es) (a ∷ as') = IsEntry e a × Aligned es as'

  pub Aligned-decoded :
      (codec : Codec A) (column : V → String) (es : List (String × V)) (items : List A)
      → ((v : V) (a : A) → R v a → codec.decode (column v) ≡ some a)
      → ((e : String × V) → In e es → (a : A) × IsEntry e a)
      → decode_all codec (map (λ e. column e.1) es) ≡ some items
      → Aligned es items
  unfolding decode_all
  Aligned-decoded codec column [] [] decoded entry h = tt
  Aligned-decoded codec column [] (a ∷ items) decoded entry h = cc
  Aligned-decoded codec column (e ∷ es) items decoded entry h =
      let (a, is) = entry e (inl refl) in
      let rest = decode_all codec (map (λ (f : String × V). column f.1) es) in
      elim (Option-cases rest) [
        | inl none_is ↦
            let h' : none ≡ some items = rw (decoded e.1 a is.1, none_is) at h in absurd cc
        | inr (later, later_is) ↦
            let h' : some (a ∷ later) ≡ some items = rw (decoded e.1 a is.1, later_is) at h in
            subst (Aligned (e ∷ es)) (some-injective (a ∷ later) items h')
              (is, Aligned-decoded codec column es later decoded (λ f i. entry f (inr i)) later_is)
      ]

  pub decode_all-some :
      (codec : Codec A) (column : V → String) (es : List (String × V))
      → ((v : V) (a : A) → R v a → codec.decode (column v) ≡ some a)
      → ((e : String × V) → In e es → (a : A) × IsEntry e a)
      → (items : List A) × (decode_all codec (map (λ e. column e.1) es) ≡ some items)
  unfolding decode_all
  decode_all-some codec column [] decoded entry = ([], refl)
  decode_all-some codec column (e ∷ es) decoded entry =
      let (a, is) = entry e (inl refl) in
      let (items, later) = decode_all-some codec column es decoded (λ f i. entry f (inr i)) in
      (a ∷ items, rw (decoded e.1 a is.1, later) refl)

  -- What is related to an entry is related to its object.
  All-Aligned :
      (P : String × V → Type 0) (Q : A → Type 0) (es : List (String × V)) (items : List A)
      → ((e : String × V) (a : A) → IsEntry e a → P e → Q a)
      → Aligned es items
      → All P es
      → All Q items
  All-Aligned P Q [] [] f h all = tt
  All-Aligned P Q [] (a ∷ items) f h all = absurd h
  All-Aligned P Q (e ∷ es) [] f h all = tt
  All-Aligned P Q (e ∷ es) (a ∷ items) f h all =
      (f e a h.0 all.0, All-Aligned P Q es items f h.1 all.1)

  pub AllPairs-Aligned :
      (P : String × V → String × V → Type 0) (Q : A → A → Type 0) (es : List (String × V))
      (items : List A)
      → ((e f : String × V) (a b : A) → IsEntry e a → IsEntry f b → P e f → Q a b)
      → Aligned es items
      → AllPairs P es
      → AllPairs Q items
  AllPairs-Aligned P Q [] [] f h all = tt
  AllPairs-Aligned P Q [] (a ∷ items) f h all = absurd h
  AllPairs-Aligned P Q (e ∷ es) [] f h all = tt
  AllPairs-Aligned P Q (e ∷ es) (a ∷ items) f h all = (
    All-Aligned (P e) (Q a) es items (λ e' b. f e e' a b h.0) h.1 all.0,
    AllPairs-Aligned P Q es items f h.1 all.1,
  )

  pub In-Aligned :
      (es : List (String × V)) (items : List A) (a : A)
      → Aligned es items
      → In a items
      → (e : String × V) × In e es × IsEntry e a
  In-Aligned [] [] a h i = absurd i
  In-Aligned [] (b ∷ items) a h i = absurd h
  In-Aligned (e ∷ es) [] a h i = absurd i
  In-Aligned (e ∷ es) (b ∷ items) a h (inl same) = (e, inl refl, rw same h.0)
  In-Aligned (e ∷ es) (b ∷ items) a h (inr i) =
      let (f, j, is) = In-Aligned es items a h.1 i in (f, inr j, is)

  pub Aligned-In :
      (es : List (String × V)) (items : List A) (e : String × V) (a : A)
      → Aligned es items
      → In e es
      → Assoc.get e.0 n ≡ some a
      → In a items
  Aligned-In [] items e a h i g = absurd i
  Aligned-In (f ∷ es) [] e a h i g = absurd h
  Aligned-In (f ∷ es) (b ∷ items) e a h (inl same) g =
      inl (some-injective a b (sym g ∙ (ap (λ (x : String × V). Assoc.get x.0 n) same ∙ h.0.0)))
  Aligned-In (f ∷ es) (b ∷ items) e a h (inr i) g = inr (Aligned-In es items e a h.1 i g)
