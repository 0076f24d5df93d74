-- ===== src/Controller/Fresh.antt =====
-- `nextAssignmentID` (internal/controller/controller.go): the ID is not in use, and the search ends where
-- the random source does not repeat itself too soon.
use mathlib.Core.Option.{none-ne-some}
use text.Mathlib.TextLemmas.{append_cancel_left}
use k3_control_plane.Base.{
  ℕ, zero, suc, ◌+◌, ◌≤◌, ◌<◌, String, true, ◌≡◌, ◌≢◌, refl, ◌∙◌, sym, ap, eq_iff, none, some, List,
  [], ◌∷◌, inl, inr, arith, Bool-cases, Option-cases, length, All, AllPairs,
}
use k3_control_plane.Base.Int.{ℤ}
use k3_control_plane.Base.Assoc
use k3_control_plane.Base.Assoc.{Assoc, get-remove}
use k3_control_plane.Store.{MemoryStore, has_assignment}
use k3_control_plane.Controller.Ids.{Env, random_suffix, assignment_id, next_assignment_id}

-- The suffixes of a run of draws.
unfoldable pub suffixes : Env → ℕ → ℕ → List String
suffixes env draws zero = []
suffixes env draws (suc n) = random_suffix (env.random_bytes draws) ∷ suffixes env (suc draws) n

-- No suffix comes twice in any run of that many draws.
abbrev pub IsSpread : Env → ℕ → Type 0
IsSpread env n = (draws : ℕ) → AllPairs (λ (s t : String). s ≢ t) (suffixes env draws n)

ids : Env → String → ℤ → ℕ → ℕ → List String
ids env owner attempt draws zero = []
ids env owner attempt draws (suc n) =
    assignment_id env owner attempt draws ∷ ids env owner attempt (suc draws) n

length-ids :
    (env : Env) (owner : String) (attempt : ℤ) (draws n : ℕ)
    → length (ids env owner attempt draws n) ≡ n
unfolding ids
length-ids env owner attempt draws zero = refl
length-ids env owner attempt draws (suc n) = ap suc (length-ids env owner attempt (suc draws) n)

ids_apart :
    (env : Env) (owner : String) (attempt : ℤ) (first draws n : ℕ)
    → All (λ (t : String). random_suffix (env.random_bytes first) ≢ t) (suffixes env draws n)
    → All
        (λ (t : String). assignment_id env owner attempt first ≢ t)
        (ids env owner attempt draws n)
unfolding ids suffixes assignment_id
ids_apart env owner attempt first draws zero h = tt
ids_apart env owner attempt first draws (suc n) h =
    (λ e. h.0 (append_cancel_left _ _ _ e), ids_apart env owner attempt first (suc draws) n h.1)

ids-distinct :
    (env : Env) (owner : String) (attempt : ℤ) (draws n : ℕ)
    → AllPairs (λ (s t : String). s ≢ t) (suffixes env draws n)
    → AllPairs (λ (s t : String). s ≢ t) (ids env owner attempt draws n)
unfolding ids suffixes
ids-distinct env owner attempt draws zero h = tt
ids-distinct env owner attempt draws (suc n) h = (
  ids_apart env owner attempt draws (suc draws) n h.0,
  ids-distinct env owner attempt (suc draws) n h.1,
)

pub length-remove_le :
    {V : Type 0} (k : String) (m : Assoc V) → length (Assoc.remove k m) ≤ length m
unfolding Assoc.remove
length-remove_le k [] = omega arith
length-remove_le k ((j, w) ∷ m) = ground (arith, length-remove_le k m)

length-remove_of_has :
    {V : Type 0} (k : String) (m : Assoc V)
    → Assoc.has k m ≡ true
    → length (Assoc.remove k m) + 1 ≤ length m
unfolding Assoc.remove Assoc.has Assoc.get
length-remove_of_has k [] h = cc
length-remove_of_has k ((j, w) ∷ m) h =
    ground (arith, length-remove_of_has k m, length-remove_le k m)

has-remove :
    {V : Type 0} (k j : String) (m : Assoc V)
    → k ≢ j
    → Assoc.has j m ≡ true
    → Assoc.has j (Assoc.remove k m) ≡ true
unfolding Assoc.has
has-remove k j m d h = ground (arith, get-remove k j m, eq_iff k j)

All-has-remove :
    {V : Type 0} (k : String) (ks : List String) (m : Assoc V)
    → All (λ (t : String). k ≢ t) ks
    → All (λ j. Assoc.has j m ≡ true) ks
    → All (λ j. Assoc.has j (Assoc.remove k m) ≡ true) ks
All-has-remove k [] m d h = tt
All-has-remove k (j ∷ ks) m d h = (has-remove k j m d.0 h.0, All-has-remove k ks m d.1 h.1)

-- Different keys that are all in a map are no more than its entries.
pigeonhole :
    {V : Type 0} (ks : List String) (m : Assoc V)
    → AllPairs (λ (s t : String). s ≢ t) ks
    → All (λ j. Assoc.has j m ≡ true) ks
    → length ks ≤ length m
pigeonhole [] m d h = omega arith
pigeonhole (k ∷ ks) m d h = omega (
  arith,
  pigeonhole ks (Assoc.remove k m) d.1 (All-has-remove k ks m d.0 h.1),
  length-remove_of_has k m h.0,
)

has_assignment_lem :
    (s : MemoryStore) (id : String) → has_assignment s id ≡ Assoc.has id s.assignments
unfolding has_assignment Assoc.has
has_assignment_lem s id = ground arith

taken_of_none :
    (env : Env) (fuel : ℕ) (s : MemoryStore) (owner : String) (attempt : ℤ) (draws : ℕ)
    → next_assignment_id env fuel s owner attempt draws ≡ none
    → All (λ j. Assoc.has j s.assignments ≡ true) (ids env owner attempt draws fuel)
unfolding next_assignment_id ids
taken_of_none env zero s owner attempt draws h = tt
taken_of_none env (suc fuel) s owner attempt draws h =
    elim (Bool-cases (has_assignment s (assignment_id env owner attempt draws))) [
      | inl e ↦ (
        sym (has_assignment_lem s (assignment_id env owner attempt draws)) ∙ e,
        taken_of_none env fuel s owner attempt (suc draws) (rw e at h),
      )
      | inr e ↦ absurd (none-ne-some _ (sym (rw e at h)))
    ]

-- An ID that the search returns is not in use.
next_assignment_id_fresh :
    (env : Env) (fuel : ℕ) (s : MemoryStore) (owner : String) (attempt : ℤ) (draws : ℕ)
    {id : String} {draws' : ℕ}
    → next_assignment_id env fuel s owner attempt draws ≡ some (id, draws')
    → Assoc.get id s.assignments ≡ none
unfolding next_assignment_id has_assignment
next_assignment_id_fresh env zero s owner attempt draws h = cc
next_assignment_id_fresh env (suc fuel) s owner attempt draws {id} {draws'} h = ground (
  arith,
  next_assignment_id_fresh env fuel s owner attempt (suc draws) {id = id} {draws' = draws'},
)

-- The search for an ID ends, with an unused one: with more draws than there are stored
-- assignments, and no suffix twice in that many draws.
pub next_assignment_id_total :
    (env : Env) (fuel : ℕ) (s : MemoryStore) (owner : String) (attempt : ℤ) (draws : ℕ)
    → IsSpread env fuel
    → length s.assignments < fuel
    → (id : String) × (draws' : ℕ) × (next_assignment_id env fuel s owner attempt draws
        ≡ some (id, draws'))
      × (Assoc.get id s.assignments ≡ none)
next_assignment_id_total env fuel s owner attempt draws spread room =
    elim (Option-cases (next_assignment_id env fuel s owner attempt draws)) [
      | inl stuck ↦ absurd (
          omega (
            arith,
            length-ids env owner attempt draws fuel,
            pigeonhole (ids env owner attempt draws fuel) s.assignments
                (ids-distinct env owner attempt draws fuel (spread draws))
                (taken_of_none env fuel s owner attempt draws stuck),
          ))
      | inr (r, e) ↦ (
        r.0,
        r.1,
        e,
        next_assignment_id_fresh env fuel s owner attempt draws {id = r.0} {draws' = r.1} e,
      )
    ]
