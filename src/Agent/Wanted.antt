-- ===== src/Agent/Wanted.antt =====
-- What `syncAssignments` (internal/agent/sync.go) asks of a runtime and of the list it gets.
use k3_control_plane.Base.{
  String, Bool, true, false, ◌||◌, ◌&&◌, ◌≡◌, ◌↔◌, refl, none, some, List, [], ◌∷◌, inl, inr, arith,
  ◌==◌, eq_iff, Bool-cases, if◌then◌else◌, In,
}
use k3_control_plane.Base.Assoc
use k3_control_plane.Base.Assoc.{Assoc, get-put, get-remove, has-put}
use k3_control_plane.Api.{Assignment}
use k3_control_plane.Api.Phases.{is_active_phase}
use k3_control_plane.Runtime.{Reporter}
use k3_control_plane.Agent.{Executor, desired_of}

-- What a runtime promises: no call fails, and after it the runtime holds what the call says.
pub record IsReliable {X : Type 0} (runtime : Executor X) : Type 0 where
  pub holds : X → String → Bool
  pub listed :
      (x : X)
      → (ids : List String) × (runtime.list x ≡ some ids)
        × ((id : String) → In id ids ↔ (holds x id ≡ true))
  pub stop_succeeds : (x : X) (id : String) → (runtime.stop x id).2 ≡ none
  pub holds-stop :
      (x : X) (id j : String)
      → holds (runtime.stop x id).0 j ≡ (if id == j then false else holds x j)
  pub start_succeeds :
      (x : X) (a : Assignment) (report : Reporter) → (runtime.start x a report).2 ≡ none
  pub holds-start :
      (x : X) (a : Assignment) (report : Reporter) (j : String)
      → holds (runtime.start x a report).0 j ≡ (a.id == j || holds x j)

-- An active assignment in the list has the ID.
abbrev pub is_wanted : String → List Assignment → Bool
is_wanted id [] = false
is_wanted id (a ∷ rest) = (is_active_phase a.phase && a.id == id) || is_wanted id rest

-- The IDs of the values of the map.
abbrev pub has_id : String → List (String × Assignment) → Bool
has_id id [] = false
has_id id ((_, a) ∷ rest) = a.id == id || has_id id rest

pub has-remove :
    {V : Type 0} (k j : String) (m : Assoc V)
    → Assoc.has j (Assoc.remove k m) ≡ (if k == j then false else Assoc.has j m)
unfolding Assoc.has
has-remove k j m = rw (get-remove k j m, Assoc.has) (ground arith)

pub has-desired_of :
    {X : Type 0} (runtime : Executor X) (id : String) (list : List Assignment)
    (m : Assoc Assignment)
    → Assoc.has id (desired_of runtime list m) ≡ (is_wanted id list || Assoc.has id m)
unfolding desired_of
has-desired_of runtime id [] m = refl
has-desired_of runtime id (a ∷ rest) m = elim (Bool-cases (is_active_phase a.phase)) [
  | inl e ↦
      rw (e, has-desired_of runtime id rest (Assoc.put a.id a m), has-put a.id id a m)
        (ground arith)
  | inr e ↦ rw (e, has-desired_of runtime id rest m) refl
]

-- Each value stands under its own ID.
abbrev pub IsById : Assoc Assignment → Type 0
IsById = Assoc.IsKeyed (λ (a : Assignment). a.id)

pub desired_of-IsById :
    {X : Type 0} (runtime : Executor X) (list : List Assignment) (m : Assoc Assignment)
    → IsById m
    → IsById (desired_of runtime list m)
unfolding desired_of
desired_of-IsById runtime [] m h = h
desired_of-IsById runtime (a ∷ rest) m h = elim (Bool-cases (is_active_phase a.phase)) [
  | inl e ↦ rw e (
      desired_of-IsById runtime rest (Assoc.put a.id a m)
        (Assoc.IsKeyed-put (λ (x : Assignment). x.id) a.id a m refl h))
  | inr e ↦ rw e (desired_of-IsById runtime rest m h)
]

pub has_id-has : (id : String) (m : Assoc Assignment) → IsById m → has_id id m ≡ Assoc.has id m
unfolding Assoc.has Assoc.get
has_id-has id [] h = refl
has_id-has id ((k, a) ∷ m) h = ground (arith, has_id-has id m h.2, h.0, eq_iff a.id id, eq_iff k id)
