-- ===== src/Controller/Services/Removal.antt =====
-- Scaling a service down (internal/controller/services.go): the excess is deleted, and as many are left
-- as are wanted.
use k3_control_plane.Base.{
  ℕ, ◌+◌, ◌-◌, ◌^◌, ◌≤◌, ◌<◌, String, Bool, true, ◌≡◌, ◌≢◌, refl, ◌∙◌, sym, ap, eq_iff, ◌&&◌, some,
  List, [], ◌∷◌, inl, inr, arith, Option-cases, length, take, count_by, In, All, AllPairs,
  length-filter_by, count_by-filter_by, AllPairs-filter_by, In-filter_by,
}
use k3_control_plane.Base.Int.{ℤ, pos, pos_part, neg_part, sub64, sub64_exact}
use k3_control_plane.Base.Assoc
use k3_control_plane.Base.Assoc.{Assoc, count_by-remove, values-distinct, get-remove}
use k3_control_plane.Base.Sort.{sort_by, count_by-sort_by, AllPairs-sort_by, length-sort_by}
use k3_control_plane.Api.{Service, Assignment}
use k3_control_plane.Api.Phases.{service}
use k3_control_plane.Api.Clone.{clone_assignment, clone_assignment_lem}
use k3_control_plane.Store.{
  MemoryStore, list_assignments, list_assignments_for_owner, delete_assignment, is_owned_by,
  assignment_less,
}
use k3_control_plane.Store.Keyed.{IsKeyed, delete_assignment-IsKeyed}
use k3_control_plane.Store.Listing.{In-list_assignments_for_owner, is_owned_by_iff, map_same}
use k3_control_plane.Scheduler.{StringSet}
use k3_control_plane.Scheduler.Capacity.{pos_of_nonnegative}
use k3_control_plane.Controller.Fresh.{length-remove_le}
use k3_control_plane.Controller.Services.{
  removal_less, pick_assignments_to_remove, is_active_live, delete_all, active_of,
}

-- A stored assignment that stands for a replica of the service.
abbrev pub is_replica : StringSet → Service → Assignment → Bool
is_replica live v a = is_active_live live a && is_owned_by service v.name a

-- How many the store holds.
abbrev pub replicas_in : StringSet → Service → MemoryStore → ℕ
replicas_in live v s = count_by (is_replica live v) (Assoc.values s.assignments)

-- The gathered list is as long as there are replicas in the store.
pub length-active_of :
    (live : StringSet) (s : MemoryStore) (v : Service)
    → length (active_of live s v) ≡ replicas_in live v s
unfolding active_of list_assignments_for_owner list_assignments
length-active_of live s v =
    length-filter_by (is_active_live live) _
    ∙ count_by-filter_by (is_active_live live) (is_owned_by service v.name) _
    ∙ count_by-sort_by assignment_less (is_replica live v) _
    ∙ ap (count_by (is_replica live v)) (map_same clone_assignment clone_assignment_lem _)

abbrev pub DifferentIds : Assignment → Assignment → Type 0
DifferentIds a b = a.id ≢ b.id

pub active_of-distinct :
    (live : StringSet) (s : MemoryStore) (v : Service)
    → IsKeyed s
    → AllPairs DifferentIds (active_of live s v)
unfolding active_of list_assignments_for_owner list_assignments
active_of-distinct live s v h = AllPairs-filter_by DifferentIds (is_active_live live) _ (
    AllPairs-filter_by DifferentIds (is_owned_by service v.name) _ (
      AllPairs-sort_by assignment_less DifferentIds (λ a b d e. d (sym e)) _
        (rw (map_same clone_assignment clone_assignment_lem)
          (values-distinct (λ (a : Assignment). a.id) s.assignments h.assignments))))

pub In-active_of :
    (live : StringSet) (s : MemoryStore) (v : Service) (a : Assignment)
    → IsKeyed s
    → In a (active_of live s v)
    → (Assoc.get a.id s.assignments ≡ some a) × (is_replica live v a ≡ true)
unfolding active_of
In-active_of live s v a h i =
    let (j, act) =
      In-filter_by (is_active_live live) a (list_assignments_for_owner s service v.name) i in
    let (g, of_kind, named) = (In-list_assignments_for_owner s service v.name a h).0 j in
    (g, ground (arith, act, (is_owned_by_iff service v.name a).1 (of_kind, named)))

delete_assignment-stored :
    (s : MemoryStore) (a : Assignment)
    → Assoc.get a.id s.assignments ≡ some a
    → (delete_assignment s a.id).0 ≡ record s { assignments = Assoc.remove a.id s.assignments }
unfolding delete_assignment
delete_assignment-stored s a g = rw (g, delete_assignment)

delete_assignment-other :
    (s : MemoryStore) (a b : Assignment)
    → Assoc.get a.id s.assignments ≡ some a
    → a.id ≢ b.id
    → Assoc.get b.id s.assignments ≡ some b
    → Assoc.get b.id (delete_assignment s a.id).0.assignments ≡ some b
delete_assignment-other s a b g d k =
    ap (λ (t : MemoryStore). Assoc.get b.id t.assignments) (delete_assignment-stored s a g)
    ∙ ground (arith, get-remove a.id b.id s.assignments, eq_iff a.id b.id)

-- A stored replica.
abbrev pub IsStoredReplica : StringSet → Service → MemoryStore → Assignment → Type 0
IsStoredReplica live v s a = (Assoc.get a.id s.assignments ≡ some a) × (is_replica live v a ≡ true)

still_stored :
    (live : StringSet) (v : Service) (s : MemoryStore) (a : Assignment) (xs : List Assignment)
    → Assoc.get a.id s.assignments ≡ some a
    → All (DifferentIds a) xs
    → All (IsStoredReplica live v s) xs
    → All (IsStoredReplica live v (delete_assignment s a.id).0) xs
still_stored live v s a [] g d k = tt
still_stored live v s a (b ∷ xs) g d k =
    ((delete_assignment-other s a b g d.0 k.0.0, k.0.1), still_stored live v s a xs g d.1 k.1)

delete_assignment-replicas :
    (live : StringSet) (v : Service) (s : MemoryStore) (a : Assignment)
    → IsKeyed s
    → IsStoredReplica live v s a
    → replicas_in live v (delete_assignment s a.id).0 + 1 ≡ replicas_in live v s
delete_assignment-replicas live v s a h (g, r) =
    ap (λ (t : MemoryStore). replicas_in live v t + 1) (delete_assignment-stored s a g)
    ∙ ground (
      arith,
      r,
      count_by-remove (λ (x : Assignment). x.id) (is_replica live v) a.id a s.assignments
          h.assignments g,
    )

-- Deleting different stored replicas takes that many away.
pub delete_all-replicas :
    (live : StringSet) (v : Service) (xs : List Assignment) (s : MemoryStore)
    → IsKeyed s
    → AllPairs DifferentIds xs
    → All (IsStoredReplica live v s) xs
    → IsKeyed (delete_all xs s)
      × (replicas_in live v (delete_all xs s) + length xs ≡ replicas_in live v s)
unfolding delete_all
delete_all-replicas live v [] s h d k = (h, omega arith)
delete_all-replicas live v (a ∷ rest) s h d k =
    let s' = (delete_assignment s a.id).0 in
    let (keyed, left) =
      delete_all-replicas live v rest s' (delete_assignment-IsKeyed s a.id h) d.1
        (still_stored live v s a rest k.0.0 d.0 k.1) in
    (keyed, omega (arith, left, delete_assignment-replicas live v s a h k.0))

-- What deletions leave alone.
pub record SameBut (s t : MemoryStore) : Type 0 where
  pub nodes : t.nodes ≡ s.nodes
  pub services : t.services ≡ s.services
  pub jobs : t.jobs ≡ s.jobs

delete_assignment-SameBut : (s : MemoryStore) (id : String) → SameBut s (delete_assignment s id).0
unfolding delete_assignment
delete_assignment-SameBut s id = ground arith

pub delete_all-SameBut : (xs : List Assignment) (s : MemoryStore) → SameBut s (delete_all xs s)
unfolding delete_all
delete_all-SameBut [] s = record { nodes = refl; services = refl; jobs = refl }
delete_all-SameBut (a ∷ rest) s =
    let one = delete_assignment-SameBut s a.id in
    let others = delete_all-SameBut rest (delete_assignment s a.id).0 in
    record {
      nodes = others.nodes ∙ one.nodes;
      services = others.services ∙ one.services;
      jobs = others.jobs ∙ one.jobs;
    }

delete_assignment-shorter :
    (s : MemoryStore) (id : String)
    → length (delete_assignment s id).0.assignments ≤ length s.assignments
unfolding delete_assignment
delete_assignment-shorter s id = elim (Option-cases (Assoc.get id s.assignments)) [
  | inl e ↦ rw (e, delete_assignment) (omega arith)
  | inr (a, e) ↦ rw (e, delete_assignment) (length-remove_le id s.assignments)
]

pub delete_all-shorter :
    (xs : List Assignment) (s : MemoryStore)
    → length (delete_all xs s).assignments ≤ length s.assignments
unfolding delete_all
delete_all-shorter [] s = omega arith
delete_all-shorter (a ∷ rest) s =
    omega (
      arith,
      delete_all-shorter rest (delete_assignment s a.id).0,
      delete_assignment-shorter s a.id,
    )

-- Which assignments are picked, where the count is the difference that the caller takes.
pub pick_excess :
    (active : List Assignment) (replicas : ℤ)
    → neg_part replicas ≡ 0
    → pos_part replicas < length active
    → length active < 2 ^ 63
    → pick_assignments_to_remove active (sub64 (pos (length active)) replicas)
      ≡ some (take (length active - pos_part replicas) (sort_by removal_less active))
unfolding pick_assignments_to_remove
pick_excess active replicas natural fewer fits =
    let difference : sub64 (pos (length active)) replicas
        ≡ pos (length active - pos_part replicas) =
      rw (pos_of_nonnegative replicas natural)
        (sub64_exact (length active) (pos_part replicas) fits (omega arith) ∙ ground arith) in
    rw (difference, length-sort_by removal_less active) (ground arith)
