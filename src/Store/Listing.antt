-- ===== src/Store/Listing.antt =====
-- What the listings of `MemoryStore` (internal/store) hold, and in which order.
use mathlib.Core.List.{Permᴰ}
use mathlib.Core.List.Permᴰ.{nil, cons, swap, trans}
use mathlib.Core.Option.{some-injective}
use k3_control_plane.Base.{
  String, Bool, true, ◌≡◌, ◌↔◌, ◌⊎◌, refl, sym, ap, ◌∙◌, some, List, [], ◌∷◌, map, inl, inr, In,
  In-filter_by, filter_by-In, ◌==◌, eq_iff, arith,
}
use k3_control_plane.Base.Assoc
use k3_control_plane.Base.Assoc.{Assoc, In-values_of_get, get-key_of_In}
use k3_control_plane.Base.Sort.{sort_by, In-sort_by, IsSorted, sort_by-IsSorted, sort_by-perm}
use k3_control_plane.Api.{Node, Service, Job, Assignment}
use k3_control_plane.Api.Phases.{Kind, kind_eq_iff}
use k3_control_plane.Api.Clone.{
  clone_node, clone_service, clone_job, clone_assignment, clone_node_lem, clone_service_lem,
  clone_job_lem, clone_assignment_lem,
}
use k3_control_plane.Store.{
  MemoryStore, node_less, service_less, job_less, assignment_less, list_nodes, list_services,
  list_jobs, list_assignments, list_node_assignments, list_assignments_for_owner, is_owned_by,
}
use k3_control_plane.Store.Order.{assignment_less-IsOrder, assignment_less_total}
use k3_control_plane.Store.Keyed.{IsKeyed}

pub map_same : {A : Type 0} (f : A → A) → ((a : A) → f a ≡ a) → (xs : List A) → map f xs ≡ xs
map_same f h [] = refl
map_same f h (x ∷ xs) = λ i. h x i ∷ map_same f h xs i

module _ {V : Type 0} (key : V → String) (less : V → V → Bool) (clone : V → V)
    (clone_lem : (v : V) → clone v ≡ v) where
  In-listing :
      (v : V) (m : Assoc V)
      → Assoc.IsKeyed key m
      → In v (sort_by less (map clone (Assoc.values m))) ↔ (Assoc.get (key v) m ≡ some v)
  In-listing v m h = rw (map_same clone clone_lem (Assoc.values m)) (
    λ i. get-key_of_In key v m h ((In-sort_by less v (Assoc.values m)).0 i),
    λ g. (In-sort_by less v (Assoc.values m)).1 (In-values_of_get (key v) v m g),
  )

-- A listing holds exactly the objects that are stored under their keys.
pub In-list_nodes :
    (s : MemoryStore) (n : Node)
    → IsKeyed s
    → In n (list_nodes s) ↔ (Assoc.get n.id s.nodes ≡ some n)
unfolding list_nodes
In-list_nodes s n h =
    In-listing (λ (n : Node). n.id) node_less clone_node clone_node_lem n s.nodes h.nodes

pub In-list_services :
    (s : MemoryStore) (v : Service)
    → IsKeyed s
    → In v (list_services s) ↔ (Assoc.get v.name s.services ≡ some v)
unfolding list_services
In-list_services s v h =
    In-listing (λ (v : Service). v.name) service_less clone_service clone_service_lem v s.services
      h.services

pub In-list_jobs :
    (s : MemoryStore) (j : Job)
    → IsKeyed s
    → In j (list_jobs s) ↔ (Assoc.get j.name s.jobs ≡ some j)
unfolding list_jobs
In-list_jobs s j h =
    In-listing (λ (j : Job). j.name) job_less clone_job clone_job_lem j s.jobs h.jobs

pub In-list_assignments :
    (s : MemoryStore) (a : Assignment)
    → IsKeyed s
    → In a (list_assignments s) ↔ (Assoc.get a.id s.assignments ≡ some a)
unfolding list_assignments
In-list_assignments s a h =
    In-listing (λ (a : Assignment). a.id) assignment_less clone_assignment clone_assignment_lem a
      s.assignments h.assignments

-- The assignments listed for a node are exactly the stored ones that name it, if the store is
-- well-formed.
pub In-list_node_assignments :
    (s : MemoryStore) (node_id : String) (a : Assignment)
    → IsKeyed s
    → In a (list_node_assignments s node_id)
      ↔ ((Assoc.get a.id s.assignments ≡ some a) × (a.node_id ≡ node_id))
unfolding list_node_assignments
In-list_node_assignments s node_id a h = (
  λ i.
      let (m, e) =
        In-filter_by (λ (a : Assignment). a.node_id == node_id) a (list_assignments s) i in
      ((In-list_assignments s a h).0 m, (eq_iff _ _).0 e),
  λ g.
      filter_by-In (λ (a : Assignment). a.node_id == node_id) a (list_assignments s)
        ((In-list_assignments s a h).1 g.0) ((eq_iff _ _).1 g.1),
)

pub is_owned_by_iff :
    (kind : Kind) (name : String) (a : Assignment)
    → (is_owned_by kind name a ≡ true) ↔ ((a.owner_kind ≡ kind) × (a.owner_name ≡ name))
unfolding is_owned_by
is_owned_by_iff kind name a =
    ground (arith, kind_eq_iff a.owner_kind kind, eq_iff a.owner_name name)

-- The assignments listed for an owner are exactly the stored ones whose owner has that kind and
-- that name, if the store is well-formed.
pub In-list_assignments_for_owner :
    (s : MemoryStore) (kind : Kind) (name : String) (a : Assignment)
    → IsKeyed s
    → In a (list_assignments_for_owner s kind name)
      ↔ ((Assoc.get a.id s.assignments ≡ some a) × (a.owner_kind ≡ kind) × (a.owner_name ≡ name))
unfolding list_assignments_for_owner
In-list_assignments_for_owner s kind name a h = (
  λ i.
      let (m, e) = In-filter_by (is_owned_by kind name) a (list_assignments s) i in
      let (of_kind, named) = (is_owned_by_iff kind name a).0 e in
      ((In-list_assignments s a h).0 m, of_kind, named),
  λ (g, of_kind, named).
      filter_by-In (is_owned_by kind name) a (list_assignments s) ((In-list_assignments s a h).1 g)
        ((is_owned_by_iff kind name a).1 (of_kind, named)),
)

-- The listing is in order of creation, and of IDs where two were created at once.
pub list_assignments-IsSorted : (s : MemoryStore) → IsSorted assignment_less (list_assignments s)
unfolding list_assignments
list_assignments-IsSorted s = sort_by-IsSorted assignment_less assignment_less-IsOrder _

values-perm : {V : Type 0} {m n : Assoc V} → Permᴰ m n → Permᴰ (Assoc.values m) (Assoc.values n)
unfolding Assoc.values
values-perm nil = nil
values-perm (cons e p) = cons (ap (λ t. t.1) e) (values-perm p)
values-perm (swap e f) = swap (ap (λ t. t.1) e) (ap (λ t. t.1) f)
values-perm (trans p q) = trans (values-perm p) (values-perm q)

stored_apart :
    (m : Assoc Assignment) (a b : Assignment)
    → Assoc.IsKeyed (λ (x : Assignment). x.id) m
    → In a (Assoc.values m)
    → In b (Assoc.values m)
    → (a ≡ b) ⊎ (assignment_less a b ≡ true) ⊎ (assignment_less b a ≡ true)
stored_apart m a b h i j = elim (assignment_less_total a b) [
  | inl e ↦
      let found : Assoc.get b.id m ≡ some a =
        rw (← e) (get-key_of_In (λ (x : Assignment). x.id) a m h i) in
      inl (some-injective a b (sym found ∙ get-key_of_In (λ (x : Assignment). x.id) b m h j))
  | inr apart ↦ inr apart
]

-- The listing does not depend on the order in which Go ranges over the map: a well-formed store,
-- and another whose map of assignments has the same entries in any order, list the same
-- assignments in the same order.
pub list_assignments-perm :
    (s t : MemoryStore)
    → IsKeyed s
    → Permᴰ s.assignments t.assignments
    → list_assignments s ≡ list_assignments t
unfolding list_assignments
list_assignments-perm s t h p = simp (map_same clone_assignment clone_assignment_lem) (
    sort_by-perm assignment_less assignment_less-IsOrder (values-perm p)
      (λ a b i j. stored_apart s.assignments a b h.assignments i j))
