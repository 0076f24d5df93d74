-- ===== src/Scheduler/Usage.antt =====
-- What the loops of `ChooseNode` (internal/scheduler/scheduler.go) have counted for a live node, said
-- directly of the list of assignments.
use k3_control_plane.Base.{
  String, Bool, true, false, ◌≡◌, refl, ◌∙◌, ap, sym, ◌&&◌, ◌||◌, ◌==◌, eq_iff, List, [], ◌∷◌, inl,
  inr, ◌↔◌, arith, Bool-cases, if◌then◌else◌, In, ltb,
}
use mathlib.Core.Bool.{false≢true}
use k3_control_plane.Base.Int.{ℤ, int_eq_iff}
use k3_control_plane.Base.Assoc
use k3_control_plane.Base.Assoc.{Assoc, has-put, get_or-put}
use k3_control_plane.Api.{ResourceRequirements, Node, Assignment, zero_resources, Time}
use k3_control_plane.Api.Phases.{is_active_phase}
use k3_control_plane.Scheduler.{
  StringSet, IntSet, Tally, Scheduler, int_member, add_node_ids, add_resources, add_ports,
  count_assignment, count_assignments, ports_clash, live_nodes, since,
}

-- The assignment takes up room on the node.
unfoldable pub is_active_on : String → Assignment → Bool
is_active_on id a = is_active_phase a.phase && a.node_id == id

-- The sum of the resources of the active assignments of a node, on top of `r`.
unfoldable pub usage : String → List Assignment → ResourceRequirements → ResourceRequirements
usage id [] r = r
usage id (a ∷ rest) r = usage id rest (if is_active_on id a then add_resources r a.resources else r)

-- Some active assignment of the node has the port.
unfoldable pub is_port_taken : String → ℤ → List Assignment → Bool
is_port_taken id port [] = false
is_port_taken id port (a ∷ rest) =
    let later = is_port_taken id port rest in
    (is_active_on id a && int_member port a.ports) || later

pub int_member_iff : (p : ℤ) (s : IntSet) → (int_member p s ≡ true) ↔ In p s
unfolding int_member
int_member_iff p [] = (λ h. cc, λ m. absurd m)
int_member_iff p (q ∷ s) = (
  λ h. ground (arith, int_eq_iff q p, (int_member_iff p s).0),
  λ m. ground (arith, int_eq_iff q p, (int_member_iff p s).1),
)

has-add_node_ids_of_has :
    (k : String) (nodes : List Node) (ids : StringSet)
    → Assoc.has k ids ≡ true
    → Assoc.has k (add_node_ids nodes ids) ≡ true
unfolding add_node_ids
has-add_node_ids_of_has k [] ids h = h
has-add_node_ids_of_has k (n ∷ nodes) ids h =
    has-add_node_ids_of_has k nodes (Assoc.put n.id tt ids) (ground (arith, has-put n.id k tt ids))

pub has-add_node_ids :
    (n : Node) (nodes : List Node) (ids : StringSet)
    → In n nodes
    → Assoc.has n.id (add_node_ids nodes ids) ≡ true
unfolding add_node_ids
has-add_node_ids n [] ids m = absurd m
has-add_node_ids n (x ∷ nodes) ids (inl e) =
    has-add_node_ids_of_has n.id nodes (Assoc.put x.id tt ids)
      (ground (arith, has-put x.id n.id tt ids, eq_iff x.id n.id))
has-add_node_ids n (x ∷ nodes) ids (inr m) = has-add_node_ids n nodes (Assoc.put x.id tt ids) m

used-count_assignment :
    (id : String) (ids : StringSet) (a : Assignment) (t : Tally)
    → Assoc.has id ids ≡ true
    → Assoc.get_or zero_resources id (count_assignment ids a t).used ≡ (
        if is_active_on id a
        then add_resources (Assoc.get_or zero_resources id t.used) a.resources
        else Assoc.get_or zero_resources id t.used)
unfolding count_assignment is_active_on
used-count_assignment id ids a t h =
    let counted = add_resources (Assoc.get_or zero_resources a.node_id t.used) a.resources in
    ground (arith, eq_iff a.node_id id, get_or-put zero_resources a.node_id id counted t.used)

pub used-count_assignments :
    (id : String) (ids : StringSet) (xs : List Assignment) (t : Tally)
    → Assoc.has id ids ≡ true
    → Assoc.get_or zero_resources id (count_assignments ids xs t).used
      ≡ usage id xs (Assoc.get_or zero_resources id t.used)
unfolding count_assignments usage
used-count_assignments id ids [] t h = refl
used-count_assignments id ids (a ∷ rest) t h =
    used-count_assignments id ids rest (count_assignment ids a t) h
    ∙ ap (usage id rest) (used-count_assignment id ids a t h)

add_ports_lem :
    (p : ℤ) (id j : String) (ports : List ℤ) (m : Assoc IntSet)
    → int_member p (Assoc.get_or [] j (add_ports id ports m))
      ≡ ((id == j && int_member p ports) || int_member p (Assoc.get_or [] j m))
unfolding add_ports int_member
add_ports_lem p id j [] m = ground arith
add_ports_lem p id j (q ∷ ports) m = ground (
  arith,
  add_ports_lem p id j ports (Assoc.put id (q ∷ Assoc.get_or [] id m) m),
  get_or-put [] id j (q ∷ Assoc.get_or [] id m) m,
  eq_iff id j,
)

ports-count_assignment :
    (id : String) (p : ℤ) (ids : StringSet) (a : Assignment) (t : Tally)
    → Assoc.has id ids ≡ true
    → int_member p (Assoc.get_or [] id (count_assignment ids a t).used_ports) ≡ (
        (is_active_on id a && int_member p a.ports)
        || int_member p (Assoc.get_or [] id t.used_ports))
unfolding count_assignment is_active_on
ports-count_assignment id p ids a t h =
    ground (arith, eq_iff a.node_id id, add_ports_lem p a.node_id id a.ports t.used_ports)

pub ports-count_assignments :
    (id : String) (p : ℤ) (ids : StringSet) (xs : List Assignment) (t : Tally)
    → Assoc.has id ids ≡ true
    → int_member p (Assoc.get_or [] id (count_assignments ids xs t).used_ports)
      ≡ (is_port_taken id p xs || int_member p (Assoc.get_or [] id t.used_ports))
unfolding count_assignments is_port_taken
ports-count_assignments id p ids [] t h = refl
ports-count_assignments id p ids (a ∷ rest) t h = ground (
  arith,
  ports-count_assignments id p ids rest (count_assignment ids a t) h,
  ports-count_assignment id p ids a t h,
)

pub ports_clash_iff :
    (used : IntSet) (wanted : List ℤ)
    → (ports_clash used wanted ≡ true) ↔ ((p : ℤ) × In p wanted × (int_member p used ≡ true))
unfolding ports_clash
ports_clash_iff used [] = (λ h. absurd (cc), λ (p, m, e). absurd m)
ports_clash_iff used (q ∷ wanted) = (
  λ h. elim (Bool-cases (int_member q used)) [
    | inl e ↦ (q, inl refl, e)
    | inr e ↦ let (p, m, t) = (ports_clash_iff used wanted).0 (ground arith) in (p, inr m, t)
  ],
  λ (p, m, t). elim (Bool-cases (int_member q used)) [
    | inl e ↦ rw e
    | inr e ↦ elim m [
      | inl same ↦ absurd (false≢true (sym e ∙ rw (← same) t))
      | inr later ↦ rw e ((ports_clash_iff used wanted).1 (p, later, t))
    ]
  ],
)

-- Some active assignment of the node holds the port exactly when the test says so.
pub is_port_taken_iff :
    (id : String) (p : ℤ) (xs : List Assignment)
    → (is_port_taken id p xs ≡ true)
      ↔ ((a : Assignment) × In a xs × (is_active_on id a ≡ true) × In p a.ports)
unfolding is_port_taken
is_port_taken_iff id p [] = (λ h. absurd (cc), λ (a, m, act, i). absurd m)
is_port_taken_iff id p (a ∷ rest) = (
  λ h. elim (Bool-cases (is_active_on id a && int_member p a.ports)) [
    | inl e ↦ (a, inl refl, ground arith, (int_member_iff p a.ports).0 (ground arith))
    | inr e ↦
        let (b, m, act, i) = (is_port_taken_iff id p rest).0 (ground arith) in (b, inr m, act, i)
  ],
  λ (b, m, act, i). elim m [
    | inl same ↦ ground (arith, rw same at act, (int_member_iff p a.ports).1 (rw same at i))
    | inr later ↦ ground (arith, (is_port_taken_iff id p rest).1 (b, later, act, i))
  ],
)

pub In-live_nodes :
    (s : Scheduler) (now : Time) (n : Node) (nodes : List Node)
    → In n (live_nodes s now nodes)
      ↔ (In n nodes × (ltb s.node_timeout (since now n.last_heartbeat) ≡ false))
unfolding live_nodes
In-live_nodes s now n [] = (λ m. absurd m, λ m. m.0)
In-live_nodes s now n (x ∷ nodes) = (
  λ m. ground (arith, (In-live_nodes s now n nodes).0),
  λ m. ground (arith, (In-live_nodes s now n nodes).1),
)
