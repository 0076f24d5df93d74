-- ===== src/Scheduler/Choice.antt =====
-- Which node `ChooseNode` (internal/scheduler/scheduler.go) picks.
use k3_control_plane.Base.{
  ◌≤◌, String, true, false, ◌≡◌, refl, ◌∙◌, ap, sym, eq_iff, none, some, List, [], ◌∷◌, inl, inr,
  ◌↔◌, arith, Bool-cases, In, All, str_ltb,
}
use mathlib.Core.Bool.{false≢true}
use k3_control_plane.Base.Int.{ℤ, ◌≤ℤ◌, sub64}
use k3_control_plane.Base.Assoc
use k3_control_plane.Base.Assoc.{Assoc}
use k3_control_plane.Base.Sort.{sort_by, sort_by-IsSorted, In-sort_by}
use k3_control_plane.Api.{
  Time, StringMap, ResourceRequirements, Placement, Node, Assignment, zero_resources,
}
use k3_control_plane.Store.{node_less}
use k3_control_plane.Store.Order.{node_less-IsOrder}
use k3_control_plane.Scheduler.{
  Scheduler, Tally, since, live_nodes, add_node_ids, count_assignments, empty_tally, int_member,
  ports_clash, matches_placement, available_on, choose_node,
}
use k3_control_plane.Scheduler.Scan.{accepts, first_node-some, first_node-none}
use k3_control_plane.Scheduler.Usage.{
  is_active_on, usage, used-count_assignments, ports-count_assignments, has-add_node_ids,
  is_port_taken, is_port_taken_iff, ports_clash_iff, In-live_nodes,
}

-- Every required label has its value; one that the node lacks reads as the empty string.
abbrev pub HasLabels : StringMap → StringMap → Type 0
HasLabels labels required = All (λ l. Assoc.get_or "" l.0 labels ≡ l.1) required

-- What a workload asks of a node, said of the assignments themselves. The room that is left is
-- Go's difference of the capacity and the sum over the active assignments of the node.
pub record Eligible (s : Scheduler) (now : Time) (assignments : List Assignment)
    (req : ResourceRequirements) (placement : Placement) (ports : List ℤ) (n : Node) : Type 0 where
  pub live : since now n.last_heartbeat ≤ s.node_timeout
  pub labels : HasLabels n.labels placement.required_labels
  pub cpu : req.cpu ≤ℤ sub64 n.capacity.cpu (usage n.id assignments zero_resources).cpu
  pub memory : req.memory ≤ℤ sub64 n.capacity.memory (usage n.id assignments zero_resources).memory
  pub ports_free :
      (p : ℤ) (a : Assignment)
      → In p ports
      → In a assignments
      → is_active_on n.id a ≡ true
      → ¬ In p a.ports

matches_placement_iff :
    (labels required : StringMap)
    → (matches_placement labels required ≡ true) ↔ HasLabels labels required
unfolding matches_placement
matches_placement_iff labels [] = (λ h. tt, λ h. refl)
matches_placement_iff labels ((k, v) ∷ required) = (
  λ h. (
    ground (arith, eq_iff (Assoc.get_or "" k labels) v),
    (matches_placement_iff labels required).0 (ground arith),
  ),
  λ (e, h).
      ground
        (arith, eq_iff (Assoc.get_or "" k labels) v, (matches_placement_iff labels required).1 h),
)

module _ (s : Scheduler) (now : Time) (nodes : List Node) (assignments : List Assignment)
    (req : ResourceRequirements) (placement : Placement) (ports : List ℤ) where
  abbrev tally : Tally
  tally = count_assignments (add_node_ids (live_nodes s now nodes) []) assignments empty_tally

  counted :
      (n : Node)
      → In n (live_nodes s now nodes)
      → available_on tally n ≡ record {
        cpu = sub64 n.capacity.cpu (usage n.id assignments zero_resources).cpu;
        memory = sub64 n.capacity.memory (usage n.id assignments zero_resources).memory;
      }
  unfolding available_on Assoc.get_or Assoc.get
  counted n i =
      rw
        (used-count_assignments n.id (add_node_ids (live_nodes s now nodes) []) assignments
          empty_tally (has-add_node_ids n (live_nodes s now nodes) [] i))
        refl

  clash :
      (n : Node)
      → In n (live_nodes s now nodes)
      → (p : ℤ)
      → int_member p (Assoc.get_or [] n.id tally.used_ports) ≡ is_port_taken n.id p assignments
  unfolding Assoc.get_or Assoc.get int_member
  clash n i p =
      ports-count_assignments n.id p (add_node_ids (live_nodes s now nodes) []) assignments
        empty_tally (has-add_node_ids n (live_nodes s now nodes) [] i)
      ∙ ground arith

  no_clash :
      (n : Node)
      → In n (live_nodes s now nodes)
      → Eligible s now assignments req placement ports n
      → ports_clash (Assoc.get_or [] n.id tally.used_ports) ports ≡ false
  no_clash n i e = elim (Bool-cases (ports_clash (Assoc.get_or [] n.id tally.used_ports) ports)) [
    | inl c ↦
        let (p, wanted, used) =
          (ports_clash_iff (Assoc.get_or [] n.id tally.used_ports) ports).0 c in
        let (a, stored, act, held) =
          (is_port_taken_iff n.id p assignments).0 (sym (clash n i p) ∙ used) in
        absurd (e.ports_free p a wanted stored act held)
    | inr c ↦ c
  ]

  Eligible-of_accepts :
      (n : Node)
      → In n (live_nodes s now nodes)
      → accepts tally req placement ports n ≡ true
      → Eligible s now assignments req placement ports n
  unfolding accepts
  Eligible-of_accepts n i h =
      let cpu_left = ap (λ (r : ResourceRequirements). r.cpu) (counted n i) in
      let memory_left = ap (λ (r : ResourceRequirements). r.memory) (counted n i) in
      let found = (In-live_nodes s now n nodes).0 i in
      let free : ports_clash (Assoc.get_or [] n.id tally.used_ports) ports ≡ false = ground arith in
      record {
        live = ground (arith, found);
        labels = (matches_placement_iff n.labels placement.required_labels).0 (ground arith);
        cpu = ground (arith, cpu_left);
        memory = ground (arith, memory_left);
        ports_free = λ p a wanted stored act held. false≢true (
            sym free
            ∙ (ports_clash_iff (Assoc.get_or [] n.id tally.used_ports) ports).1 (
              p,
              wanted,
              clash n i p ∙ (is_port_taken_iff n.id p assignments).1 (a, stored, act, held),
            ));
      }

  accepts_of_Eligible :
      (n : Node)
      → In n (live_nodes s now nodes)
      → Eligible s now assignments req placement ports n
      → accepts tally req placement ports n ≡ true
  unfolding accepts
  accepts_of_Eligible n i e =
      let cpu_left = ap (λ (r : ResourceRequirements). r.cpu) (counted n i) in
      let memory_left = ap (λ (r : ResourceRequirements). r.memory) (counted n i) in
      ground (
        arith,
        cpu_left,
        memory_left,
        e.cpu,
        e.memory,
        no_clash n i e,
        (matches_placement_iff n.labels placement.required_labels).1 e.labels,
      )

  sorted_live :
      (n : Node)
      → In n nodes
      → since now n.last_heartbeat ≤ s.node_timeout
      → In n (sort_by node_less (live_nodes s now nodes))
  sorted_live n i alive =
      (In-sort_by node_less n (live_nodes s now nodes)).1
        ((In-live_nodes s now n nodes).1 (i, ground arith))

  live_sorted :
      (n : Node) → In n (sort_by node_less (live_nodes s now nodes)) → In n (live_nodes s now nodes)
  live_sorted n = (In-sort_by node_less n (live_nodes s now nodes)).0

-- A node that is picked is one of those given and eligible: it answers within the timeout, has
-- the required labels, the processor and the memory left, and none of the ports in use; no
-- eligible node has a smaller ID.
pub choose_node-some :
    (s : Scheduler) (now : Time) (nodes : List Node) (assignments : List Assignment)
    (req : ResourceRequirements) (placement : Placement) (ports : List ℤ) {id : String}
    → choose_node s now nodes assignments req placement ports ≡ some id
    → ((n : Node) × In n nodes × (n.id ≡ id) × Eligible s now assignments req placement ports n)
      × ((m : Node)
          → In m nodes
          → Eligible s now assignments req placement ports m
          → str_ltb m.id id ≡ false)
unfolding choose_node
choose_node-some s now nodes xs req placement ports {id} h =
    let live = live_nodes s now nodes in
    let (n, i, same, ok, least) =
      first_node-some (tally s now nodes xs req placement ports) req placement ports
        (sort_by node_less live) id h (sort_by-IsSorted node_less node_less-IsOrder live) in
    let i' = live_sorted s now nodes xs req placement ports n i in
    (
      (
        n,
        ((In-live_nodes s now n nodes).0 i').0,
        same,
        Eligible-of_accepts s now nodes xs req placement ports n i' ok,
      ),
      λ m j e.
          let j' = sorted_live s now nodes xs req placement ports m j e.live in
          least m j' (
            accepts_of_Eligible s now nodes xs req placement ports m
              (live_sorted s now nodes xs req placement ports m j') e),
    )

-- The scheduler reports that no node is eligible only when none is.
pub choose_node-none :
    (s : Scheduler) (now : Time) (nodes : List Node) (assignments : List Assignment)
    (req : ResourceRequirements) (placement : Placement) (ports : List ℤ) (m : Node)
    → choose_node s now nodes assignments req placement ports ≡ none
    → In m nodes
    → ¬ Eligible s now assignments req placement ports m
unfolding choose_node
choose_node-none s now nodes xs req placement ports m h j e =
    let j' = sorted_live s now nodes xs req placement ports m j e.live in
    false≢true (
      sym (
        first_node-none (tally s now nodes xs req placement ports) req placement ports
          (sort_by node_less (live_nodes s now nodes)) m h j')
      ∙ accepts_of_Eligible s now nodes xs req placement ports m
          (live_sorted s now nodes xs req placement ports m j') e)
