-- ===== src/Scheduler.antt =====
-- internal/scheduler/scheduler.go: `ChooseNode`.
--
-- A duration is a number of nanoseconds, and the node timeout is not negative. `now.Sub(t)` saturates
-- at the largest duration; where it is negative in Go it is 0 here, which no test against a timeout
-- that is not negative tells apart.
pub mod Usage
pub mod Scan
pub mod Choice
pub mod Capacity
use k3_control_plane.Base.{
  ℕ, ◌-◌, ◌^◌, min, String, Bool, true, false, not, ◌||◌, ◌==◌, Option, none, some, List, [], ◌∷◌,
  ltb, if◌then◌else◌,
}
use k3_control_plane.Base.Int.{ℤ, ltb_ℤ, add64, sub64, int_eq}
use k3_control_plane.Base.Assoc
use k3_control_plane.Base.Assoc.{Assoc}
use k3_control_plane.Base.Sort.{sort_by}
use k3_control_plane.Api.{
  Time, StringMap, ResourceRequirements, Placement, Node, Assignment, zero_resources,
}
use k3_control_plane.Api.Phases.{is_active_phase}
use k3_control_plane.Store.{node_less}

abbrev pub Duration : Type 0
Duration = ℕ

abbrev pub max_duration : Duration
max_duration = 2 ^ 63 - 1

-- `now.Sub(t)`
unfoldable pub since : Time → Time → Duration
since now t = min (now - t) max_duration

pub record Scheduler : Type 0 where
  pub node_timeout : Duration

-- A `map[string]struct{}`.
abbrev pub StringSet : Type 0
StringSet = Assoc (Unit {0})

-- A `map[int]struct{}`, by its keys.
abbrev pub IntSet : Type 0
IntSet = List ℤ

unfoldable pub int_member : ℤ → IntSet → Bool
int_member p [] = false
int_member p (q ∷ s) = let rest = int_member p s in int_eq q p || rest

-- The first loop fills `liveNodes` and `liveNodeIDs`.
unfoldable pub live_nodes : Scheduler → Time → List Node → List Node
live_nodes s now [] = []
live_nodes s now (node ∷ nodes) =
    let rest = live_nodes s now nodes in
    if ltb s.node_timeout (since now node.last_heartbeat) then rest else node ∷ rest

unfoldable pub add_node_ids : List Node → StringSet → StringSet
add_node_ids [] ids = ids
add_node_ids (node ∷ nodes) ids = add_node_ids nodes (Assoc.put node.id tt ids)

-- `used` and `usedPorts`.
pub record Tally : Type 0 where
  pub used : Assoc ResourceRequirements
  pub used_ports : Assoc IntSet

unfoldable pub add_resources : ResourceRequirements → ResourceRequirements → ResourceRequirements
add_resources current r = record {
  cpu = add64 current.cpu r.cpu;
  memory = add64 current.memory r.memory;
}

-- `for _, port := range assignment.Ports`: the inner map is made where it is missing.
unfoldable pub add_ports : String → List ℤ → Assoc IntSet → Assoc IntSet
add_ports id [] m = m
add_ports id (port ∷ ports) m = add_ports id ports (Assoc.put id (port ∷ Assoc.get_or [] id m) m)

unfoldable pub count_assignment : StringSet → Assignment → Tally → Tally
count_assignment ids a t =
    if not (is_active_phase a.phase)
    then t
    else if not (Assoc.has a.node_id ids)
    then t
    else record {
      used =
          Assoc.put a.node_id
            (add_resources (Assoc.get_or zero_resources a.node_id t.used) a.resources) t.used;
      used_ports = add_ports a.node_id a.ports t.used_ports;
    }

-- The second loop.
unfoldable pub count_assignments : StringSet → List Assignment → Tally → Tally
count_assignments ids [] t = t
count_assignments ids (a ∷ rest) t = count_assignments ids rest (count_assignment ids a t)

unfoldable pub ports_clash : IntSet → List ℤ → Bool
ports_clash used [] = false
ports_clash used (port ∷ wanted) =
    let rest = ports_clash used wanted in if int_member port used then true else rest

-- A label that the node lacks reads as the empty string.
unfoldable pub matches_placement : StringMap → StringMap → Bool
matches_placement node_labels [] = true
matches_placement node_labels ((key, value) ∷ required) =
    let rest = matches_placement node_labels required in
    if not (Assoc.get_or "" key node_labels == value) then false else rest

unfoldable pub available_on : Tally → Node → ResourceRequirements
available_on t node =
    let current = Assoc.get_or zero_resources node.id t.used in
    record {
      cpu = sub64 node.capacity.cpu current.cpu;
      memory = sub64 node.capacity.memory current.memory;
    }

-- The third loop; `ErrNoEligibleNode` is `none`.
unfoldable pub first_node :
    Tally → ResourceRequirements → Placement → List ℤ → List Node → Option String
first_node t req placement ports [] = none
first_node t req placement ports (node ∷ nodes) =
    let rest = first_node t req placement ports nodes in
    let available = available_on t node in
    if not (matches_placement node.labels placement.required_labels)
    then rest
    else if ltb_ℤ available.cpu req.cpu || ltb_ℤ available.memory req.memory
    then rest
    else if ports_clash (Assoc.get_or [] node.id t.used_ports) ports
    then rest
    else some node.id

abbrev pub empty_tally : Tally
empty_tally = record { used = []; used_ports = [] }

unfoldable pub choose_node :
    Scheduler
    → Time
    → List Node
    → List Assignment
    → ResourceRequirements
    → Placement
    → List ℤ
    → Option String
choose_node s now nodes assignments req placement ports =
    let live = live_nodes s now nodes in
    let tally = count_assignments (add_node_ids live []) assignments empty_tally in
    first_node tally req placement ports (sort_by node_less live)
