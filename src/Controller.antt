-- ===== src/Controller.antt =====
-- internal/controller/controller.go: the state of the controller, the liveness of nodes, the marking of
-- lost assignments, and the IDs of new assignments.
--
-- A method that may fail to return a value (a panic, or the search for a fresh ID that goes on for
-- ever) returns an option here, and `none` stands for that.
pub mod Ids
pub mod Services
pub mod Jobs
pub mod Reconcile
pub mod Liveness
pub mod Lost
pub mod Grace
pub mod Fresh
pub mod Placement
pub mod Stepped
pub mod Marked
pub mod Sound
pub mod Rounds
use k3_control_plane.Base.{
  ℕ, zero, suc, ◌+◌, String, Bool, true, false, not, ◌==◌, Option, none, some, List, [], ◌∷◌, map,
  nat_eq, ltb, leb, if◌then◌else◌,
}
use k3_control_plane.Base.Int.{ℤ, ltb_ℤ}
use k3_control_plane.Base.Assoc
use k3_control_plane.Api.{Time, Node, Assignment}
use k3_control_plane.Api.Phases.{lost, is_active_phase}
use k3_control_plane.Store.{MemoryStore, list_nodes, list_assignments, update_assignment_status}
use k3_control_plane.Scheduler.{Scheduler, Duration, since, StringSet}
use Prim.Native.String.{◌++◌}

-- `draws` counts the calls of `rand.Read` so far: the place in the random source.
pub record Controller : Type 0 where
  pub store : MemoryStore
  pub scheduler : Scheduler
  pub node_timeout : Duration
  pub started_at : Time
  pub draws : ℕ

abbrev pub new_controller : MemoryStore → Scheduler → Duration → Controller
new_controller state scheduler node_timeout = record {
  store = state;
  scheduler = scheduler;
  node_timeout = node_timeout;
  started_at = 0;
  draws = 0;
}

-- The startup grace of one node.
unfoldable pub with_grace : Time → Node → Node
with_grace started_at node =
    if ltb node.last_heartbeat started_at then record node { last_heartbeat = started_at } else node

-- `c.nodes()`
unfoldable pub known_nodes : Controller → List Node
known_nodes c = map (with_grace c.started_at) (list_nodes c.store)

unfoldable pub add_live_nodes : Time → List Node → Duration → StringSet → StringSet
add_live_nodes now [] timeout live = live
add_live_nodes now (node ∷ nodes) timeout live =
    add_live_nodes now nodes timeout
      (if leb (since now node.last_heartbeat) timeout then Assoc.put node.id tt live else live)

unfoldable pub live_node_set : Time → List Node → Duration → StringSet
live_node_set now nodes timeout = add_live_nodes now nodes timeout []

-- The nodes that the controller takes for live.
unfoldable pub live_set : Time → Controller → StringSet
live_set now c = live_node_set now (known_nodes c) c.node_timeout

unfoldable pub lost_message : String → String
lost_message node_id = "node " ++ (node_id ++ " stopped heartbeating")

-- The loop of `markLostAssignments`.
unfoldable pub mark_lost : Time → StringSet → List Assignment → MemoryStore → MemoryStore
mark_lost now live [] s = s
mark_lost now live (a ∷ rest) s = mark_lost now live rest (
    if not (is_active_phase a.phase)
    then s
    else if Assoc.has a.node_id live
    then s
    else (update_assignment_status s a.id lost (lost_message a.node_id) now).0)

unfoldable pub mark_lost_assignments : Time → Controller → Controller
mark_lost_assignments now c = record c {
  store = mark_lost now (live_set now c) (list_assignments c.store) c.store;
}

-- `max` of two ints.
unfoldable pub max_int : ℤ → ℤ → ℤ
max_int a b = if ltb_ℤ b a then a else b
