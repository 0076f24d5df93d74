-- ===== src/Controller/Services.antt =====
-- internal/controller/services.go (`reconcileService`), with `pickAssignmentsToRemove` of controller.go.
pub mod Removal
pub mod ScaleDown
pub mod Fill
pub mod Converge
pub mod Report
use k3_control_plane.Base.{
  ℕ, zero, suc, ◌+◌, ◌-◌, ◌/◌, ◌^◌, String, Bool, true, false, ◌&&◌, Option, none, some, List, [],
  ◌∷◌, ◌++◌, nat_eq, ltb, str_ltb, length, take, filter_by, if◌then◌else◌,
}
use k3_control_plane.Base.Int.{ℤ, pos, pos_part, ltb_ℤ, sub_ℕ, add64, sub64}
use k3_control_plane.Base.Assoc
use k3_control_plane.Base.Sort.{sort_by}
use k3_control_plane.Api.{Time, Service, ServiceStatus, Assignment}
use k3_control_plane.Api.Phases.{Phase, pending, running, service, phase_eq, is_active_phase}
use k3_control_plane.Store.{
  MemoryStore, list_assignments, list_assignments_for_owner, delete_assignment, save_assignment,
  update_service_status,
}
use k3_control_plane.Scheduler.{StringSet, choose_node}
use k3_control_plane.Controller.{Controller, known_nodes, live_set}
use k3_control_plane.Controller.Ids.{Env, next_assignment_id}

-- Pending before others, then the newest, then the greatest ID.
unfoldable pub removal_less : Assignment → Assignment → Bool
removal_less a b =
    if phase_eq a.phase b.phase
    then (if nat_eq a.created_at b.created_at
        then str_ltb b.id a.id
        else ltb b.created_at a.created_at)
    else phase_eq a.phase pending

-- `sorted[:count]` panics where the count is negative.
unfoldable pub pick_assignments_to_remove : List Assignment → ℤ → Option (List Assignment)
pick_assignments_to_remove assignments count =
    let sorted = sort_by removal_less assignments in
    let count' = if ltb_ℤ (pos (length sorted)) count then pos (length sorted) else count in
    if ltb_ℤ count' (pos 0) then none else some (take (pos_part count') sorted)

-- The test of the loops that gather and report: active, and on a live node.
unfoldable pub is_active_live : StringSet → Assignment → Bool
is_active_live live a = is_active_phase a.phase && Assoc.has a.node_id live

unfoldable pub delete_all : List Assignment → MemoryStore → MemoryStore
delete_all [] s = s
delete_all (a ∷ rest) s = delete_all rest (delete_assignment s a.id).0

unfoldable pub service_assignment : Service → String → String → Time → Assignment
service_assignment v id node_id now = record {
  id = id;
  owner_kind = service;
  owner_name = v.name;
  node_id = node_id;
  image = v.image;
  command = v.command;
  env = v.env;
  resources = v.resources;
  volumes = v.volumes;
  ports = v.ports;
  attempt = pos 1;
  phase = pending;
  status_message = "";
  created_at = now;
  started_at = none;
  finished_at = none;
}

-- The active assignments of the service on live nodes.
unfoldable pub active_of : StringSet → MemoryStore → Service → List Assignment
active_of live s v = filter_by (is_active_live live) (list_assignments_for_owner s service v.name)

-- The first part: where there are more than wanted, the excess is deleted and the rest read again.
unfoldable pub scale_down : StringSet → Controller → Service → Option (Controller × List Assignment)
scale_down live c v =
    let active = active_of live c.store v in
    if ltb_ℤ v.replicas (pos (length active))
    then elim (pick_assignments_to_remove active (sub64 (pos (length active)) v.replicas)) [
      | none ↦ none
      | some excess ↦
          let s = delete_all excess c.store in some (record c { store = s }, active_of live s v)
    ]
    else some (c, active)

-- `for len(active) < service.Replicas`, by the number of rounds left: a round appends one assignment or
-- breaks. Only the length of `active` is read below.
unfoldable pub fill : Env → ℕ → Time → Service → ℕ → Controller → Option Controller
fill env fuel now v zero c = some c
fill env fuel now v (suc missing) c =
    elim (choose_node c.scheduler now (known_nodes c) (list_assignments c.store) v.resources
      v.placement v.ports) [
        | none ↦ some c
        | some node_id ↦ elim (next_assignment_id env fuel c.store v.name (pos 1) c.draws) [
          | none ↦ none
          | some (id, draws) ↦ fill env fuel now v missing (record c {
            store = save_assignment c.store (service_assignment v id node_id now);
            draws = draws;
          })
        ]
      ]

-- `len(active)` short of the wanted number; a negative number of replicas wants none.
unfoldable pub missing_replicas : Service → List Assignment → ℕ
missing_replicas v active = pos_part v.replicas - length active

-- `now.Unix()`: seconds since 1970, from nanoseconds since the year 1.
unfoldable pub unix : Time → ℤ
unix now = sub_ℕ (now / 10 ^ 9) 62135596800

-- The body of the last loop.
unfoldable pub add_one : StringSet → Assignment → ServiceStatus → ServiceStatus
add_one live a status =
    if is_active_live live a
    then record status {
      assignment_ids = status.assignment_ids ++ a.id ∷ [];
      pending_replicas =
          if phase_eq a.phase pending
          then add64 status.pending_replicas (pos 1)
          else status.pending_replicas;
      running_replicas =
          if phase_eq a.phase running
          then add64 status.running_replicas (pos 1)
          else status.running_replicas;
    }
    else status

unfoldable pub add_to_status : StringSet → List Assignment → ServiceStatus → ServiceStatus
add_to_status live [] status = status
add_to_status live (a ∷ rest) status = add_to_status live rest (add_one live a status)

unfoldable pub service_status : StringSet → Time → Service → MemoryStore → ServiceStatus
service_status live now v s =
    let status = add_to_status live (list_assignments_for_owner s service v.name) (record {
      desired_replicas = v.replicas;
      pending_replicas = pos 0;
      running_replicas = pos 0;
      assignment_ids = [];
      last_reconciled_unix = unix now;
    }) in
    record status { assignment_ids = sort_by str_ltb status.assignment_ids }

unfoldable pub reconcile_service : Env → ℕ → Time → Controller → Service → Option Controller
reconcile_service env fuel now c v =
    let live = live_set now c in
    elim (scale_down live c v) [
      | none ↦ none
      | some (c', active) ↦ elim (fill env fuel now v (missing_replicas v active) c') [
        | none ↦ none
        | some c'' ↦
            let status = service_status live now v c''.store in
            some (record c'' { store = (update_service_status c''.store v.name status).0 })
      ]
    ]
