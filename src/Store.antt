-- ===== src/Store.antt =====
-- internal/store: `MemoryStore`, the reference implementation of the `Store` interface (store.go,
-- nodes.go, services.go, jobs.go, assignments.go). The mutex makes each method one step, so a method
-- is a function of the store; one that writes returns the new store, with its result if it has one.
pub mod Order
pub mod Keyed
pub mod Writes
pub mod Admissible
pub mod Listing
pub mod Status
pub mod Reports
pub mod Delete
use k3_control_plane.Base.{
  ℕ, String, Bool, true, false, ◌&&◌, ◌==◌, Option, none, some, List, [], ◌∷◌, map, nat_eq, ltb,
  str_ltb, filter_by, if◌then◌else◌,
}
use k3_control_plane.Base.Assoc
use k3_control_plane.Base.Assoc.{Assoc}
use k3_control_plane.Base.Sort.{sort_by}
use k3_control_plane.Api.{
  Time, Node, Service, ServiceStatus, Job, JobStatus, Assignment, StateSnapshot,
}
use k3_control_plane.Api.Phases.{Phase, running, Kind, kind_eq, phase_eq, is_terminal_phase}
use k3_control_plane.Api.Phases
use k3_control_plane.Api.Clone.{clone_node, clone_service, clone_job, clone_assignment}

pub record MemoryStore : Type 0 where
  pub nodes : Assoc Node
  pub services : Assoc Service
  pub jobs : Assoc Job
  pub assignments : Assoc Assignment

abbrev pub new_memory_store : MemoryStore
new_memory_store = record { nodes = []; services = []; jobs = []; assignments = [] }

-- nodes.go

unfoldable pub upsert_node : MemoryStore → Node → MemoryStore
upsert_node s node = record s { nodes = Assoc.put node.id (clone_node node) s.nodes }

unfoldable pub touch_node : MemoryStore → String → Time → MemoryStore × Bool
touch_node s id now = elim (Assoc.get id s.nodes) [
  | none ↦ (s, false)
  | some node ↦
      (record s { nodes = Assoc.put id (record node { last_heartbeat = now }) s.nodes }, true)
]

unfoldable pub node_less : Node → Node → Bool
node_less a b = str_ltb a.id b.id

unfoldable pub list_nodes : MemoryStore → List Node
list_nodes s = sort_by node_less (map clone_node (Assoc.values s.nodes))

-- services.go

unfoldable pub upsert_service : MemoryStore → Service → MemoryStore
upsert_service s service = record s {
  services = Assoc.put service.name (clone_service service) s.services;
}

unfoldable pub update_service_status : MemoryStore → String → ServiceStatus → MemoryStore × Bool
update_service_status s name status = elim (Assoc.get name s.services) [
  | none ↦ (s, false)
  | some service ↦
      (record s { services = Assoc.put name (record service { status = status }) s.services }, true)
]

unfoldable pub service_less : Service → Service → Bool
service_less a b = str_ltb a.name b.name

unfoldable pub list_services : MemoryStore → List Service
list_services s = sort_by service_less (map clone_service (Assoc.values s.services))

unfoldable pub is_owned_by : Kind → String → Assignment → Bool
is_owned_by kind name assignment =
    kind_eq assignment.owner_kind kind && assignment.owner_name == name

-- `for id, assignment := range s.assignments { if … { delete(s.assignments, id) } }`: the loop meets
-- the entries of the first map, and deletes from the second, which starts as the same one.
unfoldable pub delete_owned :
    Kind → String → List (String × Assignment) → Assoc Assignment → Assoc Assignment
delete_owned kind name [] m = m
delete_owned kind name ((id, assignment) ∷ rest) m =
    delete_owned kind name rest (if is_owned_by kind name assignment then Assoc.remove id m else m)

unfoldable pub delete_service : MemoryStore → String → MemoryStore × Bool
delete_service s name = elim (Assoc.get name s.services) [
  | none ↦ (s, false)
  | some service ↦ (
    record s {
      services = Assoc.remove name s.services;
      assignments = delete_owned Phases.service name s.assignments s.assignments;
    },
    true,
  )
]

-- jobs.go

unfoldable pub upsert_job : MemoryStore → Job → MemoryStore
upsert_job s job = record s { jobs = Assoc.put job.name (clone_job job) s.jobs }

unfoldable pub update_job_status : MemoryStore → String → JobStatus → MemoryStore × Bool
update_job_status s name status = elim (Assoc.get name s.jobs) [
  | none ↦ (s, false)
  | some job ↦ (record s { jobs = Assoc.put name (record job { status = status }) s.jobs }, true)
]

unfoldable pub job_less : Job → Job → Bool
job_less a b = str_ltb a.name b.name

unfoldable pub list_jobs : MemoryStore → List Job
list_jobs s = sort_by job_less (map clone_job (Assoc.values s.jobs))

unfoldable pub delete_job : MemoryStore → String → MemoryStore × Bool
delete_job s name = elim (Assoc.get name s.jobs) [
  | none ↦ (s, false)
  | some job ↦ (
    record s {
      jobs = Assoc.remove name s.jobs;
      assignments = delete_owned Phases.job name s.assignments s.assignments;
    },
    true,
  )
]

-- assignments.go

unfoldable pub save_assignment : MemoryStore → Assignment → MemoryStore
save_assignment s assignment = record s {
  assignments = Assoc.put assignment.id (clone_assignment assignment) s.assignments;
}

unfoldable pub has_assignment : MemoryStore → String → Bool
has_assignment s id = elim (Assoc.get id s.assignments) [ none ↦ false | some _ ↦ true ]

unfoldable pub delete_assignment : MemoryStore → String → MemoryStore × Bool
delete_assignment s id = elim (Assoc.get id s.assignments) [
  | none ↦ (s, false)
  | some _ ↦ (record s { assignments = Assoc.remove id s.assignments }, true)
]

-- The first time that the assignment is reported running is kept.
unfoldable pub first_start : Phase → Option Time → Time → Option Time
first_start phase (some t) now = some t
first_start phase none now = if phase_eq phase running then some now else none

-- `applyStatus`: the assignment after the call, and whether it changed.
unfoldable pub apply_status : Assignment → Phase → String → Time → Assignment × Bool
unfolding first_start
apply_status assignment phase message now =
    if is_terminal_phase assignment.phase then (assignment, false) else (
      record assignment {
        phase = phase;
        status_message = message;
        started_at = first_start phase assignment.started_at now;
        finished_at = if is_terminal_phase phase then some now else assignment.finished_at;
      },
      true,
    )

-- The zero assignment and `false` of a missing key are `none`.
unfoldable pub update_assignment_status :
    MemoryStore → String → Phase → String → Time → MemoryStore × Option Assignment
update_assignment_status s id phase message now = elim (Assoc.get id s.assignments) [
  | none ↦ (s, none)
  | some assignment ↦
      let (assignment', changed) = apply_status assignment phase message now in
      (
        if changed then record s { assignments = Assoc.put id assignment' s.assignments } else s,
        some (clone_assignment assignment'),
      )
]

unfoldable pub assignment_less : Assignment → Assignment → Bool
assignment_less a b =
    if nat_eq a.created_at b.created_at then str_ltb a.id b.id else ltb a.created_at b.created_at

unfoldable pub list_assignments : MemoryStore → List Assignment
list_assignments s = sort_by assignment_less (map clone_assignment (Assoc.values s.assignments))

unfoldable pub list_node_assignments : MemoryStore → String → List Assignment
list_node_assignments s node_id = filter_by (λ a. a.node_id == node_id) (list_assignments s)

unfoldable pub list_assignments_for_owner : MemoryStore → Kind → String → List Assignment
list_assignments_for_owner s kind name = filter_by (is_owned_by kind name) (list_assignments s)

-- store.go

unfoldable pub snapshot : MemoryStore → StateSnapshot
snapshot s = record {
  nodes = list_nodes s;
  services = list_services s;
  jobs = list_jobs s;
  assignments = list_assignments s;
}
