-- ===== src/Store/Admissible.antt =====
-- What `MemoryStore` (internal/store) holds when objects come from the API: the fields that
-- internal/controller/handlers.go asks for, and the times of an assignment with its phase.
pub mod Rounds
use k3_control_plane.Base.{
  String, Bool, true, false, ◌≡◌, ◌≢◌, refl, Option, none, some, List, [], ◌∷◌, Bool-cases,
  Option-cases, inl, inr, arith,
}
use k3_control_plane.Base.Int.{pos, ltb_ℤ}
use k3_control_plane.Base.Assoc
use k3_control_plane.Base.Assoc.{Assoc}
use k3_control_plane.Base.Every.{Every, Every-put, Every-remove}
use k3_control_plane.Api.{Time, Node, Service, Job, Assignment}
use k3_control_plane.Api.Phases.{Phase, Kind, running, phase_eq, is_terminal_phase}
use k3_control_plane.Api.Clone.{clone_node_lem, clone_service_lem, clone_job_lem}
use k3_control_plane.Store
use k3_control_plane.Store.{MemoryStore, delete_owned, apply_status, first_start, is_owned_by}
use k3_control_plane.Store.Keyed.{
  IsKeyed, upsert_node-IsKeyed, touch_node-IsKeyed, upsert_service-IsKeyed, delete_service-IsKeyed,
  upsert_job-IsKeyed, delete_job-IsKeyed, update_assignment_status-IsKeyed,
}

abbrev pub HasId : Node → Type 0
HasId n = n.id ≢ ""

-- A service has a name and an image, and wants a replica or more.
abbrev pub IsService : Service → Type 0
IsService v = (v.name ≢ "") × (v.image ≢ "") × (ltb_ℤ (pos 0) v.replicas ≡ true)

abbrev pub IsJob : Job → Type 0
IsJob j = (j.name ≢ "") × (j.image ≢ "")

abbrev pub is_known : Option Time → Bool
is_known none = false
is_known (some t) = true

-- The time of the end is known exactly when the phase is terminal, and that of the start while the
-- assignment runs.
abbrev pub IsTimed : Assignment → Type 0
IsTimed a =
    (is_known a.finished_at ≡ is_terminal_phase a.phase)
    × (phase_eq a.phase running ≡ true → is_known a.started_at ≡ true)

pub record IsAdmissible (s : MemoryStore) : Type 0 where
  pub keyed : IsKeyed s
  pub nodes : Every HasId s.nodes
  pub services : Every IsService s.services
  pub jobs : Every IsJob s.jobs
  pub assignments : Every IsTimed s.assignments

pub upsert_node-IsAdmissible :
    (s : MemoryStore) (n : Node) → HasId n → IsAdmissible s → IsAdmissible (Store.upsert_node s n)
unfolding Store.upsert_node
upsert_node-IsAdmissible s n p h = record {
  keyed = upsert_node-IsKeyed s n h.keyed;
  nodes = rw clone_node_lem (Every-put HasId n.id n s.nodes p h.nodes);
  services = h.services;
  jobs = h.jobs;
  assignments = h.assignments;
}

pub touch_node-IsAdmissible :
    (s : MemoryStore) (id : String) (now : Time)
    → IsAdmissible s
    → IsAdmissible (Store.touch_node s id now).0
unfolding Store.touch_node
touch_node-IsAdmissible s id now h = elim (Option-cases (Assoc.get id s.nodes)) [
  | inl e ↦ rw (e, Store.touch_node) h
  | inr (node, e) ↦
      let keyed : IsKeyed
          (record s { nodes = Assoc.put id (record node { last_heartbeat = now }) s.nodes }) =
        rw (e, Store.touch_node) at (touch_node-IsKeyed s id now h.keyed) in
      rw (e, Store.touch_node)
        (record {
          keyed = keyed;
          nodes = Every-put HasId id _ s.nodes (h.nodes id node e) h.nodes;
          services = h.services;
          jobs = h.jobs;
          assignments = h.assignments;
        })
]

pub upsert_service-IsAdmissible :
    (s : MemoryStore) (v : Service)
    → IsService v
    → IsAdmissible s
    → IsAdmissible (Store.upsert_service s v)
unfolding Store.upsert_service
upsert_service-IsAdmissible s v p h = record {
  keyed = upsert_service-IsKeyed s v h.keyed;
  nodes = h.nodes;
  services = rw clone_service_lem (Every-put IsService v.name v s.services p h.services);
  jobs = h.jobs;
  assignments = h.assignments;
}

pub upsert_job-IsAdmissible :
    (s : MemoryStore) (j : Job) → IsJob j → IsAdmissible s → IsAdmissible (Store.upsert_job s j)
unfolding Store.upsert_job
upsert_job-IsAdmissible s j p h = record {
  keyed = upsert_job-IsKeyed s j h.keyed;
  nodes = h.nodes;
  services = h.services;
  jobs = rw clone_job_lem (Every-put IsJob j.name j s.jobs p h.jobs);
  assignments = h.assignments;
}

delete_owned-Every :
    (kind : Kind) (name : String) (entries : List (String × Assignment)) (m : Assoc Assignment)
    → Every IsTimed m
    → Every IsTimed (delete_owned kind name entries m)
unfolding delete_owned
delete_owned-Every kind name [] m h = h
delete_owned-Every kind name ((id, a) ∷ rest) m h = elim (Bool-cases (is_owned_by kind name a)) [
  | inl e ↦
      rw e (delete_owned-Every kind name rest (Assoc.remove id m) (Every-remove IsTimed id m h))
  | inr e ↦ rw e (delete_owned-Every kind name rest m h)
]

pub delete_service-IsAdmissible :
    (s : MemoryStore) (name : String)
    → IsAdmissible s
    → IsAdmissible (Store.delete_service s name).0
unfolding Store.delete_service
delete_service-IsAdmissible s name h = elim (Option-cases (Assoc.get name s.services)) [
  | inl e ↦ rw (e, Store.delete_service) h
  | inr (v, e) ↦
      let keyed = delete_service-IsKeyed s name h.keyed in
      rw (e, Store.delete_service)
        (record {
          keyed = rw (e, Store.delete_service) at keyed;
          nodes = h.nodes;
          services = Every-remove IsService name s.services h.services;
          jobs = h.jobs;
          assignments = delete_owned-Every _ name s.assignments s.assignments h.assignments;
        })
]

pub delete_job-IsAdmissible :
    (s : MemoryStore) (name : String) → IsAdmissible s → IsAdmissible (Store.delete_job s name).0
unfolding Store.delete_job
delete_job-IsAdmissible s name h = elim (Option-cases (Assoc.get name s.jobs)) [
  | inl e ↦ rw (e, Store.delete_job) h
  | inr (v, e) ↦
      let keyed = delete_job-IsKeyed s name h.keyed in
      rw (e, Store.delete_job)
        (record {
          keyed = rw (e, Store.delete_job) at keyed;
          nodes = h.nodes;
          services = h.services;
          jobs = Every-remove IsJob name s.jobs h.jobs;
          assignments = delete_owned-Every _ name s.assignments s.assignments h.assignments;
        })
]

first_start-known :
    (phase : Phase) (known : Option Time) (now : Time)
    → phase_eq phase running ≡ true
    → is_known (first_start phase known now) ≡ true
unfolding first_start
first_start-known phase (some t) now e = refl
first_start-known phase none now e = rw e refl

apply_status-IsTimed :
    (a : Assignment) (phase : Phase) (message : String) (now : Time)
    → IsTimed a
    → IsTimed (apply_status a phase message now).0
unfolding apply_status
apply_status-IsTimed a phase message now h = elim (Bool-cases (is_terminal_phase a.phase)) [
  | inl e ↦ rw e h
  | inr e ↦ elim (Bool-cases (is_terminal_phase phase)) [
    | inl t ↦ rw (e, t) (refl, first_start-known phase a.started_at now)
    | inr t ↦ rw (e, t) (ground (arith, h, e), first_start-known phase a.started_at now)
  ]
]

pub update_assignment_status-IsAdmissible :
    (s : MemoryStore) (id : String) (phase : Phase) (message : String) (now : Time)
    → IsAdmissible s
    → IsAdmissible (Store.update_assignment_status s id phase message now).0
unfolding Store.update_assignment_status
update_assignment_status-IsAdmissible s id phase message now h =
    let keyed = update_assignment_status-IsKeyed s id phase message now h.keyed in
    elim (Option-cases (Assoc.get id s.assignments)) [
      | inl e ↦ rw (e, Store.update_assignment_status) h
      | inr (a, e) ↦ elim (Bool-cases (apply_status a phase message now).1) [
        | inr same ↦ rw (e, same, Store.update_assignment_status) h
        | inl changed ↦
            rw (e, changed, Store.update_assignment_status)
              (record {
                keyed = rw (e, changed, Store.update_assignment_status) at keyed;
                nodes = h.nodes;
                services = h.services;
                jobs = h.jobs;
                assignments =
                    Every-put IsTimed id _ s.assignments
                      (apply_status-IsTimed a phase message now (h.assignments id a e))
                      h.assignments;
              })
      ]
    ]
